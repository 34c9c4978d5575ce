-- ===== src/Services/EventPersistence/History.antt =====
-- The shipment row is the fold of its audit history: what the events of one tracking number make
-- of it, in the order in which they were accepted.
use trackrelay.Prelude.{
  String, List, Option, ℕ, ◌≡◌, none, scalar, some, ◌++◌, ◌∷◌, [], ◌==◌, nat_equality,
  option_equality, pair_equality, string_equality, if◌then◌else◌, arith, eq_iff, scalar-append,
  scalar-update_rows, scalar_holds, refl, beq_refl, false, Bool-cases, inl, inr,
  scalar-update_rows_ne,
}
use trackrelay.Domain.Timestamp.{TimestampColumn, AwareDatetime, instant_of}
use trackrelay.Domain.Shipment.Progress.{Progress, advance, advance_lem}
use trackrelay.Domain.Event.{Uuid, NormalizedEvent}
use trackrelay.Models.{Shipment, Event, Database}
use trackrelay.Services.EventPersistence.{locked_shipment, persist_normalized_event}
use trackrelay.Services.EventPersistence.Outcomes.{
  new_shipment, accepted, shipments_after, advanced_shipment, applies_to,
}
use trackrelay.Services.EventPersistence.Retry.{persist_keeps}

-- What one event makes of a shipment that may not exist yet.
abbrev pub reach : Option Progress → Progress → Option Progress
reach none p = some p
reach (some old) p = some (advance old p)

-- The state that a list of events leads to, counting those with one tracking number.
unfoldable pub history : String → Option Progress → List Event → Option Progress
history number state [] = state
history number state (x ∷ xs) =
    history number
      (if x.tracking_number == number
        then reach state (x.status, instant_of x.occurred_at)
        else state)
      xs

abbrev pub row_progress : Option Shipment → Option Progress
row_progress none = none
row_progress (some s) = some (s.current_status, instant_of s.current_status_occurred_at)

abbrev pub find_shipment : String → List Shipment → Option Shipment
find_shipment number = scalar (λ s. s.tracking_number == number)

-- Every shipment row holds what its events lead to, and a number without events has no row.
abbrev pub FollowsHistory : Database → Type 0
FollowsHistory db =
    (number : String)
    → row_progress (find_shipment number db.shipments) ≡ history number none db.events

-- The database keeps the instant of a timestamp, with or without its zone.
abbrev pub KeepsInstants : TimestampColumn → Type 0
KeepsInstants column = (t : AwareDatetime) → instant_of (column.stored t) ≡ t.instant

history-append :
    (number : String) (state : Option Progress) (xs : List Event) (x : Event)
    → history number state (xs ++ x ∷ []) ≡ (
        if x.tracking_number == number
        then reach (history number state xs) (x.status, instant_of x.occurred_at)
        else history number state xs)
unfolding history
history-append number state [] x = refl
history-append number state (y ∷ ys) x =
    history-append number
      (if y.tracking_number == number
        then reach state (y.status, instant_of y.occurred_at)
        else state)
      ys x

module _ (column : TimestampColumn) (keeps : KeepsInstants column) where
  module _ (e : NormalizedEvent) (new_id : Uuid) (now : ℕ) where
    abbrev after : Option Shipment → List Shipment → List Shipment
    after = shipments_after column e new_id now

    abbrev incoming : Progress
    incoming = (e.status, e.occurred_at.instant)

    -- The row of the event's own number.
    own_row :
        (rows : List Shipment) (seen : Option Shipment)
        → find_shipment e.tracking_number rows ≡ seen
        → row_progress (find_shipment e.tracking_number (after seen rows))
          ≡ reach (row_progress seen) incoming
    own_row rows none h = ground (
      arith,
      h,
      keeps e.occurred_at,
      beq_refl e.tracking_number,
      scalar-append (λ s. s.tracking_number == e.tracking_number) rows
          (new_shipment column e new_id now ∷ []),
    )
    own_row rows (some s) h = elim (Bool-cases (applies_to column e new_id now s)) [
      | inl yes_applied ↦
          rw
            (
              yes_applied,
              scalar-update_rows (λ r. r.tracking_number == e.tracking_number)
                  (λ r. r.tracking_number == e.tracking_number)
                  (advanced_shipment column e new_id now) rows (λ r. refl),
              h,
              advance_lem,
            )
            (rw (
              scalar_holds (λ r. r.tracking_number == e.tracking_number) rows s h,
              keeps e.occurred_at,
              yes_applied,
            ))
      | inr not_applied ↦ rw (not_applied, h, advance_lem) (rw not_applied)
    ]

    -- The row of any other number.
    other_row :
        (number : String) (rows : List Shipment) (seen : Option Shipment)
        → find_shipment e.tracking_number rows ≡ seen
        → (e.tracking_number == number) ≡ false
        → find_shipment number (after seen rows) ≡ find_shipment number rows
    other_row number rows none h other = ground (
      arith,
      other,
      scalar-append (λ s. s.tracking_number == number) rows (new_shipment column e new_id now ∷ []),
    )
    other_row number rows (some s) h other = elim (Bool-cases (applies_to column e new_id now s)) [
      | inl yes_applied ↦ rw yes_applied (
          scalar-update_rows_ne (λ r. r.tracking_number == number)
            (λ r. r.tracking_number == e.tracking_number) (advanced_shipment column e new_id now)
            rows (λ r. refl)
            λ r same. ground (
              arith,
              other,
              eq_iff r.tracking_number e.tracking_number,
              eq_iff r.tracking_number number,
              eq_iff e.tracking_number number,
            ))
      | inr not_applied ↦ rw not_applied
    ]

    accepted-FollowsHistory :
        (db : Database) → FollowsHistory db → FollowsHistory (accepted column e new_id now db)
    accepted-FollowsHistory db h number = elim (Bool-cases (e.tracking_number == number)) [
      | inl own ↦ rw (← (eq_iff e.tracking_number number).0 own) (
          rw (
            own_row db.shipments (locked_shipment e db) refl,
            h e.tracking_number,
            history-append,
            beq_refl e.tracking_number,
            keeps e.occurred_at,
          ))
      | inr other ↦ rw (
        other_row number db.shipments (locked_shipment e db) refl other,
        h number,
        history-append,
        other,
      )
    ]

  -- If a database column keeps the instants that are written to it, and every shipment row holds
  -- what the accepted events of its tracking number lead to, in the order of their acceptance,
  -- then the same holds after a call, whatever its outcome.
  pub persist-FollowsHistory :
      (e : NormalizedEvent) (new_id : Uuid) (now : ℕ) (db : Database)
      → FollowsHistory db
      → FollowsHistory (persist_normalized_event column e new_id now db).1
  persist-FollowsHistory e new_id now db h =
      persist_keeps column e new_id now FollowsHistory db
        (λ _. accepted-FollowsHistory e new_id now db h) h
