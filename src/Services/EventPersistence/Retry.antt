-- ===== src/Services/EventPersistence/Retry.antt =====
-- A retry of an accepted event, and what any call of `persist_normalized_event` leaves.
use trackrelay.Prelude.{
  Bool-cases, string_equality, nat_equality, option_equality, pair_equality, beq_refl, scalar,
  exists_row-append, scalar-append, exists_row-eq-scalar, ℕ, ◌≡◌, refl, ap, ◌∙◌, ◌⊎◌, inl, inr,
  true, false, some, [], ◌∷◌, arith, ok,
}
use trackrelay.Domain.Timestamp.{TimestampColumn}
use trackrelay.Domain.Event.{Uuid, NormalizedEvent}
use trackrelay.Models.{Database, Event}
use trackrelay.Models.Insert.{
  has_identity, has_event, has_outbox_entry, has_partner, test_run_exists, same_identity,
}
use trackrelay.Services.EventPersistence.{
  persisted_event, locked_shipment, persist_normalized_event,
}
use trackrelay.Services.EventPersistence.Outcomes.{
  IsAcceptable, IsRefused, accepted, applied_after, reason_after, persist_accepts,
  persist_duplicate, persist_refuses,
}

-- In the database after an accepted event, its identity belongs to the new row.
original_of_accepted :
    (column : TimestampColumn) (e : NormalizedEvent) (new_id : Uuid) (now : ℕ) (db : Database)
    (original : Event)
    → has_identity e.partner_id e.partner_event_id db ≡ false
    → scalar
        (same_identity e.partner_id e.partner_event_id)
        (accepted column e new_id now db).events
      ≡ some original
    → original.id ≡ new_id
original_of_accepted column e new_id now db original unused found = ground (
  arith,
  beq_refl e.partner_id,
  beq_refl e.partner_event_id,
  exists_row-eq-scalar (same_identity e.partner_id e.partner_event_id) db.events,
  scalar-append (same_identity e.partner_id e.partner_event_id) db.events (
      persisted_event column e new_id now (applied_after column e new_id now (locked_shipment e db))
        (reason_after column e new_id now (locked_shipment e db))
      ∷ []),
)

has_identity-accepted :
    (column : TimestampColumn) (e : NormalizedEvent) (new_id : Uuid) (now : ℕ) (db : Database)
    → has_identity e.partner_id e.partner_event_id (accepted column e new_id now db) ≡ true
has_identity-accepted column e new_id now db = ground (
  arith,
  beq_refl e.partner_id,
  beq_refl e.partner_event_id,
  exists_row-append (same_identity e.partner_id e.partner_event_id) db.events (
      persisted_event column e new_id now (applied_after column e new_id now (locked_shipment e db))
        (reason_after column e new_id now (locked_shipment e db))
      ∷ []),
)

-- An event whose identity is unused, whose partner and test run are registered and whose drawn id
-- is fresh is accepted under that id; a retry, with whatever id is drawn and whenever, returns the
-- id of the first call as a duplicate, and changes nothing.
pub persist_retry :
    (column : TimestampColumn) (e : NormalizedEvent) (new_id : Uuid) (now : ℕ) (db : Database)
    (other_id : Uuid) (later : ℕ)
    → IsAcceptable e new_id db
    → let (r, db') = persist_normalized_event column e new_id now db in
      (r ≡ ok (record { event_id = new_id; duplicate = false }))
      × (persist_normalized_event column e other_id later db'
          ≡ (ok (record { event_id = new_id; duplicate = true }), db'))
persist_retry column e new_id now db other_id later h =
    let after = accepted column e new_id now db in
    let (original, found, again) =
      persist_duplicate column e other_id later after
        (has_identity-accepted column e new_id now db) in
    rw (persist_accepts column e new_id now db h) (
      refl,
      again
          ∙ ap (λ (id : Uuid). (ok (record { event_id = id; duplicate = true }), after))
              (original_of_accepted column e new_id now db original h.unused found),
    )

pub IsAcceptable-or_IsRefused :
    (column : TimestampColumn) (e : NormalizedEvent) (new_id : Uuid) (now : ℕ) (db : Database)
    → IsAcceptable e new_id db ⊎ IsRefused column e new_id now db
IsAcceptable-or_IsRefused column e new_id now db =
    elim (Bool-cases (has_identity e.partner_id e.partner_event_id db)) [
      | inl a ↦ inr (inl a)
      | inr a ↦ elim (Bool-cases (has_partner e.partner_id db)) [
        | inr b ↦ inr (inr (inl b))
        | inl b ↦ elim (Bool-cases (test_run_exists e.test_run_id db.test_runs)) [
          | inr c ↦ inr (inr (inr (inl c)))
          | inl c ↦ elim (Bool-cases (has_event new_id db)) [
            | inl d ↦ inr (inr (inr (inr (inl d))))
            | inr d ↦ elim (Bool-cases (has_outbox_entry new_id db)) [
              | inl f ↦ inr (inr (inr (inr (inr f))))
              | inr f ↦ inl (record {
                unused = a;
                known_partner = b;
                known_run = c;
                fresh_event = d;
                fresh_entry = f;
              })
            ]
          ]
        ]
      ]
    ]

-- A call either accepts a new event or leaves the database as it was.
pub persist_accepts_or_keeps :
    (column : TimestampColumn) (e : NormalizedEvent) (new_id : Uuid) (now : ℕ) (db : Database)
    → IsAcceptable e new_id db
        × (persist_normalized_event column e new_id now db ≡ (
          ok (record { event_id = new_id; duplicate = false }),
          accepted column e new_id now db,
        ))
      ⊎ ((persist_normalized_event column e new_id now db).1 ≡ db)
persist_accepts_or_keeps column e new_id now db =
    elim (IsAcceptable-or_IsRefused column e new_id now db) [
      | inl h ↦ inl (h, persist_accepts column e new_id now db h)
      | inr h ↦ elim (Bool-cases (has_identity e.partner_id e.partner_event_id db)) [
        | inl used ↦ inr (ap (λ r. r.1) (persist_duplicate column e new_id now db used).2)
        | inr new ↦ inr (ap (λ r. r.1) (persist_refuses column e new_id now db new h))
      ]
    ]

-- What holds of the database and of what an accepted event makes of it holds after any call.
pub persist_keeps :
    (column : TimestampColumn) (e : NormalizedEvent) (new_id : Uuid) (now : ℕ)
    (P : Database → Type 0) (db : Database)
    → (IsAcceptable e new_id db → P (accepted column e new_id now db))
    → P db
    → P (persist_normalized_event column e new_id now db).1
persist_keeps column e new_id now P db new old =
    elim (persist_accepts_or_keeps column e new_id now db) [
      | inl (h, q) ↦ rw q (new h)
      | inr q ↦ rw q old
    ]
