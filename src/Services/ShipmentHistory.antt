-- ===== src/Services/ShipmentHistory.antt =====
-- services/shipment_history.py: the events of one shipment, in business-time order.
use trackrelay.Prelude.{
  ltb, leb, nat_beq, if◌then◌else◌, Bool-cases, All, All-map_imp, ◌==◌, string_equality,
  nat_equality, option_equality, pair_equality, select, count_rows, ℕ, String, ◌≡◌, refl, ◌⊎◌, inl,
  inr, Bool, true, false, ◌&&◌, ◌||◌, Option, none, some, List, [], ◌∷◌, arith,
}
use trackrelay.Domain.Timestamp.{instant_of}
use trackrelay.Models.{Event, Database}
use trackrelay.Models.Insert.{has_shipment}

-- One key of an ORDER BY, and what decides a tie.
abbrev pub ordered_by : ℕ → ℕ → Bool → Bool
ordered_by a b tie = ltb a b || (nat_beq a b && tie)

-- `ORDER BY occurred_at, received_at, created_at, id`
abbrev pub is_before : Event → Event → Bool
is_before a b = ordered_by (instant_of a.occurred_at) (instant_of b.occurred_at) (
    ordered_by (instant_of a.received_at) (instant_of b.received_at)
      (ordered_by a.created_at b.created_at (leb a.id b.id)))

unfoldable pub insert_event_row : Event → List Event → List Event
insert_event_row e [] = e ∷ []
insert_event_row e (x ∷ xs) =
    let rest = insert_event_row e xs in if is_before e x then e ∷ x ∷ xs else x ∷ rest

unfoldable pub order_events : List Event → List Event
unfolding insert_event_row
order_events [] = []
order_events (e ∷ es) = insert_event_row e (order_events es)

unfoldable pub list_shipment_events : String → Database → Option (List Event)
unfolding order_events
list_shipment_events tracking_number db =
    if has_shipment tracking_number db
    then some (order_events (select (λ e. e.tracking_number == tracking_number) db.events))
    else none

abbrev pub IsOrdered : List Event → Type 0
IsOrdered [] = Unit
IsOrdered (e ∷ es) = All (λ x. is_before e x ≡ true) es × IsOrdered es

is_before_total : (a b : Event) → is_before a b ≡ false → is_before b a ≡ true
is_before_total a b h = ground arith

is_before_trans :
    (a b c : Event) → is_before a b ≡ true → is_before b c ≡ true → is_before a c ≡ true
is_before_trans a b c h k = ground arith

count_rows-insert :
    (p : Event → Bool) (e : Event) (xs : List Event)
    → count_rows p (insert_event_row e xs) ≡ count_rows p (e ∷ xs)
unfolding insert_event_row
count_rows-insert p e [] = refl
count_rows-insert p e (x ∷ xs) = ground (arith, count_rows-insert p e xs)

count_rows-order :
    (p : Event → Bool) (xs : List Event) → count_rows p (order_events xs) ≡ count_rows p xs
unfolding order_events
count_rows-order p [] = refl
count_rows-order p (x ∷ xs) =
    ground (arith, count_rows-insert p x (order_events xs), count_rows-order p xs)

All-insert :
    (P : Event → Type 0) (e : Event) (xs : List Event)
    → P e
    → All P xs
    → All P (insert_event_row e xs)
unfolding insert_event_row
All-insert P e [] h k = (h, tt)
All-insert P e (x ∷ xs) h k = elim (Bool-cases (is_before e x)) [
  | inl first ↦ rw first (h, k)
  | inr later ↦ rw later (k.0, All-insert P e xs h k.1)
]

insert-IsOrdered : (e : Event) (xs : List Event) → IsOrdered xs → IsOrdered (insert_event_row e xs)
unfolding insert_event_row
insert-IsOrdered e [] h = (tt, tt)
insert-IsOrdered e (x ∷ xs) h = elim (Bool-cases (is_before e x)) [
  | inl first ↦ rw first ((first, All-map_imp _ _ xs (λ y k. is_before_trans e x y first k) h.0), h)
  | inr later ↦
      rw later (All-insert _ e xs (is_before_total e x later) h.0, insert-IsOrdered e xs h.1)
]

order-IsOrdered : (xs : List Event) → IsOrdered (order_events xs)
unfolding order_events
order-IsOrdered [] = tt
order-IsOrdered (x ∷ xs) = insert-IsOrdered x (order_events xs) (order-IsOrdered xs)

-- A shipment's listing is there exactly when the shipment is; it is in business-time order, with the
-- times of receipt and creation and the ids as ties, and it holds, as often as the table does, the
-- rows of its tracking number.
pub list_shipment_events_lem :
    (tracking_number : String) (db : Database)
    → ((has_shipment tracking_number db ≡ false) × (list_shipment_events tracking_number db ≡ none))
      ⊎ ((es : List Event) × (has_shipment tracking_number db ≡ true)
          × (list_shipment_events tracking_number db ≡ some es)
          × IsOrdered es
          × ((p : Event → Bool)
              → count_rows p es
                ≡ count_rows p (select (λ e. e.tracking_number == tracking_number) db.events)))
unfolding list_shipment_events
list_shipment_events_lem number db =
    let own = select (λ e. e.tracking_number == number) db.events in
    elim (Bool-cases (has_shipment number db)) [
      | inr absent ↦ inl (absent, rw absent)
      | inl present ↦
          inr (
            order_events own,
            present,
            rw present,
            order-IsOrdered own,
            λ p. count_rows-order p own,
          )
    ]
