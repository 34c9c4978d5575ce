-- ===== src/Domain/Shipment/Progress.antt =====
-- What the transition rule guarantees: it decides forward progress, and a shipment can only move
-- forward, at most four times.
use trackrelay.Prelude.{
  refl, ℕ, ◌+◌, ◌≤◌, ◌<◌, ◌≡◌, ◌≢◌, ◌↔◌, true, false, none, some, List, [], ◌∷◌, arith,
  if◌then◌else◌,
}
use trackrelay.Domain.Shipment.{
  ShipmentStatus, delivered, stale_event, terminal_state, non_forward_transition, status_order,
  evaluate_shipment_transition,
}

-- Forward progress: not older than the current state, and strictly later in the lifecycle.
abbrev pub IsForward : ShipmentStatus → ℕ → ShipmentStatus → ℕ → Type 0
IsForward s t s' t' = (t ≤ t') × (status_order s < status_order s')

module _ (s : ShipmentStatus) (t : ℕ) (s' : ShipmentStatus) (t' : ℕ) where
  -- A transition is applied exactly when it is forward progress, and it carries a reason exactly
  -- when it is rejected: an older event is stale, a later one at a delivered shipment meets a
  -- terminal state, and any other repeats or goes back.
  pub transition_exact :
      let d = evaluate_shipment_transition s t s' t' in
      ((d.applied ≡ true) ↔ IsForward s t s' t')
      × ((d.applied ≡ true) ↔ (d.rejection_reason ≡ none))
      × ((d.rejection_reason ≡ some stale_event) ↔ (t' < t))
      × ((d.rejection_reason ≡ some terminal_state) ↔ ((t ≤ t') × (s ≡ delivered)))
      × ((d.rejection_reason ≡ some non_forward_transition)
          ↔ ((t ≤ t') × (s ≢ delivered) × (status_order s' ≤ status_order s)))
  unfolding evaluate_shipment_transition
  transition_exact = (
    (ground arith, ground arith),
    (ground arith, ground arith),
    (ground arith, ground arith),
    (ground arith, ground arith),
    (ground arith, ground arith),
  )

-- The state that a shipment's row holds, and what one event makes of it.
abbrev pub Progress : Type 0
Progress = ShipmentStatus × ℕ

unfoldable pub advance : Progress → Progress → Progress
unfolding evaluate_shipment_transition
advance (s, t) (s', t') =
    if (evaluate_shipment_transition s t s' t').applied then (s', t') else (s, t)

pub advance_lem :
    (p e : Progress)
    → advance p e ≡ (if (evaluate_shipment_transition p.0 p.1 e.0 e.1).applied then e else p)
unfolding advance
advance_lem (s, t) (s', t') = refl

unfoldable pub advance_all : Progress → List Progress → Progress
advance_all p [] = p
advance_all p (e ∷ es) = advance_all (advance p e) es

-- how many of the events are applied
unfoldable pub applied_count : Progress → List Progress → ℕ
applied_count p [] = 0
applied_count p (e ∷ es) =
    let rest = applied_count (advance p e) es in
    if (evaluate_shipment_transition p.0 p.1 e.0 e.1).applied then rest + 1 else rest

advance_grows :
    (p e : Progress)
    → (p.1 ≤ (advance p e).1)
      × (((evaluate_shipment_transition p.0 p.1 e.0 e.1).applied ≡ true)
          → status_order p.0 < status_order (advance p e).0)
      × (((evaluate_shipment_transition p.0 p.1 e.0 e.1).applied ≡ false) → advance p e ≡ p)
unfolding advance
advance_grows (s, t) (s', t') = (ground arith, ground arith, ground arith)

status_order-le : (s : ShipmentStatus) → status_order s ≤ 4
status_order-le s = ground arith

-- Whatever events arrive in whatever order, the occurrence time of a shipment's state never goes
-- back, its status rises by at least the number of events that are applied, and so at most four
-- are applied in all.
pub progress_bounded :
    (p : Progress) (es : List Progress)
    → let q = advance_all p es in
      (p.1 ≤ q.1)
      × (status_order p.0 + applied_count p es ≤ status_order q.0)
      × (applied_count p es ≤ 4)
unfolding advance_all applied_count
progress_bounded p [] = ground (arith, status_order-le p.0)
progress_bounded p (e ∷ es) = ground (
  arith,
  advance_grows p e,
  progress_bounded (advance p e) es,
  status_order-le (advance_all (advance p e) es).0,
)
