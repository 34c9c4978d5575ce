-- ===== src/Pipeline/Guarantees.antt =====
-- What a client of the whole pipeline can rely on, at every moment of every run.
use trackrelay.Domain.Delivery.{is_delivered}
use trackrelay.Prelude.{
  Option-cases, nat_beq_iff, Bool-cases, is_none, length, All, All-map_imp, ◌==◌, nat_equality,
  string_equality, option_equality, pair_equality, select, exists_row, count_rows, ◌≤◌, ◌≡◌, refl,
  subst, ◌⊎◌, inl, inr, Bool, true, false, ◌&&◌, none, List, [], ◌∷◌, arith,
}
use trackrelay.Domain.Timestamp.{TimestampColumn}
use trackrelay.Domain.Event.{Uuid}
use trackrelay.Models.{DeliveryAttempt, DeliveryOutboxEntry, Partner, TestRun}
use trackrelay.Models.Constraints.{Unique}
use trackrelay.Downstream.{has_key, SimulatorMode, empty_store}
use trackrelay.Pipeline.{World, Reachable}
use trackrelay.Pipeline.Invariant.{IsRecorded, IsSound, Reaches, keys_of, AreReceipts}
use trackrelay.Pipeline.Soundness.{Reachable-IsSound}

-- Partners and test runs are registered; nothing has been accepted yet.
abbrev pub fresh_world : List Partner → List TestRun → SimulatorMode → World
fresh_world partners test_runs mode = record {
  database = record {
    partners = partners;
    shipments = [];
    events = [];
    outbox = [];
    attempts = [];
    test_runs = test_runs;
  };
  queue = [];
  dead_letters = [];
  simulator = record { mode = mode; store = empty_store };
}

pub fresh-IsSound :
    (partners : List Partner) (runs : List TestRun) (mode : SimulatorMode)
    → IsSound (fresh_world partners runs mode)
fresh-IsSound partners runs mode = record {
  entries = tt;
  backed = tt;
  receipts = tt;
  unique_keys = tt;
  recorded = tt;
}

-- The entry of the event is still to be published.
abbrev pub IsPending : World → Uuid → Type 0
IsPending w id =
    exists_row (λ o. o.event_id == id && is_none o.published_at) w.database.outbox ≡ true

entry_of_event :
    (w : World) (id : Uuid) (rows : List DeliveryOutboxEntry)
    → exists_row (λ o. o.event_id == id) rows ≡ true
    → All (λ o. (o.published_at ≡ none) ⊎ Reaches w o.event_id) rows
    → (exists_row (λ o. o.event_id == id && is_none o.published_at) rows ≡ true) ⊎ Reaches w id
entry_of_event w id [] had h = absurd (cc)
entry_of_event w id (o ∷ os) had h = elim (Bool-cases (o.event_id == id)) [
  | inl own ↦ elim h.0 [
    | inl pending ↦ inl (rw (own, pending))
    | inr reached ↦ inr (subst (Reaches w) ((nat_beq_iff o.event_id id).0 own) reached)
  ]
  | inr other ↦ elim (entry_of_event w id os (rw other at had) h.1) [
    | inl pending ↦ inl (rw (other, pending))
    | inr reached ↦ inr reached
  ]
]

none_selected :
    (p : Uuid → Bool) (ks : List Uuid) → exists_row p ks ≡ false → length (select p ks) ≡ 0
none_selected p [] h = refl
none_selected p (k ∷ ks) h = ground (arith, none_selected p ks)

count-Unique :
    (id : Uuid) (ks : List Uuid) → Unique (λ (k : Uuid). k) ks → count_rows (λ k. k == id) ks ≤ 1
count-Unique id [] u = omega arith
count-Unique id (k ∷ ks) u = elim (Bool-cases (k == id)) [
  | inl own ↦
      let alone =
        none_selected (λ y. y == id) ks
          (subst (λ x. exists_row (λ y. y == x) ks ≡ false) ((nat_beq_iff k id).0 own) u.0) in
      rw (own, alone) (omega arith)
  | inr other ↦ (let rest = count-Unique id ks u.1 in rw (other) rest)
]

recorded_cases :
    (keys : List Uuid) (a : DeliveryAttempt)
    → IsRecorded keys a
    → (is_delivered a.result ≡ false) ⊎ (a.response_code ≡ none) ⊎ (has_key a.event_id keys ≡ true)
recorded_cases keys a h = elim (Bool-cases (is_delivered a.result)) [
  | inr failed ↦ inl failed
  | inl arrived ↦ elim (Option-cases a.response_code) [
    | inl missing ↦ inr (inl missing)
    | inr (code, found) ↦ inr (inr (h arrived code found))
  ]
]

module _ (column : TimestampColumn) (partners : List Partner) (runs : List TestRun)
    (mode : SimulatorMode) {w : World}
    (run : Reachable column (fresh_world partners runs mode) w) where
  sound : IsSound w
  sound = Reachable-IsSound column (fresh-IsSound partners runs mode) run

  -- In every state that the steps of the pipeline lead to from a fresh one, no accepted event is
  -- lost: whatever has failed so far, its entry is pending, or its message is in the source queue
  -- or the dead-letter queue, or the order system has its receipt.
  pub no_event_lost : All (λ e. IsPending w e.id ⊎ Reaches w e.id) w.database.events
  no_event_lost =
      All-map_imp _ _ w.database.events
        (λ e had. entry_of_event w e.id w.database.outbox had sound.backed) sound.entries

  -- In every state that the steps of the pipeline lead to from a fresh one, effects are at most
  -- once: however often an event was delivered, the order system has at most one receipt under its
  -- id; the receipts are, one by one, the persisted events of their ids; and the event of an
  -- attempt that is recorded as delivered, with a response code, has its receipt.
  pub effects_once :
      ((id : Uuid) → count_rows (λ k. k == id) (keys_of w) ≤ 1)
      × AreReceipts w.database.events (keys_of w) w.simulator.store.events
      × All
          (λ a.
            (is_delivered a.result ≡ false)
            ⊎ (a.response_code ≡ none)
            ⊎ (has_key a.event_id (keys_of w) ≡ true))
          w.database.attempts
  effects_once = (
    λ id. count-Unique id (keys_of w) sound.unique_keys,
    sound.receipts,
    All-map_imp _ _ w.database.attempts (recorded_cases (keys_of w)) sound.recorded,
  )
