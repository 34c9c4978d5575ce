-- ===== src/Pipeline/Soundness.antt =====
-- Each step of the relation keeps the pipeline sound, and so does a run.
use trackrelay.Prelude.{
  nat_beq_iff, Bool-cases, All-append, All-map_imp, ◌==◌, nat_equality, string_equality,
  option_equality, pair_equality, beq_refl, exists_row-append, ℕ, ◌≡◌, refl, inl, inr, true, none,
  some, [], ◌∷◌, ◌++◌, arith, ok,
}
use trackrelay.Domain.Timestamp.{TimestampColumn}
use trackrelay.Domain.Event.{Uuid, NormalizedEvent}
use trackrelay.Downstream.{SimulatorMode, has_key, set_mode}
use trackrelay.Services.EventPersistence.{
  persist_normalized_event, locked_shipment, persisted_event,
}
use trackrelay.Services.EventPersistence.Outcomes.{applied_after, reason_after}
use trackrelay.Services.EventPersistence.Retry.{persist_keeps}
use trackrelay.Services.DownstreamWorker.{load_persisted_normalized_event}
use trackrelay.Pipeline.{
  World, NetworkFault, Step, Reachable, persist, publish, relay, process, die, redrive, switch,
  here, next, simulator_client, remove_first,
}
use trackrelay.Pipeline.Invariant.{
  IsSound, Reaches, keys_of, AreReceipts-event, has_key-append_mono, has_key-append_self,
  has_key-remove_ne, event_of_loaded,
}
use trackrelay.Pipeline.Posting.{post_lem}
use trackrelay.Pipeline.Recording.{delivered_IsSound, old_rows_IsRecorded}
use trackrelay.Pipeline.Processing.{process_message-IsSound}
use trackrelay.Pipeline.Publishing.{publish-IsSound, relay-IsSound}

-- An accepted event brings its own entry, which is pending.
persist-IsSound :
    (column : TimestampColumn) (e : NormalizedEvent) (new_id : Uuid) (now : ℕ) (w : World)
    → IsSound w
    → IsSound (record w { database = (persist_normalized_event column e new_id now w.database).1 })
persist-IsSound column e new_id now w h =
    persist_keeps column e new_id now (λ db. IsSound (record w { database = db })) w.database
      (λ _. record {
        entries =
            All-append _ w.database.events _
              (All-map_imp _ _ w.database.events
                (λ x had. ground (
                  arith,
                  had,
                  exists_row-append (λ o. o.event_id == x.id) w.database.outbox
                      (record { event_id = new_id; created_at = now; published_at = none } ∷ []),
                ))
                h.entries)
              (
                ground (
                  arith,
                  beq_refl new_id,
                  exists_row-append (λ o. o.event_id == new_id) w.database.outbox
                      (record { event_id = new_id; created_at = now; published_at = none } ∷ []),
                ),
                tt,
              );
        backed = All-append _ w.database.outbox _ h.backed (inl refl, tt);
        receipts =
            AreReceipts-event w.database.events
              (persisted_event column e new_id now
                (applied_after column e new_id now (locked_shipment e w.database))
                (reason_after column e new_id now (locked_shipment e w.database)))
              (keys_of w) w.simulator.store.events h.receipts;
        unique_keys = h.unique_keys;
        recorded = h.recorded;
      })
      h

-- A POST whose record was never made.
die-IsSound :
    (network : NetworkFault) (id : Uuid) (event : NormalizedEvent) (w : World)
    → load_persisted_normalized_event id w.database ≡ ok event
    → IsSound w
    → IsSound
        (record w { simulator = ((simulator_client network).post event (some id) w.simulator).1 })
die-IsSound network id event w loaded h =
    let posted = (simulator_client network).post event (some id) w.simulator in
    let (x, held) =
      post_lem w.database.events id event (event_of_loaded id w.database event loaded) network
        w.simulator (record { receipts = h.receipts; unique = h.unique_keys }) in
    delivered_IsSound w posted.1 w.database.attempts h x (old_rows_IsRecorded w posted.1 h x)

-- A message that is moved is still in one of the queues.
redrive-IsSound :
    (id : Uuid) (w : World)
    → IsSound w
    → IsSound
        (record w { queue = remove_first id w.queue; dead_letters = w.dead_letters ++ id ∷ [] })
redrive-IsSound id w h = record {
  entries = h.entries;
  backed =
      All-map_imp _ _ w.database.outbox
        (λ o b. elim b [ inl pending ↦ inl pending | inr reached ↦ inr (moved o.event_id reached) ])
        h.backed;
  receipts = h.receipts;
  unique_keys = h.unique_keys;
  recorded = h.recorded;
}
  where
    after : World
    after = record w { queue = remove_first id w.queue; dead_letters = w.dead_letters ++ id ∷ [] }

    queued : (k : Uuid) → has_key k w.queue ≡ true → Reaches after k
    queued k here_still = elim (Bool-cases (id == k)) [
      | inl same ↦
          inr (inl (rw (← (nat_beq_iff id k).0 same) (has_key-append_self id w.dead_letters)))
      | inr ne ↦ inl (has_key-remove_ne id k w.queue ne here_still)
    ]

    moved : (k : Uuid) → Reaches w k → Reaches after k
    moved k (inl q) = queued k q
    moved k (inr (inl dead)) = inr (inl (has_key-append_mono k w.dead_letters (id ∷ []) dead))
    moved k (inr (inr held)) = inr (inr held)

switch-IsSound :
    (mode : SimulatorMode) (w : World)
    → IsSound w
    → IsSound (record w { simulator = (set_mode mode w.simulator).1 })
unfolding set_mode
switch-IsSound mode w h = record {
  entries = h.entries;
  backed = h.backed;
  receipts = h.receipts;
  unique_keys = h.unique_keys;
  recorded = h.recorded;
}

module _ (column : TimestampColumn) where
  -- A step that persists an event, publishes one entry or a batch, processes a message, dies between
  -- a POST and its record, moves a message to the dead-letter queue, or switches the simulator's
  -- mode ends in a sound state of the pipeline if it starts in one. The simulator's clearing of its
  -- receipts and the expiry of messages in SQS are no such steps.
  pub Step-IsSound : {v w : World} → Step column v w → IsSound v → IsSound w
  Step-IsSound {v = v} (persist e new_id now) h = persist-IsSound column e new_id now v h
  Step-IsSound {v = v} (publish client contract locked now commit id) h =
      publish-IsSound v client contract locked now commit id h
  Step-IsSound {v = v} (relay client contract locked now commit batch_size) h =
      relay-IsSound v client contract locked now commit batch_size h
  Step-IsSound {v = v} (process clock network delete count id) h =
      process_message-IsSound clock network delete count id v h
  Step-IsSound {v = v} (die network id event loaded) h = die-IsSound network id event v loaded h
  Step-IsSound {v = v} (redrive id) h = redrive-IsSound id v h
  Step-IsSound {v = v} (switch mode) h = switch-IsSound mode v h

  pub Reachable-IsSound : {start w : World} → IsSound start → Reachable column start w → IsSound w
  Reachable-IsSound h here = h
  Reachable-IsSound h (next path step) = Step-IsSound step (Reachable-IsSound h path)
