-- ===== src/Pipeline/Processing.antt =====
-- One message keeps the pipeline sound: it is acknowledged only when its receipt is there.
use trackrelay.Prelude.{
  nat_beq_iff, Bool-cases, All-map_imp, Exec, ◌==◌, nat_equality, string_equality, option_equality,
  pair_equality, ℕ, ◌≡◌, inl, inr, true, Option, none, some, ok,
}
use trackrelay.Prelude.Actions.{bind_keeps, ◌>>=◌}
use trackrelay.Domain.Event.{Uuid, NormalizedEvent}
use trackrelay.Downstream.{has_key}
use trackrelay.Services.DownstreamDelivery.{DeliveryResult, AttemptClock}
use trackrelay.Services.DownstreamWorker.{
  load_recorded_delivery_result, acknowledge_with, deliver_unless_recorded,
}
use trackrelay.Pipeline.{
  World, NetworkFault, DeleteFault, deleted, delete_lost, reply_lost, remove_first, delete_message,
  world_message, world_load_event, world_load_recorded, world_deliver, process_message,
  DownstreamDeliveryMessage,
}
use trackrelay.Pipeline.Invariant.{event_of_loaded, keys_of, Reaches, IsSound, has_key-remove_ne}
use trackrelay.Pipeline.Recording.{recorded_held, world_deliver-IsSound}

-- Taking a message away is harmless once the receipt of its event is there.
removed_IsSound :
    (id : Uuid) (w : World)
    → IsSound w
    → has_key id (keys_of w) ≡ true
    → IsSound (record w { queue = remove_first id w.queue })
removed_IsSound id w h held = record {
  entries = h.entries;
  backed =
      All-map_imp _ _ w.database.outbox
        (λ o b. elim b [
          | inl pending ↦ inl pending
          | inr (inl queued) ↦ inr (still o.event_id queued)
          | inr (inr other) ↦ inr (inr other)
        ])
        h.backed;
  receipts = h.receipts;
  unique_keys = h.unique_keys;
  recorded = h.recorded;
}
  where
    still :
        (other : Uuid)
        → has_key other w.queue ≡ true
        → Reaches (record w { queue = remove_first id w.queue }) other
    still other queued = elim (Bool-cases (id == other)) [
      | inl same ↦ inr (inr (rw (← (nat_beq_iff id other).0 same) held))
      | inr ne ↦ inl (has_key-remove_ne id other w.queue ne queued)
    ]

acknowledged_IsSound :
    (id : Uuid) (fault : DeleteFault) (w : World)
    → IsSound w
    → has_key id (keys_of w) ≡ true
    → IsSound (delete_message id fault w).1
acknowledged_IsSound id deleted w h held = removed_IsSound id w h held
acknowledged_IsSound id delete_lost w h held = h
acknowledged_IsSound id reply_lost w h held = removed_IsSound id w h held

-- Whatever happens to a message and to its acknowledgement, the pipeline stays sound.
pub process_message-IsSound :
    (clock : AttemptClock) (network : NetworkFault) (delete : DeleteFault) (count : ℕ) (id : Uuid)
    (w : World)
    → IsSound w
    → IsSound (process_message clock network delete count id w).1
unfolding process_message
process_message-IsSound clock network delete count id w h =
    bind_keeps IsSound (world_load_recorded id)
      (deliver_unless_recorded (world_deliver clock network) world_load_event world_load_recorded
        message id)
      w h after_lookup
  where
    message : DownstreamDeliveryMessage World
    message = world_message id delete count

    acknowledged :
        (v : World) (d : DeliveryResult)
        → IsSound v
        → has_key id (keys_of v) ≡ true
        → IsSound
            (acknowledge_with
              (world_deliver clock network)
              world_load_event
              world_load_recorded
              message
              d
              v).1
    acknowledged v d sound held =
        bind_keeps IsSound message.acknowledge (λ _ u. (ok d, u)) v
          (acknowledged_IsSound id delete v sound held)
          (λ _ _. acknowledged_IsSound id delete v sound held)

    after_lookup :
        (found : Option DeliveryResult)
        → load_recorded_delivery_result id w.database ≡ ok found
        → IsSound
            (deliver_unless_recorded
              (world_deliver clock network)
              world_load_event
              world_load_recorded
              message
              id
              found
              w).1
    after_lookup (some d) e = acknowledged w d h (recorded_held id w d h e)
    after_lookup none e =
        let settle : DeliveryResult → Exec World DeliveryResult =
          acknowledge_with (world_deliver clock network) world_load_event world_load_recorded
            message in
        let attempt : NormalizedEvent → Exec World DeliveryResult =
          λ event. world_deliver clock network event id >>= settle in
        bind_keeps IsSound (world_load_event id) attempt w h λ event loaded.
          let (sound, held) =
            world_deliver-IsSound clock network event id w h
              (event_of_loaded id w.database event loaded) in
          bind_keeps IsSound (world_deliver clock network event id) settle w sound
            λ d done. acknowledged (world_deliver clock network event id w).1 d sound (held d done)
