-- ===== src/Pipeline/Publishing.antt =====
-- The outbox calls keep the pipeline sound: an entry is marked only once its message is queued.
use trackrelay.Prelude.{
  All, All-map_imp, Done, Result, ◌==◌, nat_equality, string_equality, option_equality,
  pair_equality, exists_row-update_rows, ℕ, ◌≡◌, refl, ◌∙◌, ◌⊎◌, inl, inr, Bool, true, none, List,
}
use trackrelay.Domain.Event.{Uuid}
use trackrelay.Models.{DeliveryOutboxEntry, Database}
use trackrelay.Models.Insert.{has_outbox_entry}
use trackrelay.Downstream.{has_key}
use trackrelay.Services.DeliveryQueue.{DownstreamDeliveryQueue, IsQueue, delivery_job}
use trackrelay.Services.DeliveryOutbox.{publish_delivery_outbox_entry, mark_published}
use trackrelay.Services.DeliveryOutbox.Marking.{marked, publish_entry_keeps, publish_pending_keeps}
use trackrelay.Services.DeliveryOutbox.Publication.{publish_entry-IsBacked}
use trackrelay.Pipeline.{World, Holds, after_call, publish_pending_delivery_jobs}
use trackrelay.Pipeline.Invariant.{IsSound, keys_of}
use trackrelay.Services.DeliveryOutbox.Publication.{
  publish_entry-IsBacked, publish_pending-IsBacked,
}
use trackrelay.Models.{DeliveryOutboxEntry}
use trackrelay.Services.DeliveryOutbox.{mark_published}

-- What a queue holds beside its own messages cannot be lost by a call on it.
holds_or :
    (P : Uuid → Type 0) {client : DownstreamDeliveryQueue (List Uuid)}
    → IsQueue client Holds
    → IsQueue client (λ q job. Holds q job ⊎ P job.event_id)
holds_or P contract = record {
  accepts = λ job q done. inl (contract.accepts job q done);
  keeps = λ job other q held. elim held [
    | inl queued ↦ inl (contract.keeps job other q queued)
    | inr elsewhere ↦ inr elsewhere
  ];
}

-- Marking entries changes neither the events nor which of them have an entry.
entries_marked :
    (now : ℕ) (chosen : DeliveryOutboxEntry → Bool) (db : Database)
    → All (λ e. has_outbox_entry e.id db ≡ true) db.events
    → All (λ e. has_outbox_entry e.id (marked now chosen db) ≡ true) db.events
entries_marked now chosen db = All-map_imp _ _ db.events λ e had.
    exists_row-update_rows (λ o. o.event_id == e.id) chosen (mark_published now) db.outbox
      (λ o. refl)
    ∙ had

-- What an outbox call leaves alone, and keeps of the entries.
record KeepsTables (before after : Database) : Type 0 where
  entries : All (λ e. has_outbox_entry e.id after ≡ true) after.events
  same_events : after.events ≡ before.events
  same_attempts : after.attempts ≡ before.attempts

called_IsSound :
    (w : World) (db : Database) (queue : List Uuid)
    → IsSound w
    → KeepsTables w.database db
    → All
        (λ o.
          (o.published_at ≡ none)
          ⊎ (Holds queue (delivery_job o.event_id)
              ⊎ ((has_key o.event_id w.dead_letters ≡ true)
                  ⊎ (has_key o.event_id (keys_of w) ≡ true))))
        db.outbox
    → IsSound (record w { database = db; queue = queue })
called_IsSound w db queue h t backed = record {
  entries = t.entries;
  backed = backed;
  receipts = rw t.same_events h.receipts;
  unique_keys = h.unique_keys;
  recorded = rw t.same_attempts h.recorded;
}

-- An outbox call, from what it keeps of the tables and what it backs.
pub publish-IsSound :
    (w : World) (client : DownstreamDeliveryQueue (List Uuid)) (contract : IsQueue client Holds)
    (locked : Uuid → Bool) (now : ℕ) (commit : Result Done) (id : Uuid)
    → IsSound w
    → IsSound (
        after_call w (publish_delivery_outbox_entry client locked now commit id w.database w.queue))
publish-IsSound w client contract locked now commit id h =
    let elsewhere : Uuid → Type 0 =
      λ k. (has_key k w.dead_letters ≡ true) ⊎ (has_key k (keys_of w) ≡ true) in
    let (r, db, q) = publish_delivery_outbox_entry client locked now commit id w.database w.queue in
    called_IsSound w db q h
      (publish_entry_keeps (KeepsTables w.database) client locked now commit w.database
        (record { entries = h.entries; same_events = refl; same_attempts = refl })
        (λ chosen. record {
          entries = entries_marked now chosen w.database h.entries;
          same_events = refl;
          same_attempts = refl;
        })
        id w.queue)
      (publish_entry-IsBacked client (λ q' job. Holds q' job ⊎ elsewhere job.event_id)
        (holds_or elsewhere contract) locked now commit id w.database w.queue h.backed)

pub relay-IsSound :
    (w : World) (client : DownstreamDeliveryQueue (List Uuid)) (contract : IsQueue client Holds)
    (locked : Uuid → Bool) (now : ℕ) (commit : Result Done) (batch_size : ℕ)
    → IsSound w
    → IsSound (
        after_call w
          (publish_pending_delivery_jobs client locked now commit batch_size w.database w.queue))
relay-IsSound w client contract locked now commit batch_size h =
    let elsewhere : Uuid → Type 0 =
      λ k. (has_key k w.dead_letters ≡ true) ⊎ (has_key k (keys_of w) ≡ true) in
    let (r, db, q) =
      publish_pending_delivery_jobs client locked now commit batch_size w.database w.queue in
    called_IsSound w db q h
      (publish_pending_keeps (KeepsTables w.database) client locked now commit w.database
        (record { entries = h.entries; same_events = refl; same_attempts = refl })
        (λ chosen. record {
          entries = entries_marked now chosen w.database h.entries;
          same_events = refl;
          same_attempts = refl;
        })
        batch_size w.queue)
      (publish_pending-IsBacked client (λ q' job. Holds q' job ⊎ elsewhere job.event_id)
        (holds_or elsewhere contract) locked now commit batch_size w.database w.queue h.backed)
