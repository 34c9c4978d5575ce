-- ===== src/Ingestion/Stored.antt =====
-- What the acceptance of an event adds to the database.
use trackrelay.Prelude.{
  ◌==◌, string_equality, nat_equality, option_equality, pair_equality, beq_refl, exists_row,
  exists_row-append, exists_row-update_rows, ℕ, String, ◌≡◌, refl, Bool, true, Option, List, [],
  ◌∷◌, ◌++◌, arith,
}
use trackrelay.Domain.Timestamp.{TimestampColumn}
use trackrelay.Domain.Event.{Uuid, NormalizedEvent, EventProcessingStatus}
use trackrelay.Models.{Database, DeliveryOutboxEntry}
use trackrelay.Models.Insert.{has_outbox_entry}
use trackrelay.Services.EventPersistence.{locked_shipment}
use trackrelay.Services.EventPersistence.Outcomes.{applied_after, reason_after, accepted}
use trackrelay.Services.DeliveryOutbox.{mark_published}
use trackrelay.Services.DeliveryOutbox.Marking.{marked}

exists_row-last :
    {A : Type 0} (p : A → Bool) (xs : List A) (x : A)
    → p x ≡ true
    → exists_row p (xs ++ x ∷ []) ≡ true
exists_row-last p xs x h = ground (arith, h, exists_row-append p xs (x ∷ []))

-- One more event is stored, with the fields of the normalized event, and an entry of its id is there.
module _ (column : TimestampColumn) (e : NormalizedEvent) (id : Uuid) (now : ℕ)
    (db : Database) where
  abbrev pub IsStored : Database → Type 0
  IsStored db' =
      (applied : Bool) × (reason : Option String) × (db'.events
        ≡ db.events
          ++ record {
            id = id;
            partner_id = e.partner_id;
            partner_event_id = e.partner_event_id;
            tracking_number = e.tracking_number;
            status = e.status;
            occurred_at = column.stored e.occurred_at;
            received_at = column.stored e.received_at;
            raw_payload = e.raw_payload;
            test_run_id = e.test_run_id;
            processing_status = EventProcessingStatus.processed;
            state_applied = applied;
            state_rejection_reason = reason;
            created_at = now;
          }
            ∷ [])
      × (has_outbox_entry id db' ≡ true)

  pub marked-IsStored :
      (at : ℕ) (chosen : DeliveryOutboxEntry → Bool) (db' : Database)
      → IsStored db'
      → IsStored (marked at chosen db')
  marked-IsStored at chosen db' (applied, reason, events, entry) = (
    applied,
    reason,
    events,
    rw
        (exists_row-update_rows (λ o. o.event_id == id) chosen (mark_published at) db'.outbox
          (λ o. refl))
        entry,
  )

  pub accepted-IsStored : IsStored (accepted column e id now db)
  accepted-IsStored = (
    applied_after column e id now (locked_shipment e db),
    reason_after column e id now (locked_shipment e db),
    refl,
    exists_row-last (λ o. o.event_id == id) db.outbox _ (beq_refl id),
  )
