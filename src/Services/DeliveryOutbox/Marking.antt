-- ===== src/Services/DeliveryOutbox/Marking.antt =====
-- All that a publication writes to the database is the mark on entries that it chose.
use trackrelay.Prelude.{
  ltb, Bool-cases, length, Done, Result, ◌==◌, nat_equality, string_equality, option_equality,
  pair_equality, scalar, exists_row, update_rows, ℕ, inl, inr, Bool, true, false, ◌&&◌, Option,
  none, some, List, [], ◌∷◌, ok, err,
}
use trackrelay.Domain.Event.{Uuid}
use trackrelay.Models.{DeliveryOutboxEntry, Database}
use trackrelay.Services.DeliveryQueue.{DownstreamDeliveryQueue, delivery_job}
use trackrelay.Services.DeliveryOutbox.{
  is_pending, publication_allowed, mark_published, listed, batch, finish_publication, committed,
  mark_after, publish_found, publish_delivery_outbox_entry, enqueue_all,
  publish_pending_delivery_jobs,
}

-- The database with the mark on the chosen entries.
abbrev pub marked : ℕ → (DeliveryOutboxEntry → Bool) → Database → Database
marked now chosen db = record db { outbox = update_rows chosen (mark_published now) db.outbox }

module _ (P : Database → Type 0) {Q : Type 0} (queue : DownstreamDeliveryQueue Q)
    (locked : Uuid → Bool) (now : ℕ) (commit : Result Done) (db : Database) (old : P db)
    (new : (chosen : DeliveryOutboxEntry → Bool) → P (marked now chosen db)) where
  committed_keeps :
      {A : Type 0} (c : Result Done) (a : A) (db' : Database) (q : Q)
      → P db'
      → P (committed c a db db' q).1
  committed_keeps (ok _) a db' q h = h
  committed_keeps (err e) a db' q h = old

  finish_keeps :
      {A : Type 0} (a : A) (entries : List DeliveryOutboxEntry) (db' : Database) (q : Q)
      → P db'
      → P (finish_publication queue locked now commit a entries db db' q).1
  finish_keeps a entries db' q h = elim (Bool-cases (publication_allowed now entries)) [
    | inl allowed ↦ rw allowed (committed_keeps commit a db' q h)
    | inr refused ↦ rw refused old
  ]

  mark_after_keeps :
      {A : Type 0} (a : A) (entries : List DeliveryOutboxEntry)
      (chosen : DeliveryOutboxEntry → Bool) (r : Result Done) (q : Q)
      → P (mark_after queue locked now commit a entries chosen r db q).1
  mark_after_keeps a entries chosen (err e) q = old
  mark_after_keeps a entries chosen (ok _) q =
      finish_keeps a entries (marked now chosen db) q (new chosen)

  publish_found_keeps :
      (event_id : Uuid) (found : Option DeliveryOutboxEntry) (q : Q)
      → P (publish_found queue locked now commit event_id found db q).1
  publish_found_keeps event_id none q =
      elim (Bool-cases (exists_row (λ o. o.event_id == event_id) db.outbox)) [
        | inl present ↦ rw present (finish_keeps false [] db q old)
        | inr absent ↦ rw absent old
      ]
  publish_found_keeps event_id (some entry) q =
      let (r, q') = queue.enqueue (delivery_job event_id) q in
      mark_after_keeps true (entry ∷ []) (λ o. o.event_id == event_id) r q'

  pub publish_entry_keeps :
      (event_id : Uuid) (q : Q)
      → P (publish_delivery_outbox_entry queue locked now commit event_id db q).1
  unfolding publish_delivery_outbox_entry
  publish_entry_keeps event_id q =
      publish_found_keeps event_id
        (scalar (λ o. o.event_id == event_id && is_pending locked o) db.outbox) q

  pub publish_pending_keeps :
      (batch_size : ℕ) (q : Q)
      → P (publish_pending_delivery_jobs queue locked now commit batch_size db q).1
  unfolding publish_pending_delivery_jobs
  publish_pending_keeps batch_size q =
      let entries = batch queue locked now commit batch_size db in
      let (r, q') = enqueue_all queue entries q in
      elim (Bool-cases (ltb batch_size 1)) [
        | inl empty ↦ rw empty old
        | inr positive ↦
            rw positive (mark_after_keeps (length entries) entries (listed entries) r q')
      ]
