-- ===== src/Services/DeliveryOutbox.antt =====
-- services/delivery_outbox.py. A call is a transaction: its writes to the database are kept only if
-- it returns and the commit succeeds. What it hands to the queue is not taken back. `locked` says
-- which rows other transactions hold (`skip_locked`), `now` is the server's clock, and `commit` what
-- the COMMIT returns.
pub mod Marking
pub mod Publication
use trackrelay.Prelude.{
  Bool, List, ℕ, Result, exists_row, is_none, ltb, some, true, ◌∷◌, if◌then◌else◌, leb, ok, scalar,
  ◌&&◌, ◌==◌, ◌||◌, err, not, nat_equality, none, option_equality, pair_equality, string_equality,
  false, integrity_error, value_error, [], take, outbox_entry_not_found, select, length,
  update_rows, Done, Option,
}
use trackrelay.Domain.Event.{Uuid}
use trackrelay.Models.{DeliveryOutboxEntry, Database}
use trackrelay.Services.DeliveryQueue.{DownstreamDeliveryQueue, delivery_job}

abbrev pub is_pending : (Uuid → Bool) → DeliveryOutboxEntry → Bool
is_pending locked o = is_none o.published_at && not (locked o.event_id)

-- `ck_delivery_outbox_publication_time`, checked at the flush.
abbrev pub publication_allowed : ℕ → List DeliveryOutboxEntry → Bool
publication_allowed now [] = true
publication_allowed now (o ∷ os) = leb o.created_at now && publication_allowed now os

abbrev pub mark_published : ℕ → DeliveryOutboxEntry → DeliveryOutboxEntry
mark_published now o = record o { published_at = some now }

-- `ORDER BY created_at, event_id`
abbrev pub precedes : DeliveryOutboxEntry → DeliveryOutboxEntry → Bool
precedes a b =
    ltb a.created_at b.created_at || (a.created_at == b.created_at && leb a.event_id b.event_id)

unfoldable pub insert_sorted :
    DeliveryOutboxEntry → List DeliveryOutboxEntry → List DeliveryOutboxEntry
insert_sorted o [] = o ∷ []
insert_sorted o (p ∷ ps) =
    let rest = insert_sorted o ps in if precedes o p then o ∷ p ∷ ps else p ∷ rest

unfoldable pub sort_entries : List DeliveryOutboxEntry → List DeliveryOutboxEntry
unfolding insert_sorted
sort_entries [] = []
sort_entries (o ∷ os) = insert_sorted o (sort_entries os)

-- whether the entry is one of those listed; `event_id` is the primary key
abbrev pub listed : List DeliveryOutboxEntry → DeliveryOutboxEntry → Bool
listed os o = exists_row (λ p. p.event_id == o.event_id) os

-- The COMMIT, and the rollback if it fails.
abbrev pub committed :
    {A Q : Type 0} → Result Done → A → Database → Database → Q → Result A × Database × Q
committed (ok _) a db db' q = (ok a, db', q)
committed (err e) a db db' q = (err e, db, q)

module _ {Q : Type 0} (queue : DownstreamDeliveryQueue Q) where
  -- The loop over the batch; the first failure ends it.
  unfoldable pub enqueue_all : List DeliveryOutboxEntry → Q → Result Done × Q
  enqueue_all [] q = (ok tt, q)
  enqueue_all (o ∷ os) q =
      let (r, q') = queue.enqueue (delivery_job o.event_id) q in
      let rest = enqueue_all os q' in elim r [ ok _ ↦ rest | err e ↦ (err e, q') ]

module _ {Q : Type 0} (queue : DownstreamDeliveryQueue Q) (locked : Uuid → Bool) (now : ℕ)
    (commit : Result Done) where
  -- The end of a transaction: the flush checks the marked rows, and then the COMMIT is sent.
  abbrev pub finish_publication :
      {A : Type 0}
      → A
      → List DeliveryOutboxEntry
      → Database
      → Database
      → Q
      → Result A × Database × Q
  finish_publication a marked db db' q =
      if publication_allowed now marked
      then committed commit a db db' q
      else (err integrity_error, db, q)

  -- What follows the calls of `enqueue`: an exception rolls back, and otherwise the entries that
  -- `chosen` picks are marked.
  abbrev pub mark_after :
      {A : Type 0}
      → A
      → List DeliveryOutboxEntry
      → (DeliveryOutboxEntry → Bool)
      → Result Done
      → Database
      → Q
      → Result A × Database × Q
  mark_after a entries chosen (err e) db q = (err e, db, q)
  mark_after a entries chosen (ok _) db q =
      finish_publication a entries db
        (record db { outbox = update_rows chosen (mark_published now) db.outbox }) q

  abbrev pub publish_found :
      Uuid → Option DeliveryOutboxEntry → Database → Q → Result Bool × Database × Q
  publish_found event_id none db q =
      if exists_row (λ o. o.event_id == event_id) db.outbox
      then finish_publication false [] db db q
      else (err outbox_entry_not_found, db, q)
  publish_found event_id (some entry) db q =
      let (r, q') = queue.enqueue (delivery_job event_id) q in
      mark_after true (entry ∷ []) (λ o. o.event_id == event_id) r db q'

  unfoldable pub publish_delivery_outbox_entry : Uuid → Database → Q → Result Bool × Database × Q
  publish_delivery_outbox_entry event_id db q =
      publish_found event_id (scalar (λ o. o.event_id == event_id && is_pending locked o) db.outbox)
        db q

  abbrev pub batch : ℕ → Database → List DeliveryOutboxEntry
  batch batch_size db = take batch_size (sort_entries (select (is_pending locked) db.outbox))

  unfoldable pub publish_pending_delivery_jobs : ℕ → Database → Q → Result ℕ × Database × Q
  unfolding enqueue_all sort_entries
  publish_pending_delivery_jobs batch_size db q =
      let entries = batch batch_size db in
      let (r, q') = enqueue_all queue entries q in
      if ltb batch_size 1
      then (err value_error, db, q)
      else mark_after (length entries) entries (listed entries) r db q'
