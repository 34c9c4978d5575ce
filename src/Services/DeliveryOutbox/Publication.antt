-- ===== src/Services/DeliveryOutbox/Publication.antt =====
-- An entry is marked as published only after the queue has accepted its job, whatever fails.
use trackrelay.Prelude.{
  Bool, All, inl, ℕ, ◌≡◌, Result, inr, none, Done, ◌⊎◌, List, ok, err, Bool-cases, Error,
  integrity_error, All-map_imp, true, scalar, update_rows, All-update_rows, ◌==◌, ◌&&◌,
  nat_equality, option_equality, pair_equality, string_equality, Option, ◌∷◌, refl, exists_row,
  false, [], some, nat_beq_iff, Result-cases, ltb, length, subst, sym,
}
use trackrelay.Domain.Event.{Uuid}
use trackrelay.Models.{DeliveryOutboxEntry, Database}
use trackrelay.Services.DeliveryQueue.{
  DownstreamDeliveryJob, DownstreamDeliveryQueue, IsQueue, delivery_job,
}
use trackrelay.Services.DeliveryOutbox.{
  is_pending, publication_allowed, mark_published, listed, finish_publication,
  publish_delivery_outbox_entry, enqueue_all, publish_pending_delivery_jobs, committed, mark_after,
  publish_found, batch,
}

module _ {Q : Type 0} (queue : DownstreamDeliveryQueue Q)
    (holds : Q → DownstreamDeliveryJob → Type 0) (contract : IsQueue queue holds) where
  -- The entry is pending, or the queue has accepted its job.
  abbrev pub Backed : Q → DeliveryOutboxEntry → Type 0
  Backed q o = (o.published_at ≡ none) ⊎ holds q (delivery_job o.event_id)

  abbrev pub IsBacked : Database → Q → Type 0
  IsBacked db q = All (Backed q) db.outbox

  Backed-keeps :
      (q : Q) (job : DownstreamDeliveryJob) (o : DeliveryOutboxEntry)
      → Backed q o
      → Backed (queue.enqueue job q).1 o
  Backed-keeps q job o (inl pending) = inl pending
  Backed-keeps q job o (inr held) = inr (contract.keeps job (delivery_job o.event_id) q held)

  enqueue_all_goes_on :
      (o : DeliveryOutboxEntry) (os : List DeliveryOutboxEntry) (q : Q)
      → (queue.enqueue (delivery_job o.event_id) q).0 ≡ ok tt
      → enqueue_all queue (o ∷ os) q
        ≡ enqueue_all queue os (queue.enqueue (delivery_job o.event_id) q).1
  unfolding enqueue_all
  enqueue_all_goes_on o os q h = rw (h, enqueue_all)

  enqueue_all_stops :
      (o : DeliveryOutboxEntry) (os : List DeliveryOutboxEntry) (q : Q) {e : Error}
      → (queue.enqueue (delivery_job o.event_id) q).0 ≡ err e
      → enqueue_all queue (o ∷ os) q ≡ (err e, (queue.enqueue (delivery_job o.event_id) q).1)
  unfolding enqueue_all
  enqueue_all_stops o os q h = rw (h, enqueue_all)

  abbrev Accepts : List DeliveryOutboxEntry → Q → Result Done × Q → Type 0
  Accepts os q t =
      ((job : DownstreamDeliveryJob) → holds q job → holds t.1 job)
      × (t.0 ≡ ok tt → All (λ o. holds t.1 (delivery_job o.event_id)) os)

  -- Nothing that the queue accepted is lost in the loop, and if the loop returns, it has accepted
  -- every job of the batch.
  enqueue_all-Accepts :
      (os : List DeliveryOutboxEntry) (q : Q) → Accepts os q (enqueue_all queue os q)
  enqueue_all-Accepts [] q = unfold enqueue_all in (λ job h. h, λ _. tt)
  enqueue_all-Accepts (o ∷ os) q =
      let first = queue.enqueue (delivery_job o.event_id) q in
      let (kept, all) = enqueue_all-Accepts os first.1 in
      elim (Result-cases first.0) [
        | inl (_, accepted) ↦
            subst (Accepts (o ∷ os) q) (sym (enqueue_all_goes_on o os q accepted)) (
              λ job h. kept job (contract.keeps (delivery_job o.event_id) job q h),
              λ done. (
                kept (delivery_job o.event_id)
                    (contract.accepts (delivery_job o.event_id) q accepted),
                all done,
              ),
            )
        | inr (e, raised) ↦
            subst (Accepts (o ∷ os) q) (sym (enqueue_all_stops o os q raised))
              (λ job h. contract.keeps (delivery_job o.event_id) job q h, λ done. cc)
      ]

  holds_of_listed :
      (q : Q) (os : List DeliveryOutboxEntry) (o : DeliveryOutboxEntry)
      → All (λ p. holds q (delivery_job p.event_id)) os
      → listed os o ≡ true
      → holds q (delivery_job o.event_id)
  holds_of_listed q [] o h l = absurd (cc)
  holds_of_listed q (p ∷ ps) o h l = elim (Bool-cases (p.event_id == o.event_id)) [
    | inl same ↦ rw (← (nat_beq_iff p.event_id o.event_id).0 same) h.0
    | inr other ↦ holds_of_listed q ps o h.1 (rw other at l)
  ]

  committed-cases :
      {A : Type 0} (commit : Result Done) (a : A) (db db' : Database) (q : Q)
      → (committed commit a db db' q ≡ (ok a, db', q))
        ⊎ ((e : Error) × (committed commit a db db' q ≡ (err e, db, q)))
  committed-cases (ok _) a db db' q = inl refl
  committed-cases (err e) a db db' q = inr (e, refl)

  module _ (locked : Uuid → Bool) (now : ℕ) (commit : Result Done) where
    abbrev finished :
        {A : Type 0}
        → A
        → List DeliveryOutboxEntry
        → Database
        → Database
        → Q
        → Result A × Database × Q
    finished = finish_publication queue locked now commit

    -- The end of a transaction keeps the old rows or the new ones, and never touches the queue.
    finished-cases :
        {A : Type 0} (a : A) (marked : List DeliveryOutboxEntry) (db db' : Database) (q : Q)
        → (finished a marked db db' q ≡ (ok a, db', q))
          ⊎ ((e : Error) × (finished a marked db db' q ≡ (err e, db, q)))
    finished-cases a marked db db' q = elim (Bool-cases (publication_allowed now marked)) [
      | inl allowed ↦ rw allowed (committed-cases commit a db db' q)
      | inr refused ↦ inr (integrity_error, rw refused)
    ]

    abbrev BackedResult : {A : Type 0} → Result A × Database × Q → Type 0
    BackedResult t = IsBacked t.1 t.2

    finished-IsBacked :
        {A : Type 0} (a : A) (marked : List DeliveryOutboxEntry) (db db' : Database) (q : Q)
        → IsBacked db q
        → IsBacked db' q
        → BackedResult (finished a marked db db' q)
    finished-IsBacked a marked db db' q old new = elim (finished-cases a marked db db' q) [
      | inl kept ↦ rw kept new
      | inr (e, undone) ↦ rw undone old
    ]

    -- A job that has been accepted backs its entry, marked or not.
    IsBacked-enqueue :
        (job : DownstreamDeliveryJob) (db : Database) (q : Q)
        → IsBacked db q
        → IsBacked db (queue.enqueue job q).1
    IsBacked-enqueue job db q = All-map_imp _ _ db.outbox (Backed-keeps q job)

    IsBacked-mark :
        (p : DeliveryOutboxEntry → Bool) (db : Database) (q : Q)
        → ((o : DeliveryOutboxEntry) → p o ≡ true → holds q (delivery_job o.event_id))
        → IsBacked db q
        → IsBacked (record db { outbox = update_rows p (mark_published now) db.outbox }) q
    IsBacked-mark p db q accepted =
        All-update_rows (Backed q) (Backed q) p (mark_published now) db.outbox
          (λ o _ hit. inr (accepted o hit)) (λ o backed _. backed)

    mark_after-IsBacked :
        {A : Type 0} (a : A) (entries : List DeliveryOutboxEntry)
        (chosen : DeliveryOutboxEntry → Bool) (r : Result Done) (db : Database) (q : Q)
        → (r ≡ ok tt
            → (o : DeliveryOutboxEntry) → chosen o ≡ true
            → holds q (delivery_job o.event_id))
        → IsBacked db q
        → BackedResult (mark_after queue locked now commit a entries chosen r db q)
    mark_after-IsBacked a entries chosen (err e) db q accepted h = h
    mark_after-IsBacked a entries chosen (ok tt) db q accepted h =
        finished-IsBacked a entries db
          (record db { outbox = update_rows chosen (mark_published now) db.outbox }) q h
          (IsBacked-mark chosen db q (accepted refl) h)

    publish_found-IsBacked :
        (event_id : Uuid) (found : Option DeliveryOutboxEntry) (db : Database) (q : Q)
        → IsBacked db q
        → BackedResult (publish_found queue locked now commit event_id found db q)
    publish_found-IsBacked event_id none db q h =
        elim (Bool-cases (exists_row (λ o. o.event_id == event_id) db.outbox)) [
          | inl present ↦ rw present (finished-IsBacked false [] db db q h h)
          | inr absent ↦ rw absent h
        ]
    publish_found-IsBacked event_id (some entry) db q h =
        let job = delivery_job event_id in
        mark_after-IsBacked true (entry ∷ []) (λ o. o.event_id == event_id) (queue.enqueue job q).0
          db (queue.enqueue job q).1
          (λ accepted o same.
            rw ((nat_beq_iff o.event_id event_id).0 same) (contract.accepts job q accepted))
          (IsBacked-enqueue job db q h)

    -- With a queue that keeps its contract, and every entry pending or backed by an accepted job,
    -- publishing one entry leaves them so, whatever it returns or raises.
    pub publish_entry-IsBacked :
        (event_id : Uuid) (db : Database) (q : Q)
        → IsBacked db q
        → BackedResult (publish_delivery_outbox_entry queue locked now commit event_id db q)
    unfolding publish_delivery_outbox_entry
    publish_entry-IsBacked event_id db q h =
        publish_found-IsBacked event_id
          (scalar (λ o. o.event_id == event_id && is_pending locked o) db.outbox) db q h

    -- With a queue that keeps its contract, and every entry pending or backed by an accepted job,
    -- relaying a batch leaves them so, whatever it returns or raises.
    pub publish_pending-IsBacked :
        (batch_size : ℕ) (db : Database) (q : Q)
        → IsBacked db q
        → BackedResult (publish_pending_delivery_jobs queue locked now commit batch_size db q)
    unfolding publish_pending_delivery_jobs
    publish_pending-IsBacked batch_size db q h =
        let entries = batch queue locked now commit batch_size db in
        let (kept, all) = enqueue_all-Accepts entries q in
        let relayed = enqueue_all queue entries q in
        elim (Bool-cases (ltb batch_size 1)) [
          | inl empty ↦ rw empty h
          | inr positive ↦ rw positive (
              mark_after-IsBacked (length entries) entries (listed entries) relayed.0 db relayed.1
                (λ done o l. holds_of_listed relayed.1 entries o (all done) l)
                (All-map_imp _ _ db.outbox
                  (λ o backed. elim backed [
                    | inl pending ↦ inl pending
                    | inr held ↦ inr (kept (delivery_job o.event_id) held)
                  ])
                  h))
        ]
