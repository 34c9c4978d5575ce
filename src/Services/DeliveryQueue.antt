-- ===== src/Services/DeliveryQueue.antt =====
-- services/delivery_queue.py: the protocols of a queue and of a message, and the fakes that record.
use trackrelay.Prelude.{
  ◌&&◌, Exec, List, Option, Result, [], ℕ, ◌≡◌, Bool, Error, ok, true, arith, exists_row,
  if◌then◌else◌, ◌++◌, beq_refl, ltb, ◌==◌, ◌∷◌, err, exists_row-append, nat_equality,
  option_equality, pair_equality, string_equality, value_error, false, none, some, ◌+◌, Done,
}
use trackrelay.Domain.Event.{Uuid}

pub record DownstreamDeliveryJob : Type 0 where
  pub schema_version : ℕ
  pub event_id : Uuid

-- `DownstreamDeliveryJob(event_id=…)`
abbrev pub delivery_job : Uuid → DownstreamDeliveryJob
delivery_job id = record { schema_version = 1; event_id = id }

-- `DownstreamDeliveryQueue`: what `enqueue` does to the queue's state `Q`.
pub record DownstreamDeliveryQueue (Q : Type 0) : Type 0 where
  pub enqueue : DownstreamDeliveryJob → Exec Q Done

-- What a client may rely on: `holds q job` says that the queue has accepted the job. A call that
-- returns has done so, and no call takes back what was accepted.
pub record IsQueue {Q : Type 0} (queue : DownstreamDeliveryQueue Q)
    (holds : Q → DownstreamDeliveryJob → Type 0) : Type 0 where
  pub accepts :
      (job : DownstreamDeliveryJob) (q : Q)
      → (queue.enqueue job q).0 ≡ ok tt
      → holds (queue.enqueue job q).1 job
  pub keeps :
      (job other : DownstreamDeliveryJob) (q : Q)
      → holds q other
      → holds (queue.enqueue job q).1 other

-- `DownstreamDeliveryMessage`, over the state `W` that its acknowledgement changes. Reading the
-- job may raise, since a transport decodes it late.
pub record DownstreamDeliveryMessage (W : Type 0) : Type 0 where
  pub job : Result DownstreamDeliveryJob
  pub receive_count : ℕ
  pub acknowledge : Exec W Done

-- `RecordingDownstreamDeliveryQueue`
pub record RecordingQueue : Type 0 where
  pub enqueued_jobs : List DownstreamDeliveryJob

unfoldable pub recording_enqueue : DownstreamDeliveryJob → Exec RecordingQueue Done
recording_enqueue job q = (ok tt, record q { enqueued_jobs = q.enqueued_jobs ++ job ∷ [] })

unfoldable pub recording_clear : RecordingQueue → RecordingQueue
recording_clear q = record q { enqueued_jobs = [] }

abbrev pub recording_queue : DownstreamDeliveryQueue RecordingQueue
unfolding recording_enqueue
recording_queue = record { enqueue = recording_enqueue }

-- `RecordingDownstreamDeliveryMessage`; the callback acts on a state of the test's own.
pub record RecordingMessage : Type 0 where
  pub job : DownstreamDeliveryJob
  pub acknowledgement_failure : Option Error
  pub acknowledgement_calls : ℕ
  pub acknowledged : Bool
  pub receive_count : ℕ

unfoldable pub recording_message :
    DownstreamDeliveryJob → Option Error → ℕ → Result RecordingMessage
recording_message job failure receive_count =
    if ltb receive_count 1
    then err value_error
    else ok (record {
      job = job;
      acknowledgement_failure = failure;
      acknowledgement_calls = 0;
      acknowledged = false;
      receive_count = receive_count;
    })

module _ {S : Type 0} (on_acknowledge : Option (S → S)) where
  unfoldable pub recording_acknowledge : Exec (RecordingMessage × S) Done
  recording_acknowledge (m, s) =
      let s' : S = elim on_acknowledge [ none ↦ s | some f ↦ f s ] in
      let counted = record m { acknowledgement_calls = m.acknowledgement_calls + 1 } in
      elim m.acknowledgement_failure [
        | some e ↦ (err e, (counted, s'))
        | none ↦ (ok tt, (record counted { acknowledged = true }, s'))
      ]

abbrev pub same_job : DownstreamDeliveryJob → DownstreamDeliveryJob → Bool
same_job a b = a.schema_version == b.schema_version && a.event_id == b.event_id

-- The recording queue keeps the contract of a queue: it holds the job of every call that returned,
-- and no call takes back a job that it holds.
pub recording-IsQueue :
    IsQueue recording_queue (λ q job. exists_row (same_job job) q.enqueued_jobs ≡ true)
unfolding recording_enqueue
recording-IsQueue = record {
  accepts = λ job q h. ground (
    arith,
    beq_refl job.event_id,
    beq_refl job.schema_version,
    exists_row-append (same_job job) q.enqueued_jobs (job ∷ []),
  );
  keeps = λ job other q h.
      ground (arith, h, exists_row-append (same_job other) q.enqueued_jobs (job ∷ []));
}
