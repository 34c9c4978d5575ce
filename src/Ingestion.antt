-- ===== src/Ingestion.antt =====
-- main.py, ingest_partner_event, with PARTNER_ADAPTERS of partners/__init__.py: the endpoint from the
-- partner's lookup to its answer. The body is a JSON object; an exception that the endpoint does not
-- handle is an error here, and a 500 to the client.
pub mod Stored
pub mod Durability
use trackrelay.Prelude.{
  ltb, leb, nat_beq, if◌then◌else◌, nat_beq_iff, Bool-cases, Option-cases, is_none, or_zero, length,
  take, length-append, length-map, All, All-append, All-map_imp, int_beq, ℤ, Done, ◌>>=◌, ◌>>◌,
  Exec, Result-cases, Error, Result, ◌==◌, string_equality, nat_equality, option_beq,
  option_beq_iff, option_equality, pair_beq, pair_beq_iff, pair_equality, beq_refl, Equality,
  select, scalar, exists_row, update_rows, count_rows, exists_row-append, scalar-append,
  select-append, exists_row-eq-scalar, scalar_holds, length-update_rows, exists_row-update_rows,
  All-update_rows, scalar-update_rows, scalar-update_rows_ne, ℕ, zero, suc, ◌+◌, ◌-◌, ◌*◌, ◌/◌, ◌%◌,
  ◌≤◌, ◌<◌, min, max, String, ◌≡◌, refl, sym, ap, ◌∙◌, subst, ◌≢◌, ◌↔◌, ◌⊎◌, inl, inr, Bool, true,
  false, not, ◌&&◌, ◌||◌, Option, none, some, List, [], ◌∷◌, ◌++◌, map, arith, eq_iff, ok, err,
  integrity_error, sqlalchemy_error, http_status_error, transport_error, unexpected_error,
  queue_error, receive_error, message_decode_error, acknowledgement_error,
  persisted_event_not_found, recorded_delivery_inconsistent, outbox_entry_not_found,
  backlog_inspection_error, redrive_policy_error, validation_error, experiment_reset_error,
  value_error, pos, negsuc,
}
use trackrelay.Domain.Timestamp.{AwareDatetime, TimestampColumn}
use trackrelay.Domain.Json.{Fields}
use trackrelay.Domain.Event.{Uuid, Pydantic, NormalizedEvent}
use trackrelay.Models.{Partner, Database}
use trackrelay.Partners.Alpha.{CourierAlphaPayload, validate_alpha, normalize_alpha}
use trackrelay.Partners.Beta.{CourierBetaPayload, validate_beta, normalize_beta}
use trackrelay.Partners.Gamma.{GammaNotification, validate_gamma, normalize_gamma}
use trackrelay.Services.EventPersistence.{EventPersistenceResult, persist_normalized_event}
use trackrelay.Services.DeliveryQueue.{DownstreamDeliveryQueue}
use trackrelay.Services.DeliveryOutbox.{publish_delivery_outbox_entry}

-- `PartnerAdapter` of partners/base.py
pub record PartnerAdapter : Type 1 where
  pub Payload : Type 0
  pub validate : Fields → Result Payload
  pub normalize : Payload → String → AwareDatetime → Result NormalizedEvent

unfoldable pub partner_adapters : Pydantic → String → Option PartnerAdapter
partner_adapters p adapter_type =
    if adapter_type == "courier-alpha"
    then some (record {
      Payload = CourierAlphaPayload;
      validate = validate_alpha p;
      normalize = normalize_alpha p;
    })
    else if adapter_type == "courier-beta"
    then some (record {
      Payload = CourierBetaPayload;
      validate = validate_beta p;
      normalize = normalize_beta p;
    })
    else if adapter_type == "courier-gamma"
    then some (record {
      Payload = GammaNotification;
      validate = validate_gamma p;
      normalize = normalize_gamma p;
    })
    else none

pub data IngestionResponse : Type 0 where
  -- 404, 403, 400 and the 422 of a body that fails its validation
  http_exception : ℕ → IngestionResponse
  -- 200
  duplicate_event : Uuid → IngestionResponse
  -- 201
  queued_event : Uuid → IngestionResponse

-- What the clocks, uuid4 and the COMMIT of the publication give to one request.
pub record IngestionDraws : Type 0 where
  pub received_at : AwareDatetime
  pub event_id : Uuid
  pub created_at : ℕ
  pub published_at : ℕ
  pub commit : Result Done

-- `except (DownstreamDeliveryQueueError, SQLAlchemyError)`: the entry stays pending.
abbrev pub publication_response : Uuid → Result Bool → Result IngestionResponse
publication_response event_id (ok _) = ok (queued_event event_id)
publication_response event_id (err queue_error) = ok (queued_event event_id)
publication_response event_id (err sqlalchemy_error) = ok (queued_event event_id)
publication_response event_id (err integrity_error) = ok (queued_event event_id)
publication_response event_id (err e) = err e

module _ (p : Pydantic) (column : TimestampColumn) {Q : Type 0} (queue : DownstreamDeliveryQueue Q)
    (locked : Uuid → Bool) (draws : IngestionDraws) where
  -- What follows persistence.
  abbrev pub respond :
      Result EventPersistenceResult → Database → Q → Result IngestionResponse × Database × Q
  respond (err e) db q = (err e, db, q)
  respond (ok persistence) db q =
      let (published, db', q') =
        publish_delivery_outbox_entry queue locked draws.published_at draws.commit
          persistence.event_id db q in
      if persistence.duplicate
      then (ok (duplicate_event persistence.event_id), db, q)
      else (publication_response persistence.event_id published, db', q')

  abbrev pub accept_event :
      Option Uuid → Result NormalizedEvent → Database → Q → Result IngestionResponse × Database × Q
  accept_event test_run_id (err e) db q = (err e, db, q)
  accept_event test_run_id (ok event) db q =
      let tagged : NormalizedEvent = elim test_run_id [
        | none ↦ event
        | some id ↦ record event { test_run_id = some id }
      ] in
      let (persistence, db') =
        persist_normalized_event column tagged draws.event_id draws.created_at db in
      respond persistence db' q

  abbrev pub accept_payload :
      {A : Type 0}
      → (A → Result NormalizedEvent)
      → Option Uuid
      → Result A
      → Database
      → Q
      → Result IngestionResponse × Database × Q
  accept_payload normalize test_run_id (err _) db q = (ok (http_exception 422), db, q)
  accept_payload normalize test_run_id (ok payload) db q =
      accept_event test_run_id (normalize payload) db q

  abbrev pub adapt :
      Partner
      → Option PartnerAdapter
      → Fields
      → Option Uuid
      → Database
      → Q
      → Result IngestionResponse × Database × Q
  adapt partner none payload test_run_id db q = (ok (http_exception 400), db, q)
  adapt partner (some adapter) payload test_run_id db q =
      accept_payload (λ body. adapter.normalize body partner.id draws.received_at) test_run_id
        (adapter.validate payload) db q

  abbrev pub admit :
      Option Partner → Fields → Option Uuid → Database → Q → Result IngestionResponse × Database × Q
  admit none payload test_run_id db q = (ok (http_exception 404), db, q)
  admit (some partner) payload test_run_id db q =
      if partner.is_active
      then adapt partner (partner_adapters p partner.adapter_type) payload test_run_id db q
      else (ok (http_exception 403), db, q)

  unfoldable pub ingest_partner_event :
      String → Fields → Option Uuid → Database → Q → Result IngestionResponse × Database × Q
  ingest_partner_event partner_id payload test_run_id db q =
      admit (scalar (λ x. x.id == partner_id) db.partners) payload test_run_id db q
