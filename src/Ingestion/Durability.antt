-- ===== src/Ingestion/Durability.antt =====
-- What an answer of the ingestion endpoint promises.
use trackrelay.Prelude.{
  Bool-cases, Result, ◌==◌, string_equality, nat_equality, option_equality, pair_equality, scalar,
  ℕ, String, ◌≡◌, refl, sym, subst, inl, inr, Bool, false, Option, none, some, arith, ok, err,
  if◌then◌else◌,
}
use trackrelay.Domain.Timestamp.{TimestampColumn}
use trackrelay.Domain.Json.{Fields}
use trackrelay.Domain.Event.{Uuid, Pydantic, NormalizedEvent}
use trackrelay.Models.{Partner, Event, Database}
use trackrelay.Models.Insert.{has_identity, same_identity}
use trackrelay.Services.EventPersistence.{persist_normalized_event}
use trackrelay.Services.EventPersistence.Outcomes.{
  accepted, persist_accepts, persist_duplicate, persist_refuses,
}
use trackrelay.Services.EventPersistence.Retry.{IsAcceptable-or_IsRefused}
use trackrelay.Services.DeliveryQueue.{DownstreamDeliveryQueue}
use trackrelay.Services.DeliveryOutbox.{publish_delivery_outbox_entry}
use trackrelay.Services.DeliveryOutbox.Marking.{publish_entry_keeps}
use trackrelay.Ingestion.Stored.{IsStored, marked-IsStored, accepted-IsStored}
use trackrelay.Ingestion.{
  IngestionDraws, IngestionResponse, PartnerAdapter, partner_adapters, queued_event,
  duplicate_event, http_exception, respond, accept_event, accept_payload, adapt, admit,
  ingest_partner_event, publication_response,
}

the_answer : {r s : IngestionResponse} → ok r ≡ ok s → r ≡ s
the_answer same = cc

publication_response-queued :
    (event_id : Uuid) (published : Result Bool) (r : IngestionResponse)
    → publication_response event_id published ≡ ok r
    → r ≡ queued_event event_id
publication_response-queued event_id published r h = ground arith

module _ (p : Pydantic) (column : TimestampColumn) {Q : Type 0} (queue : DownstreamDeliveryQueue Q)
    (locked : Uuid → Bool) (draws : IngestionDraws) where
  -- The event that a request asks to store: its partner is active, its partner's adapter validates
  -- and normalizes its body, and a test run's id that the request names is the event's.
  abbrev request_event : Option Uuid → Result NormalizedEvent → Option NormalizedEvent
  request_event run (err _) = none
  request_event none (ok e) = some e
  request_event (some id) (ok e) = some (record e { test_run_id = some id })

  abbrev request_body :
      {A : Type 0} → Option Uuid → (A → Result NormalizedEvent) → Result A → Option NormalizedEvent
  request_body run normalize (err _) = none
  request_body run normalize (ok body) = request_event run (normalize body)

  abbrev request_adapted :
      Option Uuid → Partner → Option PartnerAdapter → Fields → Option NormalizedEvent
  request_adapted run partner none payload = none
  request_adapted run partner (some adapter) payload =
      request_body run (λ body. adapter.normalize body partner.id draws.received_at)
        (adapter.validate payload)

  abbrev request_of : Option Uuid → Option Partner → Fields → Option NormalizedEvent
  request_of run none payload = none
  request_of run (some partner) payload =
      if partner.is_active
      then request_adapted run partner (partner_adapters p partner.adapter_type) payload
      else none

  abbrev pub requested_event : String → Fields → Option Uuid → Database → Option NormalizedEvent
  requested_event partner_id payload run db =
      request_of run (scalar (λ x. x.id == partner_id) db.partners) payload

  -- What an answer says of the event asked for, and of the database and the queue that the request
  -- found and left.
  abbrev pub Promise :
      Option NormalizedEvent → Database → Q → IngestionResponse → Database → Q → Type 0
  Promise wanted db q (http_exception code) db' q' = (db' ≡ db) × (q' ≡ q)
  Promise wanted db q (duplicate_event id) db' q' =
      (db' ≡ db)
      × (q' ≡ q)
      × (e : NormalizedEvent) × (wanted ≡ some e)
      × (original : Event) × (scalar (same_identity e.partner_id e.partner_event_id) db.events
          ≡ some original)
      × (id ≡ original.id)
  Promise wanted db q (queued_event id) db' q' =
      (id ≡ draws.event_id)
      × (e : NormalizedEvent) × (wanted ≡ some e)
      × IsStored column e id draws.created_at db db'

  abbrev Keeps :
      Option NormalizedEvent → Database → Q → Result IngestionResponse × Database × Q → Type 0
  Keeps wanted db q t = (r : IngestionResponse) → t.0 ≡ ok r → Promise wanted db q r t.1 t.2

  queued-Keeps :
      (e : NormalizedEvent) (db accepted_db : Database) (q : Q)
      → IsStored column e draws.event_id draws.created_at db accepted_db
      → Keeps (some e) db q (
          respond p column queue locked draws
            (ok (record { event_id = draws.event_id; duplicate = false }))
            accepted_db
            q)
  queued-Keeps e db accepted_db q h r answered =
      let (published, db', q') =
        publish_delivery_outbox_entry queue locked draws.published_at draws.commit draws.event_id
          accepted_db q in
      subst (λ x. Promise (some e) db q x db' q')
        (sym (publication_response-queued draws.event_id published r answered))
        (
          refl,
          e,
          refl,
          publish_entry_keeps (IsStored column e draws.event_id draws.created_at db) queue locked
              draws.published_at draws.commit accepted_db h
              (λ chosen.
                marked-IsStored column e draws.event_id draws.created_at db draws.published_at
                  chosen accepted_db h)
              draws.event_id q,
        )

  event-Keeps :
      (event : NormalizedEvent) (db : Database) (q : Q)
      → let (persistence, db') =
          persist_normalized_event column event draws.event_id draws.created_at db in
        Keeps (some event) db q (respond p column queue locked draws persistence db' q)
  event-Keeps event db q =
      elim (Bool-cases (has_identity event.partner_id event.partner_event_id db)) [
        | inl used ↦
            let (original, found, same) =
              persist_duplicate column event draws.event_id draws.created_at db used in
            rw same (λ r answered.
              subst (λ x. Promise (some event) db q x db q) (the_answer answered)
                (refl, refl, event, refl, original, found, refl))
        | inr new ↦
            elim (IsAcceptable-or_IsRefused column event draws.event_id draws.created_at db) [
              | inl fits ↦
                  rw (persist_accepts column event draws.event_id draws.created_at db fits) (
                    queued-Keeps event db (accepted column event draws.event_id draws.created_at db)
                      q (accepted-IsStored column event draws.event_id draws.created_at db))
              | inr refused ↦
                  rw (persist_refuses column event draws.event_id draws.created_at db new refused)
                    (λ r answered. absurd (cc))
            ]
      ]

  refusal-Keeps :
      (wanted : Option NormalizedEvent) (code : ℕ) (db : Database) (q : Q)
      → Keeps wanted db q (ok (http_exception code), db, q)
  refusal-Keeps wanted code db q r answered =
      subst (λ x. Promise wanted db q x db q) (the_answer answered) (refl, refl)

  accept_event-Keeps :
      (run : Option Uuid) (event : Result NormalizedEvent) (db : Database) (q : Q)
      → Keeps
          (request_event run event)
          db
          q
          (accept_event p column queue locked draws run event db q)
  accept_event-Keeps run (err e) db q = λ r answered. absurd (cc)
  accept_event-Keeps none (ok event) db q = event-Keeps event db q
  accept_event-Keeps (some id) (ok event) db q =
      event-Keeps (record event { test_run_id = some id }) db q

  accept_payload-Keeps :
      {A : Type 0} (normalize : A → Result NormalizedEvent) (run : Option Uuid) (body : Result A)
      (db : Database) (q : Q)
      → Keeps
          (request_body run normalize body)
          db
          q
          (accept_payload p column queue locked draws normalize run body db q)
  accept_payload-Keeps normalize run (err e) db q = refusal-Keeps none 422 db q
  accept_payload-Keeps normalize run (ok a) db q = accept_event-Keeps run (normalize a) db q

  adapt-Keeps :
      (partner : Partner) (adapter : Option PartnerAdapter) (payload : Fields) (run : Option Uuid)
      (db : Database) (q : Q)
      → Keeps
          (request_adapted run partner adapter payload)
          db
          q
          (adapt p column queue locked draws partner adapter payload run db q)
  adapt-Keeps partner none payload run db q = refusal-Keeps none 400 db q
  adapt-Keeps partner (some adapter) payload run db q =
      accept_payload-Keeps (λ body. adapter.normalize body partner.id draws.received_at) run
        (adapter.validate payload) db q

  admit-Keeps :
      (found : Option Partner) (payload : Fields) (run : Option Uuid) (db : Database) (q : Q)
      → Keeps
          (request_of run found payload)
          db
          q
          (admit p column queue locked draws found payload run db q)
  admit-Keeps none payload run db q = refusal-Keeps none 404 db q
  admit-Keeps (some partner) payload run db q = elim (Bool-cases partner.is_active) [
    | inl active ↦
        rw active (adapt-Keeps partner (partner_adapters p partner.adapter_type) payload run db q)
    | inr inactive ↦ rw inactive (refusal-Keeps none 403 db q)
  ]

  -- An answer of 201 names the drawn id, under which the normalized event of the request, with the
  -- test run that the request names, was added to the stored events, and has its outbox entry,
  -- whether or not the entry could be published at once. An answer of 200 names the stored event
  -- that has the identity of the request's, and that answer and every refusal leave the database
  -- and the queue as they were.
  pub ingest-Promise :
      (partner_id : String) (payload : Fields) (test_run_id : Option Uuid) (db : Database) (q : Q)
      (answer : IngestionResponse)
      → let (r, db', q') =
          ingest_partner_event p column queue locked draws partner_id payload test_run_id db q in
        r ≡ ok answer
        → Promise (requested_event partner_id payload test_run_id db) db q answer db' q'
  unfolding ingest_partner_event
  ingest-Promise partner_id payload run db q =
      admit-Keeps (scalar (λ x. x.id == partner_id) db.partners) payload run db q
