-- ===== src/Lib.antt =====
-- A model of TrackRelay, a gateway that takes shipment events from couriers, stores them, and relays
-- them to an order system.
--
-- The API persists an event in one transaction with the shipment that it concerns and an entry of
-- the delivery outbox. Publishing hands the entry's job to a queue and marks the entry. A worker
-- receives the job, loads the event, posts it to the order system under the event's id as its
-- idempotency key, records the attempt, and acknowledges the message.
--
-- An experiment registers a run from an input manifest, sends the manifest's events, waits until the
-- queues have drained, and reconciles the manifest with the database and with what the order system's
-- simulator has received.
--
-- Files, and the code that each is about (paths from the repository's root):
--   Domain/Shipment       src/trackrelay/domain/shipment.py: statuses, evaluate_shipment_transition;
--                         Progress: what follows for a sequence of events
--   Domain/Event, Domain/Delivery, Domain/Timestamp, Domain/Json
--                         src/trackrelay/domain/event.py, delivery.py; datetimes; JSON values
--   Models                src/trackrelay/models/*.py: the rows and the database; Insert: the
--                         constraints, checked as rows are inserted
--   Services/EventPersistence
--                         src/trackrelay/services/event_persistence.py: persist_normalized_event
--   Services/DeliveryQueue
--                         src/trackrelay/services/delivery_queue.py: the protocols and the fakes
--   Services/DeliveryOutbox
--                         src/trackrelay/services/delivery_outbox.py: the two publishing functions
--   Services/DownstreamDelivery
--                         src/trackrelay/services/downstream_delivery.py: the POST and its record
--   Services/DownstreamWorker
--                         src/trackrelay/services/downstream_worker.py: one message
--   Worker                src/trackrelay/worker.py: a batch and the polling loop
--   Downstream            src/trackrelay/downstream/*.py: the order system's simulator
--   Pipeline              all of these together, as a step relation on one state: any interleaving
--                         of the API, of relays and of workers, with lost requests, lost responses,
--                         failed commits, lost acknowledgements, crashes between a POST and its
--                         record, and messages moved to the dead-letter queue
--                         (neither the expiry of messages in SQS after their retention of a day nor
--                         the clearing of the simulator's receipts is a step)
--   Prelude               lists, queries on tables, exceptions as values, actions with a state
--   Tests                 concrete runs
--   SqsDelivery           src/trackrelay/sqs_delivery.py: the queue, messages and receiver over SQS, the
--                         backlog and the redrive policy
--   Partners              src/trackrelay/partners/*.py: Alpha, Beta and Gamma; pydantic's treatment of
--                         strings and datetimes is a parameter
--   Ingestion             src/trackrelay/main.py: ingest_partner_event
--   Inspection            src/trackrelay/main.py: the endpoints that read, and reset_experiment's answer
--   TestRuns              src/trackrelay/main.py: the endpoints of a test run
--   Services/ShipmentHistory
--                         src/trackrelay/services/shipment_history.py: list_shipment_events
--   Services/ExperimentReset
--                         src/trackrelay/services/experiment_reset.py: the reset between treatments
--   Experiments           src/trackrelay/experiments/: the input manifest, its validator and generator
--                         (generator.py), the scenarios (scenarios.py), and reconcile_manifest with
--                         its report (reconciliation.py); Python's dicts and sets are lists without
--                         repeated keys, Counters are the lists of what they counted
--   Experiments/Guardrails
--                         src/trackrelay/experiments/async_guardrails.py: the drain of the queues
--                         after a load; the arithmetic of floats is a parameter
--
-- A transaction is a function on the database whose writes are kept only if it returns; the row locks
-- of PostgreSQL order the transactions of one entry, and those of a shipment that has its row; the
-- first events of a new tracking number find no row to lock, which persist_after is about, and the
-- pipeline takes them one by one. The record of an attempt reads without a lock, which
-- record_attempt_after is about: in the pipeline, a record that fails because another worker's was
-- first is the step of a POST without a record. Rows that other transactions lock are an argument of
-- the publishing functions. What uuid4, the clocks, httpx, SQS
-- and the COMMIT return are arguments too. Identifiers and instants are natural numbers without a
-- bound: uuid4 draws 128 bits, and a datetime's microseconds stay below 2^59. Every loop is structural
-- recursion; the polling loop recurses on how often stop_requested answers False.
--
-- Not modelled: the length limits of text columns, logging, the settings and command lines, the
-- experiment statistics (floats over measured samples), the files and HTTP calls of a scenario's run,
-- and the drivers that run experiments on AWS.
pub mod Prelude
pub mod Domain
pub mod Models
pub mod Services
pub mod Partners
pub mod Ingestion
pub mod Downstream
pub mod Worker
pub mod Pipeline
pub mod Experiments
pub mod TestRuns
pub mod SqsDelivery
pub mod Inspection
pub mod Tests
