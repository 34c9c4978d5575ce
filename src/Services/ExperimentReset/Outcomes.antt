-- ===== src/Services/ExperimentReset/Outcomes.antt =====
-- What a reset leaves: with the program's own simulator, and with any.
use trackrelay.Prelude.{
  [], ◌≡◌, ℕ, ◌⊎◌, ◌≤◌, subst, sym, length, scalar, some, ok, err, count_rows, arith, ◌==◌,
  option_equality, nat_equality, experiment_reset_error,
}
use trackrelay.Domain.Event.{Uuid}
use trackrelay.Models.{Database, TestRun}
use trackrelay.Downstream.{DownstreamEventStore, SimulatorMode, Simulator, empty_store}
use trackrelay.Services.ExperimentReset.{
  ExperimentResetEvidence, control_client, reset_experiment_state, database_experiment_counts,
}

-- The state that a reset may remove: one test run, which is the named one, all of whose expected
-- events were accepted, published or not, and delivered, each for a shipment of its own.
pub record IsFinished (id : Uuid) (expected : ℕ) (db : Database) (s : Simulator) : Type 0 where
  pub run : TestRun
  pub found : scalar (λ r. r.id == id) db.test_runs ≡ some run
  pub run_expects : run.expected_event_count ≡ expected
  pub one_run : length db.test_runs ≡ 1
  pub events : length db.events ≡ expected
  pub entries : length db.outbox ≡ expected
  pub shipments : length db.shipments ≡ expected
  pub attempts : expected ≤ length db.attempts
  pub own_events : count_rows (λ e. e.test_run_id == some id) db.events ≡ expected
  pub receipts : length s.store.events ≡ expected
  pub healthy : s.mode ≡ SimulatorMode.healthy

-- The partners of a database, and none of its other rows.
abbrev pub partners_of : Database → Database
partners_of db = record {
  partners = db.partners;
  shipments = [];
  events = [];
  outbox = [];
  attempts = [];
  test_runs = [];
}

abbrev pub evidence_of : Uuid → ℕ → Database → ExperimentResetEvidence
unfolding database_experiment_counts
evidence_of id expected db = record {
  test_run_id = id;
  expected_event_count = expected;
  before = record {
    database = database_experiment_counts db;
    simulator_receipts = expected;
    simulator_mode = SimulatorMode.healthy;
  };
  after = record {
    database = record {
      delivery_attempts = 0;
      delivery_outbox_entries = 0;
      events = 0;
      shipments = 0;
      test_runs = 0;
    };
    simulator_receipts = 0;
    simulator_mode = SimulatorMode.healthy;
  };
  simulator_receipts_removed = expected;
}

reset_healthy :
    (id : Uuid) (expected : ℕ) (db : Database) (store : DownstreamEventStore)
    → IsFinished id expected db (record { mode = SimulatorMode.healthy; store = store })
    → reset_experiment_state control_client id expected
        (ok tt)
        (db, record { mode = SimulatorMode.healthy; store = store })
      ≡ (
        ok (evidence_of id expected db),
        (partners_of db, record { mode = SimulatorMode.healthy; store = empty_store }),
      )
unfolding reset_experiment_state control_client
reset_healthy id expected db store h = ground (
  arith, h.found, h.run_expects, h.one_run, h.events, h.entries, h.shipments, h.attempts,
  h.own_events, h.receipts,
)

-- With the program's own simulator, a network that does not fail and a commit that succeeds, a
-- finished run is reset: the database keeps its partners alone, the simulator is healthy and
-- empty, and the evidence returned has the counts from before and after.
pub reset_finished :
    (id : Uuid) (expected : ℕ) (db : Database) (s : Simulator)
    → IsFinished id expected db s
    → reset_experiment_state control_client id expected (ok tt) (db, s) ≡ (
      ok (evidence_of id expected db),
      (partners_of db, record { mode = SimulatorMode.healthy; store = empty_store }),
    )
reset_finished id expected db s h =
    subst
      (λ (m : SimulatorMode).
        IsFinished id expected db (record { mode = m; store = s.store })
        → reset_experiment_state control_client id expected (ok tt)
            (db, record { mode = m; store = s.store })
          ≡ (
            ok (evidence_of id expected db),
            (partners_of db, record { mode = SimulatorMode.healthy; store = empty_store }),
          ))
      (sym h.healthy) (reset_healthy id expected db s.store) h

reset_in_mode :
    (id : Uuid) (expected : ℕ) (db : Database) (mode : SimulatorMode) (store : DownstreamEventStore)
    → let s : Simulator = record { mode = mode; store = store } in
      let reset = reset_experiment_state control_client id expected (ok tt) (db, s) in
      (reset ≡ (err experiment_reset_error, (db, s)))
      ⊎ ((reset.1 ≡ (partners_of db, record { mode = SimulatorMode.healthy; store = empty_store }))
          × (length db.events ≡ expected)
          × (length db.outbox ≡ expected)
          × (length db.shipments ≡ expected)
          × (length db.test_runs ≡ 1)
          × (length store.events ≡ expected)
          × (count_rows (λ e. e.test_run_id == some id) db.events ≡ expected))
unfolding reset_experiment_state control_client
reset_in_mode id expected db SimulatorMode.healthy store = ground arith
reset_in_mode id expected db SimulatorMode.return_500 store = ground arith
reset_in_mode id expected db SimulatorMode.slow store = ground arith
reset_in_mode id expected db SimulatorMode.timeout store = ground arith
reset_in_mode id expected db SimulatorMode.unavailable store = ground arith

-- With the program's own simulator, a network that does not fail and a commit that succeeds, a
-- reset either raises and touches nothing, or leaves the database with its partners alone and the
-- simulator healthy and empty; the latter only if there was one test run, all the expected events,
-- and no others, were persisted for the named run, and the numbers of entries, shipments and
-- receipts agreed with them.
pub reset_all_or_nothing :
    (id : Uuid) (expected : ℕ) (db : Database) (s : Simulator)
    → let reset = reset_experiment_state control_client id expected (ok tt) (db, s) in
      (reset ≡ (err experiment_reset_error, (db, s)))
      ⊎ ((reset.1 ≡ (partners_of db, record { mode = SimulatorMode.healthy; store = empty_store }))
          × (length db.events ≡ expected)
          × (length db.outbox ≡ expected)
          × (length db.shipments ≡ expected)
          × (length db.test_runs ≡ 1)
          × (length s.store.events ≡ expected)
          × (count_rows (λ e. e.test_run_id == some id) db.events ≡ expected))
reset_all_or_nothing id expected db s = reset_in_mode id expected db s.mode s.store
