-- ===== src/Services/ExperimentReset.antt =====
-- services/experiment_reset.py: the destructive reset between two treatments. The simulator's HTTP
-- API is a record of calls over a state `S`, each with the JSON that it answers; `raise_for_status`
-- and the failures of the network are a part of the call. The database is read in one transaction.
pub mod Outcomes
use trackrelay.Prelude.{
  ℕ, Bool, true, false, not, ◌||◌, ◌&&◌, Option, none, some, String, List, length, ◌==◌,
  nat_equality, string_equality, option_equality, if◌then◌else◌, scalar, count_rows, ltb, pos,
  Result, ok, err, Error, Exec, Done, experiment_reset_error, [],
}
use trackrelay.Prelude.Actions.{◌>>=◌, lift}
use trackrelay.Domain.Json.{Json, Fields, obj, field, end, str, int, get}
use trackrelay.Domain.Event.{Uuid}
use trackrelay.Models.{Database, TestRun}
use trackrelay.Downstream.{
  SimulatorMode, Simulator, is_healthy, set_mode, clear_simulator_events, count_simulator_events,
}

pub record ExperimentDatabaseCounts : Type 0 where
  pub delivery_attempts : ℕ
  pub delivery_outbox_entries : ℕ
  pub events : ℕ
  pub shipments : ℕ
  pub test_runs : ℕ

abbrev pub is_empty : ExperimentDatabaseCounts → Bool
is_empty counts =
    counts.delivery_attempts == 0
    && counts.delivery_outbox_entries == 0
    && counts.events == 0
    && counts.shipments == 0
    && counts.test_runs == 0

pub record ExperimentStateSnapshot : Type 0 where
  pub database : ExperimentDatabaseCounts
  pub simulator_receipts : ℕ
  pub simulator_mode : SimulatorMode

abbrev pub empty_and_healthy : ExperimentStateSnapshot → Bool
empty_and_healthy state =
    is_empty state.database && state.simulator_receipts == 0 && is_healthy state.simulator_mode

pub record ExperimentResetEvidence : Type 0 where
  pub test_run_id : Uuid
  pub expected_event_count : ℕ
  pub before : ExperimentStateSnapshot
  pub after : ExperimentStateSnapshot
  pub simulator_receipts_removed : ℕ

-- `require_exact_empty_reset`: whether the validator returns.
unfoldable pub require_exact_empty_reset : ExperimentResetEvidence → Bool
require_exact_empty_reset self =
    if not (self.before.database.test_runs == 1)
    then false
    else if not (self.before.database.events == self.expected_event_count)
    then false
    else if not (self.before.database.delivery_outbox_entries == self.expected_event_count)
    then false
    else if not (self.before.database.shipments == self.expected_event_count)
    then false
    else if ltb self.before.database.delivery_attempts self.expected_event_count
    then false
    else if not (self.before.simulator_receipts == self.expected_event_count)
    then false
    else if not (is_healthy self.before.simulator_mode)
    then false
    else if not (self.simulator_receipts_removed == self.before.simulator_receipts)
    then false
    else empty_and_healthy self.after

unfoldable pub database_experiment_counts : Database → ExperimentDatabaseCounts
database_experiment_counts db = record {
  delivery_attempts = length db.attempts;
  delivery_outbox_entries = length db.outbox;
  events = length db.events;
  shipments = length db.shipments;
  test_runs = length db.test_runs;
}

pub record ControlClient (S : Type 0) : Type 0 where
  pub get_status : Exec S Json
  pub get_count : Exec S Json
  pub put_mode : SimulatorMode → Exec S Json
  pub delete_events : Exec S Json

-- `response.json()[key]`; a KeyError and a TypeError are one `none`.
abbrev pub item : String → Json → Option Json
item key (obj fields) = get key fields
item key _ = none

-- `SimulatorMode(value)`
abbrev pub mode_of_text : String → Option SimulatorMode
mode_of_text text =
    if text == "HEALTHY"
    then some SimulatorMode.healthy
    else if text == "RETURN_500"
    then some SimulatorMode.return_500
    else if text == "SLOW"
    then some SimulatorMode.slow
    else if text == "TIMEOUT"
    then some SimulatorMode.timeout
    else if text == "UNAVAILABLE"
    then some SimulatorMode.unavailable
    else none

abbrev pub mode_of : Option Json → Result SimulatorMode
mode_of (some (str text)) = elim (mode_of_text text) [
  | none ↦ err experiment_reset_error
  | some mode ↦ ok mode
]
mode_of _ = err experiment_reset_error

-- An `int` that is not negative; `type(x) is not int` refuses a bool.
abbrev pub count_of : Option Json → Result ℕ
count_of (some (int (pos n))) = ok n
count_of _ = err experiment_reset_error

-- The tables that TRUNCATE, or the five DELETEs, empty. `partners` is kept.
abbrev pub cleared : Database → Database
cleared db = record {
  partners = db.partners;
  shipments = [];
  events = [];
  outbox = [];
  attempts = [];
  test_runs = [];
}

-- The long condition of `reset_experiment_state`.
abbrev pub has_expected : Option TestRun → ℕ → Bool
has_expected none expected = false
has_expected (some run) expected = run.expected_event_count == expected

abbrev pub differs : ExperimentStateSnapshot → Option TestRun → ℕ → ℕ → Bool
differs before target target_event_count expected =
    not (has_expected target expected)
    || not (before.database.test_runs == 1)
    || not (before.database.events == expected)
    || not (before.database.delivery_outbox_entries == expected)
    || not (before.database.shipments == expected)
    || ltb before.database.delivery_attempts expected
    || not (target_event_count == expected)
    || not (before.simulator_receipts == expected)
    || not (is_healthy before.simulator_mode)

abbrev pub validated : ExperimentResetEvidence → Result ExperimentResetEvidence
unfolding require_exact_empty_reset
validated evidence =
    if require_exact_empty_reset evidence then ok evidence else err experiment_reset_error

module _ {S : Type 0} where
  -- A call of the simulator, and a read of the database.
  abbrev pub on_client : {A : Type 0} → Exec S A → Exec (Database × S) A
  on_client call (db, s) = let (r, s') = call s in (r, (db, s'))

  abbrev pub query : {A : Type 0} → (Database → A) → Exec (Database × S) A
  query f (db, s) = (ok (f db), (db, s))

  -- `_clear_database_experiment_state` and `session.commit()`, which may fail and roll back.
  unfoldable pub clear_database_experiment_state : Result Done → Exec (Database × S) Done
  clear_database_experiment_state (ok _) (db, s) = (ok tt, (cleared db, s))
  clear_database_experiment_state (err e) (db, s) = (err e, (db, s))

  abbrev pub refuse_if : Bool → Exec (Database × S) Done
  refuse_if true state = (err experiment_reset_error, state)
  refuse_if false state = (ok tt, state)

module _ {S : Type 0} (client : ControlClient S) where
  unfoldable pub simulator_state : Exec S (ℕ × SimulatorMode)
  simulator_state = do
    status ← client.get_status
    count ← client.get_count
    mode ← lift (mode_of (item "mode" status))
    receipts ← lift (count_of (item "event_count" count))
    lift (ok (receipts, mode))

  unfoldable pub inspect_experiment_state : Exec (Database × S) ExperimentStateSnapshot
  unfolding simulator_state database_experiment_counts
  inspect_experiment_state = do
    state ← on_client simulator_state
    counts ← query database_experiment_counts
    lift (ok (record { database = counts; simulator_receipts = state.0; simulator_mode = state.1 }))

  unfoldable pub reset_experiment_state :
      Uuid → ℕ → Result Done → Exec (Database × S) ExperimentResetEvidence
  unfolding inspect_experiment_state clear_database_experiment_state require_exact_empty_reset
  reset_experiment_state test_run_id expected commit = do
    before ← inspect_experiment_state
    target ← query (λ db. scalar (λ r. r.id == test_run_id) db.test_runs)
    target_event_count ← query (λ db. count_rows (λ e. e.test_run_id == some test_run_id) db.events)
    _ ← refuse_if (differs before target target_event_count expected)
    _ ← on_client (client.put_mode SimulatorMode.healthy)
    _ ← clear_database_experiment_state commit
    response ← on_client client.delete_events
    removed ← lift (count_of (item "cleared_event_count" response))
    after ← inspect_experiment_state
    lift (
        validated (record {
          test_run_id = test_run_id;
          expected_event_count = expected;
          before = before;
          after = after;
          simulator_receipts_removed = removed;
        }))

-- The simulator's own API (downstream/main.py) behind a network that does not fail.
abbrev pub mode_text : SimulatorMode → String
mode_text SimulatorMode.healthy = "HEALTHY"
mode_text SimulatorMode.return_500 = "RETURN_500"
mode_text SimulatorMode.slow = "SLOW"
mode_text SimulatorMode.timeout = "TIMEOUT"
mode_text SimulatorMode.unavailable = "UNAVAILABLE"

abbrev pub one_item : String → Json → Json
one_item key value = obj (field key value end)

abbrev pub control_client : ControlClient Simulator
unfolding set_mode clear_simulator_events count_simulator_events
control_client = record {
  get_status = λ s. (ok (one_item "mode" (str (mode_text s.mode))), s);
  get_count = λ s. (ok (one_item "event_count" (int (pos (count_simulator_events s)))), s);
  put_mode = λ mode s.
      let (current, s') = set_mode mode s in (ok (one_item "mode" (str (mode_text current))), s');
  delete_events = λ s.
      let (count, s') = clear_simulator_events s in
      (ok (one_item "cleared_event_count" (int (pos count))), s');
}
