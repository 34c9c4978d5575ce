-- ===== src/TestRuns.antt =====
-- main.py: the endpoints of a test run, its registration, completion, summary and reconciliation. An
-- exception that an endpoint does not handle is an error here, and a 500 to the client; the draws of
-- a request are the server's clock and what the COMMIT comes to.
pub mod Lifecycle
pub mod Summary
use Prim.Native.String
use trackrelay.Prelude.{
  ltb, leb, nat_beq, if◌then◌else◌, nat_beq_iff, Bool-cases, Option-cases, is_none, or_zero,
  empty-set_of, empty-union, difference-All, empty-select, empty-length, empty-map, All-of_map,
  empty-keys, length, take, length-append, length-map, All, All-append, All-map_imp, int_beq, ℤ,
  insert_by, sort_by, length-sort_by, member-sort_by, sort_by-Nodup, Done, ◌>>=◌, ◌>>◌, Exec,
  Result-cases, Error, Result, count_rows-le, count_rows_mono, count_rows-map, map-map, map_same,
  set_of-eq, select-Nodup, All-member, is_subset-All, Nodup-map-select, keys-map, member-lookup,
  dict_of-eq, member-keys-select, keys-select-Nodup, length-keys, length-values, keys-select-All,
  lookup_item, keys-All, All-and, ◌==◌, string_equality, nat_equality, option_beq, option_beq_iff,
  option_equality, pair_beq, pair_beq_iff, pair_equality, beq_refl, Equality, member, add, add_all,
  set_of, union, difference, is_subset, same_set, Nodup, member-append, add_all-Nodup,
  member-add_all, length-le-count_rows, set_of-Nodup, union-Nodup, member-set_of, member-union,
  lookup, put, put_all, dict_of, keys, values, member-put, put_all-Nodup, member-put_all,
  lookup-put, member-eq-lookup, dict_of-Nodup, member-dict_of, select, scalar, exists_row,
  update_rows, count_rows, exists_row-append, scalar-append, select-append, exists_row-eq-scalar,
  scalar_holds, length-update_rows, exists_row-update_rows, All-update_rows, scalar-update_rows,
  scalar-update_rows_ne, ℕ, zero, suc, ◌+◌, ◌-◌, ◌*◌, ◌/◌, ◌%◌, ◌≤◌, ◌<◌, min, max, String, ◌≡◌,
  refl, sym, ap, ◌∙◌, subst, ◌≢◌, ◌↔◌, ◌⊎◌, inl, inr, Bool, true, false, not, ◌&&◌, ◌||◌, Option,
  none, some, List, [], ◌∷◌, ◌++◌, map, arith, eq_iff, ok, err, integrity_error, sqlalchemy_error,
  http_status_error, transport_error, unexpected_error, queue_error, receive_error,
  message_decode_error, acknowledgement_error, persisted_event_not_found,
  recorded_delivery_inconsistent, outbox_entry_not_found, backlog_inspection_error,
  redrive_policy_error, validation_error, experiment_reset_error, test_run_not_found,
  test_run_definition_mismatch, key_error, value_error, pos, negsuc,
}
use trackrelay.Domain.Json.{Fields}
use trackrelay.Domain.Event.{Uuid, Pydantic, NormalizedEvent}
use trackrelay.Models.{Partner, TestRun, Database}
use trackrelay.Experiments.Manifest.{InputManifest, scenario_text, dump_configuration}
use trackrelay.Experiments.Report.{ReconciliationReport}
use trackrelay.Experiments.Reconciliation.{reconcile_manifest}

-- What an endpoint answers: an HTTPException's status code, or a response.
pub data Answer {ℓ} (Response : Type ℓ) : Type ℓ where
  http_exception : ℕ → Answer Response
  response : Response → Answer Response

-- `Literal["registered", "completed"]`
pub data RunStatus : Type 0 where
  registered completed : RunStatus

pub record TestRunLifecycleResponse : Type 0 where
  pub test_run_id : Uuid
  pub status : RunStatus

-- `session.commit()` of a new state: the old one stays when it raises.
abbrev pub commit_answer {ℓ} :
    {A : Type ℓ} → Result Done → A → Database → Database → Result A × Database
commit_answer (err e) a old new = (err e, old)
commit_answer (ok _) a old new = (ok a, new)

abbrev pub partner_of_run : String → Partner
partner_of_run id = record {
  id = id;
  name = String.◌++◌ "Experiment " id;
  adapter_type = "courier-alpha";
  is_active = true;
}

abbrev pub usable : Partner → Bool
usable partner = partner.adapter_type == "courier-alpha" && partner.is_active

abbrev pub run_of : Pydantic → ℕ → InputManifest → TestRun
run_of p now manifest = record {
  id = manifest.test_run_id;
  scenario_name = scenario_text manifest.scenario_name;
  random_seed = manifest.seed;
  configuration = dump_configuration p manifest.configuration;
  expected_event_count = manifest.events_generated;
  started_at = now;
  completed_at = none;
}

abbrev pub add_run : TestRun → Database → Database
add_run run db = record db { test_runs = db.test_runs ++ run ∷ [] }

-- `session.get(ExperimentRunModel, …)`
abbrev pub find_run : Uuid → Database → Option TestRun
find_run id db = scalar (λ r. r.id == id) db.test_runs

module _ (p : Pydantic) (now : ℕ) (commit : Result Done) (manifest : InputManifest) where
  abbrev pub register_new :
      Option Partner → Database → Result (Answer TestRunLifecycleResponse) × Database
  register_new none db =
      commit_answer commit
        (response (record { test_run_id = manifest.test_run_id; status = registered })) db
        (add_run (run_of p now manifest) (record db {
          partners = db.partners ++ partner_of_run manifest.configuration.partner_id ∷ [];
        }))
  register_new (some partner) db =
      if not (usable partner)
      then (ok (http_exception 409), db)
      else commit_answer commit
          (response (record { test_run_id = manifest.test_run_id; status = registered })) db
          (add_run (run_of p now manifest) db)

  unfoldable pub register_test_run : Database → Result (Answer TestRunLifecycleResponse) × Database
  register_test_run db =
      if not (is_none (find_run manifest.test_run_id db))
      then (ok (http_exception 409), db)
      else register_new (scalar (λ x. x.id == manifest.configuration.partner_id) db.partners) db

abbrev pub complete_row : ℕ → TestRun → TestRun
complete_row now run = record run { completed_at = some now }

-- `ck_test_runs_completion` and the COMMIT
abbrev pub complete_found :
    ℕ
    → Result Done
    → Uuid
    → Option TestRun
    → Database
    → Result (Answer TestRunLifecycleResponse) × Database
complete_found now commit id none db = (ok (http_exception 404), db)
complete_found now commit id (some run) db =
    if not (is_none run.completed_at)
    then (ok (http_exception 409), db)
    else if ltb now run.started_at
    then (err integrity_error, db)
    else commit_answer commit (response (record { test_run_id = id; status = completed })) db
        (record db { test_runs = update_rows (λ r. r.id == id) (complete_row now) db.test_runs })

unfoldable pub complete_test_run :
    ℕ → Result Done → Uuid → Database → Result (Answer TestRunLifecycleResponse) × Database
complete_test_run now commit id db = complete_found now commit id (find_run id db) db

-- `except (TestRunNotFoundError, TestRunDefinitionMismatchError)` and `except httpx.HTTPError`
abbrev pub reconciliation_answer :
    Result ReconciliationReport → Result (Answer ReconciliationReport)
reconciliation_answer (ok report) = ok (response report)
reconciliation_answer (err test_run_not_found) = ok (http_exception 409)
reconciliation_answer (err test_run_definition_mismatch) = ok (http_exception 409)
reconciliation_answer (err (http_status_error _ _)) = ok (http_exception 503)
reconciliation_answer (err (Error.transport_error _)) = ok (http_exception 503)
reconciliation_answer (err raised) = err raised

-- `fetched` is what fetch_simulator_receipts comes to.
unfoldable pub reconcile_test_run :
    Pydantic
    → (Fields → Fields → Bool)
    → Result (List NormalizedEvent)
    → Uuid
    → InputManifest
    → Database
    → Result (Answer ReconciliationReport)
reconcile_test_run p same_payload fetched test_run_id manifest db =
    if not (manifest.test_run_id == test_run_id)
    then ok (http_exception 409)
    else reconciliation_answer
        (fetched >>= (λ receipts. reconcile_manifest p same_payload manifest db receipts))
