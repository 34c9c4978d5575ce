-- ===== src/TestRuns/Lifecycle.antt =====
-- The lifecycle of a test run: it is registered once, as its manifest defines it, and completed once.
use trackrelay.Prelude.{
  Bool-cases, subst, String, Option-cases, is_none, Done, Result, ◌==◌, string_equality,
  nat_equality, option_equality, pair_equality, beq_refl, scalar, update_rows, exists_row-eq-scalar,
  scalar_holds, scalar-update_rows, ℕ, ◌≤◌, ◌≡◌, refl, ap, ◌∙◌, inl, inr, Bool, true, none, some,
  List, [], ◌∷◌, ◌++◌, arith, ok, int_beq_refl,
}
use trackrelay.Domain.Json.{Fields}
use trackrelay.Domain.Event.{Uuid, Pydantic}
use trackrelay.Models.{Partner, TestRun, Database}
use trackrelay.Models.Insert.{has_test_run}
use trackrelay.Experiments.Manifest.{InputManifest, scenario_text, dump_configuration}
use trackrelay.Experiments.Reconciliation.{check_definition}
use trackrelay.TestRuns.{
  http_exception, response, TestRunLifecycleResponse, run_of, find_run, complete_row,
  partner_of_run, register_test_run, complete_test_run,
}

find-append_new :
    (id : Uuid) (runs : List TestRun) (run : TestRun)
    → is_none (scalar (λ r. r.id == id) runs) ≡ true
    → run.id ≡ id
    → scalar (λ r. r.id == id) (runs ++ run ∷ []) ≡ some run
find-append_new id [] run h same = ground (arith, nat_equality.equal_iff run.id id, same)
find-append_new id (x ∷ runs) run h same = ground (arith, h, find-append_new id runs run, same)

-- The run of a manifest has the manifest's definition.
matches_own :
    (p : Pydantic) (same_payload : Fields → Fields → Bool) (now : ℕ) (manifest : InputManifest)
    → ((f : Fields) → same_payload f f ≡ true)
    → check_definition p same_payload manifest (some (run_of p now manifest)) ≡ ok tt
matches_own p same_payload now manifest reflexive = ground (
  arith,
  beq_refl (scenario_text manifest.scenario_name),
  int_beq_refl manifest.seed,
  reflexive (dump_configuration p manifest.configuration),
  beq_refl manifest.events_generated,
)

-- The partner is there, active, and Courier Alpha's adapter is its own.
abbrev pub IsPartnerReady : String → Database → Type 0
IsPartnerReady id db =
    (partner : Partner) × (scalar (λ x. x.id == id) db.partners ≡ some partner)
    × (partner.adapter_type ≡ "courier-alpha")
    × (partner.is_active ≡ true)

find-append_partner :
    (id : String) (partners : List Partner) (partner : Partner)
    → scalar (λ x. x.id == id) partners ≡ none
    → partner.id ≡ id
    → scalar (λ x. x.id == id) (partners ++ partner ∷ []) ≡ some partner
find-append_partner id [] partner h same =
    ground (arith, string_equality.equal_iff partner.id id, same)
find-append_partner id (x ∷ partners) partner h same = elim (Bool-cases (x.id == id)) [
  | inl own ↦ absurd (ground (arith, h, own))
  | inr other ↦ rw other (find-append_partner id partners partner (ground (arith, h, other)) same)
]

module _ (p : Pydantic) (now : ℕ) (commit : Result Done) (manifest : InputManifest) (db : Database)
    (answer : TestRunLifecycleResponse)
    (h : (register_test_run p now commit manifest db).0 ≡ ok (response answer)) where
  register_new_run : find_run manifest.test_run_id db ≡ none
  unfolding register_test_run
  register_new_run = elim (Option-cases (find_run manifest.test_run_id db)) [
    | inl none' ↦ none'
    | inr (run, found) ↦ absurd (ground (arith, h, found))
  ]

  register_adds :
      (register_test_run p now commit manifest db).1.test_runs
      ≡ db.test_runs ++ run_of p now manifest ∷ []
  unfolding register_test_run
  register_adds = ground (arith, h)

  register_finds :
      find_run manifest.test_run_id (register_test_run p now commit manifest db).1
      ≡ some (run_of p now manifest)
  register_finds =
      ap (λ runs. scalar (λ r. r.id == manifest.test_run_id) runs) register_adds
      ∙ find-append_new manifest.test_run_id db.test_runs (run_of p now manifest)
          (ground (arith, register_new_run)) refl

  register_readies :
      IsPartnerReady manifest.configuration.partner_id
        (register_test_run p now commit manifest db).1
  unfolding register_test_run
  register_readies =
      let id = manifest.configuration.partner_id in
      elim (Option-cases (scalar (λ x. x.id == id) db.partners)) [
        | inl missing ↦ (
          partner_of_run id,
          subst (λ ps. scalar (λ x. x.id == id) ps ≡ some (partner_of_run id))
              (ground (arith, h, missing))
              (find-append_partner id db.partners (partner_of_run id) missing refl),
          refl,
          refl,
        )
        | inr (partner, found) ↦ (
          partner,
          subst (λ ps. scalar (λ x. x.id == id) ps ≡ some partner) (ground (arith, h, found)) found,
          ground (arith, h, found, string_equality.equal_iff partner.adapter_type "courier-alpha"),
          ground (arith, h, found),
        )
      ]

-- A registration answers 201 only for a run that was not registered; it commits the manifest's
-- definition, so that reconciliation finds the run and no mismatch (when `==` on JSON objects is
-- reflexive); the run's partner is there afterwards, active and of Courier Alpha; and a second
-- registration is a 409 that changes nothing.
pub register-once :
    (p : Pydantic) (same_payload : Fields → Fields → Bool) (now later : ℕ)
    (commit again : Result Done) (manifest : InputManifest) (db : Database)
    (answer : TestRunLifecycleResponse)
    → ((f : Fields) → same_payload f f ≡ true)
    → (register_test_run p now commit manifest db).0 ≡ ok (response answer)
    → let after = (register_test_run p now commit manifest db).1 in
      (find_run manifest.test_run_id db ≡ none)
      × (find_run manifest.test_run_id after ≡ some (run_of p now manifest))
      × (check_definition p same_payload manifest (find_run manifest.test_run_id after) ≡ ok tt)
      × (has_test_run manifest.test_run_id after ≡ true)
      × IsPartnerReady manifest.configuration.partner_id after
      × (register_test_run p later again manifest after ≡ (ok (http_exception 409), after))
unfolding register_test_run
register-once p same_payload now later commit again manifest db answer reflexive h =
    let found = register_finds p now commit manifest db answer h in
    (
      register_new_run p now commit manifest db answer h,
      found,
      rw (found) (matches_own p same_payload now manifest reflexive),
      ground (
        arith,
        exists_row-eq-scalar (λ r. r.id == manifest.test_run_id)
            (register_test_run p now commit manifest db).1.test_runs,
        found,
      ),
      register_readies p now commit manifest db answer h,
      rw (found) refl,
    )

module _ (now : ℕ) (commit : Result Done) (id : Uuid) (db : Database)
    (answer : TestRunLifecycleResponse) (run : TestRun)
    (h : (complete_test_run now commit id db).0 ≡ ok (response answer))
    (found : find_run id db ≡ some run) where
  complete_updates :
      (complete_test_run now commit id db).1.test_runs
      ≡ update_rows (λ r. r.id == id) (complete_row now) db.test_runs
  unfolding complete_test_run
  complete_updates = ground (arith, h, found)

  complete_finds : find_run id (complete_test_run now commit id db).1 ≡ some (complete_row now run)
  complete_finds =
      ap (λ runs. scalar (λ r. r.id == id) runs) complete_updates
      ∙ scalar-update_rows (λ r. r.id == id) (λ r. r.id == id) (complete_row now) db.test_runs
          (λ r. refl)
      ∙ rw (found, scalar_holds (λ r. r.id == id) db.test_runs run found) refl

-- A completion answers 200 only for a registered run that was not complete, at a time not before its
-- start; it records that time and nothing else of the run, and a second completion is a 409 that
-- changes nothing.
pub complete-once :
    (now later : ℕ) (commit again : Result Done) (id : Uuid) (db : Database)
    (answer : TestRunLifecycleResponse)
    → (complete_test_run now commit id db).0 ≡ ok (response answer)
    → let after = (complete_test_run now commit id db).1 in
      (run : TestRun) × (find_run id db ≡ some run)
      × (run.completed_at ≡ none)
      × (run.started_at ≤ now)
      × (find_run id after
          ≡ some (record {
            id = run.id;
            scenario_name = run.scenario_name;
            random_seed = run.random_seed;
            configuration = run.configuration;
            expected_event_count = run.expected_event_count;
            started_at = run.started_at;
            completed_at = some now;
          }))
      × (complete_test_run later again id after ≡ (ok (http_exception 409), after))
unfolding complete_test_run
complete-once now later commit again id db answer h = elim (Option-cases (find_run id db)) [
  | inl missing ↦ absurd (ground (arith, h, missing))
  | inr (run, found) ↦ (
    run,
    found,
    ground (arith, h, found),
    ground (arith, h, found),
    complete_finds now commit id db answer run h found,
    rw (complete_finds now commit id db answer run h found) refl,
  )
]
