-- ===== src/Tests/Generator.antt =====
-- A manifest of two shipments, whose histories are sent backwards.
use trackrelay.Prelude.{
  string_equality, nat_equality, option_equality, pair_equality, Nodup, keys, ℕ, ◌≡◌, sym, ap, ◌∙◌,
  true, pos,
}
use trackrelay.Experiments.Manifest.{GeneratorConfiguration, require_consistent_expectations}
use trackrelay.Experiments.Generator.{Generation}
use trackrelay.Experiments.Scenarios.{CorrectnessScenario, build_correctness_manifest}
use trackrelay.Experiments.Scenarios.Validity.{build-valid}
use trackrelay.Tests.Reconciliation.{pydantic}
use trackrelay.Tests.Sqs.{strokes, count_strokes, count-strokes}

abbrev generation : Generation
generation = record {
  random_suffix = λ n. 5;
  random_seconds = λ n. 30;
  tracking_text = λ n suffix. strokes n;
  event_text = strokes;
}

abbrev two_shipments : GeneratorConfiguration
two_shipments = record {
  partner_id = "alpha";
  shipment_count = 2;
  start_at = record { instant = 0; utc_offset = pos 0 };
}

strokes_injective : (m n : ℕ) → strokes m ≡ strokes n → m ≡ n
strokes_injective m n h = sym (count-strokes m) ∙ ap count_strokes h ∙ count-strokes n

build-valid_example :
    (require_consistent_expectations (
        build_correctness_manifest pydantic generation CorrectnessScenario.out_of_order
          (pos 1)
          two_shipments
          90)
      ≡ true)
    × Nodup (
        keys
          (build_correctness_manifest pydantic generation CorrectnessScenario.out_of_order
            (pos 1)
            two_shipments
            90).expected_final_shipments)
build-valid_example =
    build-valid pydantic generation CorrectnessScenario.out_of_order (pos 1) two_shipments 90
      strokes_injective
