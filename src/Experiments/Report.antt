-- ===== src/Experiments/Report.antt =====
-- experiments/reconciliation.py: the report, with the validator that every report has passed.
use trackrelay.Prelude.{
  ltb, if◌then◌else◌, length, ◌==◌, string_equality, nat_equality, option_equality, pair_equality,
  set_of, ℕ, ◌+◌, String, Bool, true, false, not, ◌&&◌, Option, none, some, List, map,
}
use trackrelay.Domain.Event.{Uuid}
use trackrelay.Experiments.Manifest.{BusinessEventIdentity}

pub record ReconciliationMismatch : Type 0 where
  pub partner_id : String
  pub partner_event_id : String
  pub reasons : List String
  pub successful_attempts : ℕ
  pub simulator_receipts : ℕ

abbrev pub mismatch_identity : ReconciliationMismatch → BusinessEventIdentity
mismatch_identity item = (item.partner_id, item.partner_event_id)

-- `schema_version` and `accounting_method` are constants of `reconcile_manifest`.
pub record ReconciliationReport : Type 0 where
  pub mismatches : Option (List ReconciliationMismatch)
  pub successful_retry_attempts : ℕ
  pub test_run_id : Uuid
  pub generated : ℕ
  pub accepted : ℕ
  pub rejected : ℕ
  pub unique : ℕ
  pub processed : ℕ
  pub failed : ℕ
  pub pending : ℕ
  pub unaccounted : ℕ
  pub simulator_receipts : ℕ
  pub simulator_unique_events : ℕ
  pub duplicate_business_effects : ℕ
  pub incorrect_final_shipment_states : ℕ
  pub invariants_passed : Bool

abbrev pub covers_unaccounted : Option (List ReconciliationMismatch) → ℕ → Bool
covers_unaccounted none unaccounted = true
covers_unaccounted (some mismatches) unaccounted =
    length mismatches == unaccounted
    && length (set_of (map mismatch_identity mismatches)) == unaccounted

abbrev pub implied_by_counts : ReconciliationReport → Bool
implied_by_counts self =
    self.unique == self.processed + self.failed + self.pending
    && self.unaccounted == 0
    && self.duplicate_business_effects == 0
    && self.incorrect_final_shipment_states == 0

abbrev pub same_bool : Bool → Bool → Bool
same_bool true b = b
same_bool false b = not b

-- Whether the validator returns.
unfoldable pub require_accounting_invariants : ReconciliationReport → Bool
require_accounting_invariants self =
    if not (self.generated == self.accepted + self.rejected)
    then false
    else if not (self.unique == self.processed + self.failed + self.pending)
    then false
    else if ltb self.accepted self.unique
    then false
    else if not (covers_unaccounted self.mismatches self.unaccounted)
    then false
    else same_bool self.invariants_passed (implied_by_counts self)
