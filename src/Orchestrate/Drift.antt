-- ===== src/Orchestrate/Drift.antt =====
-- pkg/orchestrate/engine.go: `DriftCheck`. The registered definitions and what the providers answer
-- are the parameter `Providers`.
pub mod Reports
mod Examples
use nix_compose.Prelude.{
  String, List, [], ◌∷◌, Option, none, some, Bool, true, false, if◌then◌else◌,
}
use nix_compose.Orchestrate.Types.{
  Rollout, RolloutStatus, RolloutStatusShort, failed, pending, running, error, succeeded, drifted,
  unknown,
}

-- A status of a provider, whose message is empty unless it is a SimpleStatus.
pub record Actual : Type 0 where
  pub short : RolloutStatusShort
  pub message : String

-- `has_definition` is `registry.GetDefinition` without an error, and `actual` `getProviderStatus`,
-- with `none` for an error.
pub record Providers : Type 0 where
  pub has_definition : String → Bool
  pub actual : Rollout → Option Actual

pub record DriftResult : Type 0 where
  pub resource_id : String
  pub key : String
  pub expected : RolloutStatusShort
  pub actual : RolloutStatusShort
  pub reason : String

-- SUCCEEDED or RUNNING.
abbrev pub is_up : RolloutStatusShort → Bool
is_up succeeded = true
is_up running = true
is_up failed = false
is_up pending = false
is_up error = false
is_up drifted = false
is_up unknown = false

-- What the provider answers, for a rollout that should be up.
abbrev pub compare_drift : Rollout → RolloutStatus → Option Actual → Option DriftResult
compare_drift r status none = none
compare_drift r status (some actual) =
    if is_up actual.short
    then none
    else some (record {
      resource_id = r.instance_id;
      key = r.instance_key;
      expected = status.short;
      actual = actual.short;
      reason = actual.message;
    })

-- The rollout, with its status, whether its definition is registered, and the answer of the provider.
abbrev pub check_status : Rollout → Option RolloutStatus → Bool → Option Actual → Option DriftResult
check_status r none found actual = none
check_status r (some status) found actual =
    if is_up status.short then (if found then compare_drift r status actual else none) else none

abbrev pub with_result : Option DriftResult → List DriftResult → List DriftResult
with_result none results = results
with_result (some result) results = result ∷ results

module _ (providers : Providers) where
  abbrev pub check_rollout_drift : Rollout → Option DriftResult
  check_rollout_drift r =
      check_status r r.status (providers.has_definition r.instance_key) (providers.actual r)

  -- The loop of `DriftCheck`.
  unfoldable pub drift_results : List Rollout → List DriftResult
  drift_results [] = []
  drift_results (r ∷ rest) = with_result (check_rollout_drift r) (drift_results rest)

  -- `DriftCheck`, on what `State` returned.
  unfoldable pub drift_check : Option (List Rollout) → Option (List DriftResult)
  unfolding drift_results
  drift_check none = none
  drift_check (some rollouts) = some (drift_results rollouts)
