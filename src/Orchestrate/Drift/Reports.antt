-- ===== src/Orchestrate/Drift/Reports.antt =====
-- What `DriftCheck` reports.
use nix_compose.Prelude.{
  String, List, [], ◌∷◌, ◌≡◌, refl, sym, Option, none, some, Bool, false, ◌&&◌, not, if◌then◌else◌,
  arith,
}
use nix_compose.Orchestrate.Types.{Rollout, RolloutStatus}
use nix_compose.Orchestrate.Drift.{
  Providers, Actual, DriftResult, is_up, check_status, with_result, drift_results,
}

-- An answer that is not up.
abbrev is_down : Option Actual → Bool
is_down none = false
is_down (some actual) = not (is_up actual.short)

abbrev was_up : Option RolloutStatus → Bool
was_up none = false
was_up (some status) = is_up status.short

-- A rollout was up, its definition is registered, and its provider answers that it is not.
abbrev pub is_drift : Option RolloutStatus → Bool → Option Actual → Bool
is_drift status found actual = was_up status && (found && is_down actual)

abbrev pub result_ids : List DriftResult → List String
result_ids [] = []
result_ids (d ∷ rest) = d.resource_id ∷ result_ids rest

result_ids-with_result :
    (r : Rollout) (status : Option RolloutStatus) (found : Bool) (actual : Option Actual)
    (results : List DriftResult)
    → result_ids (with_result (check_status r status found actual) results) ≡ (
        if is_drift status found actual
        then r.instance_id ∷ result_ids results
        else result_ids results)
result_ids-with_result r none found actual results = refl
result_ids-with_result r (some status) found none results = ground arith
result_ids-with_result r (some status) found (some actual) results = ground arith

module _ (providers : Providers) where
  abbrev pub drifted_ids : List Rollout → List String
  drifted_ids [] = []
  drifted_ids (r ∷ rest) =
      let later = drifted_ids rest in
      if is_drift r.status (providers.has_definition r.instance_key) (providers.actual r)
      then r.instance_id ∷ later
      else later

  -- The resources of the reports are those of the drifted rollouts, in their order.
  pub drift_results-drifted_ids :
      (rollouts : List Rollout)
      → result_ids (drift_results providers rollouts) ≡ drifted_ids rollouts
  unfolding drift_results
  drift_results-drifted_ids [] = refl
  drift_results-drifted_ids (r ∷ rest) = rw (sym (drift_results-drifted_ids rest)) (
      result_ids-with_result r r.status (providers.has_definition r.instance_key)
        (providers.actual r) (drift_results providers rest))
