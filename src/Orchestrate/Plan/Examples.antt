-- ===== src/Orchestrate/Plan/Examples.antt =====
-- Runs of `ComputePlan`, and its theorems at them.
use nix_compose.Prelude.{String, List, [], ◌∷◌, ◌≡◌, refl, none, some, ◌+◌, length}
use nix_compose.Prelude.Dict.{lookup, insert, delete as delete_key}
use nix_compose.Prelude.Sort.{sort}
use nix_compose.Orchestrate.Types.{create, delete, Deployment, new_deployment, Rollout}
use nix_compose.Orchestrate.Plan.{
  Plan, action_create, action_update, action_destroy, action_noop, compute_plan, summary,
}
use nix_compose.Orchestrate.Plan.Spec.{
  actions_for, requests_for, action_table, request_table, wanted, latest,
}
use nix_compose.Orchestrate.Plan.Table.{compute_plan_table}
use nix_compose.Orchestrate.Plan.Counts.{of_type, summary-compute_plan}

program : Unit {0}
unfolding compute_plan summary lookup insert delete_key sort
program = tt

abbrev rollout : String → String → Rollout
rollout id body = record {
  instance_id = id;
  instance_key = "k";
  body = body;
  messages = [];
  errors = [];
  status = none;
}

abbrev desired : Deployment
desired = record (new_deployment "d") {
  requests = create "a" "k" "1" ∷ create "b" "k" "2" ∷ create "c" "k" "3" ∷ [];
}

abbrev state : List Rollout
state = rollout "b" "2" ∷ rollout "c" "old" ∷ rollout "z" "9" ∷ []

abbrev plan : Plan
plan = compute_plan some "p" desired state []

plan_requests :
    plan.deployment.requests
    ≡ create "a" "k" "1" ∷ delete "c" "k" ∷ create "c" "k" "3" ∷ delete "z" "k" ∷ []
unfolding program
plan_requests = refl

compute_plan_table_example :
    (actions_for "c" plan.actions
      ≡ action_table some (wanted "c" desired.requests) (latest "c" state))
    × (requests_for "c" plan.deployment.requests
        ≡ request_table some "c" (wanted "c" desired.requests) (latest "c" state))
compute_plan_table_example =
    compute_plan_table some "p" desired state [] "c" (refl, (refl, (refl, tt)))

summary-compute_plan_example :
    ((summary plan).creates ≡ of_type action_create plan.actions)
    × ((summary plan).updates ≡ of_type action_update plan.actions)
    × ((summary plan).destroys ≡ of_type action_destroy plan.actions)
    × ((summary plan).noops ≡ of_type action_noop plan.actions)
    × ((summary plan).creates
          + (summary plan).updates
          + (summary plan).destroys
          + (summary plan).noops
        ≡ length plan.actions)
summary-compute_plan_example = summary-compute_plan some "p" desired state [] plan refl
