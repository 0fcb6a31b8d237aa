-- ===== src/Orchestrate/Sync/Rollback.antt =====
-- `Rollback`: what it plans for each resource. The deployment that `ApplySync` saves is that of the
-- plan, the difference to the state, so that going back to it removes what the plan left alone.
use nix_compose.Prelude.{
  String, List, [], ◌∷◌, ◌≡◌, refl, ◌∙◌, ap, Option, none, some, true, false, arith, IsUnique,
}
use nix_compose.Prelude.Dict.{lookup}
use nix_compose.Orchestrate.Types.{Request, create, delete, status, Deployment, Rollout}
use nix_compose.Orchestrate.Plan.{Plan, action_destroy, ConditionMap, body_equal, compute_plan}
use nix_compose.Orchestrate.Plan.Spec.{
  actions_for, requests_for, wanted, latest, create_ids, action_table, request_table,
}
use nix_compose.Orchestrate.Plan.Table.{compute_plan_table}
use nix_compose.Orchestrate.Plan.Creates.{compute_plan-IsUnique}
use nix_compose.Orchestrate.Links.{Bolt}
use nix_compose.Orchestrate.Sync.{
  Setting, Store, planned, unless_failed, apply_sync, engine_state, only_creates, rollback_target,
  engine_rollback, rollback_found, rollback_planned, engine_plan,
}

wanted-only_creates : (id : String) (rs : List Request) → wanted id (only_creates rs) ≡ wanted id rs
unfolding only_creates
wanted-only_creates id [] = refl
wanted-only_creates id (create j key body ∷ rest) = ground (arith, wanted-only_creates id rest)
wanted-only_creates id (delete j key ∷ rest) = wanted-only_creates id rest
wanted-only_creates id (status j key ∷ rest) = wanted-only_creates id rest

create_ids-only_creates : (rs : List Request) → create_ids (only_creates rs) ≡ create_ids rs
unfolding only_creates
create_ids-only_creates [] = refl
create_ids-only_creates (create j key body ∷ rest) = ap (λ l. j ∷ l) (create_ids-only_creates rest)
create_ids-only_creates (delete j key ∷ rest) = create_ids-only_creates rest
create_ids-only_creates (status j key ∷ rest) = create_ids-only_creates rest

-- A create request for `id` is among its requests.
wanted_requests : (id : String) (rs : List Request) → requests_for id rs ≡ [] → wanted id rs ≡ none
wanted_requests id [] h = refl
wanted_requests id (create j key body ∷ rest) h = ground (arith, wanted_requests id rest)
wanted_requests id (delete j key ∷ rest) h = ground (arith, wanted_requests id rest)
wanted_requests id (status j key ∷ rest) h = ground (arith, wanted_requests id rest)

module _ (bolt : Bolt) (setting : Setting bolt) (canonical : String → Option String) where
  -- A trial `Rollback` to a saved deployment leaves the database as it is, and one that is no trial
  -- hands its plan to `ApplySync`. The plan has about each resource what the table of `ComputePlan` says of the create requests that were saved with the
  -- deployment (none twice with the same id) and the present rollouts.
  pub rollback_plan :
      (target_id plan_id saved_id id : String) (s : Store bolt) (d : Deployment)
      (rollouts : List Rollout)
      → lookup saved_id s.deployments ≡ some d
      → engine_state bolt setting s ≡ some rollouts
      → IsUnique (create_ids d.requests)
      → (plan : Plan) × (engine_rollback bolt setting canonical target_id plan_id saved_id true s
          ≡ (s, planned plan))
        × (engine_rollback bolt setting canonical target_id plan_id saved_id false s
            ≡ unless_failed bolt plan (apply_sync bolt setting plan s))
        × (actions_for id plan.actions
            ≡ action_table canonical (wanted id d.requests) (latest id rollouts))
        × (requests_for id plan.deployment.requests
            ≡ request_table canonical id (wanted id d.requests) (latest id rollouts))
  unfolding engine_rollback rollback_found rollback_planned engine_plan rollback_target
  rollback_plan target_id plan_id saved_id id s d rollouts found state u =
      let target = rollback_target target_id d in
      let table =
        compute_plan_table canonical plan_id target rollouts [] id
          (rw (create_ids-only_creates d.requests) u) in
      (
        compute_plan canonical plan_id target rollouts [],
        rw (found, state) refl,
        rw (found, state) refl,
        table.0
            ∙ ap (λ w. action_table canonical w (latest id rollouts))
                (wanted-only_creates id d.requests),
        table.1
            ∙ ap (λ w. request_table canonical id w (latest id rollouts))
                (wanted-only_creates id d.requests),
      )

  -- Let a deployment create no id twice and want a resource whose rollout has the same body, so that
  -- the plan for it leaves the resource alone, and let the deployment of this plan be saved and the
  -- resource still have a rollout. A trial `Rollback` to what was saved then leaves the database as
  -- it is and plans to destroy the resource, with one delete request for it, though the deployment
  -- wanted it. `Rollback` that is no trial hands the same plan to `ApplySync`.
  pub rollback_destroys :
      (target_id plan_id saved_id id new_id key body : String) (s : Store bolt)
      (desired : Deployment) (before now : List Rollout) (conditions : ConditionMap)
      (old present : Rollout)
      → IsUnique (create_ids desired.requests)
      → wanted id desired.requests ≡ some (key, body)
      → latest id before ≡ some old
      → body_equal canonical body old.body ≡ true
      → lookup saved_id s.deployments
        ≡ some (compute_plan canonical new_id desired before conditions).deployment
      → engine_state bolt setting s ≡ some now
      → latest id now ≡ some present
      → (plan : Plan) × (engine_rollback bolt setting canonical target_id plan_id saved_id true s
          ≡ (s, planned plan))
        × (engine_rollback bolt setting canonical target_id plan_id saved_id false s
            ≡ unless_failed bolt plan (apply_sync bolt setting plan s))
        × (actions_for id plan.actions ≡ action_destroy ∷ [])
        × (requests_for id plan.deployment.requests ≡ delete id present.instance_key ∷ [])
  rollback_destroys target_id plan_id saved_id id new_id key body s desired before now conditions
        old present u want had same found state has =
      let saved = compute_plan canonical new_id desired before conditions in
      let (_, requests) = compute_plan_table canonical new_id desired before conditions id u in
      let nothing : requests_for id saved.deployment.requests ≡ [] =
        requests ∙ (rw (want, had) (rw same refl)) in
      let unwanted = wanted_requests id saved.deployment.requests nothing in
      let (plan, trial, real, actions, reqs) =
        rollback_plan target_id plan_id saved_id id s saved.deployment now found state
          (compute_plan-IsUnique canonical new_id desired before conditions u) in
      (plan, trial, real, actions ∙ (rw (unwanted, has) refl), reqs ∙ (rw (unwanted, has) refl))
