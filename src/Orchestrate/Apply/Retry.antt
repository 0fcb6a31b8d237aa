-- ===== src/Orchestrate/Apply/Retry.antt =====
-- Planning again behind `CreateRequest.Process`: what the rollout that it saved makes of the request.
use nix_compose.Prelude.{
  String, List, [], ◌∷◌, ◌++◌, ◌≡◌, refl, ◌∙◌, Option, some, true, eq_refl, IsUnique,
}
use nix_compose.Prelude.Dict.{lookup, lookup-insert}
use nix_compose.Orchestrate.Types.{Deployment, Rollout}
use nix_compose.Orchestrate.Plan.{action_noop, ConditionMap, compute_plan}
use nix_compose.Orchestrate.Plan.Spec.{
  body_equal_refl, actions_for, requests_for, wanted, create_ids, latest,
}
use nix_compose.Orchestrate.Plan.Table.{compute_plan_table}
use nix_compose.Orchestrate.Links.{Bolt}
use nix_compose.Orchestrate.Apply.{
  CreateRequest, applied, World, State, process_create, save_rollout, rollout_of,
}

lookup-process_create :
    (bolt : Bolt) (world : World) (r : CreateRequest) (s : State bolt)
    → world.loads r ≡ true
    → world.saves (s.calls ++ applied r.id ∷ []) ≡ true
    → lookup r.id (process_create bolt world r s).0.rollouts
      ≡ some (rollout_of r (world.applies s.calls r))
unfolding process_create save_rollout
lookup-process_create bolt world r s loaded saved =
    rw (loaded, saved)
      (lookup-insert r.id r.id (rollout_of r (world.applies s.calls r)) s.rollouts
        ∙ rw (eq_refl r.id) refl)

-- Once the instance of a create request was loaded and the rollout saved, the next plan leaves the
-- resource alone if it is wanted with the same body, which decodes, and no id is created twice,
-- whether or not the provider applied it.
pub process_create-NoOp :
    (bolt : Bolt) (world : World) (r : CreateRequest) (s : State bolt)
    (canonical : String → Option String) (new_id key value : String) (desired : Deployment)
    (rollouts : List Rollout) (conditions : ConditionMap)
    → world.loads r ≡ true
    → world.saves (s.calls ++ applied r.id ∷ []) ≡ true
    → latest r.id rollouts ≡ lookup r.id (process_create bolt world r s).0.rollouts
    → IsUnique (create_ids desired.requests)
    → wanted r.id desired.requests ≡ some (key, r.body)
    → canonical r.body ≡ some value
    → (actions_for r.id (compute_plan canonical new_id desired rollouts conditions).actions
        ≡ action_noop ∷ [])
      × (requests_for r.id
            (compute_plan canonical new_id desired rollouts conditions).deployment.requests
          ≡ [])
process_create-NoOp bolt world r s canonical new_id key value desired rollouts conditions loaded
      saved state unique want decodes =
    let (acts, reqs) =
      compute_plan_table canonical new_id desired rollouts conditions r.id unique in
    let found = state ∙ lookup-process_create bolt world r s loaded saved in
    let same = body_equal_refl canonical r.body value decodes in
    (acts ∙ (rw (want, found) (rw same refl)), reqs ∙ (rw (want, found) (rw same refl)))
