-- ===== src/Orchestrate/Plan/Table.antt =====
-- `ComputePlan` as a whole.
use nix_compose.Prelude.{
  String, List, [], ◌∷◌, ◌++◌, ◌≡◌, refl, sym, ◌∙◌, Option, none, some, false, ◌==◌, inl, inr,
  contains, IsUnique, ==-cases, Bool-cases, arith, if◌then◌else◌,
}
use mathlib.Core.List.{append-nil}
use nix_compose.Prelude.Dict.{Dict, lookup, keys, has, contains-keys}
use nix_compose.Prelude.Sort.{sort, contains-sort, sort-IsUnique}
use nix_compose.Orchestrate.Types.{Request, delete, Deployment, Rollout, new_deployment}
use nix_compose.Orchestrate.Plan.{
  ActionType, action_destroy, ConditionMap, Plan, index_rollouts, Walk, walk_requests, plan_orphan,
  destroy_orphans, compute_plan,
}
use nix_compose.Orchestrate.Plan.Spec.{
  actions_for, requests_for, actions_for-append, requests_for-append, wanted, create_ids, latest,
  lookup-index_rollouts, index_rollouts-IsUnique, or_else, action_table, request_table,
  walk_actions, walk_table, remaining,
}
use nix_compose.Orchestrate.Plan.Requests.{Follows, walk_Follows, walk-IsUnique}

abbrev orphan_actions : Option Rollout → List ActionType
orphan_actions none = []
orphan_actions (some r) = action_destroy ∷ []

abbrev orphan_requests : String → Option Rollout → List Request
orphan_requests id none = []
orphan_requests id (some r) = delete id r.instance_key ∷ []

plan_orphan_lem :
    (id j : String) (found : Option Rollout) (p : Plan)
    → (actions_for id (plan_orphan j found p).actions
        ≡ actions_for id p.actions ++ (if j == id then orphan_actions found else []))
      × (requests_for id (plan_orphan j found p).deployment.requests
          ≡ requests_for id p.deployment.requests
            ++ (if j == id then orphan_requests j found else []))
plan_orphan_lem id j none p = elim (Bool-cases (j == id)) [
  | inl t ↦ rw t (sym (append-nil _), sym (append-nil _))
  | inr f ↦ rw f (sym (append-nil _), sym (append-nil _))
]
plan_orphan_lem id j (some r) p = (
  actions_for-append id p.actions (
      record {
        type = action_destroy;
        resource_id = j;
        key = r.instance_key;
        reason = "orphaned resource";
      }
      ∷ []),
  requests_for-append id p.deployment.requests (delete j r.instance_key ∷ []),
)

module _ (id : String) (current : Dict Rollout) where
  abbrev Destroyed : List String → Plan → Plan → Type 0
  Destroyed ids p p' =
      (actions_for id p'.actions
        ≡ actions_for id p.actions
          ++ (if contains ids id then orphan_actions (lookup id current) else []))
      × (requests_for id p'.deployment.requests
          ≡ requests_for id p.deployment.requests
            ++ (if contains ids id then orphan_requests id (lookup id current) else []))

  destroy_orphans-Destroyed :
      (ids : List String) (p : Plan)
      → IsUnique ids
      → Destroyed ids p (destroy_orphans current ids p)
  unfolding destroy_orphans
  destroy_orphans-Destroyed [] p u = (sym (append-nil _), sym (append-nil _))
  destroy_orphans-Destroyed (j ∷ ids) p u =
      let (first, first') = plan_orphan_lem id j (lookup j current) p in
      let (rest, rest') = destroy_orphans-Destroyed ids (plan_orphan j (lookup j current) p) u.1 in
      elim (==-cases j id) [
        | inl (t, e) ↦
            let gone : contains ids id ≡ false = rw e at u.0 in
            rw t (
              rest ∙ (rw gone (append-nil _ ∙ (first ∙ (rw t (rw e))))),
              rest' ∙ (rw gone (append-nil _ ∙ (first' ∙ (rw t (rw e))))),
            )
        | inr (f, e) ↦
            let same : actions_for id (plan_orphan j (lookup j current) p).actions
                ≡ actions_for id p.actions =
              first ∙ (rw f (append-nil _)) in
            let same' : requests_for id (plan_orphan j (lookup j current) p).deployment.requests
                ≡ requests_for id p.deployment.requests =
              first' ∙ (rw f (append-nil _)) in
            rw f (cc (rest, same), cc (rest', same'))
      ]

abbrev TableHolds :
    (String → Option String) → String → Option (String × String) → Option Rollout → Plan → Type 0
TableHolds canonical id want found p =
    (actions_for id p.actions ≡ action_table canonical want found)
    × (requests_for id p.deployment.requests ≡ request_table canonical id want found)

-- The loop over the requests and then the orphans.
fill_table :
    (canonical : String → Option String) (id : String) (w w' : Walk)
    (want : Option (String × String)) (found : Option Rollout)
    → IsUnique (keys w'.current)
    → actions_for id w.plan.actions ≡ []
    → requests_for id w.plan.deployment.requests ≡ []
    → lookup id w.current ≡ found
    → Follows canonical id w w' want
    → TableHolds canonical id want found
        (destroy_orphans w'.current (sort (keys w'.current)) w'.plan)
fill_table canonical id w w' want found u a r e h =
    let (d, d') =
      destroy_orphans-Destroyed id w'.current (sort (keys w'.current)) w'.plan
        (sort-IsUnique (keys w'.current) u) in
    let listed = contains-sort (keys w'.current) id ∙ contains-keys w'.current id in
    by_case want found e h.at_current h.at_actions h.at_requests d d' listed
  where
    by_case :
        (want : Option (String × String)) (found : Option Rollout)
        → lookup id w.current ≡ found
        → lookup id w'.current ≡ remaining canonical want (lookup id w.current)
        → actions_for id w'.plan.actions
          ≡ actions_for id w.plan.actions ++ walk_actions canonical want (lookup id w.current)
        → requests_for id w'.plan.deployment.requests
          ≡ requests_for id w.plan.deployment.requests
            ++ walk_table canonical id want (lookup id w.current)
        → actions_for id (destroy_orphans w'.current (sort (keys w'.current)) w'.plan).actions
          ≡ actions_for id w'.plan.actions
            ++ (if contains (sort (keys w'.current)) id
                then orphan_actions (lookup id w'.current)
                else [])
        → requests_for id
            (destroy_orphans w'.current (sort (keys w'.current)) w'.plan).deployment.requests
          ≡ requests_for id w'.plan.deployment.requests
            ++ (if contains (sort (keys w'.current)) id
                then orphan_requests id (lookup id w'.current)
                else [])
        → contains (sort (keys w'.current)) id ≡ has id w'.current
        → TableHolds canonical id want found
            (destroy_orphans w'.current (sort (keys w'.current)) w'.plan)
    by_case none none e cur acts reqs d d' listed = ground (arith, a, r)
    by_case none (some x) e cur acts reqs d d' listed = ground (arith, a, r)
    by_case (some (key, body)) none e cur acts reqs d d' listed = ground (arith, a, r)
    by_case (some (key, body)) (some x) e cur acts reqs d d' listed = ground (
      arith,
      a,
      r,
      append-nil (walk_actions canonical (some (key, body)) (some x)),
      append-nil (walk_table canonical id (some (key, body)) (some x)),
    )

or_else-nil : (id : String) (found : Option Rollout) → or_else found (lookup id []) ≡ found
unfolding lookup
or_else-nil id none = refl
or_else-nil id (some r) = refl

-- Where the desired deployment creates no id twice, the plan does about each resource what the table
-- says, and no more: a wanted resource without a rollout is created; one whose rollout has an equal
-- body is left alone; any other wanted one is deleted and created again, in this order; a resource
-- with a rollout that is not wanted is deleted; all else gets no action and no request.
pub compute_plan_table :
    (canonical : String → Option String) (new_id : String) (desired : Deployment)
    (rollouts : List Rollout) (conditions : ConditionMap) (id : String)
    → IsUnique (create_ids desired.requests)
    → (actions_for id (compute_plan canonical new_id desired rollouts conditions).actions
        ≡ action_table canonical (wanted id desired.requests) (latest id rollouts))
      × (requests_for id
            (compute_plan canonical new_id desired rollouts conditions).deployment.requests
          ≡ request_table canonical id (wanted id desired.requests) (latest id rollouts))
unfolding compute_plan
compute_plan_table canonical new_id desired rollouts conditions id u =
    let start : Walk = start_walk in
    fill_table canonical id start (walk_requests canonical desired.requests start)
      (wanted id desired.requests) (latest id rollouts)
      (walk-IsUnique canonical desired.requests start (index_rollouts-IsUnique rollouts [] tt)) refl
      refl (lookup-index_rollouts id rollouts [] ∙ or_else-nil id (latest id rollouts))
      (walk_Follows canonical id desired.requests start u)
  where
    start_walk : Walk
    start_walk = record {
      current = index_rollouts rollouts [];
      plan = record { actions = []; deployment = new_deployment new_id; conditions = conditions };
    }
