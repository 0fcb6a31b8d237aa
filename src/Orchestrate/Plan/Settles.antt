-- ===== src/Orchestrate/Plan/Settles.antt =====
-- A deployment that creates an id twice never becomes a plan without changes.
use nix_compose.Prelude.{
  String, List, [], ◌∷◌, ◌++◌, ◌≡◌, refl, ◌∙◌, Option, none, some, Bool, true, false, ◌==◌, ◌||◌,
  ◌&&◌, inl, inr, Bool-cases, arith, eq_refl,
}
use nix_compose.Prelude.Dict.{Dict, lookup, keys}
use nix_compose.Prelude.Sort.{sort}
use nix_compose.Orchestrate.Types.{
  Request, create, delete, status, Deployment, Rollout, new_deployment,
}
use nix_compose.Orchestrate.Plan.{
  ActionType, action_create, action_destroy, Action, Plan, Walk, ConditionMap, body_equal,
  index_rollouts, plan_create, plan_orphan, walk_requests, destroy_orphans, compute_plan,
}
use nix_compose.Orchestrate.Plan.Requests.{plan_create_self}

abbrev is_create_action : ActionType → Bool
is_create_action type = type == action_create

-- Some action creates the resource with this key.
abbrev pub plans_create : String → String → List Action → Bool
plans_create id key [] = false
plans_create id key (a ∷ rest) =
    (is_create_action a.type && ((a.resource_id == id) && (a.key == key)))
    || plans_create id key rest

plans_create-append :
    (id key : String) (xs ys : List Action)
    → plans_create id key (xs ++ ys) ≡ (plans_create id key xs || plans_create id key ys)
plans_create-append id key [] ys = refl
plans_create-append id key (x ∷ xs) ys = ground (arith, plans_create-append id key xs ys)

destroy_keeps :
    (id key : String) (current : Dict Rollout) (ids : List String) (plan : Plan)
    → plans_create id key plan.actions ≡ true
    → plans_create id key (destroy_orphans current ids plan).actions ≡ true
unfolding destroy_orphans
destroy_keeps id key current [] plan h = h
destroy_keeps id key current (x ∷ ids) plan h =
    destroy_keeps id key current ids (plan_orphan x (lookup x current) plan)
      (orphan (lookup x current))
  where
    orphan :
        (found : Option Rollout) → plans_create id key (plan_orphan x found plan).actions ≡ true
    orphan none = h
    orphan (some r) = ground (
      arith,
      plans_create-append id key plan.actions (
          record {
            type = action_destroy;
            resource_id = x;
            key = r.instance_key;
            reason = "orphaned resource";
          }
          ∷ []),
    )

module _ (canonical : String → Option String) where
  plan_create_keeps :
      (id key j k body : String) (found : Option Rollout) (w : Walk)
      → plans_create id key w.plan.actions ≡ true
      → plans_create id key (plan_create canonical j k body found w).plan.actions ≡ true
  unfolding plan_create
  plan_create_keeps id key j k body none w h =
      plans_create-append id key w.plan.actions _ ∙ ground arith
  plan_create_keeps id key j k body (some r) w h =
      elim (Bool-cases (body_equal canonical body r.body)) [
        | inl t ↦ rw t (plans_create-append id key w.plan.actions _ ∙ ground arith)
        | inr f ↦ rw f (plans_create-append id key w.plan.actions _ ∙ ground arith)
      ]

  walk_keeps :
      (id key : String) (rs : List Request) (w : Walk)
      → plans_create id key w.plan.actions ≡ true
      → plans_create id key (walk_requests canonical rs w).plan.actions ≡ true
  unfolding walk_requests
  walk_keeps id key [] w h = h
  walk_keeps id key (create j k body ∷ rest) w h =
      walk_keeps id key rest _ (plan_create_keeps id key j k body (lookup j w.current) w h)
  walk_keeps id key (delete j k ∷ rest) w h = walk_keeps id key rest w h
  walk_keeps id key (status j k ∷ rest) w h = walk_keeps id key rest w h

  -- The second of two create requests for one id finds no rollout, whatever the first found.
  walk_twice :
      (id key key' body body' : String) (rest : List Request) (w : Walk)
      → plans_create id key'
          (walk_requests canonical
            (create id key body ∷ create id key' body' ∷ rest)
            w).plan.actions
        ≡ true
  unfolding walk_requests plan_create
  walk_twice id key key' body body' rest w =
      let mid = plan_create canonical id key body (lookup id w.current) w in
      let gone : lookup id mid.current ≡ none =
        (plan_create_self canonical id key body w (lookup id w.current) refl).at_current in
      walk_keeps id key' rest (plan_create canonical id key' body' (lookup id mid.current) mid) (
        rw gone (
          plans_create-append id key' mid.plan.actions _
          ∙ ground (arith, eq_refl id, eq_refl key')))

  pub compute_plan_twice :
      (new_id id key key' body body' : String) (desired : Deployment) (rest : List Request)
      (rollouts : List Rollout) (conditions : ConditionMap)
      → desired.requests ≡ create id key body ∷ create id key' body' ∷ rest
      → plans_create id key' (compute_plan canonical new_id desired rollouts conditions).actions
        ≡ true
  unfolding compute_plan
  compute_plan_twice new_id id key key' body body' desired rest rollouts conditions e =
      let start : Walk = record {
        current = index_rollouts rollouts [];
        plan = record { actions = []; deployment = new_deployment new_id; conditions = conditions };
      } in
      let w = walk_requests canonical desired.requests start in
      destroy_keeps id key' w.current (sort (keys w.current)) w.plan
        (rw e (walk_twice id key key' body body' rest start))
