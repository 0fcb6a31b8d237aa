-- ===== src/Orchestrate/Plan/Creates.antt =====
-- The create requests of a plan are some of those of the desired deployment.
use nix_compose.Prelude.{
  String, List, [], ◌∷◌, ◌++◌, ◌≡◌, refl, sym, ◌∙◌, ap, subst, Option, none, some, true, false, ◌⊎◌,
  inl, inr, Bool-cases, arith, contains, contains-append, append-IsUnique, IsUnique, eq_iff,
  eq_refl,
}
use mathlib.Core.List.{append-nil}
use nix_compose.Prelude.Dict.{Dict, lookup, keys}
use nix_compose.Prelude.Sort.{sort}
use nix_compose.Orchestrate.Types.{
  Request, create, delete, status, Deployment, Rollout, new_deployment,
}
use nix_compose.Orchestrate.Plan.{
  Plan, Walk, ConditionMap, body_equal, index_rollouts, plan_create, plan_orphan, walk_requests,
  destroy_orphans, compute_plan,
}
use nix_compose.Orchestrate.Plan.Spec.{create_ids}

create_ids-append : (xs ys : List Request) → create_ids (xs ++ ys) ≡ create_ids xs ++ create_ids ys
create_ids-append [] ys = refl
create_ids-append (create id key body ∷ rest) ys = ap (λ l. id ∷ l) (create_ids-append rest ys)
create_ids-append (delete id key ∷ rest) ys = create_ids-append rest ys
create_ids-append (status id key ∷ rest) ys = create_ids-append rest ys

abbrev created : Plan → List String
created plan = create_ids plan.deployment.requests

created-destroy_orphans :
    (current : Dict Rollout) (ids : List String) (plan : Plan)
    → created (destroy_orphans current ids plan) ≡ created plan
unfolding destroy_orphans
created-destroy_orphans current [] plan = refl
created-destroy_orphans current (id ∷ ids) plan =
    created-destroy_orphans current ids (plan_orphan id (lookup id current) plan)
    ∙ orphan (lookup id current)
  where
    orphan : (found : Option Rollout) → created (plan_orphan id found plan) ≡ created plan
    orphan none = refl
    orphan (some r) =
        create_ids-append plan.deployment.requests (delete id r.instance_key ∷ [])
        ∙ append-nil (created plan)

module _ (canonical : String → Option String) where
  -- The ids before, and at most `id`.
  created-plan_create :
      (id key body : String) (found : Option Rollout) (w : Walk)
      → (created (plan_create canonical id key body found w).plan ≡ created w.plan)
        ⊎ (created (plan_create canonical id key body found w).plan ≡ created w.plan ++ id ∷ [])
  unfolding plan_create
  created-plan_create id key body none w =
      inr (create_ids-append w.plan.deployment.requests (create id key body ∷ []))
  created-plan_create id key body (some r) w =
      elim (Bool-cases (body_equal canonical body r.body)) [
        | inl t ↦ inl (rw t refl)
        | inr f ↦ inr (
            rw f (
              create_ids-append (w.plan.deployment.requests ++ delete id key ∷ [])
                (create id key body ∷ [])
              ∙ ap (λ l. l ++ id ∷ [])
                  (create_ids-append w.plan.deployment.requests (delete id key ∷ [])
                    ∙ append-nil (created w.plan))))
      ]

  walk-created-IsUnique :
      (rs : List Request) (w : Walk)
      → IsUnique (create_ids rs)
      → IsUnique (created w.plan)
      → ((n : String) → contains (create_ids rs) n ≡ true → contains (created w.plan) n ≡ false)
      → IsUnique (created (walk_requests canonical rs w).plan)
  unfolding walk_requests
  walk-created-IsUnique [] w u v fresh = v
  walk-created-IsUnique (delete id key ∷ rest) w u v fresh = walk-created-IsUnique rest w u v fresh
  walk-created-IsUnique (status id key ∷ rest) w u v fresh = walk-created-IsUnique rest w u v fresh
  walk-created-IsUnique (create id key body ∷ rest) w u v fresh =
      let mid = plan_create canonical id key body (lookup id w.current) w in
      let new = fresh id (ground (arith, eq_refl id)) in
      elim (created-plan_create id key body (lookup id w.current) w) [
        | inl same ↦
            walk-created-IsUnique rest mid u.1 (subst IsUnique (sym same) v)
              (λ n h. rw same (fresh n (ground arith)))
        | inr more ↦
            walk-created-IsUnique rest mid u.1
              (subst IsUnique (sym more) (append-IsUnique (created w.plan) id v new))
              (λ n h. rw more (
                ground
                  (arith, contains-append (created w.plan) (id ∷ []) n, fresh n, eq_iff id n, u.0)))
      ]

  -- A desired deployment that creates no id twice gives a plan that creates no id twice.
  pub compute_plan-IsUnique :
      (new_id : String) (desired : Deployment) (rollouts : List Rollout) (conditions : ConditionMap)
      → IsUnique (create_ids desired.requests)
      → IsUnique (
          create_ids
            (compute_plan canonical new_id desired rollouts conditions).deployment.requests)
  unfolding compute_plan
  compute_plan-IsUnique new_id desired rollouts conditions u =
      let start : Walk = record {
        current = index_rollouts rollouts [];
        plan = record { actions = []; deployment = new_deployment new_id; conditions = conditions };
      } in
      let w = walk_requests canonical desired.requests start in
      subst IsUnique (sym (created-destroy_orphans w.current (sort (keys w.current)) w.plan))
        (walk-created-IsUnique desired.requests start u tt (λ n h. refl))
