-- ===== src/Orchestrate/Plan/Counts.antt =====
-- `Summary` of a plan.
use nix_compose.Prelude.{
  ℕ, suc, ◌+◌, String, List, [], ◌∷◌, ◌≡◌, refl, Option, none, some, Bool, true, ◌==◌, ◌||◌, inl,
  inr, Bool-cases, arith, length, if◌then◌else◌, All, All-append, ==-cases, subst, sym,
}
use nix_compose.Prelude.Dict.{Dict, lookup, keys}
use nix_compose.Prelude.Sort.{sort}
use nix_compose.Orchestrate.Types.{
  Request, create, delete, status, Deployment, Rollout, new_deployment,
}
use nix_compose.Orchestrate.Plan.{
  ActionType, action_create, action_update, action_destroy, action_noop, Action, ConditionMap, Plan,
  index_rollouts, Walk, walk_requests, plan_create, plan_orphan, destroy_orphans, body_equal,
  compute_plan, Summary, summary, summarize, count_action,
}

-- How many actions have the type.
abbrev pub of_type : ActionType → List Action → ℕ
of_type type [] = 0
of_type type (a ∷ rest) =
    let later = of_type type rest in if a.type == type then suc later else later

-- One of the four types.
abbrev IsKnownType : ActionType → Type 0
IsKnownType type =
    ((type == action_create)
      || ((type == action_update) || ((type == action_destroy) || (type == action_noop))))
    ≡ true

abbrev IsKnown : Action → Type 0
IsKnown a = IsKnownType a.type

abbrev one_if : Bool → ℕ
one_if b = if b then 1 else 0

count_action_lem :
    (type : ActionType) (s : Summary)
    → ((count_action type s).creates ≡ s.creates + one_if (type == action_create))
      × ((count_action type s).updates ≡ s.updates + one_if (type == action_update))
      × ((count_action type s).destroys ≡ s.destroys + one_if (type == action_destroy))
      × ((count_action type s).noops ≡ s.noops + one_if (type == action_noop))
unfolding count_action
count_action_lem type s = elim (==-cases type action_create) [
  | inl (t, e) ↦ rw e (omega arith, omega arith, omega arith, omega arith)
  | inr (f, _) ↦ elim (==-cases type action_update) [
    | inl (t, e) ↦ rw e (omega arith, omega arith, omega arith, omega arith)
    | inr (g, _) ↦ elim (==-cases type action_destroy) [
      | inl (t, e) ↦ rw e (omega arith, omega arith, omega arith, omega arith)
      | inr (h, _) ↦ elim (==-cases type action_noop) [
        | inl (t, e) ↦ rw e (omega arith, omega arith, omega arith, omega arith)
        | inr (k, _) ↦ rw (f, g, h, k) (omega arith, omega arith, omega arith, omega arith)
      ]
    ]
  ]
]

add_one :
    {total mid : ℕ} (start later : ℕ) (b : Bool)
    → mid ≡ start + one_if b
    → total ≡ mid + later
    → total ≡ start + (if b then suc later else later)
add_one start later b h k = ground (arith, h, k)

summarize_lem :
    (acts : List Action) (s : Summary)
    → ((summarize acts s).creates ≡ s.creates + of_type action_create acts)
      × ((summarize acts s).updates ≡ s.updates + of_type action_update acts)
      × ((summarize acts s).destroys ≡ s.destroys + of_type action_destroy acts)
      × ((summarize acts s).noops ≡ s.noops + of_type action_noop acts)
unfolding summarize
summarize_lem [] s = (omega arith, omega arith, omega arith, omega arith)
summarize_lem (a ∷ rest) s =
    let (c, u, d, n) = summarize_lem rest (count_action a.type s) in
    let (c', u', d', n') = count_action_lem a.type s in
    (
      add_one s.creates (of_type action_create rest) (a.type == action_create) c' c,
      add_one s.updates (of_type action_update rest) (a.type == action_update) u' u,
      add_one s.destroys (of_type action_destroy rest) (a.type == action_destroy) d' d,
      add_one s.noops (of_type action_noop rest) (a.type == action_noop) n' n,
    )

-- One type among the four raises one of the four counts.
known_step :
    (type : ActionType) (c u d n l : ℕ)
    → IsKnownType type
    → c + u + d + n ≡ l
    → (if type == action_create then suc c else c)
        + (if type == action_update then suc u else u)
        + (if type == action_destroy then suc d else d)
        + (if type == action_noop then suc n else n)
      ≡ suc l
known_step type c u d n l k h = elim (==-cases type action_create) [
  | inl (t, e) ↦ rw e (omega (arith, h))
  | inr (f, _) ↦ elim (==-cases type action_update) [
    | inl (t, e) ↦ rw e (omega (arith, h))
    | inr (g, _) ↦ elim (==-cases type action_destroy) [
      | inl (t, e) ↦ rw e (omega (arith, h))
      | inr (i, _) ↦ elim (==-cases type action_noop) [
        | inl (t, e) ↦ rw e (omega (arith, h))
        | inr (j, _) ↦ absurd (ground (arith, k, f, g, i, j))
      ]
    ]
  ]
]

known_total :
    (acts : List Action)
    → All IsKnown acts
    → of_type action_create acts
        + of_type action_update acts
        + of_type action_destroy acts
        + of_type action_noop acts
      ≡ length acts
known_total [] h = refl
known_total (a ∷ rest) h =
    known_step a.type (of_type action_create rest) (of_type action_update rest)
      (of_type action_destroy rest) (of_type action_noop rest) (length rest) h.0
      (known_total rest h.1)

plan_orphan-IsKnown :
    (id : String) (found : Option Rollout) (p : Plan)
    → All IsKnown p.actions
    → All IsKnown (plan_orphan id found p).actions
plan_orphan-IsKnown id none p h = h
plan_orphan-IsKnown id (some r) p h = All-append IsKnown p.actions _ h (refl, tt)

destroy_orphans-IsKnown :
    (current : Dict Rollout) (ids : List String) (p : Plan)
    → All IsKnown p.actions
    → All IsKnown (destroy_orphans current ids p).actions
unfolding destroy_orphans
destroy_orphans-IsKnown current [] p h = h
destroy_orphans-IsKnown current (id ∷ ids) p h =
    destroy_orphans-IsKnown current ids _ (plan_orphan-IsKnown id (lookup id current) p h)

module _ (canonical : String → Option String) where
  plan_create-IsKnown :
      (id key body : String) (found : Option Rollout) (w : Walk)
      → All IsKnown w.plan.actions
      → All IsKnown (plan_create canonical id key body found w).plan.actions
  unfolding plan_create
  plan_create-IsKnown id key body none w h = All-append IsKnown w.plan.actions _ h (refl, tt)
  plan_create-IsKnown id key body (some existing) w h =
      elim (Bool-cases (body_equal canonical body existing.body)) [
        | inl t ↦ rw t (All-append IsKnown w.plan.actions _ h (refl, tt))
        | inr f ↦ rw f (All-append IsKnown w.plan.actions _ h (refl, tt))
      ]

  walk_requests-IsKnown :
      (rs : List Request) (w : Walk)
      → All IsKnown w.plan.actions
      → All IsKnown (walk_requests canonical rs w).plan.actions
  unfolding walk_requests
  walk_requests-IsKnown [] w h = h
  walk_requests-IsKnown (create id key body ∷ rest) w h =
      walk_requests-IsKnown rest _ (plan_create-IsKnown id key body (lookup id w.current) w h)
  walk_requests-IsKnown (delete id key ∷ rest) w h = walk_requests-IsKnown rest w h
  walk_requests-IsKnown (status id key ∷ rest) w h = walk_requests-IsKnown rest w h

  compute_plan-IsKnown :
      (new_id : String) (desired : Deployment) (rollouts : List Rollout) (conditions : ConditionMap)
      → All IsKnown (compute_plan canonical new_id desired rollouts conditions).actions
  unfolding compute_plan
  compute_plan-IsKnown new_id desired rollouts conditions =
      let start : Walk = record {
        current = index_rollouts rollouts [];
        plan = record { actions = []; deployment = new_deployment new_id; conditions = conditions };
      } in
      let w = walk_requests canonical desired.requests start in
      destroy_orphans-IsKnown w.current (sort (keys w.current)) w.plan
        (walk_requests-IsKnown desired.requests start tt)

  -- `Summary` of a plan of `ComputePlan` gives for each of the four types the number of actions of
  -- this type, and leaves no action out: the four add up to the number of actions.
  pub summary-compute_plan :
      (new_id : String) (desired : Deployment) (rollouts : List Rollout) (conditions : ConditionMap)
      (plan : Plan)
      → plan ≡ compute_plan canonical new_id desired rollouts conditions
      → ((summary plan).creates ≡ of_type action_create plan.actions)
        × ((summary plan).updates ≡ of_type action_update plan.actions)
        × ((summary plan).destroys ≡ of_type action_destroy plan.actions)
        × ((summary plan).noops ≡ of_type action_noop plan.actions)
        × ((summary plan).creates
              + (summary plan).updates
              + (summary plan).destroys
              + (summary plan).noops
            ≡ length plan.actions)
  unfolding summary
  summary-compute_plan new_id desired rollouts conditions plan e =
      let none_yet : Summary = record { creates = 0; updates = 0; destroys = 0; noops = 0 } in
      let (c, u, d, n) = summarize_lem plan.actions none_yet in
      let known : All IsKnown plan.actions =
        subst (λ p. All IsKnown p.actions) (sym e)
          (compute_plan-IsKnown new_id desired rollouts conditions) in
      let total = known_total plan.actions known in
      (
        omega (arith, c),
        omega (arith, u),
        omega (arith, d),
        omega (arith, n),
        omega (arith, c, u, d, n, total),
      )
