-- ===== src/Orchestrate/Conditions/Choice.antt =====
-- `waitCondition` waits for the strictest condition, in whatever order the dependents come.
use nix_compose.Prelude.{
  String, List, [], ◌∷◌, ◌≡◌, refl, sym, some, Bool-cases, inl, inr, ◌≤◌, true, false, ◌==◌,
  if◌then◌else◌, arith, contains, eq_refl, ==-cases, ltb,
}
use nix_compose.Prelude.Dict.{Dict, lookup}
use nix_compose.Orchestrate.Plan.{ConditionMap}
use nix_compose.Orchestrate.Conditions.{
  wait_healthy, wait_completed, wait_started, cond_priority, strictest_from, wait_for,
  wait_condition,
}

-- The conditions of the dependents.
abbrev pub conditions_of : Dict String → List String
conditions_of [] = []
conditions_of ((id, cond) ∷ rest) = cond ∷ conditions_of rest

below :
    (a b : String)
    → ltb (cond_priority a) (cond_priority b) ≡ true
    → cond_priority a ≤ cond_priority b
below a b h = ground (arith, h)

not_below :
    (a b : String)
    → ltb (cond_priority a) (cond_priority b) ≡ false
    → cond_priority b ≤ cond_priority a
not_below a b h = ground (arith, h)

at_most :
    (a b c : String)
    → cond_priority a ≤ cond_priority b
    → cond_priority b ≤ cond_priority c
    → cond_priority a ≤ cond_priority c
at_most a b c h k = omega (arith, h, k)

among_later :
    (a b : String) (cs : List String) (x : String)
    → contains (b ∷ cs) x ≡ true
    → contains (a ∷ b ∷ cs) x ≡ true
among_later a b cs x h = ground (arith, h)

among_others :
    (a b : String) (cs : List String) (x : String)
    → contains (a ∷ cs) x ≡ true
    → contains (a ∷ b ∷ cs) x ≡ true
among_others a b cs x h = ground (arith, h)

strictest_from-le :
    (strictest : String) (deps : Dict String)
    → cond_priority strictest ≤ cond_priority (strictest_from strictest deps)
unfolding strictest_from
strictest_from-le strictest [] = omega arith
strictest_from-le strictest ((id, cond) ∷ rest) =
    elim (Bool-cases (ltb (cond_priority strictest) (cond_priority cond))) [
      | inl t ↦ rw t (
          at_most strictest cond (strictest_from cond rest) (below strictest cond t)
            (strictest_from-le cond rest))
      | inr f ↦ rw f (strictest_from-le strictest rest)
    ]

strictest_from-bound :
    (strictest : String) (deps : Dict String) (c : String)
    → contains (conditions_of deps) c ≡ true
    → cond_priority c ≤ cond_priority (strictest_from strictest deps)
unfolding strictest_from
strictest_from-bound strictest [] c h = absurd (ground arith)
strictest_from-bound strictest ((id, cond) ∷ rest) c h =
    elim (Bool-cases (ltb (cond_priority strictest) (cond_priority cond))) [
      | inl t ↦ rw t (elim (==-cases cond c) [
        | inl (k, e) ↦ rw (sym e) (strictest_from-le cond rest)
        | inr (k, e) ↦ strictest_from-bound cond rest c (rw k at h)
      ])
      | inr f ↦ rw f (elim (==-cases cond c) [
        | inl (k, e) ↦ rw (sym e) (
            at_most cond strictest (strictest_from strictest rest) (not_below strictest cond f)
              (strictest_from-le strictest rest))
        | inr (k, e) ↦ strictest_from-bound strictest rest c (rw k at h)
      ])
    ]

-- It is the least bound: one of the conditions, or none.
strictest_from-contains :
    (strictest : String) (deps : Dict String)
    → contains (strictest ∷ conditions_of deps) (strictest_from strictest deps) ≡ true
unfolding strictest_from
strictest_from-contains strictest [] = ground (arith, eq_refl strictest)
strictest_from-contains strictest ((id, cond) ∷ rest) =
    elim (Bool-cases (ltb (cond_priority strictest) (cond_priority cond))) [
      | inl t ↦ rw t (
          among_later strictest cond (conditions_of rest) (strictest_from cond rest)
            (strictest_from-contains cond rest))
      | inr f ↦ rw f (
          among_others strictest cond (conditions_of rest) (strictest_from strictest rest)
            (strictest_from-contains strictest rest))
    ]

is_healthy : (x : String) → cond_priority "healthy" ≤ cond_priority x → (x == "healthy") ≡ true
unfolding cond_priority
is_healthy x h = elim (Bool-cases (x == "healthy")) [
  | inl t ↦ t
  | inr f ↦ absurd (ground (arith, h, f))
]

is_completed :
    (x : String)
    → cond_priority "completed" ≤ cond_priority x
    → (x == "healthy") ≡ false
    → (x == "completed") ≡ true
unfolding cond_priority
is_completed x h n = elim (Bool-cases (x == "completed")) [
  | inl t ↦ t
  | inr f ↦ absurd (ground (arith, h, n, f))
]

is_other :
    (x name : String) (cs : List String)
    → contains ("" ∷ cs) x ≡ true
    → ("" == name) ≡ false
    → contains cs name ≡ false
    → (x == name) ≡ false
is_other x name cs member other free = elim (==-cases x name) [
  | inl (k, e) ↦ absurd (ground (arith, rw e at member, other, free))
  | inr (k, e) ↦ k
]

choice :
    (x : String) (cs : List String)
    → ((c : String) → contains cs c ≡ true → cond_priority c ≤ cond_priority x)
    → contains ("" ∷ cs) x ≡ true
    → wait_for x ≡ (
        if contains cs "healthy"
        then wait_healthy
        else if contains cs "completed"
        then wait_completed
        else wait_started)
choice x cs bound member = elim (Bool-cases (contains cs "healthy")) [
  | inl t ↦ rw (t, is_healthy x (bound "healthy" t)) refl
  | inr f ↦
      let n = is_other x "healthy" cs member refl f in
      elim (Bool-cases (contains cs "completed")) [
        | inl t ↦ rw (f, n, t, is_completed x (bound "completed" t) n) refl
        | inr g ↦ rw (f, n, g, is_other x "completed" cs member refl g) refl
      ]
]

-- The wait for a resource with dependents: for its health where a dependent asks for that, else for
-- its completion where one asks for that, and else for its start.
pub wait_condition_lem :
    (resource_id : String) (conditions : ConditionMap) (deps : Dict String)
    → lookup resource_id conditions ≡ some deps
    → wait_condition resource_id conditions ≡ (
        if contains (conditions_of deps) "healthy"
        then wait_healthy
        else if contains (conditions_of deps) "completed"
        then wait_completed
        else wait_started)
unfolding wait_condition
wait_condition_lem resource_id conditions deps found = rw found (
    choice (strictest_from "" deps) (conditions_of deps) (strictest_from-bound "" deps)
      (strictest_from-contains "" deps))
