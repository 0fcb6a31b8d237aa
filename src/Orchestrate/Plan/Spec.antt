-- ===== src/Orchestrate/Plan/Spec.antt =====
-- The plan, read resource by resource: one table says which action and which requests a resource
-- gets, from what is wanted of it and from its rollout.
use nix_compose.Prelude.{
  String, List, [], ◌∷◌, ◌++◌, ◌≡◌, refl, ◌∙◌, Option, none, some, ◌==◌, IsUnique, arith, true, inl,
  inr, Bool-cases, eq_refl, if◌then◌else◌,
}
use nix_compose.Prelude.Dict.{Dict, lookup, keys, lookup-insert, insert-IsUnique}
use nix_compose.Orchestrate.Types.{Request, create, delete, status, subject_id, Rollout}
use nix_compose.Orchestrate.Plan.{
  ActionType, action_create, action_update, action_destroy, action_noop, Action, index_rollouts,
  body_equal, equal_canonical,
}

-- The kinds of the actions on one resource, in the plan's order.
abbrev pub actions_for : String → List Action → List ActionType
actions_for id [] = []
actions_for id (a ∷ rest) =
    if a.resource_id == id then a.type ∷ actions_for id rest else actions_for id rest

-- The requests on one resource, in order.
abbrev pub requests_for : String → List Request → List Request
requests_for id [] = []
requests_for id (r ∷ rest) =
    if subject_id r == id then r ∷ requests_for id rest else requests_for id rest

pub actions_for-append :
    (id : String) (xs ys : List Action)
    → actions_for id (xs ++ ys) ≡ actions_for id xs ++ actions_for id ys
actions_for-append id [] ys = refl
actions_for-append id (x ∷ xs) ys = ground (arith, actions_for-append id xs ys)

pub requests_for-append :
    (id : String) (xs ys : List Request)
    → requests_for id (xs ++ ys) ≡ requests_for id xs ++ requests_for id ys
requests_for-append id [] ys = refl
requests_for-append id (x ∷ xs) ys = ground (arith, requests_for-append id xs ys)

-- The key and the body of the first create request for `id`.
abbrev pub wanted : String → List Request → Option (String × String)
wanted id [] = none
wanted id (create j key body ∷ rest) = if j == id then some (key, body) else wanted id rest
wanted id (delete j key ∷ rest) = wanted id rest
wanted id (status j key ∷ rest) = wanted id rest

-- The ids of the create requests.
abbrev pub create_ids : List Request → List String
create_ids [] = []
create_ids (create j key body ∷ rest) = j ∷ create_ids rest
create_ids (delete j key ∷ rest) = create_ids rest
create_ids (status j key ∷ rest) = create_ids rest

-- The last rollout with the id.
abbrev pub latest : String → List Rollout → Option Rollout
latest id [] = none
latest id (r ∷ rs) = elim (latest id rs) [
  | some later ↦ some later
  | none ↦ if r.instance_id == id then some r else none
]

abbrev pub or_else : Option Rollout → Option Rollout → Option Rollout
or_else (some a) b = some a
or_else none b = b

pub lookup-index_rollouts :
    (id : String) (rs : List Rollout) (current : Dict Rollout)
    → lookup id (index_rollouts rs current) ≡ or_else (latest id rs) (lookup id current)
unfolding index_rollouts
lookup-index_rollouts id [] current = refl
lookup-index_rollouts id (r ∷ rs) current =
    lookup-index_rollouts id rs _ ∙ ground (arith, lookup-insert r.instance_id id r current)

pub index_rollouts-IsUnique :
    (rs : List Rollout) (current : Dict Rollout)
    → IsUnique (keys current)
    → IsUnique (keys (index_rollouts rs current))
unfolding index_rollouts
index_rollouts-IsUnique [] current u = u
index_rollouts-IsUnique (r ∷ rs) current u =
    index_rollouts-IsUnique rs _ (insert-IsUnique r.instance_id r current u)

pub body_equal_refl :
    (canonical : String → Option String) (body value : String)
    → canonical body ≡ some value
    → body_equal canonical body body ≡ true
unfolding body_equal equal_canonical
body_equal_refl canonical body value h = elim (Bool-cases (body == "")) [
  | inl t ↦ rw t refl
  | inr f ↦ rw f (rw h (eq_refl value))
]

module _ (canonical : String → Option String) where
  -- What the plan does about a resource that is wanted so, with this rollout.
  abbrev pub action_table : Option (String × String) → Option Rollout → List ActionType
  action_table none none = []
  action_table none (some r) = action_destroy ∷ []
  action_table (some (key, body)) none = action_create ∷ []
  action_table (some (key, body)) (some r) =
      if body_equal canonical body r.body then action_noop ∷ [] else action_update ∷ []

  abbrev pub request_table : String → Option (String × String) → Option Rollout → List Request
  request_table id none none = []
  request_table id none (some r) = delete id r.instance_key ∷ []
  request_table id (some (key, body)) none = create id key body ∷ []
  request_table id (some (key, body)) (some r) =
      if body_equal canonical body r.body then [] else delete id key ∷ create id key body ∷ []

  -- The part of the table that the loop over the requests fills.
  abbrev pub walk_actions : Option (String × String) → Option Rollout → List ActionType
  walk_actions none _ = []
  walk_actions (some w) r = action_table (some w) r

  abbrev pub walk_table : String → Option (String × String) → Option Rollout → List Request
  walk_table id none _ = []
  walk_table id (some w) r = request_table id (some w) r

  abbrev pub remaining : Option (String × String) → Option Rollout → Option Rollout
  remaining none r = r
  remaining (some w) r = none
