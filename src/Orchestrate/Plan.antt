-- ===== src/Orchestrate/Plan.antt =====
-- pkg/orchestrate/plan.go. Decoding a body and encoding it again is the parameter `canonical`,
-- `none` where either step fails; the id of the plan's deployment is drawn outside.
-- Rollouts and requests with an empty id, on which `NewReference` ends the program, are outside the
-- model.
pub mod Spec
mod Requests
pub mod Table
pub mod Counts
pub mod Creates
pub mod Settles
mod Examples
use nix_compose.Prelude.{
  String, List, [], ◌∷◌, ◌++◌, Option, none, some, Bool, true, false, ◌==◌, ◌&&◌, ◌||◌, ℕ, ◌+◌,
  if◌then◌else◌,
}
use nix_compose.Prelude.Dict.{Dict, lookup, insert, delete as delete_key, keys}
use nix_compose.Prelude.Sort.{sort}
use nix_compose.Orchestrate.Types.{
  Request, create, delete, status, Deployment, new_deployment, add_deletion, Rollout, Reference,
}

-- A text in the code, with these constants.
abbrev pub ActionType : Type 0
ActionType = String

abbrev pub action_create : ActionType
action_create = "create"

abbrev pub action_update : ActionType
action_update = "update"

abbrev pub action_destroy : ActionType
action_destroy = "destroy"

abbrev pub action_noop : ActionType
action_noop = "noop"

pub record Action : Type 0 where
  pub type : ActionType
  pub resource_id : String
  pub key : String
  pub reason : String

-- resource → dependent → the condition that the dependent waits for
abbrev pub ConditionMap : Type 0
ConditionMap = Dict (Dict String)

pub record Plan : Type 0 where
  pub actions : List Action
  pub deployment : Deployment
  pub conditions : ConditionMap

pub index_rollouts : List Rollout → Dict Rollout → Dict Rollout
index_rollouts [] current = current
index_rollouts (r ∷ rs) current = index_rollouts rs (insert r.instance_id r current)

abbrev pub add_action : Plan → ActionType → String → String → String → Plan
add_action plan type id key reason = record plan {
  actions =
      plan.actions ++ record { type = type; resource_id = id; key = key; reason = reason } ∷ [];
}

abbrev pub add_request : Plan → Request → Plan
add_request plan r = record plan {
  deployment = record plan.deployment { requests = plan.deployment.requests ++ r ∷ [] };
}

abbrev pub add_delete : Plan → String → String → Plan
add_delete plan id key = record plan {
  deployment = add_deletion plan.deployment (record { id = id; key = key });
}

-- What the loop carries: the rollouts that no request named yet, and the plan.
pub record Walk : Type 0 where
  pub current : Dict Rollout
  pub plan : Plan

abbrev pub plan_orphan : String → Option Rollout → Plan → Plan
plan_orphan id none plan = plan
plan_orphan id (some r) plan =
    add_delete (add_action plan action_destroy id r.instance_key "orphaned resource") id
      r.instance_key

pub destroy_orphans : Dict Rollout → List String → Plan → Plan
destroy_orphans current [] plan = plan
destroy_orphans current (id ∷ ids) plan =
    destroy_orphans current ids (plan_orphan id (lookup id current) plan)

module _ (canonical : String → Option String) where
  pub equal_canonical : Option String → Option String → Bool
  equal_canonical none _ = false
  equal_canonical (some a) none = false
  equal_canonical (some a) (some b) = a == b

  pub body_equal : String → String → Bool
  unfolding equal_canonical
  body_equal a b =
      if (a == "") && (b == "")
      then true
      else if (a == "") || (b == "")
      then false
      else equal_canonical (canonical a) (canonical b)

  -- One create request.
  pub plan_create : String → String → String → Option Rollout → Walk → Walk
  plan_create id key body none w = record w {
    plan = add_request (add_action w.plan action_create id key "new resource") (create id key body);
  }
  plan_create id key body (some existing) w =
      if body_equal body existing.body
      then record {
        current = delete_key id w.current;
        plan = add_action w.plan action_noop id key "unchanged";
      }
      else record {
        current = delete_key id w.current;
        plan =
            add_request
              (add_delete (add_action w.plan action_update id key "configuration changed") id key)
              (create id key body);
      }

  pub walk_requests : List Request → Walk → Walk
  unfolding plan_create body_equal
  walk_requests [] w = w
  walk_requests (create id key body ∷ rest) w =
      walk_requests rest (plan_create id key body (lookup id w.current) w)
  walk_requests (delete id key ∷ rest) w = walk_requests rest w
  walk_requests (status id key ∷ rest) w = walk_requests rest w

  unfoldable pub compute_plan : String → Deployment → List Rollout → ConditionMap → Plan
  unfolding index_rollouts walk_requests destroy_orphans
  compute_plan new_id desired rollouts conditions =
      let start : Walk = record {
        current = index_rollouts rollouts [];
        plan = record { actions = []; deployment = new_deployment new_id; conditions = conditions };
      } in
      let w = walk_requests desired.requests start in
      let p = destroy_orphans w.current (sort (keys w.current)) w.plan in
      record p {
        deployment = record p.deployment {
          dependencies = desired.dependencies;
          references = desired.references;
        };
      }

pub record Summary : Type 0 where
  pub creates : ℕ
  pub updates : ℕ
  pub destroys : ℕ
  pub noops : ℕ

-- The switch; any other type is not counted.
pub count_action : ActionType → Summary → Summary
count_action type s =
    if type == action_create
    then record s { creates = s.creates + 1 }
    else if type == action_update
    then record s { updates = s.updates + 1 }
    else if type == action_destroy
    then record s { destroys = s.destroys + 1 }
    else if type == action_noop
    then record s { noops = s.noops + 1 }
    else s

pub summarize : List Action → Summary → Summary
unfolding count_action
summarize [] s = s
summarize (a ∷ rest) s = summarize rest (count_action a.type s)

pub summary : Plan → Summary
unfolding summarize
summary plan = summarize plan.actions (record { creates = 0; updates = 0; destroys = 0; noops = 0 })
