-- ===== src/Orchestrate/Sync.antt =====
-- pkg/orchestrate/apply.go: `ApplySync`, and engine.go: `State`, `Plan` and `Rollback`, which put the
-- plan, the checks, the links, the order and the execution together. What they ask of the outside is
-- the parameter `Setting`: that of the execution, what a reference check reads, the keys of the
-- buckets (`none` where listing fails), and whether a deployment can be saved.
pub mod Calls
pub mod Once
pub mod Unlinked
pub mod Rollback
mod Examples
use nix_compose.Prelude.{
  String, List, [], ◌∷◌, ◌++◌, Option, none, some, Bool, true, false, if◌then◌else◌,
}
use nix_compose.Prelude.Dict.{Dict, insert, lookup, keys}
use nix_compose.Orchestrate.Types.{
  Reference, Link, Request, create, delete, status, Deployment, new_deployment, Rollout,
}
use nix_compose.Orchestrate.Plan.{Plan, ConditionMap, compute_plan}
use nix_compose.Orchestrate.Links.{Bolt, Links}
use nix_compose.Orchestrate.Deployment.{Deployed, CheckError, check_references, persist_links}
use nix_compose.Orchestrate.Topo.{topo_sort_requests}
use nix_compose.Orchestrate.Apply.{
  CreateRequest, Call, World, ApplyError, State, split_requests, load_links, execute_deletes,
  execute_creates,
}

pub data SyncError : Type 0 where
  references_missing : (errs : List CheckError) → SyncError
  links_not_persisted : SyncError
  stopped : (err : ApplyError) → SyncError
  no_fuel : SyncError

pub data RollbackResult : Type 0 where
  planned : (plan : Plan) → RollbackResult
  deployment_not_loaded : RollbackResult
  state_not_loaded : RollbackResult
  not_applied : (err : SyncError) → RollbackResult

module _ (bolt : Bolt) where
  pub record Setting : Type 0 where
    pub world : World
    pub deployed : State bolt → Deployed
    pub link_keys : Links bolt → Option (List String)
    pub rollout_keys : Dict Rollout → Option (List String)
    pub stores : List Call → Deployment → Bool

  -- The database: what the execution changes, and the saved deployments.
  pub record Store : Type 0 where
    pub state : State bolt
    pub deployments : Dict Deployment

  abbrev unless_failed : Plan → Store × Option SyncError → Store × RollbackResult
  unless_failed plan (after, none) = (after, planned plan)
  unless_failed plan (after, some e) = (after, not_applied e)

  abbrev links_of : Option (List String) → Links bolt → List Link
  links_of none db = []
  links_of (some names) db = load_links bolt names db

-- `LoadRollout` of a key; one that cannot be read, or is not there, is skipped.
abbrev add_rollout : Option (Option Rollout) → List Rollout → List Rollout
add_rollout none later = later
add_rollout (some none) later = later
add_rollout (some (some r)) later = r ∷ later

pub load_rollouts : Deployed → List String → List Rollout
load_rollouts db [] = []
load_rollouts db (key ∷ rest) = add_rollout (db.load key) (load_rollouts db rest)

abbrev load_listed : Deployed → Option (List String) → Option (List Rollout)
load_listed db none = none
load_listed db (some names) = some (load_rollouts db names)

abbrev is_create : Request → Bool
is_create (create id key body) = true
is_create (delete id key) = false
is_create (status id key) = false

pub only_creates : List Request → List Request
only_creates [] = []
only_creates (r ∷ rest) = let later = only_creates rest in if is_create r then r ∷ later else later

pub rollback_target : String → Deployment → Deployment
unfolding only_creates
rollback_target new_id d = record (new_deployment new_id) {
  requests = only_creates d.requests;
  dependencies = d.dependencies;
  references = d.references;
}

module _ (bolt : Bolt) (setting : Setting bolt) where
  open setting use {world, deployed, link_keys, rollout_keys, stores}

  -- A failure to save the deployment is logged, and passed over.
  pub save_deployment : Deployment → Store bolt → Store bolt
  save_deployment d s =
      if stores s.state.calls d then record s { deployments = insert d.id d s.deployments } else s

  -- What follows the creates.
  pub conclude :
      Deployment → Store bolt → State bolt × Option ApplyError → Store bolt × Option SyncError
  unfolding save_deployment
  conclude d s (after, none) = (save_deployment d (record s { state = after }), none)
  conclude d s (after, some e) = (record s { state = after }, some (stopped e))

  pub run_creates :
      Plan
      → Store bolt
      → Option (List CreateRequest)
      → State bolt × Option ApplyError
      → Store bolt × Option SyncError
  unfolding conclude
  run_creates plan s creates (after, some e) = (record s { state = after }, some (stopped e))
  run_creates plan s none (after, none) = (record s { state = after }, some no_fuel)
  run_creates plan s (some creates) (after, none) =
      conclude plan.deployment s (execute_creates bolt world plan.conditions creates [] after)

  pub run_requests :
      Plan
      → Store bolt
      → Option (List Reference)
      → Option (List CreateRequest)
      → Store bolt × Option SyncError
  unfolding run_creates
  run_requests plan s none creates = (s, some no_fuel)
  run_requests plan s (some deletes) creates =
      run_creates plan s creates (execute_deletes bolt world deletes s.state)

  -- Behind the links: the order of the requests, and their execution.
  pub apply_linked : Plan → Store bolt → Links bolt × Bool → Store bolt × Option SyncError
  unfolding run_requests
  apply_linked plan s (db, false) =
      (record s { state = record s.state { links = db } }, some links_not_persisted)
  apply_linked plan s (db, true) =
      let split = split_requests plan.deployment.requests in
      let links = links_of bolt (link_keys db) db in
      run_requests plan (record s { state = record s.state { links = db } })
        (topo_sort_requests Reference.id split.deletes links true)
        (topo_sort_requests CreateRequest.id split.creates links false)

  pub apply_checked : Plan → Store bolt → List CheckError → Store bolt × Option SyncError
  unfolding apply_linked
  apply_checked plan s (e ∷ errs) = (s, some (references_missing (e ∷ errs)))
  apply_checked plan s [] = apply_linked plan s (persist_links bolt plan.deployment s.state.links)

  -- `ApplySync`.
  pub apply_sync : Plan → Store bolt → Store bolt × Option SyncError
  unfolding apply_checked
  apply_sync plan s = apply_checked plan s (check_references (deployed s.state) plan.deployment)

  -- `State`.
  pub engine_state : Store bolt → Option (List Rollout)
  unfolding load_rollouts
  engine_state s = load_listed (deployed s.state) (rollout_keys s.state.rollouts)

  module _ (canonical : String → Option String) where
    abbrev plan_on : String → Deployment → ConditionMap → Option (List Rollout) → Option Plan
    plan_on new_id desired conditions none = none
    plan_on new_id desired conditions (some rollouts) =
        some (compute_plan canonical new_id desired rollouts conditions)

    -- `Plan`; `none` where the state cannot be loaded.
    pub engine_plan : String → Deployment → ConditionMap → Store bolt → Option Plan
    unfolding engine_state
    engine_plan new_id desired conditions s = plan_on new_id desired conditions (engine_state s)

    pub rollback_planned : Bool → Store bolt → Option Plan → Store bolt × RollbackResult
    unfolding apply_sync
    rollback_planned dry_run s none = (s, state_not_loaded)
    rollback_planned true s (some plan) = (s, planned plan)
    rollback_planned false s (some plan) = unless_failed bolt plan (apply_sync plan s)

    pub rollback_found :
        String → String → Bool → Store bolt → Option Deployment → Store bolt × RollbackResult
    unfolding rollback_planned engine_plan rollback_target
    rollback_found target_id plan_id dry_run s none = (s, deployment_not_loaded)
    rollback_found target_id plan_id dry_run s (some d) =
        rollback_planned dry_run s (engine_plan plan_id (rollback_target target_id d) [] s)

    -- `Rollback`; the ids of the two deployments that it makes are drawn outside.
    pub engine_rollback : String → String → String → Bool → Store bolt → Store bolt × RollbackResult
    unfolding rollback_found
    engine_rollback target_id plan_id id dry_run s =
        rollback_found target_id plan_id dry_run s (lookup id s.deployments)
