-- ===== src/Orchestrate/Sync/Examples.antt =====
-- Runs of `ApplySync` and `Rollback` on a database in memory, and the theorems at them.
use nix_compose.Prelude.{
  String, List, [], ◌∷◌, ◌++◌, ◌≡◌, refl, none, some, true, false, not, ◌&&◌, ◌||◌,
}
use nix_compose.Prelude.Dict.{keys, lookup, insert, delete as delete_key}
use nix_compose.Prelude.Sort.{sort}
use nix_compose.Orchestrate.Types.{Link, create, delete, Deployment, new_deployment, Rollout}
use nix_compose.Orchestrate.Plan.{Plan, action_destroy, body_equal, compute_plan}
use nix_compose.Orchestrate.Plan.Spec.{actions_for, requests_for}
use nix_compose.Orchestrate.Links.{add_link, get_dependencies}
use nix_compose.Orchestrate.Links.Memory.{memory, memory-remove_link}
use nix_compose.Orchestrate.Links.Holds.{depends}
use nix_compose.Orchestrate.Deployment.{Deployed, check_references, persist_links, links_to}
use nix_compose.Orchestrate.Deployment.Persist.{links_pair}
use nix_compose.Orchestrate.Topo.{topo_sort_requests}
use nix_compose.Orchestrate.Apply.{
  applied, removed, World, State, execute_deletes, execute_creates, load_links, split_requests,
  rollout_of,
}
use nix_compose.Orchestrate.Sync.{
  Setting, Store, apply_sync, planned, unless_failed, engine_rollback, engine_state,
}
use nix_compose.Orchestrate.Sync.Once.{ExecutedOnce, apply_sync_once}
use nix_compose.Orchestrate.Sync.Unlinked.{is_deleted, apply_sync_links}
use nix_compose.Orchestrate.Sync.Rollback.{rollback_destroys}

program : Unit {0}
unfolding apply_sync engine_rollback compute_plan check_references persist_links topo_sort_requests
    execute_deletes execute_creates load_links split_requests add_link links_to get_dependencies
    lookup insert delete_key sort
program = tt

abbrev world : World
world = record {
  cancelled = λ calls. false;
  loads = λ r. true;
  applies = λ calls r. true;
  removes = λ calls r. true;
  saves = λ calls. true;
  condition_met = λ calls id. true;
}

abbrev deployed : State memory → Deployed
deployed s = record { load = λ id. some (lookup id s.rollouts); providers = [] }

abbrev setting : Setting memory
setting = record {
  world = world;
  deployed = deployed;
  link_keys = λ db. some (keys db.by_source);
  rollout_keys = λ rollouts. some (keys rollouts);
  stores = λ calls d. true;
}

abbrev rollout : String → String → Rollout
rollout id body = record {
  instance_id = id;
  instance_key = "k";
  body = body;
  messages = [];
  errors = [];
  status = none;
}

abbrev web_to_net : Link
web_to_net = record {
  source = record { id = "web"; key = "k" };
  target = record { id = "net"; key = "k" };
}

-- `net` is deployed, and `web` with another body.
abbrev start : Store memory
start = record {
  state = record {
    calls = [];
    rollouts = ("net", rollout "net" "n") ∷ ("web", rollout "web" "old") ∷ [];
    links = record { by_source = []; by_target = [] };
  };
  deployments = [];
}

abbrev desired : Deployment
desired = record (new_deployment "d") {
  requests = create "net" "k" "n" ∷ create "web" "k" "new" ∷ [];
  dependencies = web_to_net ∷ [];
}

abbrev plan : Plan
plan = compute_plan some "p" desired (rollout "net" "n" ∷ rollout "web" "old" ∷ []) []

after : Store memory
unfolding program
after = (apply_sync memory setting plan start).0

apply_sync_done : apply_sync memory setting plan start ≡ (after, none)
unfolding program after
apply_sync_done = refl

after_calls : after.state.calls ≡ removed "web" ∷ applied "web" ∷ []
unfolding program after
after_calls = refl

apply_sync_once_example : ExecutedOnce memory setting plan start after
unfolding program
apply_sync_once_example =
    apply_sync_once memory setting plan start after apply_sync_done (refl, tt) (refl, tt)

-- The link from `web` to `net` is lost with the update of `web`.
apply_sync_links_example : depends memory after.state.links "web" "net" ≡ (
    (depends memory start.state.links "web" "net"
      || links_pair (plan.deployment.dependencies ++ plan.deployment.depending) "web" "net")
    && not (is_deleted plan "web"))
apply_sync_links_example =
    apply_sync_links memory setting (λ calls r. refl) memory-remove_link plan start after "web"
      "net" apply_sync_done

web_is_deleted : is_deleted plan "web" ≡ true
unfolding program
web_is_deleted = refl

abbrev present : List Rollout
present = rollout "net" "n" ∷ rollout_of (record { id = "web"; key = "k"; body = "new" }) true ∷ []

saved : lookup "p" after.deployments ≡ some plan.deployment
unfolding program after
saved = refl

present_state : engine_state memory setting after ≡ some present
unfolding program after
present_state = refl

unchanged : body_equal some "n" "n" ≡ true
unfolding program
unchanged = refl

-- Going back to the deployment just applied plans to destroy `net`.
rollback_destroys_example :
    (back : Plan) × (engine_rollback memory setting some "t" "q" "p" true after
      ≡ (after, planned back))
    × (engine_rollback memory setting some "t" "q" "p" false after
        ≡ unless_failed memory back (apply_sync memory setting back after))
    × (actions_for "net" back.actions ≡ action_destroy ∷ [])
    × (requests_for "net" back.deployment.requests ≡ delete "net" "k" ∷ [])
rollback_destroys_example =
    rollback_destroys memory setting some "t" "q" "p" "net" "p" "k" "n" after desired
      (rollout "net" "n" ∷ rollout "web" "old" ∷ []) present [] (rollout "net" "n")
      (rollout "net" "n") (refl, (refl, tt)) refl refl unchanged saved present_state refl
