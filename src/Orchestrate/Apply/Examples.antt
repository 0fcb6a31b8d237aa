-- ===== src/Orchestrate/Apply/Examples.antt =====
-- Runs of `executeCreates` and the theorems at them, with a provider that cannot apply "c".
use nix_compose.Prelude.{
  contains, ◌&&◌, String, List, [], ◌∷◌, ◌≡◌, refl, some, true, false, ◌==◌, not,
}
use nix_compose.Prelude.Dict.{lookup, insert, delete as delete_key}
use nix_compose.Orchestrate.Types.{create, Deployment, new_deployment, Rollout}
use nix_compose.Orchestrate.Plan.{action_noop, compute_plan}
use nix_compose.Orchestrate.Plan.Spec.{actions_for, requests_for}
use nix_compose.Orchestrate.Links.Memory.{memory}
use nix_compose.Orchestrate.Links.{Links}
use nix_compose.Orchestrate.Apply.{
  load_links, CreateRequest, applied, removed, World, State, process_create, execute_creates,
  rollout_of,
}
use nix_compose.Orchestrate.Links.Holds.{depends}
use nix_compose.Orchestrate.Deployment.Persist.{links_pair}
use nix_compose.Orchestrate.Apply.Load.{links_pair-load_links}
use nix_compose.Orchestrate.Apply.Rollback.{CreatesOutcome, execute_creates_outcome}
use nix_compose.Orchestrate.Apply.Retry.{process_create-NoOp}

program : Unit {0}
unfolding execute_creates process_create lookup insert delete_key
program = tt

abbrev world : World
world = record {
  cancelled = λ calls. false;
  loads = λ r. true;
  applies = λ calls r. not (r.id == "c");
  removes = λ calls r. true;
  saves = λ calls. true;
  condition_met = λ calls id. true;
}

abbrev request : String → CreateRequest
request id = record { id = id; key = "k"; body = "1" }

abbrev start : State memory
start = record { calls = []; rollouts = []; links = record { by_source = []; by_target = [] } }

abbrev three : List CreateRequest
three = request "a" ∷ request "b" ∷ request "c" ∷ []

undone :
    (execute_creates memory world [] three [] start).0.calls
    ≡ applied "a" ∷ applied "b" ∷ applied "c" ∷ removed "b" ∷ removed "a" ∷ []
unfolding program
undone = refl

execute_creates_outcome_example :
    CreatesOutcome memory world [] three start (execute_creates memory world [] three [] start)
execute_creates_outcome_example = execute_creates_outcome memory world [] three [] start

abbrev desired : Deployment
desired = record (new_deployment "d") { requests = create "c" "k" "1" ∷ [] }

abbrev saved : List Rollout
saved = rollout_of (request "c") false ∷ []

process_create-NoOp_example :
    (actions_for "c" (compute_plan some "p" desired saved []).actions ≡ action_noop ∷ [])
    × (requests_for "c" (compute_plan some "p" desired saved []).deployment.requests ≡ [])
unfolding program
process_create-NoOp_example =
    process_create-NoOp memory world (request "c") start some "p" "k" "1" desired saved [] refl refl
      refl (refl, tt) refl refl

abbrev linked : Links memory
linked = record {
  by_source = ("web", record { id = "db"; key = "k" } ∷ []) ∷ [];
  by_target = ("db", record { id = "web"; key = "k" } ∷ []) ∷ [];
}

links_pair-load_links_example :
    links_pair (load_links memory ("web" ∷ []) linked) "web" "db"
    ≡ (contains ("web" ∷ []) "web" && depends memory linked "web" "db")
links_pair-load_links_example = links_pair-load_links memory ("web" ∷ []) linked "web" "db"
