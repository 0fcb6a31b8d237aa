-- ===== src/Orchestrate/Deployment/Examples.antt =====
-- A deployment of a resource with its dependency, and the theorems on it.
use nix_compose.Prelude.{String, [], ◌∷◌, ◌++◌, ◌≡◌, refl, none, some}
use nix_compose.Prelude.Dict.{lookup, insert, delete as delete_key}
use nix_compose.Orchestrate.Types.{Reference, Deployment, new_deployment}
use nix_compose.Orchestrate.Links.{Links, add_link}
use nix_compose.Orchestrate.Links.Memory.{memory}
use nix_compose.Orchestrate.Deployment.{
  Deployed, missing_dependency, add_creation, check_references, persist_links,
}
use nix_compose.Orchestrate.Deployment.Check.{is_clean, all_met, check_references_clean}
use nix_compose.Orchestrate.Deployment.Persist.{Adds, persist_links-Adds}

program : Unit {0}
unfolding check_references persist_links add_creation add_link lookup insert delete_key
program = tt

abbrev ref : String → Reference
ref id = record { id = id; key = "k" }

abbrev nothing : Deployed
nothing = record { load = λ id. some none; providers = (λ r. some []) ∷ [] }

abbrev web_alone : Deployment
web_alone = add_creation (ref "web") "{}" (ref "db" ∷ []) (new_deployment "d")

db_missing : check_references nothing web_alone ≡ missing_dependency "db" ∷ []
unfolding program
db_missing = refl

check_references_clean_example :
    is_clean (check_references nothing web_alone) ≡ all_met nothing web_alone web_alone.requests
check_references_clean_example = check_references_clean nothing web_alone

abbrev no_links : Links memory
no_links = record { by_source = []; by_target = [] }

persist_links-Adds_example :
    Adds memory
      (web_alone.dependencies ++ web_alone.depending)
      no_links
      (persist_links memory web_alone no_links).0
unfolding program
persist_links-Adds_example = persist_links-Adds memory web_alone no_links refl
