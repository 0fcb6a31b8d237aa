-- ===== src/Orchestrate/Links/Examples.antt =====
-- The theorems on links at small runs.
use nix_compose.Prelude.{String, [], ◌∷◌, ◌≡◌, refl, true, ◌==◌, ◌||◌, ◌&&◌, not}
use nix_compose.Prelude.Dict.{lookup, insert}
use nix_compose.Prelude.Dict.{delete as delete_key}
use nix_compose.Orchestrate.Types.{Reference, Link}
use nix_compose.Orchestrate.Links.{Links, add_link, remove_link}
use nix_compose.Orchestrate.Links.Memory.{memory}
use nix_compose.Orchestrate.Links.Holds.{depends, depended}
use nix_compose.Orchestrate.Links.Mirror.{
  IsMirrored, add, remove_all, run_ops, add_link_lem, remove_link_lem, run_ops-IsMirrored,
}

abbrev ref : String → Reference
ref id = record { id = id; key = "k" }

abbrev link : String → String → Link
link s t = record { source = ref s; target = ref t }

abbrev no_links : Links memory
no_links = record { by_source = []; by_target = [] }

abbrev one_link : Links memory
one_link = (add_link memory (link "web" "db") no_links).0

program : Unit {0}
unfolding add_link remove_link lookup insert delete_key
program = tt

both_views :
    (depends memory one_link "web" "db" ≡ true) × (depended memory one_link "web" "db" ≡ true)
unfolding program
both_views = (refl, refl)

add_link_lem_example :
    (depends memory one_link "web" "db"
      ≡ (depends memory no_links "web" "db" || (true && (("web" == "web") && ("db" == "db")))))
    × (depended memory one_link "web" "db"
        ≡ (depended memory no_links "web" "db" || (true && (("web" == "web") && ("db" == "db")))))
unfolding program
add_link_lem_example = add_link_lem memory (link "web" "db") no_links one_link true "web" "db" refl

remove_link_lem_example :
    (depends memory no_links "web" "db"
      ≡ (depends memory one_link "web" "db" && not (true && ("web" == "web"))))
    × (depended memory no_links "web" "db" ≡ (
        depended memory one_link "web" "db"
        && not (true && (depends memory one_link "web" "db" && ("web" == "web")))))
unfolding program
remove_link_lem_example = remove_link_lem memory (ref "web") one_link no_links true "web" "db" refl

no_links-IsMirrored : IsMirrored memory no_links
unfolding lookup
no_links-IsMirrored s t = refl

run_ops-IsMirrored_example : IsMirrored memory (
    run_ops memory
      (add (link "web" "db") ∷ add (link "api" "db") ∷ remove_all (ref "web") ∷ [])
      no_links)
run_ops-IsMirrored_example =
    run_ops-IsMirrored memory
      (add (link "web" "db") ∷ add (link "api" "db") ∷ remove_all (ref "web") ∷ []) no_links
      no_links-IsMirrored
