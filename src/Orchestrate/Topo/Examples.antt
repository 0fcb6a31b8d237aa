-- ===== src/Orchestrate/Topo/Examples.antt =====
-- Runs of `topoSortRequests`, and its theorems at them.
use nix_compose.Prelude.{
  ℕ, String, List, [], ◌∷◌, ◌≡◌, refl, some, true, false, ◌==◌, if◌then◌else◌, IsUnique, reverse,
  arith,
}
use nix_compose.Prelude.Dict.{lookup, insert}
use nix_compose.Prelude.Sort.{sort}
use nix_compose.Orchestrate.Types.{Reference, Link}
use nix_compose.Orchestrate.Topo.{topo_sort_requests}
use nix_compose.Orchestrate.Topo.Spec.{find, find_last, stands_before}
use nix_compose.Orchestrate.Topo.Loop.{ids}
use nix_compose.Orchestrate.Topo.Complete.{topo_sort_complete}
use nix_compose.Orchestrate.Topo.Order.{topo_sort_order, topo_sort_last}

program : Unit {0}
unfolding topo_sort_requests lookup insert sort
program = tt

abbrev ref : String → Reference
ref id = record { id = id; key = "k" }

abbrev link : String → String → Link
link source target = record { source = ref source; target = ref target }

-- `web` needs `api`, and `api` needs `net`; `db` is not in the batch.
abbrev links : List Link
links = link "web" "api" ∷ link "api" "net" ∷ link "api" "db" ∷ []

abbrev batch : List Reference
batch = ref "web" ∷ ref "net" ∷ ref "api" ∷ []

in_order :
    topo_sort_requests Reference.id batch links false
    ≡ some (ref "net" ∷ ref "api" ∷ ref "web" ∷ [])
unfolding program
in_order = refl

in_reverse :
    topo_sort_requests Reference.id batch links true ≡ some (ref "web" ∷ ref "api" ∷ ref "net" ∷ [])
unfolding program
in_reverse = refl

-- A cycle: its requests come last, in the order of the batch.
in_cycle :
    topo_sort_requests Reference.id batch (link "net" "web" ∷ link "web" "net" ∷ []) false
    ≡ some (ref "api" ∷ ref "web" ∷ ref "net" ∷ [])
unfolding program
in_cycle = refl

abbrev rank : String → ℕ
rank id = if id == "web" then 2 else if id == "api" then 1 else 0

topo_sort_order_example :
    (out : List Reference) × (topo_sort_requests Reference.id batch links false ≡ some out)
    × (topo_sort_requests Reference.id batch links true ≡ some (reverse out))
    × (stands_before "net" "api" (ids Reference.id out) ≡ true)
    × (stands_before "api" "net" (ids Reference.id (reverse out)) ≡ true)
topo_sort_order_example =
    topo_sort_order Reference.id batch links rank (omega arith, (omega arith, tt)) "api" "net" refl
      refl refl

topo_sort_complete_example :
    (out : List Reference) × (topo_sort_requests Reference.id batch
        (link "net" "web" ∷ link "web" "net" ∷ [])
        true
      ≡ some out)
    × IsUnique (ids Reference.id out)
    × ((id : String) → find Reference.id id out ≡ find Reference.id id batch)
topo_sort_complete_example =
    topo_sort_complete Reference.id batch (link "net" "web" ∷ link "web" "net" ∷ []) true
      (refl, (refl, (refl, tt)))

-- A project and a network of the same name.
abbrev same_name : List Reference
same_name = record { id = "p"; key = "Project" } ∷ record { id = "p"; key = "Network" } ∷ []

topo_sort_last_example :
    (out : List Reference) × (topo_sort_requests Reference.id same_name [] false ≡ some out)
    × IsUnique (ids Reference.id out)
    × ((id : String) → find Reference.id id out ≡ find_last Reference.id id same_name)
topo_sort_last_example = topo_sort_last Reference.id same_name [] rank tt false
