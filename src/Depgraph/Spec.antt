-- ===== src/Depgraph/Spec.antt =====
-- What `pkg/depgraph` promises: when a dependency graph is sound, and what a schedule is.
use nix_compose.Prelude.{
  String, List, [], ◌∷◌, ◌≡◌, ◌≢◌, ◌↔◌, true, false, contains, IsUnique, arith, ◌||◌, refl,
}
use nix_compose.Prelude.Dict.{Dict, has, keys}
use nix_compose.Prelude.Sort.{IsSorted}
use nix_compose.Eval.{Service}
use nix_compose.Depgraph.{dep_names, deps_of}

-- Every chain of dependencies from `n` ends: no cycle can be reached from it.
pub data Grounded (services : Dict Service) : String → Type 0 where
  grounded :
      {n : String}
      → ((d : String) → contains (dep_names services n) d ≡ true → Grounded services d)
      → Grounded services n

-- No name is a key twice, in the map of services and in each `depends_on`.
abbrev pub HasUniqueDeps : Dict Service → Type 0
HasUniqueDeps [] = Unit
HasUniqueDeps ((_, svc) ∷ rest) = IsUnique (deps_of svc) × HasUniqueDeps rest

abbrev pub IsMap : Dict Service → Type 0
IsMap services = IsUnique (keys services) × HasUniqueDeps services

-- Every dependency of a service is a service.
abbrev pub IsClosed : Dict Service → Type 0
IsClosed services =
    (n d : String)
    → has n services ≡ true
    → contains (dep_names services n) d ≡ true
    → has d services ≡ true

-- A service that is not done and whose dependencies all are.
pub record Ready (services : Dict Service) (done : List String) (n : String) : Type 0 where
  pub service : has n services ≡ true
  pub waiting : contains done n ≡ false
  pub backed : (d : String) → contains (dep_names services n) d ≡ true → contains done d ≡ true

-- `done` after the names of a level.
abbrev pub mark : List String → List String → List String
mark [] done = done
mark (x ∷ xs) done = mark xs (x ∷ done)

pub contains-mark :
    (xs done : List String) (n : String)
    → contains (mark xs done) n ≡ (contains xs n || contains done n)
contains-mark [] done n = refl
contains-mark (x ∷ xs) done n = ground (arith, contains-mark xs (x ∷ done) n)

-- The greedy schedule after `done`: each level is not empty, sorted, without repetition, and holds
-- exactly the services that are ready; behind the last level every service is done.
abbrev pub Schedule : Dict Service → List String → List (List String) → Type 0
Schedule services done [] = (n : String) → has n services ≡ true → contains done n ≡ true
Schedule services done (level ∷ rest) =
    (level ≢ [])
    × IsSorted level
    × IsUnique level
    × ((n : String) → (contains level n ≡ true) ↔ Ready services done n)
    × Schedule services (mark level done) rest
