-- ===== src/Composition/Filter.antt =====
-- pkg/composition/filter.go. The set `matched` is the list of its names. The search takes fuel.
pub mod Closed
pub mod Fuel
pub mod Visit
pub mod Enabled
mod Examples
use nix_compose.Prelude.{
  ℕ, zero, suc, String, List, [], ◌∷◌, ◌++◌, Option, none, some, Bool, true, false, ◌==◌, ◌||◌,
  contains, length, if◌then◌else◌,
}
use nix_compose.Prelude.Dict.{Dict, keys, lookup, has}
use nix_compose.Eval.{Service, Composition, DependsOnEntry, NixComposeExtended}

abbrev extended_profiles : Option NixComposeExtended → List String
extended_profiles none = []
extended_profiles (some x) = x.profiles

-- The top-level profiles, and else those of `x-nix-compose`.
pub service_profiles : Service → List String
service_profiles svc = elim svc.profiles [
  | [] ↦ extended_profiles svc.x_nix_compose
  | p ∷ ps ↦ p ∷ ps
]

pub any_active : List String → List String → Bool
any_active [] profiles = false
any_active (s ∷ rest) profiles = contains profiles s || any_active rest profiles

pub service_matches_profile : Service → List String → Bool
unfolding service_profiles any_active
service_matches_profile svc profiles = elim (service_profiles svc) [
  | [] ↦ true
  | s ∷ rest ↦ any_active (s ∷ rest) profiles
]

-- The first pass.
pub directly_matched : Dict Service → List String → List String
unfolding service_matches_profile
directly_matched [] profiles = []
directly_matched ((name, svc) ∷ rest) profiles =
    let later = directly_matched rest profiles in
    if service_matches_profile svc profiles then name ∷ later else later

-- The services found, and those whose dependencies are still to be looked at.
pub record Search : Type 0 where
  pub matched : List String
  pub queue : List String

pub visit_entry : Dict Service → String → Search → Search
visit_entry services dep s =
    if contains s.matched dep
    then s
    else if has dep services
    then record { matched = dep ∷ s.matched; queue = s.queue ++ dep ∷ [] }
    else s

-- The dependencies of one service.
pub visit_entries : Dict Service → Dict DependsOnEntry → Search → Search
unfolding visit_entry
visit_entries services [] s = s
visit_entries services ((dep, entry) ∷ rest) s =
    visit_entries services rest (visit_entry services dep s)

abbrev pub visit_found : Dict Service → Option Service → Search → Search
visit_found services none s = s
visit_found services (some svc) s = visit_entries services svc.depends_on.entries s

pub include_deps_transitive : ℕ → Dict Service → Search → Option (List String)
unfolding visit_entries
include_deps_transitive zero services s = none
include_deps_transitive (suc fuel) services s = elim s.queue [
  | [] ↦ some s.matched
  | name ∷ queue ↦
      include_deps_transitive fuel services
        (visit_found services (lookup name services) (record s { queue = queue }))
]

-- The services of the set.
pub keep_matched : List String → Dict Service → Dict Service
keep_matched matched [] = []
keep_matched matched ((name, svc) ∷ rest) =
    let later = keep_matched matched rest in
    if contains matched name then (name, svc) ∷ later else later

pub prune_entries : Dict Service → Dict DependsOnEntry → Dict DependsOnEntry
prune_entries services [] = []
prune_entries services ((dep, entry) ∷ rest) =
    let later = prune_entries services rest in
    if has dep services then (dep, entry) ∷ later else later

-- `all` are the services of the composition, which the loop goes through and changes one by one.
pub prune_from : Dict Service → Dict Service → Dict Service
unfolding prune_entries
prune_from all [] = []
prune_from all ((name, svc) ∷ rest) =
    (
      name,
      record svc { depends_on = record { entries = prune_entries all svc.depends_on.entries } },
    )
    ∷ prune_from all rest

pub prune_dangling_deps : Dict Service → Dict Service
unfolding prune_from
prune_dangling_deps services = prune_from services services

abbrev pub filtered_by : Composition → Option (List String) → Option Composition
filtered_by comp none = none
filtered_by comp (some matched) = some (record {
  services = prune_dangling_deps (keep_matched matched comp.services);
  networks = comp.networks;
  volumes = comp.volumes;
  micro_vm = none;
})

pub matched_services : Composition → List String → Option (List String)
unfolding directly_matched include_deps_transitive
matched_services comp profiles =
    let direct = directly_matched comp.services profiles in
    include_deps_transitive (suc (length comp.services)) comp.services
      (record { matched = direct; queue = direct })

pub filter_by_profiles : Composition → List String → Option Composition
unfolding matched_services keep_matched prune_dangling_deps
filter_by_profiles comp profiles = filtered_by comp (matched_services comp profiles)
