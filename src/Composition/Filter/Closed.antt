-- ===== src/Composition/Filter/Closed.antt =====
-- Behind the filter no dependency dangles.
use nix_compose.Prelude.{
  String, List, [], ◌∷◌, ◌≡◌, refl, ap, Option, none, some, inl, inr, Bool-cases, arith,
}
use nix_compose.Prelude.Dict.{Dict, keys, lookup, has}
use nix_compose.Eval.{Service, Composition, DependsOnEntry}
use nix_compose.Depgraph.{validate_references, references_from, missing_deps}
use nix_compose.Composition.Filter.{
  prune_entries, prune_from, prune_dangling_deps, keep_matched, filtered_by, filter_by_profiles,
  matched_services,
}

-- Two maps have the same keys.
abbrev SameKeys : Dict Service → Dict Service → Type 0
SameKeys a b = (name : String) → has name a ≡ has name b

pub has-prune_from :
    (all services : Dict Service) (name : String)
    → has name (prune_from all services) ≡ has name services
unfolding prune_from lookup
has-prune_from all [] name = refl
has-prune_from all ((n, svc) ∷ rest) name = ground (arith, has-prune_from all rest name)

missing_deps-prune_entries :
    (all pruned : Dict Service) (name : String) (entries : Dict DependsOnEntry)
    → SameKeys pruned all
    → missing_deps pruned name (keys (prune_entries all entries)) ≡ []
unfolding missing_deps prune_entries
missing_deps-prune_entries all pruned name [] h = refl
missing_deps-prune_entries all pruned name ((dep, entry) ∷ rest) h =
    elim (Bool-cases (has dep all)) [
      | inl t ↦ rw t (rw (h dep) (rw t (missing_deps-prune_entries all pruned name rest h)))
      | inr f ↦ rw f (missing_deps-prune_entries all pruned name rest h)
    ]

references_from-prune_from :
    (all pruned services : Dict Service)
    → SameKeys pruned all
    → references_from pruned (prune_from all services) ≡ []
unfolding references_from prune_from
references_from-prune_from all pruned [] h = refl
references_from-prune_from all pruned ((name, svc) ∷ rest) h =
    rw (missing_deps-prune_entries all pruned name svc.depends_on.entries h)
      (references_from-prune_from all pruned rest h)

unfoldable pub services_of : Option Composition → Dict Service
services_of none = []
services_of (some c) = c.services

-- A composition that `FilterByProfiles` returns has no dependency on a service that it lacks, so that
-- the check of references in `Validate` passes it.
pub filter_by_profiles-closed :
    (comp result : Composition) (profiles : List String)
    → filter_by_profiles comp profiles ≡ some result
    → validate_references result.services ≡ []
unfolding filter_by_profiles prune_dangling_deps validate_references services_of
filter_by_profiles-closed comp result profiles h = by_matched (matched_services comp profiles) h
  where
    by_matched :
        (m : Option (List String))
        → filtered_by comp m ≡ some result
        → validate_references result.services ≡ []
    by_matched none e = cc
    by_matched (some matched) e =
        let kept = keep_matched matched comp.services in
        let same : prune_dangling_deps kept ≡ result.services = ap services_of e in
        rw⁻¹ same
          (references_from-prune_from kept (prune_from kept kept) kept (has-prune_from kept kept))
