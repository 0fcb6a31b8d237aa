-- ===== src/Composition/Filter/Fuel.antt =====
-- The search of the filter ends, and finds what the profiles enable.
use nix_compose.Prelude.{
  ℕ, zero, suc, ◌+◌, ◌≤◌, ◌<◌, String, List, [], ◌∷◌, ◌≡◌, refl, Option, none, some, true, false,
  inl, inr, Bool-cases, arith, contains, length, length-append, if◌then◌else◌, eq_iff, eq_refl, ◌∙◌,
}
use nix_compose.Prelude.Dict.{Dict, keys, lookup, has, contains-keys}
use nix_compose.Eval.{Service, Composition, DependsOnEntry}
use nix_compose.Composition.Filter.{
  Search, visit_entry, visit_entries, visit_found, include_deps_transitive, directly_matched,
  service_matches_profile, matched_services, filter_by_profiles,
}

-- How many of the names are not matched yet.
abbrev pub unmatched : List String → List String → ℕ
unmatched matched [] = 0
unmatched matched (n ∷ names) =
    let rest = unmatched matched names in if contains matched n then rest else suc rest

unmatched-le :
    (matched names : List String) (dep : String)
    → unmatched (dep ∷ matched) names ≤ unmatched matched names
unmatched-le matched [] dep = ground arith
unmatched-le matched (n ∷ names) dep = ground (arith, unmatched-le matched names dep)

unmatched-lt :
    (matched names : List String) (dep : String)
    → contains matched dep ≡ false
    → contains names dep ≡ true
    → unmatched (dep ∷ matched) names < unmatched matched names
unmatched-lt matched [] dep f t = ground arith
unmatched-lt matched (n ∷ names) dep f t = ground (
  arith,
  eq_iff n dep,
  eq_iff dep n,
  unmatched-lt matched names dep f,
  unmatched-le matched names dep,
)

unmatched-length : (matched names : List String) → unmatched matched names ≤ length names
unmatched-length matched [] = ground arith
unmatched-length matched (n ∷ names) = ground (arith, unmatched-length matched names)

module _ (services : Dict Service) where
  -- What is left to do: the queue and the services not found yet.
  abbrev work : Search → ℕ
  work s = unmatched s.matched (keys services) + length s.queue

  visit_entry-work : (dep : String) (s : Search) → work (visit_entry services dep s) ≤ work s
  unfolding visit_entry
  visit_entry-work dep s = elim (Bool-cases (contains s.matched dep)) [
    | inl t ↦ rw t (ground arith)
    | inr f ↦ elim (Bool-cases (has dep services)) [
      | inl h ↦
          rw (f, h)
            (ground (
              arith,
              unmatched-lt s.matched (keys services) dep f (contains-keys services dep ∙ h),
              length-append s.queue (dep ∷ []),
            ))
      | inr n ↦ rw (f, n) (ground arith)
    ]
  ]

  visit_entries-work :
      (entries : Dict DependsOnEntry) (s : Search)
      → work (visit_entries services entries s) ≤ work s
  unfolding visit_entries
  visit_entries-work [] s = ground arith
  visit_entries-work ((dep, entry) ∷ rest) s =
      ground (arith, visit_entries-work rest (visit_entry services dep s), visit_entry-work dep s)

  visit_found-work :
      (found : Option Service) (s : Search) → work (visit_found services found s) ≤ work s
  visit_found-work none s = ground arith
  visit_found-work (some svc) s = visit_entries-work svc.depends_on.entries s

  enough_fuel :
      (fuel : ℕ) (s : Search)
      → work s < fuel
      → (matched : List String) × (include_deps_transitive fuel services s ≡ some matched)
  unfolding include_deps_transitive
  enough_fuel zero s h = ground arith
  enough_fuel (suc fuel) s h = by_queue s.queue refl (λ s' k. enough_fuel fuel s' k)
    where
      by_queue :
          (queue : List String)
          → s.queue ≡ queue
          → ((s' : Search)
              → work s' < fuel
              → (matched : List String) × (include_deps_transitive fuel services s' ≡ some matched))
          → (matched : List String) × (include_deps_transitive (suc fuel) services s ≡ some matched)
      by_queue [] e later = (s.matched, rw e refl)
      by_queue (name ∷ queue) e later =
          let next = record s { queue = queue } in
          let (matched, done) =
            later (visit_found services (lookup name services) next)
              (ground (arith, visit_found-work (lookup name services) next, h, e)) in
          (matched, rw e done)

directly_matched-length :
    (services : Dict Service) (profiles matched : List String)
    → ((n : String)
        → contains (directly_matched services profiles) n ≡ true
        → contains matched n ≡ true)
    → unmatched matched (keys services) + length (directly_matched services profiles)
      ≤ length services
unfolding directly_matched
directly_matched-length [] profiles matched h = ground arith
directly_matched-length ((name, svc) ∷ rest) profiles matched h =
    elim (Bool-cases (service_matches_profile svc profiles)) [
      | inl t ↦
          let all =
            directly_matched-length rest profiles matched
              (λ n e. (rw t at h) n (ground (arith, e))) in
          rw t (ground (arith, all, (rw t at h) name, eq_refl name))
      | inr f ↦
          let all = directly_matched-length rest profiles matched (rw f at h) in
          rw f (ground (arith, all))
    ]

-- `FilterByProfiles` ends: its search needs no more rounds than there are services, and one more to
-- see that the queue is empty.
pub filter_by_profiles_total :
    (comp : Composition) (profiles : List String)
    → (result : Composition) × (filter_by_profiles comp profiles ≡ some result)
unfolding filter_by_profiles matched_services
filter_by_profiles_total comp profiles =
    let direct = directly_matched comp.services profiles in
    let start : Search = record { matched = direct; queue = direct } in
    let fits = directly_matched-length comp.services profiles direct (λ n h. h) in
    let (matched, done) =
      enough_fuel comp.services (suc (length comp.services)) start (ground (arith, fits)) in
    rw done (_, refl)
