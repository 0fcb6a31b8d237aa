-- ===== src/Composition/Filter/Enabled.antt =====
-- Which services the filter keeps.
use nix_compose.Prelude.{
  ℕ, zero, suc, String, List, [], ◌∷◌, ◌≡◌, refl, sym, ◌∙◌, ap, Option, none, some, Bool, true,
  false, subst, ◌&&◌, ◌||◌, not, ◌⊎◌, inl, inr, ◌↔◌, Bool-cases, ==-cases, arith, contains, eq_iff,
  length,
}
use nix_compose.Prelude.Dict.{Dict, lookup, has}
use nix_compose.Eval.{Service, Composition}
use nix_compose.Depgraph.{dep_names}
use nix_compose.Composition.Filter.{
  Search, visit_found, include_deps_transitive, directly_matched, matched_services, keep_matched,
  prune_dangling_deps, filtered_by, filter_by_profiles,
}
use nix_compose.Composition.Filter.Visit.{adds, matched-visit_found, queue-visit_found}
use nix_compose.Composition.Filter.Closed.{has-prune_from, services_of}

-- A service that matches by its own profiles, or on which an enabled one depends.
pub data Enabled (services : Dict Service) (profiles : List String) : String → Type 0 where
  by_profile :
      (name : String)
      → contains (directly_matched services profiles) name ≡ true
      → Enabled services profiles name
  needed :
      (name dep : String)
      → Enabled services profiles name
      → contains (dep_names services name) dep ≡ true
      → has dep services ≡ true
      → Enabled services profiles dep

module _ (services : Dict Service) (profiles : List String) where
  abbrev E : String → Type 0
  E = Enabled services profiles

  record Inv (s : Search) : Type 0 where
    matched_ok : (n : String) → contains s.matched n ≡ true → E n
    queue_ok : (n : String) → contains s.queue n ≡ true → E n
    has_direct :
        (n : String)
        → contains (directly_matched services profiles) n ≡ true
        → contains s.matched n ≡ true
    closed :
        (n d : String)
        → contains s.matched n ≡ true
        → adds services (dep_names services n) d ≡ true
        → (contains s.matched d ≡ true) ⊎ (contains s.queue n ≡ true)

  needs : (name n : String) → E name → adds services (dep_names services name) n ≡ true → E n
  needs name n e h = needed name n e (ground arith) (ground arith)

  or_cases : (a b : Bool) → (a || b) ≡ true → (a ≡ true) ⊎ (b ≡ true)
  or_cases true b h = inl refl
  or_cases false b h = inr h

  and_left : (a b : Bool) → (a && b) ≡ true → a ≡ true
  and_left true b h = refl
  and_left false b h = h

  step-Inv :
      (name : String) (queue matched : List String)
      → Inv (record { matched = matched; queue = name ∷ queue })
      → Inv (
          visit_found services (lookup name services) (record { matched = matched; queue = queue }))
  step-Inv name queue matched inv =
      let s : Search = record { matched = matched; queue = queue } in
      let found = lookup name services in
      let me = inv.queue_ok name (ground (arith, eq_iff name name)) in
      record {
        matched_ok = λ n h.
            elim (or_cases (contains matched n) _
              (sym (matched-visit_found services found s n) ∙ h)) [
                | inl old ↦ inv.matched_ok n old
                | inr new ↦ needs name n me new
              ];
        queue_ok = λ n h.
            elim (or_cases (contains queue n) _ (sym (queue-visit_found services found s n) ∙ h)) [
              | inl old ↦ inv.queue_ok n (ground (arith, old))
              | inr new ↦ needs name n me (and_left _ _ new)
            ];
        has_direct =
            λ n h. matched-visit_found services found s n ∙ ground (arith, inv.has_direct n h);
        closed = λ n d h a.
            closed_at (visit_found services found s) n d a (matched-visit_found services found s n)
              (matched-visit_found services found s d) (queue-visit_found services found s n) h;
      }
    where
      closed_at :
          (s' : Search) (n d : String)
          → adds services (dep_names services n) d ≡ true
          → contains s'.matched n
            ≡ (contains matched n || adds services (dep_names services name) n)
          → contains s'.matched d
            ≡ (contains matched d || adds services (dep_names services name) d)
          → contains s'.queue n ≡ (
              contains queue n
              || (adds services (dep_names services name) n && not (contains matched n)))
          → contains s'.matched n ≡ true
          → (contains s'.matched d ≡ true) ⊎ (contains s'.queue n ≡ true)
      closed_at s' n d a mn md qn h = elim (Bool-cases (contains matched n)) [
        | inr fresh ↦ inr (qn ∙ ground (arith, fresh, sym mn ∙ h))
        | inl old ↦ elim (inv.closed n d old a) [
          | inl got ↦ inl (md ∙ (rw got refl))
          | inr q ↦ elim (==-cases name n) [
            | inl (t, e) ↦ inl (md ∙ (rw e (ground (arith, a))))
            | inr (f, ne) ↦ inr (qn ∙ ground (arith, q, f))
          ]
        ]
      ]

  -- What the search returns: enabled services, among them those that match, and their dependencies.
  record Found (m : List String) : Type 0 where
    found_ok : (n : String) → contains m n ≡ true → E n
    found_direct :
        (n : String) → contains (directly_matched services profiles) n ≡ true → contains m n ≡ true
    found_closed :
        (n d : String)
        → contains m n ≡ true
        → adds services (dep_names services n) d ≡ true
        → contains m d ≡ true

  Inv-Found :
      (matched : List String) → Inv (record { matched = matched; queue = [] }) → Found matched
  Inv-Found matched inv = record {
    found_ok = inv.matched_ok;
    found_direct = inv.has_direct;
    found_closed = λ n d h a. elim (inv.closed n d h a) [ inl got ↦ got | inr q ↦ cc ];
  }

  search-Found :
      (fuel : ℕ) (matched queue m : List String)
      → Inv (record { matched = matched; queue = queue })
      → include_deps_transitive fuel services (record { matched = matched; queue = queue }) ≡ some m
      → Found m
  unfolding include_deps_transitive
  search-Found zero matched queue m inv h = cc
  search-Found (suc fuel) matched [] m inv h =
      let same : matched ≡ m = cc in subst Found same (Inv-Found matched inv)
  search-Found (suc fuel) matched (name ∷ queue) m inv h =
      let s =
        visit_found services (lookup name services) (record { matched = matched; queue = queue }) in
      search-Found fuel s.matched s.queue m (step-Inv name queue matched inv) h

  Found-Enabled : (m : List String) → Found m → (n : String) → E n → contains m n ≡ true
  Found-Enabled m f n (by_profile name h) = f.found_direct name h
  Found-Enabled m f n (needed name dep e d h) =
      f.found_closed name dep (Found-Enabled m f name e) (ground (arith, d, h))

  start-Inv : Inv (record {
    matched = directly_matched services profiles;
    queue = directly_matched services profiles;
  })
  start-Inv = record {
    matched_ok = λ n h. by_profile n h;
    queue_ok = λ n h. by_profile n h;
    has_direct = λ n h. h;
    closed = λ n d h a. inr h;
  }

  has-directly_matched :
      (rest : Dict Service) (n : String)
      → contains (directly_matched rest profiles) n ≡ true
      → has n rest ≡ true
  unfolding directly_matched lookup
  has-directly_matched [] n h = cc
  has-directly_matched ((name, svc) ∷ rest) n h = ground (arith, has-directly_matched rest n)

  Enabled-has : (n : String) → E n → has n services ≡ true
  Enabled-has n (by_profile name h) = has-directly_matched services name h
  Enabled-has n (needed name dep e d h) = h

has-keep_matched :
    (m : List String) (services : Dict Service) (n : String)
    → has n (keep_matched m services) ≡ (contains m n && has n services)
unfolding keep_matched lookup
has-keep_matched m [] n = ground arith
has-keep_matched m ((name, svc) ∷ rest) n = elim (==-cases name n) [
  | inl (t, e) ↦ elim (Bool-cases (contains m name)) [
    | inl c ↦ rw c (rw e (ground (arith, t, rw e at c)))
    | inr c ↦ rw c (has-keep_matched m rest n ∙ ground (arith, t, rw e at c))
  ]
  | inr (f, ne) ↦ elim (Bool-cases (contains m name)) [
    | inl c ↦ rw c (rw f (has-keep_matched m rest n))
    | inr c ↦ rw c (rw f (has-keep_matched m rest n))
  ]
]

-- The composition that `FilterByProfiles` returns has exactly the enabled services: those that match
-- by their own profiles, and, over any number of steps, those of the composition on which an enabled
-- one depends.
pub filter_by_profiles-Enabled :
    (comp result : Composition) (profiles : List String) (name : String)
    → filter_by_profiles comp profiles ≡ some result
    → (has name result.services ≡ true) ↔ Enabled comp.services profiles name
unfolding filter_by_profiles matched_services prune_dangling_deps services_of
filter_by_profiles-Enabled comp result profiles name h =
    by_matched (matched_services comp profiles) refl h
  where
    by_matched :
        (m : Option (List String))
        → matched_services comp profiles ≡ m
        → filtered_by comp m ≡ some result
        → (has name result.services ≡ true) ↔ Enabled comp.services profiles name
    by_matched none e k = cc
    by_matched (some m) e k =
        let kept = keep_matched m comp.services in
        let same : prune_dangling_deps kept ≡ result.services = ap services_of k in
        let count : has name result.services ≡ (contains m name && has name comp.services) =
          ap (λ d. has name d) (sym same)
          ∙ (has-prune_from kept kept name ∙ has-keep_matched m comp.services name) in
        let direct = directly_matched comp.services profiles in
        let f =
          search-Found comp.services profiles (suc (length comp.services)) direct direct m
            (start-Inv comp.services profiles) e in
        (
          λ t. f.found_ok name (ground (arith, count, t)),
          λ en.
              count
              ∙ ground (
                arith,
                Found-Enabled comp.services profiles m f name en,
                Enabled-has comp.services profiles name en,
              ),
        )
