-- ===== src/Composition/Filter/Visit.antt =====
-- What visiting the dependencies of one service adds to the search.
use nix_compose.Prelude.{
  String, List, [], ◌∷◌, ◌≡◌, refl, ◌∙◌, Option, none, some, Bool, true, ◌==◌, ◌&&◌, ◌||◌, not, inl,
  inr, Bool-cases, arith, contains, contains-append, eq_iff,
}
use nix_compose.Prelude.Dict.{Dict, keys, has}
use nix_compose.Eval.{Service, DependsOnEntry}
use nix_compose.Depgraph.{deps_of_found}
use nix_compose.Composition.Filter.{Search, visit_entry, visit_entries, visit_found}

module _ (services : Dict Service) where
  -- The names that a visit with these dependencies adds.
  abbrev pub adds : List String → String → Bool
  adds deps n = contains deps n && has n services

  has-eq : (a b : String) → (a == b) ≡ true → has a services ≡ has b services
  has-eq a b h = let e : a ≡ b = (eq_iff a b).0 h in rw e refl

  contains-eq : (xs : List String) (a b : String) → (a == b) ≡ true → contains xs a ≡ contains xs b
  contains-eq xs a b h = let e : a ≡ b = (eq_iff a b).0 h in rw e refl

  matched-visit_entry :
      (dep : String) (s : Search) (n : String)
      → contains (visit_entry services dep s).matched n
        ≡ (contains s.matched n || ((dep == n) && has n services))
  unfolding visit_entry
  matched-visit_entry dep s n = elim (Bool-cases (contains s.matched dep)) [
    | inl t ↦ rw t (ground (arith, has-eq dep n, contains-eq s.matched dep n, t))
    | inr f ↦ elim (Bool-cases (has dep services)) [
      | inl h ↦ rw (f, h) (ground (arith, has-eq dep n, h))
      | inr g ↦ rw (f, g) (ground (arith, has-eq dep n, g))
    ]
  ]

  queue-visit_entry :
      (dep : String) (s : Search) (n : String)
      → contains (visit_entry services dep s).queue n
        ≡ (contains s.queue n || (((dep == n) && has n services) && not (contains s.matched n)))
  unfolding visit_entry
  queue-visit_entry dep s n = elim (Bool-cases (contains s.matched dep)) [
    | inl t ↦ rw t (ground (arith, contains-eq s.matched dep n, t))
    | inr f ↦ elim (Bool-cases (has dep services)) [
      | inl h ↦
          rw (f, h)
            (ground (
              arith,
              has-eq dep n,
              h,
              contains-append s.queue (dep ∷ []) n,
              contains-eq s.matched dep n,
              f,
            ))
      | inr g ↦ rw (f, g) (ground (arith, has-eq dep n, g))
    ]
  ]

  matched-visit_entries :
      (entries : Dict DependsOnEntry) (s : Search) (n : String)
      → contains (visit_entries services entries s).matched n
        ≡ (contains s.matched n || adds (keys entries) n)
  unfolding visit_entries
  matched-visit_entries [] s n = ground arith
  matched-visit_entries ((dep, entry) ∷ rest) s n =
      matched-visit_entries rest (visit_entry services dep s) n
      ∙ ground (arith, matched-visit_entry dep s n)

  queue-visit_entries :
      (entries : Dict DependsOnEntry) (s : Search) (n : String)
      → contains (visit_entries services entries s).queue n
        ≡ (contains s.queue n || (adds (keys entries) n && not (contains s.matched n)))
  unfolding visit_entries
  queue-visit_entries [] s n = ground arith
  queue-visit_entries ((dep, entry) ∷ rest) s n =
      queue-visit_entries rest (visit_entry services dep s) n
      ∙ ground (arith, matched-visit_entry dep s n, queue-visit_entry dep s n)

  pub matched-visit_found :
      (found : Option Service) (s : Search) (n : String)
      → contains (visit_found services found s).matched n
        ≡ (contains s.matched n || adds (deps_of_found found) n)
  matched-visit_found none s n = ground arith
  matched-visit_found (some svc) s n = matched-visit_entries svc.depends_on.entries s n

  pub queue-visit_found :
      (found : Option Service) (s : Search) (n : String)
      → contains (visit_found services found s).queue n
        ≡ (contains s.queue n || (adds (deps_of_found found) n && not (contains s.matched n)))
  queue-visit_found none s n = ground arith
  queue-visit_found (some svc) s n = queue-visit_entries svc.depends_on.entries s n
