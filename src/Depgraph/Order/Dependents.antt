-- ===== src/Depgraph/Order/Dependents.antt =====
-- `buildGraph`: the list of dependents of `x` holds the services that depend on `x`, once each.
use nix_compose.Prelude.{
  String, List, [], ◌∷◌, ◌++◌, ◌≡◌, refl, ◌∙◌, true, false, ◌||◌, ◌&&◌, inl, inr, contains,
  contains-append, IsUnique, ==-cases, Bool-cases, arith, if◌then◌else◌, ◌==◌, eq_iff, eq_refl,
}
use nix_compose.Prelude.Dict.{Dict, keys, lookup, lookup-insert, contains-keys}
use nix_compose.Eval.{Service, Composition}
use nix_compose.Depgraph.{
  Graph, deps_of, dep_names, read_list, add_dep, add_deps, add_services, build_graph,
}
use nix_compose.Depgraph.Spec.{IsMap}

abbrev pub dependents_of : Graph → String → List String
dependents_of g x = read_list (lookup x g.dependents)

add_deps_absent :
    (name : String) (g : Graph) (deps : List String) (x : String)
    → contains deps x ≡ false
    → dependents_of (add_deps name g deps) x ≡ dependents_of g x
unfolding add_deps
add_deps_absent name g [] x h = refl
add_deps_absent name g (d ∷ deps) x h =
    add_deps_absent name (add_dep name g d) deps x (ground arith)
    ∙ ground (arith, lookup-insert d x (dependents_of g d ++ name ∷ []) g.dependents)

dependents-add_deps :
    (name : String) (g : Graph) (deps : List String) (x : String)
    → IsUnique deps
    → dependents_of (add_deps name g deps) x
      ≡ (if contains deps x then dependents_of g x ++ name ∷ [] else dependents_of g x)
unfolding add_deps
dependents-add_deps name g [] x u = refl
dependents-add_deps name g (d ∷ deps) x u = elim (==-cases d x) [
  | inl (t, e) ↦
      add_deps_absent name (add_dep name g d) deps x (rw e at u.0)
      ∙ ground (arith, lookup-insert d x (dependents_of g d ++ name ∷ []) g.dependents, e, t)
  | inr (f, e) ↦
      dependents-add_deps name (add_dep name g d) deps x u.1
      ∙ ground (arith, lookup-insert d x (dependents_of g d ++ name ∷ []) g.dependents, f)
]

contains-add_deps :
    (name : String) (g : Graph) (deps : List String) (x n : String)
    → IsUnique deps
    → contains (dependents_of (add_deps name g deps) x) n
      ≡ (contains (dependents_of g x) n || ((name == n) && contains deps x))
contains-add_deps name g deps x n u =
    rw (dependents-add_deps name g deps x u)
      (ground (arith, contains-append (dependents_of g x) (name ∷ []) n))

contains-add_services :
    (g : Graph) (rest : Dict Service) (x n : String)
    → IsMap rest
    → contains (dependents_of (add_services g rest) x) n
      ≡ (contains (dependents_of g x) n || contains (dep_names rest n) x)
unfolding add_services lookup
contains-add_services g [] x n u = ground arith
contains-add_services g ((name, svc) ∷ rest) x n u =
    contains-add_services (add_deps name g (deps_of svc)) rest x n (u.0.1, u.1.1)
    ∙ ground (
      arith,
      contains-add_deps name g (deps_of svc) x n u.1.0,
      eq_iff name n,
      contains-keys rest name,
      u.0.0,
    )

append-IsUnique :
    (xs : List String) (a : String) → contains xs a ≡ false → IsUnique xs → IsUnique (xs ++ a ∷ [])
append-IsUnique [] a h u = (refl, tt)
append-IsUnique (x ∷ xs) a h u =
    ground (arith, append-IsUnique xs a, contains-append xs (a ∷ []) x, eq_iff a x, eq_iff x a)

add_deps-dependents-IsUnique :
    (name : String) (g : Graph) (deps : List String) (x : String)
    → IsUnique deps
    → contains (dependents_of g x) name ≡ false
    → IsUnique (dependents_of g x)
    → IsUnique (dependents_of (add_deps name g deps) x)
add_deps-dependents-IsUnique name g deps x u absent v =
    rw (dependents-add_deps name g deps x u) (elim (Bool-cases (contains deps x)) [
      | inl t ↦ rw t (append-IsUnique (dependents_of g x) name absent v)
      | inr f ↦ rw f v
    ])

add_services-dependents-IsUnique :
    (g : Graph) (rest : Dict Service) (x : String)
    → IsMap rest
    → ((m : String) → contains (keys rest) m ≡ true → contains (dependents_of g x) m ≡ false)
    → IsUnique (dependents_of g x)
    → IsUnique (dependents_of (add_services g rest) x)
unfolding add_services
add_services-dependents-IsUnique g [] x u fresh v = v
add_services-dependents-IsUnique g ((name, svc) ∷ rest) x u fresh v =
    add_services-dependents-IsUnique (add_deps name g (deps_of svc)) rest x (u.0.1, u.1.1)
      (λ m h.
        ground
          (arith, contains-add_deps name g (deps_of svc) x m u.1.0, fresh m, u.0.0, eq_iff name m))
      (add_deps-dependents-IsUnique name g (deps_of svc) x u.1.0
        (fresh name (ground (arith, eq_refl name))) v)

module _ (comp : Composition) (u : IsMap comp.services) (x : String) where
  pub contains-dependents :
      (n : String)
      → contains (dependents_of (build_graph comp) x) n ≡ contains (dep_names comp.services n) x
  unfolding build_graph lookup
  contains-dependents n = contains-add_services _ comp.services x n u

  pub dependents-IsUnique : IsUnique (dependents_of (build_graph comp) x)
  unfolding build_graph lookup
  dependents-IsUnique = add_services-dependents-IsUnique _ comp.services x u (λ m h. refl) tt
