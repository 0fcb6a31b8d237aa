-- ===== src/Depgraph/Order/Graph.antt =====
-- `buildGraph`: the degree of a service counts its dependencies, and `dependents` inverts them.
use nix_compose.Prelude.{
  ℕ, suc, ◌+◌, String, List, [], ◌∷◌, ◌≡◌, ◌≢◌, refl, ◌∙◌, Option, none, some, inl, inr, length,
  contains, IsUnique, ==-cases, Option-cases, arith, if◌then◌else◌, eq_iff, eq_refl, ap,
}
use nix_compose.Prelude.Int.{ℤ, pos, increment}
use nix_compose.Prelude.Dict.{
  Dict, keys, lookup, insert, has, lookup-insert, contains-keys, insert-IsUnique,
}
use nix_compose.Eval.{Service, Composition}
use nix_compose.Depgraph.{
  Graph, deps_of, read_int, zero_degrees, add_dep, add_deps, add_services, build_graph,
}
use nix_compose.Depgraph.Spec.{IsMap}

-- The dependencies that are not done.
abbrev pub missing : List String → List String → ℕ
missing done [] = 0
missing done (d ∷ deps) = if contains done d then missing done deps else suc (missing done deps)

abbrev pub degree_of : List String → Option Service → Option ℤ
degree_of done none = none
degree_of done (some svc) = some (pos (missing done (deps_of svc)))

-- The entry of the degree map at `n` once the names of `done` are removed.
abbrev pub expected : Dict Service → List String → String → Option ℤ
expected services done n = if contains done n then none else degree_of done (lookup n services)

pub missing-nil : (deps : List String) → missing [] deps ≡ length deps
missing-nil [] = refl
missing-nil (d ∷ deps) = ap suc (missing-nil deps)

lookup-zero_degrees :
    (services : Dict Service) (degrees : Dict ℤ) (n : String)
    → lookup n (zero_degrees services degrees)
      ≡ (if has n services then some (pos 0) else lookup n degrees)
unfolding zero_degrees lookup
lookup-zero_degrees [] degrees n = refl
lookup-zero_degrees ((name, svc) ∷ rest) degrees n = ground (
  arith,
  lookup-zero_degrees rest (insert name (pos 0) degrees) n,
  lookup-insert name n (pos 0) degrees,
)

zero_degrees-IsUnique :
    (services : Dict Service) (degrees : Dict ℤ)
    → IsUnique (keys degrees)
    → IsUnique (keys (zero_degrees services degrees))
unfolding zero_degrees
zero_degrees-IsUnique [] degrees u = u
zero_degrees-IsUnique ((name, _) ∷ rest) degrees u =
    zero_degrees-IsUnique rest _ (insert-IsUnique name (pos 0) degrees u)

degree_self :
    (name : String) (g : Graph) (deps : List String) (k : ℕ)
    → lookup name g.in_degree ≡ some (pos k)
    → lookup name (add_deps name g deps).in_degree ≡ some (pos (k + length deps))
unfolding add_deps
degree_self name g [] k h = ground arith
degree_self name g (d ∷ deps) k h =
    degree_self name (add_dep name g d) deps (suc k) (
      ground (
        arith,
        lookup-insert name name (increment (read_int (lookup name g.in_degree))) g.in_degree,
        eq_refl name,
      ))
    ∙ ground arith

degree_ne :
    (name n : String) (g : Graph) (deps : List String)
    → name ≢ n
    → lookup n (add_deps name g deps).in_degree ≡ lookup n g.in_degree
unfolding add_deps
degree_ne name n g [] h = refl
degree_ne name n g (d ∷ deps) h =
    degree_ne name n (add_dep name g d) deps h
    ∙ ground (
      arith,
      lookup-insert name n (increment (read_int (lookup name g.in_degree))) g.in_degree,
      eq_iff name n,
    )

degree_absent :
    (n : String) (g : Graph) (rest : Dict Service)
    → lookup n rest ≡ none
    → lookup n (add_services g rest).in_degree ≡ lookup n g.in_degree
unfolding add_services lookup
degree_absent n g [] h = refl
degree_absent n g ((name, svc) ∷ rest) h = elim (==-cases name n) [
  | inl (t, e) ↦ ground arith
  | inr (f, e) ↦
      degree_absent n (add_deps name g (deps_of svc)) rest (rw f at h)
      ∙ degree_ne name n g (deps_of svc) e
]

degree_present :
    (n : String) (g : Graph) (rest : Dict Service) {svc : Service} (k : ℕ)
    → IsUnique (keys rest)
    → lookup n rest ≡ some svc
    → lookup n g.in_degree ≡ some (pos k)
    → lookup n (add_services g rest).in_degree ≡ some (pos (k + length (deps_of svc)))
unfolding add_services lookup
degree_present n g [] k u h e = ground arith
degree_present n g ((name, other) ∷ rest) {svc} k u h e = elim (==-cases name n) [
  | inl (t, p) ↦
      let same : other ≡ svc = ground arith in
      let absent : lookup n rest ≡ none = ground (arith, contains-keys rest name, u.0) in
      degree_absent n (add_deps name g (deps_of other)) rest absent
      ∙ (rw (← p, ← same) (degree_self name g (deps_of other) k (rw p e)))
  | inr (f, p) ↦
      degree_present n (add_deps name g (deps_of other)) rest k u.1 (rw f at h)
        (degree_ne name n g (deps_of other) p ∙ e)
]

add_deps-IsUnique :
    (name : String) (g : Graph) (deps : List String)
    → IsUnique (keys g.in_degree)
    → IsUnique (keys (add_deps name g deps).in_degree)
unfolding add_deps
add_deps-IsUnique name g [] u = u
add_deps-IsUnique name g (d ∷ deps) u =
    add_deps-IsUnique name (add_dep name g d) deps (insert-IsUnique name _ g.in_degree u)

add_services-IsUnique :
    (g : Graph) (rest : Dict Service)
    → IsUnique (keys g.in_degree)
    → IsUnique (keys (add_services g rest).in_degree)
unfolding add_services
add_services-IsUnique g [] u = u
add_services-IsUnique g ((name, svc) ∷ rest) u =
    add_services-IsUnique (add_deps name g (deps_of svc)) rest
      (add_deps-IsUnique name g (deps_of svc) u)

module _ (comp : Composition) where
  pub in_degree-IsUnique : IsUnique (keys (build_graph comp).in_degree)
  unfolding build_graph
  in_degree-IsUnique =
      add_services-IsUnique _ comp.services (zero_degrees-IsUnique comp.services [] tt)

  -- At the start the degree of each service is the number of its dependencies.
  pub in_degree_lem :
      IsMap comp.services
      → (n : String) → lookup n (build_graph comp).in_degree ≡ expected comp.services [] n
  unfolding build_graph lookup
  in_degree_lem u n = elim (Option-cases (lookup n comp.services)) [
    | inl e ↦
        degree_absent n _ comp.services e ∙ (rw e (lookup-zero_degrees comp.services [] n ∙ (rw e)))
    | inr (svc, e) ↦
        degree_present n _ comp.services 0 u.0 e (lookup-zero_degrees comp.services [] n ∙ (rw e))
        ∙ (rw (e, missing-nil) (ground arith))
  ]
