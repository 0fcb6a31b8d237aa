-- ===== src/Depgraph/Order/Level.antt =====
-- One round of `StartOrder`: the level is the set of ready services, and removing it keeps the
-- degree map exact.
use nix_compose.Prelude.{
  suc, String, List, [], ◌∷◌, ◌≡◌, ◌↔◌, refl, ◌∙◌, true, false, some, inl, inr, contains, IsUnique,
  ==-cases, arith, if◌then◌else◌, eq_iff, eq_refl, subst,
}
use nix_compose.Prelude.Int.{ℤ, decrement}
use nix_compose.Prelude.Dict.{Dict, keys, lookup, lookup-insert, insert-IsUnique}
use nix_compose.Eval.{Service}
use nix_compose.Depgraph.{deps_of, deps_of_found, read_int, decrement_all}
use nix_compose.Depgraph.Spec.{HasUniqueDeps}
use nix_compose.Depgraph.Order.Graph.{missing}

pub lookup-decrement_all :
    (ns : List String) (degrees : Dict ℤ) (n : String)
    → IsUnique ns
    → lookup n (decrement_all ns degrees)
      ≡ (if contains ns n then some (decrement (read_int (lookup n degrees))) else lookup n degrees)
unfolding decrement_all
lookup-decrement_all [] degrees n u = refl
lookup-decrement_all (x ∷ ns) degrees n u =
    lookup-decrement_all ns _ n u.1
    ∙ ground (
      arith,
      lookup-insert x n (decrement (read_int (lookup x degrees))) degrees,
      eq_iff x n,
      u.0,
    )

pub decrement_all-IsUnique :
    (ns : List String) (degrees : Dict ℤ)
    → IsUnique (keys degrees)
    → IsUnique (keys (decrement_all ns degrees))
unfolding decrement_all
decrement_all-IsUnique [] degrees u = u
decrement_all-IsUnique (x ∷ ns) degrees u =
    decrement_all-IsUnique ns _ (insert-IsUnique x _ degrees u)

pub missing_absent :
    (x : String) (done deps : List String)
    → contains deps x ≡ false
    → missing (x ∷ done) deps ≡ missing done deps
missing_absent x done [] h = refl
missing_absent x done (d ∷ deps) h =
    ground (arith, missing_absent x done deps, eq_iff d x, eq_iff x d)

pub missing_present :
    (x : String) (done deps : List String)
    → contains done x ≡ false
    → IsUnique deps
    → contains deps x ≡ true
    → missing done deps ≡ suc (missing (x ∷ done) deps)
missing_present x done [] w u h = cc
missing_present x done (d ∷ deps) w u h = elim (==-cases d x) [
  | inl (t, e) ↦ ground (arith, missing_absent x done deps, rw e at u.0, e, eq_iff x d, eq_refl x)
  | inr (f, e) ↦ ground (arith, missing_present x done deps, eq_iff x d, eq_iff d x)
]

pub missing-eq-zero_iff :
    (done deps : List String)
    → (missing done deps ≡ 0) ↔ ((d : String) → contains deps d ≡ true → contains done d ≡ true)
missing-eq-zero_iff done [] = (λ _ d h. cc, λ _. refl)
missing-eq-zero_iff done (x ∷ deps) = (
  λ h d m. ground (
    arith,
    (missing-eq-zero_iff done deps).0,
    (missing-eq-zero_iff done deps).0 (ground arith) d,
    eq_iff x d,
  ),
  λ h. ground (
    arith,
    h x (ground (arith, eq_refl x)),
    (missing-eq-zero_iff done deps).1 (λ d m. h d (ground arith)),
  ),
)

pub deps_of-IsUnique :
    (services : Dict Service) (n : String) {svc : Service}
    → HasUniqueDeps services
    → lookup n services ≡ some svc
    → IsUnique (deps_of svc)
unfolding lookup
deps_of-IsUnique [] n u h = cc
deps_of-IsUnique ((m, other) ∷ rest) n u h = elim (==-cases m n) [
  | inl (t, e) ↦
      let same : some other ≡ some _ = rw t at h in subst (λ o. IsUnique (deps_of_found o)) same u.0
  | inr (f, e) ↦ deps_of-IsUnique rest n u.1 (rw f at h)
]
