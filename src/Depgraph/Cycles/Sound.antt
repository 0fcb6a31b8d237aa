-- ===== src/Depgraph/Cycles/Sound.antt =====
-- `Validate`: what it accepts, and that `StartOrder` accepts the same.
use nix_compose.Prelude.{
  String, List, [], ◌∷◌, ◌++◌, ◌≡◌, ◌↔◌, refl, ◌∙◌, true, inl, inr, some, contains, IsUnique,
  ==-cases, Bool-cases, arith, eq_iff, eq_refl,
}
use nix_compose.Prelude.Dict.{Dict, lookup, keys, has, contains-keys}
use nix_compose.Eval.{Service, Composition}
use nix_compose.Depgraph.{
  GraphError, dep_names, deps_of, missing_deps, references_from, validate_references, detect_cycles,
  validate, levels, start_order,
}
use nix_compose.Depgraph.Spec.{Grounded, grounded, IsMap, IsClosed}
use nix_compose.Depgraph.Cycles.Roots.{
  detect_cycles_total, detect_cycles_sound, detect_cycles_complete,
}
use nix_compose.Depgraph.Order.Total.{start_order_succeeds_iff}

all-Grounded :
    (services : Dict Service)
    → ((n : String) → has n services ≡ true → Grounded services n)
    → (n : String) → Grounded services n
all-Grounded services h n = elim (Bool-cases (has n services)) [
  | inl t ↦ h n t
  | inr f ↦ grounded (λ d m. ground arith)
]

-- The depth-first search ends, and finds no error exactly if no cycle can be reached from a service:
-- a dependency that does not exist is no cycle.
pub detect_cycles_iff :
    (services : Dict Service)
    → ((errs : List GraphError) × (detect_cycles services ≡ some errs))
      × ((detect_cycles services ≡ some [])
          ↔ ((n : String) → has n services ≡ true → Grounded services n))
detect_cycles_iff services = (
  detect_cycles_total services,
  (
    λ e n h. detect_cycles_sound services e n (contains-keys services n ∙ h),
    λ h. detect_cycles_complete services (all-Grounded services h),
  ),
)

missing_deps-eq-nil_iff :
    (services : Dict Service) (name : String) (deps : List String)
    → (missing_deps services name deps ≡ [])
      ↔ ((d : String) → contains deps d ≡ true → has d services ≡ true)
unfolding missing_deps
missing_deps-eq-nil_iff services name [] = (λ _ d m. cc, λ _. refl)
missing_deps-eq-nil_iff services name (x ∷ deps) =
    let (to, from) = missing_deps-eq-nil_iff services name deps in
    (
      λ h d m. elim (==-cases x d) [
        | inl (t, e) ↦ rw (← e) (ground arith)
        | inr (f, e) ↦ to (ground arith) d (ground arith)
      ],
      λ h. ground (arith, h x (ground (arith, eq_refl x)), from (λ d m. h d (ground arith))),
    )

append-eq-nil : (xs ys : List GraphError) → xs ++ ys ≡ [] → (xs ≡ []) × (ys ≡ [])
append-eq-nil [] ys h = (refl, h)
append-eq-nil (x ∷ xs) ys h = cc

-- Every entry of the map has its dependencies in the map.
references_from-eq-nil_iff :
    (all rest : Dict Service)
    → IsUnique (keys rest)
    → (references_from all rest ≡ [])
      ↔ ((n d : String) → contains (dep_names rest n) d ≡ true → has d all ≡ true)
unfolding references_from lookup
references_from-eq-nil_iff all [] u = (λ _ n d m. cc, λ _. refl)
references_from-eq-nil_iff all ((m, svc) ∷ rest) u =
    let (to, from) = references_from-eq-nil_iff all rest u.1 in
    let (here, here') = missing_deps-eq-nil_iff all m (deps_of svc) in
    (
      λ h n d k.
          let (first, later) = append-eq-nil (missing_deps all m (deps_of svc)) _ h in
          elim (==-cases m n) [
            | inl (t, e) ↦ here first d (ground arith)
            | inr (f, e) ↦ to later n d (ground arith)
          ],
      λ h.
          let first = here' (λ d k. h m d (ground (arith, eq_refl m))) in
          let later =
            from (λ n d k. h n d (ground (arith, eq_iff m n, contains-keys rest m, u.0))) in
          rw (first, later) refl,
    )

validate-eq-nil_iff :
    (comp : Composition)
    → IsMap comp.services
    → (validate comp ≡ some []) ↔ (
        IsClosed comp.services
        × ((n : String) → has n comp.services ≡ true → Grounded comp.services n))
unfolding validate validate_references
validate-eq-nil_iff comp u =
    let services = comp.services in
    let (errs, e) = detect_cycles_total services in
    let (_, (to, from)) = detect_cycles_iff services in
    let (closed, closed') = references_from-eq-nil_iff services services u.0 in
    (
      λ h.
          let both : references_from services services ++ errs ≡ [] = ground (arith, e) in
          let (refs, none_found) = append-eq-nil (references_from services services) errs both in
          (λ n d _ k. closed refs n d k, to (rw none_found at e)),
      λ (c, g).
          let refs = closed' (λ n d k. c n d (ground arith) k) in ground (arith, from g, refs),
    )

-- `Validate` finds no error exactly if `StartOrder` returns levels: what passes validation can be
-- started, and what cannot be ordered is refused before.
pub validate_iff_start_order :
    (comp : Composition)
    → IsMap comp.services
    → (validate comp ≡ some []) ↔ ((ls : List (List String)) × (start_order comp ≡ levels ls))
validate_iff_start_order comp u =
    let (to, from) = validate-eq-nil_iff comp u in
    let (to', from') = start_order_succeeds_iff comp u in (λ h. from' (to h), λ h. from (to' h))
