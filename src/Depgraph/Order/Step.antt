-- ===== src/Depgraph/Order/Step.antt =====
-- The invariant of the loop in `StartOrder`, and that a round keeps it.
use nix_compose.Prelude.{
  String, List, [], ◌∷◌, ◌≡◌, ◌↔◌, refl, sym, ◌∙◌, true, false, Option, none, some, inl, inr,
  contains, IsUnique, ==-cases, Bool-cases, Option-cases, arith, if◌then◌else◌, ◌==◌, eq_iff,
  eq_refl,
}
use nix_compose.Prelude.Int.{ℤ, pos, decrement}
use nix_compose.Prelude.Dict.{
  Dict, keys, lookup, delete, lookup-delete, contains-keys, delete-IsUnique,
}
use nix_compose.Eval.{Service, Composition}
use nix_compose.Depgraph.{
  deps_of, dep_names, read_int, ready, decrement_all, remove_level, build_graph,
}
use nix_compose.Depgraph.Spec.{IsMap, Ready, mark}
use nix_compose.Depgraph.Order.Graph.{missing, expected}
use nix_compose.Depgraph.Order.Level.{
  lookup-decrement_all, decrement_all-IsUnique, missing_absent, missing_present,
  missing-eq-zero_iff, deps_of-IsUnique,
}
use nix_compose.Depgraph.Order.Dependents.{dependents_of, contains-dependents, dependents-IsUnique}

-- `degrees` holds the services outside `done`, each with the number of dependencies outside it.
pub record Inv (services : Dict Service) (done : List String) (degrees : Dict ℤ) : Type 0 where
  pub exact : (n : String) → lookup n degrees ≡ expected services done n
  pub unique : IsUnique (keys degrees)
  pub closed :
      (n d : String)
      → contains done n ≡ true
      → contains (dep_names services n) d ≡ true
      → contains done d ≡ true

contains-ready :
    (degrees : Dict ℤ) (n : String)
    → IsUnique (keys degrees)
    → (contains (ready degrees) n ≡ true) ↔ (lookup n degrees ≡ some (pos 0))
unfolding ready lookup
contains-ready [] n u = (λ h. cc, λ h. cc)
contains-ready ((m, deg) ∷ rest) n u =
    let (to, from) = contains-ready rest n u.1 in
    elim (==-cases m n) [
      | inl (t, e) ↦
          let absent : lookup n rest ≡ none = ground (arith, contains-keys rest m, u.0) in
          (λ h. ground arith, λ h. ground arith)
      | inr (f, e) ↦ (λ h. ground arith, λ h. ground arith)
    ]

expected-eq-zero_iff :
    (services : Dict Service) (done : List String) (n : String)
    → (expected services done n ≡ some (pos 0)) ↔ Ready services done n
expected-eq-zero_iff services done n = (
  λ h. elim (Option-cases (lookup n services)) [
    | inl e ↦ ground arith
    | inr (svc, e) ↦
        let zero_missing : missing done (deps_of svc) ≡ 0 = ground arith in
        record {
          service = rw e;
          waiting = ground arith;
          backed = rw e ((missing-eq-zero_iff done (deps_of svc)).0 zero_missing);
        }
  ],
  λ r. elim (Option-cases (lookup n services)) [
    | inl e ↦ cc (e, r.service)
    | inr (svc, e) ↦
        let backed : (d : String) → contains (deps_of svc) d ≡ true → contains done d ≡ true =
          rw (e, dep_names) at r.backed in
        ground (arith, r.waiting, e, (missing-eq-zero_iff done (deps_of svc)).1 backed)
  ],
)

module _ (comp : Composition) (u : IsMap comp.services) where
  -- The loop over a level, at one name.
  abbrev remove_name : String → Dict ℤ → Dict ℤ
  remove_name x degrees = decrement_all (dependents_of (build_graph comp) x) (delete x degrees)

  module _ (done : List String) (degrees : Dict ℤ) (inv : Inv comp.services done degrees)
      (x : String) (r : Ready comp.services done x) where
    not_dependent_self : contains (dep_names comp.services x) x ≡ false
    not_dependent_self = elim (Bool-cases (contains (dep_names comp.services x) x)) [
      | inl t ↦ ground (arith, r.backed x t, r.waiting)
      | inr f ↦ f
    ]

    not_dependent_done :
        (n : String) → contains done n ≡ true → contains (dep_names comp.services n) x ≡ false
    not_dependent_done n h = elim (Bool-cases (contains (dep_names comp.services n) x)) [
      | inl t ↦ ground (arith, inv.closed n x h t, r.waiting)
      | inr f ↦ f
    ]

    -- The entry at `n` once `x` is gone, read from the lists of services.
    abbrev entry_after : String → Option ℤ
    entry_after n =
        if contains (dep_names comp.services n) x
        then some (decrement (read_int (if x == n then none else expected comp.services done n)))
        else if x == n
        then none
        else expected comp.services done n

    lookup-remove_name : (n : String) → lookup n (remove_name x degrees) ≡ entry_after n
    lookup-remove_name n =
        lookup-decrement_all _ (delete x degrees) n (dependents-IsUnique comp u x)
        ∙ (rw (contains-dependents comp u x n, lookup-delete x n degrees, inv.exact n))

    entry_after-some :
        (n : String) (svc : Service)
        → lookup n comp.services ≡ some svc
        → contains done n ≡ false
        → (x == n) ≡ false
        → entry_after n ≡ some (pos (missing (x ∷ done) (deps_of svc)))
    entry_after-some n svc e w f = ground (
      arith,
      e,
      w,
      f,
      missing_present x done (deps_of svc) r.waiting (deps_of-IsUnique comp.services n u.1 e),
      missing_absent x done (deps_of svc),
    )

    entry_after_lem : (n : String) → entry_after n ≡ expected comp.services (x ∷ done) n
    entry_after_lem n = elim (==-cases x n) [
      | inl (t, e) ↦ ground (arith, t, e, not_dependent_self)
      | inr (f, e) ↦ elim (Bool-cases (contains done n)) [
        | inl d ↦ ground (arith, f, d, not_dependent_done n d)
        | inr w ↦ elim (Option-cases (lookup n comp.services)) [
          | inl absent ↦ ground (arith, f, w, absent)
          | inr (svc, found) ↦ entry_after-some n svc found w f ∙ ground (arith, f, w, found)
        ]
      ]
    ]

    remove_name-Inv : Inv comp.services (x ∷ done) (remove_name x degrees)
    remove_name-Inv = record {
      exact = λ n. lookup-remove_name n ∙ entry_after_lem n;
      unique = decrement_all-IsUnique _ _ (delete-IsUnique x degrees inv.unique);
      closed = λ n d h m. elim (==-cases x n) [
        | inl (t, e) ↦ ground (arith, r.backed d (rw (← e) at m))
        | inr (f, e) ↦ ground (arith, inv.closed n d (ground arith) m)
      ];
    }

  -- What is ready stays ready while other names are removed.
  Ready-cons :
      (done : List String) (x y : String)
      → (x == y) ≡ false
      → Ready comp.services done y
      → Ready comp.services (x ∷ done) y
  Ready-cons done x y f r = record {
    service = r.service;
    waiting = ground (arith, r.waiting);
    backed = λ d m. ground (arith, r.backed d m);
  }

  pub remove_level-Inv :
      (level done : List String) (degrees : Dict ℤ)
      → Inv comp.services done degrees
      → IsUnique level
      → ((n : String) → contains level n ≡ true → Ready comp.services done n)
      → Inv comp.services
          (mark level done)
          (remove_level (build_graph comp).dependents level degrees)
  unfolding remove_level
  remove_level-Inv [] done degrees inv v h = inv
  remove_level-Inv (x ∷ level) done degrees inv v h =
      let r = h x (ground (arith, eq_refl x)) in
      remove_level-Inv level (x ∷ done) (remove_name x degrees)
        (remove_name-Inv done degrees inv x r) v.1
        (λ n m. Ready-cons done x n (ground (arith, eq_iff x n, v.0)) (h n (ground arith)))

  -- The level of a round is the set of services that are ready.
  pub contains-ready_iff :
      (done : List String) (degrees : Dict ℤ) (n : String)
      → Inv comp.services done degrees
      → (contains (ready degrees) n ≡ true) ↔ Ready comp.services done n
  contains-ready_iff done degrees n inv =
      let (to, from) = contains-ready degrees n inv.unique in
      let (to', from') = expected-eq-zero_iff comp.services done n in
      (λ h. to' (sym (inv.exact n) ∙ to h), λ r. from (inv.exact n ∙ from' r))

ready-contains-keys :
    (degrees : Dict ℤ) (n : String)
    → contains (keys degrees) n ≡ false
    → contains (ready degrees) n ≡ false
unfolding ready
ready-contains-keys [] n h = refl
ready-contains-keys ((m, deg) ∷ rest) n h = ground (arith, ready-contains-keys rest n)

pub ready-IsUnique : (degrees : Dict ℤ) → IsUnique (keys degrees) → IsUnique (ready degrees)
unfolding ready
ready-IsUnique [] u = tt
ready-IsUnique ((m, deg) ∷ rest) u = ground (arith, ready-IsUnique rest, ready-contains-keys rest m)
