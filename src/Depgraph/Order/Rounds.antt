-- ===== src/Depgraph/Order/Rounds.antt =====
-- The loop of `StartOrder`: it ends within one round for each service, with a schedule or stuck.
use nix_compose.Prelude.{
  ℕ, zero, suc, ◌<◌, ◌≤◌, String, List, [], ◌∷◌, ◌++◌, ◌≡◌, ◌≢◌, refl, sym, ◌∙◌, true, false, ◌⊎◌,
  ◌↔◌, inl, inr, length, contains, IsUnique, List-cases, arith, eq_refl,
}
use mathlib.Core.List.{append_assoc, append-nil}
use nix_compose.Prelude.Int.{ℤ}
use nix_compose.Prelude.Dict.{Dict, keys, lookup, has, contains-keys, length-keys}
use nix_compose.Prelude.Sort.{sort, sort-IsSorted, sort-IsUnique, contains-sort, IsSorted}
use nix_compose.Eval.{Service, Composition}
use nix_compose.Depgraph.{
  Levels, levels, failed, cycle_detected, no_level, build_graph, ready, rounds, start_order,
}
use nix_compose.Depgraph.Spec.{IsMap, Ready, mark, Schedule}
use nix_compose.Depgraph.Order.Graph.{missing, in_degree_lem, in_degree-IsUnique, missing-nil}
use nix_compose.Depgraph.Order.Level.{missing_present}
use nix_compose.Depgraph.Order.Step.{Inv, remove_level-Inv, contains-ready_iff, ready-IsUnique}

-- A service remains, and none is ready.
pub record IsStuck (services : Dict Service) (done : List String) : Type 0 where
  pub name : String
  pub service : has name services ≡ true
  pub waiting : contains done name ≡ false
  pub none_ready : (n : String) → ¬ Ready services done n

abbrev pub Ends : Dict Service → List String → List (List String) → Levels → Type 0
Ends services done found r =
    ((ls : List (List String)) × (r ≡ levels (found ++ ls)) × Schedule services done ls)
    ⊎ ((r ≡ failed cycle_detected) × ((stuck : List String) × IsStuck services stuck))

missing_mono : (x : String) (done ks : List String) → missing (x ∷ done) ks ≤ missing done ks
missing_mono x done [] = omega arith
missing_mono x done (k ∷ ks) = ground (arith, missing_mono x done ks)

missing-mark-le : (level done ks : List String) → missing (mark level done) ks ≤ missing done ks
missing-mark-le [] done ks = omega arith
missing-mark-le (x ∷ level) done ks =
    omega (arith, missing-mark-le level (x ∷ done) ks, missing_mono x done ks)

no_level_schedule :
    (services : Dict Service) (done : List String) (found : List (List String)) (degrees : Dict ℤ)
    → Inv services done degrees
    → ((n : String) → ¬ Ready services done n)
    → Ends services done found (no_level found degrees)
unfolding lookup
no_level_schedule services done found [] inv h =
    inl ([], rw append-nil, λ n m. ground (arith, inv.exact n))
no_level_schedule services done found ((k, deg) ∷ rest) inv h = inr (
  refl,
  (
    done,
    record {
      name = k;
      service = ground (arith, inv.exact k, eq_refl k);
      waiting = ground (arith, inv.exact k, eq_refl k);
      none_ready = h;
    },
  ),
)

-- What a level of a schedule is.
abbrev IsLevel : Dict Service → List String → List String → Type 0
IsLevel services done level =
    (level ≢ [])
    × IsSorted level
    × IsUnique level
    × ((n : String) → (contains level n ≡ true) ↔ Ready services done n)

Ends-cons :
    (services : Dict Service) (done level : List String) (found : List (List String)) (r : Levels)
    → IsLevel services done level
    → Ends services (mark level done) (found ++ level ∷ []) r
    → Ends services done found r
Ends-cons services done level found r l (inl (ls, e, s)) =
    inl (level ∷ ls, rw append_assoc at e, (l.0, l.1, l.2, l.3, s))
Ends-cons services done level found r l (inr stuck) = inr stuck

module _ (comp : Composition) (u : IsMap comp.services) where
  round-IsLevel :
      (done : List String) (degrees : Dict ℤ) (x : String) (xs : List String)
      → Inv comp.services done degrees
      → sort (ready degrees) ≡ x ∷ xs
      → IsLevel comp.services done (x ∷ xs)
  round-IsLevel done degrees x xs inv e = (
    λ h. cc,
    rw e at (sort-IsSorted (ready degrees)),
    rw e at (sort-IsUnique (ready degrees) (ready-IsUnique degrees inv.unique)),
    λ n.
        let same : contains (x ∷ xs) n ≡ contains (ready degrees) n =
          rw e at (contains-sort (ready degrees) n) in
        let (to, from) = contains-ready_iff comp u done degrees n inv in
        (λ m. to (sym same ∙ m), λ r. same ∙ from r),
  )

  missing-mark-lt :
      (done : List String) (x : String) (xs : List String)
      → Ready comp.services done x
      → missing (mark (x ∷ xs) done) (keys comp.services) < missing done (keys comp.services)
  missing-mark-lt done x xs r = omega (
    arith,
    missing-mark-le xs (x ∷ done) (keys comp.services),
    missing_present x done (keys comp.services) r.waiting u.0
        (contains-keys comp.services x ∙ r.service),
  )

  rounds_end :
      (fuel : ℕ) (done : List String) (degrees : Dict ℤ) (found : List (List String))
      → Inv comp.services done degrees
      → missing done (keys comp.services) < fuel
      → Ends comp.services done found (rounds fuel (build_graph comp).dependents degrees found)
  unfolding rounds
  rounds_end zero done degrees found inv h = elim h [ ]
  rounds_end (suc fuel) done degrees found inv h = elim (List-cases (sort (ready degrees))) [
    | inl e ↦
        rw (e, rounds)
          (no_level_schedule comp.services done found degrees inv (λ n r. ground (
            arith,
            (contains-ready_iff comp u done degrees n inv).1 r,
            contains-sort (ready degrees) n,
            e,
          )))
    | inr (x, xs, e) ↦
        let level = round-IsLevel done degrees x xs inv e in
        let first = (level.3 x).0 (ground (arith, eq_refl x)) in
        rw (e, rounds)
          (Ends-cons comp.services done (x ∷ xs) found _ level (
            rounds_end fuel (mark (x ∷ xs) done) _ _
              (remove_level-Inv comp u (x ∷ xs) done degrees inv level.2 (λ n. (level.3 n).0))
              (omega (arith, missing-mark-lt done x xs first))))
  ]

  Inv-start : Inv comp.services [] (build_graph comp).in_degree
  Inv-start = record {
    exact = in_degree_lem comp u;
    unique = in_degree-IsUnique comp;
    closed = λ n d h m. cc;
  }

  -- The search ends with the greedy schedule, or stuck.
  pub start_order-Ends : Ends comp.services [] [] (start_order comp)
  unfolding start_order
  start_order-Ends =
      rounds_end (suc (length comp.services)) [] _ [] Inv-start
        (omega (arith, missing-nil (keys comp.services), length-keys comp.services))
