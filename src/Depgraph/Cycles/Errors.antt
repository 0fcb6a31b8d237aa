-- ===== src/Depgraph/Cycles/Errors.antt =====
-- A visit reports an error only where a node reaches itself.
use nix_compose.Prelude.{
  ℕ, zero, suc, String, List, [], ◌∷◌, ◌≡◌, sym, true, ◌⊎◌, inl, inr, none, some, contains,
  ==-cases, arith, eq_refl,
}
use nix_compose.Prelude.Dict.{Dict, insert}
use nix_compose.Eval.{Service}
use nix_compose.Depgraph.{
  GraphError, Color, white, gray, color_of, Visit, returned, out_of_fuel, visit_deps, blacken,
  dfs_visit, dep_names,
}
use nix_compose.Depgraph.Spec.{Grounded, grounded}
use nix_compose.Depgraph.Cycles.Success.{
  color_of-insert, Color-cases, Visit-cases, VisitKeeps, dfs_visit_keeps,
}

-- A chain of dependencies, of one step at least.
pub data Reaches (services : Dict Service) : String → String → Type 0 where
  edge : {a b : String} → contains (dep_names services a) b ≡ true → Reaches services a b
  via :
      {a b c : String}
      → contains (dep_names services a) b ≡ true
      → Reaches services b c
      → Reaches services a c

extend :
    {services : Dict Service} {a b c : String}
    → Reaches services a b
    → contains (dep_names services b) c ≡ true
    → Reaches services a c
extend (edge h) k = via h (edge k)
extend (via h r) k = via h (extend r k)

no_loop : {services : Dict Service} {n : String} → Grounded services n → Reaches services n n → ⊥
no_loop (grounded below) (edge h) = no_loop (below _ h) (edge h)
no_loop (grounded below) (via h r) = no_loop (below _ h) (extend r h)

module _ (services : Dict Service) (all : (n : String) → Grounded services n) where
  -- The nodes in progress lead to `node`.
  abbrev pub InProgress : Dict Color → String → Type 0
  InProgress colors node = (g : String) → color_of colors g ≡ gray → Reaches services g node

  abbrev pub IsSafe : (String → Dict Color → Visit) → Type 0
  IsSafe visit =
      (node : String) (colors after : Dict Color) (e : GraphError)
      → color_of colors node ≡ white
      → InProgress colors node
      → visit node colors ≡ returned (some e) after
      → ⊥

  module _ (visit : String → Dict Color → Visit) (keeps : VisitKeeps services visit)
      (safe : IsSafe visit) (node : String) where
    visit_deps-IsSafe :
        (deps : List String) (colors after : Dict Color) (e : GraphError)
        → ((d : String) → contains deps d ≡ true → contains (dep_names services node) d ≡ true)
        → ((g : String) → color_of colors g ≡ gray → (g ≡ node) ⊎ Reaches services g node)
        → visit_deps visit node deps colors ≡ returned (some e) after
        → ⊥
    unfolding visit_deps
    visit_deps-IsSafe [] colors after e known open_nodes h = cc
    visit_deps-IsSafe (dep ∷ deps) colors after e known open_nodes h =
        let to_dep = known dep (ground (arith, eq_refl dep)) in
        let later = λ (d : String) (m : contains deps d ≡ true). known d (ground arith) in
        let path = λ (g : String) (c : color_of colors g ≡ gray).
          let r : Reaches services g dep = elim (open_nodes g c) [
            | inl same ↦ rw same (edge to_dep)
            | inr r ↦ extend r to_dep
          ] in
          r in
        elim (Color-cases (color_of colors dep)) [
          | inl w ↦ elim (Visit-cases (visit dep colors)) [
            | inl (mid, q) ↦
                let (k, b) = keeps dep colors mid w q in
                visit_deps-IsSafe deps mid after e later (λ g c. open_nodes g (k.gray_back g c))
                  (ground (arith, w, q))
            | inr (inl (x, mid, q)) ↦ safe dep colors mid x w path q
            | inr (inr q) ↦ ground (arith, w, q)
          ]
          | inr (inl g) ↦ no_loop (all dep) (path dep g)
          | inr (inr b) ↦ visit_deps-IsSafe deps colors after e later open_nodes (ground (arith, b))
        ]

  blacken-eq_error :
      (node : String) (r : Visit) (after : Dict Color) (e : GraphError)
      → blacken node r ≡ returned (some e) after
      → r ≡ returned (some e) after
  unfolding blacken
  blacken-eq_error node (returned none mid) after e h = cc
  blacken-eq_error node (returned (some x) mid) after e h = h
  blacken-eq_error node out_of_fuel after e h = h

  pub dfs_visit-IsSafe : (fuel : ℕ) → IsSafe (dfs_visit fuel services)
  unfolding dfs_visit
  dfs_visit-IsSafe zero node colors after e w path h = cc
  dfs_visit-IsSafe (suc fuel) node colors after e w path h =
      visit_deps-IsSafe (dfs_visit fuel services) (dfs_visit_keeps fuel services)
        (dfs_visit-IsSafe fuel) node (dep_names services node) (insert node gray colors) after e
        (λ d m. m)
        (λ g c. elim (==-cases node g) [
          | inl (t, p) ↦ inl (sym p)
          | inr (f, p) ↦ inr (path g (ground (arith, color_of-insert colors node g gray)))
        ])
        (blacken-eq_error node _ after e h)
