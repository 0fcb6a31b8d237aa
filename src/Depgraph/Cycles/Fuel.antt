-- ===== src/Depgraph/Cycles/Fuel.antt =====
-- The search needs at most one unit of fuel for each node.
use nix_compose.Prelude.{
  ℕ, zero, suc, ◌≤◌, ◌<◌, String, List, [], ◌∷◌, ◌≡◌, true, inl, inr, none, some, contains,
  ==-cases, arith, eq_iff, eq_refl,
}
use nix_compose.Prelude.Dict.{Dict, insert}
use nix_compose.Eval.{Service}
use nix_compose.Depgraph.{
  Color, white, gray, black, color_of, Visit, returned, out_of_fuel, visit_deps, blacken, dfs_visit,
  dep_names,
}
use nix_compose.Depgraph.Cycles.Success.{color_of-insert, Color-cases, Visit-cases}

abbrev pub if_white : Color → ℕ → ℕ
if_white white n = suc n
if_white gray n = n
if_white black n = n

-- How many of the names are white.
abbrev pub whites : List String → Dict Color → ℕ
whites [] colors = 0
whites (n ∷ ns) colors = if_white (color_of colors n) (whites ns colors)

-- No node turns white.
abbrev pub NoNewWhite : Dict Color → Dict Color → Type 0
NoNewWhite before after = (g : String) → color_of after g ≡ white → color_of before g ≡ white

pub whites-le :
    (ns : List String) (before after : Dict Color)
    → NoNewWhite before after
    → whites ns after ≤ whites ns before
whites-le [] before after h = omega arith
whites-le (n ∷ ns) before after h = ground (arith, h n, whites-le ns before after h)

whites-lt :
    (ns : List String) (colors : Dict Color) (node : String)
    → contains ns node ≡ true
    → color_of colors node ≡ white
    → whites ns (insert node gray colors) < whites ns colors
whites-lt [] colors node m w = cc
whites-lt (n ∷ ns) colors node m w =
    let later =
      whites-le ns colors (insert node gray colors)
        (λ g e. ground (arith, color_of-insert colors node g gray)) in
    elim (==-cases n node) [
      | inl (t, e) ↦ ground (arith, later, color_of-insert colors node n gray, e, eq_refl node)
      | inr (f, e) ↦ ground (
        arith,
        whites-lt ns colors node (ground arith) w,
        color_of-insert colors node n gray,
        eq_iff node n,
        e,
      )
    ]

-- The visit ends, and turns no node white.
abbrev pub Ends : Dict Color → Visit → Type 0
Ends before (returned err after) = NoNewWhite before after
Ends before out_of_fuel = ⊥

Ends-NoNewWhite : (a b : Dict Color) (r : Visit) → NoNewWhite a b → Ends b r → Ends a r
Ends-NoNewWhite a b (returned err after) h k = λ g e. h g (k g e)
Ends-NoNewWhite a b out_of_fuel h k = k

Ends-blacken :
    (node : String) (colors : Dict Color) (r : Visit) → Ends colors r → Ends colors (blacken node r)
unfolding blacken
Ends-blacken node colors (returned none after) h =
    λ g e. h g (ground (arith, color_of-insert after node g black))
Ends-blacken node colors (returned (some x) after) h = h
Ends-blacken node colors out_of_fuel h = h

module _ (universe : List String) (fuel : ℕ) (visit : String → Dict Color → Visit)
    (ends : (node : String) (colors : Dict Color)
      → contains universe node ≡ true
      → color_of colors node ≡ white
      → whites universe colors ≤ fuel
      → Ends colors (visit node colors))
    (node : String) where
  visit_deps-Ends :
      (deps : List String) (colors : Dict Color)
      → ((d : String) → contains deps d ≡ true → contains universe d ≡ true)
      → whites universe colors ≤ fuel
      → Ends colors (visit_deps visit node deps colors)
  unfolding visit_deps
  visit_deps-Ends [] colors known h = λ g e. e
  visit_deps-Ends (dep ∷ deps) colors known h = elim (Color-cases (color_of colors dep)) [
    | inl w ↦
        let first = ends dep colors (known dep (ground (arith, eq_refl dep))) w h in
        let known' = λ (d : String) (m : contains deps d ≡ true). known d (ground arith) in
        elim (Visit-cases (visit dep colors)) [
          | inl (mid, e) ↦
              let kept : NoNewWhite colors mid = rw e at first in
              rw (w, visit_deps)
                (rw (e, visit_deps)
                  (Ends-NoNewWhite colors mid _ kept (
                    visit_deps-Ends deps mid known'
                      (omega (arith, whites-le universe colors mid kept)))))
          | inr (inl (x, mid, e)) ↦ rw (w, visit_deps) (rw (e, visit_deps) (rw e at first))
          | inr (inr e) ↦ absurd (rw e at first)
        ]
    | inr (inl g) ↦ rw (g, visit_deps) (λ x e. e)
    | inr (inr b) ↦
        rw (b, visit_deps) (visit_deps-Ends deps colors (λ d m. known d (ground arith)) h)
  ]

-- The search stays within the universe of nodes.
abbrev pub IsUniverse : Dict Service → List String → Type 0
IsUniverse services universe =
    (n d : String) → contains (dep_names services n) d ≡ true → contains universe d ≡ true

pub dfs_visit-Ends :
    (fuel : ℕ) (services : Dict Service) (universe : List String)
    → IsUniverse services universe
    → (node : String) (colors : Dict Color) → contains universe node ≡ true
    → color_of colors node ≡ white
    → whites universe colors ≤ fuel
    → Ends colors (dfs_visit fuel services node colors)
unfolding dfs_visit
dfs_visit-Ends zero services universe u node colors m w h =
    absurd (omega (arith, whites-lt universe colors node m w))
dfs_visit-Ends (suc fuel) services universe u node colors m w h =
    Ends-NoNewWhite colors (insert node gray colors) _
      (λ g e. ground (arith, color_of-insert colors node g gray))
      (Ends-blacken node (insert node gray colors) _ (
        visit_deps-Ends universe fuel (dfs_visit fuel services)
          (dfs_visit-Ends fuel services universe u) node (dep_names services node)
          (insert node gray colors) (u node) (omega (arith, whites-lt universe colors node m w))))
