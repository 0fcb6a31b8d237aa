-- ===== src/Depgraph/Cycles/Success.antt =====
-- A visit that returns no error leaves its node black, and black nodes reach no cycle.
use nix_compose.Prelude.{
  ℕ, zero, suc, String, List, [], ◌∷◌, ◌≡◌, refl, ◌∙◌, true, ◌⊎◌, inl, inr, none, some, contains,
  ==-cases, arith, eq_iff, eq_refl, ◌==◌, if◌then◌else◌, subst,
}
use nix_compose.Prelude.Dict.{Dict, insert, lookup-insert}
use nix_compose.Eval.{Service}
use nix_compose.Depgraph.{
  GraphError, Color, white, gray, black, color_of, Visit, returned, out_of_fuel, visit_deps,
  blacken, dfs_visit, dep_names,
}
use nix_compose.Depgraph.Spec.{Grounded, grounded}

pub color_of-insert :
    (colors : Dict Color) (a b : String) (c : Color)
    → color_of (insert a c colors) b ≡ (if a == b then c else color_of colors b)
color_of-insert colors a b c = ground (arith, lookup-insert a b c colors)

-- What a visit without error keeps.
pub record Keeps (services : Dict Service) (before after : Dict Color) : Type 0 where
  pub gray_back : (g : String) → color_of after g ≡ gray → color_of before g ≡ gray
  pub black_kept : (g : String) → color_of before g ≡ black → color_of after g ≡ black
  pub sound :
      ((g : String) → color_of before g ≡ black → Grounded services g)
      → (g : String) → color_of after g ≡ black
      → Grounded services g

Keeps-refl : (services : Dict Service) (colors : Dict Color) → Keeps services colors colors
Keeps-refl services colors = record { gray_back = λ g h. h; black_kept = λ g h. h; sound = λ s. s }

Keeps-trans :
    (services : Dict Service) (a b c : Dict Color)
    → Keeps services a b
    → Keeps services b c
    → Keeps services a c
Keeps-trans services a b c h k = record {
  gray_back = λ g e. h.gray_back g (k.gray_back g e);
  black_kept = λ g e. k.black_kept g (h.black_kept g e);
  sound = λ s. k.sound (h.sound s);
}

pub Color-cases : (c : Color) → (c ≡ white) ⊎ ((c ≡ gray) ⊎ (c ≡ black))
Color-cases white = inl refl
Color-cases gray = inr (inl refl)
Color-cases black = inr (inr refl)

pub Visit-cases :
    (r : Visit)
    → ((after : Dict Color) × (r ≡ returned none after))
      ⊎ (((e : GraphError) × (after : Dict Color) × (r ≡ returned (some e) after))
          ⊎ (r ≡ out_of_fuel))
Visit-cases (returned none after) = inl (after, refl)
Visit-cases (returned (some e) after) = inr (inl (e, after, refl))
Visit-cases out_of_fuel = inr (inr refl)

abbrev pub VisitKeeps : Dict Service → (String → Dict Color → Visit) → Type 0
VisitKeeps services visit =
    (node : String) (colors after : Dict Color)
    → color_of colors node ≡ white
    → visit node colors ≡ returned none after
    → Keeps services colors after × (color_of after node ≡ black)

module _ (services : Dict Service) (visit : String → Dict Color → Visit)
    (keeps : VisitKeeps services visit) (node : String) where
  abbrev Blackens : List String → Dict Color → Dict Color → Type 0
  Blackens deps colors after =
      Keeps services colors after
      × ((d : String) → contains deps d ≡ true → color_of after d ≡ black)

  Blackens-cons :
      (dep : String) (deps : List String) (a b c : Dict Color)
      → Keeps services a b
      → color_of b dep ≡ black
      → Blackens deps b c
      → Blackens (dep ∷ deps) a c
  Blackens-cons dep deps a b c k black_dep (k', all) = (
    Keeps-trans services a b c k k',
    λ d m. elim (==-cases dep d) [
      | inl (t, e) ↦ rw (← e) (k'.black_kept dep black_dep)
      | inr (f, e) ↦ all d (ground arith)
    ],
  )

  visit_deps-Blackens :
      (deps : List String) (colors after : Dict Color)
      → visit_deps visit node deps colors ≡ returned none after
      → Blackens deps colors after
  unfolding visit_deps
  visit_deps-Blackens [] colors after h =
      let same : colors ≡ after = cc in
      (subst (Keeps services colors) same (Keeps-refl services colors), λ d m. cc)
  visit_deps-Blackens (dep ∷ deps) colors after h = elim (Color-cases (color_of colors dep)) [
    | inl w ↦ elim (Visit-cases (visit dep colors)) [
      | inl (mid, e) ↦
          let (k, b) = keeps dep colors mid w e in
          Blackens-cons dep deps colors mid after k b
            (visit_deps-Blackens deps mid after (ground (arith, w, e)))
      | inr (inl (x, mid, e)) ↦ ground (arith, w, e)
      | inr (inr e) ↦ ground (arith, w, e)
    ]
    | inr (inl g) ↦ ground (arith, g)
    | inr (inr b) ↦
        Blackens-cons dep deps colors colors after (Keeps-refl services colors) b
          (visit_deps-Blackens deps colors after (ground (arith, b)))
  ]

  -- The color of `node` goes from white to gray and to black.
  Keeps-blacken :
      (colors mid : Dict Color)
      → color_of colors node ≡ white
      → Blackens (dep_names services node) (insert node gray colors) mid
      → Keeps services colors (insert node black mid)
  Keeps-blacken colors mid w (k, all) = record {
    gray_back = λ g e. ground (
      arith,
      color_of-insert mid node g black,
      color_of-insert colors node g gray,
      k.gray_back g,
    );
    black_kept = λ g e. ground (
      arith,
      color_of-insert mid node g black,
      color_of-insert colors node g gray,
      k.black_kept g,
      eq_iff node g,
    );
    sound = λ s g e.
        let below = k.sound (λ x b. s x (ground (arith, color_of-insert colors node x gray))) in
        elim (==-cases node g) [
          | inl (t, p) ↦ rw (← p) (grounded (λ d m. below d (all d m)))
          | inr (f, p) ↦ below g (ground (arith, color_of-insert mid node g black))
        ];
  }

pub blacken-eq :
    (node : String) (r : Visit) (after : Dict Color)
    → blacken node r ≡ returned none after
    → (mid : Dict Color) × (r ≡ returned none mid) × (insert node black mid ≡ after)
unfolding blacken
blacken-eq node (returned none mid) after h = (mid, refl, cc)
blacken-eq node (returned (some e) mid) after h = cc
blacken-eq node out_of_fuel after h = cc

pub dfs_visit_keeps :
    (fuel : ℕ) (services : Dict Service) → VisitKeeps services (dfs_visit fuel services)
unfolding dfs_visit
dfs_visit_keeps zero services node colors after w h = cc
dfs_visit_keeps (suc fuel) services node colors after w h =
    let (mid, e, same) = blacken-eq node _ after h in
    let blackens =
      visit_deps-Blackens services (dfs_visit fuel services) (dfs_visit_keeps fuel services) node
        (dep_names services node) (insert node gray colors) mid e in
    (
      subst (Keeps services colors) same (
          Keeps-blacken services (dfs_visit fuel services) (dfs_visit_keeps fuel services) node
            colors mid w blackens),
      rw (← same) (color_of-insert mid node node black ∙ (rw (eq_refl node))),
    )
