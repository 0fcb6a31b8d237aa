-- ===== src/Depgraph/Cycles/Roots.antt =====
-- The loop over the roots: no error exactly if every root is grounded.
use nix_compose.Prelude.{
  ℕ, suc, ◌≤◌, String, List, [], ◌∷◌, ◌≡◌, refl, true, inl, inr, some, length, contains,
  contains-append, ==-cases, arith, eq_refl,
}
use nix_compose.Prelude.Dict.{Dict, lookup, insert, keys}
use nix_compose.Eval.{Service}
use nix_compose.Depgraph.{
  GraphError, Color, white, gray, black, color_of, dfs_visit, deps_of, nodes, visit_roots,
  detect_cycles, all_white,
}
use nix_compose.Depgraph.Spec.{Grounded}
use nix_compose.Depgraph.Cycles.Success.{color_of-insert, Color-cases, Visit-cases, dfs_visit_keeps}
use nix_compose.Depgraph.Cycles.Errors.{dfs_visit-IsSafe}
use nix_compose.Depgraph.Cycles.Fuel.{whites, whites-le, IsUniverse, dfs_visit-Ends}

abbrev NoGray : Dict Color → Type 0
NoGray colors = (g : String) → ¬ (color_of colors g ≡ gray)

abbrev BlackIsSound : Dict Service → Dict Color → Type 0
BlackIsSound services colors = (g : String) → color_of colors g ≡ black → Grounded services g

abbrev pub RootsGrounded : Dict Service → List String → Type 0
RootsGrounded services names = (n : String) → contains names n ≡ true → Grounded services n

RootsGrounded-cons :
    (services : Dict Service) (name : String) (names : List String)
    → Grounded services name
    → RootsGrounded services names
    → RootsGrounded services (name ∷ names)
RootsGrounded-cons services name names g h n m = elim (==-cases name n) [
  | inl (t, e) ↦ rw (← e) g
  | inr (f, e) ↦ h n (ground arith)
]

visit_roots_sound :
    (fuel : ℕ) (services : Dict Service) (names : List String) (colors : Dict Color)
    → NoGray colors
    → BlackIsSound services colors
    → visit_roots fuel services names colors ≡ some []
    → RootsGrounded services names
unfolding visit_roots
visit_roots_sound fuel services [] colors ng bs h = λ n m. cc
visit_roots_sound fuel services (name ∷ names) colors ng bs h =
    elim (Color-cases (color_of colors name)) [
      | inl w ↦ elim (Visit-cases (dfs_visit fuel services name colors)) [
        | inl (after, e) ↦
            let (k, b) = dfs_visit_keeps fuel services name colors after w e in
            let rest : visit_roots fuel services names after ≡ some [] = ground (arith, w, e) in
            RootsGrounded-cons services name names (k.sound bs name b) (
              visit_roots_sound fuel services names after (λ g c. ng g (k.gray_back g c))
                (k.sound bs) rest)
        | inr (inl (x, after, e)) ↦ ground (arith, w, e)
        | inr (inr e) ↦ ground (arith, w, e)
      ]
      | inr (inl g) ↦ absurd (ng name g)
      | inr (inr b) ↦
          RootsGrounded-cons services name names (bs name b)
            (visit_roots_sound fuel services names colors ng bs (ground (arith, b)))
    ]

visit_roots_total :
    (fuel : ℕ) (services : Dict Service) (universe names : List String) (colors : Dict Color)
    → IsUniverse services universe
    → ((n : String) → contains names n ≡ true → contains universe n ≡ true)
    → whites universe colors ≤ fuel
    → (errs : List GraphError) × (visit_roots fuel services names colors ≡ some errs)
unfolding visit_roots
visit_roots_total fuel services universe [] colors u known h = ([], refl)
visit_roots_total fuel services universe (name ∷ names) colors u known h =
    let later = λ (n : String) (m : contains names n ≡ true). known n (ground arith) in
    let skip = visit_roots_total fuel services universe names colors u later h in
    elim (Color-cases (color_of colors name)) [
      | inl w ↦
          let ends =
            dfs_visit-Ends fuel services universe u name colors
              (known name (ground (arith, eq_refl name))) w h in
          elim (Visit-cases (dfs_visit fuel services name colors)) [
            | inl (after, e) ↦
                let (errs, q) =
                  visit_roots_total fuel services universe names after u later
                    (omega (arith, whites-le universe colors after (rw e at ends))) in
                (errs, ground (arith, w, e, q))
            | inr (inl (x, after, e)) ↦
                let (errs, q) =
                  visit_roots_total fuel services universe names after u later
                    (omega (arith, whites-le universe colors after (rw e at ends))) in
                (x ∷ errs, ground (arith, w, e, q))
            | inr (inr e) ↦ absurd (rw e at ends)
          ]
      | inr (inl g) ↦ (skip.0, ground (arith, g, skip.1))
      | inr (inr b) ↦ (skip.0, ground (arith, b, skip.1))
    ]

visit_roots_complete :
    (fuel : ℕ) (services : Dict Service) (names : List String) (colors : Dict Color)
    (errs : List GraphError)
    → ((n : String) → Grounded services n)
    → NoGray colors
    → visit_roots fuel services names colors ≡ some errs
    → errs ≡ []
unfolding visit_roots
visit_roots_complete fuel services [] colors errs all ng h = ground arith
visit_roots_complete fuel services (name ∷ names) colors errs all ng h =
    elim (Color-cases (color_of colors name)) [
      | inl w ↦ elim (Visit-cases (dfs_visit fuel services name colors)) [
        | inl (after, e) ↦
            let (k, b) = dfs_visit_keeps fuel services name colors after w e in
            let rest : visit_roots fuel services names after ≡ some errs = ground (arith, w, e) in
            visit_roots_complete fuel services names after errs all (λ g c. ng g (k.gray_back g c))
              rest
        | inr (inl (x, after, e)) ↦
            absurd
              (dfs_visit-IsSafe services all fuel name colors after x w (λ g c. absurd (ng g c)) e)
        | inr (inr e) ↦ ground (arith, w, e)
      ]
      | inr (inl g) ↦ absurd (ng name g)
      | inr (inr b) ↦
          visit_roots_complete fuel services names colors errs all ng (ground (arith, b))
    ]

color_of-all_white :
    (services : Dict Service) (colors : Dict Color)
    → ((n : String) → color_of colors n ≡ white)
    → (n : String) → color_of (all_white services colors) n ≡ white
unfolding all_white
color_of-all_white [] colors h n = h n
color_of-all_white ((name, _) ∷ rest) colors h n =
    color_of-all_white rest (insert name white colors)
      (λ m. ground (arith, color_of-insert colors name m white, h m)) n

whites-le-length : (ns : List String) (colors : Dict Color) → whites ns colors ≤ length ns
whites-le-length [] colors = omega arith
whites-le-length (n ∷ ns) colors = ground (arith, whites-le-length ns colors)

nodes-IsUniverse : (services : Dict Service) → IsUniverse services (nodes services)
unfolding nodes lookup
nodes-IsUniverse [] n d h = cc
nodes-IsUniverse ((m, svc) ∷ rest) n d h = elim (==-cases m n) [
  | inl (t, e) ↦ ground (arith, contains-append (deps_of svc) (nodes rest) d)
  | inr (f, e) ↦
      ground (arith, contains-append (deps_of svc) (nodes rest) d, nodes-IsUniverse rest n d)
]

keys_in_nodes :
    (services : Dict Service) (n : String)
    → contains (keys services) n ≡ true
    → contains (nodes services) n ≡ true
unfolding nodes
keys_in_nodes [] n h = h
keys_in_nodes ((m, svc) ∷ rest) n h =
    ground (arith, contains-append (deps_of svc) (nodes rest) n, keys_in_nodes rest n)

-- The search ends: the fuel, one more than the number of nodes, is enough.
pub detect_cycles_total :
    (services : Dict Service) → (errs : List GraphError) × (detect_cycles services ≡ some errs)
unfolding detect_cycles
detect_cycles_total services =
    visit_roots_total (suc (length (nodes services))) services (nodes services) (keys services)
      (all_white services []) (nodes-IsUniverse services) (keys_in_nodes services)
      (omega (arith, whites-le-length (nodes services) (all_white services [])))

start_white : (services : Dict Service) (n : String) → color_of (all_white services []) n ≡ white
unfolding lookup
start_white services = color_of-all_white services [] (λ n. refl)

pub detect_cycles_sound :
    (services : Dict Service)
    → detect_cycles services ≡ some []
    → RootsGrounded services (keys services)
unfolding detect_cycles
detect_cycles_sound services h =
    visit_roots_sound (suc (length (nodes services))) services (keys services)
      (all_white services []) (λ g c. cc (start_white services g))
      (λ g c. cc (start_white services g)) h

pub detect_cycles_complete :
    (services : Dict Service)
    → ((n : String) → Grounded services n)
    → detect_cycles services ≡ some []
unfolding detect_cycles
detect_cycles_complete services all =
    let (errs, e) = detect_cycles_total services in
    let none_found : errs ≡ [] =
      visit_roots_complete (suc (length (nodes services))) services (keys services)
        (all_white services []) errs all (λ g c. cc (start_white services g)) e in
    rw none_found at e
