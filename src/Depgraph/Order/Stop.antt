-- ===== src/Depgraph/Order/Stop.antt =====
-- Where a dependency stands in the start order and in the stop order.
use nix_compose.Prelude.{
  String, List, [], ◌∷◌, ◌++◌, ◌≡◌, refl, ◌∙◌, ap, subst, true, ◌||◌, contains, contains-append,
  arith, reverse,
}
use mathlib.Core.List.{reverse-reverse, reverse-append, reverse-cons, reverse_aux, append_assoc}
use nix_compose.Prelude.Dict.{Dict}
use nix_compose.Eval.{Service, Composition}
use nix_compose.Depgraph.{Levels, levels, failed, no_fuel, dep_names, start_order, stop_order}
use nix_compose.Depgraph.Spec.{IsMap, mark, contains-mark, Schedule}
use nix_compose.Depgraph.Order.Total.{start_order-Schedule}

-- The names of all levels.
abbrev pub concat : List (List String) → List String
concat [] = []
concat (level ∷ ls) = level ++ concat ls

contains-concat-reverse_aux :
    (ls acc : List (List String)) (d : String)
    → contains (concat (reverse_aux ls acc)) d ≡ (contains (concat ls) d || contains (concat acc) d)
contains-concat-reverse_aux [] acc d = refl
contains-concat-reverse_aux (level ∷ ls) acc d = ground (
  arith,
  contains-concat-reverse_aux ls (level ∷ acc) d,
  contains-append level (concat ls) d,
  contains-append level (concat acc) d,
)

contains-concat-reverse :
    (ls : List (List String)) (d : String)
    → contains (concat ls) d ≡ true
    → contains (concat (reverse ls)) d ≡ true
contains-concat-reverse ls d h = contains-concat-reverse_aux ls [] d ∙ ground arith

Schedule-before :
    (services : Dict Service) (done : List String) (before after : List (List String))
    (level : List String) (n d : String)
    → Schedule services done (before ++ level ∷ after)
    → contains level n ≡ true
    → contains (dep_names services n) d ≡ true
    → (contains done d || contains (concat before) d) ≡ true
Schedule-before services done [] after level n d s h k = ground (arith, ((s.3 n).0 h).backed d k)
Schedule-before services done (first ∷ before) after level n d s h k = ground (
  arith,
  Schedule-before services (mark first done) before after level n d s.4 h k,
  contains-mark first done d,
  contains-append first (concat before) d,
)

-- In the start order every dependency of a service stands in an earlier level.
pub start_order_before :
    (comp : Composition) (before after : List (List String)) (level : List String) (n d : String)
    → IsMap comp.services
    → start_order comp ≡ levels (before ++ level ∷ after)
    → contains level n ≡ true
    → contains (dep_names comp.services n) d ≡ true
    → contains (concat before) d ≡ true
start_order_before comp before after level n d u e h k =
    Schedule-before comp.services [] before after level n d (start_order-Schedule comp _ u e) h k

stop_order-eq-levels :
    (comp : Composition) (ls : List (List String))
    → stop_order comp ≡ levels ls
    → start_order comp ≡ levels (reverse ls)
unfolding stop_order
stop_order-eq-levels comp ls h = go (start_order comp) refl
  where
    go : (r : Levels) → start_order comp ≡ r → start_order comp ≡ levels (reverse ls)
    go (levels found) e =
        let same : levels (reverse found) ≡ levels ls = rw (e, stop_order) at h in
        let back : reverse found ≡ ls = cc in e ∙ (rw (← back, reverse-reverse))
    go (failed x) e = let bad : failed x ≡ levels ls = rw (e, stop_order) at h in cc
    go no_fuel e = let bad : no_fuel ≡ levels ls = rw (e, stop_order) at h in cc

-- In the stop order every dependency of a service stands in a later level, so that a service stops
-- before what it depends on.
pub stop_order_after :
    (comp : Composition) (before after : List (List String)) (level : List String) (n d : String)
    → IsMap comp.services
    → stop_order comp ≡ levels (before ++ level ∷ after)
    → contains level n ≡ true
    → contains (dep_names comp.services n) d ≡ true
    → contains (concat after) d ≡ true
stop_order_after comp before after level n d u e h k =
    let started = stop_order-eq-levels comp _ e in
    let split : reverse (before ++ level ∷ after) ≡ reverse after ++ level ∷ reverse before =
      reverse-append before (level ∷ after)
      ∙ (ap (λ l. l ++ reverse before) (reverse-cons level after)
          ∙ append_assoc (reverse after) (level ∷ []) (reverse before)) in
    let found =
      start_order_before comp (reverse after) (reverse before) level n d u
        (started ∙ ap levels split) h k in
    subst (λ ls. contains (concat ls) d ≡ true) (reverse-reverse after)
      (contains-concat-reverse (reverse after) d found)
