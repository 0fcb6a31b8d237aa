-- ===== src/Depgraph/Examples.antt =====
-- Runs of `pkg/depgraph` on small compositions, and its theorems at them.
use nix_compose.Prelude.{String, List, [], ◌∷◌, ◌≡◌, ◌↔◌, ◌⊎◌, refl, true, some, contains}
use nix_compose.Prelude.Dict.{has}
use nix_compose.Prelude.Sort.{sort}
use nix_compose.Prelude.Dict.{lookup, insert, delete}
use nix_compose.Samples.{depending_on, with_services, shop}
use nix_compose.Depgraph.{
  levels, failed, cycle_detected, cycle_involving, missing_service, GraphError, start_order,
  stop_order, validate, detect_cycles,
}
use nix_compose.Depgraph.Spec.{Grounded, IsMap, IsClosed, Schedule}
use nix_compose.Depgraph.Order.Total.{
  start_order-Schedule, start_order_total, start_order_succeeds_iff,
}
use nix_compose.Depgraph.Order.Stop.{concat, start_order_before, stop_order_after}
use nix_compose.Depgraph.Cycles.Sound.{detect_cycles_iff, validate_iff_start_order}

program : Unit {0}
unfolding start_order stop_order validate detect_cycles sort lookup insert delete
program = tt

start_order-shop : start_order shop ≡ levels (("db" ∷ []) ∷ ("api" ∷ []) ∷ ("web" ∷ []) ∷ [])
unfolding program
start_order-shop = refl

stop_order-shop : stop_order shop ≡ levels (("web" ∷ []) ∷ ("api" ∷ []) ∷ ("db" ∷ []) ∷ [])
unfolding program
stop_order-shop = refl

validate-loop :
    validate (with_services (("a", depending_on ("b" ∷ [])) ∷ ("b", depending_on ("a" ∷ [])) ∷ []))
    ≡ some (cycle_involving "b" "a" ∷ [])
unfolding program
validate-loop = refl

-- A dependency that does not exist: `StartOrder` answers with its cycle error.
dangling :
    let comp = with_services (("a", depending_on ("x" ∷ [])) ∷ []) in
    (validate comp ≡ some (missing_service "a" "x" ∷ []))
    × (start_order comp ≡ failed cycle_detected)
unfolding program
dangling = (refl, refl)

shop-IsMap : IsMap shop.services
shop-IsMap = ((refl, (refl, (refl, tt))), ((refl, (refl, tt)), ((refl, tt), (tt, tt))))

start_order-Schedule_example :
    Schedule shop.services [] (("db" ∷ []) ∷ ("api" ∷ []) ∷ ("web" ∷ []) ∷ [])
start_order-Schedule_example =
    start_order-Schedule shop (("db" ∷ []) ∷ ("api" ∷ []) ∷ ("web" ∷ []) ∷ []) shop-IsMap
      start_order-shop

start_order_total_example :
    ((ls : List (List String)) × (start_order shop ≡ levels ls))
    ⊎ (start_order shop ≡ failed cycle_detected)
start_order_total_example = start_order_total shop shop-IsMap

start_order_succeeds_iff_example : ((ls : List (List String)) × (start_order shop ≡ levels ls)) ↔ (
    IsClosed shop.services × ((n : String) → has n shop.services ≡ true → Grounded shop.services n))
start_order_succeeds_iff_example = start_order_succeeds_iff shop shop-IsMap

start_order_before_example : contains (concat (("db" ∷ []) ∷ ("api" ∷ []) ∷ [])) "api" ≡ true
unfolding lookup
start_order_before_example =
    start_order_before shop (("db" ∷ []) ∷ ("api" ∷ []) ∷ []) [] ("web" ∷ []) "web" "api" shop-IsMap
      start_order-shop refl refl

stop_order_after_example : contains (concat (("api" ∷ []) ∷ ("db" ∷ []) ∷ [])) "db" ≡ true
unfolding lookup
stop_order_after_example =
    stop_order_after shop [] (("api" ∷ []) ∷ ("db" ∷ []) ∷ []) ("web" ∷ []) "web" "db" shop-IsMap
      stop_order-shop refl refl

detect_cycles_iff_example :
    ((errs : List GraphError) × (detect_cycles shop.services ≡ some errs))
    × ((detect_cycles shop.services ≡ some [])
        ↔ ((n : String) → has n shop.services ≡ true → Grounded shop.services n))
detect_cycles_iff_example = detect_cycles_iff shop.services

validate_iff_start_order_example :
    (validate shop ≡ some []) ↔ ((ls : List (List String)) × (start_order shop ≡ levels ls))
validate_iff_start_order_example = validate_iff_start_order shop shop-IsMap
