-- ===== src/Depgraph.antt =====
-- pkg/depgraph: `Validate` (depgraph.go), `StartOrder` and `StopOrder` (order.go).
pub mod Spec
pub mod Order
pub mod Cycles
mod Examples
use nix_compose.Prelude.{
  ℕ, zero, suc, ◌+◌, String, List, [], ◌∷◌, ◌++◌, Option, none, some, Bool, length, if◌then◌else◌,
  reverse,
}
use nix_compose.Prelude.Int.{ℤ, pos, increment, decrement, is_zero}
use nix_compose.Prelude.Dict.{Dict, keys, lookup, insert, delete, has}
use nix_compose.Prelude.Sort.{sort}
use nix_compose.Eval.{Service, Composition}

-- The three messages that the package builds.
pub data GraphError : Type 0 where
  missing_service : (name dep : String) → GraphError
  cycle_involving : (node dep : String) → GraphError
  cycle_detected : GraphError

-- The targets of `depends_on`.
abbrev pub deps_of : Service → List String
deps_of svc = keys svc.depends_on.entries

-- `services[name].DependsOn.Entries`, where a missing key reads as a service with none.
abbrev pub deps_of_found : Option Service → List String
deps_of_found none = []
deps_of_found (some svc) = deps_of svc

abbrev pub dep_names : Dict Service → String → List String
dep_names services name = deps_of_found (lookup name services)

-- ------------------------------------------------------------------ references

unfoldable pub missing_deps : Dict Service → String → List String → List GraphError
missing_deps services name [] = []
missing_deps services name (dep ∷ deps) =
    let rest = missing_deps services name deps in
    if has dep services then rest else missing_service name dep ∷ rest

unfoldable pub references_from : Dict Service → Dict Service → List GraphError
references_from all [] = []
references_from all ((name, svc) ∷ rest) =
    missing_deps all name (deps_of svc) ++ references_from all rest

unfoldable pub validate_references : Dict Service → List GraphError
unfolding references_from missing_deps
validate_references services = references_from services services

-- ------------------------------------------------------------------ depth-first search

pub data Color : Type 0 where
  white gray black : Color

abbrev read_color : Option Color → Color
read_color none = white
read_color (some c) = c

-- `colors[name]`; a missing key reads as the zero value, white.
abbrev pub color_of : Dict Color → String → Color
color_of colors name = read_color (lookup name colors)

-- What a visit leaves: its error, if any, and the colors. The recursion takes fuel.
pub data Visit : Type 0 where
  returned : (err : Option GraphError) (colors : Dict Color) → Visit
  out_of_fuel : Visit

-- The loop over the dependencies of `node`. `visit` is the recursive call.
pub visit_deps : (String → Dict Color → Visit) → String → List String → Dict Color → Visit
visit_deps visit node [] colors = returned none colors
visit_deps visit node (dep ∷ deps) colors = elim (color_of colors dep) [
  | gray ↦ returned (some (cycle_involving node dep)) colors
  | white ↦ elim (visit dep colors) [
    | returned none after ↦ visit_deps visit node deps after
    | returned (some e) after ↦ returned (some e) after
    | out_of_fuel ↦ out_of_fuel
  ]
  | black ↦ visit_deps visit node deps colors
]

pub blacken : String → Visit → Visit
blacken node (returned none colors) = returned none (insert node black colors)
blacken node other = other

pub dfs_visit : ℕ → Dict Service → String → Dict Color → Visit
unfolding visit_deps blacken
dfs_visit zero services node colors = out_of_fuel
dfs_visit (suc fuel) services node colors =
    blacken node (
      visit_deps (dfs_visit fuel services) node (dep_names services node) (insert node gray colors))

pub all_white : Dict Service → Dict Color → Dict Color
all_white [] colors = colors
all_white ((name, _) ∷ rest) colors = all_white rest (insert name white colors)

abbrev cons_error : Option GraphError → List GraphError → List GraphError
cons_error none errs = errs
cons_error (some e) errs = e ∷ errs

-- The loop of `detectCycles` over the roots; `none` if a visit ran out of fuel.
pub visit_roots : ℕ → Dict Service → List String → Dict Color → Option (List GraphError)
visit_roots fuel services [] colors = some []
visit_roots fuel services (name ∷ names) colors = elim (color_of colors name) [
  | white ↦ elim (dfs_visit fuel services name colors) [
    | returned err after ↦ elim (visit_roots fuel services names after) [
      | none ↦ none
      | some errs ↦ some (cons_error err errs)
    ]
    | out_of_fuel ↦ none
  ]
  | gray ↦ visit_roots fuel services names colors
  | black ↦ visit_roots fuel services names colors
]

-- Every name that a search can meet.
pub nodes : Dict Service → List String
nodes [] = []
nodes ((name, svc) ∷ rest) = name ∷ deps_of svc ++ nodes rest

pub detect_cycles : Dict Service → Option (List GraphError)
unfolding visit_roots dfs_visit all_white nodes
detect_cycles services =
    visit_roots (suc (length (nodes services))) services (keys services) (all_white services [])

pub validate : Composition → Option (List GraphError)
unfolding validate_references detect_cycles
validate comp = elim (detect_cycles comp.services) [
  | none ↦ none
  | some cycles ↦ some (validate_references comp.services ++ cycles)
]

-- ------------------------------------------------------------------ levels

pub record Graph : Type 0 where
  pub in_degree : Dict ℤ
  pub dependents : Dict (List String)

abbrev pub read_int : Option ℤ → ℤ
read_int none = pos 0
read_int (some i) = i

abbrev pub read_list : Option (List String) → List String
read_list none = []
read_list (some l) = l

pub zero_degrees : Dict Service → Dict ℤ → Dict ℤ
zero_degrees [] degrees = degrees
zero_degrees ((name, _) ∷ rest) degrees = zero_degrees rest (insert name (pos 0) degrees)

pub add_dep : String → Graph → String → Graph
add_dep name g dep = record {
  in_degree = insert name (increment (read_int (lookup name g.in_degree))) g.in_degree;
  dependents = insert dep (read_list (lookup dep g.dependents) ++ name ∷ []) g.dependents;
}

pub add_deps : String → Graph → List String → Graph
unfolding add_dep
add_deps name g [] = g
add_deps name g (dep ∷ deps) = add_deps name (add_dep name g dep) deps

pub add_services : Graph → Dict Service → Graph
unfolding add_deps
add_services g [] = g
add_services g ((name, svc) ∷ rest) = add_services (add_deps name g (deps_of svc)) rest

pub build_graph : Composition → Graph
unfolding zero_degrees add_services
build_graph comp =
    add_services (record { in_degree = zero_degrees comp.services []; dependents = [] })
      comp.services

-- The names whose degree is 0.
pub ready : Dict ℤ → List String
ready [] = []
ready ((name, deg) ∷ rest) = let later = ready rest in if is_zero deg then name ∷ later else later

pub decrement_all : List String → Dict ℤ → Dict ℤ
decrement_all [] degrees = degrees
decrement_all (dep ∷ deps) degrees =
    decrement_all deps (insert dep (decrement (read_int (lookup dep degrees))) degrees)

-- The loop over one level.
pub remove_level : Dict (List String) → List String → Dict ℤ → Dict ℤ
unfolding decrement_all
remove_level dependents [] degrees = degrees
remove_level dependents (name ∷ names) degrees =
    remove_level dependents names
      (decrement_all (read_list (lookup name dependents)) (delete name degrees))

pub data Levels : Type 0 where
  levels : List (List String) → Levels
  failed : GraphError → Levels
  no_fuel : Levels

abbrev pub no_level : List (List String) → Dict ℤ → Levels
no_level found [] = levels found
no_level found (_ ∷ _) = failed cycle_detected

-- The `for` loop. A round with a level removes at least one entry of `degrees`.
pub rounds : ℕ → Dict (List String) → Dict ℤ → List (List String) → Levels
unfolding ready remove_level
rounds zero dependents degrees found = no_fuel
rounds (suc fuel) dependents degrees found = elim (sort (ready degrees)) [
  | [] ↦ no_level found degrees
  | name ∷ names ↦
      rounds fuel dependents (remove_level dependents (name ∷ names) degrees)
        (found ++ (name ∷ names) ∷ [])
]

pub start_order : Composition → Levels
unfolding rounds build_graph
start_order comp =
    let g = build_graph comp in rounds (suc (length comp.services)) g.dependents g.in_degree []

pub stop_order : Composition → Levels
unfolding start_order
stop_order comp = elim (start_order comp) [
  | levels ls ↦ levels (reverse ls)
  | failed e ↦ failed e
  | no_fuel ↦ no_fuel
]
