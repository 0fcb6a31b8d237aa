-- ===== src/Depgraph/Order/Total.antt =====
-- When `StartOrder` succeeds, and what its levels promise.
use nix_compose.Prelude.{
  String, List, [], ◌∷◌, ◌≡◌, ◌↔◌, subst, true, false, ◌⊎◌, inl, inr, contains, Bool-cases, arith,
  eq_refl, eq_iff,
}
use nix_compose.Prelude.Dict.{Dict, has}
use nix_compose.Eval.{Service, Composition}
use nix_compose.Depgraph.{Levels, levels, failed, cycle_detected, dep_names, start_order}
use nix_compose.Depgraph.Spec.{
  Grounded, grounded, IsMap, IsClosed, Ready, mark, contains-mark, Schedule,
}
use nix_compose.Depgraph.Order.Rounds.{Ends, start_order-Ends}

Ends-Schedule :
    (services : Dict Service) (r : Levels) (ls : List (List String))
    → r ≡ levels ls
    → Ends services [] [] r
    → Schedule services [] ls
Ends-Schedule services r ls e (inl (ls', e', s)) =
    let same : ls' ≡ ls = cc in subst (Schedule services []) same s
Ends-Schedule services r ls e (inr stuck) = cc (e, stuck.0)

-- When `StartOrder` returns levels, they are the greedy schedule: no level is empty, each is sorted
-- and holds, once each, exactly the services that stand in no earlier level and whose dependencies
-- all do, and behind the last level no service is left. The services are a map: no key twice.
pub start_order-Schedule :
    (comp : Composition) (ls : List (List String))
    → IsMap comp.services
    → start_order comp ≡ levels ls
    → Schedule comp.services [] ls
start_order-Schedule comp ls u e = Ends-Schedule comp.services _ ls e (start_order-Ends comp u)

-- The loop of `StartOrder` ends: it returns levels or the cycle error, on every map of services.
pub start_order_total :
    (comp : Composition)
    → IsMap comp.services
    → ((ls : List (List String)) × (start_order comp ≡ levels ls))
      ⊎ (start_order comp ≡ failed cycle_detected)
start_order_total comp u = elim (start_order-Ends comp u) [
  | inl (ls, e, s) ↦ inl (ls, e)
  | inr stuck ↦ inr stuck.0
]

-- All that is done is a service, and no cycle can be reached from it.
record IsSound (services : Dict Service) (done : List String) : Type 0 where
  service : (n : String) → contains done n ≡ true → has n services ≡ true
  ground_each : (n : String) → contains done n ≡ true → Grounded services n

IsSound-mark :
    (services : Dict Service) (level done : List String)
    → ((n : String) → contains level n ≡ true → Ready services done n)
    → IsSound services done
    → IsSound services (mark level done)
IsSound-mark services level done h s = record {
  service = λ n m. elim (Bool-cases (contains level n)) [
    | inl t ↦ (h n t).service
    | inr f ↦ s.service n (ground (arith, contains-mark level done n))
  ];
  ground_each = λ n m. elim (Bool-cases (contains level n)) [
    | inl t ↦ grounded (λ d k. s.ground_each d ((h n t).backed d k))
    | inr f ↦ s.ground_each n (ground (arith, contains-mark level done n))
  ];
}

-- A schedule shows that the graph is closed and without cycles.
Schedule-sound :
    (services : Dict Service) (done : List String) (ls : List (List String))
    → IsSound services done
    → ((n d : String)
        → contains done n ≡ true
        → contains (dep_names services n) d ≡ true
        → contains done d ≡ true)
    → Schedule services done ls
    → IsClosed services × ((n : String) → has n services ≡ true → Grounded services n)
Schedule-sound services done [] s c h =
    (λ n d m k. s.service d (c n d (h n m) k), λ n m. s.ground_each n (h n m))
Schedule-sound services done (level ∷ ls) s c h =
    Schedule-sound services (mark level done) ls
      (IsSound-mark services level done (λ n. (h.3 n).0) s)
      (λ n d m k. elim (Bool-cases (contains level n)) [
        | inl t ↦ ground (arith, contains-mark level done d, ((h.3 n).0 t).backed d k)
        | inr f ↦ ground (arith, contains-mark level done d, contains-mark level done n, c n d)
      ])
      h.4

-- Some dependency is not done.
undone :
    (services : Dict Service) (done deps : List String)
    → ((d : String) → contains deps d ≡ true → contains done d ≡ true)
      ⊎ ((d : String) × (contains deps d ≡ true) × (contains done d ≡ false))
undone services done [] = inl (λ d h. cc)
undone services done (x ∷ deps) = elim (Bool-cases (contains done x)) [
  | inr f ↦ inr (x, ground (arith, eq_refl x), f)
  | inl t ↦ elim (undone services done deps) [
    | inl all ↦ inl (λ d m. ground (arith, all d, eq_iff x d))
    | inr (d, m, f) ↦ inr (d, ground arith, f)
  ]
]

-- With every dependency a service and no cycle in reach, a service that remains leads to one
-- that is ready.
not_stuck :
    (services : Dict Service) (done : List String) {n : String}
    → IsClosed services
    → ((m : String) → ¬ Ready services done m)
    → Grounded services n
    → has n services ≡ true
    → contains done n ≡ false
    → ⊥
not_stuck services done {n} c no_ready (grounded below) h w =
    elim (undone services done (dep_names services n)) [
      | inl all ↦ no_ready n (record { service = h; waiting = w; backed = all })
      | inr (d, m, f) ↦ not_stuck services done c no_ready (below d m) (c n d h m) f
    ]

-- `StartOrder` succeeds exactly if every dependency of a service is a service and no cycle can be
-- reached from any. So its cycle error also answers a dependency that does not exist.
pub start_order_succeeds_iff :
    (comp : Composition)
    → IsMap comp.services
    → ((ls : List (List String)) × (start_order comp ≡ levels ls)) ↔ (
        IsClosed comp.services
        × ((n : String) → has n comp.services ≡ true → Grounded comp.services n))
start_order_succeeds_iff comp u = (
  λ (ls, e).
      Schedule-sound comp.services [] ls (record { service = λ n m. cc; ground_each = λ n m. cc })
        (λ n d m k. cc) (start_order-Schedule comp ls u e),
  λ (c, g). elim (start_order-Ends comp u) [
    | inl (ls, e, s) ↦ (ls, e)
    | inr (e, (done, stuck)) ↦ absurd (
        not_stuck comp.services done c stuck.none_ready (g stuck.name stuck.service) stuck.service
          stuck.waiting)
  ],
)
