-- ===== src/Orchestrate/Conditions/Examples.antt =====
-- A database that one dependent wants healthy.
use nix_compose.Prelude.{[], ◌∷◌, ◌≡◌, refl}
use nix_compose.Orchestrate.Plan.{ConditionMap}
use nix_compose.Orchestrate.Conditions.{wait_condition, wait_healthy, no_wait}

abbrev on_db : ConditionMap
on_db = ("db", ("api", "started") ∷ ("web", "healthy") ∷ ("job", "completed") ∷ []) ∷ []

wait_on_db : wait_condition "db" on_db ≡ wait_healthy
unfolding wait_condition
wait_on_db = refl

wait_on_web : wait_condition "web" on_db ≡ no_wait
unfolding wait_condition
wait_on_web = refl
