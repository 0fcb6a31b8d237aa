-- ===== src/Orchestrate/Conditions.antt =====
-- pkg/orchestrate/conditions.go: what `waitCondition` waits for. The waiting itself asks the container
-- runtime and the probes, and is not modelled.
pub mod Choice
mod Examples
use nix_compose.Prelude.{ℕ, String, List, [], ◌∷◌, Option, none, some, ◌==◌, if◌then◌else◌, ltb}
use nix_compose.Prelude.Dict.{Dict, lookup}
use nix_compose.Orchestrate.Plan.{ConditionMap}

pub data Wait : Type 0 where
  no_wait wait_healthy wait_completed wait_started : Wait

unfoldable pub cond_priority : String → ℕ
cond_priority cond =
    if cond == "healthy"
    then 3
    else if cond == "completed"
    then 2
    else if cond == "started"
    then 1
    else 0

-- The loop over the dependents.
unfoldable pub strictest_from : String → Dict String → String
unfolding cond_priority
strictest_from strictest [] = strictest
strictest_from strictest ((id, cond) ∷ rest) =
    strictest_from (if ltb (cond_priority strictest) (cond_priority cond) then cond else strictest)
      rest

abbrev pub wait_for : String → Wait
wait_for strictest =
    if strictest == "healthy"
    then wait_healthy
    else if strictest == "completed"
    then wait_completed
    else wait_started

abbrev pub wait_on : Option (Dict String) → Wait
unfolding strictest_from
wait_on none = no_wait
wait_on (some deps) = wait_for (strictest_from "" deps)

-- `waitCondition`: which of the waits it calls.
unfoldable pub wait_condition : String → ConditionMap → Wait
unfolding lookup wait_on
wait_condition resource_id conditions = wait_on (lookup resource_id conditions)
