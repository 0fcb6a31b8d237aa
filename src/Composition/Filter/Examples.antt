-- ===== src/Composition/Filter/Examples.antt =====
-- A profile that brings in a dependency with a profile of its own.
use nix_compose.Prelude.{String, List, [], ◌∷◌, ◌≡◌, refl, some, true, ◌↔◌}
use nix_compose.Prelude.Dict.{lookup, has}
use nix_compose.Composition.Filter.Enabled.{Enabled, filter_by_profiles-Enabled}
use nix_compose.Eval.{Service, Composition}
use nix_compose.Samples.{blank, depending_on, with_services}
use nix_compose.Depgraph.{validate_references}
use nix_compose.Composition.Filter.{filter_by_profiles}
use nix_compose.Composition.Filter.Closed.{filter_by_profiles-closed}
use nix_compose.Composition.Filter.Fuel.{filter_by_profiles_total}

program : Unit {0}
unfolding filter_by_profiles lookup
program = tt

abbrev with_profile : List String → String → Service
with_profile deps profile = record (depending_on deps) { profiles = profile ∷ [] }

abbrev comp : Composition
comp = with_services (
    ("web", blank)
    ∷ ("debug", with_profile ("db" ∷ "gone" ∷ []) "dev")
    ∷ ("db", with_profile [] "data")
    ∷ ("other", with_profile [] "ops")
    ∷ [])

abbrev dev : Composition
dev = with_services (
    ("web", blank)
    ∷ ("debug", with_profile ("db" ∷ []) "dev")
    ∷ ("db", with_profile [] "data")
    ∷ [])

filter_dev : filter_by_profiles comp ("dev" ∷ []) ≡ some dev
unfolding program
filter_dev = refl

filter_by_profiles-closed_example : validate_references dev.services ≡ []
filter_by_profiles-closed_example = filter_by_profiles-closed comp dev ("dev" ∷ []) filter_dev

filter_by_profiles_total_example :
    (result : Composition) × (filter_by_profiles comp ("dev" ∷ []) ≡ some result)
filter_by_profiles_total_example = filter_by_profiles_total comp ("dev" ∷ [])

filter_by_profiles-Enabled_example :
    (has "db" dev.services ≡ true) ↔ Enabled comp.services ("dev" ∷ []) "db"
filter_by_profiles-Enabled_example =
    filter_by_profiles-Enabled comp dev ("dev" ∷ []) "db" filter_dev
