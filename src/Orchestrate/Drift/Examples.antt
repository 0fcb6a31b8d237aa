-- ===== src/Orchestrate/Drift/Examples.antt =====
-- A running service whose container has stopped, and one that never ran.
use nix_compose.Prelude.{String, [], ◌∷◌, some, true, ◌≡◌, refl}
use nix_compose.Orchestrate.Types.{Rollout, RolloutStatusShort, running, pending, failed}
use nix_compose.Orchestrate.Drift.{Providers, drift_check}

abbrev stopped : Providers
stopped = record {
  has_definition = λ key. true;
  actual = λ r. some (record { short = failed; message = "stopped" });
}

abbrev rollout_of : String → RolloutStatusShort → Rollout
rollout_of id short = record {
  instance_id = id;
  instance_key = "service";
  body = "{}";
  messages = [];
  errors = [];
  status = some (record { short = short; details = "" });
}

web_drifted :
    drift_check stopped (some (rollout_of "web" running ∷ rollout_of "db" pending ∷ []))
    ≡ some (
        record {
          resource_id = "web";
          key = "service";
          expected = running;
          actual = failed;
          reason = "stopped";
        }
        ∷ [])
unfolding drift_check
web_drifted = refl
