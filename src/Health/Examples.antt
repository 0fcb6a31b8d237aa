-- ===== src/Health/Examples.antt =====
-- Probes and their runs, and the theorems on them.
use nix_compose.Prelude.{ℕ, List, [], ◌∷◌, ◌≡◌, refl, none, some, false, reverse}
use nix_compose.Prelude.Int.{pos, wrap64}
use nix_compose.Eval.{Service}
use nix_compose.Samples.{blank}
use nix_compose.Health.{
  ProbeConfig, probe_exec, unhealthy, new_check, Outside, run_probes, resolve_probe,
  default_interval, default_timeout,
}
use nix_compose.Health.Resolve.{Runs, resolve_probe-Runs}
use nix_compose.Health.Run.{expected_check, run_probes-expected}

program : Unit {0}
unfolding run_probes resolve_probe wrap64
program = tt

abbrev checked : Service
checked = record blank {
  healthcheck = some (record {
    test = record { parts = "CMD" ∷ "true" ∷ [] };
    interval = "";
    timeout = "";
    retries = pos 2;
    start_period = "";
  });
}

abbrev true_probe : ProbeConfig
true_probe = record {
  type = probe_exec;
  exec_command = "true" ∷ [];
  http_scheme = "";
  http_port = pos 0;
  http_path = "";
  tcp_port = pos 0;
  interval = default_interval;
  timeout = default_timeout;
  initial_delay = pos 0;
  failure_threshold = pos 2;
}

resolved : resolve_probe (λ s. none) checked ≡ some true_probe
unfolding program
resolved = refl

abbrev exits : ℕ → Outside
exits n = record { exit_code = some (pos n); status_code = none; connects = false }

-- One success and then two failures.
abbrev newest_first : List Outside
newest_first = exits 1 ∷ exits 1 ∷ exits 0 ∷ []

turns_unhealthy :
    (run_probes (reverse newest_first) (new_check "c" "ip" true_probe)).state ≡ unhealthy
unfolding program
turns_unhealthy = refl

resolve_probe-Runs_example : Runs (resolve_probe (λ s. none) checked)
resolve_probe-Runs_example = resolve_probe-Runs (λ s. none) checked

run_probes-expected_example :
    run_probes (reverse newest_first) (new_check "c" "ip" true_probe)
    ≡ expected_check true_probe "c" "ip" newest_first
run_probes-expected_example = run_probes-expected "c" "ip" true_probe newest_first refl
