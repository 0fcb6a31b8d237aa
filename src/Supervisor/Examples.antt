-- ===== src/Supervisor/Examples.antt =====
-- A service that fails quickly, then runs long, and the theorems on it.
use nix_compose.Prelude.{ℕ, ◌*◌, List, [], ◌∷◌, ◌≡◌, refl, some, true, false}
use nix_compose.Prelude.Int.{pos}
use nix_compose.Prelude.Dict.{lookup, insert}
use nix_compose.Samples.{blank}
use nix_compose.Supervisor.{
  Supervisor, new_supervisor, register, stop, second, Round, restart_always, restart_on_failure,
  should_restart, parse_restart_policy, watch_service,
}
use nix_compose.Supervisor.Backoff.{schedule, long_runs, delays-watch_service}
use nix_compose.Supervisor.Stops.{wants_restart, should_restart-parse}

program : Unit {0}
unfolding watch_service
program = tt

abbrev ran_for : ℕ → Round
ran_for seconds = record {
  done_at_start = false;
  container = some "c";
  done_after_lookup = false;
  exit_code = some (pos 1);
  done_after_wait = false;
  stopped = true;
  done_after_exit = false;
  elapsed = seconds * second;
  done_in_delay = false;
  done_after_delay = false;
  service_up = true;
  done_after_up = false;
}

abbrev rounds : List Round
rounds = ran_for 1 ∷ ran_for 1 ∷ ran_for 30 ∷ ran_for 31 ∷ ran_for 0 ∷ []

delays : (watch_service restart_on_failure rounds).delays ≡ 1 ∷ 2 ∷ 4 ∷ 1 ∷ 2 ∷ []
unfolding program
delays = refl

delays-watch_service_example :
    (watch_service restart_always rounds).delays ≡ schedule 0 (long_runs restart_always rounds)
delays-watch_service_example = delays-watch_service restart_always rounds

should_restart-parse_example :
    should_restart (parse_restart_policy "always") (pos 0) true
    ≡ wants_restart "always" (pos 0) true
should_restart-parse_example = should_restart-parse "always" (pos 0) true

abbrev registered : Supervisor
registered = stop (register "web" (record blank { restart = "always" }) new_supervisor)

-- `stop` leaves the entries as they are.
registered_policy :
    lookup "web" registered.entries
    ≡ some (record { svc = record blank { restart = "always" }; policy = restart_always })
unfolding stop register lookup insert parse_restart_policy
registered_policy = refl
