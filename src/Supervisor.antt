-- ===== src/Supervisor.antt =====
-- pkg/cri/restart.go and pkg/cri/supervisor.go: the supervisor, and the loop that restarts one service. The delays are
-- seconds, and the time that a container ran is nanoseconds. What one round of the loop meets is the parameter `Round`: the answers of the container
-- runtime, the clock, whether the supervisor was stopped, and whether the context was done at each
-- of the places that ask. The rounds are the elements of a list; at its end the loop still runs.
pub mod Backoff
pub mod Stops
mod Examples
use nix_compose.Prelude.{
  ℕ, ◌+◌, ◌*◌, String, List, [], ◌∷◌, Option, none, some, Bool, true, false, ◌==◌, not, ltb,
  if◌then◌else◌,
}
use nix_compose.Prelude.Dict.{Dict, insert}
use nix_compose.Eval.{Service}
use nix_compose.Prelude.Int.{ℤ, pos, negsuc, is_zero}

pub data RestartPolicy : Type 0 where
  restart_no restart_always restart_on_failure restart_unless_stopped : RestartPolicy

pub parse_restart_policy : String → RestartPolicy
parse_restart_policy s =
    if s == "always"
    then restart_always
    else if s == "on-failure"
    then restart_on_failure
    else if s == "unless-stopped"
    then restart_unless_stopped
    else restart_no

pub should_restart : RestartPolicy → ℤ → Bool → Bool
should_restart restart_always exit_code stopped_by_user = true
should_restart restart_on_failure exit_code stopped_by_user = not (is_zero exit_code)
should_restart restart_unless_stopped exit_code stopped_by_user = not stopped_by_user
should_restart restart_no exit_code stopped_by_user = false

pub record ServiceEntry : Type 0 where
  pub svc : Service
  pub policy : RestartPolicy

-- What the mutex guards.
pub record Supervisor : Type 0 where
  pub entries : Dict ServiceEntry
  pub stopped : Bool

abbrev pub new_supervisor : Supervisor
new_supervisor = record { entries = []; stopped = false }

pub register : String → Service → Supervisor → Supervisor
unfolding parse_restart_policy
register name svc s = record s {
  entries = insert name (record { svc = svc; policy = parse_restart_policy svc.restart }) s.entries;
}

pub stop : Supervisor → Supervisor
stop s = record s { stopped = true }

abbrev pub backoff_min : ℕ
backoff_min = 1

abbrev pub backoff_max : ℕ
backoff_max = 60

abbrev pub backoff_reset_threshold : ℕ
backoff_reset_threshold = 30

-- `time.Second`, in nanoseconds.
abbrev pub second : ℕ
second = 1000000000

-- The fields are in the order in which the round asks for them.
pub record Round : Type 0 where
  pub done_at_start : Bool
  pub container : Option String
  pub done_after_lookup : Bool
  pub exit_code : Option ℤ
  pub done_after_wait : Bool
  pub stopped : Bool
  pub done_after_exit : Bool
  pub elapsed : ℕ
  pub done_in_delay : Bool
  pub done_after_delay : Bool
  pub service_up : Bool
  pub done_after_up : Bool

pub data WatchError : Type 0 where
  looking_up waiting restarting : WatchError

-- `waitForExit`: an error, no restart, or a restart and whether the container ran long.
pub data Wait : Type 0 where
  failed : WatchError → Wait
  no_restart : Wait
  restart : (ran_long : Bool) → Wait

abbrev exited : RestartPolicy → Round → Option ℤ → Wait
exited policy r none = if r.done_after_wait then no_restart else failed waiting
exited policy r (some code) =
    if not (should_restart policy code r.stopped)
    then no_restart
    else if r.done_after_exit
    then no_restart
    else restart (ltb (backoff_reset_threshold * second) r.elapsed)

abbrev looked_up : RestartPolicy → Round → Option String → Wait
looked_up policy r none = if r.done_after_lookup then no_restart else failed looking_up
looked_up policy r (some id) = exited policy r r.exit_code

pub wait_for_exit : RestartPolicy → Round → Wait
unfolding should_restart
wait_for_exit policy r = looked_up policy r r.container

-- `backoffAndRestart`: whether the service was started again, and the error.
pub backoff_and_restart : Round → Bool × Option WatchError
backoff_and_restart r =
    if r.done_in_delay
    then (false, none)
    else if r.done_after_delay
    then (false, none)
    else if r.service_up
    then (true, none)
    else if r.done_after_up
    then (false, none)
    else (false, some restarting)

pub next_backoff : ℕ → ℕ
next_backoff backoff =
    let doubled = backoff * 2 in if ltb backoff_max doubled then backoff_max else doubled

pub data Outcome : Type 0 where
  running : Outcome
  returned : Option WatchError → Outcome

-- The delays before the restarts so far, and how the loop ended, if it did.
pub record Watched : Type 0 where
  pub delays : List ℕ
  pub outcome : Outcome

abbrev delayed : ℕ → Watched → Watched
delayed d w = record w { delays = d ∷ w.delays }

abbrev pub after_restart : ℕ → Option WatchError → Watched → Watched
after_restart backoff none later = delayed backoff later
after_restart backoff (some e) later = record { delays = backoff ∷ []; outcome = returned (some e) }

abbrev pub reset : Bool → ℕ → ℕ
reset ran_long backoff = if ran_long then backoff_min else backoff

-- One round, by what waiting for the exit gave; `later` is the rest of the loop from a back-off on.
pub watch_round : Wait → ℕ → Option WatchError → (ℕ → Watched) → Watched
unfolding next_backoff
watch_round (failed e) backoff err later = record { delays = []; outcome = returned (some e) }
watch_round no_restart backoff err later = record { delays = []; outcome = returned none }
watch_round (restart ran_long) backoff err later =
    after_restart (reset ran_long backoff) err (later (next_backoff (reset ran_long backoff)))

-- `watchService` from a back-off on.
pub watch_from : RestartPolicy → ℕ → List Round → Watched
unfolding wait_for_exit backoff_and_restart watch_round
watch_from policy backoff [] = record { delays = []; outcome = running }
watch_from policy backoff (r ∷ rest) =
    if r.done_at_start
    then record { delays = []; outcome = returned none }
    else watch_round (wait_for_exit policy r) backoff (backoff_and_restart r).1
        λ b. watch_from policy b rest

pub watch_service : RestartPolicy → List Round → Watched
unfolding watch_from
watch_service policy rounds = watch_from policy backoff_min rounds
