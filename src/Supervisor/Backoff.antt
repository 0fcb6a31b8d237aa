-- ===== src/Supervisor/Backoff.antt =====
-- The delays of the loop: they double up to a minute, and start again after a long run.
use nix_compose.Prelude.{
  ap, ℕ, zero, suc, ◌*◌, List, [], ◌∷◌, ◌≡◌, refl, Bool, true, false, inl, inr, arith, min,
  if◌then◌else◌, Option, none, some, Bool-cases,
}
use nix_compose.Supervisor.{
  RestartPolicy, Round, Wait, failed, no_restart, restart, wait_for_exit, backoff_and_restart,
  next_backoff, watch_round, watch_from, watch_service, Watched, WatchError,
}

abbrev pub power_of_two : ℕ → ℕ
power_of_two zero = 1
power_of_two (suc n) = power_of_two n * 2

-- The delay behind `n` restarts in a row.
abbrev pub delay_after : ℕ → ℕ
delay_after n = min 60 (power_of_two n)

-- The delays of a row of restarts, by whether the container ran long before each: after a long run
-- the delays start again. `n` is how many restarts the row had before.
abbrev pub schedule : ℕ → List Bool → List ℕ
schedule n [] = []
schedule n (true ∷ longs) = delay_after 0 ∷ schedule 1 longs
schedule n (false ∷ longs) = delay_after n ∷ schedule (suc n) longs

abbrev pub runs_round : Wait → Option WatchError → List Bool → List Bool
runs_round (failed e) err later = []
runs_round no_restart err later = []
runs_round (restart long) none later = long ∷ later
runs_round (restart long) (some e) later = long ∷ []

-- For each round that comes to a restart, whether the container ran long.
abbrev pub long_runs : RestartPolicy → List Round → List Bool
long_runs policy [] = []
long_runs policy (r ∷ rest) =
    let later = long_runs policy rest in
    if r.done_at_start
    then []
    else runs_round (wait_for_exit policy r) (backoff_and_restart r).1 later

next_backoff-delay : (n : ℕ) → next_backoff (delay_after n) ≡ delay_after (suc n)
unfolding next_backoff
next_backoff-delay n = ground arith

delays-watch_round :
    (w : Wait) (n : ℕ) (err : Option WatchError) (later : ℕ → Watched) (longs : List Bool)
    → ((m : ℕ) → (later (delay_after m)).delays ≡ schedule m longs)
    → (watch_round w (delay_after n) err later).delays ≡ schedule n (runs_round w err longs)
unfolding watch_round
delays-watch_round (failed e) n err later longs h = refl
delays-watch_round no_restart n err later longs h = refl
delays-watch_round (restart true) n none later longs h =
    ap (λ ds. delay_after 0 ∷ ds) (rw (next_backoff-delay 0) (h 1))
delays-watch_round (restart true) n (some e) later longs h = refl
delays-watch_round (restart false) n none later longs h =
    ap (λ ds. delay_after n ∷ ds) (rw (next_backoff-delay n) (h (suc n)))
delays-watch_round (restart false) n (some e) later longs h = refl

delays-watch_from :
    (policy : RestartPolicy) (rounds : List Round) (n : ℕ)
    → (watch_from policy (delay_after n) rounds).delays ≡ schedule n (long_runs policy rounds)
unfolding watch_from
delays-watch_from policy [] n = refl
delays-watch_from policy (r ∷ rest) n = elim (Bool-cases r.done_at_start) [
  | inl t ↦ rw t refl
  | inr f ↦ rw f (
      delays-watch_round (wait_for_exit policy r) n (backoff_and_restart r).1
        (λ b. watch_from policy b rest) (long_runs policy rest) (delays-watch_from policy rest))
]

-- The delays of a watched service are 1, 2, 4, 8, 16, 32 and then 60 seconds, and start again with 1
-- at each restart behind a run of more than 30 seconds, and at no other.
pub delays-watch_service :
    (policy : RestartPolicy) (rounds : List Round)
    → (watch_service policy rounds).delays ≡ schedule 0 (long_runs policy rounds)
unfolding watch_service
delays-watch_service policy rounds = delays-watch_from policy rounds 0
