-- ===== src/Health/Run.antt =====
-- What a run of probes leaves of a check, read off its results.
use nix_compose.Prelude.{
  ℕ, zero, suc, ◌+◌, String, List, [], ◌∷◌, ◌++◌, ◌≡◌, refl, ◌∙◌, Bool, true, false, ◌||◌, inl, inr,
  Bool-cases, arith, reverse, if◌then◌else◌,
}
use mathlib.Core.List.{reverse-cons}
use nix_compose.Prelude.Int.{ℤ, pos, negsuc, is_positive, at_least}
use nix_compose.Health.{
  ProbeConfig, HealthState, starting, healthy, unhealthy, Check, new_check, Outside, run_probe,
  observe, run_probes,
}

module _ (cfg : ProbeConfig) where
  abbrev ok : Outside → Bool
  ok o = run_probe cfg.type o

  -- The failures since the last success; the results are listed newest first.
  abbrev pub streak : List Outside → ℕ
  streak [] = 0
  streak (o ∷ older) = let n = streak older in if ok o then 0 else n + 1

  abbrev pub any_success : List Outside → Bool
  any_success [] = false
  any_success (o ∷ older) = ok o || any_success older

  -- Unhealthy once the streak has the threshold's length, and else healthy if any probe succeeded.
  abbrev pub expected_state : List Outside → HealthState
  expected_state results =
      if at_least (streak results) cfg.failure_threshold
      then unhealthy
      else if any_success results
      then healthy
      else starting

  abbrev pub expected_check : String → String → List Outside → Check
  expected_check container_id pod_ip results = record {
    container_id = container_id;
    pod_ip = pod_ip;
    cfg = cfg;
    state = expected_state results;
    failures = streak results;
    ready = any_success results;
  }

run_probes-snoc :
    (os : List Outside) (o : Outside) (c : Check)
    → run_probes (os ++ o ∷ []) c
      ≡ observe (run_probe (run_probes os c).cfg.type o) (run_probes os c)
unfolding run_probes
run_probes-snoc [] o c = refl
run_probes-snoc (x ∷ os) o c = run_probes-snoc os o _

at_least_zero : (t : ℤ) → is_positive t ≡ true → at_least 0 t ≡ false
at_least_zero (pos zero) h = cc
at_least_zero (pos (suc n)) h = ground arith
at_least_zero (negsuc n) h = cc

at_least_suc : (n : ℕ) (t : ℤ) → at_least n t ≡ true → at_least (n + 1) t ≡ true
at_least_suc n (pos m) h = ground arith
at_least_suc n (negsuc m) h = refl

module _ (container_id pod_ip : String) (cfg : ProbeConfig) where
  observe-expected :
      (o : Outside) (older : List Outside)
      → is_positive cfg.failure_threshold ≡ true
      → observe (run_probe cfg.type o) (expected_check cfg container_id pod_ip older)
        ≡ expected_check cfg container_id pod_ip (o ∷ older)
  unfolding observe
  observe-expected o older h = by_result (run_probe cfg.type o) refl
    where
      by_result :
          (b : Bool)
          → run_probe cfg.type o ≡ b
          → observe (run_probe cfg.type o) (expected_check cfg container_id pod_ip older)
            ≡ expected_check cfg container_id pod_ip (o ∷ older)
      by_result true e = rw e (rw (at_least_zero cfg.failure_threshold h) refl)
      by_result false e = elim (Bool-cases (at_least (streak cfg older) cfg.failure_threshold)) [
        | inl t ↦ rw e (rw (t, at_least_suc (streak cfg older) cfg.failure_threshold t) refl)
        | inr f ↦ rw e (rw f refl)
      ]

  -- A check with a positive threshold, after any results of its probes: it is unhealthy exactly while
  -- the last results are as many failures as the threshold or more, and else healthy if any probe
  -- succeeded, and starting if none did; the failures since the last success are counted, and who
  -- waits for health is released with the first success for good.
  pub run_probes-expected :
      (newest_first : List Outside)
      → is_positive cfg.failure_threshold ≡ true
      → run_probes (reverse newest_first) (new_check container_id pod_ip cfg)
        ≡ expected_check cfg container_id pod_ip newest_first
  unfolding run_probes
  run_probes-expected [] h = rw (at_least_zero cfg.failure_threshold h) refl
  run_probes-expected (o ∷ older) h = rw (reverse-cons o older) (
      run_probes-snoc (reverse older) o (new_check container_id pod_ip cfg)
      ∙ (rw (run_probes-expected older h) (observe-expected o older h)))
