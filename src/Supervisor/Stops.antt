-- ===== src/Supervisor/Stops.antt =====
-- When the loop starts a service again after an exit.
use nix_compose.Prelude.{
  String, ◌≡◌, refl, Bool, ◌==◌, inl, inr, Bool-cases, ==-cases, arith, not, ◌&&◌, ◌||◌,
}
use nix_compose.Prelude.Int.{ℤ, is_zero}
use nix_compose.Supervisor.{should_restart, parse_restart_policy}

-- What the words of the composition ask for.
abbrev pub wants_restart : String → ℤ → Bool → Bool
wants_restart word exit_code stopped =
    (word == "always")
    || (((word == "on-failure") && not (is_zero exit_code))
        || ((word == "unless-stopped") && not stopped))

-- The policy of a service asks for a restart exactly if its word is "always", or "on-failure" and the
-- exit code is not 0, or "unless-stopped" and the supervisor was not stopped.
pub should_restart-parse :
    (word : String) (exit_code : ℤ) (stopped : Bool)
    → should_restart (parse_restart_policy word) exit_code stopped
      ≡ wants_restart word exit_code stopped
unfolding should_restart parse_restart_policy
should_restart-parse word exit_code stopped = elim (==-cases word "always") [
  | inl (t, e) ↦ rw e refl
  | inr (f, n) ↦ elim (==-cases word "on-failure") [
    | inl (t, e) ↦ rw e (ground arith)
    | inr (f', n') ↦ elim (Bool-cases (word == "unless-stopped")) [
      | inl t ↦ rw (f, f', t) refl
      | inr f'' ↦ rw (f, f', f'') refl
    ]
  ]
]
