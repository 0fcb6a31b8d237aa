-- ===== src/Health/Resolve.antt =====
-- What every resolved probe satisfies. Its interval is not among this: a Compose health check can have
-- one that is not positive.
use nix_compose.Prelude.{
  String, List, [], ◌∷◌, ◌≡◌, ◌≢◌, refl, Option, none, some, true, ◌==◌, inl, inr, Bool-cases,
  arith, if◌then◌else◌,
}
use nix_compose.Prelude.Int.{ℤ, pos, is_positive}
use nix_compose.Eval.{Service, Probe, Probes, ProbeExec, ProbeHttpGet, Healthcheck}
use nix_compose.Health.{
  ProbeType, probe_exec, probe_http, probe_tcp, ProbeConfig, apply_threshold, k8s_times, http_probe,
  k8s_kind, resolve_k8s_probe, strip_cmd, resolve_compose_healthcheck, compose_probe,
  resolve_probes, resolve_found, resolve_probe, probes_of,
}

abbrev pub HasTarget : ProbeType → ProbeConfig → Type 0
HasTarget probe_exec cfg = cfg.exec_command ≢ []
HasTarget probe_http cfg = (cfg.http_path ≢ "") × (cfg.http_scheme ≢ "")
HasTarget probe_tcp cfg = ⊥

-- The threshold is positive; a command is not empty, and a path and a scheme are not. There is no
-- third kind.
abbrev pub IsRunnable : ProbeConfig → Type 0
IsRunnable cfg = (is_positive cfg.failure_threshold ≡ true) × HasTarget cfg.type cfg

-- A probe, if any, is runnable.
abbrev pub Runs : Option ProbeConfig → Type 0
Runs none = Unit
Runs (some cfg) = IsRunnable cfg

apply_threshold-positive :
    (val def : ℤ) → is_positive def ≡ true → is_positive (apply_threshold val def) ≡ true
unfolding apply_threshold
apply_threshold-positive val def h = ground arith

or_default-ne : (s def : String) → def ≢ "" → (if s == "" then def else s) ≢ ""
or_default-ne s def h = elim (Bool-cases (s == "")) [
  | inl t ↦ rw t h
  | inr f ↦ rw f λ e. ground (arith, ap_eq s e)
]
  where
    ap_eq : (s : String) → s ≡ "" → (s == "") ≡ true
    ap_eq s e = rw e refl

http_probe-Runs :
    (get : Option ProbeHttpGet) (cfg : ProbeConfig)
    → is_positive cfg.failure_threshold ≡ true
    → Runs (http_probe get cfg)
unfolding http_probe
http_probe-Runs none cfg h = tt
http_probe-Runs (some get) cfg h =
    (h, (or_default-ne get.path "/" (λ e. cc), or_default-ne get.scheme "http" (λ e. cc)))

k8s_kind-Runs :
    (exec : Option ProbeExec) (get : Option ProbeHttpGet) (cfg : ProbeConfig)
    → is_positive cfg.failure_threshold ≡ true
    → Runs (k8s_kind exec get cfg)
unfolding k8s_kind
k8s_kind-Runs none get cfg h = http_probe-Runs get cfg h
k8s_kind-Runs (some exec) get cfg h = by_command exec.command refl
  where
    by_command :
        (command : List String) → exec.command ≡ command → Runs (k8s_kind (some exec) get cfg)
    by_command [] e = rw e (http_probe-Runs get cfg h)
    by_command (c ∷ cs) e = rw e (h, λ n. cc)

resolve_k8s_probe-Runs : (p : Probe) → Runs (resolve_k8s_probe p)
unfolding resolve_k8s_probe k8s_times
resolve_k8s_probe-Runs p =
    k8s_kind-Runs p.exec p.http_get (k8s_times p)
      (apply_threshold-positive p.failure_threshold (pos 3) refl)

strip_cmd-ne : (c : String) (cs : List String) → strip_cmd (c ∷ cs) ≢ []
unfolding strip_cmd
strip_cmd-ne c [] e = cc
strip_cmd-ne c (d ∷ rest) e = ground arith

module _ (parse_duration : String → Option ℤ) where
  compose_probe-Runs : (hc : Option Healthcheck) → Runs (compose_probe parse_duration hc)
  unfolding compose_probe resolve_compose_healthcheck
  compose_probe-Runs none = tt
  compose_probe-Runs (some hc) = by_parts hc.test.parts refl
    where
      by_parts :
          (parts : List String)
          → hc.test.parts ≡ parts
          → Runs (compose_probe parse_duration (some hc))
      by_parts [] h = rw h tt
      by_parts (c ∷ cs) h =
          rw h (apply_threshold-positive hc.retries (pos 3) refl, rw h (strip_cmd-ne c cs))

  resolve_probes-Runs :
      (readiness liveness : Option Probe) (hc : Option Healthcheck)
      → Runs (resolve_probes parse_duration readiness liveness hc)
  unfolding resolve_probes
  resolve_probes-Runs (some p) liveness hc = resolve_k8s_probe-Runs p
  resolve_probes-Runs none (some p) hc = resolve_k8s_probe-Runs p
  resolve_probes-Runs none none hc = compose_probe-Runs hc

  resolve_found-Runs :
      (p : Option Probes) (hc : Option Healthcheck) → Runs (resolve_found parse_duration p hc)
  unfolding resolve_found
  resolve_found-Runs none hc = compose_probe-Runs hc
  resolve_found-Runs (some p) hc = resolve_probes-Runs p.readiness p.liveness hc

-- A probe that `ResolveProbe` finds for a service has a positive failure threshold, and it executes a
-- command that is not empty, or asks for a path with a scheme, neither of them empty. It is never a
-- TCP probe.
pub resolve_probe-Runs :
    (parse_duration : String → Option ℤ) (svc : Service) → Runs (resolve_probe parse_duration svc)
unfolding resolve_probe
resolve_probe-Runs parse_duration svc =
    resolve_found-Runs parse_duration (probes_of svc.x_nix_compose) svc.healthcheck
