-- ===== src/Health.antt =====
-- pkg/health: choosing a probe (probe.go) and what its results make of a check (monitor.go).
-- Durations are nanoseconds. `time.ParseDuration` is the parameter `parse_duration`; what a probe
-- meets outside (a command's exit code, a status code, a connection) is the parameter `Outside`.
pub mod Resolve
pub mod Run
mod Examples
use nix_compose.Prelude.{
  ℕ, zero, suc, ◌+◌, ◌*◌, String, List, [], ◌∷◌, Option, none, some, Bool, true, false, ◌==◌, ◌&&◌,
  ◌||◌, leb, ltb, if◌then◌else◌,
}
use nix_compose.Prelude.Int.{ℤ, pos, negsuc, is_zero, is_positive, at_least, wrap64}
use nix_compose.Prelude.Dict.{Dict, lookup, insert}
use nix_compose.Eval.{
  Service, Probe, Probes, ProbeExec, ProbeHttpGet, Healthcheck, NixComposeExtended,
}

pub data ProbeType : Type 0 where
  probe_exec probe_http probe_tcp : ProbeType

pub record ProbeConfig : Type 0 where
  pub type : ProbeType
  pub exec_command : List String
  pub http_scheme : String
  pub http_port : ℤ
  pub http_path : String
  pub tcp_port : ℤ
  pub interval : ℤ
  pub timeout : ℤ
  pub initial_delay : ℤ
  pub failure_threshold : ℤ

abbrev second : ℕ
second = 1000000000

abbrev pub default_interval : ℤ
default_interval = pos 10000000000

abbrev pub default_timeout : ℤ
default_timeout = pos 5000000000

abbrev pub default_initial_delay : ℤ
default_initial_delay = pos 0

abbrev pub default_failure_threshold : ℤ
default_failure_threshold = pos 3

pub apply_duration : ℤ → ℤ → ℤ
unfolding wrap64
apply_duration (pos (suc n)) def = wrap64 (suc n * second)
apply_duration seconds def = def

pub apply_threshold : ℤ → ℤ → ℤ
apply_threshold val def = if is_positive val then val else def

-- The fields that every probe of the Kubernetes form has; the type is set by its kind.
pub k8s_times : Probe → ProbeConfig
unfolding apply_duration apply_threshold
k8s_times p = record {
  type = probe_exec;
  exec_command = [];
  http_scheme = "";
  http_port = pos 0;
  http_path = "";
  tcp_port = pos 0;
  interval = apply_duration p.period_seconds default_interval;
  timeout = apply_duration p.timeout_seconds default_timeout;
  initial_delay = apply_duration p.initial_delay_seconds default_initial_delay;
  failure_threshold = apply_threshold p.failure_threshold default_failure_threshold;
}

abbrev or_default : String → String → String
or_default s def = if s == "" then def else s

pub http_probe : Option ProbeHttpGet → ProbeConfig → Option ProbeConfig
http_probe none cfg = none
http_probe (some get) cfg = some (record cfg {
  type = probe_http;
  http_port = get.port;
  http_path = or_default get.path "/";
  http_scheme = or_default get.scheme "http";
})

-- The `switch`: a command, if there is one that is not empty, and else the request.
pub k8s_kind : Option ProbeExec → Option ProbeHttpGet → ProbeConfig → Option ProbeConfig
unfolding http_probe
k8s_kind none get cfg = http_probe get cfg
k8s_kind (some exec) get cfg = elim exec.command [
  | [] ↦ http_probe get cfg
  | c ∷ cs ↦ some (record cfg { type = probe_exec; exec_command = c ∷ cs })
]

pub resolve_k8s_probe : Probe → Option ProbeConfig
unfolding k8s_kind k8s_times
resolve_k8s_probe p = k8s_kind p.exec p.http_get (k8s_times p)

-- The test without its "CMD" or "CMD-SHELL".
pub strip_cmd : List String → List String
strip_cmd [] = []
strip_cmd (c ∷ []) = c ∷ []
strip_cmd (c ∷ d ∷ rest) = if (c == "CMD") || (c == "CMD-SHELL") then d ∷ rest else c ∷ d ∷ rest

abbrev pub probes_of : Option NixComposeExtended → Option Probes
probes_of none = none
probes_of (some x) = x.probes

module _ (parse_duration : String → Option ℤ) where
  abbrev or_parsed : Option ℤ → ℤ → ℤ
  or_parsed none def = def
  or_parsed (some d) def = d

  pub parse_duration_or_default : String → ℤ → ℤ
  parse_duration_or_default s def = if s == "" then def else or_parsed (parse_duration s) def

  pub resolve_compose_healthcheck : Healthcheck → ProbeConfig
  unfolding strip_cmd parse_duration_or_default apply_threshold
  resolve_compose_healthcheck hc = record {
    type = probe_exec;
    exec_command = strip_cmd hc.test.parts;
    http_scheme = "";
    http_port = pos 0;
    http_path = "";
    tcp_port = pos 0;
    interval = parse_duration_or_default hc.interval default_interval;
    timeout = parse_duration_or_default hc.timeout default_timeout;
    initial_delay = parse_duration_or_default hc.start_period default_initial_delay;
    failure_threshold = if is_positive hc.retries then hc.retries else default_failure_threshold;
  }

  pub compose_probe : Option Healthcheck → Option ProbeConfig
  unfolding resolve_compose_healthcheck
  compose_probe none = none
  compose_probe (some hc) = elim hc.test.parts [
    | [] ↦ none
    | c ∷ cs ↦ some (resolve_compose_healthcheck hc)
  ]

  -- Readiness, then liveness, then the health check of the Compose form.
  pub resolve_probes : Option Probe → Option Probe → Option Healthcheck → Option ProbeConfig
  unfolding resolve_k8s_probe compose_probe
  resolve_probes (some readiness) liveness hc = resolve_k8s_probe readiness
  resolve_probes none (some liveness) hc = resolve_k8s_probe liveness
  resolve_probes none none hc = compose_probe hc

  pub resolve_found : Option Probes → Option Healthcheck → Option ProbeConfig
  unfolding resolve_probes
  resolve_found none hc = compose_probe hc
  resolve_found (some p) hc = resolve_probes p.readiness p.liveness hc

  pub resolve_probe : Service → Option ProbeConfig
  unfolding resolve_found
  resolve_probe svc = resolve_found (probes_of svc.x_nix_compose) svc.healthcheck

-- ------------------------------------------------------------------ the monitor

pub data HealthState : Type 0 where
  starting healthy unhealthy : HealthState

-- `ready` is whether the channel is closed.
pub record Check : Type 0 where
  pub container_id : String
  pub pod_ip : String
  pub cfg : ProbeConfig
  pub state : HealthState
  pub failures : ℕ
  pub ready : Bool

abbrev pub new_check : String → String → ProbeConfig → Check
new_check container_id pod_ip cfg = record {
  container_id = container_id;
  pod_ip = pod_ip;
  cfg = cfg;
  state = starting;
  failures = 0;
  ready = false;
}

-- The monitor's map.
pub register : String → String → String → ProbeConfig → Dict Check → Dict Check
register service container_id pod_ip cfg checks =
    insert service (new_check container_id pod_ip cfg) checks

abbrev state_or_starting : Option Check → HealthState
state_or_starting none = starting
state_or_starting (some c) = c.state

-- `Monitor.State`
pub state_of : String → Dict Check → HealthState
state_of service checks = state_or_starting (lookup service checks)

-- What one probe meets outside.
pub record Outside : Type 0 where
  pub exit_code : Option ℤ
  pub status_code : Option ℕ
  pub connects : Bool

abbrev ok_exit : Option ℤ → Bool
ok_exit none = false
ok_exit (some code) = is_zero code

abbrev ok_status : Option ℕ → Bool
ok_status none = false
ok_status (some code) = leb 200 code && ltb code 400

pub run_probe : ProbeType → Outside → Bool
run_probe probe_exec o = ok_exit o.exit_code
run_probe probe_http o = ok_status o.status_code
run_probe probe_tcp o = o.connects

-- One result, under the lock.
pub observe : Bool → Check → Check
observe true c = record c { failures = 0; state = healthy; ready = true }
observe false c = record c {
  failures = c.failures + 1;
  state = if at_least (c.failures + 1) c.cfg.failure_threshold then unhealthy else c.state;
}

-- The rounds of `Monitor.run`, up to the end of the context.
pub run_probes : List Outside → Check → Check
unfolding observe run_probe
run_probes [] c = c
run_probes (o ∷ rest) c = run_probes rest (observe (run_probe c.cfg.type o) c)
