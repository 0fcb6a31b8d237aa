-- ===== src/Samples.antt =====
-- Small compositions for the tests.
use nix_compose.Prelude.{String, List, [], ◌∷◌, false, none}
use nix_compose.Prelude.Dict.{Dict}
use nix_compose.Eval.{Service, Composition, DependsOnEntry, CommandValue}

abbrev pub no_command : CommandValue
no_command = record { parts = [] }

-- A service that sets nothing.
abbrev pub blank : Service
blank = record {
  image = "";
  build = none;
  command = no_command;
  ports = [];
  environment = [];
  volumes = [];
  tmpfs = [];
  depends_on = record { entries = [] };
  healthcheck = none;
  restart = "";
  working_dir = "";
  entrypoint = no_command;
  user = "";
  privileged = false;
  hostname = "";
  network_mode = "";
  networks = record { entries = [] };
  extra_hosts = [];
  profiles = [];
  labels = [];
  stop_signal = "";
  x_nix_compose = none;
}

abbrev pub entries_for : List String → Dict DependsOnEntry
entries_for [] = []
entries_for (d ∷ ds) = (d, record { condition = "service_started" }) ∷ entries_for ds

abbrev pub depending_on : List String → Service
depending_on ds = record blank { depends_on = record { entries = entries_for ds } }

abbrev pub with_services : Dict Service → Composition
with_services services = record {
  services = services;
  networks = [];
  volumes = [];
  micro_vm = none;
}

-- `web` needs `api` and `db`, and `api` needs `db`.
abbrev pub shop : Composition
shop = with_services (
    ("web", depending_on ("api" ∷ "db" ∷ []))
    ∷ ("api", depending_on ("db" ∷ []))
    ∷ ("db", blank)
    ∷ [])
