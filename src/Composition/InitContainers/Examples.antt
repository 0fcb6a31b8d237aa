-- ===== src/Composition/InitContainers/Examples.antt =====
-- A service with two init containers, and one that it depends on.
use nix_compose.Prelude.{String, [], ◌∷◌, ◌≡◌, refl, some, none, false}
use nix_compose.Prelude.Dict.{keys, lookup}
use nix_compose.Eval.{Service, InitContainer, NixComposeExtended}
use nix_compose.Samples.{blank, depending_on, with_services, no_command}
use nix_compose.Composition.InitContainers.{init_service, after_init, synthesize_init_containers}

abbrev init_named : String → InitContainer
init_named name = record {
  name = name;
  image = "tools";
  command = no_command;
  environment = [];
  volumes = [];
}

abbrev extended : NixComposeExtended
extended = record {
  service_info = none;
  use_host_store = false;
  nix_store_paths = [];
  profiles = [];
  resources = none;
  probes = none;
  env_from = [];
  init_containers = init_named "migrate" ∷ init_named "seed" ∷ [];
  named_ports = [];
  secret_mounts = [];
  image_drv = "";
}

abbrev web : Service
web = record (depending_on ("db" ∷ [])) { x_nix_compose = some extended }

synthesized_names :
    keys (synthesize_init_containers (with_services (("web", web) ∷ ("db", blank) ∷ []))).services
    ≡ "db" ∷ "web-init-migrate" ∷ "web-init-seed" ∷ "web" ∷ []
unfolding synthesize_init_containers
synthesized_names = refl

synthesized_seed :
    lookup "web-init-seed"
      (synthesize_init_containers (with_services (("web", web) ∷ ("db", blank) ∷ []))).services
    ≡ some (init_service (init_named "seed") (after_init "web-init-migrate"))
unfolding synthesize_init_containers lookup
synthesized_seed = refl
