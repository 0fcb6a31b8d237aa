-- ===== src/Composition/InitContainers.antt =====
-- pkg/composition/initcontainers.go: init containers as services of their own. The code also changes
-- the map of dependencies of the composition it is given, which `transformComposition`, its one
-- caller, does not use again.
pub mod Chain
mod Examples
use nix_compose.Prelude.{String, List, [], ◌∷◌, Option, none, some, false}
use nix_compose.Prelude.Text.{◌<>◌}
use nix_compose.Prelude.Dict.{Dict, keys, lookup, insert}
use nix_compose.Prelude.Sort.{sort}
use nix_compose.Eval.{
  Service, Composition, DependsOnEntry, NixComposeExtended, InitContainer, CommandValue,
}

abbrev pub init_service_name : String → String → String
init_service_name service_name init_name = service_name <> "-init-" <> init_name

-- Copies the entries of one map into another.
unfoldable pub insert_all {ℓ} : {V : Type ℓ} → Dict V → Dict V → Dict V
unfolding insert
insert_all [] d = d
insert_all ((name, v) ∷ rest) d = insert_all rest (insert name v d)

-- The dependency on an init container that must have completed.
abbrev pub after_init : String → Dict DependsOnEntry
after_init name = (name, record { condition = "service_completed_successfully" }) ∷ []

-- The service for one init container.
abbrev pub init_service : InitContainer → Dict DependsOnEntry → Service
init_service ic deps = record {
  image = ic.image;
  build = none;
  command = ic.command;
  ports = [];
  environment = ic.environment;
  volumes = ic.volumes;
  tmpfs = [];
  depends_on = record { entries = deps };
  healthcheck = none;
  restart = "no";
  working_dir = "";
  entrypoint = record { parts = [] };
  user = "";
  privileged = false;
  hostname = "";
  network_mode = "";
  networks = record { entries = [] };
  extra_hosts = [];
  profiles = [];
  labels = [];
  stop_signal = "";
  x_nix_compose = none;
}

-- The loop over the init containers of one service, `deps` being what the next one depends on and
-- `prev` the name of the one before.
unfoldable pub init_loop :
    String
    → Dict DependsOnEntry
    → String
    → List InitContainer
    → Dict Service
    → Dict Service × String
unfolding insert
init_loop name deps prev [] services = (services, prev)
init_loop name deps prev (ic ∷ rest) services =
    let init_name = init_service_name name ic.name in
    init_loop name (after_init init_name) init_name rest
      (insert init_name (init_service ic deps) services)

-- The services of the init containers, and the dependency of the main service on the last one.
unfoldable pub synthesize_for_service :
    String → Service → List InitContainer → Dict Service × Dict DependsOnEntry
unfolding init_loop insert_all
synthesize_for_service name svc inits =
    let (services, last) = init_loop name (insert_all svc.depends_on.entries []) "" inits [] in
    (services, after_init last)

abbrev init_containers_of : Option NixComposeExtended → List InitContainer
init_containers_of none = []
init_containers_of (some x) = x.init_containers

-- The service with its dependencies extended.
abbrev pub depending : Service → Dict DependsOnEntry → Service
depending svc deps = record svc {
  depends_on = record { entries = insert_all deps svc.depends_on.entries };
}

-- One round of the loop over the services.
unfoldable pub add_service : String → Service → List InitContainer → Dict Service → Dict Service
unfolding insert synthesize_for_service insert_all
add_service name svc [] done = insert name svc done
add_service name svc (ic ∷ inits) done =
    let (init_services, main_deps) = synthesize_for_service name svc (ic ∷ inits) in
    insert name (depending svc main_deps) (insert_all init_services done)

abbrev add_named : String → Option Service → Dict Service → Dict Service
add_named name none done = done
add_named name (some svc) done = add_service name svc (init_containers_of svc.x_nix_compose) done

unfoldable pub add_services : List String → Dict Service → Dict Service → Dict Service
unfolding add_service lookup
add_services [] services done = done
add_services (name ∷ names) services done =
    add_services names services (add_named name (lookup name services) done)

-- `SynthesizeInitContainers`. The configuration of a MicroVM is left out, as the code does.
unfoldable pub synthesize_init_containers : Composition → Composition
unfolding sort add_services
synthesize_init_containers comp = record {
  services = add_services (sort (keys comp.services)) comp.services [];
  networks = comp.networks;
  volumes = comp.volumes;
  micro_vm = none;
}
