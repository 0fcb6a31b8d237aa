-- ===== src/Eval.antt =====
-- pkg/eval/parse.go: the composition that evaluation produces. A nil pointer is `none`, a nil and
-- an empty map or slice are one value (`[]`), as every reader in the package treats them.
use nix_compose.Prelude.{String, Bool, Option, List}
use nix_compose.Prelude.Int.{ℤ}
use nix_compose.Prelude.Dict.{Dict}

-- Handles both string and list form: the parts of the command.
pub record CommandValue : Type 0 where
  pub parts : List String

pub record DependsOnEntry : Type 0 where
  pub condition : String

-- A map from a service's name to the condition on it.
pub record DependsOnValue : Type 0 where
  pub entries : Dict DependsOnEntry

pub record BuildConfig : Type 0 where
  pub context : String
  pub dockerfile : String
  pub args : Dict String
  pub target : String

pub record ServiceNetworkConfig : Type 0 where
  pub aliases : List String

pub record ServiceNetworks : Type 0 where
  pub entries : Dict ServiceNetworkConfig

pub record Healthcheck : Type 0 where
  pub test : CommandValue
  pub interval : String
  pub timeout : String
  pub retries : ℤ
  pub start_period : String

pub record Volume : Type 0 where
  pub driver : String
  pub driver_opts : Dict String
  pub external : Bool

pub record Network : Type 0 where
  pub name : String
  pub driver : String
  pub external : Bool

pub record SecretMount : Type 0 where
  pub source : String
  pub secret_name : String
  pub key : String

pub record ServiceInfo : Type 0 where
  pub default_exec : List String

pub record ResourceSpec : Type 0 where
  pub cpu : String
  pub memory : String

pub record Resources : Type 0 where
  pub limits : Option ResourceSpec
  pub requests : Option ResourceSpec

pub record ProbeHttpGet : Type 0 where
  pub path : String
  pub port : ℤ
  pub scheme : String

pub record ProbeExec : Type 0 where
  pub command : List String

pub record Probe : Type 0 where
  pub http_get : Option ProbeHttpGet
  pub exec : Option ProbeExec
  pub initial_delay_seconds : ℤ
  pub period_seconds : ℤ
  pub timeout_seconds : ℤ
  pub failure_threshold : ℤ

pub record Probes : Type 0 where
  pub liveness : Option Probe
  pub readiness : Option Probe

pub record EnvFromSource : Type 0 where
  pub secret_file : String
  pub sops_file : String
  pub prefix : String

pub record InitContainer : Type 0 where
  pub name : String
  pub image : String
  pub command : CommandValue
  pub environment : Dict String
  pub volumes : List String

pub record NamedPort : Type 0 where
  pub name : String
  pub container_port : ℤ
  pub host_ip : String
  pub host_port : ℤ
  pub protocol : String

pub record NixComposeExtended : Type 0 where
  pub service_info : Option ServiceInfo
  pub use_host_store : Bool
  pub nix_store_paths : List String
  pub profiles : List String
  pub resources : Option Resources
  pub probes : Option Probes
  pub env_from : List EnvFromSource
  pub init_containers : List InitContainer
  pub named_ports : List NamedPort
  pub secret_mounts : List SecretMount
  pub image_drv : String

pub record Service : Type 0 where
  pub image : String
  pub build : Option BuildConfig
  pub command : CommandValue
  pub ports : List String
  pub environment : Dict String
  pub volumes : List String
  pub tmpfs : List String
  pub depends_on : DependsOnValue
  pub healthcheck : Option Healthcheck
  pub restart : String
  pub working_dir : String
  pub entrypoint : CommandValue
  pub user : String
  pub privileged : Bool
  pub hostname : String
  pub network_mode : String
  pub networks : ServiceNetworks
  pub extra_hosts : List String
  pub profiles : List String
  pub labels : Dict String
  pub stop_signal : String
  pub x_nix_compose : Option NixComposeExtended

pub record MicroVmConfig : Type 0 where
  pub kernel : String
  pub root_fs : String
  pub vcpus : ℤ
  pub memory_mb : ℤ
  pub cid : ℤ

pub record Composition : Type 0 where
  pub services : Dict Service
  pub networks : Dict Network
  pub volumes : Dict Volume
  pub micro_vm : Option MicroVmConfig
