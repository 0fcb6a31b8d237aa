-- ===== src/Orchestrate/Convert.antt =====
-- pkg/orchestrate/convert/convert.go: a composition as manifests and the edges between them, with the
-- specs of pkg/orchestrate/resources. The first bytes of the SHA-256 digest of a service's JSON, in
-- hexadecimal, are the parameter `digest`; `lower` is that of ImageRef.
pub mod Bridge
pub mod Repeats
mod Examples
use nix_compose.Prelude.{
  String, List, [], ◌∷◌, ◌++◌, Option, none, some, Bool, true, false, not, if◌then◌else◌, ◌==◌,
  ◌&&◌, ◌||◌, contains,
}
use nix_compose.Prelude.Text.{◌<>◌, chars, of_chars, has_prefix, cut_at, same_char}
use nix_compose.Prelude.Int.{ℤ, show_int, is_zero}
use nix_compose.Prelude.Dict.{Dict, keys, lookup, insert}
use nix_compose.Prelude.Sort.{sort}
use nix_compose.Eval.{
  CommandValue, Volume, Healthcheck, Service, NamedPort, NixComposeExtended, Composition,
  DependsOnEntry,
}
use nix_compose.Orchestrate.Types.{Reference}
use nix_compose.Cri.ImageRef.{resolved_image_ref}
use Prim.Native.Char.{Char}
use Prim.Native.String.{char_at}

abbrev pub api_version : String
api_version = "cri.orchestrator.io/v1"

-- The keys of resources/keys.go.
abbrev pub project_key : String
project_key = "cri.orchestrator.io/v1/Project"

abbrev pub network_key : String
network_key = "cri.orchestrator.io/v1/Network"

abbrev pub image_key : String
image_key = "cri.orchestrator.io/v1/Image"

abbrev pub volume_key : String
volume_key = "cri.orchestrator.io/v1/Volume"

abbrev pub service_key : String
service_key = "cri.orchestrator.io/v1/Service"

pub record ContainerSpec : Type 0 where
  pub project : String
  pub service : String
  pub version : String
  pub image : String
  pub command : CommandValue
  pub entrypoint : CommandValue
  pub environment : Dict String
  pub ports : List String
  pub volumes : List String
  pub comp_volumes : Dict Volume
  pub network_mode : String
  pub working_dir : String
  pub user : String
  pub privileged : Bool
  pub tmpfs : List String
  pub stop_signal : String
  pub hostname : String
  pub use_cni : Bool
  pub healthcheck : Option Healthcheck

-- ProjectSpec, NetworkSpec, ImageSpec, VolumeSpec and ServiceSpec.
pub data Spec : Type 0 where
  project_spec : (name : String) → Spec
  network_spec : (project : String) → Spec
  image_spec : (image : String) → Spec
  volume_spec : (project name : String) → Spec
  service_spec : (container : ContainerSpec) → Spec

-- manifest.Manifest.
pub record Manifest : Type 0 where
  pub kind : String
  pub name : String
  pub spec : Spec

pub record Edge : Type 0 where
  pub from : Reference
  pub to : Reference
  pub condition : String

pub record Options : Type 0 where
  pub project : String
  pub use_cni : Bool

pub record Result : Type 0 where
  pub manifests : List Manifest
  pub edges : List Edge

abbrev pub ref : String → String → Reference
ref id key = record { id = id; key = key }

abbrev pub sorted_keys {ℓ} : {V : Type ℓ} → Dict V → List String
sorted_keys d = sort (keys d)

-- `fmt.Sprintf("%s/%s", a, b)`
abbrev pub joined : String → String → String
joined a b = a <> "/" <> b

-- ------------------------------------------------------------------ one service

unfoldable pub format_named_port : NamedPort → String
unfolding show_int
format_named_port np =
    let proto =
      if not (np.protocol == "") && not (np.protocol == "tcp") then "/" <> np.protocol else "" in
    let container = show_int np.container_port <> proto in
    if is_zero np.host_port
    then container
    else if np.host_ip == ""
    then show_int np.host_port <> ":" <> container
    else np.host_ip <> ":" <> show_int np.host_port <> ":" <> container

unfoldable pub format_ports : List NamedPort → List String
unfolding format_named_port
format_ports [] = []
format_ports (np ∷ rest) = format_named_port np ∷ format_ports rest

unfoldable pub named_ports_of : Option NixComposeExtended → List String
unfolding format_ports
named_ports_of none = []
named_ports_of (some x) = format_ports x.named_ports

unfoldable pub build_ports : Service → List String
unfolding named_ports_of
build_ports svc = svc.ports ++ named_ports_of svc.x_nix_compose

unfoldable pub store_mounts : List String → List String
store_mounts [] = []
store_mounts (p ∷ rest) = (p <> ":" <> p <> ":ro") ∷ store_mounts rest

unfoldable pub store_volumes : Option NixComposeExtended → List String
unfolding store_mounts
store_volumes none = []
store_volumes (some x) = if x.use_host_store then store_mounts x.nix_store_paths else []

unfoldable pub build_volumes : Service → List String
unfolding store_volumes
build_volumes svc = svc.volumes ++ store_volumes svc.x_nix_compose

unfoldable pub map_condition : String → String
map_condition condition =
    if condition == "service_started"
    then "started"
    else if condition == "service_healthy"
    then "healthy"
    else if condition == "service_completed_successfully"
    then "completed"
    else ""

-- The named volume of a mount, or "" for a bind mount.
unfoldable pub extract_volume_name : String → String
unfolding chars of_chars has_prefix cut_at
extract_volume_name mount =
    let source = (cut_at (char_at ":" 0) (chars mount)).0 in
    let bind =
      has_prefix source (chars "/")
      || (has_prefix source (chars "./")
          || (has_prefix source (chars "~") || has_prefix source (chars ".."))) in
    if bind then "" else of_chars source

-- ------------------------------------------------------------------ edges

abbrev plain_edge : Reference → Reference → Edge
plain_edge from to = record { from = from; to = to; condition = "" }

unfoldable pub edges_to : Reference → Option Reference → List Edge
edges_to from none = []
edges_to from (some to) = plain_edge from to ∷ []

unfoldable pub image_edges : Service → Reference → Dict Reference → List Edge
unfolding edges_to
image_edges svc from image_refs =
    if svc.image == "" then [] else edges_to from (lookup svc.image image_refs)

unfoldable pub network_edges : Service → Reference → Option Reference → List Edge
unfolding edges_to
network_edges svc from network_ref =
    if svc.network_mode == "host" then [] else edges_to from network_ref

unfoldable pub volume_edges : Reference → Dict Reference → List String → List Edge
unfolding edges_to extract_volume_name
volume_edges from volume_refs [] = []
volume_edges from volume_refs (mount ∷ rest) =
    let name = extract_volume_name mount in
    let later = volume_edges from volume_refs rest in
    if name == "" then later else edges_to from (lookup name volume_refs) ++ later

abbrev condition_of : Option DependsOnEntry → String
condition_of none = ""
condition_of (some entry) = entry.condition

unfoldable pub depends_edges : Options → Reference → Dict DependsOnEntry → List String → List Edge
unfolding map_condition
depends_edges opts from entries [] = []
depends_edges opts from entries (dep ∷ rest) =
    record {
      from = from;
      to = ref (joined opts.project dep) service_key;
      condition = map_condition (condition_of (lookup dep entries));
    }
    ∷ depends_edges opts from entries rest

unfoldable pub build_service_edges :
    Service
    → Reference
    → Options
    → Reference
    → Option Reference
    → Dict Reference
    → Dict Reference
    → List Edge
unfolding image_edges network_edges volume_edges depends_edges
build_service_edges svc from opts project_ref network_ref image_refs volume_refs =
    plain_edge from project_ref ∷ image_edges svc from image_refs
    ++ (network_edges svc from network_ref
        ++ (volume_edges from volume_refs svc.volumes
            ++ depends_edges opts from svc.depends_on.entries (sorted_keys svc.depends_on.entries)))

-- ------------------------------------------------------------------ manifests

-- Some service is not on the host's network.
unfoldable pub uses_network : Dict Service → Bool
uses_network [] = false
uses_network ((_, svc) ∷ rest) =
    let later = uses_network rest in if svc.network_mode == "host" then later else true

-- `convertNetwork`: the manifests that it adds, and the reference that it returns.
unfoldable pub convert_network : Composition → Options → List Manifest × Option Reference
unfolding uses_network
convert_network comp opts =
    if uses_network comp.services
    then (
      record { kind = "Network"; name = opts.project; spec = network_spec opts.project } ∷ [],
      some (ref opts.project network_key),
    )
    else ([], none)

-- `imageSet[img] = true`
abbrev add_name : String → List String → List String
add_name img set = if contains set img then set else set ++ img ∷ []

-- The image of a service that was looked up; every name is that of a service.
abbrev image_of : Option Service → String
image_of none = ""
image_of (some svc) = svc.image

unfoldable pub image_set : Dict Service → List String → List String → List String
image_set services [] set = set
image_set services (name ∷ rest) set =
    let img = image_of (lookup name services) in
    image_set services rest (if img == "" then set else add_name img set)

unfoldable pub volume_manifests :
    Options → List String → Dict Reference → List Manifest × Dict Reference
volume_manifests opts [] refs = ([], refs)
volume_manifests opts (name ∷ rest) refs =
    let id = joined opts.project name in
    let (later, all) = volume_manifests opts rest (insert name (ref id volume_key) refs) in
    (record { kind = "Volume"; name = id; spec = volume_spec opts.project name } ∷ later, all)

unfoldable pub convert_volumes : Composition → Options → List Manifest × Dict Reference
unfolding volume_manifests
convert_volumes comp opts = volume_manifests opts (sorted_keys comp.volumes) []

module _ (lower : Char → Char) (digest : Service → String) where
  unfoldable pub image_manifests : List String → Dict Reference → List Manifest × Dict Reference
  unfolding resolved_image_ref
  image_manifests [] refs = ([], refs)
  image_manifests (img ∷ rest) refs =
      let id = resolved_image_ref lower img in
      let (later, all) = image_manifests rest (insert img (ref id image_key) refs) in
      (record { kind = "Image"; name = id; spec = image_spec img } ∷ later, all)

  unfoldable pub convert_images : Composition → List String → List Manifest × Dict Reference
  unfolding image_manifests image_set
  convert_images comp names = image_manifests (sort (image_set comp.services names [])) []

  -- `DependsOn` and `Profiles` are zeroed.
  unfoldable pub compute_version : Service → String
  compute_version svc = digest (record svc { depends_on = record { entries = [] }; profiles = [] })

  unfoldable pub build_container_spec : String → Service → Composition → Options → ContainerSpec
  unfolding compute_version build_ports build_volumes
  build_container_spec name svc comp opts = record {
    project = opts.project;
    service = name;
    version = compute_version svc;
    image = svc.image;
    command = svc.command;
    entrypoint = svc.entrypoint;
    environment = svc.environment;
    ports = build_ports svc;
    volumes = build_volumes svc;
    comp_volumes = comp.volumes;
    network_mode = svc.network_mode;
    working_dir = svc.working_dir;
    user = svc.user;
    privileged = svc.privileged;
    tmpfs = svc.tmpfs;
    stop_signal = svc.stop_signal;
    hostname = svc.hostname;
    use_cni = opts.use_cni && not (svc.network_mode == "host");
    healthcheck = svc.healthcheck;
  }

  unfoldable pub convert_service :
      String
      → Service
      → Composition
      → Options
      → Reference
      → Option Reference
      → Dict Reference
      → Dict Reference
      → Manifest × List Edge
  unfolding build_container_spec build_service_edges
  convert_service name svc comp opts project_ref network_ref image_refs volume_refs =
      let id = joined opts.project name in
      (
        record {
          kind = "Service";
          name = id;
          spec = service_spec (build_container_spec name svc comp opts);
        },
        build_service_edges svc (ref id service_key) opts project_ref network_ref image_refs
            volume_refs,
      )

  -- One service, in front of the result for the others.
  abbrev add_service : Option (Manifest × List Edge) → Result → Result
  add_service none later = later
  add_service (some (m, edges)) later = record {
    manifests = m ∷ later.manifests;
    edges = edges ++ later.edges;
  }

  abbrev when_found :
      (Service → Manifest × List Edge) → Option Service → Option (Manifest × List Edge)
  when_found f none = none
  when_found f (some svc) = some (f svc)

  unfoldable pub convert_services :
      List String
      → Composition
      → Options
      → Reference
      → Option Reference
      → Dict Reference
      → Dict Reference
      → Result
  unfolding convert_service
  convert_services [] comp opts project_ref network_ref image_refs volume_refs = record {
    manifests = [];
    edges = [];
  }
  convert_services (name ∷ rest) comp opts project_ref network_ref image_refs volume_refs =
      add_service
        (when_found
          (λ svc. convert_service name svc comp opts project_ref network_ref image_refs volume_refs)
          (lookup name comp.services))
        (convert_services rest comp opts project_ref network_ref image_refs volume_refs)

  -- `Convert`; `none` where the project's name is missing.
  unfoldable pub convert : Composition → Options → Option Result
  unfolding convert_network convert_images convert_volumes convert_services
  convert comp opts =
      let project_ref = ref opts.project project_key in
      let (network, network_ref) = convert_network comp opts in
      let names = sorted_keys comp.services in
      let (images, image_refs) = convert_images comp names in
      let (volumes, volume_refs) = convert_volumes comp opts in
      let services =
        convert_services names comp opts project_ref network_ref image_refs volume_refs in
      if opts.project == ""
      then none
      else some (record {
        manifests =
            record { kind = "Project"; name = opts.project; spec = project_spec opts.project }
              ∷ network
            ++ (images ++ (volumes ++ services.manifests));
        edges = services.edges;
      })
