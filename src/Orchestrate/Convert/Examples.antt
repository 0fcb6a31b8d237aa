-- ===== src/Orchestrate/Convert/Examples.antt =====
-- Runs of `Convert` and `Bridge`, and the theorem at one.
use nix_compose.Prelude.{
  String, List, [], ◌∷◌, ◌≡◌, refl, Option, none, some, true, false, IsUnique, ◌==◌, if◌then◌else◌,
}
use nix_compose.Prelude.Dict.{lookup, insert}
use nix_compose.Prelude.Sort.{sort}
use nix_compose.Prelude.Int.{pos}
use nix_compose.Eval.{Composition}
use nix_compose.Samples.{blank, depending_on, with_services}
use nix_compose.Orchestrate.Types.{Deployment, new_deployment}
use nix_compose.Orchestrate.Plan.{ConditionMap, compute_plan}
use nix_compose.Orchestrate.Plan.Spec.{create_ids}
use nix_compose.Orchestrate.Plan.Settles.{plans_create}
use nix_compose.Orchestrate.Convert.{
  Spec, project_spec, network_spec, image_spec, volume_spec, service_spec, Options, Result, convert,
  uses_network, Edge, extract_volume_name, format_named_port, network_key, ref, project_key,
  service_key,
}
use nix_compose.Orchestrate.Convert.Bridge.{Registry, bridge}
use nix_compose.Orchestrate.Convert.Repeats.{convert_never_settles}

program : Unit {0}
unfolding convert bridge lookup insert sort
program = tt

named : extract_volume_name "data:/var/lib:ro" ≡ "data"
unfolding extract_volume_name
named = refl

bind_mount : extract_volume_name "./src:/src" ≡ ""
unfolding extract_volume_name
bind_mount = refl

port :
    format_named_port (record {
      name = "http";
      container_port = pos 80;
      host_ip = "127.0.0.1";
      host_port = pos 8080;
      protocol = "udp";
    })
    ≡ "127.0.0.1:8080:80/udp"
unfolding format_named_port
port = refl

-- `web` needs `db`.
abbrev comp : Composition
comp = with_services (("web", depending_on ("db" ∷ [])) ∷ ("db", blank) ∷ [])

abbrev opts : Options
opts = record { project = "shop"; use_cni = false }

-- The body of a project and of a network is its name.
abbrev encode : Spec → Option String
encode (project_spec name) = some name
encode (network_spec project) = some project
encode (image_spec image) = some image
encode (volume_spec project name) = some name
encode (service_spec c) = some c.service

abbrev decode : String → String → Option Spec
decode key body =
    if key == project_key
    then some (project_spec body)
    else if key == network_key
    then some (network_spec body)
    else some (image_spec body)

abbrev registry : Registry
registry = record { marshal = encode; registered = λ key. true; unmarshal = decode }

edges_of : Option Result → List Edge
edges_of none = []
edges_of (some r) = r.edges

edge : String → String → String → String → Edge
edge from to key condition = record {
  from = ref from service_key;
  to = ref to key;
  condition = condition;
}

edges_test :
    edges_of (convert (λ c. c) (λ svc. "v") comp opts)
    ≡ edge "shop/db" "shop" project_key ""
      ∷ edge "shop/db" "shop" network_key ""
      ∷ edge "shop/web" "shop" project_key ""
      ∷ edge "shop/web" "shop" network_key ""
      ∷ edge "shop/web" "shop/db" service_key "started"
      ∷ []
unfolding program edges_of edge
edges_test = refl

result_or_empty : Option Result → Result
result_or_empty none = record { manifests = []; edges = [] }
result_or_empty (some r) = r

result : Result
unfolding program result_or_empty
result = result_or_empty (convert (λ c. c) (λ svc. "v") comp opts)

converted : convert (λ c. c) (λ svc. "v") comp opts ≡ some result
unfolding program result result_or_empty
converted = refl

bridged_or_empty : Option (Deployment × ConditionMap) → Deployment × ConditionMap
bridged_or_empty none = (new_deployment "", [])
bridged_or_empty (some d) = d

deployment : Deployment × ConditionMap
unfolding program result bridged_or_empty
deployment = bridged_or_empty (bridge (λ c. c) registry "d" result)

bridged : bridge (λ c. c) registry "d" result ≡ some (deployment.0, deployment.1)
unfolding program result deployment result_or_empty bridged_or_empty
bridged = refl

on_network : uses_network comp.services ≡ true
unfolding program uses_network
on_network = refl

convert_never_settles_example :
    (¬ IsUnique (create_ids deployment.0.requests))
    × (plans_create "shop" network_key (compute_plan some "p" deployment.0 [] deployment.1).actions
        ≡ true)
convert_never_settles_example =
    convert_never_settles (λ c. c) registry (λ svc. "v") comp opts on_network result "d" "p"
      deployment.0 deployment.1 some [] (λ body e. cc) (λ body e. cc) converted bridged
