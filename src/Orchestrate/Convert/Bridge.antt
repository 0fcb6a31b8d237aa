-- ===== src/Orchestrate/Convert/Bridge.antt =====
-- pkg/orchestrate/convert/bridge.go: manifests and edges as a deployment, with the conditions. Encoding
-- a spec, the registered keys and decoding a body by the definition of a key are parameters, `none`
-- where they fail; `instance_ref` is the `GetId` and `GetKey` of an instance (resources/*.go).
use nix_compose.Prelude.{String, List, [], ◌∷◌, ◌++◌, Option, none, some, Bool, if◌then◌else◌, ◌==◌}
use nix_compose.Prelude.Text.{◌<>◌}
use nix_compose.Prelude.Dict.{Dict, lookup, insert}
use nix_compose.Orchestrate.Types.{Reference, Deployment, new_deployment}
use nix_compose.Orchestrate.Plan.{ConditionMap}
use nix_compose.Orchestrate.Deployment.{add_creation}
use nix_compose.Cri.ImageRef.{resolved_image_ref}
use nix_compose.Orchestrate.Convert.{
  ref, joined, api_version, project_key, network_key, image_key, volume_key, service_key, Spec,
  project_spec, network_spec, image_spec, volume_spec, service_spec, Manifest, Edge, Result,
}
use Prim.Native.Char.{Char}

abbrev pub refs_or_none {ℓ} : {A : Type ℓ} → Option (List A) → List A
refs_or_none none = []
refs_or_none (some refs) = refs

unfoldable pub edge_index : List Edge → Dict (List Reference) → Dict (List Reference)
edge_index [] index = index
edge_index (e ∷ rest) index =
    let known = refs_or_none (lookup e.from.id index) in
    edge_index rest (insert e.from.id (known ++ e.to ∷ []) index)

abbrev conditions_of : Option (Dict String) → Dict String
conditions_of none = []
conditions_of (some d) = d

unfoldable pub condition_map : List Edge → ConditionMap → ConditionMap
condition_map [] conditions = conditions
condition_map (e ∷ rest) conditions =
    let of_target = conditions_of (lookup e.to.id conditions) in
    let added = insert e.to.id (insert e.from.id e.condition of_target) conditions in
    condition_map rest (if e.condition == "" then conditions else added)

pub record Registry : Type 0 where
  pub marshal : Spec → Option String
  pub registered : String → Bool
  pub unmarshal : String → String → Option Spec

module _ (lower : Char → Char) where
  abbrev pub instance_ref : Spec → Reference
  instance_ref (project_spec name) = ref name project_key
  instance_ref (network_spec project) = ref project network_key
  instance_ref (image_spec image) = ref (resolved_image_ref lower image) image_key
  instance_ref (volume_spec project name) = ref (joined project name) volume_key
  instance_ref (service_spec c) = ref (joined c.project c.service) service_key

  module _ (registry : Registry) where
    abbrev pub instance_of : Option Spec → Option Reference
    instance_of none = none
    instance_of (some spec) = some (instance_ref spec)

    -- `Registry.Instantiate`.
    unfoldable pub instantiate : String → String → Option Reference
    instantiate key body =
        if registry.registered key then instance_of (registry.unmarshal key body) else none

    abbrev pub add_instance :
        List Reference → String → Deployment → Option Reference → Option Deployment
    add_instance deps body d none = none
    add_instance deps body d (some instance) = some (add_creation instance body deps d)

    abbrev pub add_body :
        Dict (List Reference) → Manifest → Deployment → Option String → Option Deployment
    add_body index m d none = none
    add_body index m d (some body) =
        add_instance (refs_or_none (lookup m.name index)) body d
          (instantiate (api_version <> "/" <> m.kind) body)

    abbrev pub then_rest : (Deployment → Option Deployment) → Option Deployment → Option Deployment
    then_rest f none = none
    then_rest f (some d) = f d

    unfoldable pub add_manifests :
        Dict (List Reference) → List Manifest → Deployment → Option Deployment
    unfolding instantiate add_creation
    add_manifests index [] d = some d
    add_manifests index (m ∷ rest) d =
        then_rest (add_manifests index rest) (add_body index m d (registry.marshal m.spec))

    -- `Bridge`; the deployment's id is drawn outside.
    unfoldable pub bridge : String → Result → Option (Deployment × ConditionMap)
    unfolding add_manifests edge_index condition_map
    bridge id result =
        elim (add_manifests (edge_index result.edges []) result.manifests (new_deployment id)) [
          | none ↦ none
          | some d ↦ some (d, condition_map result.edges [])
        ]
