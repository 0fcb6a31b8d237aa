-- ===== src/Orchestrate/Convert/Repeats.antt =====
-- The project and its network are two resources with one id.
use nix_compose.Prelude.{
  String, List, [], ◌∷◌, ◌++◌, ◌≡◌, refl, sym, ◌∙◌, ap, Option, none, some, true, ◌==◌, IsUnique,
  arith, eq_refl, inl, inr, Bool-cases, Option-cases,
}
use mathlib.Core.List.{append_assoc, append-nil}
use Prim.Native.Char.{Char}
use nix_compose.Prelude.Text.{◌<>◌}
use nix_compose.Prelude.Dict.{Dict}
use nix_compose.Eval.{Service, Composition}
use nix_compose.Orchestrate.Types.{Reference, Request, create, Deployment, new_deployment, Rollout}
use nix_compose.Orchestrate.Plan.{ConditionMap, compute_plan}
use nix_compose.Orchestrate.Plan.Spec.{create_ids}
use nix_compose.Orchestrate.Plan.Settles.{plans_create, compute_plan_twice}
use nix_compose.Orchestrate.Deployment.{add_creation}
use nix_compose.Orchestrate.Convert.{
  project_key, network_key, api_version, Spec, project_spec, network_spec, Manifest, Options,
  Result, uses_network, convert_network, convert, ref, sorted_keys, convert_images, convert_volumes,
  convert_services,
}
use nix_compose.Orchestrate.Convert.Bridge.{
  Registry, instance_ref, instantiate, add_instance, add_body, add_manifests, bridge, then_rest,
  edge_index, condition_map,
}

abbrev requests_or_none : Option Deployment → List Request
requests_or_none none = []
requests_or_none (some x) = x.requests

abbrev manifests_or_none : Option Result → List Manifest
manifests_or_none none = []
manifests_or_none (some r) = r.manifests

module _ (lower : Char → Char) (registry : Registry) where
  -- Decoding what the spec is encoded as, with the definition of its kind, gives the spec again.
  abbrev pub IsRoundTrip : Spec → Type 0
  IsRoundTrip spec =
      (body : String)
      → registry.marshal spec ≡ some body
      → registry.unmarshal (instance_ref lower spec).key body ≡ some spec

  then_rest-inv :
      (f : Deployment → Option Deployment) (o : Option Deployment) {d : Deployment}
      → then_rest lower registry f o ≡ some d
      → (mid : Deployment) × (o ≡ some mid) × (f mid ≡ some d)
  then_rest-inv f none h = cc
  then_rest-inv f (some mid) h = (mid, refl, h)

  add_instance-inv :
      (deps : List Reference) (body : String) (d : Deployment) (o : Option Reference)
      {d' : Deployment}
      → add_instance lower registry deps body d o ≡ some d'
      → (r : Reference) × (o ≡ some r) × (d'.requests ≡ d.requests ++ create r.id r.key body ∷ [])
  unfolding add_creation
  add_instance-inv deps body d none h = cc
  add_instance-inv deps body d (some r) h = (r, refl, ap requests_or_none (sym h))

  instantiate-ref :
      (spec : Spec) (key body : String) (r : Reference)
      → registry.unmarshal key body ≡ some spec
      → instantiate lower registry key body ≡ some r
      → instance_ref lower spec ≡ r
  unfolding instantiate
  instantiate-ref spec key body r e h = elim (Bool-cases (registry.registered key)) [
    | inl t ↦ let same : some (instance_ref lower spec) ≡ some r = rw (t, e) at h in cc
    | inr f ↦ let no : none ≡ some r = rw f at h in cc
  ]

  -- The create request that a manifest becomes.
  abbrev CreateOf : Spec → List Request → List Request → Type 0
  CreateOf spec before after =
      (body : String) × (after
        ≡ before ++ create (instance_ref lower spec).id (instance_ref lower spec).key body ∷ [])

  requests-add_body :
      (index : Dict (List Reference)) (m : Manifest) (d d' : Deployment) (found : Option String)
      → IsRoundTrip m.spec
      → api_version <> "/" <> m.kind ≡ (instance_ref lower m.spec).key
      → registry.marshal m.spec ≡ found
      → add_body lower registry index m d found ≡ some d'
      → CreateOf m.spec d.requests d'.requests
  requests-add_body index m d d' none trip k e h = cc
  requests-add_body index m d d' (some body) trip k e h =
      let key = api_version <> "/" <> m.kind in
      let (r, made, added) = add_instance-inv _ body d (instantiate lower registry key body) h in
      let decoded : registry.unmarshal key body ≡ some m.spec = rw k (trip body e) in
      let same = instantiate-ref m.spec key body r decoded made in (body, rw same added)

  requests-add_instance_any :
      (index : Dict (List Reference)) (m : Manifest) (d : Deployment) (found : Option String)
      {d' : Deployment}
      → add_body lower registry index m d found ≡ some d'
      → (rest : List Request) × (d'.requests ≡ d.requests ++ rest)
  requests-add_instance_any index m d none h = cc
  requests-add_instance_any index m d (some body) h =
      let (r, _, added) = add_instance-inv _ body d _ h in (create r.id r.key body ∷ [], added)

  requests-add_manifests :
      (index : Dict (List Reference)) (ms : List Manifest) (d d' : Deployment)
      → add_manifests lower registry index ms d ≡ some d'
      → (rest : List Request) × (d'.requests ≡ d.requests ++ rest)
  unfolding add_manifests
  requests-add_manifests index [] d d' h =
      ([], ap requests_or_none (sym h) ∙ sym (append-nil d.requests))
  requests-add_manifests index (m ∷ ms) d d' h =
      let (mid, e, h') = then_rest-inv (add_manifests lower registry index ms) _ h in
      let (first, a) = requests-add_instance_any index m d (registry.marshal m.spec) e in
      let (rest, b) = requests-add_manifests index ms mid d' h' in
      (first ++ rest, b ∙ (rw a (append_assoc d.requests first rest)))

  bridge-inv :
      (id : String) (result : Result) (d : Deployment) (conditions : ConditionMap)
      → bridge lower registry id result ≡ some (d, conditions)
      → add_manifests lower registry
          (edge_index result.edges [])
          result.manifests
          (new_deployment id)
        ≡ some d
  unfolding bridge
  bridge-inv id result d conditions h =
      elim (Option-cases (
        add_manifests lower registry (edge_index result.edges []) result.manifests
          (new_deployment id))) [
            | inl e ↦
                let no : ◌≡◌ {A = Option (Deployment × ConditionMap)} none (some (d, conditions)) =
                  rw (e, bridge) at h in
                cc no
            | inr (mid, e) ↦
                let pair : Deployment × ConditionMap = (mid, condition_map result.edges []) in
                let same : some pair ≡ some (d, conditions) = rw (e, bridge) at h in cc (e, same)
          ]

  -- The requests of the first two manifests.
  first_two :
      (index : Dict (List Reference)) (a b : Manifest) (ms : List Manifest) (id : String)
      (d : Deployment)
      → IsRoundTrip a.spec
      → IsRoundTrip b.spec
      → api_version <> "/" <> a.kind ≡ (instance_ref lower a.spec).key
      → api_version <> "/" <> b.kind ≡ (instance_ref lower b.spec).key
      → add_manifests lower registry index (a ∷ b ∷ ms) (new_deployment id) ≡ some d
      → (body : String) × (body' : String) × (rest : List Request) × (d.requests
          ≡ create (instance_ref lower a.spec).id (instance_ref lower a.spec).key body
            ∷ create (instance_ref lower b.spec).id (instance_ref lower b.spec).key body'
            ∷ rest)
  unfolding add_manifests
  first_two index a b ms id d ta tb ka kb h =
      let (d1, e1, h1) = then_rest-inv (add_manifests lower registry index (b ∷ ms)) _ h in
      let (d2, e2, h2) = then_rest-inv (add_manifests lower registry index ms) _ h1 in
      let (body, r1) = requests-add_body index a (new_deployment id) d1 _ ta ka refl e1 in
      let (body', r2) = requests-add_body index b d1 d2 _ tb kb refl e2 in
      let (rest, r3) = requests-add_manifests index ms d2 d h2 in
      (body, body', rest, r3 ∙ (rw (r2, r1) refl))

  module _ (digest : Service → String) (comp : Composition) (opts : Options)
      (networked : uses_network comp.services ≡ true) where
    abbrev project_manifest : Manifest
    project_manifest = record {
      kind = "Project";
      name = opts.project;
      spec = project_spec opts.project;
    }

    abbrev network_manifest : Manifest
    network_manifest = record {
      kind = "Network";
      name = opts.project;
      spec = network_spec opts.project;
    }

    convert_network-found : (convert_network comp opts).0 ≡ network_manifest ∷ []
    unfolding convert_network
    convert_network-found = rw networked refl

    -- The manifests of the images, the volumes and the services.
    later_manifests : List Manifest
    later_manifests =
        let names = sorted_keys comp.services in
        let (images, image_refs) = convert_images lower digest comp names in
        let (volumes, volume_refs) = convert_volumes comp opts in
        images
        ++ (volumes
            ++ (convert_services lower digest names comp opts (ref opts.project project_key)
                (convert_network comp opts).1 image_refs volume_refs).manifests)

    convert-manifests :
        (result : Result)
        → convert lower digest comp opts ≡ some result
        → (rest : List Manifest) × (result.manifests ≡ project_manifest ∷ network_manifest ∷ rest)
    unfolding convert later_manifests
    convert-manifests result h = elim (Bool-cases (opts.project == "")) [
      | inl t ↦ let no : none ≡ some result = rw (t, convert) at h in cc
      | inr f ↦
          let same = ap manifests_or_none (sym h) in
          (later_manifests, same ∙ (rw (f, convert) (rw convert_network-found refl)))
    ]

    -- A composition with a service that is not on the host's network becomes a deployment with two
    -- create requests for one id, that of the project and that of its network. Whatever the
    -- database holds, also after these very requests were applied, a plan for it creates the
    -- network once more.
    pub convert_never_settles :
        (result : Result) (id new_id : String) (d : Deployment) (conditions : ConditionMap)
        (canonical : String → Option String) (rollouts : List Rollout)
        → IsRoundTrip (project_spec opts.project)
        → IsRoundTrip (network_spec opts.project)
        → convert lower digest comp opts ≡ some result
        → bridge lower registry id result ≡ some (d, conditions)
        → (¬ IsUnique (create_ids d.requests))
          × (plans_create opts.project network_key
                (compute_plan canonical new_id d rollouts conditions).actions
              ≡ true)
    convert_never_settles result id new_id d conditions canonical rollouts tp tn made bridged =
        let (ms, shape) = convert-manifests result made in
        let index = edge_index result.edges [] in
        let added : add_manifests lower registry index (project_manifest ∷ network_manifest ∷ ms)
              (new_deployment id)
            ≡ some d =
          rw (← shape) (bridge-inv id result d conditions bridged) in
        let (body, body', rest, requests) =
          first_two index project_manifest network_manifest ms id d tp tn refl refl added in
        (
          λ u. ground (arith, rw requests at u, eq_refl opts.project),
          compute_plan_twice canonical new_id opts.project project_key network_key body body' d rest
              rollouts conditions requests,
        )
