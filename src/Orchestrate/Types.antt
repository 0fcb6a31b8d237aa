-- ===== src/Orchestrate/Types.antt =====
-- The records of pkg/orchestrate/typing, state/link.go and deploy: references, links, requests,
-- deployments and rollouts. A JSON body is its text.
use nix_compose.Prelude.{String, List, [], ◌∷◌, ◌++◌, Option}

-- typing.SimpleReference, as stored: `MarshalJSON` writes the id and the key alone.
pub record Reference : Type 0 where
  pub id : String
  pub key : String

pub record Link : Type 0 where
  pub source : Reference
  pub target : Reference

pub data Request : Type 0 where
  create : (id key body : String) → Request
  delete : (id key : String) → Request
  status : (id key : String) → Request

abbrev pub subject_id : Request → String
subject_id (create id key body) = id
subject_id (delete id key) = id
subject_id (status id key) = id

abbrev pub subject_key : Request → String
subject_key (create id key body) = key
subject_key (delete id key) = key
subject_key (status id key) = key

pub record Deployment : Type 0 where
  pub id : String
  pub requests : List Request
  pub dependencies : List Link
  pub depending : List Link
  pub references : List Reference

-- `NewDeployment`; the id is drawn outside.
abbrev pub new_deployment : String → Deployment
new_deployment id = record {
  id = id;
  requests = [];
  dependencies = [];
  depending = [];
  references = [];
}

-- `AddDeletion`. `NewReference` ends the program on an empty id, which is outside the model.
abbrev pub add_deletion : Deployment → Reference → Deployment
add_deletion d r = record d { requests = d.requests ++ delete r.id r.key ∷ [] }

pub data RolloutStatusShort : Type 0 where
  failed pending running error succeeded drifted unknown : RolloutStatusShort

pub record RolloutStatus : Type 0 where
  pub short : RolloutStatusShort
  pub details : String

pub record Rollout : Type 0 where
  pub instance_id : String
  pub instance_key : String
  pub body : String
  pub messages : List String
  pub errors : List String
  pub status : Option RolloutStatus
