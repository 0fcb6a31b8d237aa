-- ===== src/Orchestrate/Apply.antt =====
-- pkg/orchestrate/apply.go and the `Process` methods of deploy/request.go: requests are executed in
-- order, and a failed create rolls the earlier ones back.
--
-- The outside world is the parameter `World`. Its answers depend on all calls made so far, so that
-- it may change its mind: whether the context is cancelled, whether an instance can be loaded and
-- applied, whether a provider deletes a resource, whether a rollout can be saved, and whether a
-- condition is met in time. Requests with an empty id, on which `NewReference` ends the program, are
-- outside the model.
pub mod Rollback
pub mod Retry
pub mod Load
pub mod Effects
mod Examples
use nix_compose.Prelude.{
  String, List, [], ◌∷◌, ◌++◌, Option, none, some, Bool, true, false, reverse, if◌then◌else◌,
}
use nix_compose.Prelude.Dict.{Dict, insert, has}
use nix_compose.Orchestrate.Types.{
  Reference, Link, Request, create, delete, status, Rollout, RolloutStatus, RolloutStatusShort,
  error, succeeded,
}
use nix_compose.Orchestrate.Plan.{ConditionMap}
use nix_compose.Orchestrate.Links.{Bolt, Links, remove_link, get_dependencies}
use nix_compose.Orchestrate.Deployment.{links_to}

pub record CreateRequest : Type 0 where
  pub id : String
  pub key : String
  pub body : String

-- The calls of a provider, in order.
pub data Call : Type 0 where
  applied : (id : String) → Call
  removed : (id : String) → Call

pub record World : Type 0 where
  pub cancelled : List Call → Bool
  pub loads : CreateRequest → Bool
  pub applies : List Call → CreateRequest → Bool
  pub removes : List Call → Reference → Bool
  pub saves : List Call → Bool
  pub condition_met : List Call → String → Bool

pub data ApplyError : Type 0 where
  context_cancelled : ApplyError
  create_failed : (id : String) → ApplyError
  condition_failed : (id : String) → ApplyError

-- `splitRequests`.
pub record Split : Type 0 where
  pub deletes : List Reference
  pub creates : List CreateRequest

unfoldable pub split_requests : List Request → Split
split_requests [] = record { deletes = []; creates = [] }
split_requests (create id key body ∷ rest) =
    let s = split_requests rest in
    record s { creates = record { id = id; key = key; body = body } ∷ s.creates }
split_requests (delete id key ∷ rest) =
    let s = split_requests rest in record s { deletes = record { id = id; key = key } ∷ s.deletes }
split_requests (status id key ∷ rest) = split_requests rest

-- The rollout that `CreateRequest.Process` saves.
abbrev pub rollout_of : CreateRequest → Bool → Rollout
rollout_of r ok = record {
  instance_id = r.id;
  instance_key = r.key;
  body = r.body;
  messages = [];
  errors = if ok then [] else "couldn't apply" ∷ [];
  status = some (record { short = if ok then succeeded else error; details = "" });
}

abbrev pub reference_of : CreateRequest → Reference
reference_of r = record { id = r.id; key = r.key }

module _ (bolt : Bolt) where
  -- `loadLinks`, over the keys of the bucket of the sources.
  unfoldable pub load_links : List String → Links bolt → List Link
  load_links [] db = []
  load_links (key ∷ rest) db =
      let ref : Reference = record { id = key; key = "" } in
      links_to ref (get_dependencies bolt ref db) ++ load_links rest db

  -- The calls made so far, and the database.
  pub record State : Type 0 where
    pub calls : List Call
    pub rollouts : Dict Rollout
    pub links : Links bolt

module _ (bolt : Bolt) (world : World) where
  open world use {cancelled, loads, applies, removes, saves, condition_met}

  -- A failure to save is logged, and passed over.
  pub save_rollout : CreateRequest → Bool → State bolt → State bolt
  save_rollout r ok s =
      if saves s.calls then record s { rollouts = insert r.id (rollout_of r ok) s.rollouts } else s

  -- `CreateRequest.Process`: the state after it, and whether there was no error.
  pub process_create : CreateRequest → State bolt → State bolt × Bool
  unfolding save_rollout
  process_create r s =
      let ok = applies s.calls r in
      let called = record s { calls = s.calls ++ applied r.id ∷ [] } in
      if loads r then (save_rollout r ok called, ok) else (s, false)

  -- `DeleteRequest.Process`.
  pub process_delete : Reference → State bolt → State bolt × Bool
  process_delete r s =
      let called = record s { calls = s.calls ++ removed r.id ∷ [] } in
      let (links, ok) = remove_link bolt r s.links in
      if removes s.calls r then (record called { links = links }, ok) else (called, false)

  unfoldable pub execute_deletes : List Reference → State bolt → State bolt × Option ApplyError
  unfolding process_delete
  execute_deletes [] s = (s, none)
  execute_deletes (r ∷ rest) s =
      let later = execute_deletes rest (process_delete r s).0 in
      if cancelled s.calls then (s, some context_cancelled) else later

  pub delete_all : List CreateRequest → State bolt → State bolt
  unfolding process_delete
  delete_all [] s = s
  delete_all (r ∷ rest) s = delete_all rest (process_delete (reference_of r) s).0

  -- `rollback`: the last request first.
  pub rollback : List CreateRequest → State bolt → State bolt
  unfolding delete_all
  rollback done s = delete_all (reverse done) s

  -- Whether the conditions on a resource, if it has any, are met.
  pub conditions_met : ConditionMap → String → State bolt → Bool
  conditions_met conditions id s = if has id conditions then condition_met s.calls id else true

  unfoldable pub execute_creates :
      ConditionMap
      → List CreateRequest
      → List CreateRequest
      → State bolt
      → State bolt × Option ApplyError
  unfolding rollback process_create conditions_met
  execute_creates conditions [] done s = (s, none)
  execute_creates conditions (r ∷ rest) done s =
      let (after, ok) = process_create r s in
      let later = execute_creates conditions rest (done ++ r ∷ []) after in
      if cancelled s.calls
      then (rollback done s, some context_cancelled)
      else if ok
      then (if conditions_met conditions r.id after
          then later
          else (rollback (done ++ r ∷ []) after, some (condition_failed r.id)))
      else (rollback done after, some (create_failed r.id))
