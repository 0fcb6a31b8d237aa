-- ===== src/Orchestrate/Sync/Once.antt =====
-- `ApplySync` that succeeds, on a plan with distinct ids: each request is executed exactly once.
use nix_compose.Prelude.{
  String, List, [], ◌++◌, ◌≡◌, none, some, Bool, true, false, map, subst, IsUnique,
}
use nix_compose.Orchestrate.Types.{Reference, Link}
use nix_compose.Orchestrate.Plan.{Plan}
use nix_compose.Orchestrate.Links.{Bolt, Links}
use nix_compose.Orchestrate.Deployment.{check_references, persist_links}
use nix_compose.Orchestrate.Topo.{topo_sort_requests}
use nix_compose.Orchestrate.Topo.Spec.{find}
use nix_compose.Orchestrate.Topo.Complete.{topo_sort_complete}
use nix_compose.Orchestrate.Apply.{CreateRequest, split_requests}
use nix_compose.Orchestrate.Apply.Rollback.{apply_calls}
use nix_compose.Orchestrate.Apply.Effects.{removal_calls}
use nix_compose.Orchestrate.Sync.{Setting, Store, links_of, apply_sync}
use nix_compose.Orchestrate.Sync.Calls.{SyncOutcome, apply_sync_outcome}

-- `out` has distinct ids, and for every id the request of `rs` that has it, if any.
abbrev pub HoldsEach {ℓ} : {A : Type ℓ} → (A → String) → List A → List A → Type ℓ
HoldsEach id_of rs out =
    IsUnique (map id_of out) × ((id : String) → find id_of id out ≡ find id_of id rs)

HoldsEach-topo_sort :
    {A : Type 0} (id_of : A → String) (rs out : List A) (links : List Link) (reversed : Bool)
    → IsUnique (map id_of rs)
    → topo_sort_requests id_of rs links reversed ≡ some out
    → HoldsEach id_of rs out
HoldsEach-topo_sort id_of rs out links reversed u e =
    let (sorted, f, once, same) = topo_sort_complete id_of rs links reversed u in
    let same_out : sorted ≡ out = cc (f, e) in subst (HoldsEach id_of rs) same_out (once, same)

module _ (bolt : Bolt) (setting : Setting bolt) where
  -- The checks, the links, the calls and the order of a run.
  abbrev pub ExecutedOnce : Plan → Store bolt → Store bolt → Type 0
  ExecutedOnce plan s after =
      (db : Links bolt) × (deletes : List Reference) × (creates : List CreateRequest)
      × (check_references (setting.deployed s.state) plan.deployment ≡ [])
      × (persist_links bolt plan.deployment s.state.links ≡ (db, true))
      × (after.state.calls ≡ s.state.calls ++ (removal_calls deletes ++ apply_calls creates))
      × HoldsEach Reference.id (split_requests plan.deployment.requests).deletes deletes
      × HoldsEach CreateRequest.id (split_requests plan.deployment.requests).creates creates
      × (topo_sort_requests Reference.id (split_requests plan.deployment.requests).deletes
            (links_of bolt (setting.link_keys db) db) true
          ≡ some deletes)
      × (topo_sort_requests CreateRequest.id (split_requests plan.deployment.requests).creates
            (links_of bolt (setting.link_keys db) db) false
          ≡ some creates)

  -- When `ApplySync` succeeds on a plan whose delete requests have distinct ids and whose create
  -- requests have distinct ids, its checks found every reference, its links were persisted, and it
  -- called the providers, behind the calls made before, to remove the subject of each delete request
  -- once and then to apply each create request once, and for nothing else. The order of each batch
  -- is that of `topoSortRequests` by the links behind their persisting, reversed for the deletes.
  pub apply_sync_once :
      (plan : Plan) (s after : Store bolt)
      → apply_sync bolt setting plan s ≡ (after, none)
      → IsUnique (map Reference.id (split_requests plan.deployment.requests).deletes)
      → IsUnique (map CreateRequest.id (split_requests plan.deployment.requests).creates)
      → ExecutedOnce plan s after
  apply_sync_once plan s after h d c =
      let done =
        subst (SyncOutcome bolt setting plan s) h (apply_sync_outcome bolt setting plan s) in
      let split = split_requests plan.deployment.requests in
      let links = links_of bolt (setting.link_keys done.db) done.db in
      (
        done.db,
        done.deletes,
        done.creates,
        done.checked,
        done.persisted,
        done.calls,
        HoldsEach-topo_sort Reference.id split.deletes done.deletes links true d
            done.deletes_in_order,
        HoldsEach-topo_sort CreateRequest.id split.creates done.creates links false c
            done.creates_in_order,
        done.deletes_in_order,
        done.creates_in_order,
      )
