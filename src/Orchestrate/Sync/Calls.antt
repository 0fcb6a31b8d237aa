-- ===== src/Orchestrate/Sync/Calls.antt =====
-- `ApplySync` that succeeds: the calls that were made, and their order.
use nix_compose.Prelude.{
  List, [], ◌∷◌, ◌++◌, ◌≡◌, ◌≢◌, refl, sym, ◌∙◌, ap, Option, none, some, Bool, true, false, inl,
  inr, arith,
}
use mathlib.Core.List.{append_assoc}
use nix_compose.Orchestrate.Types.{Reference, Deployment}
use nix_compose.Orchestrate.Plan.{Plan}
use nix_compose.Orchestrate.Links.{Bolt, Links}
use nix_compose.Orchestrate.Deployment.{CheckError, check_references, persist_links}
use nix_compose.Orchestrate.Topo.{topo_sort_requests}
use nix_compose.Orchestrate.Topo.Complete.{topo_sort_returns}
use nix_compose.Orchestrate.Apply.{
  CreateRequest, ApplyError, State, split_requests, execute_deletes, execute_creates,
}
use nix_compose.Orchestrate.Apply.Rollback.{
  apply_calls, CreatesOutcome, IsRolledBack-fails, execute_creates_outcome,
}
use nix_compose.Orchestrate.Apply.Effects.{removal_calls, calls-execute_deletes}
use nix_compose.Orchestrate.Sync.{
  SyncError, no_fuel, Setting, Store, links_of, save_deployment, conclude, run_creates,
  run_requests, apply_linked, apply_checked, apply_sync,
}

module _ (bolt : Bolt) (setting : Setting bolt) where
  open setting use {world, deployed, link_keys, stores}

  -- What a run without an error did.
  pub record IsExecuted (plan : Plan) (s after : Store bolt) : Type 0 where
    pub db : Links bolt
    pub deletes : List Reference
    pub creates : List CreateRequest
    pub checked : check_references (deployed s.state) plan.deployment ≡ []
    pub persisted : persist_links bolt plan.deployment s.state.links ≡ (db, true)
    pub deletes_in_order :
        topo_sort_requests Reference.id
          (split_requests plan.deployment.requests).deletes
          (links_of bolt (link_keys db) db)
          true
        ≡ some deletes
    pub creates_in_order :
        topo_sort_requests CreateRequest.id
          (split_requests plan.deployment.requests).creates
          (links_of bolt (link_keys db) db)
          false
        ≡ some creates
    pub deleted : State bolt
    pub delete_run :
        execute_deletes bolt world deletes (record s.state { links = db }) ≡ (deleted, none)
    pub create_run :
        execute_creates bolt world plan.conditions creates [] deleted ≡ (after.state, none)
    pub calls : after.state.calls ≡ s.state.calls ++ (removal_calls deletes ++ apply_calls creates)

  -- No run ends for want of fuel, and one that reports no error executed the sorted batches.
  abbrev pub SyncOutcome : Plan → Store bolt → Store bolt × Option SyncError → Type 0
  SyncOutcome plan s (after, none) = IsExecuted plan s after
  SyncOutcome plan s (after, some e) = e ≢ no_fuel

  state-save_deployment :
      (d : Deployment) (s : Store bolt) → (save_deployment bolt setting d s).state ≡ s.state
  unfolding save_deployment
  state-save_deployment d s = ground arith

  -- The steps behind the persisted links.
  module _ (plan : Plan) (s : Store bolt) (db : Links bolt)
      (checked : check_references (deployed s.state) plan.deployment ≡ [])
      (persisted : persist_links bolt plan.deployment s.state.links ≡ (db, true)) where
    abbrev linked : Store bolt
    linked = record s { state = record s.state { links = db } }

    abbrev InOrder : List Reference → List CreateRequest → Type 0
    InOrder deletes creates =
        (topo_sort_requests Reference.id (split_requests plan.deployment.requests).deletes
            (links_of bolt (link_keys db) db) true
          ≡ some deletes)
        × (topo_sort_requests CreateRequest.id (split_requests plan.deployment.requests).creates
              (links_of bolt (link_keys db) db) false
            ≡ some creates)

    delete_calls :
        (deletes : List Reference) (mid : State bolt)
        → execute_deletes bolt world deletes linked.state ≡ (mid, none)
        → mid.calls ≡ s.state.calls ++ removal_calls deletes
    delete_calls deletes mid d =
        ap (λ x. x.0.calls) (sym d)
        ∙ calls-execute_deletes bolt world deletes linked.state (ap (λ x. x.1) d)

    conclude-SyncOutcome :
        (deletes : List Reference) (creates : List CreateRequest) (mid : State bolt)
        (result : State bolt × Option ApplyError)
        → InOrder deletes creates
        → execute_deletes bolt world deletes linked.state ≡ (mid, none)
        → execute_creates bolt world plan.conditions creates [] mid ≡ result
        → CreatesOutcome bolt world [] creates mid result
        → SyncOutcome plan s (conclude bolt setting plan.deployment linked result)
    unfolding conclude
    conclude-SyncOutcome deletes creates mid (after, some e) o d k c = λ bad. cc
    conclude-SyncOutcome deletes creates mid (after, none) o d k (inr b) =
        absurd (IsRolledBack-fails bolt world [] creates mid.calls after.calls none b refl)
    conclude-SyncOutcome deletes creates mid (after, none) o d k (inl (_, c)) =
        let m = delete_calls deletes mid d in
        let kept = state-save_deployment plan.deployment (record linked { state = after }) in
        record {
          db = db;
          deletes = deletes;
          creates = creates;
          checked = checked;
          persisted = persisted;
          deletes_in_order = o.0;
          creates_in_order = o.1;
          deleted = mid;
          delete_run = d;
          create_run = k ∙ ap (λ st. (st, none)) (sym kept);
          calls =
              ap (λ st. st.calls) kept
              ∙ (c
                  ∙ rw m
                      (append_assoc s.state.calls (removal_calls deletes) (apply_calls creates)));
        }

    run_creates-SyncOutcome :
        (deletes : List Reference) (creates : List CreateRequest)
        (result : State bolt × Option ApplyError)
        → InOrder deletes creates
        → execute_deletes bolt world deletes linked.state ≡ result
        → SyncOutcome plan s (run_creates bolt setting plan linked (some creates) result)
    unfolding run_creates
    run_creates-SyncOutcome deletes creates (mid, some e) o r = λ bad. cc
    run_creates-SyncOutcome deletes creates (mid, none) o r =
        conclude-SyncOutcome deletes creates mid
          (execute_creates bolt world plan.conditions creates [] mid) o r refl
          (execute_creates_outcome bolt world plan.conditions creates [] mid)

  apply_linked-SyncOutcome :
      (plan : Plan) (s : Store bolt) (result : Links bolt × Bool)
      → check_references (deployed s.state) plan.deployment ≡ []
      → persist_links bolt plan.deployment s.state.links ≡ result
      → SyncOutcome plan s (apply_linked bolt setting plan s result)
  unfolding apply_linked run_requests
  apply_linked-SyncOutcome plan s (db, false) c p = λ e. cc
  apply_linked-SyncOutcome plan s (db, true) c p =
      let split = split_requests plan.deployment.requests in
      let links = links_of bolt (link_keys db) db in
      let (deletes, d, _) = topo_sort_returns Reference.id split.deletes links true in
      let (creates, k, _) = topo_sort_returns CreateRequest.id split.creates links false in
      rw (d, k) (run_creates-SyncOutcome plan s db c p deletes creates _ (d, k) refl)

  apply_checked-SyncOutcome :
      (plan : Plan) (s : Store bolt) (errs : List CheckError)
      → check_references (deployed s.state) plan.deployment ≡ errs
      → SyncOutcome plan s (apply_checked bolt setting plan s errs)
  unfolding apply_checked
  apply_checked-SyncOutcome plan s [] c = apply_linked-SyncOutcome plan s _ c refl
  apply_checked-SyncOutcome plan s (e ∷ errs) c = λ bad. cc

  -- `ApplySync` never runs out of fuel. When it reports no error, the references of the plan were
  -- all there, its links were persisted, and the calls of the providers were, behind those made
  -- before, one removal for each element of the sorted delete requests and then one application for
  -- each element of the sorted create requests. Sorting can drop requests that share an id.
  pub apply_sync_outcome :
      (plan : Plan) (s : Store bolt) → SyncOutcome plan s (apply_sync bolt setting plan s)
  unfolding apply_sync
  apply_sync_outcome plan s = apply_checked-SyncOutcome plan s _ refl
