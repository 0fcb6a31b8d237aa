-- ===== src/Orchestrate/Sync/Unlinked.antt =====
-- The links behind an `ApplySync` that succeeds: those of a resource that it updates are gone.
use nix_compose.Prelude.{
  String, List, [], ◌++◌, ◌≡◌, sym, ◌∙◌, ap, none, Bool, true, subst, map, contains, not, ◌&&◌,
  ◌||◌,
}
use nix_compose.Orchestrate.Types.{Reference}
use nix_compose.Orchestrate.Plan.{Plan}
use nix_compose.Orchestrate.Links.{Bolt, Links, remove_link}
use nix_compose.Orchestrate.Links.Holds.{depends}
use nix_compose.Orchestrate.Deployment.Persist.{links_pair, persist_links-Adds}
use nix_compose.Orchestrate.Topo.Complete.{topo_sort_returns}
use nix_compose.Orchestrate.Apply.{Call, split_requests}
use nix_compose.Orchestrate.Apply.Effects.{links-execute_creates, depends-execute_deletes}
use nix_compose.Orchestrate.Sync.Calls.{SyncOutcome, apply_sync_outcome}
use nix_compose.Orchestrate.Sync.{Setting, Store, links_of, apply_sync}

-- The resource is the subject of a delete request of the plan.
abbrev pub is_deleted : Plan → String → Bool
is_deleted plan id =
    contains (map Reference.id (split_requests plan.deployment.requests).deletes) id

module _ (bolt : Bolt) (setting : Setting bolt)
    (removes : (calls : List Call) (r : Reference) → setting.world.removes calls r ≡ true)
    (unlinks : (r : Reference) (db : Links bolt) → (remove_link bolt r db).1 ≡ true) where
  -- When `ApplySync` succeeds, and no removal by a provider and no `RemoveLink` ever fails, a link is
  -- in the database exactly if it was there before or the plan's deployment has it, and its source is
  -- not the subject of a delete request. An
  -- update is a delete request and a create request: the links of an updated resource are removed
  -- behind their persisting, and nothing adds them again.
  pub apply_sync_links :
      (plan : Plan) (s after : Store bolt) (source target : String)
      → apply_sync bolt setting plan s ≡ (after, none)
      → depends bolt after.state.links source target ≡ (
          (depends bolt s.state.links source target
            || links_pair (plan.deployment.dependencies ++ plan.deployment.depending) source target)
          && not (is_deleted plan source))
  apply_sync_links plan s after source target h =
      let done =
        subst (SyncOutcome bolt setting plan s) h (apply_sync_outcome bolt setting plan s) in
      let split = split_requests plan.deployment.requests in
      let links = links_of bolt (setting.link_keys done.db) done.db in
      let (out, e, same) = topo_sort_returns Reference.id split.deletes links true in
      let persisted =
        (persist_links-Adds bolt plan.deployment s.state.links (ap (λ x. x.1) done.persisted) source
          target).0 in
      let deleted =
        depends-execute_deletes bolt setting.world removes unlinks done.deletes
          (record s.state { links = done.db }) source target (ap (λ x. x.1) done.delete_run) in
      let created =
        links-execute_creates bolt setting.world plan.conditions done.creates [] done.deleted
          (ap (λ x. x.1) done.create_run) in
      let after_links : after.state.links ≡ done.deleted.links =
        sym (ap (λ x. x.0.links) done.create_run) ∙ created in
      let in_db = ap (λ x. depends bolt x.0 source target) (sym done.persisted) ∙ persisted in
      let order : out ≡ done.deletes = cc (e, done.deletes_in_order) in
      let in_plan : contains (map Reference.id done.deletes) source ≡ is_deleted plan source =
        rw (← order) (same source) in
      ap (λ l. depends bolt l source target)
        (after_links ∙ sym (ap (λ x. x.0.links) done.delete_run))
      ∙ (deleted ∙ cc (in_db, in_plan))
