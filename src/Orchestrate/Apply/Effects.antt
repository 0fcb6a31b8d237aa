-- ===== src/Orchestrate/Apply/Effects.antt =====
-- What executed requests leave: the calls of the deletes, and the links.
use nix_compose.Prelude.{
  String, List, [], ◌∷◌, ◌++◌, ◌≡◌, refl, sym, ◌∙◌, ap, Option, none, some, Bool, true, false,
  arith, if◌then◌else◌, map, contains, not, ◌&&◌, ◌==◌,
}
use mathlib.Core.List.{append_assoc, append-nil}
use nix_compose.Orchestrate.Types.{Reference}
use nix_compose.Orchestrate.Plan.{ConditionMap}
use nix_compose.Orchestrate.Links.{Bolt, Links, remove_link}
use nix_compose.Orchestrate.Links.Holds.{depends}
use nix_compose.Orchestrate.Links.Mirror.{remove_link_lem}
use nix_compose.Orchestrate.Apply.{
  CreateRequest, Call, removed, World, ApplyError, State, save_rollout, process_create,
  process_delete, execute_deletes, execute_creates, conditions_met, context_cancelled,
  create_failed, condition_failed,
}

abbrev pub removal_calls : List Reference → List Call
removal_calls [] = []
removal_calls (r ∷ rest) = removed r.id ∷ removal_calls rest

module _ (bolt : Bolt) (world : World) where
  calls-process_delete :
      (r : Reference) (s : State bolt)
      → (process_delete bolt world r s).0.calls ≡ s.calls ++ removed r.id ∷ []
  unfolding process_delete
  calls-process_delete r s = ground arith

  -- A run without an error did not stop.
  went_on :
      (stop : Bool) (s : State bolt) (e : ApplyError) (later : State bolt × Option ApplyError)
      → (if stop then (s, some e) else later).1 ≡ none
      → (if stop then (s, some e) else later) ≡ later
  went_on true s e later h = cc
  went_on false s e later h = refl

  went_on_if :
      (go : Bool) (s : State bolt) (e : ApplyError) (later : State bolt × Option ApplyError)
      → (if go then later else (s, some e)).1 ≡ none
      → (if go then later else (s, some e)) ≡ later
  went_on_if true s e later h = refl
  went_on_if false s e later h = cc

  execute_deletes-cons :
      (r : Reference) (rest : List Reference) (s : State bolt)
      → (execute_deletes bolt world (r ∷ rest) s).1 ≡ none
      → execute_deletes bolt world (r ∷ rest) s
        ≡ execute_deletes bolt world rest (process_delete bolt world r s).0
  unfolding execute_deletes
  execute_deletes-cons r rest s = went_on (world.cancelled s.calls) s context_cancelled _

  execute_creates-cons :
      (conditions : ConditionMap) (r : CreateRequest) (rest earlier : List CreateRequest)
      (s : State bolt)
      → (execute_creates bolt world conditions (r ∷ rest) earlier s).1 ≡ none
      → execute_creates bolt world conditions (r ∷ rest) earlier s
        ≡ execute_creates bolt world conditions rest
            (earlier ++ r ∷ [])
            (process_create bolt world r s).0
  unfolding execute_creates
  execute_creates-cons conditions r rest earlier s h =
      let first = went_on (world.cancelled s.calls) _ context_cancelled _ h in
      let second =
        went_on_if (process_create bolt world r s).1 _ (create_failed r.id) _
          (ap (λ x. x.1) (sym first) ∙ h) in
      let third =
        went_on_if (conditions_met bolt world conditions r.id (process_create bolt world r s).0) _
          (condition_failed r.id) _ (ap (λ x. x.1) (sym (first ∙ second)) ∙ h) in
      first ∙ second ∙ third

  pub calls-execute_deletes :
      (rs : List Reference) (s : State bolt)
      → (execute_deletes bolt world rs s).1 ≡ none
      → (execute_deletes bolt world rs s).0.calls ≡ s.calls ++ removal_calls rs
  unfolding execute_deletes
  calls-execute_deletes [] s h = sym (append-nil s.calls)
  calls-execute_deletes (r ∷ rest) s h =
      let same = execute_deletes-cons r rest s h in
      let mid = (process_delete bolt world r s).0 in
      ap (λ x. x.0.calls) same
      ∙ (calls-execute_deletes rest mid (ap (λ x. x.1) (sym same) ∙ h)
          ∙ (rw (calls-process_delete r s)
              (append_assoc s.calls (removed r.id ∷ []) (removal_calls rest))))

  links-process_create :
      (r : CreateRequest) (s : State bolt) → (process_create bolt world r s).0.links ≡ s.links
  unfolding process_create save_rollout
  links-process_create r s = ground arith

  -- Creates leave the links alone, unless they are rolled back.
  pub links-execute_creates :
      (conditions : ConditionMap) (rs earlier : List CreateRequest) (s : State bolt)
      → (execute_creates bolt world conditions rs earlier s).1 ≡ none
      → (execute_creates bolt world conditions rs earlier s).0.links ≡ s.links
  unfolding execute_creates
  links-execute_creates conditions [] earlier s h = refl
  links-execute_creates conditions (r ∷ rest) earlier s h =
      let same = execute_creates-cons conditions r rest earlier s h in
      let mid = (process_create bolt world r s).0 in
      ap (λ x. x.0.links) same
      ∙ (links-execute_creates conditions rest (earlier ++ r ∷ []) mid
            (ap (λ x. x.1) (sym same) ∙ h)
          ∙ links-process_create r s)

  module _ (removes : (calls : List Call) (r : Reference) → world.removes calls r ≡ true)
      (unlinks : (r : Reference) (db : Links bolt) → (remove_link bolt r db).1 ≡ true) where
    depends-process_delete :
        (r : Reference) (s : State bolt) (source target : String)
        → depends bolt (process_delete bolt world r s).0.links source target
          ≡ (depends bolt s.links source target && not (r.id == source))
    unfolding process_delete
    depends-process_delete r s source target =
        let (after, done) = remove_link bolt r s.links in
        rw (removes s.calls r) (
          (remove_link_lem bolt r s.links after done source target refl).0
          ∙ ground (arith, unlinks r s.links))

    -- Where all deletes succeed, the links out of the deleted resources are gone, and no other.
    pub depends-execute_deletes :
        (rs : List Reference) (s : State bolt) (source target : String)
        → (execute_deletes bolt world rs s).1 ≡ none
        → depends bolt (execute_deletes bolt world rs s).0.links source target
          ≡ (depends bolt s.links source target && not (contains (map Reference.id rs) source))
    unfolding execute_deletes
    depends-execute_deletes [] s source target h = ground arith
    depends-execute_deletes (r ∷ rest) s source target h =
        let same = execute_deletes-cons r rest s h in
        let mid = (process_delete bolt world r s).0 in
        ap (λ x. depends bolt x.0.links source target) same
        ∙ (depends-execute_deletes rest mid source target (ap (λ x. x.1) (sym same) ∙ h)
            ∙ ground (arith, depends-process_delete r s source target))
