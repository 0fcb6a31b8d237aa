-- ===== src/Orchestrate/Apply/Rollback.antt =====
-- What a run of creates leaves: all of them, or none, the last one undone first.
use nix_compose.Prelude.{
  List, [], ◌∷◌, ◌++◌, ◌≡◌, ◌≢◌, refl, sym, ◌∙◌, ap, Option, none, some, true, ◌⊎◌, inl, inr,
  Bool-cases, arith, reverse, if◌then◌else◌,
}
use mathlib.Core.List.{append_assoc, append-nil}
use nix_compose.Orchestrate.Plan.{ConditionMap}
use nix_compose.Orchestrate.Links.{Bolt}
use nix_compose.Orchestrate.Apply.{
  CreateRequest, Call, applied, removed, World, ApplyError, State, process_create, process_delete,
  save_rollout, reference_of, delete_all, rollback, conditions_met, execute_creates, create_failed,
  condition_failed, context_cancelled,
}

abbrev pub apply_calls : List CreateRequest → List Call
apply_calls [] = []
apply_calls (r ∷ rest) = applied r.id ∷ apply_calls rest

abbrev pub remove_calls : List CreateRequest → List Call
remove_calls [] = []
remove_calls (r ∷ rest) = removed r.id ∷ remove_calls rest

module _ (bolt : Bolt) (world : World) where
  calls-delete_all :
      (rs : List CreateRequest) (s : State bolt)
      → (delete_all bolt world rs s).calls ≡ s.calls ++ remove_calls rs
  unfolding delete_all
  calls-delete_all [] s = sym (append-nil s.calls)
  calls-delete_all (r ∷ rest) s =
      calls-delete_all rest _
      ∙ (ap (λ l. l ++ remove_calls rest) (calls-process_delete r s)
          ∙ append_assoc s.calls (removed r.id ∷ []) (remove_calls rest))
    where
      calls-process_delete :
          (r : CreateRequest) (s : State bolt)
          → (process_delete bolt world (reference_of r) s).0.calls ≡ s.calls ++ removed r.id ∷ []
      calls-process_delete r s = ground arith

  calls-process_create :
      (r : CreateRequest) (s : State bolt)
      → (process_create bolt world r s).0.calls
        ≡ s.calls ++ (if world.loads r then applied r.id ∷ [] else [])
  unfolding process_create save_rollout
  calls-process_create r s = elim (Bool-cases (world.loads r)) [
    | inl t ↦ rw t (ground arith)
    | inr f ↦ rw f (sym (append-nil s.calls))
  ]

  loads_of_ok :
      (r : CreateRequest) (s : State bolt)
      → (process_create bolt world r s).1 ≡ true
      → world.loads r ≡ true
  unfolding process_create
  loads_of_ok r s h = ground arith

  -- Why a run stops behind the requests `created`, by its error: the calls made for the next
  -- request, and the requests that are undone. A next request whose instance does not load is not
  -- applied; one that is applied in vain stays; one whose conditions are not met is undone as well.
  pub data Stop
      : List CreateRequest
        → List CreateRequest
        → Option ApplyError
        → List Call
        → List CreateRequest
        → Type 0 where
    on_cancel :
        {created rest : List CreateRequest} → Stop created rest (some context_cancelled) [] created
    on_failure :
        {created later : List CreateRequest} (r : CreateRequest)
        → Stop created
            (r ∷ later)
            (some (create_failed r.id))
            (if world.loads r then applied r.id ∷ [] else [])
            created
    on_condition :
        {created later : List CreateRequest} (r : CreateRequest)
        → Stop created
            (r ∷ later)
            (some (condition_failed r.id))
            (applied r.id ∷ [])
            (created ++ r ∷ [])

  Stop-fails :
      {created rest undone : List CreateRequest} {err : Option ApplyError} {attempt : List Call}
      → Stop created rest err attempt undone
      → err ≢ none
  Stop-fails on_cancel = λ e. cc
  Stop-fails (on_failure r) = λ e. cc
  Stop-fails (on_condition r) = λ e. cc

  Stop-cons :
      {created rest undone : List CreateRequest} {err : Option ApplyError} {attempt : List Call}
      (r : CreateRequest)
      → Stop created rest err attempt undone
      → Stop (r ∷ created) rest err attempt (r ∷ undone)
  Stop-cons r on_cancel = on_cancel
  Stop-cons r (on_failure x) = on_failure x
  Stop-cons r (on_condition x) = on_condition x

  -- Some first requests were applied; then those undone and the `earlier` ones were removed, the last
  -- one first.
  pub record IsRolledBack (earlier rs : List CreateRequest) (before after : List Call)
      (err : Option ApplyError) : Type 0 where
    pub created : List CreateRequest
    pub rest : List CreateRequest
    pub attempt : List Call
    pub undone : List CreateRequest
    pub split : rs ≡ created ++ rest
    pub why : Stop created rest err attempt undone
    pub calls :
        after
        ≡ before ++ (apply_calls created ++ (attempt ++ remove_calls (reverse (earlier ++ undone))))

  pub IsRolledBack-fails :
      (earlier rs : List CreateRequest) (before after : List Call) (err : Option ApplyError)
      → IsRolledBack earlier rs before after err
      → err ≢ none
  IsRolledBack-fails earlier rs before after err b = Stop-fails b.why

  abbrev pub CreatesOutcome :
      List CreateRequest → List CreateRequest → State bolt → State bolt × Option ApplyError → Type 0
  CreatesOutcome earlier rs s (s', err) =
      ((err ≡ none) × (s'.calls ≡ s.calls ++ apply_calls rs))
      ⊎ IsRolledBack earlier rs s.calls s'.calls err

  CreatesOutcome-cons :
      (r : CreateRequest) (earlier rest : List CreateRequest) (s mid : State bolt)
      (result : State bolt × Option ApplyError)
      → mid.calls ≡ s.calls ++ applied r.id ∷ []
      → CreatesOutcome (earlier ++ r ∷ []) rest mid result
      → CreatesOutcome earlier (r ∷ rest) s result
  CreatesOutcome-cons r earlier rest s mid (s', err) m (inl (e, c)) =
      inl (e, c ∙ (rw m (append_assoc s.calls (applied r.id ∷ []) (apply_calls rest))))
  CreatesOutcome-cons r earlier rest s mid (s', err) m (inr b) = inr (record {
    created = r ∷ b.created;
    rest = b.rest;
    attempt = b.attempt;
    undone = r ∷ b.undone;
    split = ap (λ l. r ∷ l) b.split;
    why = Stop-cons r b.why;
    calls =
        b.calls
        ∙ (rw m (
            rw (append_assoc earlier (r ∷ []) b.undone)
              (append_assoc s.calls (applied r.id ∷ []) _)));
  })

  -- The run stops at `r`, which was not applied to the end.
  IsRolledBack-create_failed :
      (r : CreateRequest) (rest earlier : List CreateRequest) (s : State bolt)
      → IsRolledBack earlier
          (r ∷ rest)
          s.calls
          (rollback bolt world earlier (process_create bolt world r s).0).calls
          (some (create_failed r.id))
  unfolding rollback
  IsRolledBack-create_failed r rest earlier s = record {
    created = [];
    rest = r ∷ rest;
    attempt = if world.loads r then applied r.id ∷ [] else [];
    undone = [];
    split = refl;
    why = on_failure r;
    calls =
        calls-delete_all (reverse earlier) _
        ∙ (rw (calls-process_create r s, append-nil earlier) (append_assoc s.calls _ _));
  }

  -- The run stops behind `r`, whose conditions are not met.
  IsRolledBack-condition_failed :
      (r : CreateRequest) (rest earlier : List CreateRequest) (s mid : State bolt)
      → mid.calls ≡ s.calls ++ applied r.id ∷ []
      → IsRolledBack earlier
          (r ∷ rest)
          s.calls
          (rollback bolt world (earlier ++ r ∷ []) mid).calls
          (some (condition_failed r.id))
  unfolding rollback
  IsRolledBack-condition_failed r rest earlier s mid m = record {
    created = [];
    rest = r ∷ rest;
    attempt = applied r.id ∷ [];
    undone = r ∷ [];
    split = refl;
    why = on_condition r;
    calls =
        calls-delete_all (reverse (earlier ++ r ∷ [])) mid
        ∙ (rw m (append_assoc s.calls (applied r.id ∷ []) _));
  }

  calls-process_create_ok :
      (r : CreateRequest) (s : State bolt)
      → (process_create bolt world r s).1 ≡ true
      → (process_create bolt world r s).0.calls ≡ s.calls ++ applied r.id ∷ []
  calls-process_create_ok r s ok =
      calls-process_create r s
      ∙ ap (λ b. s.calls ++ (if b then applied r.id ∷ [] else [])) (loads_of_ok r s ok)

  module _ (conditions : ConditionMap) where
    -- `executeCreates` without an error has applied all requests, in order and each once. With an
    -- error it has applied some first requests and then removed them and the `earlier` ones again, the
    -- last one first. Where the context was cancelled it made no other call. Where the next request
    -- failed, the error names it, it was applied once if its instance loads, and it was not removed.
    -- Where the conditions on the next one were not met, the error names it, and it was applied once
    -- and removed first.
    pub execute_creates_outcome :
        (rs earlier : List CreateRequest) (s : State bolt)
        → CreatesOutcome earlier rs s (execute_creates bolt world conditions rs earlier s)
    unfolding execute_creates rollback
    execute_creates_outcome [] earlier s = inl (refl, sym (append-nil s.calls))
    execute_creates_outcome (r ∷ rest) earlier s = elim (Bool-cases (world.cancelled s.calls)) [
      | inl t ↦ rw t (
          inr (record {
            created = [];
            rest = r ∷ rest;
            attempt = [];
            undone = [];
            split = refl;
            why = on_cancel;
            calls = rw append-nil (calls-delete_all (reverse earlier) s);
          }))
      | inr f ↦ rw f (elim (Bool-cases (process_create bolt world r s).1) [
        | inr failed ↦ rw failed (inr (IsRolledBack-create_failed r rest earlier s))
        | inl ok ↦
            let mid = (process_create bolt world r s).0 in
            let m = calls-process_create_ok r s ok in
            rw ok (elim (Bool-cases (conditions_met bolt world conditions r.id mid)) [
              | inl met ↦ rw met (
                  CreatesOutcome-cons r earlier rest s mid
                    (execute_creates bolt world conditions rest (earlier ++ r ∷ []) mid) m
                    (execute_creates_outcome rest (earlier ++ r ∷ []) mid))
              | inr unmet ↦ rw unmet (inr (IsRolledBack-condition_failed r rest earlier s mid m))
            ])
      ])
    ]
