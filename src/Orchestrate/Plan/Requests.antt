-- ===== src/Orchestrate/Plan/Requests.antt =====
-- The loop of `ComputePlan` over the create requests fills the table, one resource at a time.
use nix_compose.Prelude.{
  String, List, [], ◌∷◌, ◌++◌, ◌≡◌, refl, sym, ◌∙◌, subst, Option, none, some, false, ◌==◌, inl,
  inr, contains, IsUnique, ==-cases, Bool-cases, arith, eq_refl, if◌then◌else◌,
}
use mathlib.Core.List.{append-nil, append_assoc}
use nix_compose.Prelude.Dict.{lookup, keys, lookup-delete, delete-IsUnique}
use nix_compose.Orchestrate.Types.{Request, create, delete, status, Rollout}
use nix_compose.Orchestrate.Plan.{
  ActionType, action_create, action_update, action_noop, Action, Walk, body_equal, plan_create,
  walk_requests,
}
use nix_compose.Orchestrate.Plan.Spec.{
  actions_for, requests_for, actions_for-append, requests_for-append, wanted, create_ids,
  walk_actions, walk_table, remaining,
}

module _ (canonical : String → Option String) where
  pub record Follows (id : String) (w w' : Walk) (want : Option (String × String)) : Type 0 where
    pub at_actions :
        actions_for id w'.plan.actions
        ≡ actions_for id w.plan.actions ++ walk_actions canonical want (lookup id w.current)
    pub at_requests :
        requests_for id w'.plan.deployment.requests
        ≡ requests_for id w.plan.deployment.requests
          ++ walk_table canonical id want (lookup id w.current)
    pub at_current : lookup id w'.current ≡ remaining canonical want (lookup id w.current)

  append_action :
      (id j : String) (acts : List Action) (type : ActionType) (key reason : String)
      → actions_for id
          (acts ++ record { type = type; resource_id = j; key = key; reason = reason } ∷ [])
        ≡ actions_for id acts ++ (if j == id then type ∷ [] else [])
  append_action id j acts type key reason =
      actions_for-append id acts
        (record { type = type; resource_id = j; key = key; reason = reason } ∷ [])

  append_two :
      (id j key body : String) (rs : List Request)
      → requests_for id ((rs ++ delete j key ∷ []) ++ create j key body ∷ [])
        ≡ requests_for id rs ++ (if j == id then delete j key ∷ create j key body ∷ [] else [])
  append_two id j key body rs =
      rw (append_assoc rs (delete j key ∷ []) (create j key body ∷ []))
        (requests_for-append id rs (delete j key ∷ create j key body ∷ []) ∙ ground arith)

  pub plan_create_self :
      (id key body : String) (w : Walk) (found : Option Rollout)
      → lookup id w.current ≡ found
      → Follows id w (plan_create canonical id key body found w) (some (key, body))
  unfolding plan_create
  plan_create_self id key body w none e = record {
    at_actions =
        append_action id id w.plan.actions action_create key "new resource" ∙ (rw (eq_refl id, e));
    at_requests =
        requests_for-append id w.plan.deployment.requests (create id key body ∷ [])
        ∙ (rw (eq_refl id, e));
    at_current = e;
  }
  plan_create_self id key body w (some r) e = elim (Bool-cases (body_equal canonical body r.body)) [
    | inl t ↦ record {
      at_actions = rw t (
          append_action id id w.plan.actions action_noop key "unchanged"
          ∙ (rw (eq_refl id, e) (rw t)));
      at_requests =
          rw t (rw e (rw t (sym (append-nil (requests_for id w.plan.deployment.requests)))));
      at_current = rw t (lookup-delete id id w.current ∙ (rw (eq_refl id)));
    }
    | inr f ↦ record {
      at_actions = rw f (
          append_action id id w.plan.actions action_update key "configuration changed"
          ∙ (rw (eq_refl id, e) (rw f)));
      at_requests =
          rw f (append_two id id key body w.plan.deployment.requests ∙ (rw (eq_refl id, e) (rw f)));
      at_current = rw f (lookup-delete id id w.current ∙ (rw (eq_refl id)));
    }
  ]

  plan_create_ne :
      (id j key body : String) (w : Walk) (found : Option Rollout)
      → (j == id) ≡ false
      → Follows id w (plan_create canonical j key body found w) none
  unfolding plan_create
  plan_create_ne id j key body w none f = record {
    at_actions = append_action id j w.plan.actions action_create key "new resource" ∙ (rw f);
    at_requests =
        requests_for-append id w.plan.deployment.requests (create j key body ∷ []) ∙ (rw f);
    at_current = refl;
  }
  plan_create_ne id j key body w (some r) f = elim (Bool-cases (body_equal canonical body r.body)) [
    | inl t ↦ record {
      at_actions = rw t (append_action id j w.plan.actions action_noop key "unchanged" ∙ (rw f));
      at_requests = rw t (sym (append-nil (requests_for id w.plan.deployment.requests)));
      at_current = rw t (lookup-delete j id w.current ∙ (rw f));
    }
    | inr n ↦ record {
      at_actions =
          rw n
            (append_action id j w.plan.actions action_update key "configuration changed" ∙ (rw f));
      at_requests = rw n (append_two id j key body w.plan.deployment.requests ∙ (rw f));
      at_current = rw n (lookup-delete j id w.current ∙ (rw f));
    }
  ]

  Follows-refl : (id : String) (w : Walk) → Follows id w w none
  Follows-refl id w = record {
    at_actions = sym (append-nil (actions_for id w.plan.actions));
    at_requests = sym (append-nil (requests_for id w.plan.deployment.requests));
    at_current = refl;
  }

  -- A request for another resource, and then the rest.
  Follows-skip :
      (id : String) (w mid w' : Walk) (want : Option (String × String))
      → Follows id w mid none
      → Follows id mid w' want
      → Follows id w w' want
  Follows-skip id w mid w' want h k = record {
    at_actions =
        cc (h.at_actions, k.at_actions, h.at_current, append-nil (actions_for id w.plan.actions));
    at_requests = cc (
      h.at_requests,
      k.at_requests,
      h.at_current,
      append-nil (requests_for id w.plan.deployment.requests),
    );
    at_current = cc (h.at_current, k.at_current);
  }

  -- The request for the resource, and then others.
  Follows-then :
      (id : String) (w mid w' : Walk) (want : Option (String × String))
      → Follows id w mid want
      → Follows id mid w' none
      → Follows id w w' want
  Follows-then id w mid w' want h k = record {
    at_actions = k.at_actions ∙ (append-nil (actions_for id mid.plan.actions) ∙ h.at_actions);
    at_requests =
        k.at_requests ∙ (append-nil (requests_for id mid.plan.deployment.requests) ∙ h.at_requests);
    at_current = k.at_current ∙ h.at_current;
  }

  wanted_absent :
      (id : String) (rs : List Request) → contains (create_ids rs) id ≡ false → wanted id rs ≡ none
  wanted_absent id [] h = refl
  wanted_absent id (create j key body ∷ rest) h = ground (arith, wanted_absent id rest)
  wanted_absent id (delete j key ∷ rest) h = wanted_absent id rest h
  wanted_absent id (status j key ∷ rest) h = wanted_absent id rest h

  pub walk_Follows :
      (id : String) (rs : List Request) (w : Walk)
      → IsUnique (create_ids rs)
      → Follows id w (walk_requests canonical rs w) (wanted id rs)
  unfolding walk_requests
  walk_Follows id [] w u = Follows-refl id w
  walk_Follows id (delete j key ∷ rest) w u = walk_Follows id rest w u
  walk_Follows id (status j key ∷ rest) w u = walk_Follows id rest w u
  walk_Follows id (create j key body ∷ rest) w u =
      let mid = plan_create canonical j key body (lookup j w.current) w in
      let later = walk_Follows id rest mid u.1 in
      elim (==-cases j id) [
        | inl (t, e) ↦
            let first =
              subst (λ x. Follows x w mid (some (key, body))) e
                (plan_create_self j key body w (lookup j w.current) refl) in
            rw t (
              Follows-then id w mid _ (some (key, body)) first
                (rw (wanted_absent id rest (rw e at u.0)) at later))
        | inr (f, e) ↦ rw f (
            Follows-skip id w mid _ (wanted id rest)
              (plan_create_ne id j key body w (lookup j w.current) f) later)
      ]

  plan_create-IsUnique :
      (id key body : String) (found : Option Rollout) (w : Walk)
      → IsUnique (keys w.current)
      → IsUnique (keys (plan_create canonical id key body found w).current)
  unfolding plan_create
  plan_create-IsUnique id key body none w u = u
  plan_create-IsUnique id key body (some r) w u = ground (arith, delete-IsUnique id w.current u)

  pub walk-IsUnique :
      (rs : List Request) (w : Walk)
      → IsUnique (keys w.current)
      → IsUnique (keys (walk_requests canonical rs w).current)
  unfolding walk_requests
  walk-IsUnique [] w u = u
  walk-IsUnique (create id key body ∷ rest) w u =
      walk-IsUnique rest _ (plan_create-IsUnique id key body (lookup id w.current) w u)
  walk-IsUnique (delete id key ∷ rest) w u = walk-IsUnique rest w u
  walk-IsUnique (status id key ∷ rest) w u = walk-IsUnique rest w u
