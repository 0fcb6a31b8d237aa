-- ===== src/Orchestrate/Deployment/Check.antt =====
-- What a deployment without reference errors satisfies.
use nix_compose.Prelude.{
  String, List, [], ◌∷◌, ◌++◌, ◌≡◌, refl, ap, ◌∙◌, Option, none, some, Bool, true, false, ◌==◌,
  ◌&&◌, ◌||◌, not, arith,
}
use nix_compose.Orchestrate.Types.{
  Request, create, delete, status, Deployment, Link, Reference, Rollout,
}
use nix_compose.Orchestrate.Deployment.{
  Deployed, CheckError, has_create, is_loaded, check_create_references, check_delete_references,
  unless_deleted, ask_providers, add_answer, check_loaded, has_delete, check_from, check_references,
}

-- No error.
abbrev pub is_clean : List CheckError → Bool
is_clean [] = true
is_clean (_ ∷ _) = false

is_clean-append : (xs ys : List CheckError) → is_clean (xs ++ ys) ≡ (is_clean xs && is_clean ys)
is_clean-append [] ys = refl
is_clean-append (x ∷ xs) ys = refl

-- Every dependency of `id` is deployed, or created with it.
abbrev pub met : Deployed → List Request → List Link → String → Bool
met ctx requests [] id = true
met ctx requests (dep ∷ rest) id =
    (not (dep.source.id == id)
      || (is_loaded (ctx.load dep.target.id) || has_create requests dep.target.id))
    && met ctx requests rest id

clean-check_create :
    (ctx : Deployed) (requests : List Request) (deps : List Link) (id : String)
    → is_clean (check_create_references ctx requests deps id) ≡ met ctx requests deps id
unfolding check_create_references
clean-check_create ctx requests [] id = refl
clean-check_create ctx requests (dep ∷ rest) id =
    ground (arith, clean-check_create ctx requests rest id)

-- All the references are deleted by the deployment.
abbrev pub all_deleted : List Request → List Reference → Bool
all_deleted requests [] = true
all_deleted requests (r ∷ rest) = has_delete requests r.id && all_deleted requests rest

-- A provider answered, with references that are all deleted.
abbrev pub freed : List Request → Option (List Reference) → Bool
freed requests none = false
freed requests (some refs) = all_deleted requests refs

abbrev pub all_freed :
    List Request → List (Option Rollout → Option (List Reference)) → Option Rollout → Bool
all_freed requests [] rollout = true
all_freed requests (p ∷ rest) rollout =
    freed requests (p rollout) && all_freed requests rest rollout

-- The rollout can be read, and nothing that stays refers to it.
abbrev pub released : Deployed → List Request → Option (Option Rollout) → Bool
released ctx requests none = false
released ctx requests (some rollout) = all_freed requests ctx.providers rollout

all_deleted-append :
    (requests : List Request) (xs ys : List Reference)
    → all_deleted requests (xs ++ ys) ≡ (all_deleted requests xs && all_deleted requests ys)
all_deleted-append requests [] ys = refl
all_deleted-append requests (x ∷ xs) ys = ground (arith, all_deleted-append requests xs ys)

clean-unless_deleted :
    (requests : List Request) (refs : List Reference)
    → is_clean (unless_deleted requests refs []) ≡ all_deleted requests refs
clean-unless_deleted requests [] = refl
clean-unless_deleted requests (r ∷ rest) = ground (arith, clean-unless_deleted requests rest)

-- No provider failed, and all the references are deleted.
abbrev asked_ok : List Request → List CheckError × List Reference → Bool
asked_ok requests (errs, refs) = is_clean errs && all_deleted requests refs

asked_ok-add_answer :
    (requests : List Request) (id : String) (answer : Option (List Reference))
    (others : List CheckError × List Reference)
    → asked_ok requests (add_answer id answer others)
      ≡ (freed requests answer && asked_ok requests others)
asked_ok-add_answer requests id none (errs, refs) = refl
asked_ok-add_answer requests id (some found) (errs, refs) =
    ground (arith, all_deleted-append requests found refs)

asked_ok-ask_providers :
    (requests : List Request) (id : String)
    (providers : List (Option Rollout → Option (List Reference))) (rollout : Option Rollout)
    → asked_ok requests (ask_providers id providers rollout) ≡ all_freed requests providers rollout
unfolding ask_providers
asked_ok-ask_providers requests id [] rollout = refl
asked_ok-ask_providers requests id (p ∷ rest) rollout =
    asked_ok-add_answer requests id (p rollout) (ask_providers id rest rollout)
    ∙ ap (λ b. freed requests (p rollout) && b) (asked_ok-ask_providers requests id rest rollout)

clean-check_loaded :
    (ctx : Deployed) (requests : List Request) (id : String) (found : Option (Option Rollout))
    → is_clean (check_loaded ctx requests id found) ≡ released ctx requests found
unfolding check_loaded
clean-check_loaded ctx requests id none = refl
clean-check_loaded ctx requests id (some rollout) =
    is_clean-append (ask_providers id ctx.providers rollout).0 _
    ∙ (rw (clean-unless_deleted requests (ask_providers id ctx.providers rollout).1)
        (asked_ok-ask_providers requests id ctx.providers rollout))

-- Each create finds its dependencies, and each delete's rollout is released.
abbrev pub all_met : Deployed → Deployment → List Request → Bool
all_met ctx d [] = true
all_met ctx d (create id key body ∷ rest) =
    met ctx d.requests d.dependencies id && all_met ctx d rest
all_met ctx d (delete id key ∷ rest) = released ctx d.requests (ctx.load id) && all_met ctx d rest
all_met ctx d (status id key ∷ rest) = all_met ctx d rest

clean-check_from :
    (ctx : Deployed) (d : Deployment) (requests : List Request)
    → is_clean (check_from ctx d requests) ≡ all_met ctx d requests
unfolding check_from check_delete_references
clean-check_from ctx d [] = refl
clean-check_from ctx d (create id key body ∷ rest) =
    is_clean-append (check_create_references ctx d.requests d.dependencies id) _
    ∙ (rw (clean-check_create ctx d.requests d.dependencies id, clean-check_from ctx d rest) refl)
clean-check_from ctx d (delete id key ∷ rest) =
    is_clean-append (check_delete_references ctx d.requests id) _
    ∙ (rw (clean-check_loaded ctx d.requests id (ctx.load id), clean-check_from ctx d rest) refl)
clean-check_from ctx d (status id key ∷ rest) = clean-check_from ctx d rest

-- `CheckReferences` finds no error exactly if every dependency of a created resource is deployed or
-- created by the same deployment, and of every deleted resource the rollout can be read, all
-- providers answer, and what refers to it is deleted by the same deployment.
pub check_references_clean :
    (ctx : Deployed) (d : Deployment) → is_clean (check_references ctx d) ≡ all_met ctx d d.requests
unfolding check_references
check_references_clean ctx d = clean-check_from ctx d d.requests
