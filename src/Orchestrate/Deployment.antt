-- ===== src/Orchestrate/Deployment.antt =====
-- pkg/orchestrate/deploy/deployment.go: building a deployment, checking its references and persisting
-- its links. Loading a rollout is the parameter `load`, `none` where it fails; each provider is the
-- function that answers `GetReferencesTo`, `none` where it fails. References with an empty id, on
-- which `NewReference` and `NewLink` end the program, are outside the model.
pub mod Check
pub mod Persist
mod Examples
use nix_compose.Prelude.{
  String, List, [], ◌∷◌, ◌++◌, Option, none, some, Bool, true, false, ◌==◌, ◌||◌, if◌then◌else◌,
}
use nix_compose.Orchestrate.Types.{
  Reference, Link, Request, create, delete, status, Deployment, Rollout,
}
use nix_compose.Orchestrate.Links.{Bolt, Links, add_link}

unfoldable pub links_to : Reference → List Reference → List Link
links_to instance [] = []
links_to instance (dep ∷ rest) = record { source = instance; target = dep } ∷ links_to instance rest

unfoldable pub add_creation : Reference → String → List Reference → Deployment → Deployment
unfolding links_to
add_creation instance body dependencies d = record d {
  requests = d.requests ++ create instance.id instance.key body ∷ [];
  dependencies = d.dependencies ++ links_to instance dependencies;
  references = d.references ++ instance ∷ [];
}

abbrev creates_id : String → Request → Bool
creates_id id (create j key body) = j == id
creates_id id (delete j key) = false
creates_id id (status j key) = false

abbrev deletes_id : String → Request → Bool
deletes_id id (create j key body) = false
deletes_id id (delete j key) = j == id
deletes_id id (status j key) = false

pub has_create : List Request → String → Bool
has_create [] id = false
has_create (r ∷ rest) id = creates_id id r || has_create rest id

pub has_delete : List Request → String → Bool
has_delete [] id = false
has_delete (r ∷ rest) id = deletes_id id r || has_delete rest id

pub data CheckError : Type 0 where
  missing_dependency : (id : String) → CheckError
  cannot_load : (id : String) → CheckError
  no_references_from_provider : (id : String) → CheckError
  still_referenced : (id : String) → CheckError

-- What the check asks of the database and the providers.
pub record Deployed : Type 0 where
  pub load : String → Option (Option Rollout)
  pub providers : List (Option Rollout → Option (List Reference))

-- `err == nil && rollout != nil`
abbrev pub is_loaded : Option (Option Rollout) → Bool
is_loaded none = false
is_loaded (some none) = false
is_loaded (some (some rollout)) = true

pub check_create_references : Deployed → List Request → List Link → String → List CheckError
unfolding has_create
check_create_references ctx requests [] id = []
check_create_references ctx requests (dep ∷ rest) id =
    let later = check_create_references ctx requests rest id in
    if dep.source.id == id
    then (if is_loaded (ctx.load dep.target.id)
        then later
        else if has_create requests dep.target.id
        then later
        else missing_dependency dep.target.id ∷ later)
    else later

abbrev pub unless_deleted : List Request → List Reference → List CheckError → List CheckError
unless_deleted requests [] errs = errs
unless_deleted requests (r ∷ rest) errs =
    let later = unless_deleted requests rest errs in
    if has_delete requests r.id then later else still_referenced r.id ∷ later

-- One provider's answer, in front of those of the others.
abbrev pub add_answer :
    String
    → Option (List Reference)
    → List CheckError × List Reference
    → List CheckError × List Reference
add_answer id none (errs, refs) = (no_references_from_provider id ∷ errs, refs)
add_answer id (some found) (errs, refs) = (errs, found ++ refs)

-- The references to a rollout, and one error for each provider that fails.
pub ask_providers :
    String
    → List (Option Rollout → Option (List Reference))
    → Option Rollout
    → List CheckError × List Reference
ask_providers id [] rollout = ([], [])
ask_providers id (p ∷ rest) rollout = add_answer id (p rollout) (ask_providers id rest rollout)

pub check_loaded : Deployed → List Request → String → Option (Option Rollout) → List CheckError
unfolding ask_providers has_delete
check_loaded ctx requests id none = cannot_load id ∷ []
check_loaded ctx requests id (some rollout) =
    let (errs, refs) = ask_providers id ctx.providers rollout in
    errs ++ unless_deleted requests refs []

pub check_delete_references : Deployed → List Request → String → List CheckError
unfolding check_loaded
check_delete_references ctx requests id = check_loaded ctx requests id (ctx.load id)

abbrev pub check_request : Deployed → Deployment → Request → List CheckError
check_request ctx d (create id key body) = check_create_references ctx d.requests d.dependencies id
check_request ctx d (delete id key) = check_delete_references ctx d.requests id
check_request ctx d (status id key) = []

pub check_from : Deployed → Deployment → List Request → List CheckError
unfolding check_create_references check_delete_references
check_from ctx d [] = []
check_from ctx d (r ∷ rest) = check_request ctx d r ++ check_from ctx d rest

unfoldable pub check_references : Deployed → Deployment → List CheckError
unfolding check_from
check_references ctx d = check_from ctx d d.requests

module _ (bolt : Bolt) where
  -- Each link in a transaction of its own, up to the first that fails.
  pub add_links : List Link → Links bolt → Links bolt × Bool
  add_links [] db = (db, true)
  add_links (l ∷ rest) db =
      let later = add_links rest (add_link bolt l db).0 in
      if (add_link bolt l db).1 then later else ((add_link bolt l db).0, false)

  unfoldable pub persist_links : Deployment → Links bolt → Links bolt × Bool
  unfolding add_links
  persist_links d db =
      let (after, ok) = add_links d.dependencies db in
      if ok then add_links d.depending after else (after, false)
