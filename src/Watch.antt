-- ===== src/Watch.antt =====
-- pkg/watch/diff.go. `json.Marshal` is the parameter `marshal`, `none` where it fails.
pub mod Laws
mod Examples
use nix_compose.Prelude.{
  String, List, [], ◌∷◌, Option, none, some, Bool, true, false, ◌==◌, ◌&&◌, if◌then◌else◌,
}
use nix_compose.Prelude.Dict.{Dict, lookup, has}
use nix_compose.Prelude.Sort.{sort}
use nix_compose.Eval.{Service, Composition}

pub record DiffResult : Type 0 where
  pub added : List String
  pub removed : List String
  pub changed : List String

abbrev no_names : List String → Bool
no_names [] = true
no_names (_ ∷ _) = false

pub is_empty : DiffResult → Bool
is_empty d = no_names d.added && no_names d.removed && no_names d.changed

abbrev put_entry : String → Option String → Option (Dict String) → Option (Dict String)
put_entry name (some body) (some m) = some ((name, body) ∷ m)
put_entry name none _ = none
put_entry name (some body) none = none

-- The services' texts by name; `none` if one cannot be marshalled.
pub marshal_services : (Service → Option String) → Dict Service → Option (Dict String)
marshal_services marshal [] = some []
marshal_services marshal ((name, svc) ∷ rest) =
    put_entry name (marshal svc) (marshal_services marshal rest)

-- The names of the new services that the old ones lack.
pub added_names : Dict String → Dict String → List String
added_names old [] = []
added_names old ((name, body) ∷ rest) =
    let later = added_names old rest in if has name old then later else name ∷ later

abbrev pub differs : Option String → String → Bool
differs none body = false
differs (some old_body) body = if old_body == body then false else true

-- The names of the new services whose old text is another.
pub changed_names : Dict String → Dict String → List String
changed_names old [] = []
changed_names old ((name, body) ∷ rest) =
    let later = changed_names old rest in
    if differs (lookup name old) body then name ∷ later else later

pub diff_marshalled : Option (Dict String) → Option (Dict String) → Option DiffResult
unfolding added_names changed_names
diff_marshalled none _ = none
diff_marshalled (some old) none = none
diff_marshalled (some old) (some new) = some (record {
  added = sort (added_names old new);
  removed = sort (added_names new old);
  changed = sort (changed_names old new);
})

-- `none` is the error of marshalling.
pub diff_compositions : (Service → Option String) → Composition → Composition → Option DiffResult
unfolding diff_marshalled marshal_services
diff_compositions marshal old new =
    diff_marshalled (marshal_services marshal old.services) (marshal_services marshal new.services)
