-- ===== src/Watch/Laws.antt =====
-- What a diff of two compositions names.
use nix_compose.Prelude.{
  String, List, [], ◌∷◌, ◌≡◌, refl, ◌∙◌, ap, Option, none, some, Bool, false, ◌&&◌, not, arith,
  contains, IsUnique, eq_iff,
}
use nix_compose.Prelude.Dict.{Dict, lookup, has, keys, contains-keys}
use nix_compose.Prelude.Sort.{sort, IsSorted, sort-IsSorted, contains-sort, sort-IsUnique}
use nix_compose.Eval.{Service, Composition}
use nix_compose.Watch.{
  DiffResult, added_names, changed_names, differs, diff_marshalled, diff_compositions,
  marshal_services,
}

contains-added_names :
    (old new : Dict String) (name : String)
    → contains (added_names old new) name ≡ (has name new && not (has name old))
unfolding added_names lookup
contains-added_names old [] name = refl
contains-added_names old ((n, body) ∷ rest) name =
    ground (arith, eq_iff n name, contains-added_names old rest name)

added_names-IsUnique :
    (old new : Dict String) → IsUnique (keys new) → IsUnique (added_names old new)
unfolding added_names
added_names-IsUnique old [] u = tt
added_names-IsUnique old ((n, body) ∷ rest) u =
    ground
      (arith, added_names-IsUnique old rest, contains-added_names old rest n, contains-keys rest n)

abbrev pub IsTidy : List String → Type 0
IsTidy names = IsSorted names × IsUnique names

tidy : (names : List String) → IsUnique names → IsTidy (sort names)
tidy names u = (sort-IsSorted names, sort-IsUnique names u)

-- Both have the name, with different texts.
abbrev pub both_differ : Option String → Option String → Bool
both_differ old none = false
both_differ old (some body) = differs old body

contains-changed_names :
    (old new : Dict String) (name : String)
    → IsUnique (keys new)
    → contains (changed_names old new) name ≡ both_differ (lookup name old) (lookup name new)
unfolding changed_names lookup
contains-changed_names old [] name u = refl
contains-changed_names old ((n, body) ∷ rest) name u = ground (
  arith,
  eq_iff n name,
  contains-changed_names old rest name,
  contains-keys rest name,
  eq_iff name n,
)

changed_names-IsUnique :
    (old new : Dict String) → IsUnique (keys new) → IsUnique (changed_names old new)
unfolding changed_names
changed_names-IsUnique old [] u = tt
changed_names-IsUnique old ((n, body) ∷ rest) u = ground (
  arith,
  changed_names-IsUnique old rest,
  contains-changed_names old rest n u.1,
  contains-keys rest n,
)

module _ (text : Service → String) where
  -- The texts of all services.
  abbrev texts : Dict Service → Dict String
  texts [] = []
  texts ((name, svc) ∷ rest) = (name, text svc) ∷ texts rest

  marshal_services-texts :
      (marshal : Service → Option String) (services : Dict Service)
      → ((svc : Service) → marshal svc ≡ some (text svc))
      → marshal_services marshal services ≡ some (texts services)
  unfolding marshal_services
  marshal_services-texts marshal [] h = refl
  marshal_services-texts marshal ((name, svc) ∷ rest) h =
      rw (h svc, marshal_services-texts marshal rest h) refl

  keys-texts : (services : Dict Service) → keys (texts services) ≡ keys services
  keys-texts [] = refl
  keys-texts ((name, svc) ∷ rest) = ap (λ l. name ∷ l) (keys-texts rest)

  -- The text of a service, if there is one.
  abbrev pub text_of_found : Option Service → Option String
  text_of_found none = none
  text_of_found (some svc) = some (text svc)

  lookup-texts :
      (services : Dict Service) (name : String)
      → lookup name (texts services) ≡ text_of_found (lookup name services)
  unfolding lookup
  lookup-texts [] name = refl
  lookup-texts ((n, svc) ∷ rest) name = ground (arith, lookup-texts rest name)

  -- The three lists, name by name.
  abbrev pub Describes : Dict Service → Dict Service → DiffResult → Type 0
  Describes old new d =
      (name : String)
      → (contains d.added name ≡ (has name new && not (has name old)))
        × (contains d.removed name ≡ (has name old && not (has name new)))
        × (contains d.changed name
            ≡ both_differ (text_of_found (lookup name old)) (text_of_found (lookup name new)))

  has-texts :
      (services : Dict Service) (name : String) → has name (texts services) ≡ has name services
  has-texts services name = ground (arith, lookup-texts services name)

  diff_of : Dict Service → Dict Service → DiffResult
  diff_of old new = record {
    added = sort (added_names (texts old) (texts new));
    removed = sort (added_names (texts new) (texts old));
    changed = sort (changed_names (texts old) (texts new));
  }

  diff_of-Describes :
      (old new : Dict Service) → IsUnique (keys new) → Describes old new (diff_of old new)
  unfolding diff_of
  diff_of-Describes old new un name = (
    contains-sort (added_names (texts old) (texts new)) name
        ∙ (contains-added_names (texts old) (texts new) name
            ∙ (rw (has-texts old name, has-texts new name) refl)),
    contains-sort (added_names (texts new) (texts old)) name
        ∙ (contains-added_names (texts new) (texts old) name
            ∙ (rw (has-texts old name, has-texts new name) refl)),
    contains-sort (changed_names (texts old) (texts new)) name
        ∙ (contains-changed_names (texts old) (texts new) name (rw (keys-texts new) un)
            ∙ (rw (lookup-texts old name, lookup-texts new name) refl)),
  )

  -- Where every service can be marshalled, to `text`, and neither composition names a service twice,
  -- the diff succeeds. It names exactly the services that only the new composition has, those that
  -- only the old one has, and those that both have with different texts; each list is sorted and
  -- names no service twice.
  pub diff_compositions_lem :
      (marshal : Service → Option String) (old new : Composition)
      → ((svc : Service) → marshal svc ≡ some (text svc))
      → IsUnique (keys old.services)
      → IsUnique (keys new.services)
      → (d : DiffResult) × (diff_compositions marshal old new ≡ some d)
        × Describes old.services new.services d
        × IsTidy d.added
        × IsTidy d.removed
        × IsTidy d.changed
  unfolding diff_compositions diff_marshalled diff_of
  diff_compositions_lem marshal old new total uo un =
      let uo' : IsUnique (keys (texts old.services)) = rw (keys-texts old.services) uo in
      let un' : IsUnique (keys (texts new.services)) = rw (keys-texts new.services) un in
      (
        diff_of old.services new.services,
        rw
            (
              marshal_services-texts marshal old.services total,
              marshal_services-texts marshal new.services total,
            )
            refl,
        diff_of-Describes old.services new.services un,
        tidy (added_names (texts old.services) (texts new.services)) (added_names-IsUnique _ _ un'),
        tidy (added_names (texts new.services) (texts old.services)) (added_names-IsUnique _ _ uo'),
        tidy (changed_names (texts old.services) (texts new.services))
            (changed_names-IsUnique _ _ un'),
      )
