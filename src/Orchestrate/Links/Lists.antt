-- ===== src/Orchestrate/Links/Lists.antt =====
-- The ids of reference lists under `Unique`, and under the removal of a source.
use nix_compose.Prelude.{
  String, List, [], ◌∷◌, ◌++◌, ◌≡◌, refl, ◌==◌, ◌&&◌, ◌||◌, not, contains, arith, eq_iff, IsUnique,
}
use nix_compose.Orchestrate.Types.{Reference}
use nix_compose.Orchestrate.Links.{unique_from, unique, without_source}

abbrev pub ids : List Reference → List String
ids [] = []
ids (r ∷ rest) = r.id ∷ ids rest

pub ids-append :
    (xs ys : List Reference) (x : String)
    → contains (ids (xs ++ ys)) x ≡ (contains (ids xs) x || contains (ids ys) x)
ids-append [] ys x = refl
ids-append (r ∷ xs) ys x = ground (arith, ids-append xs ys x)

ids-unique_from :
    (check : List String) (refs : List Reference) (x : String)
    → contains (ids (unique_from check refs)) x ≡ (contains (ids refs) x && not (contains check x))
unfolding unique_from
ids-unique_from check [] x = refl
ids-unique_from check (r ∷ rest) x =
    ground
      (arith, ids-unique_from check rest x, ids-unique_from (r.id ∷ check) rest x, eq_iff r.id x)

pub ids-unique :
    (refs : List Reference) (x : String) → contains (ids (unique refs)) x ≡ contains (ids refs) x
unfolding unique
ids-unique refs x = ground (arith, ids-unique_from [] refs x)

unique_from-IsUnique :
    (check : List String) (refs : List Reference) → IsUnique (ids (unique_from check refs))
unfolding unique_from
unique_from-IsUnique check [] = tt
unique_from-IsUnique check (r ∷ rest) = ground (
  arith,
  unique_from-IsUnique check rest,
  unique_from-IsUnique (r.id ∷ check) rest,
  ids-unique_from (r.id ∷ check) rest r.id,
  eq_iff r.id r.id,
)

pub unique-IsUnique : (refs : List Reference) → IsUnique (ids (unique refs))
unfolding unique
unique-IsUnique refs = unique_from-IsUnique [] refs

pub ids-without_source :
    (source_id : String) (refs : List Reference) (x : String)
    → contains (ids (without_source source_id refs)) x
      ≡ (contains (ids refs) x && not (source_id == x))
unfolding without_source
ids-without_source source_id [] x = refl
ids-without_source source_id (r ∷ rest) x = ground (
  arith,
  ids-without_source source_id rest x,
  eq_iff r.id x,
  eq_iff source_id x,
  eq_iff r.id source_id,
)
