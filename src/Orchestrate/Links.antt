-- ===== src/Orchestrate/Links.antt =====
-- pkg/orchestrate/state/dependencies.go: dependency links, kept in two buckets, by source and by
-- target. bbolt is the parameter `Bolt`: a bucket of reference lists, whose writes may fail. A
-- transaction that fails leaves both buckets as they were. The lists stand for their JSON, which
-- this code alone writes, so that decoding it never fails.
pub mod Lists
pub mod Memory
pub mod Holds
pub mod Mirror
mod Examples
use nix_compose.Prelude.{
  String, List, [], ◌∷◌, ◌++◌, Option, none, some, Bool, true, false, ◌==◌, ◌≡◌, if◌then◌else◌,
  contains,
}
use nix_compose.Orchestrate.Types.{Reference, Link}

-- What the code relies on of go.etcd.io/bbolt: a bucket is a map, and a write changes one key.
pub record Bolt : Type 1 where
  pub Bucket : Type 0
  pub get : String → Bucket → Option (List Reference)
  pub put : String → List Reference → Bucket → Option Bucket
  pub remove : String → Bucket → Option Bucket
  pub get-put :
      (k j : String) (v : List Reference) (b b' : Bucket)
      → put k v b ≡ some b'
      → get j b' ≡ (if k == j then some v else get j b)
  pub get-remove :
      (k j : String) (b b' : Bucket)
      → remove k b ≡ some b'
      → get j b' ≡ (if k == j then none else get j b)

-- typing.ReferenceList.Unique: the first reference with each id.
pub unique_from : List String → List Reference → List Reference
unique_from check [] = []
unique_from check (r ∷ rest) =
    let later = unique_from check rest in
    let first = r ∷ unique_from (r.id ∷ check) rest in if contains check r.id then later else first

pub unique : List Reference → List Reference
unfolding unique_from
unique refs = unique_from [] refs

-- A missing key reads as no references.
abbrev pub read_refs : Option (List Reference) → List Reference
read_refs none = []
read_refs (some refs) = refs

-- The references whose id is not `source_id`.
pub without_source : String → List Reference → List Reference
without_source source_id [] = []
without_source source_id (s ∷ rest) =
    let later = without_source source_id rest in if s.id == source_id then later else s ∷ later

abbrev pub and_then {ℓ} : {A B : Type ℓ} → Option A → (A → Option B) → Option B
and_then none f = none
and_then (some a) f = f a

module _ (bolt : Bolt) where
  open bolt use {Bucket, get, put, remove}

  -- The two buckets of a transaction.
  pub record Links : Type 0 where
    pub by_source : Bucket
    pub by_target : Bucket

  -- `Update`: the state after the transaction, and whether it succeeded.
  pub update : (Links → Option Links) → Links → Links × Bool
  update tx db = elim (tx db) [ none ↦ (db, false) | some after ↦ (after, true) ]

  pub add_to : Reference → Reference → Bucket → Option Bucket
  unfolding unique
  add_to from to bucket = put from.id (unique (read_refs (get from.id bucket) ++ to ∷ [])) bucket

  -- The transaction of `AddLink`.
  pub add_link_tx : Link → Links → Option Links
  unfolding add_to
  add_link_tx l db = and_then (add_to l.source l.target db.by_source) λ sources.
      and_then (add_to l.target l.source db.by_target)
        λ targets. some (record { by_source = sources; by_target = targets })

  unfoldable pub add_link : Link → Links → Links × Bool
  unfolding update add_link_tx
  add_link l = update (add_link_tx l)

  unfoldable pub get_dependencies : Reference → Links → List Reference
  get_dependencies source db = read_refs (get source.id db.by_source)

  pub get_depending : Reference → Links → List Reference
  get_depending target db = read_refs (get target.id db.by_target)

  pub update_or_delete : String → List Reference → Bucket → Option Bucket
  update_or_delete key [] bucket = remove key bucket
  update_or_delete key (r ∷ rest) bucket = put key (r ∷ rest) bucket

  -- One target: its entry without the source, if it has an entry.
  pub clean_target : String → String → Option (List Reference) → Bucket → Option Bucket
  clean_target key source_id none bucket = some bucket
  clean_target key source_id (some sources) bucket =
      update_or_delete key (without_source source_id sources) bucket

  pub clean_reverse_links : List Reference → String → Bucket → Option Bucket
  unfolding clean_target update_or_delete without_source
  clean_reverse_links [] source_id bucket = some bucket
  clean_reverse_links (target ∷ targets) source_id bucket =
      and_then (clean_target target.id source_id (get target.id bucket) bucket)
        λ after. clean_reverse_links targets source_id after

  -- The transaction of `RemoveLink`.
  pub remove_link_tx : Reference → Links → Option Links
  unfolding clean_reverse_links
  remove_link_tx r db =
      let targets = read_refs (get r.id db.by_source) in
      and_then (remove r.id db.by_source) λ sources.
        and_then (clean_reverse_links targets r.id db.by_target)
          λ targets'. some (record { by_source = sources; by_target = targets' })

  pub remove_link : Reference → Links → Links × Bool
  unfolding update remove_link_tx
  remove_link r = update (remove_link_tx r)
