-- ===== src/Prelude/Dict.antt =====
-- Go's `map[string]V` as a list of entries, one for each key. A `range` goes through the entries
-- in the list's order. Go's order is arbitrary, and no theorem supposes one: it is any list.
use nix_compose.Prelude.Tests.{if◌then◌else◌}
use nix_compose.Prelude.Names.{contains, IsUnique}
use nix_compose.Prelude.Lists.{length}
use Prim.Native.Nat.{suc}
use Prim.Native.String.{String}
use mathlib.Core.Path.{◌≡◌, refl, ap}
use mathlib.Core.Bool.{Bool, true, false, ◌||◌, not, ◌&&◌}
use mathlib.Core.Option.{Option, none, some}
use mathlib.Core.List.{List, [], ◌∷◌}
use native.Mathlib.Omega.{arith}
use text.Mathlib.Text.{◌==◌}
use text.Mathlib.TextEquality.{eq_iff}

abbrev pub Dict {ℓ} : Type ℓ → Type ℓ
Dict V = List (String × V)

abbrev pub is_some {ℓ} : {A : Type ℓ} → Option A → Bool
is_some none = false
is_some (some a) = true

module _ {ℓ} {V : Type ℓ} where
  abbrev pub keys : Dict V → List String
  keys [] = []
  keys ((k, v) ∷ d) = k ∷ keys d

  -- `v, ok := d[k]`
  unfoldable pub lookup : String → Dict V → Option V
  lookup k [] = none
  lookup k ((j, v) ∷ d) = if j == k then some v else lookup k d

  -- `d[k] = v`
  unfoldable pub insert : String → V → Dict V → Dict V
  insert k v [] = (k, v) ∷ []
  insert k v ((j, w) ∷ d) = if j == k then (j, v) ∷ d else (j, w) ∷ insert k v d

  -- `delete(d, k)`
  unfoldable pub delete : String → Dict V → Dict V
  delete k [] = []
  delete k ((j, w) ∷ d) = let rest = delete k d in if j == k then rest else (j, w) ∷ rest

  -- `_, ok := d[k]`
  abbrev pub has : String → Dict V → Bool
  has k d = is_some (lookup k d)

  pub lookup-insert :
      (k j : String) (v : V) (d : Dict V)
      → lookup j (insert k v d) ≡ (if k == j then some v else lookup j d)
  unfolding lookup insert
  lookup-insert k j v [] = refl
  lookup-insert k j v ((i, w) ∷ d) =
      ground (arith, eq_iff k j, eq_iff i k, eq_iff i j, lookup-insert k j v d)

  pub lookup-delete :
      (k j : String) (d : Dict V) → lookup j (delete k d) ≡ (if k == j then none else lookup j d)
  unfolding lookup delete
  lookup-delete k j [] = ground arith
  lookup-delete k j ((i, w) ∷ d) =
      ground (arith, eq_iff k j, eq_iff i k, eq_iff i j, lookup-delete k j d)

  -- The keys are the texts that a lookup finds.
  pub contains-keys : (d : Dict V) (k : String) → contains (keys d) k ≡ has k d
  unfolding lookup
  contains-keys [] k = refl
  contains-keys ((j, v) ∷ d) k = ground (arith, contains-keys d k)

  pub contains-keys-insert :
      (k j : String) (v : V) (d : Dict V)
      → contains (keys (insert k v d)) j ≡ ((k == j) || contains (keys d) j)
  unfolding insert
  contains-keys-insert k j v [] = refl
  contains-keys-insert k j v ((i, w) ∷ d) =
      ground (arith, eq_iff k j, eq_iff i k, eq_iff i j, contains-keys-insert k j v d)

  pub contains-keys-delete :
      (k j : String) (d : Dict V)
      → contains (keys (delete k d)) j ≡ (not (k == j) && contains (keys d) j)
  unfolding delete
  contains-keys-delete k j [] = ground arith
  contains-keys-delete k j ((i, w) ∷ d) =
      ground (arith, eq_iff k j, eq_iff i k, eq_iff i j, contains-keys-delete k j d)

  pub insert-IsUnique :
      (k : String) (v : V) (d : Dict V) → IsUnique (keys d) → IsUnique (keys (insert k v d))
  unfolding insert
  insert-IsUnique k v [] h = (refl, tt)
  insert-IsUnique k v ((i, w) ∷ d) h =
      ground (arith, eq_iff k i, eq_iff i k, insert-IsUnique k v d, contains-keys-insert k i v d)

  pub delete-IsUnique : (k : String) (d : Dict V) → IsUnique (keys d) → IsUnique (keys (delete k d))
  unfolding delete
  delete-IsUnique k [] h = tt
  delete-IsUnique k ((i, w) ∷ d) h = ground (arith, delete-IsUnique k d, contains-keys-delete k i d)

  pub length-keys : (d : Dict V) → length (keys d) ≡ length d
  length-keys [] = refl
  length-keys ((k, v) ∷ d) = ap suc (length-keys d)
