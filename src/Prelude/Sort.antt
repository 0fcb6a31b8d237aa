-- ===== src/Prelude/Sort.antt =====
-- Go's `sort.Strings`: texts in the order of their bytes, which is that of their code points.
use nix_compose.Prelude.Tests.{if◌then◌else◌, ltb, Bool-cases}
use nix_compose.Prelude.Names.{contains, IsUnique, count}
use Prim.Native.Char.{code}
use Prim.Native.String.{String}
use mathlib.Core.Path.{◌≡◌, refl, ◌∙◌}
use mathlib.Core.Bool.{Bool, true, false, ◌||◌}
use mathlib.Core.Logic.{inl, inr}
use mathlib.Core.List.{List, [], ◌∷◌}
use native.Mathlib.Omega.{arith}
use text.Mathlib.Text.{◌==◌}
use text.Mathlib.TextEquality.{eq_iff}

-- a ≤ b
unfoldable pub str_leb : String → String → Bool
str_leb String.[] t = true
str_leb (String.◌∷◌ c s) String.[] = false
str_leb (String.◌∷◌ c s) (String.◌∷◌ d t) =
    let rest = str_leb s t in
    if ltb (code c) (code d) then true else if ltb (code d) (code c) then false else rest

insert_sorted : String → List String → List String
insert_sorted a [] = a ∷ []
insert_sorted a (x ∷ xs) =
    let rest = insert_sorted a xs in if str_leb a x then a ∷ x ∷ xs else x ∷ rest

unfoldable pub sort : List String → List String
unfolding insert_sorted str_leb
sort [] = []
sort (x ∷ xs) = insert_sorted x (sort xs)

str_leb_total : (a b : String) → str_leb a b ≡ false → str_leb b a ≡ true
unfolding str_leb
str_leb_total String.[] b h = cc
str_leb_total (String.◌∷◌ c s) String.[] h = refl
str_leb_total (String.◌∷◌ c s) (String.◌∷◌ d t) h = ground (arith, str_leb_total s t)

-- `a` is at most the first of the list.
abbrev pub LeHead : String → List String → Type 0
LeHead a [] = Unit
LeHead a (x ∷ xs) = str_leb a x ≡ true

-- Each text is at most the next.
abbrev pub IsSorted : List String → Type 0
IsSorted [] = Unit
IsSorted (x ∷ xs) = LeHead x xs × IsSorted xs

LeHead-insert :
    (a x : String) (xs : List String)
    → str_leb x a ≡ true
    → LeHead x xs
    → LeHead x (insert_sorted a xs)
unfolding insert_sorted
LeHead-insert a x [] h k = h
LeHead-insert a x (y ∷ xs) h k = ground arith

insert-IsSorted : (a : String) (xs : List String) → IsSorted xs → IsSorted (insert_sorted a xs)
unfolding insert_sorted
insert-IsSorted a [] h = (tt, tt)
insert-IsSorted a (x ∷ xs) h = elim (Bool-cases (str_leb a x)) [
  | inl t ↦ rw t (t, h)
  | inr f ↦ rw f (LeHead-insert a x xs (str_leb_total a x f) h.0, insert-IsSorted a xs h.1)
]

pub sort-IsSorted : (xs : List String) → IsSorted (sort xs)
unfolding sort
sort-IsSorted [] = tt
sort-IsSorted (x ∷ xs) = insert-IsSorted x (sort xs) (sort-IsSorted xs)

contains-insert :
    (a : String) (xs : List String) (b : String)
    → contains (insert_sorted a xs) b ≡ ((a == b) || contains xs b)
unfolding insert_sorted
contains-insert a [] b = refl
contains-insert a (x ∷ xs) b = ground (arith, contains-insert a xs b)

pub contains-sort : (xs : List String) (b : String) → contains (sort xs) b ≡ contains xs b
unfolding sort
contains-sort [] b = refl
contains-sort (x ∷ xs) b = ground (arith, contains-insert x (sort xs) b, contains-sort xs b)

insert_sorted-IsUnique :
    (a : String) (xs : List String)
    → contains xs a ≡ false
    → IsUnique xs
    → IsUnique (insert_sorted a xs)
unfolding insert_sorted
insert_sorted-IsUnique a [] h u = (refl, tt)
insert_sorted-IsUnique a (x ∷ xs) h u =
    ground (arith, insert_sorted-IsUnique a xs, contains-insert a xs x, eq_iff a x, eq_iff x a)

pub sort-IsUnique : (xs : List String) → IsUnique xs → IsUnique (sort xs)
unfolding sort
sort-IsUnique [] u = tt
sort-IsUnique (x ∷ xs) u =
    insert_sorted-IsUnique x (sort xs) (contains-sort xs x ∙ u.0) (sort-IsUnique xs u.1)

count-insert :
    (a : String) (xs : List String) (n : String) → count n (insert_sorted a xs) ≡ count n (a ∷ xs)
unfolding insert_sorted
count-insert a [] n = refl
count-insert a (x ∷ xs) n = ground (arith, count-insert a xs n)

pub count-sort : (xs : List String) (n : String) → count n (sort xs) ≡ count n xs
unfolding sort
count-sort [] n = refl
count-sort (x ∷ xs) n = ground (arith, count-insert x (sort xs) n, count-sort xs n)
