-- ===== src/Prelude/Names.antt =====
-- Texts compared whole (service names, resource ids), and lists of them.
use Prim.Native.Nat.{ℕ, suc, ◌+◌, ◌≤◌, ◌<◌}
use Prim.Native.String.{String}
use mathlib.Core.Path.{◌≡◌, refl}
use mathlib.Core.Logic.{◌≢◌, ◌⊎◌, ◌↔◌, inl, inr}
use mathlib.Core.Bool.{Bool, true, false, ◌||◌}
use mathlib.Core.List.{List, [], ◌∷◌, ◌++◌}
use native.Mathlib.Omega.{arith}
use text.Mathlib.Text.{◌==◌}
use text.Mathlib.TextEquality.{eq_iff}
use text.Mathlib.TextPositions.{eq_refl}
use nix_compose.Prelude.Lists.{length}
use nix_compose.Prelude.Tests.{Bool-cases, if◌then◌else◌}

pub ==-cases : (a b : String) → (((a == b) ≡ true) × (a ≡ b)) ⊎ (((a == b) ≡ false) × (a ≢ b))
==-cases a b = elim (Bool-cases (a == b)) [
  | inl t ↦ inl (t, (eq_iff a b).0 t)
  | inr f ↦ inr (f, λ e. ground (arith, (eq_iff a b).1 e))
]

pub ==-comm : (a b : String) → (a == b) ≡ (b == a)
==-comm a b = ground (arith, eq_iff a b, eq_iff b a)

-- Membership, as a test.
abbrev pub contains : List String → String → Bool
contains [] a = false
contains (x ∷ xs) a = (x == a) || contains xs a

-- No text stands twice.
abbrev pub IsUnique : List String → Type 0
IsUnique [] = Unit
IsUnique (x ∷ xs) = (contains xs x ≡ false) × IsUnique xs

pub contains-append :
    (xs ys : List String) (a : String) → contains (xs ++ ys) a ≡ (contains xs a || contains ys a)
contains-append [] ys a = refl
contains-append (x ∷ xs) ys a = ground (arith, contains-append xs ys a)

-- How often a text stands in a list.
abbrev pub count : String → List String → ℕ
count n [] = 0
count n (x ∷ xs) = let later = count n xs in if x == n then suc later else later

pub count-append : (n : String) (xs ys : List String) → count n (xs ++ ys) ≡ count n xs + count n ys
count-append n [] ys = omega arith
count-append n (x ∷ xs) ys = ground (arith, count-append n xs ys)

pub contains-count : (xs : List String) (n : String) → (contains xs n ≡ false) ↔ (count n xs ≡ 0)
contains-count [] n = (λ h. refl, λ h. refl)
contains-count (x ∷ xs) n = ground (arith, contains-count xs n)

pub append-IsUnique :
    (xs : List String) (a : String) → IsUnique xs → contains xs a ≡ false → IsUnique (xs ++ a ∷ [])
append-IsUnique [] a u f = (refl, tt)
append-IsUnique (x ∷ xs) a u f =
    ground (arith, append-IsUnique xs a, contains-append xs (a ∷ []) x, eq_iff x a, eq_iff a x)

-- How many of the names are not done.
abbrev pub undone : List String → List String → ℕ
undone done [] = 0
undone done (n ∷ ns) = let later = undone done ns in if contains done n then later else suc later

pub undone_mono :
    (done more ns : List String)
    → ((n : String) → contains done n ≡ true → contains more n ≡ true)
    → undone more ns ≤ undone done ns
undone_mono done more [] h = omega arith
undone_mono done more (n ∷ ns) h = ground (arith, undone_mono done more ns h, h n)

-- It falls when a name is added.
pub undone-lt :
    (done more ns : List String) (x : String)
    → ((n : String) → contains done n ≡ true → contains more n ≡ true)
    → contains done x ≡ false
    → contains more x ≡ true
    → contains ns x ≡ true
    → undone more ns < undone done ns
undone-lt done more [] x h f t k = cc
undone-lt done more (n ∷ ns) x h f t k =
    ground (arith, undone-lt done more ns x h f t, undone_mono done more ns h, h n, eq_iff n x)

pub undone-length : (done ns : List String) → undone done ns ≤ length ns
undone-length done [] = omega arith
undone-length done (n ∷ ns) = ground (arith, undone-length done ns)

-- Distinct names among others: what is left of these is the difference of the lengths at most.
pub undone_room :
    (xs ns : List String)
    → IsUnique xs
    → ((n : String) → contains xs n ≡ true → contains ns n ≡ true)
    → undone xs ns + length xs ≤ length ns
undone_room [] ns u h = omega (arith, undone-length [] ns)
undone_room (x ∷ xs) ns u h =
    let less =
      undone-lt xs (x ∷ xs) ns x (λ n k. ground arith) u.0 (ground (arith, eq_refl x))
        (h x (ground (arith, eq_refl x))) in
    omega (arith, less, undone_room xs ns u.1 (λ n k. h n (ground arith)))

pub undone-eq-zero :
    (done ns : List String) (n : String)
    → undone done ns ≡ 0
    → contains ns n ≡ true
    → contains done n ≡ true
undone-eq-zero done [] n z h = cc
undone-eq-zero done (x ∷ ns) n z h = ground (arith, undone-eq-zero done ns n, eq_iff x n)
