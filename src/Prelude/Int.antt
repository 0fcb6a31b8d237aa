-- ===== src/Prelude/Int.antt =====
-- Go's `int` where a value may be negative: `negsuc n` is -(n + 1).
use nix_compose.Prelude.Tests.{ltb, leb, if◌then◌else◌}
use Prim.Native.Nat.{ℕ, zero, suc, ◌-◌, ◌%◌, ◌/◌}
use Prim.Native.String.{String, ◌++◌, slice}
use mathlib.Core.Path.{◌≡◌, refl}
use mathlib.Core.Bool.{Bool, true, false}

pub data ℤ : Type 0 where
  pos : ℕ → ℤ
  negsuc : ℕ → ℤ

-- `i++`
abbrev pub increment : ℤ → ℤ
increment (pos n) = pos (suc n)
increment (negsuc zero) = pos 0
increment (negsuc (suc n)) = negsuc n

-- `i--`
abbrev pub decrement : ℤ → ℤ
decrement (pos zero) = negsuc 0
decrement (pos (suc n)) = pos n
decrement (negsuc n) = negsuc (suc n)

-- `i == 0`
abbrev pub is_zero : ℤ → Bool
is_zero (pos zero) = true
is_zero _ = false

-- `i > 0`
abbrev pub is_positive : ℤ → Bool
is_positive (pos (suc n)) = true
is_positive _ = false

-- `i >= j` for a count and an `int`
abbrev pub at_least : ℕ → ℤ → Bool
at_least n (pos m) = leb m n
at_least n (negsuc m) = true

-- The `int64` that a product of positive ones wraps around to.
unfoldable pub wrap64 : ℕ → ℤ
wrap64 n =
    let m = n % 18446744073709551616 in
    if ltb m 9223372036854775808 then pos m else negsuc (18446744073709551615 - m)

digit : ℕ → String
digit n = slice "0123456789" n (suc n)

-- The digits of the number, in front of `acc`; the fuel is more than the number.
show_from : ℕ → ℕ → String → String
unfolding digit
show_from zero n acc = acc
show_from (suc fuel) n acc =
    let longer = digit (n % 10) ++ acc in
    let rest = show_from fuel (n / 10) longer in if ltb n 10 then longer else rest

-- Go's `%d`.
unfoldable pub show_int : ℤ → String
unfolding show_from
show_int (pos n) = show_from (suc n) n ""
show_int (negsuc n) = "-" ++ show_from (suc (suc n)) (suc n) ""

show_test : show_int (pos 8080) ≡ "8080"
unfolding show_int
show_test = refl
