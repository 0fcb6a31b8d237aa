-- ===== src/Prelude/Text.antt =====
-- Texts put together, under an operator of their own (`++` is that of lists), and cut at a space.
use nix_compose.Prelude.Tests.{beq, if◌then◌else◌}
use Prim.Native.Char.{Char, code}
use Prim.Native.String.{String, ◌++◌, char_at}
use mathlib.Core.Path.{◌≡◌, refl, ap, ◌∙◌}
use mathlib.Core.Bool.{Bool, true, false}
use mathlib.Core.Option.{Option, none, some}
use mathlib.Core.List.{List, [], ◌∷◌}
use native.Mathlib.Omega.{arith}
use text.Mathlib.TextLemmas.{append-nil, append_assoc, nil-append, cons-append}

infixr 65 ◌<>◌
abbrev pub ◌<>◌ : String → String → String
s <> t = s ++ t

pub <>-nil : (s : String) → s <> "" ≡ s
<>-nil s = append-nil s

pub <>-assoc : (s t u : String) → (s <> t) <> u ≡ s <> (t <> u)
<>-assoc s t u = append_assoc s t u

abbrev pub is_space : Char → Bool
is_space c = beq (code c) 32

-- The text up to the first space, and the text behind it if there is one.
unfoldable pub cut_space : String → String × Option String
cut_space String.[] = ("", none)
cut_space (String.◌∷◌ c s) =
    let (word, rest) = cut_space s in if is_space c then ("", some s) else (String.◌∷◌ c word, rest)

abbrev pub has_space : String → Bool
has_space String.[] = false
has_space (String.◌∷◌ c s) = let rest = has_space s in if is_space c then true else rest

pub nil-<> : (s : String) → "" <> s ≡ s
nil-<> s = nil-append s

abbrev space : Char
space = char_at " " 0

space_append : (s : String) → " " <> s ≡ String.◌∷◌ space s
space_append s = cons-append space "" s ∙ ap (λ t. String.◌∷◌ space t) (nil-append s)

pub cut_space-word : (w s : String) → has_space w ≡ false → cut_space (w <> " " <> s) ≡ (w, some s)
unfolding cut_space
cut_space-word String.[] s h = rw (nil-append (" " <> s)) (rw (space_append s) refl)
cut_space-word (String.◌∷◌ c w) s h =
    rw (cons-append c w (" " <> s)) (ground (arith, cut_space-word w s))

pub cut_space-whole : (w : String) → has_space w ≡ false → cut_space w ≡ (w, none)
unfolding cut_space
cut_space-whole String.[] h = refl
cut_space-whole (String.◌∷◌ c w) h = ground (arith, cut_space-whole w)

-- The characters of a text, and the text of characters.
unfoldable pub chars : String → List Char
chars String.[] = []
chars (String.◌∷◌ c s) = c ∷ chars s

unfoldable pub of_chars : List Char → String
of_chars [] = ""
of_chars (c ∷ cs) = String.◌∷◌ c (of_chars cs)

abbrev pub same_char : Char → Char → Bool
same_char c d = beq (code c) (code d)

-- Go's `strings.HasPrefix`.
unfoldable pub has_prefix : List Char → List Char → Bool
has_prefix cs [] = true
has_prefix [] (d ∷ ds) = false
has_prefix (c ∷ cs) (d ∷ ds) = let rest = has_prefix cs ds in if same_char c d then rest else false

-- The characters behind the first that does not satisfy the test, which stays.
unfoldable pub drop_while : (Char → Bool) → List Char → List Char
drop_while test [] = []
drop_while test (c ∷ cs) = let rest = drop_while test cs in if test c then rest else c ∷ cs

unfoldable pub take_while : (Char → Bool) → List Char → List Char
take_while test [] = []
take_while test (c ∷ cs) = let rest = take_while test cs in if test c then c ∷ rest else []

-- Go's `strings.Cut` at one character.
unfoldable pub cut_at : Char → List Char → List Char × Option (List Char)
cut_at d [] = ([], none)
cut_at d (c ∷ cs) =
    let (before, after) = cut_at d cs in
    if same_char c d then ([], some cs) else (c ∷ before, after)

pub of_chars-chars : (s : String) → of_chars (chars s) ≡ s
unfolding chars of_chars
of_chars-chars String.[] = refl
of_chars-chars (String.◌∷◌ c s) = ap (λ t. String.◌∷◌ c t) (of_chars-chars s)

pub chars-of_chars : (cs : List Char) → chars (of_chars cs) ≡ cs
unfolding chars of_chars
chars-of_chars [] = refl
chars-of_chars (c ∷ cs) = ap (λ l. c ∷ l) (chars-of_chars cs)
