-- ===== src/Cri/ImageRef/Valid.antt =====
-- The names and tags that are made of a path belong to the character sets of references.
use nix_compose.Prelude.{
  ◌≤◌, List, [], ◌∷◌, ◌++◌, ◌≡◌, refl, ◌∙◌, sym, Bool, true, false, not, ◌||◌, ◌⊎◌, inl, inr,
  Bool-cases, map, reverse, length, length-take, all_of, all_of-take, all_of-reverse, arith,
}
use mathlib.Core.List.{reverse-cons, reverse-append, reverse-reverse}
use Prim.Native.Char.{Char}
use nix_compose.Prelude.Text.{chars, same_char, drop_while}
use nix_compose.Cri.ImageRef.{
  hyphen, dot, is_separator, is_ref_name_char, is_ref_tag_char, replace_disallowed, or_image,
  limit_tag, sanitize_image_tag, sanitize_image_name, max_tag_length,
}

abbrev pub starts_without : (Char → Bool) → List Char → Bool
starts_without test [] = false
starts_without test (c ∷ cs) = not (test c)

-- Lower-case letters, digits and separators, and no separator at either end. Separators may follow
-- each other, as in `a..b`, which the grammar of references does not allow.
pub record IsImageName (name : List Char) : Type 0 where
  pub allowed : all_of is_ref_name_char name ≡ true
  pub starts : starts_without is_separator name ≡ true
  pub ends : starts_without is_separator (reverse name) ≡ true

-- Letters, digits and separators, at most `max_tag_length`, the first neither a dot nor a hyphen.
pub record IsImageTag (tag : List Char) : Type 0 where
  pub allowed : all_of is_ref_tag_char tag ≡ true
  pub starts : starts_without (λ c. same_char c dot || same_char c hyphen) tag ≡ true
  pub short : length tag ≤ max_tag_length

all_of-replace :
    (allow : Char → Bool) (cs : List Char)
    → allow hyphen ≡ true
    → all_of allow (replace_disallowed allow cs) ≡ true
unfolding replace_disallowed
all_of-replace allow [] h = refl
all_of-replace allow (c ∷ cs) h = elim (Bool-cases (allow c)) [
  | inl t ↦ rw t (rw t (all_of-replace allow cs h))
  | inr f ↦ rw f (rw h (all_of-replace allow cs h))
]

all_of-drop_while :
    (test allow : Char → Bool) (cs : List Char)
    → all_of allow cs ≡ true
    → all_of allow (drop_while test cs) ≡ true
unfolding drop_while
all_of-drop_while test allow [] h = refl
all_of-drop_while test allow (c ∷ cs) h = ground (arith, all_of-drop_while test allow cs)

-- What stays behind a character that fails the test keeps that character.
drop_while-snoc :
    (test : Char → Bool) (cs : List Char) (c : Char)
    → test c ≡ false
    → drop_while test (cs ++ c ∷ []) ≡ drop_while test cs ++ c ∷ []
unfolding drop_while
drop_while-snoc test [] c h = ground arith
drop_while-snoc test (d ∷ cs) c h = ground (arith, drop_while-snoc test cs c)

drop_while-starts :
    (test : Char → Bool) (cs : List Char)
    → (drop_while test cs ≡ []) ⊎ (starts_without test (drop_while test cs) ≡ true)
unfolding drop_while
drop_while-starts test [] = inl refl
drop_while-starts test (c ∷ cs) = ground (arith, drop_while-starts test cs)

snoc_not_nil : (cs : List Char) (c : Char) → ¬ (cs ++ c ∷ [] ≡ [])
snoc_not_nil [] c h = cc
snoc_not_nil (d ∷ cs) c h = cc

module _ (c : Char) (cs : List Char) (h : is_separator c ≡ false) where
  abbrev kept : List Char
  kept = drop_while is_separator (reverse cs)

  trimmed_back : drop_while is_separator (reverse (c ∷ cs)) ≡ kept ++ c ∷ []
  trimmed_back = rw (reverse-cons c cs) (drop_while-snoc is_separator (reverse cs) c h)

  trimmed_lem : reverse (drop_while is_separator (reverse (c ∷ cs))) ≡ c ∷ reverse kept
  trimmed_lem = rw trimmed_back (reverse-append kept (c ∷ []))

  ends_well : starts_without is_separator (drop_while is_separator (reverse (c ∷ cs))) ≡ true
  ends_well = elim (drop_while-starts is_separator (reverse (c ∷ cs))) [
    | inl e ↦ absurd (snoc_not_nil kept c (sym trimmed_back ∙ e))
    | inr t ↦ t
  ]

  trimmed-IsImageName :
      all_of is_ref_name_char (c ∷ cs) ≡ true
      → IsImageName (or_image (reverse (drop_while is_separator (reverse (c ∷ cs)))))
  trimmed-IsImageName allowed = rw trimmed_lem (record {
    allowed = ground (
      arith,
      all_of-reverse is_ref_name_char kept,
      all_of-drop_while is_separator is_ref_name_char (reverse cs),
      all_of-reverse is_ref_name_char cs,
    );
    starts = ground arith;
    ends = rw (reverse-cons c (reverse kept), reverse-reverse kept, ← trimmed_back) ends_well;
  })

finish-IsImageName :
    (cs : List Char)
    → all_of is_ref_name_char cs ≡ true
    → (cs ≡ []) ⊎ (starts_without is_separator cs ≡ true)
    → IsImageName (or_image (reverse (drop_while is_separator (reverse cs))))
unfolding chars is_ref_name_char drop_while
finish-IsImageName [] h k = record { allowed = refl; starts = refl; ends = refl }
finish-IsImageName (c ∷ cs) h (inl e) = cc
finish-IsImageName (c ∷ cs) h (inr t) = trimmed-IsImageName c cs (ground arith) h

pub sanitize_image_name-IsImageName :
    (lower : Char → Char) (s : List Char) → IsImageName (sanitize_image_name lower s)
unfolding sanitize_image_name
sanitize_image_name-IsImageName lower s =
    let replaced = replace_disallowed is_ref_name_char (map lower s) in
    let allowed = all_of-replace is_ref_name_char (map lower s) hyphen_in_name in
    finish-IsImageName (drop_while is_separator replaced)
      (all_of-drop_while is_separator is_ref_name_char replaced allowed)
      (drop_while-starts is_separator replaced)
  where
    hyphen_in_name : is_ref_name_char hyphen ≡ true
    hyphen_in_name = refl

pub latest-IsImageTag : IsImageTag (chars "latest")
unfolding chars is_ref_tag_char
latest-IsImageTag = record { allowed = refl; starts = refl; short = omega arith }

limit_tag-IsImageTag :
    (cs : List Char) → all_of is_ref_tag_char cs ≡ true → IsImageTag (limit_tag cs)
unfolding limit_tag
limit_tag-IsImageTag [] h = latest-IsImageTag
limit_tag-IsImageTag (c ∷ cs) h = elim (Bool-cases (same_char c dot || same_char c hyphen)) [
  | inl t ↦ rw t latest-IsImageTag
  | inr f ↦ rw f (record {
    allowed = all_of-take is_ref_tag_char max_tag_length (c ∷ cs) h;
    starts = rw f refl;
    short = length-take max_tag_length (c ∷ cs);
  })
]

pub sanitize_image_tag-IsImageTag : (s : List Char) → IsImageTag (sanitize_image_tag s)
unfolding sanitize_image_tag
sanitize_image_tag-IsImageTag s =
    limit_tag-IsImageTag (replace_disallowed is_ref_tag_char s)
      (all_of-replace is_ref_tag_char s hyphen_in_tag)
  where
    hyphen_in_tag : is_ref_tag_char hyphen ≡ true
    hyphen_in_tag = refl
