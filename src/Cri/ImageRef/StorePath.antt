-- ===== src/Cri/ImageRef/StorePath.antt =====
-- `ResolvedImageRef` of a store path.
use nix_compose.Prelude.{
  ℕ, zero, suc, ◌≤◌, List, [], ◌∷◌, ◌++◌, ◌≡◌, refl, ◌∙◌, ap, sym, some, Bool, true, false, not,
  ◌≢◌, ◌||◌, map, reverse, length, take, all_of, all_of-reverse, arith, if◌then◌else◌, inl, inr,
  Bool-cases,
}
use mathlib.Core.List.{append_assoc, reverse-cons, reverse-append, reverse-reverse}
use Prim.Native.Char.{Char}
use nix_compose.Prelude.Text.{
  chars, of_chars, same_char, has_prefix, drop_while, take_while, cut_at, chars-of_chars,
}
use nix_compose.Cri.ImageRef.{
  slash, hyphen, dot, is_separator, is_ref_name_char, is_ref_tag_char, replace_disallowed, or_image,
  limit_tag, sanitize_image_tag, sanitize_image_name, max_tag_length, filepath_base, base_of,
  is_local_image_ref, trim_suffix, store_ref, derive_local_ref, resolved_chars, resolved_image_ref,
}
use nix_compose.Cri.ImageRef.Valid.{IsImageName, IsImageTag, starts_without}
use nix_compose.Cri.ImageRef.Resolved.{local_ref, resolved_local, local_ref_stays}

replace_allowed :
    (allow : Char → Bool) (cs : List Char)
    → all_of allow cs ≡ true
    → replace_disallowed allow cs ≡ cs
unfolding replace_disallowed
replace_allowed allow [] h = refl
replace_allowed allow (c ∷ cs) h = elim (Bool-cases (allow c)) [
  | inl t ↦ rw t (ap (λ l. c ∷ l) (replace_allowed allow cs (rw t at h)))
  | inr f ↦ absurd (ground (arith, h, f))
]

drop_none :
    (test : Char → Bool) (cs : List Char) → starts_without test cs ≡ true → drop_while test cs ≡ cs
unfolding drop_while
drop_none test [] h = refl
drop_none test (c ∷ cs) h = elim (Bool-cases (test c)) [
  | inl t ↦ absurd (ground (arith, h, t))
  | inr f ↦ rw f refl
]

take_while-append :
    (test : Char → Bool) (xs : List Char) (c : Char) (ys : List Char)
    → all_of test xs ≡ true
    → test c ≡ false
    → take_while test (xs ++ c ∷ ys) ≡ xs
unfolding take_while
take_while-append test [] c ys h k = rw k refl
take_while-append test (x ∷ xs) c ys h k = elim (Bool-cases (test x)) [
  | inl t ↦ rw t (ap (λ l. x ∷ l) (take_while-append test xs c ys (rw t at h) k))
  | inr f ↦ absurd (ground (arith, h, f))
]

take_short : {A : Type 0} (n : ℕ) (xs : List A) → length xs ≤ n → take n xs ≡ xs
take_short zero [] h = refl
take_short (suc n) [] h = refl
take_short zero (x ∷ xs) h = absurd (ground (arith, h))
take_short (suc n) (x ∷ xs) h = ap (λ l. x ∷ l) (take_short n xs (omega (arith, h)))

cut_at-append :
    (d : Char) (xs ys : List Char)
    → all_of (λ c. not (same_char c d)) xs ≡ true
    → same_char d d ≡ true
    → cut_at d (xs ++ d ∷ ys) ≡ (xs, some ys)
unfolding cut_at
cut_at-append d [] ys h k = rw k refl
cut_at-append d (x ∷ xs) ys h k = elim (Bool-cases (same_char x d)) [
  | inl t ↦ absurd (ground (arith, h, t))
  | inr f ↦ rw f (ap (λ p. (x ∷ p.0, p.1)) (cut_at-append d xs ys (rw f at h) k))
]

tag_is_kept : (tag : List Char) → IsImageTag tag → sanitize_image_tag tag ≡ tag
unfolding sanitize_image_tag limit_tag
tag_is_kept tag valid =
    rw (replace_allowed is_ref_tag_char tag valid.allowed) (by_tag tag valid.starts valid.short)
  where
    by_tag :
        (tag : List Char)
        → starts_without (λ c. same_char c dot || same_char c hyphen) tag ≡ true
        → length tag ≤ max_tag_length
        → limit_tag tag ≡ tag
    by_tag [] h k = absurd (ground (arith, h))
    by_tag (c ∷ cs) h k = elim (Bool-cases (same_char c dot || same_char c hyphen)) [
      | inl t ↦ absurd (ground (arith, h, t))
      | inr f ↦ rw f (take_short max_tag_length (c ∷ cs) k)
    ]

name_is_kept :
    (lower : Char → Char) (name : List Char)
    → map lower name ≡ name
    → IsImageName name
    → sanitize_image_name lower name ≡ name
unfolding sanitize_image_name
name_is_kept lower name low valid =
    rw (low, replace_allowed is_ref_name_char name valid.allowed)
      (rw (drop_none is_separator name valid.starts) (
        rw (drop_none is_separator (reverse name) valid.ends)
          (rw (reverse-reverse name) (by_name name valid.starts))))
  where
    by_name : (name : List Char) → starts_without is_separator name ≡ true → or_image name ≡ name
    by_name [] h = absurd (ground (arith, h))
    by_name (c ∷ cs) h = refl

slashless : (c : Char) → is_ref_tag_char c ≡ true → not (same_char slash c) ≡ true
unfolding is_ref_tag_char is_ref_name_char
slashless c h = ground (arith, h)

slashless_all :
    (cs : List Char)
    → all_of is_ref_tag_char cs ≡ true
    → all_of (λ d. not (same_char slash d)) cs ≡ true
slashless_all [] h = refl
slashless_all (c ∷ cs) h = ground (arith, slashless c, slashless_all cs, h)

name_chars-tag_chars :
    (cs : List Char) → all_of is_ref_name_char cs ≡ true → all_of is_ref_tag_char cs ≡ true
unfolding is_ref_tag_char
name_chars-tag_chars [] h = refl
name_chars-tag_chars (c ∷ cs) h = ground (arith, name_chars-tag_chars cs, h)

all_of-append :
    (test : Char → Bool) (xs ys : List Char)
    → all_of test xs ≡ true
    → all_of test ys ≡ true
    → all_of test (xs ++ ys) ≡ true
all_of-append test [] ys h k = k
all_of-append test (x ∷ xs) ys h k = ground (arith, all_of-append test xs ys, h, k)

last_part :
    (rb back : List Char)
    → rb ≢ []
    → all_of (λ d. not (same_char slash d)) rb ≡ true
    → base_of (
        take_while
          (λ d. not (same_char slash d))
          (drop_while (same_char slash) (rb ++ slash ∷ back)))
      ≡ reverse rb
last_part [] back n h = absurd (n refl)
last_part (d ∷ ds) back n h =
    rw (drop_none (same_char slash) (d ∷ ds ++ slash ∷ back) (ground (arith, h)))
      (rw (take_while-append (λ x. not (same_char slash x)) (d ∷ ds) slash back h refl) refl)

-- The base name of a path whose last part is `base`.
filepath_base-part :
    (c : Char) (front base : List Char)
    → base ≢ []
    → all_of (λ d. not (same_char slash d)) base ≡ true
    → filepath_base (c ∷ (front ++ slash ∷ base)) ≡ base
unfolding filepath_base
filepath_base-part c front base n h =
    let ns : Char → Bool = λ d. not (same_char slash d) in
    let turned : reverse (c ∷ (front ++ slash ∷ base))
        ≡ reverse base ++ slash ∷ reverse (c ∷ front) =
      reverse-append (c ∷ front) (slash ∷ base)
      ∙ (rw (reverse-cons slash base)
          (append_assoc (reverse base) (slash ∷ []) (reverse (c ∷ front)))) in
    ap (λ l. base_of (take_while ns (drop_while (same_char slash) l))) turned
    ∙ (last_part (reverse base) (reverse (c ∷ front))
          (λ e. n (sym (reverse-reverse base) ∙ ap reverse e)) (all_of-reverse ns base ∙ h)
        ∙ reverse-reverse base)

not_nil : (xs : List Char) (c : Char) (ys : List Char) → xs ++ c ∷ ys ≢ []
not_nil [] c ys e = cc
not_nil (x ∷ xs) c ys e = cc

-- The characters of a path in the store.
abbrev pub store_path : List Char → List Char → List Char
store_path hash name = chars "/nix/store/" ++ (hash ++ hyphen ∷ name)

module _ (lower : Char → Char) where
  store_ref_kept :
      (hash name : List Char)
      → map lower name ≡ name
      → IsImageName name
      → IsImageTag hash
      → store_ref lower (hash ++ hyphen ∷ name) (hash, some name) ≡ (name, hash)
  store_ref_kept hash [] low n t = absurd (ground (arith, n.starts))
  store_ref_kept hash (c ∷ cs) low n t =
      ap (λ x. (x, sanitize_image_tag hash)) (name_is_kept lower (c ∷ cs) low n)
      ∙ ap (λ x. (c ∷ cs, x)) (tag_is_kept hash t)

  derive_step :
      (path base : List Char)
      → filepath_base path ≡ base
      → trim_suffix base (chars ".tar") ≡ base
      → has_prefix path (chars "/nix/store/") ≡ true
      → derive_local_ref lower path ≡ store_ref lower base (cut_at hyphen base)
  unfolding derive_local_ref
  derive_step path base e trim starts =
      ap
        (λ b.
          if has_prefix path (chars "/nix/store/")
          then store_ref lower b (cut_at hyphen b)
          else (sanitize_image_name lower b, chars "latest"))
        (ap (λ b. trim_suffix b (chars ".tar")) e ∙ trim)
      ∙ rw starts refl

  trim_none :
      (cs suffix : List Char)
      → has_prefix (reverse cs) (reverse suffix) ≡ false
      → trim_suffix cs suffix ≡ cs
  unfolding trim_suffix
  trim_none cs suffix h = rw h refl

  in_store :
      (rest : List Char) → has_prefix (chars "/nix/store/" ++ rest) (chars "/nix/store/") ≡ true
  unfolding has_prefix chars
  in_store rest = refl

  base_of_store_path :
      (body : List Char)
      → body ≢ []
      → all_of (λ d. not (same_char slash d)) body ≡ true
      → filepath_base (chars "/nix/store/" ++ body) ≡ body
  unfolding chars
  base_of_store_path body n h = filepath_base-part slash (chars "nix/store") body n h

  local_path : (rest : List Char) → is_local_image_ref (chars "/nix/store/" ++ rest) ≡ true
  unfolding chars has_prefix
  local_path rest = refl

  name_behind_hyphen :
      (name : List Char)
      → all_of is_ref_name_char name ≡ true
      → all_of is_ref_name_char (hyphen ∷ name) ≡ true
  unfolding is_ref_name_char
  name_behind_hyphen name h = h

  derive-store_path :
      (hash name : List Char)
      → map lower name ≡ name
      → IsImageName name
      → IsImageTag hash
      → all_of (λ c. not (same_char c hyphen)) hash ≡ true
      → has_prefix (reverse (hash ++ hyphen ∷ name)) (reverse (chars ".tar")) ≡ false
      → derive_local_ref lower (store_path hash name) ≡ (name, hash)
  derive-store_path hash name low n t plain no_tar =
      let body = hash ++ hyphen ∷ name in
      let tags : all_of is_ref_tag_char body ≡ true =
        all_of-append is_ref_tag_char hash (hyphen ∷ name) t.allowed
          (name_chars-tag_chars (hyphen ∷ name) (name_behind_hyphen name n.allowed)) in
      let base = base_of_store_path body (not_nil hash hyphen name) (slashless_all body tags) in
      derive_step (store_path hash name) body base (trim_none body (chars ".tar") no_tar)
        (in_store body)
      ∙ (ap (store_ref lower body) (cut_at-append hyphen hash name plain refl)
          ∙ store_ref_kept hash name low n t)

  resolved_chars-store_path :
      (hash name : List Char)
      → map lower name ≡ name
      → IsImageName name
      → IsImageTag hash
      → all_of (λ c. not (same_char c hyphen)) hash ≡ true
      → has_prefix (reverse (hash ++ hyphen ∷ name)) (reverse (chars ".tar")) ≡ false
      → resolved_chars lower (store_path hash name) ≡ local_ref name hash
  resolved_chars-store_path hash name low n t plain no_tar =
      resolved_local lower (store_path hash name) (local_path (hash ++ hyphen ∷ name))
      ∙ ap (λ p. local_ref p.0 p.1) (derive-store_path hash name low n t plain no_tar)

  -- The path in the store of `hash` and `name` is known to the runtime as this name with the hash as
  -- its tag, in the local domain, and resolving that again changes nothing. Here `name` is one that
  -- the lower case leaves alone, of lower-case letters, digits, dots, underscores and hyphens, with a
  -- letter or a digit at both ends; `hash` has one to 128 letters, digits, dots and underscores, no dot
  -- first; and the path does not end in ".tar".
  pub resolved_image_ref-store_path :
      (hash name : List Char)
      → map lower name ≡ name
      → IsImageName name
      → IsImageTag hash
      → all_of (λ c. not (same_char c hyphen)) hash ≡ true
      → has_prefix (reverse (hash ++ hyphen ∷ name)) (reverse (chars ".tar")) ≡ false
      → (resolved_image_ref lower (of_chars (store_path hash name))
          ≡ of_chars (local_ref name hash))
        × (resolved_image_ref lower (of_chars (local_ref name hash))
            ≡ of_chars (local_ref name hash))
  unfolding resolved_image_ref
  resolved_image_ref-store_path hash name low n t plain no_tar = (
    ap (λ l. of_chars (resolved_chars lower l)) (chars-of_chars (store_path hash name))
        ∙ ap of_chars (resolved_chars-store_path hash name low n t plain no_tar),
    ap (λ l. of_chars (resolved_chars lower l)) (chars-of_chars (local_ref name hash))
        ∙ ap of_chars (local_ref_stays lower name hash),
  )
