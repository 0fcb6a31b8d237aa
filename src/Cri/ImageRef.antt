-- ===== src/Cri/ImageRef.antt =====
-- pkg/cri/import.go: the reference under which the runtime knows an image, `ResolvedImageRef` and what
-- it calls, on the characters of a text. `unicode.ToLower`, which `strings.ToLower` maps over a text,
-- is the parameter `lower`.
mod Valid
pub mod Resolved
pub mod StorePath
mod Examples
use nix_compose.Prelude.{
  ℕ, String, List, [], ◌∷◌, ◌++◌, Option, none, some, Bool, true, false, not, leb, if◌then◌else◌,
  ◌||◌, ◌&&◌, map, reverse, length, drop, take,
}
use nix_compose.Prelude.Text.{
  chars, of_chars, same_char, has_prefix, drop_while, take_while, cut_at,
}
use Prim.Native.Char.{Char, code}
use Prim.Native.String.{char_at}

abbrev pub slash : Char
slash = char_at "/" 0

abbrev pub hyphen : Char
hyphen = char_at "-" 0

abbrev pub dot : Char
dot = char_at "." 0

abbrev pub underscore : Char
underscore = char_at "_" 0

-- `max_tag_length`; the characters of a tag are single bytes.
abbrev pub max_tag_length : ℕ
max_tag_length = 128

abbrev pub is_local_image_ref : List Char → Bool
is_local_image_ref ref = has_prefix ref (slash ∷ [])

abbrev between : Char → Char → Char → Bool
between low high c = leb (code low) (code c) && leb (code c) (code high)

unfoldable pub is_ref_name_char : Char → Bool
is_ref_name_char c =
    between (char_at "a" 0) (char_at "z" 0) c
    || (between (char_at "0" 0) (char_at "9" 0) c
        || (same_char c dot || (same_char c underscore || same_char c hyphen)))

unfoldable pub is_ref_tag_char : Char → Bool
unfolding is_ref_name_char
is_ref_tag_char c = is_ref_name_char c || between (char_at "A" 0) (char_at "Z" 0) c

unfoldable pub replace_disallowed : (Char → Bool) → List Char → List Char
replace_disallowed allow [] = []
replace_disallowed allow (c ∷ cs) = (if allow c then c else hyphen) ∷ replace_disallowed allow cs

-- The characters of the cutset "._-".
abbrev pub is_separator : Char → Bool
is_separator c = same_char c dot || (same_char c underscore || same_char c hyphen)

-- `strings.Trim` with this cutset.
abbrev pub trim_separators : List Char → List Char
trim_separators cs = reverse (drop_while is_separator (reverse (drop_while is_separator cs)))

abbrev pub or_image : List Char → List Char
or_image [] = chars "image"
or_image (c ∷ cs) = c ∷ cs

-- A tag that would be empty or start with a dot or a hyphen is "latest".
unfoldable pub limit_tag : List Char → List Char
unfolding chars
limit_tag [] = chars "latest"
limit_tag (c ∷ cs) =
    if same_char c dot || same_char c hyphen then chars "latest" else take max_tag_length (c ∷ cs)

unfoldable pub sanitize_image_tag : List Char → List Char
unfolding replace_disallowed is_ref_tag_char limit_tag
sanitize_image_tag s = limit_tag (replace_disallowed is_ref_tag_char s)

-- `filepath.Base`.
abbrev base_of : List Char → List Char
base_of [] = chars "/"
base_of (c ∷ cs) = reverse (c ∷ cs)

unfoldable pub filepath_base : List Char → List Char
unfolding chars drop_while take_while
filepath_base [] = chars "."
filepath_base (c ∷ cs) =
    let back = drop_while (same_char slash) (reverse (c ∷ cs)) in
    base_of (take_while (λ d. not (same_char slash d)) back)

-- `strings.TrimSuffix`.
unfoldable pub trim_suffix : List Char → List Char → List Char
unfolding has_prefix
trim_suffix cs suffix =
    if has_prefix (reverse cs) (reverse suffix)
    then reverse (drop (length suffix) (reverse cs))
    else cs

module _ (lower : Char → Char) where
  unfoldable pub sanitize_image_name : List Char → List Char
  unfolding replace_disallowed is_ref_name_char chars drop_while
  sanitize_image_name s =
      or_image (trim_separators (replace_disallowed is_ref_name_char (map lower s)))

  -- A store path whose base name has a text behind its first hyphen, or another path.
  abbrev store_ref : List Char → List Char × Option (List Char) → List Char × List Char
  store_ref base (hash, some (c ∷ rest)) = (sanitize_image_name (c ∷ rest), sanitize_image_tag hash)
  store_ref base (hash, _) = (sanitize_image_name base, chars "latest")

  unfoldable pub derive_local_ref : List Char → List Char × List Char
  unfolding sanitize_image_name sanitize_image_tag filepath_base trim_suffix cut_at chars
  derive_local_ref path =
      let base = trim_suffix (filepath_base path) (chars ".tar") in
      if has_prefix path (chars "/nix/store/")
      then store_ref base (cut_at hyphen base)
      else (sanitize_image_name base, chars "latest")

  unfoldable pub resolved_chars : List Char → List Char
  unfolding derive_local_ref
  resolved_chars ref =
      let (name, tag) = derive_local_ref ref in
      if is_local_image_ref ref
      then chars "nix-compose.local" ++ (slash ∷ name ++ char_at ":" 0 ∷ tag)
      else ref

  -- `ResolvedImageRef`.
  unfoldable pub resolved_image_ref : String → String
  unfolding resolved_chars of_chars
  resolved_image_ref ref = of_chars (resolved_chars (chars ref))
