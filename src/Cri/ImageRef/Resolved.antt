-- ===== src/Cri/ImageRef/Resolved.antt =====
-- `ResolvedImageRef`: what a reference becomes, and that it stays so.
use nix_compose.Prelude.{String, List, ◌∷◌, ◌++◌, ◌≡◌, refl, true}
use Prim.Native.Char.{Char}
use Prim.Native.String.{char_at}
use nix_compose.Prelude.Text.{chars, has_prefix}
use nix_compose.Cri.ImageRef.{slash, is_local_image_ref, derive_local_ref, resolved_chars}
use nix_compose.Cri.ImageRef.Valid.{IsImageName, IsImageTag}

abbrev IsNameAndTag : List Char × List Char → Type 0
IsNameAndTag (name, tag) = IsImageName name × IsImageTag tag

-- A reference of the local domain.
abbrev pub local_ref : List Char → List Char → List Char
local_ref name tag = chars "nix-compose.local" ++ (slash ∷ name ++ char_at ":" 0 ∷ tag)

module _ (lower : Char → Char) where
  pub local_ref_stays :
      (name tag : List Char) → resolved_chars lower (local_ref name tag) ≡ local_ref name tag
  unfolding resolved_chars chars has_prefix
  local_ref_stays name tag = refl

  pub resolved_local :
      (ref : List Char)
      → is_local_image_ref ref ≡ true
      → resolved_chars lower ref
        ≡ local_ref (derive_local_ref lower ref).0 (derive_local_ref lower ref).1
  unfolding resolved_chars
  resolved_local ref t = rw t refl
