-- ===== src/Cri/ImageRef/Examples.antt =====
-- Runs of `ResolvedImageRef`.
use nix_compose.Prelude.{List, ◌≡◌, refl, arith}
use Prim.Native.Char.{Char}
use nix_compose.Prelude.Text.{chars, of_chars}
use nix_compose.Cri.ImageRef.Valid.{IsImageName, IsImageTag}
use nix_compose.Cri.ImageRef.Resolved.{local_ref}
use nix_compose.Cri.ImageRef.StorePath.{store_path, resolved_image_ref-store_path}
use nix_compose.Cri.ImageRef.{resolved_image_ref}

registry :
    resolved_image_ref (λ c. c) "docker.io/library/nginx:1.27" ≡ "docker.io/library/nginx:1.27"
unfolding resolved_image_ref
registry = refl

resolved_path :
    resolved_image_ref (λ c. c) "/nix/store/abc123-my+image.tar"
    ≡ "nix-compose.local/my-image:abc123"
unfolding resolved_image_ref
resolved_path = refl

other_path : resolved_image_ref (λ c. c) "/tmp/._x/" ≡ "nix-compose.local/x:latest"
unfolding resolved_image_ref
other_path = refl

abbrev hash : List Char
unfolding chars
hash = chars "abc123"

abbrev name : List Char
unfolding chars
name = chars "my-image"

name-IsImageName : IsImageName name
unfolding resolved_image_ref hash name
name-IsImageName = record { allowed = refl; starts = refl; ends = refl }

hash-IsImageTag : IsImageTag hash
unfolding resolved_image_ref hash name
hash-IsImageTag = record { allowed = refl; starts = refl; short = omega arith }

resolved_image_ref-store_path_example :
    (resolved_image_ref (λ c. c) (of_chars (store_path hash name)) ≡ of_chars (local_ref name hash))
    × (resolved_image_ref (λ c. c) (of_chars (local_ref name hash))
        ≡ of_chars (local_ref name hash))
unfolding resolved_image_ref hash name
resolved_image_ref-store_path_example =
    resolved_image_ref-store_path (λ c. c) hash name refl name-IsImageName hash-IsImageTag refl refl

-- Separators may follow each other.
two_dots : resolved_image_ref (λ c. c) "/tmp/a..b" ≡ "nix-compose.local/a..b:latest"
unfolding resolved_image_ref
two_dots = refl
