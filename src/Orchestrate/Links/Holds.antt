-- ===== src/Orchestrate/Links/Holds.antt =====
-- What one write does to an entry of a bucket.
use nix_compose.Prelude.{
  String, List, [], ◌∷◌, ◌++◌, ◌≡◌, refl, ◌∙◌, Option, none, some, Bool, ◌==◌, ◌&&◌, ◌||◌, not, inl,
  inr, contains, ==-cases, arith, if◌then◌else◌,
}
use nix_compose.Orchestrate.Types.{Reference}
use nix_compose.Orchestrate.Links.{
  Bolt, Links, unique, read_refs, without_source, and_then, add_to, update_or_delete, clean_target,
  clean_reverse_links,
}
use nix_compose.Orchestrate.Links.Lists.{ids, ids-append, ids-unique, ids-without_source}

pub and_then-eq-some {ℓ} :
    {A B : Type ℓ} (o : Option A) (f : A → Option B) {b : B}
    → and_then o f ≡ some b
    → (a : A) × (o ≡ some a) × (f a ≡ some b)
and_then-eq-some none f h = cc
and_then-eq-some (some a) f h = (a, refl, h)

module _ (bolt : Bolt) where
  open bolt use {Bucket, get, put, remove, get-put, get-remove}

  -- Does the entry at `k` hold a reference to `x`?
  abbrev pub holds : Bucket → String → String → Bool
  holds b k x = contains (ids (read_refs (get k b))) x

  -- `s` depends on `t`, by the bucket of the sources, and by that of the targets.
  abbrev pub depends : Links bolt → String → String → Bool
  depends db s t = holds db.by_source s t

  abbrev pub depended : Links bolt → String → String → Bool
  depended db s t = holds db.by_target t s

  pub holds-add_to :
      (from to : Reference) (b b' : Bucket) (k x : String)
      → add_to bolt from to b ≡ some b'
      → holds b' k x ≡ (holds b k x || ((from.id == k) && (to.id == x)))
  unfolding add_to
  holds-add_to from to b b' k x h =
      let old = read_refs (get from.id b) in
      let written = get-put from.id k (unique (old ++ to ∷ [])) b b' h in
      elim (==-cases from.id k) [
        | inl (t, e) ↦ rw written (
            rw t (
              rw (← e)
                (ids-unique (old ++ to ∷ []) x ∙ (ids-append old (to ∷ []) x ∙ ground arith))))
        | inr (f, e) ↦ rw written (rw f (ground (arith, f)))
      ]

  holds-update_or_delete :
      (key : String) (refs : List Reference) (b b' : Bucket) (k x : String)
      → update_or_delete bolt key refs b ≡ some b'
      → holds b' k x ≡ (if key == k then contains (ids refs) x else holds b k x)
  unfolding update_or_delete
  holds-update_or_delete key [] b b' k x h = ground (arith, get-remove key k b b' h)
  holds-update_or_delete key (r ∷ rest) b b' k x h = ground (arith, get-put key k (r ∷ rest) b b' h)

  holds-clean_target :
      (key source_id : String) (found : Option (List Reference)) (b b' : Bucket) (k x : String)
      → get key b ≡ found
      → clean_target bolt key source_id found b ≡ some b'
      → holds b' k x ≡ (holds b k x && not ((key == k) && (source_id == x)))
  unfolding clean_target
  holds-clean_target key source_id none b b' k x e h = elim (==-cases key k) [
    | inl (t, p) ↦ ground (arith, h, e, p, t)
    | inr (f, p) ↦ ground (arith, h, f)
  ]
  holds-clean_target key source_id (some refs) b b' k x e h = elim (==-cases key k) [
    | inl (t, p) ↦ ground (
      arith,
      holds-update_or_delete key (without_source source_id refs) b b' k x h,
      ids-without_source source_id refs x,
      e,
      p,
      t,
    )
    | inr (f, p) ↦
        ground (arith, holds-update_or_delete key (without_source source_id refs) b b' k x h, f)
  ]

  pub holds-clean :
      (targets : List Reference) (source_id : String) (b b' : Bucket) (k x : String)
      → clean_reverse_links bolt targets source_id b ≡ some b'
      → holds b' k x ≡ (holds b k x && not (contains (ids targets) k && (source_id == x)))
  unfolding clean_reverse_links
  holds-clean [] source_id b b' k x h = ground (arith, h)
  holds-clean (target ∷ targets) source_id b b' k x h =
      let (mid, e, rest) =
        and_then-eq-some (clean_target bolt target.id source_id (get target.id b) b) _ h in
      ground (
        arith,
        holds-clean targets source_id mid b' k x rest,
        holds-clean_target target.id source_id (get target.id b) b mid k x refl e,
      )
