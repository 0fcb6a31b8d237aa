-- ===== src/Orchestrate/Links/Mirror.antt =====
-- What `AddLink` and `RemoveLink` do to the two views, and that the views agree.
use nix_compose.Prelude.{
  String, List, [], ◌∷◌, ◌≡◌, refl, ◌∙◌, Option, some, Bool, true, false, ◌==◌, ◌&&◌, ◌||◌, not,
  ◌⊎◌, inl, inr, arith, eq_iff,
}
use nix_compose.Orchestrate.Types.{Reference, Link}
use nix_compose.Orchestrate.Links.{
  Bolt, Links, read_refs, update, add_to, add_link_tx, add_link, clean_reverse_links,
  remove_link_tx, remove_link,
}
use nix_compose.Orchestrate.Links.Holds.{
  depends, depended, holds-add_to, holds-clean, and_then-eq-some,
}

-- The two operations that write links.
pub data LinkOp : Type 0 where
  add : Link → LinkOp
  remove_all : Reference → LinkOp

module _ (bolt : Bolt) where
  open bolt use {Bucket, get, put, remove, get-put, get-remove}

  -- A transaction: rolled back, or done.
  update_cases :
      (tx : Links bolt → Option (Links bolt)) (db db' : Links bolt) (done : Bool)
      → update bolt tx db ≡ (db', done)
      → ((done ≡ false) × (db' ≡ db)) ⊎ ((done ≡ true) × (tx db ≡ some db'))
  unfolding update
  update_cases tx db db' done h = ground arith

  add_link_done :
      (l : Link) (db db' : Links bolt) (s t : String)
      → add_link_tx bolt l db ≡ some db'
      → (depends bolt db' s t ≡ (depends bolt db s t || ((l.source.id == s) && (l.target.id == t))))
        × (depended bolt db' s t
            ≡ (depended bolt db s t || ((l.source.id == s) && (l.target.id == t))))
  unfolding add_link_tx
  add_link_done l db db' s t h =
      let (b, e, h') = and_then-eq-some (add_to bolt l.source l.target db.by_source) _ h in
      let (c, e', h'') = and_then-eq-some (add_to bolt l.target l.source db.by_target) _ h' in
      ground (
        arith,
        h'',
        holds-add_to bolt l.source l.target db.by_source b s t e,
        holds-add_to bolt l.target l.source db.by_target c t s e',
      )

  -- `AddLink` adds its link to both views, and no other; where the transaction fails both views stay.
  pub add_link_lem :
      (l : Link) (db db' : Links bolt) (done : Bool) (s t : String)
      → add_link bolt l db ≡ (db', done)
      → (depends bolt db' s t
          ≡ (depends bolt db s t || (done && ((l.source.id == s) && (l.target.id == t)))))
        × (depended bolt db' s t
            ≡ (depended bolt db s t || (done && ((l.source.id == s) && (l.target.id == t)))))
  unfolding add_link
  add_link_lem l db db' done s t h = elim (update_cases (add_link_tx bolt l) db db' done h) [
    | inl (f, e) ↦ rw (f, e) (ground arith, ground arith)
    | inr (d, e) ↦ rw d (add_link_done l db db' s t e)
  ]

  remove_link_done :
      (r : Reference) (db db' : Links bolt) (s t : String)
      → remove_link_tx bolt r db ≡ some db'
      → (depends bolt db' s t ≡ (depends bolt db s t && not (r.id == s)))
        × (depended bolt db' s t
            ≡ (depended bolt db s t && not (depends bolt db r.id t && (r.id == s))))
  unfolding remove_link_tx
  remove_link_done r db db' s t h =
      let (b, e, h') = and_then-eq-some (remove r.id db.by_source) _ h in
      let (c, e', h'') =
        and_then-eq-some
          (clean_reverse_links bolt (read_refs (get r.id db.by_source)) r.id db.by_target) _ h' in
      ground (
        arith,
        h'',
        get-remove r.id s db.by_source b e,
        holds-clean bolt (read_refs (get r.id db.by_source)) r.id db.by_target c t s e',
      )

  -- `RemoveLink` takes every link out of `r` from both views, as far as the first view had it, and no
  -- other; where the transaction fails both views stay.
  pub remove_link_lem :
      (r : Reference) (db db' : Links bolt) (done : Bool) (s t : String)
      → remove_link bolt r db ≡ (db', done)
      → (depends bolt db' s t ≡ (depends bolt db s t && not (done && (r.id == s))))
        × (depended bolt db' s t
            ≡ (depended bolt db s t && not (done && (depends bolt db r.id t && (r.id == s)))))
  unfolding remove_link
  remove_link_lem r db db' done s t h = elim (update_cases (remove_link_tx bolt r) db db' done h) [
    | inl (f, e) ↦ rw (f, e) (ground arith, ground arith)
    | inr (d, e) ↦ rw d (remove_link_done r db db' s t e)
  ]

  -- The two views hold the same links.
  abbrev pub IsMirrored : Links bolt → Type 0
  IsMirrored db = (s t : String) → depends bolt db s t ≡ depended bolt db s t

  abbrev pub run_op : LinkOp → Links bolt → Links bolt × Bool
  run_op (add l) db = add_link bolt l db
  run_op (remove_all r) db = remove_link bolt r db

  abbrev pub run_ops : List LinkOp → Links bolt → Links bolt
  run_ops [] db = db
  run_ops (op ∷ ops) db = run_ops ops (run_op op db).0

  run_op-IsMirrored : (op : LinkOp) (db : Links bolt) → IsMirrored db → IsMirrored (run_op op db).0
  run_op-IsMirrored (add l) db m s t =
      let (a, b) = add_link_lem l db _ (add_link bolt l db).1 s t refl in
      a ∙ (ground (arith, b, m s t))
  run_op-IsMirrored (remove_all r) db m s t =
      let (a, b) = remove_link_lem r db _ (remove_link bolt r db).1 s t refl in
      a ∙ ground (arith, b, m s t, eq_iff r.id s)

  -- After any run of `AddLink` and `RemoveLink`, with or without failing transactions, the view by
  -- source and the view by target hold the same links, if they did before.
  pub run_ops-IsMirrored :
      (ops : List LinkOp) (db : Links bolt) → IsMirrored db → IsMirrored (run_ops ops db)
  run_ops-IsMirrored [] db m = m
  run_ops-IsMirrored (op ∷ ops) db m =
      run_ops-IsMirrored ops (run_op op db).0 (run_op-IsMirrored op db m)
