-- ===== src/Orchestrate/Links/Memory.antt =====
-- A bucket of the database that is kept in memory; its writes never fail.
use nix_compose.Prelude.{
  String, List, [], ◌∷◌, refl, ap, arith, true, Option, ◌≡◌, none, some, ◌==◌, subst, if◌then◌else◌,
}
use nix_compose.Prelude.Dict.{Dict, lookup, insert, lookup-insert, lookup-delete}
use nix_compose.Prelude.Dict.{delete as delete_key}
use nix_compose.Orchestrate.Types.{Reference}
use nix_compose.Orchestrate.Links.{
  Bolt, Links, clean_reverse_links, clean_target, update_or_delete, update, and_then, remove_link,
  remove_link_tx, without_source, read_refs,
}

pub dict_get-put :
    (k j : String) (v : List Reference) (b b' : Dict (List Reference))
    → some (insert k v b) ≡ some b'
    → lookup j b' ≡ (if k == j then some v else lookup j b)
dict_get-put k j v b b' h =
    let same : insert k v b ≡ b' = cc in
    subst (λ d. lookup j d ≡ (if k == j then some v else lookup j b)) same (lookup-insert k j v b)

pub dict_get-remove :
    (k j : String) (b b' : Dict (List Reference))
    → some (delete_key k b) ≡ some b'
    → lookup j b' ≡ (if k == j then none else lookup j b)
dict_get-remove k j b b' h =
    let same : delete_key k b ≡ b' = cc in
    subst (λ d. lookup j d ≡ (if k == j then none else lookup j b)) same (lookup-delete k j b)

abbrev pub memory : Bolt
memory = record {
  Bucket = Dict (List Reference);
  get = λ k b. lookup k b;
  put = λ k v b. some (insert k v b);
  remove = λ k b. some (delete_key k b);
  get-put = dict_get-put;
  get-remove = dict_get-remove;
}

memory-clean_target :
    (key id : String) (found : Option (List Reference)) (b : Dict (List Reference))
    → (b' : Dict (List Reference)) × (clean_target memory key id found b ≡ some b')
unfolding clean_target update_or_delete
memory-clean_target key id none b = (b, refl)
memory-clean_target key id (some refs) b = write (without_source id refs)
  where
    write :
        (left : List Reference)
        → (b' : Dict (List Reference)) × (update_or_delete memory key left b ≡ some b')
    write [] = (delete_key key b, refl)
    write (r ∷ rest) = (insert key (r ∷ rest) b, refl)

memory-clean :
    (targets : List Reference) (id : String) (b : Dict (List Reference))
    → (b' : Dict (List Reference)) × (clean_reverse_links memory targets id b ≡ some b')
unfolding clean_reverse_links
memory-clean [] id b = (b, refl)
memory-clean (t ∷ targets) id b =
    let (mid, e) = memory-clean_target t.id id (lookup t.id b) b in
    let (after, k) = memory-clean targets id mid in (after, rw e k)

update_done :
    (tx : Links memory → Option (Links memory)) (db after : Links memory)
    → tx db ≡ some after
    → (update memory tx db).1 ≡ true
unfolding update
update_done tx db after h = ground arith

pub memory-remove_link : (r : Reference) (db : Links memory) → (remove_link memory r db).1 ≡ true
unfolding remove_link remove_link_tx
memory-remove_link r db =
    let (after, e) = memory-clean (read_refs (lookup r.id db.by_source)) r.id db.by_target in
    update_done (remove_link_tx memory r) db _ (
      ap
        (λ o. and_then o λ targets.
          some (record { by_source = delete_key r.id db.by_source; by_target = targets }))
        e)
