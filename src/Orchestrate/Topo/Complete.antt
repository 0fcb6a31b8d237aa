-- ===== src/Orchestrate/Topo/Complete.antt =====
-- `topoSortRequests` ends, and no request is lost or doubled.
use nix_compose.Prelude.{
  String, List, [], ◌∷◌, ◌++◌, Option, none, some, Bool, true, false, ◌≡◌, refl, ◌∙◌, sym, ap,
  reverse, contains, contains-append, append-IsUnique, undone_room, undone-eq-zero, IsUnique, arith,
  if◌then◌else◌, eq_iff, eq_refl, inl, inr, Bool-cases, length, ◌&&◌, not, leb,
}
use mathlib.Core.List.{reverse-cons}
use nix_compose.Prelude.Dict.{Dict, lookup, has, lookup-insert, insert, is_some}
use nix_compose.Orchestrate.Types.{Link}
use nix_compose.Orchestrate.Topo.{
  kahn_sort, build_batch_graph, build_request_set, orphans, append_cycle_orphans, topo_sort,
  topo_sort_requests, finish, in_direction,
}
use nix_compose.Orchestrate.Topo.Spec.{find, find_last}
use nix_compose.Orchestrate.Topo.Loop.{
  ids, ids-append, length-ids, find-append, IsKeyed, IsPart, kahn_sort-Returns,
}

module _ {ℓ} {A : Type ℓ} (id_of : A → String) where
  abbrev pub set_of : List A → Dict A
  set_of rs = build_request_set id_of rs []

  abbrev later_or : Option A → Option A → Option A
  later_or none o = o
  later_or (some r) o = some r

  lookup-build :
      (rs : List A) (set : Dict A) (id : String)
      → lookup id (build_request_set id_of rs set)
        ≡ later_or (find_last id_of id rs) (lookup id set)
  unfolding build_request_set
  lookup-build [] set id = refl
  lookup-build (r ∷ rest) set id =
      ground
        (arith, lookup-build rest (insert (id_of r) r set) id, lookup-insert (id_of r) id r set)

  pub lookup-set_of : (rs : List A) (id : String) → lookup id (set_of rs) ≡ find_last id_of id rs
  unfolding lookup
  lookup-set_of rs id = lookup-build rs [] id ∙ go (find_last id_of id rs)
    where
      go : (o : Option A) → later_or o none ≡ o
      go none = refl
      go (some r) = refl

  find_last-id : (rs : List A) (id : String) (r : A) → find_last id_of id rs ≡ some r → id_of r ≡ id
  find_last-id [] id r h = cc
  find_last-id (x ∷ rs) id r h = ground (arith, find_last-id rs id r, eq_iff (id_of x) id)

  pub set_of-IsKeyed : (rs : List A) → IsKeyed id_of (set_of rs)
  set_of-IsKeyed rs id r h = find_last-id rs id r (sym (lookup-set_of rs id) ∙ h)

  pub is_some-find_last :
      (rs : List A) (id : String) → is_some (find_last id_of id rs) ≡ contains (ids id_of rs) id
  is_some-find_last [] id = refl
  is_some-find_last (x ∷ rs) id = ground (arith, is_some-find_last rs id)

  is_some-find :
      (rs : List A) (id : String) → is_some (find id_of id rs) ≡ contains (ids id_of rs) id
  is_some-find [] id = refl
  is_some-find (x ∷ rs) id = ground (arith, is_some-find rs id)

  pub has-set_of : (rs : List A) (id : String) → has id (set_of rs) ≡ contains (ids id_of rs) id
  has-set_of rs id = rw (lookup-set_of rs id) (is_some-find_last rs id)

  find_last-eq-find :
      (rs : List A) (id : String)
      → IsUnique (ids id_of rs)
      → find_last id_of id rs ≡ find id_of id rs
  find_last-eq-find [] id u = refl
  find_last-eq-find (r ∷ rest) id u =
      ground
        (arith, find_last-eq-find rest id u.1, is_some-find_last rest id, eq_iff (id_of r) id, u.0)

  find-orphans :
      (included : List String) (rs : List A) (id : String)
      → find id_of id (orphans id_of included rs)
        ≡ (if contains included id then none else find id_of id rs)
  unfolding orphans
  find-orphans included [] id = ground arith
  find-orphans included (r ∷ rest) id =
      ground (arith, find-orphans included rest id, eq_iff (id_of r) id)

  contains-orphans :
      (included : List String) (rs : List A) (id : String)
      → contains (ids id_of (orphans id_of included rs)) id
        ≡ (contains (ids id_of rs) id && not (contains included id))
  unfolding orphans
  contains-orphans included [] id = ground arith
  contains-orphans included (r ∷ rest) id =
      ground (arith, contains-orphans included rest id, eq_iff (id_of r) id)

  orphans-IsUnique :
      (included : List String) (rs : List A)
      → IsUnique (ids id_of rs)
      → IsUnique (ids id_of (orphans id_of included rs))
  unfolding orphans
  orphans-IsUnique included [] u = tt
  orphans-IsUnique included (r ∷ rest) u =
      ground (arith, orphans-IsUnique included rest, contains-orphans included rest (id_of r))

  disjoint-IsUnique :
      (xs ys : List String)
      → IsUnique xs
      → IsUnique ys
      → ((n : String) → contains xs n ≡ true → contains ys n ≡ false)
      → IsUnique (xs ++ ys)
  disjoint-IsUnique [] ys u v h = v
  disjoint-IsUnique (x ∷ xs) ys u v h = (
    ground (arith, contains-append xs ys x, h x, eq_refl x, u.0),
    disjoint-IsUnique xs ys u.1 v (λ n k. h n (ground arith)),
  )

  -- The part that Kahn's algorithm sorts, and behind it the requests that stand in a cycle.
  all_orphans-IsUnique :
      (rs sorted : List A)
      → IsUnique (ids id_of rs)
      → IsUnique (ids id_of sorted)
      → IsUnique (ids id_of (sorted ++ orphans id_of (ids id_of sorted) rs))
  all_orphans-IsUnique rs sorted u v =
      rw (ids-append id_of sorted (orphans id_of (ids id_of sorted) rs)) (
        disjoint-IsUnique (ids id_of sorted) _ v (orphans-IsUnique (ids id_of sorted) rs u)
          (λ n k. ground (arith, contains-orphans (ids id_of sorted) rs n)))

  module _ (rs : List A) (links : List Link) (sorted : List A)
      (part : IsPart id_of (set_of rs) links (set_of-IsKeyed rs) sorted) where
    known_id :
        (n : String) → contains (ids id_of sorted) n ≡ true → contains (ids id_of rs) n ≡ true
    known_id n h = ground (arith, part.known n, has-set_of rs n)

    -- As many sorted requests as there are requests: then every id is sorted.
    no_room :
        (n : String)
        → leb (length rs) (length sorted) ≡ true
        → contains (ids id_of rs) n ≡ true
        → contains (ids id_of sorted) n ≡ true
    no_room n h k =
        undone-eq-zero (ids id_of sorted) (ids id_of rs) n
          (ground (
            arith,
            undone_room (ids id_of sorted) (ids id_of rs) part.once known_id,
            length-ids id_of sorted,
            length-ids id_of rs,
          ))
          k

    pub find-append_cycle_orphans :
        (id : String)
        → find id_of id (append_cycle_orphans id_of sorted rs)
          ≡ (if contains (ids id_of sorted) id then find_last id_of id rs else find id_of id rs)
    unfolding append_cycle_orphans
    find-append_cycle_orphans id = elim (Bool-cases (leb (length rs) (length sorted))) [
      | inl t ↦
          rw t
            (part.found id ∙ ground (arith, lookup-set_of rs id, no_room id t, is_some-find rs id))
      | inr f ↦ rw f (
          find-append id_of sorted (orphans id_of (ids id_of sorted) rs) id
          ∙ ground
              (arith, part.found id, lookup-set_of rs id, find-orphans (ids id_of sorted) rs id))
    ]

    pub append_cycle_orphans-IsUnique :
        IsUnique (ids id_of rs) → IsUnique (ids id_of (append_cycle_orphans id_of sorted rs))
    unfolding append_cycle_orphans
    append_cycle_orphans-IsUnique u = elim (Bool-cases (leb (length rs) (length sorted))) [
      | inl t ↦ rw t part.once
      | inr f ↦ rw f (all_orphans-IsUnique rs sorted u part.once)
    ]

  contains-ids-reverse :
      (rs : List A) (id : String)
      → contains (ids id_of (reverse rs)) id ≡ contains (ids id_of rs) id
  contains-ids-reverse [] id = refl
  contains-ids-reverse (r ∷ rs) id = ground (
    arith,
    reverse-cons r rs,
    ids-append id_of (reverse rs) (r ∷ []),
    contains-append (ids id_of (reverse rs)) (id_of r ∷ []) id,
    contains-ids-reverse rs id,
  )

  contains-in_direction :
      (reversed : Bool) (rs : List A) (id : String)
      → contains (ids id_of (in_direction reversed rs)) id ≡ contains (ids id_of rs) id
  contains-in_direction true rs id = contains-ids-reverse rs id
  contains-in_direction false rs id = refl

  reverse-IsUnique : (rs : List A) → IsUnique (ids id_of rs) → IsUnique (ids id_of (reverse rs))
  reverse-IsUnique [] u = tt
  reverse-IsUnique (r ∷ rs) u = rw (reverse-cons r rs) (
      rw (ids-append id_of (reverse rs) (r ∷ [])) (
        append-IsUnique (ids id_of (reverse rs)) (id_of r) (reverse-IsUnique rs u.1)
          (contains-ids-reverse rs (id_of r) ∙ u.0)))

  find-reverse :
      (rs : List A) (id : String)
      → IsUnique (ids id_of rs)
      → find id_of id (reverse rs) ≡ find id_of id rs
  find-reverse [] id u = refl
  find-reverse (r ∷ rs) id u = rw (reverse-cons r rs) (
      find-append id_of (reverse rs) (r ∷ []) id
      ∙ ground (
        arith,
        contains-ids-reverse rs id,
        find-reverse rs id u.1,
        is_some-find rs id,
        eq_iff (id_of r) id,
        u.0,
      ))

  -- The requests that `request` finds, once each.
  abbrev HoldsOnce : (String → Option A) → List A → Type ℓ
  HoldsOnce request out =
      IsUnique (ids id_of out) × ((id : String) → find id_of id out ≡ request id)

  pub in_direction-HoldsOnce :
      (reversed : Bool) (out : List A) (request : String → Option A)
      → HoldsOnce request out
      → HoldsOnce request (in_direction reversed out)
  in_direction-HoldsOnce false out request h = h
  in_direction-HoldsOnce true out request h =
      (reverse-IsUnique out h.0, λ id. find-reverse out id h.0 ∙ h.1 id)

  -- What the sort of a batch that is not empty returns, in terms of the part that Kahn's algorithm
  -- sorts.
  pub topo_sort-kahn :
      (rs : List A) (links : List Link) (reversed : Bool) (sorted : List A)
      → IsPart id_of (set_of rs) links (set_of-IsKeyed rs) sorted
      → kahn_sort (set_of rs) (build_batch_graph (set_of rs) links) ≡ some sorted
      → topo_sort_requests id_of rs links reversed
        ≡ some (in_direction reversed (append_cycle_orphans id_of sorted rs))
  unfolding topo_sort_requests topo_sort finish append_cycle_orphans orphans lookup
      build_request_set
  topo_sort-kahn [] links true [] part e = refl
  topo_sort-kahn [] links false [] part e = refl
  topo_sort-kahn [] links reversed (x ∷ xs) part e =
      ground (arith, part.known (id_of x), eq_refl (id_of x))
  topo_sort-kahn (r ∷ rest) links reversed sorted part e = ap (finish id_of (r ∷ rest) reversed) e

  -- Sorting a batch whose requests have distinct ids ends, within one turn of the loop for each
  -- request, and in either direction the result holds every request exactly once, also those that
  -- stand in a cycle of the links.
  pub topo_sort_complete :
      (rs : List A) (links : List Link) (reversed : Bool)
      → IsUnique (ids id_of rs)
      → (out : List A) × (topo_sort_requests id_of rs links reversed ≡ some out)
        × IsUnique (ids id_of out)
        × ((id : String) → find id_of id out ≡ find id_of id rs)
  topo_sort_complete rs links reversed u =
      let (sorted, e, _, done) = kahn_sort-Returns id_of (set_of rs) links (set_of-IsKeyed rs) in
      let all = append_cycle_orphans id_of sorted rs in
      let once =
        in_direction-HoldsOnce reversed all (λ id. find id_of id rs)
          (
            append_cycle_orphans-IsUnique rs links sorted done.part u,
            λ id. ground (
              arith,
              find-append_cycle_orphans rs links sorted done.part id,
              find_last-eq-find rs id u,
            ),
          ) in
      (
        in_direction reversed all,
        topo_sort-kahn rs links reversed sorted done.part e,
        once.0,
        once.1,
      )

  -- Every batch is sorted, and the result has the ids of the batch.
  pub topo_sort_returns :
      (rs : List A) (links : List Link) (reversed : Bool)
      → (out : List A) × (topo_sort_requests id_of rs links reversed ≡ some out)
        × ((id : String) → contains (ids id_of out) id ≡ contains (ids id_of rs) id)
  topo_sort_returns rs links reversed =
      let (sorted, e, _, done) = kahn_sort-Returns id_of (set_of rs) links (set_of-IsKeyed rs) in
      let all = append_cycle_orphans id_of sorted rs in
      (
        in_direction reversed all,
        topo_sort-kahn rs links reversed sorted done.part e,
        λ id.
            contains-in_direction reversed all id
            ∙ ground (
              arith,
              is_some-find all id,
              find-append_cycle_orphans rs links sorted done.part id,
              is_some-find rs id,
              is_some-find_last rs id,
            ),
      )
