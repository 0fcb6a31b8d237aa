-- ===== src/Orchestrate/Topo/Order.antt =====
-- `topoSortRequests` of a batch whose links form no cycle: targets before sources for creates, and
-- behind them for deletes.
use nix_compose.Prelude.{
  ℕ, zero, suc, ◌<◌, String, List, [], ◌∷◌, ◌++◌, some, Bool, true, false, ◌≡◌, refl, ◌∙◌, ap, map,
  reverse, contains, contains-append, IsUnique, arith, eq_iff, eq_refl, inl, inr, Bool-cases,
  length, ◌||◌, leb,
}
use mathlib.Core.List.{reverse-cons, map-append, append-nil}
use nix_compose.Prelude.Dict.{Dict, has}
use nix_compose.Orchestrate.Types.{Link}
use nix_compose.Orchestrate.Deployment.Persist.{links_pair}
use nix_compose.Orchestrate.Topo.{orphans, append_cycle_orphans, in_direction, topo_sort_requests}
use nix_compose.Orchestrate.Topo.Spec.{
  waits, Respects, find, find_last, stands_before, Falls, inside,
}
use nix_compose.Orchestrate.Topo.Loop.{ids, IsPart, IsComplete, kahn_sort-Returns}
use nix_compose.Orchestrate.Topo.Complete.{
  set_of, set_of-IsKeyed, has-set_of, lookup-set_of, is_some-find_last, topo_sort-kahn,
  in_direction-HoldsOnce,
}

-- ------------------------------------------------------------------ positions

stands_before-snoc :
    (a b : String) (xs : List String) (x : String)
    → stands_before a b xs ≡ true
    → stands_before a b (xs ++ x ∷ []) ≡ true
stands_before-snoc a b [] x h = cc
stands_before-snoc a b (y ∷ xs) x h =
    ground (arith, stands_before-snoc a b xs x, contains-append xs (x ∷ []) b)

stands_before-last :
    (a b : String) (xs : List String)
    → contains xs a ≡ true
    → stands_before a b (xs ++ b ∷ []) ≡ true
stands_before-last a b [] h = cc
stands_before-last a b (y ∷ xs) h =
    ground (arith, stands_before-last a b xs, contains-append xs (b ∷ []) b, eq_refl b)

contains-reverse : (xs : List String) (n : String) → contains (reverse xs) n ≡ contains xs n
contains-reverse [] n = refl
contains-reverse (x ∷ xs) n =
    ground
      (arith, reverse-cons x xs, contains-append (reverse xs) (x ∷ []) n, contains-reverse xs n)

stands_before-reverse :
    (a b : String) (xs : List String)
    → stands_before a b xs ≡ true
    → stands_before b a (reverse xs) ≡ true
stands_before-reverse a b [] h = cc
stands_before-reverse a b (x ∷ xs) h = rw (reverse-cons x xs) (
    ground (
      arith,
      stands_before-last b x (reverse xs),
      stands_before-snoc b a (reverse xs) x,
      stands_before-reverse a b xs,
      contains-reverse xs b,
      eq_iff x a,
    ))

map-reverse {ℓ} :
    {A : Type ℓ} (f : A → String) (xs : List A) → map f (reverse xs) ≡ reverse (map f xs)
map-reverse f [] = refl
map-reverse f (x ∷ xs) =
    rw (reverse-cons x xs, reverse-cons (f x) (map f xs))
      (map-append f (reverse xs) (x ∷ []) ∙ ap (λ l. l ++ f x ∷ []) (map-reverse f xs))

-- ------------------------------------------------------------------ links

module _ {ℓ} {A : Type ℓ} (set : Dict A) where
  waits-zero :
      (links : List Link) (done : List String) (source target : String)
      → links_pair links source target ≡ true
      → has target set ≡ true
      → waits set links done source ≡ 0
      → contains done target ≡ true
  waits-zero [] done source target h k z = cc
  waits-zero (l ∷ rest) done source target h k z = ground (
    arith,
    waits-zero rest done source target,
    eq_iff l.source.id source,
    eq_iff l.target.id target,
  )

  -- An id whose targets in the batch are all done waits for nothing.
  waits-done :
      (names : List String) (rank : String → ℕ) (links : List Link) (done : List String)
      (source : String)
      → Falls rank (inside names links)
      → ((n : String) → has n set ≡ contains names n)
      → contains names source ≡ true
      → ((n : String) → contains names n ≡ true → rank n < rank source → contains done n ≡ true)
      → waits set links done source ≡ 0
  waits-done names rank [] done source falls same h backed = refl
  waits-done names rank (l ∷ rest) done source falls same h backed = ground (
    arith,
    waits-done names rank rest done source,
    same l.target.id,
    backed l.target.id,
    eq_iff l.source.id source,
  )

  Respects-before :
      (links : List Link) (done xs : List String) (source target : String)
      → Respects set links done xs
      → links_pair links source target ≡ true
      → has target set ≡ true
      → contains xs source ≡ true
      → contains xs target ≡ true
      → (contains done target || stands_before target source xs) ≡ true
  Respects-before links done [] source target r h k s t = cc
  Respects-before links done (x ∷ xs) source target r h k s t = ground (
    arith,
    Respects-before links (done ++ x ∷ []) xs source target,
    waits-zero links done source target h k,
    contains-append done (x ∷ []) target,
    eq_iff x target,
    eq_iff x source,
  )

-- ------------------------------------------------------------------ batches without cycles

module _ {ℓ} {A : Type ℓ} (id_of : A → String) where
  no_orphans :
      (included : List String) (rs : List A)
      → ((n : String) → contains (ids id_of rs) n ≡ true → contains included n ≡ true)
      → orphans id_of included rs ≡ []
  unfolding orphans
  no_orphans included [] h = refl
  no_orphans included (r ∷ rest) h =
      ground (
        arith,
        no_orphans included rest (λ n k. h n (ground arith)),
        h (id_of r),
        eq_refl (id_of r),
      )

  append_no_orphans :
      (sorted rs : List A)
      → ((n : String) → contains (ids id_of rs) n ≡ true → contains (ids id_of sorted) n ≡ true)
      → append_cycle_orphans id_of sorted rs ≡ sorted
  unfolding append_cycle_orphans
  append_no_orphans sorted rs h =
      let nothing = no_orphans (ids id_of sorted) rs h in
      elim (Bool-cases (leb (length rs) (length sorted))) [
        | inl t ↦ rw t refl
        | inr f ↦ rw (f, nothing) (append-nil sorted)
      ]

  module _ (rs : List A) (links : List Link) (rank : String → ℕ)
      (falls : Falls rank (inside (ids id_of rs) links)) where
    module _ (sorted : List A)
        (done : IsComplete id_of (set_of id_of rs) links (set_of-IsKeyed id_of rs) sorted) where
      sorted_below :
          (bound : ℕ) (n : String)
          → rank n < bound
          → contains (ids id_of rs) n ≡ true
          → contains (ids id_of sorted) n ≡ true
      sorted_below zero n h k = absurd (omega (arith, h))
      sorted_below (suc bound) n h k = done.complete n (has-set_of id_of rs n ∙ k) (
          waits-done (set_of id_of rs) (ids id_of rs) rank links (ids id_of sorted) n falls
            (has-set_of id_of rs) k (λ m l less. sorted_below bound m (omega (arith, h, less)) l))

      all_sorted :
          (n : String) → contains (ids id_of rs) n ≡ true → contains (ids id_of sorted) n ≡ true
      all_sorted n = sorted_below (suc (rank n)) n (omega arith)

    sorted_batch :
        (sorted : List A) × ((reversed : Bool)
          → topo_sort_requests id_of rs links reversed ≡ some (in_direction reversed sorted))
        × Respects (set_of id_of rs) links [] (ids id_of sorted)
        × ((n : String) → contains (ids id_of rs) n ≡ true → contains (ids id_of sorted) n ≡ true)
        × IsPart id_of (set_of id_of rs) links (set_of-IsKeyed id_of rs) sorted
    sorted_batch =
        let (sorted, e, ordered, done) =
          kahn_sort-Returns id_of (set_of id_of rs) links (set_of-IsKeyed id_of rs) in
        let all = all_sorted sorted done in
        (
          sorted,
          λ reversed.
              topo_sort-kahn id_of rs links reversed sorted done.part e
              ∙ ap (λ out. some (in_direction reversed out)) (append_no_orphans sorted rs all),
          ordered,
          all,
          done.part,
        )

    -- When no cycle links the requests of a batch to each other (a rank falls along these links),
    -- the order for creates puts the target of each link before its source, and the order for
    -- deletes is that one reversed: there the source stands before the target.
    pub topo_sort_order :
        (source target : String)
        → links_pair links source target ≡ true
        → contains (ids id_of rs) source ≡ true
        → contains (ids id_of rs) target ≡ true
        → (out : List A) × (topo_sort_requests id_of rs links false ≡ some out)
          × (topo_sort_requests id_of rs links true ≡ some (reverse out))
          × (stands_before target source (ids id_of out) ≡ true)
          × (stands_before source target (ids id_of (reverse out)) ≡ true)
    topo_sort_order source target h s t =
        let (sorted, e, ordered, all, _) = sorted_batch in
        let before : stands_before target source (ids id_of sorted) ≡ true =
          Respects-before (set_of id_of rs) links [] (ids id_of sorted) source target ordered h
            (has-set_of id_of rs target ∙ t) (all source s) (all target t) in
        (
          sorted,
          e false,
          e true,
          before,
          rw (map-reverse id_of sorted)
              (stands_before-reverse target source (ids id_of sorted) before),
        )

    -- When no cycle links the requests of a batch to each other, the result holds one request for
    -- each id, and of several with the same id it is the last: the others are not executed.
    pub topo_sort_last :
        (reversed : Bool)
        → (out : List A) × (topo_sort_requests id_of rs links reversed ≡ some out)
          × IsUnique (ids id_of out)
          × ((id : String) → find id_of id out ≡ find_last id_of id rs)
    topo_sort_last reversed =
        let (sorted, e, ordered, all, part) = sorted_batch in
        let found : (id : String) → find id_of id sorted ≡ find_last id_of id rs = λ id. ground (
          arith,
          part.found id,
          all id,
          lookup-set_of id_of rs id,
          is_some-find_last id_of rs id,
        ) in
        let once =
          in_direction-HoldsOnce id_of reversed sorted (λ id. find_last id_of id rs)
            (part.once, found) in
        (in_direction reversed sorted, e reversed, once.0, once.1)
