-- ===== src/Orchestrate/Topo/Loop.antt =====
-- The loop of `kahnSort`: it ends within one turn for each id, and what it has sorted then.
use nix_compose.Prelude.{
  ℕ, zero, suc, ◌≤◌, ◌<◌, String, List, [], ◌∷◌, ◌++◌, Option, none, some, true, false, ◌≡◌, refl,
  ◌∙◌, sym, ap, map, contains, contains-append, append-IsUnique, undone, undone-lt, undone-length,
  IsUnique, arith, if◌then◌else◌, eq_iff, eq_refl, inl, inr, Option-cases, length, subst,
}
use mathlib.Core.List.{append_assoc, append-nil}
use nix_compose.Prelude.Sort.{sort}
use nix_compose.Prelude.Int.{ℤ}
use nix_compose.Prelude.Dict.{Dict, lookup, has, keys, contains-keys, length-keys}
use nix_compose.Orchestrate.Types.{Link}
use nix_compose.Orchestrate.Topo.{release_all, sources_of, kahn_loop, kahn_sort, build_batch_graph}
use nix_compose.Orchestrate.Topo.Spec.{waits, Respects, find}
use nix_compose.Orchestrate.Topo.Step.{
  Inv, IsSettled, turn-Inv, turn-IsSettled, first_free, start-Inv,
}

module _ {ℓ} {A : Type ℓ} (id_of : A → String) where
  abbrev pub ids : List A → List String
  ids rs = map id_of rs

  pub ids-append : (xs ys : List A) → ids (xs ++ ys) ≡ ids xs ++ ids ys
  ids-append [] ys = refl
  ids-append (x ∷ xs) ys = ap (λ l. id_of x ∷ l) (ids-append xs ys)

  pub length-ids : (xs : List A) → length (ids xs) ≡ length xs
  length-ids [] = refl
  length-ids (x ∷ xs) = ap suc (length-ids xs)

  pub find-append :
      (xs ys : List A) (id : String)
      → find id_of id (xs ++ ys)
        ≡ (if contains (ids xs) id then find id_of id xs else find id_of id ys)
  find-append [] ys id = refl
  find-append (x ∷ xs) ys id = ground (arith, find-append xs ys id)

  -- The keys of a request set are the ids of its requests.
  abbrev pub IsKeyed : Dict A → Type ℓ
  IsKeyed set = (id : String) (r : A) → lookup id set ≡ some r → id_of r ≡ id

  module _ (set : Dict A) (links : List Link) (keyed : IsKeyed set) where
    -- The elements are requests of the set, each once.
    pub record IsPart (sorted : List A) : Type ℓ where
      pub once : IsUnique (ids sorted)
      pub found :
          (id : String)
          → find id_of id sorted ≡ (if contains (ids sorted) id then lookup id set else none)
      pub known : (id : String) → contains (ids sorted) id ≡ true → has id set ≡ true

    -- What the loop returns: nothing that waits for nothing is left over.
    pub record IsComplete (sorted : List A) : Type ℓ where
      pub part : IsPart sorted
      pub complete :
          (id : String)
          → has id set ≡ true
          → waits set links (ids sorted) id ≡ 0
          → contains (ids sorted) id ≡ true

    ids-push :
        (sorted : List A) (id : String) (r : A)
        → lookup id set ≡ some r
        → ids (sorted ++ r ∷ []) ≡ ids sorted ++ id ∷ []
    ids-push sorted id r e =
        ids-append sorted (r ∷ []) ∙ ap (λ x. ids sorted ++ x ∷ []) (keyed id r e)

    push-IsPart :
        (sorted : List A) (id : String) (r : A)
        → lookup id set ≡ some r
        → contains (ids sorted) id ≡ false
        → IsPart sorted
        → IsPart (sorted ++ r ∷ [])
    push-IsPart sorted id r e f part =
        let same = keyed id r e in
        let shape = ids-push sorted id r e in
        record {
          once = subst IsUnique (sym shape) (append-IsUnique (ids sorted) id part.once f);
          found = λ n. ground (
            arith,
            find-append sorted (r ∷ []) n,
            shape,
            contains-append (ids sorted) (id ∷ []) n,
            part.found n,
            eq_iff id n,
            same,
            e,
          );
          known = λ n h. ground (
            arith,
            shape,
            contains-append (ids sorted) (id ∷ []) n,
            part.known n,
            eq_iff id n,
            e,
          );
        }

    abbrev pub Returns : List A → Option (List A) → Type ℓ
    Returns sorted out =
        (rest : List A) × (out ≡ some (sorted ++ rest))
        × Respects set links (ids sorted) (ids rest)
        × IsComplete (sorted ++ rest)

    Returns-cons :
        (sorted : List A) (r : A) (out : Option (List A))
        → waits set links (ids sorted) (id_of r) ≡ 0
        → Returns (sorted ++ r ∷ []) out
        → Returns sorted out
    Returns-cons sorted r out z (rest, e, ordered, complete) = (
      r ∷ rest,
      e ∙ ap some (append_assoc sorted (r ∷ []) rest),
      (z, subst (λ d. Respects set links d (ids rest)) (ids-append sorted (r ∷ [])) ordered),
      subst IsComplete (append_assoc sorted (r ∷ []) rest) complete,
    )

    undone-pop :
        (sorted : List A) (id : String) (queue : List String) (degrees : Dict ℤ)
        → Inv set links (ids sorted) [] (record { queue = id ∷ queue; in_degree = degrees })
        → IsSettled set links (ids sorted)
        → undone (ids sorted ++ id ∷ []) (keys set) < undone (ids sorted) (keys set)
    undone-pop sorted id queue degrees inv settled =
        let (known, _, fresh) = first_free set links (ids sorted) id queue degrees inv settled in
        undone-lt (ids sorted) (ids sorted ++ id ∷ []) (keys set) id
          (λ n h. ground (arith, contains-append (ids sorted) (id ∷ []) n)) fresh
          (ground (arith, contains-append (ids sorted) (id ∷ []) id, eq_refl id))
          (contains-keys set id ∙ known)

    kahn_loop-Returns :
        (fuel : ℕ) (queue : List String) (degrees : Dict ℤ) (sorted : List A)
        → undone (ids sorted) (keys set) ≤ fuel
        → Inv set links (ids sorted) [] (record { queue = queue; in_degree = degrees })
        → IsSettled set links (ids sorted)
        → IsPart sorted
        → Returns sorted
            (kahn_loop fuel set (build_batch_graph set links).adjacency queue degrees sorted)
    unfolding kahn_loop
    kahn_loop-Returns fuel [] degrees sorted h inv settled part = (
      [],
      rw append-nil refl,
      tt,
      rw append-nil (record { part = part; complete = λ n k z. ground (arith, inv.queued n) }),
    )
    kahn_loop-Returns zero (id ∷ queue) degrees sorted h inv settled part =
        ground (arith, undone-pop sorted id queue degrees inv settled)
    kahn_loop-Returns (suc fuel) (id ∷ queue) degrees sorted h inv settled part =
        elim (Option-cases (lookup id set)) [
          | inl e ↦ ground (arith, first_free set links (ids sorted) id queue degrees inv settled)
          | inr (r, e) ↦
              let free = first_free set links (ids sorted) id queue degrees inv settled in
              let shape = ids-push sorted id r e in
              let w =
                release_all (sort (sources_of (build_batch_graph set links) id))
                  (record { queue = queue; in_degree = degrees }) in
              let less = undone-pop sorted id queue degrees inv settled in
              rw (e, kahn_loop)
                (Returns-cons sorted r _ (rw (keyed id r e) free.1) (
                  kahn_loop-Returns fuel w.queue w.in_degree (sorted ++ r ∷ [])
                    (rw shape (omega (arith, less, h)))
                    (subst (λ d. Inv set links d [] w) (sym shape)
                      (turn-Inv set links (ids sorted) id queue degrees inv settled))
                    (subst (IsSettled set links) (sym shape)
                      (turn-IsSettled set links (ids sorted) id queue degrees inv settled))
                    (push-IsPart sorted id r e free.2 part)))
        ]

    pub kahn_sort-Returns : Returns [] (kahn_sort set (build_batch_graph set links))
    unfolding kahn_sort
    kahn_sort-Returns =
        kahn_loop-Returns (length set) _ _ [] (rw (← length-keys set) (undone-length [] (keys set)))
          (start-Inv set links) (λ n h. cc)
          (record { once = tt; found = λ n. refl; known = λ n h. cc })
