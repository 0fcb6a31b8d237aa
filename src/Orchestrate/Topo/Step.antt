-- ===== src/Orchestrate/Topo/Step.antt =====
-- One turn of the loop of `kahnSort`: when an id leaves the queue, its sources are released, and the
-- queue again holds the ids that wait for nothing.
use nix_compose.Prelude.{
  ℕ, zero, suc, ◌+◌, String, List, [], ◌∷◌, ◌++◌, some, true, false, ◌==◌, ◌≡◌, refl, ◌∙◌, sym,
  contains, contains-append, count, append-IsUnique, contains-count, IsUnique, arith, eq_iff,
  eq_refl, inl, inr, Bool-cases, ◌||◌, ◌↔◌, ◌⊎◌, subst,
}
use nix_compose.Prelude.Int.{ℤ, pos, negsuc, is_zero}
use nix_compose.Prelude.Dict.{Dict, lookup, insert, has, lookup-insert, keys, contains-keys}
use nix_compose.Prelude.Sort.{sort, contains-sort, sort-IsUnique, count-sort}
use nix_compose.Orchestrate.Types.{Link}
use nix_compose.Orchestrate.Topo.{
  sources_of, Waiting, release, release_all, free_ids, build_batch_graph,
}
use nix_compose.Orchestrate.Topo.Spec.{waits}
use nix_compose.Orchestrate.Topo.Graph.{
  arrows, degree_entry, in_degree_lem, count-sources, count-sources_outside, in_degree-IsUnique,
  waits_step,
}

module _ {ℓ} {A : Type ℓ} (set : Dict A) (links : List Link) where
  -- What an id still waits for, when the sources in `pending` have not been released yet.
  abbrev pub need : List String → List String → String → ℕ
  need done pending n = waits set links done n + count n pending

  pub record Inv (done pending : List String) (w : Waiting) : Type 0 where
    pub exact : (n : String) → lookup n w.in_degree ≡ degree_entry set n (need done pending n)
    pub queued :
        (n : String)
        → (contains w.queue n ≡ true)
          ↔ ((has n set ≡ true) × (need done pending n ≡ 0) × (contains done n ≡ false))
    pub unique : IsUnique w.queue

  abbrev queue_after : ℕ → String → List String → List String
  queue_after zero m queue = sort (queue ++ m ∷ [])
  queue_after (suc k) m queue = queue

  release_known :
      (m : String) (w : Waiting) (k : ℕ)
      → lookup m w.in_degree ≡ some (pos (suc k))
      → release m w
        ≡ record { queue = queue_after k m w.queue; in_degree = insert m (pos k) w.in_degree }
  unfolding release
  release_known m w zero e = rw e refl
  release_known m w (suc k) e = rw e refl

  queue_after_lem :
      (k : ℕ) (m n : String) (queue : List String)
      → (contains (queue_after k m queue) n ≡ true)
        ↔ (((m ≡ n) × (k ≡ 0)) ⊎ (contains queue n ≡ true))
  queue_after_lem zero m n queue =
      ground
        (arith, contains-sort (queue ++ m ∷ []) n, contains-append queue (m ∷ []) n, eq_iff m n)
  queue_after_lem (suc k) m n queue = ground arith

  queue_after-IsUnique :
      (k : ℕ) (m : String) (queue : List String)
      → IsUnique queue
      → contains queue m ≡ false
      → IsUnique (queue_after k m queue)
  queue_after-IsUnique zero m queue u f =
      sort-IsUnique (queue ++ m ∷ []) (append-IsUnique queue m u f)
  queue_after-IsUnique (suc k) m queue u f = u

  release-Inv :
      (done : List String) (m : String) (pending : List String) (w : Waiting)
      → has m set ≡ true
      → contains done m ≡ false
      → Inv done (m ∷ pending) w
      → Inv done pending (release m w)
  release-Inv done m pending w h f inv =
      let k = need done pending m in
      let known : lookup m w.in_degree ≡ some (pos (suc k)) =
        ground (arith, inv.exact m, eq_refl m) in
      subst (Inv done pending) (sym (release_known m w k known)) (record {
        exact =
            λ n. ground (arith, lookup-insert m n (pos k) w.in_degree, inv.exact n, eq_iff m n, h);
        queued = λ n. ground (arith, queue_after_lem k m n w.queue, inv.queued n, eq_iff m n);
        unique =
            queue_after-IsUnique k m w.queue inv.unique (ground (arith, inv.queued m, eq_refl m));
      })

  release_all-Inv :
      (done pending : List String) (w : Waiting)
      → ((n : String) → contains pending n ≡ true → (has n set ≡ true) × (contains done n ≡ false))
      → Inv done pending w
      → Inv done [] (release_all pending w)
  unfolding release_all
  release_all-Inv done [] w h inv = inv
  release_all-Inv done (m ∷ pending) w h inv =
      let (known, open_m) = h m (ground (arith, eq_refl m)) in
      release_all-Inv done pending (release m w) (λ n k. h n (ground arith))
        (release-Inv done m pending w known open_m inv)

  -- All that is done waits for nothing more.
  abbrev pub IsSettled : List String → Type 0
  IsSettled done = (n : String) → contains done n ≡ true → waits set links done n ≡ 0

  module _ (done : List String) (id : String) (queue : List String) (degrees : Dict ℤ)
      (inv : Inv done [] (record { queue = id ∷ queue; in_degree = degrees }))
      (settled : IsSettled done) where
    abbrev sources : List String
    sources = sort (sources_of (build_batch_graph set links) id)

    abbrev next : List String
    next = done ++ id ∷ []

    pub first_free :
        (has id set ≡ true) × (waits set links done id ≡ 0) × (contains done id ≡ false)
    first_free = ground (arith, inv.queued id, eq_refl id)

    contains-next : (n : String) → contains next n ≡ (contains done n || (id == n))
    contains-next n = ground (arith, contains-append done (id ∷ []) n)

    waits-next : (n : String) → waits set links done n ≡ waits set links next n + arrows links n id
    waits-next n = waits_step set links done n id first_free.2 first_free.0

    need-next : (n : String) → has n set ≡ true → need next sources n ≡ waits set links done n
    need-next n h = ground (
      arith,
      waits-next n,
      count-sources set links n id h first_free.0,
      count-sort (sources_of (build_batch_graph set links) id) n,
    )

    sources_open :
        (n : String) → contains sources n ≡ true → (has n set ≡ true) × (contains next n ≡ false)
    sources_open n h = elim (Bool-cases (has n set)) [
      | inl t ↦ (
        t,
        ground (
          arith,
          need-next n t,
          settled n,
          contains-count sources n,
          contains-next n,
          first_free.1,
          eq_iff id n,
        ),
      )
      | inr f ↦ ground (
        arith,
        count-sources_outside set links n id f,
        count-sort (sources_of (build_batch_graph set links) id) n,
        contains-count sources n,
      )
    ]

    pop-Inv : Inv next sources (record { queue = queue; in_degree = degrees })
    pop-Inv = record {
      exact = λ n. ground (arith, inv.exact n, need-next n);
      queued = λ n.
          ground (arith, inv.queued n, need-next n, contains-next n, eq_iff id n, inv.unique.0);
      unique = inv.unique.1;
    }

    pub turn-Inv : Inv next [] (release_all sources (record { queue = queue; in_degree = degrees }))
    turn-Inv = release_all-Inv next sources _ sources_open pop-Inv

    pub turn-IsSettled : IsSettled next
    turn-IsSettled n h =
        ground (arith, waits-next n, settled n, contains-next n, first_free.1, eq_iff id n)

  is_zero_iff : (i : ℤ) → (is_zero i ≡ true) ↔ (i ≡ pos 0)
  is_zero_iff (pos zero) = (λ h. refl, λ h. refl)
  is_zero_iff (pos (suc n)) = (λ h. cc, λ h. cc)
  is_zero_iff (negsuc n) = (λ h. cc, λ h. cc)

  contains-free_ids :
      (degrees : Dict ℤ) (n : String)
      → IsUnique (keys degrees)
      → (contains (free_ids degrees) n ≡ true) ↔ (lookup n degrees ≡ some (pos 0))
  unfolding free_ids lookup
  contains-free_ids [] n u = (λ h. cc, λ h. cc)
  contains-free_ids ((id, degree) ∷ rest) n u = ground (
    arith,
    contains-free_ids rest n u.1,
    is_zero_iff degree,
    contains-keys rest id,
    u.0,
    eq_iff id n,
  )

  free_ids-IsUnique : (degrees : Dict ℤ) → IsUnique (keys degrees) → IsUnique (free_ids degrees)
  unfolding free_ids
  free_ids-IsUnique [] u = tt
  free_ids-IsUnique ((id, degree) ∷ rest) u =
      ground (arith, free_ids-IsUnique rest, contains-free_ids rest id u.1, contains-keys rest id)

  abbrev first_queue : Waiting
  first_queue =
      let degrees = (build_batch_graph set links).in_degree in
      record { queue = sort (free_ids degrees); in_degree = degrees }

  pub start-Inv : Inv [] [] first_queue
  start-Inv =
      let degrees = (build_batch_graph set links).in_degree in
      let once = in_degree-IsUnique set links in
      record {
        exact = λ n. in_degree_lem set links n ∙ ground arith;
        queued = λ n. ground (
          arith,
          contains-sort (free_ids degrees) n,
          contains-free_ids degrees n once,
          in_degree_lem set links n,
        );
        unique = sort-IsUnique (free_ids degrees) (free_ids-IsUnique degrees once);
      }
