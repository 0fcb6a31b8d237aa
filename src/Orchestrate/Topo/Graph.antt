-- ===== src/Orchestrate/Topo/Graph.antt =====
-- `buildGraph`: the in-degree of an id counts its links to targets of the batch, and the adjacency
-- list of a target holds each source once for each link.
use nix_compose.Prelude.{
  IsUnique, ℕ, suc, ◌+◌, String, List, [], ◌∷◌, ◌++◌, Option, none, some, true, false, ◌==◌, ◌≡◌,
  refl, ◌∙◌, contains, contains-append, count, count-append, arith, if◌then◌else◌, eq_iff, inl, inr,
  ==-cases, Bool-cases, ◌&&◌,
}
use nix_compose.Prelude.Int.{ℤ, pos}
use nix_compose.Prelude.Dict.{Dict, keys, lookup, insert, has, lookup-insert, insert-IsUnique}
use nix_compose.Orchestrate.Types.{Link}
use nix_compose.Orchestrate.Topo.{
  Batch, sources_of, zero_counts, add_arrow, add_batch_links, build_batch_graph, joins,
}
use nix_compose.Orchestrate.Topo.Spec.{waits}

-- The links from `source` to `target`.
abbrev pub arrows : List Link → String → String → ℕ
arrows [] source target = 0
arrows (l ∷ rest) source target =
    let later = arrows rest source target in
    if (l.source.id == source) && (l.target.id == target) then suc later else later

count-add_arrow :
    (source target n t : String) (g : Batch)
    → count n (sources_of (add_arrow source target g) t) ≡ (
        if (source == n) && (target == t)
        then suc (count n (sources_of g t))
        else count n (sources_of g t))
count-add_arrow source target n t g = ground (
  arith,
  lookup-insert target t (sources_of g target ++ source ∷ []) g.adjacency,
  eq_iff target t,
  count-append n (sources_of g target) (source ∷ []),
)

module _ {ℓ} {A : Type ℓ} where
  lookup-zero_counts :
      (set : Dict A) (degrees : Dict ℤ) (n : String)
      → lookup n (zero_counts set degrees) ≡ (if has n set then some (pos 0) else lookup n degrees)
  unfolding zero_counts lookup
  lookup-zero_counts [] degrees n = refl
  lookup-zero_counts ((id, _) ∷ rest) degrees n = ground (
    arith,
    lookup-zero_counts rest (insert id (pos 0) degrees) n,
    lookup-insert id n (pos 0) degrees,
  )

  -- The degree map holds the ids of the set, each with its number.
  abbrev pub degree_entry : Dict A → String → ℕ → Option ℤ
  degree_entry set n k = if has n set then some (pos k) else none

  degree-add_arrow :
      (set : Dict A) (source target n : String) (g : Batch) (k : ℕ)
      → has source set ≡ true
      → lookup n g.in_degree ≡ degree_entry set n k
      → lookup n (add_arrow source target g).in_degree
        ≡ degree_entry set n (if source == n then suc k else k)
  degree-add_arrow set source target n g k h e = elim (==-cases source n) [
    | inl (t, same) ↦ lookup-insert source n _ g.in_degree ∙ ground (arith, e, same, t, h)
    | inr (f, _) ↦ lookup-insert source n _ g.in_degree ∙ ground (arith, e, f)
  ]

  degree-add_batch_links :
      (set : Dict A) (links : List Link) (n : String) (g : Batch) (k : ℕ)
      → lookup n g.in_degree ≡ degree_entry set n k
      → lookup n (add_batch_links set links g).in_degree
        ≡ degree_entry set n (k + waits set links [] n)
  unfolding add_batch_links
  degree-add_batch_links set [] n g k e = ground (arith, e)
  degree-add_batch_links set (l ∷ rest) n g k e = elim (Bool-cases (joins set l)) [
    | inl t ↦
        let m = if l.source.id == n then suc k else k in
        rw (t, add_batch_links)
          (degree-add_batch_links set rest n (add_arrow l.source.id l.target.id g) m
              (degree-add_arrow set l.source.id l.target.id n g k (ground arith) e)
            ∙ ground arith)
    | inr f ↦
        rw (f, add_batch_links)
          (degree-add_batch_links set rest n g k e ∙ ground (arith, eq_iff l.source.id n))
  ]

  count-add_batch_links :
      (set : Dict A) (links : List Link) (n t : String) (g : Batch)
      → has n set ≡ true
      → has t set ≡ true
      → count n (sources_of (add_batch_links set links g) t)
        ≡ count n (sources_of g t) + arrows links n t
  unfolding add_batch_links
  count-add_batch_links set [] n t g h k = omega arith
  count-add_batch_links set (l ∷ rest) n t g h k = elim (Bool-cases (joins set l)) [
    | inl j ↦
        rw (j, add_batch_links)
          (count-add_batch_links set rest n t (add_arrow l.source.id l.target.id g) h k
            ∙ ground (arith, count-add_arrow l.source.id l.target.id n t g))
    | inr f ↦
        rw (f, add_batch_links)
          (count-add_batch_links set rest n t g h k
            ∙ ground (arith, eq_iff l.source.id n, eq_iff l.target.id t))
  ]

  count_outside :
      (set : Dict A) (links : List Link) (n t : String) (g : Batch)
      → has n set ≡ false
      → count n (sources_of (add_batch_links set links g) t) ≡ count n (sources_of g t)
  unfolding add_batch_links
  count_outside set [] n t g h = refl
  count_outside set (l ∷ rest) n t g h = elim (Bool-cases (joins set l)) [
    | inl j ↦
        rw (j, add_batch_links)
          (count_outside set rest n t (add_arrow l.source.id l.target.id g) h
            ∙ ground (arith, count-add_arrow l.source.id l.target.id n t g, eq_iff l.source.id n))
    | inr f ↦ rw (f, add_batch_links) (count_outside set rest n t g h)
  ]

  pub waits_step :
      (set : Dict A) (links : List Link) (done : List String) (n t : String)
      → contains done t ≡ false
      → has t set ≡ true
      → waits set links done n ≡ waits set links (done ++ t ∷ []) n + arrows links n t
  waits_step set [] done n t f h = omega arith
  waits_step set (l ∷ rest) done n t f h = ground (
    arith,
    waits_step set rest done n t f h,
    contains-append done (t ∷ []) l.target.id,
    eq_iff l.target.id t,
    eq_iff t l.target.id,
  )

  pub in_degree_lem :
      (set : Dict A) (links : List Link) (n : String)
      → lookup n (build_batch_graph set links).in_degree ≡ degree_entry set n (waits set links [] n)
  unfolding build_batch_graph lookup
  in_degree_lem set links n =
      degree-add_batch_links set links n (record { in_degree = zero_counts set []; adjacency = [] })
        0 (lookup-zero_counts set [] n)
      ∙ ground arith

  pub count-sources :
      (set : Dict A) (links : List Link) (n t : String)
      → has n set ≡ true
      → has t set ≡ true
      → count n (sources_of (build_batch_graph set links) t) ≡ arrows links n t
  unfolding build_batch_graph lookup
  count-sources set links n t h k =
      count-add_batch_links set links n t
        (record { in_degree = zero_counts set []; adjacency = [] }) h k
      ∙ ground arith

  pub count-sources_outside :
      (set : Dict A) (links : List Link) (n t : String)
      → has n set ≡ false
      → count n (sources_of (build_batch_graph set links) t) ≡ 0
  unfolding build_batch_graph lookup
  count-sources_outside set links n t h =
      count_outside set links n t (record { in_degree = zero_counts set []; adjacency = [] }) h

  zero_counts-IsUnique :
      (set : Dict A) (degrees : Dict ℤ)
      → IsUnique (keys degrees)
      → IsUnique (keys (zero_counts set degrees))
  unfolding zero_counts
  zero_counts-IsUnique [] degrees u = u
  zero_counts-IsUnique ((id, _) ∷ rest) degrees u =
      zero_counts-IsUnique rest _ (insert-IsUnique id (pos 0) degrees u)

  add_batch_links-IsUnique :
      (set : Dict A) (links : List Link) (g : Batch)
      → IsUnique (keys g.in_degree)
      → IsUnique (keys (add_batch_links set links g).in_degree)
  unfolding add_batch_links
  add_batch_links-IsUnique set [] g u = u
  add_batch_links-IsUnique set (l ∷ rest) g u = elim (Bool-cases (joins set l)) [
    | inl t ↦
        rw (t, add_batch_links)
          (add_batch_links-IsUnique set rest (add_arrow l.source.id l.target.id g)
            (insert-IsUnique l.source.id _ g.in_degree u))
    | inr f ↦ rw (f, add_batch_links) (add_batch_links-IsUnique set rest g u)
  ]

  pub in_degree-IsUnique :
      (set : Dict A) (links : List Link) → IsUnique (keys (build_batch_graph set links).in_degree)
  unfolding build_batch_graph
  in_degree-IsUnique set links =
      add_batch_links-IsUnique set links (record { in_degree = zero_counts set []; adjacency = [] })
        (zero_counts-IsUnique set [] tt)
