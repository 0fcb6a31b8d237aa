-- ===== src/Orchestrate/Topo.antt =====
-- pkg/orchestrate/apply.go: `topoSortRequests`, the order in which a batch of requests is executed.
-- A request is a type `A` with its subject's id, so that one model serves creates and deletes. The
-- loop of `kahnSort` takes fuel, one unit for each id of the batch.
pub mod Spec
mod Graph
mod Step
mod Loop
pub mod Complete
pub mod Order
mod Examples
use nix_compose.Prelude.{
  ℕ, zero, suc, String, List, [], ◌∷◌, ◌++◌, Option, none, some, Bool, length, reverse, contains,
  map, leb, ◌&&◌, if◌then◌else◌,
}
use nix_compose.Prelude.Int.{ℤ, pos, increment, decrement, is_zero}
use nix_compose.Prelude.Dict.{Dict, keys, lookup, insert, has}
use nix_compose.Prelude.Sort.{sort}
use nix_compose.Depgraph.{read_int, read_list}
use nix_compose.Orchestrate.Types.{Link}

-- The maps of `buildGraph`: how many targets an id waits for, and the sources of a target.
pub record Batch : Type 0 where
  pub in_degree : Dict ℤ
  pub adjacency : Dict (List String)

abbrev sources_of : Batch → String → List String
sources_of g id = read_list (lookup id g.adjacency)

-- `adjacency[target] = append(adjacency[target], source)` and `inDegree[source]++`.
abbrev add_arrow : String → String → Batch → Batch
add_arrow source target g = record {
  in_degree = insert source (increment (read_int (lookup source g.in_degree))) g.in_degree;
  adjacency = insert target (sources_of g target ++ source ∷ []) g.adjacency;
}

-- What the loop of `kahnSort` changes: `queue` and `inDegree`.
pub record Waiting : Type 0 where
  pub queue : List String
  pub in_degree : Dict ℤ

-- `inDegree[neighbor]--`, and the queue with the neighbor if that makes it free.
pub release : String → Waiting → Waiting
release neighbor w =
    let degree = decrement (read_int (lookup neighbor w.in_degree)) in
    record {
      queue = if is_zero degree then sort (w.queue ++ neighbor ∷ []) else w.queue;
      in_degree = insert neighbor degree w.in_degree;
    }

pub release_all : List String → Waiting → Waiting
unfolding release
release_all [] w = w
release_all (n ∷ ns) w = release_all ns (release n w)

-- The ids with in-degree 0, in the order of the map.
pub free_ids : Dict ℤ → List String
free_ids [] = []
free_ids ((id, degree) ∷ rest) =
    let later = free_ids rest in if is_zero degree then id ∷ later else later

module _ {ℓ} {A : Type ℓ} where
  -- `buildGraph`.
  pub zero_counts : Dict A → Dict ℤ → Dict ℤ
  zero_counts [] degrees = degrees
  zero_counts ((id, _) ∷ rest) degrees = zero_counts rest (insert id (pos 0) degrees)

  -- Both ends of the link belong to the batch.
  abbrev joins : Dict A → Link → Bool
  joins set l = has l.source.id set && has l.target.id set

  pub add_batch_links : Dict A → List Link → Batch → Batch
  add_batch_links set [] g = g
  add_batch_links set (l ∷ rest) g =
      add_batch_links set rest (if joins set l then add_arrow l.source.id l.target.id g else g)

  pub build_batch_graph : Dict A → List Link → Batch
  unfolding zero_counts add_batch_links
  build_batch_graph set links =
      add_batch_links set links (record { in_degree = zero_counts set []; adjacency = [] })

  -- `append(sorted, reqSet[id])`; every id of the queue is a key of the set.
  abbrev push_found : Option A → List A → List A
  push_found none sorted = sorted
  push_found (some r) sorted = sorted ++ r ∷ []

  -- The loop of `kahnSort`, from a queue; `none` if it runs out of fuel.
  pub kahn_loop : ℕ → Dict A → Dict (List String) → List String → Dict ℤ → List A → Option (List A)
  unfolding release_all
  kahn_loop fuel set adjacency [] degrees sorted = some sorted
  kahn_loop zero set adjacency (id ∷ queue) degrees sorted = none
  kahn_loop (suc fuel) set adjacency (id ∷ queue) degrees sorted =
      let neighbors = sort (read_list (lookup id adjacency)) in
      let w = release_all neighbors (record { queue = queue; in_degree = degrees }) in
      kahn_loop fuel set adjacency w.queue w.in_degree (push_found (lookup id set) sorted)

  pub kahn_sort : Dict A → Batch → Option (List A)
  unfolding kahn_loop free_ids
  kahn_sort set g =
      kahn_loop (length set) set g.adjacency (sort (free_ids g.in_degree)) g.in_degree []

  -- `reverseSlice`, for deletes.
  abbrev in_direction : Bool → List A → List A
  in_direction reversed sorted = if reversed then reverse sorted else sorted

module _ {ℓ} {A : Type ℓ} (id_of : A → String) where
  -- `buildRequestSet`, from the requests that are in the set already.
  pub build_request_set : List A → Dict A → Dict A
  build_request_set [] set = set
  build_request_set (r ∷ rest) set = build_request_set rest (insert (id_of r) r set)

  -- The requests whose id is not among `included`.
  pub orphans : List String → List A → List A
  orphans included [] = []
  orphans included (r ∷ rest) =
      let later = orphans included rest in if contains included (id_of r) then later else r ∷ later

  pub append_cycle_orphans : List A → List A → List A
  unfolding orphans
  append_cycle_orphans sorted requests =
      if leb (length requests) (length sorted)
      then sorted
      else sorted ++ orphans (map id_of sorted) requests

  pub finish : List A → Bool → Option (List A) → Option (List A)
  unfolding append_cycle_orphans
  finish requests reversed none = none
  finish requests reversed (some sorted) =
      some (in_direction reversed (append_cycle_orphans sorted requests))

  -- `topoSortRequests` of a batch that is not empty.
  pub topo_sort : List A → List Link → Bool → Option (List A)
  unfolding finish build_request_set build_batch_graph kahn_sort
  topo_sort requests links reversed =
      let set = build_request_set requests [] in
      finish requests reversed (kahn_sort set (build_batch_graph set links))

  unfoldable pub topo_sort_requests : List A → List Link → Bool → Option (List A)
  unfolding topo_sort
  topo_sort_requests [] links reversed = some []
  topo_sort_requests (r ∷ rest) links reversed = topo_sort (r ∷ rest) links reversed
