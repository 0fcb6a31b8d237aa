-- ===== src/Orchestrate/Pool/Drains.antt =====
-- `Schedule` and the workers get through everything that was added.
use nix_compose.Prelude.{
  ℕ, zero, suc, String, ◌+◌, ◌*◌, ◌<◌, ◌≤◌, List, [], ◌∷◌, ◌++◌, ◌≡◌, refl, sym, ◌∙◌, ap, Option,
  none, some, Bool, Bool-cases, true, false, ◌⊎◌, inl, inr, arith, contains, length,
}
use nix_compose.Orchestrate.Types.{Request, subject_id}
use nix_compose.Orchestrate.Pool.{
  Worker, idle, busy, blocked, exited, Pool, capacity, new_pool, held, Step, skip, take, dispatch,
  receive, succeed, reschedule, Run, here, step,
}
use nix_compose.Orchestrate.Pool.Conserved.{
  tally, tally-append, at_work, tally-at_work, IsConserved, Run-IsConserved, is_about, Run-IsHonest,
}
use nix_compose.Orchestrate.Pool.Ready.{
  staff_swap, Stands, IsStaffed, Run-IsOpen, find_busy, find_idle,
}

abbrev every : Request → Bool
every r = true

-- The requests of failed workers.
abbrev waiting : List Worker → List Request
waiting [] = []
waiting (idle ∷ ws) = waiting ws
waiting (busy r ∷ ws) = waiting ws
waiting (blocked r ∷ ws) = r ∷ waiting ws
waiting (exited ∷ ws) = waiting ws

tally-waiting :
    (before after : List Worker)
    → tally every (waiting (before ++ after))
      ≡ tally every (waiting before) + tally every (waiting after)
tally-waiting [] after = omega arith
tally-waiting (idle ∷ before) after = tally-waiting before after
tally-waiting (busy r ∷ before) after = tally-waiting before after
tally-waiting (exited ∷ before) after = tally-waiting before after
tally-waiting (blocked r ∷ before) after = ground (arith, tally-waiting before after)

tally-every : (rs : List Request) → tally every rs ≡ length rs
tally-every [] = refl
tally-every (r ∷ rs) = ground (arith, tally-every rs)

-- How many requests are under way.
abbrev pub outstanding : Pool → ℕ
outstanding s =
    length s.feedback + length s.queue + length (at_work s.workers) + length (held s.holding)

abbrev load : Pool → ℕ
load s =
    tally every s.feedback
    + tally every s.queue
    + tally every (at_work s.workers)
    + tally every (held s.holding)

-- The steps that the requests of a pool still need, and one for each.
abbrev weight : Pool → ℕ
weight s =
    4 * tally every s.feedback
    + 3 * tally every (held s.holding)
    + 2 * tally every s.queue
    + tally every (at_work s.workers)
    + 4 * tally every (waiting s.workers)

abbrev IsReady : Pool → Type 0
IsReady s = (s.closed ≡ false) × (s.crashed ≡ false) × IsStaffed s

-- Nothing waits, and nothing is at a worker.
abbrev pub IsDrained : Pool → Type 0
IsDrained s = (s.feedback ≡ []) × (s.holding ≡ none) × (s.queue ≡ []) × (at_work s.workers ≡ [])

-- A step with which a pool gets on.
abbrev Progress : Pool → Type 0
Progress s =
    (next : Pool) × Step s next
    × (weight next < weight s)
    × (load next ≤ load s)
    × IsReady next
    × (next.added ≡ s.added)
    × (next.cancelled ≡ s.cancelled)

-- One worker in place of another.
module _ (ws before after : List Worker) (old new : Worker) (e : ws ≡ before ++ old ∷ after) where
  swap_at_work :
      tally every (at_work (before ++ new ∷ after)) + tally every (at_work (old ∷ []))
      ≡ tally every (at_work ws) + tally every (at_work (new ∷ []))
  swap_at_work = ground (
    arith,
    ap (λ l. tally every (at_work l)) e,
    tally-at_work every before (old ∷ after),
    tally-at_work every before (new ∷ after),
    tally-at_work every (old ∷ []) after,
    tally-at_work every (new ∷ []) after,
  )

  swap_waiting :
      tally every (waiting (before ++ new ∷ after)) + tally every (waiting (old ∷ []))
      ≡ tally every (waiting ws) + tally every (waiting (new ∷ []))
  swap_waiting = ground (
    arith,
    ap (λ l. tally every (waiting l)) e,
    tally-waiting before (old ∷ after),
    tally-waiting before (new ∷ after),
    tally-waiting (old ∷ []) after,
    tally-waiting (new ∷ []) after,
  )

worker_ends : (s : Pool) (r : Request) → IsReady s → Stands (busy r) s.workers → Progress s
worker_ends s r (o, c, (g, n, a)) (before, after, w) =
    let work = swap_at_work s.workers before after (busy r) idle w in
    let wait = swap_waiting s.workers before after (busy r) idle w in
    (
      record s { workers = before ++ idle ∷ after; processed = s.processed ++ r ∷ [] },
      succeed before after r w,
      omega (arith, work, wait),
      omega (arith, work),
      (o, c, (g, staff_swap s.workers before after (busy r) idle w n refl, a)),
      refl,
      refl,
    )

worker_sends :
    (s : Pool) (r : Request)
    → IsReady s
    → load s ≤ capacity
    → Stands (blocked r) s.workers
    → Progress s
worker_sends s r (o, c, (g, n, a)) room (before, after, w) =
    let work = swap_at_work s.workers before after (blocked r) idle w in
    let wait = swap_waiting s.workers before after (blocked r) idle w in
    let sent = tally-append every s.feedback (r ∷ []) in
    (
      record s { workers = before ++ idle ∷ after; feedback = s.feedback ++ r ∷ [] },
      reschedule before after r w o (omega (arith, room, work, tally-every s.feedback)),
      omega (arith, work, wait, sent),
      omega (arith, work, sent),
      (o, c, (g, staff_swap s.workers before after (blocked r) idle w n refl, a)),
      refl,
      refl,
    )

worker_reads :
    (s : Pool) (r : Request) (rest : List Request)
    → IsReady s
    → at_work s.workers ≡ []
    → s.queue ≡ r ∷ rest
    → Progress s
worker_reads s r rest (o, c, (g, n, a)) none_busy q =
    let (before, after, w) = find_idle 1 s.workers none_busy n in
    let work = swap_at_work s.workers before after idle (busy r) w in
    let wait = swap_waiting s.workers before after idle (busy r) w in
    let read = ap (tally every) q in
    (
      record s { workers = before ++ busy r ∷ after; queue = rest },
      receive before after r rest w q,
      omega (arith, read, work, wait),
      omega (arith, read, work),
      (o, c, (g, staff_swap s.workers before after idle (busy r) w n refl, a)),
      refl,
      refl,
    )

scheduler_sends :
    (s : Pool) (r : Request) → IsReady s → s.queue ≡ [] → s.holding ≡ some r → Progress s
scheduler_sends s r (o, c, (g, n, a)) q h =
    let sent = tally-append every s.queue (r ∷ []) in
    let freed = ap (λ x. tally every (held x)) h in
    (
      record s { queue = s.queue ++ r ∷ []; holding = none },
      dispatch r o h (ground (arith, ap length q)),
      omega (arith, sent, freed),
      omega (arith, sent, freed),
      (o, c, (g, n, a)),
      refl,
      refl,
    )

scheduler_reads :
    (s : Pool) (r : Request) (rest : List Request)
    → IsReady s
    → s.holding ≡ none
    → s.feedback ≡ r ∷ rest
    → Progress s
scheduler_reads s r rest (o, c, (g, n, a)) h f =
    let read = ap (tally every) f in
    let free = ap (λ x. tally every (held x)) h in
    elim (Bool-cases (contains s.cancelled (subject_id r))) [
      | inl gone ↦ (
        record s { feedback = rest; skipped = s.skipped ++ r ∷ [] },
        skip r rest g h f gone,
        omega (arith, read),
        omega (arith, read),
        (o, c, (g, n, a)),
        refl,
        refl,
      )
      | inr kept ↦ (
        record s { feedback = rest; holding = some r },
        take r rest g h f kept,
        omega (arith, read, free),
        omega (arith, read, free),
        (o, c, (g, n, a)),
        refl,
        refl,
      )
    ]

list_cases :
    (xs : List Request) → (xs ≡ []) ⊎ ((x : Request) × (rest : List Request) × (xs ≡ x ∷ rest))
list_cases [] = inl refl
list_cases (x ∷ rest) = inr (x, rest, refl)

option_cases : (o : Option Request) → (o ≡ none) ⊎ ((x : Request) × (o ≡ some x))
option_cases none = inl refl
option_cases (some x) = inr (x, refl)

-- A pool that is open and has room gets on, or has nothing to do.
progress : (s : Pool) → IsReady s → load s ≤ capacity → IsDrained s ⊎ Progress s
progress s ready room = elim (find_busy s.workers) [
  | inr (r, inl at) ↦ inr (worker_ends s r ready at)
  | inr (r, inr at) ↦ inr (worker_sends s r ready room at)
  | inl none_busy ↦ elim (list_cases s.queue) [
    | inr (r, rest, q) ↦ inr (worker_reads s r rest ready none_busy q)
    | inl q ↦ elim (option_cases s.holding) [
      | inr (r, h) ↦ inr (scheduler_sends s r ready q h)
      | inl h ↦ elim (list_cases s.feedback) [
        | inr (r, rest, f) ↦ inr (scheduler_reads s r rest ready h f)
        | inl f ↦ inl (f, h, q, none_busy)
      ]
    ]
  ]
]

drained_tally :
    (end : Pool)
    → IsConserved end
    → IsDrained end
    → IsReady end
    → (test : Request → Bool)
    → tally test end.added ≡ tally test end.processed + tally test end.skipped
drained_tally end inv (f, h, q, w) (o, c, (g, n, a)) test = ground (
  arith,
  inv test,
  ap (tally test) f,
  ap (λ x. tally test (held x)) h,
  ap (tally test) q,
  ap (tally test) w,
  ap (tally test) a,
)

abbrev Drained : Pool → Type 0
Drained s =
    (end : Pool) × Run s end
    × IsDrained end
    × IsReady end
    × (end.added ≡ s.added)
    × (end.cancelled ≡ s.cancelled)

drain : (n : ℕ) (s : Pool) → weight s < n → load s ≤ capacity → IsReady s → Drained s
drain zero s small room ready = absurd (omega (arith, small))
drain (suc n) s small room ready = elim (progress s ready room) [
  | inl done ↦ (s, here, done, ready, refl, refl)
  | inr (next, move, less, lighter, still, added, cancelled) ↦
      let rest = drain n next (omega (arith, small, less)) (omega (arith, lighter, room)) still in
      (rest.0, step ready.1 move rest.1, rest.2, rest.3, rest.4 ∙ added, rest.5 ∙ cancelled)
]

load-le : (s : Pool) → outstanding s ≤ capacity → load s ≤ capacity
load-le s room = omega (
  arith,
  room,
  tally-every s.feedback,
  tally-every s.queue,
  tally-every (at_work s.workers),
  tally-every (held s.holding),
)

all_processed :
    (s end : Pool) (x : String)
    → end.added ≡ s.added
    → ((test : Request → Bool)
        → tally test end.added ≡ tally test end.processed + tally test end.skipped)
    → tally (is_about x) end.skipped ≡ 0
    → tally (is_about x) s.added ≡ tally (is_about x) end.processed
all_processed s end x added split skipped =
    ground (arith, ap (tally (is_about x)) added, split (is_about x), skipped)

-- From every state that a pool reaches without being stopped or ending the program, with no more
-- requests under way than a channel buffers, there is a run, with nothing more added, to a state in
-- which nothing waits and nothing is at a worker. No request is lost or doubled: for every test on
-- requests, as many pass that were added as were then processed or skipped, and of a resource that
-- was not cancelled (`Cancel`) as many were processed as were added.
pub pool_drains :
    (s : Pool)
    → Run new_pool s
    → s.closed ≡ false
    → s.crashed ≡ false
    → outstanding s ≤ capacity
    → (end : Pool) × Run s end
      × IsDrained end
      × (end.added ≡ s.added)
      × ((test : Request → Bool)
          → tally test s.added ≡ tally test end.processed + tally test end.skipped)
      × ((x : String)
          → contains s.cancelled x ≡ false
          → tally (is_about x) s.added ≡ tally (is_about x) end.processed)
pool_drains s before o c room =
    let (end, after, done, ready, added, cancelled) =
      drain (suc (weight s)) s (omega arith) (load-le s room)
        (o, c, Run-IsOpen before (λ was. (refl, refl, refl)) o) in
    let split =
      drained_tally end (Run-IsConserved after (Run-IsConserved before (λ test. refl))) done
        ready in
    let honest = Run-IsHonest after (Run-IsHonest before (λ x free. refl)) in
    (
      end,
      after,
      done,
      added,
      (λ test. sym (ap (tally test) added) ∙ split test),
      (λ x free.
          all_processed s end x added split
            (honest x (ap (λ ids. contains ids x) cancelled ∙ free))),
    )
