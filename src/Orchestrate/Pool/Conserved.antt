-- ===== src/Orchestrate/Pool/Conserved.antt =====
-- No request is lost or doubled.
use nix_compose.Prelude.{
  String, ◌==◌, ==-cases, contains, contains-append, inl, inr, ℕ, suc, ◌+◌, List, [], ◌∷◌, ◌++◌,
  ◌≡◌, ap, Bool, true, false, arith, if◌then◌else◌,
}
use nix_compose.Orchestrate.Types.{Request, subject_id}
use nix_compose.Orchestrate.Pool.{
  Worker, idle, busy, blocked, exited, Pool, subject_ids, held, Step, add, cancel, skip, take,
  dispatch, quit, receive, succeed, fail, reschedule, exit, stop, add_closed, dispatch_closed,
  reschedule_closed, Run, here, step,
}

-- How many requests pass a test.
abbrev pub tally : (Request → Bool) → List Request → ℕ
tally test [] = 0
tally test (r ∷ rest) = let later = tally test rest in if test r then suc later else later

pub tally-append :
    (test : Request → Bool) (xs ys : List Request)
    → tally test (xs ++ ys) ≡ tally test xs + tally test ys
tally-append test [] ys = omega arith
tally-append test (x ∷ xs) ys = ground (arith, tally-append test xs ys)

-- The requests at the workers.
abbrev pub at_work : List Worker → List Request
at_work [] = []
at_work (idle ∷ ws) = at_work ws
at_work (busy r ∷ ws) = r ∷ at_work ws
at_work (blocked r ∷ ws) = r ∷ at_work ws
at_work (exited ∷ ws) = at_work ws

pub tally-at_work :
    (test : Request → Bool) (before after : List Worker)
    → tally test (at_work (before ++ after))
      ≡ tally test (at_work before) + tally test (at_work after)
tally-at_work test [] after = omega arith
tally-at_work test (idle ∷ before) after = tally-at_work test before after
tally-at_work test (exited ∷ before) after = tally-at_work test before after
tally-at_work test (busy r ∷ before) after = ground (arith, tally-at_work test before after)
tally-at_work test (blocked r ∷ before) after = ground (arith, tally-at_work test before after)

-- Every request that was added is at one place, or through.
abbrev pub IsConserved : Pool → Type 0
IsConserved s =
    (test : Request → Bool)
    → tally test s.added
      ≡ tally test s.feedback
        + tally test s.queue
        + tally test (at_work s.workers)
        + tally test (held s.holding)
        + tally test s.processed
        + tally test s.skipped
        + tally test s.abandoned

Step-IsConserved : {s s' : Pool} → Step s s' → IsConserved s → IsConserved s'
Step-IsConserved {s} (add r o c) inv test =
    ground
      (arith, inv test, tally-append test s.feedback (r ∷ []), tally-append test s.added (r ∷ []))
Step-IsConserved (cancel rs) inv test = inv test
Step-IsConserved {s} (skip r rest g h e c) inv test =
    ground (arith, inv test, ap (tally test) e, tally-append test s.skipped (r ∷ []))
Step-IsConserved {s} (take r rest g h e c) inv test =
    ground (arith, inv test, ap (tally test) e, ap (λ x. tally test (held x)) h)
Step-IsConserved {s} (dispatch r o h c) inv test =
    ground (arith, inv test, tally-append test s.queue (r ∷ []), ap (λ x. tally test (held x)) h)
Step-IsConserved {s} (quit o g) inv test =
    ground (arith, inv test, tally-append test s.abandoned (held s.holding))
Step-IsConserved {s} (receive before after r rest w q) inv test = ground (
  arith,
  inv test,
  ap (tally test) q,
  ap (λ ws. tally test (at_work ws)) w,
  tally-at_work test before (idle ∷ after),
  tally-at_work test before (busy r ∷ after),
)
Step-IsConserved {s} (succeed before after r w) inv test = ground (
  arith,
  inv test,
  ap (λ ws. tally test (at_work ws)) w,
  tally-append test s.processed (r ∷ []),
  tally-at_work test before (idle ∷ after),
  tally-at_work test before (busy r ∷ after),
)
Step-IsConserved {s} (fail before after r w) inv test = ground (
  arith,
  inv test,
  ap (λ ws. tally test (at_work ws)) w,
  tally-at_work test before (blocked r ∷ after),
  tally-at_work test before (busy r ∷ after),
)
Step-IsConserved {s} (reschedule before after r w o c) inv test = ground (
  arith,
  inv test,
  ap (λ ws. tally test (at_work ws)) w,
  tally-append test s.feedback (r ∷ []),
  tally-at_work test before (idle ∷ after),
  tally-at_work test before (blocked r ∷ after),
)
Step-IsConserved {s} (exit before after w o q) inv test = ground (
  arith,
  inv test,
  ap (λ ws. tally test (at_work ws)) w,
  tally-at_work test before (idle ∷ after),
  tally-at_work test before (exited ∷ after),
)
Step-IsConserved (stop o) inv test = inv test
Step-IsConserved (add_closed r o) inv test = inv test
Step-IsConserved (dispatch_closed r o h) inv test = inv test
Step-IsConserved (reschedule_closed before after r w o) inv test = inv test

pub Run-IsConserved : {s s' : Pool} → Run s s' → IsConserved s → IsConserved s'
Run-IsConserved here inv = inv
Run-IsConserved (step alive move rest) inv = Run-IsConserved rest (Step-IsConserved move inv)

-- The requests for one resource.
abbrev pub is_about : String → Request → Bool
is_about x r = subject_id r == x

-- What was skipped was cancelled.
abbrev pub IsHonest : Pool → Type 0
IsHonest s = (x : String) → contains s.cancelled x ≡ false → tally (is_about x) s.skipped ≡ 0

skip-IsHonest :
    (s : Pool) (r : Request)
    → IsHonest s
    → contains s.cancelled (subject_id r) ≡ true
    → (x : String) → contains s.cancelled x ≡ false
    → tally (is_about x) (s.skipped ++ r ∷ []) ≡ 0
skip-IsHonest s r inv gone x free = elim (==-cases (subject_id r) x) [
  | inl (same, e) ↦ absurd (ground (arith, ap (contains s.cancelled) e))
  | inr (other, e) ↦ ground (arith, inv x free, tally-append (is_about x) s.skipped (r ∷ []))
]

Step-IsHonest : {s s' : Pool} → Step s s' → IsHonest s → IsHonest s'
Step-IsHonest (add r o c) inv x free = inv x free
Step-IsHonest {s} (cancel rs) inv x free =
    inv x (ground (arith, contains-append (subject_ids rs) s.cancelled x, free))
Step-IsHonest {s} (skip r rest g h e c) inv x free = skip-IsHonest s r inv c x free
Step-IsHonest (take r rest g h e c) inv x free = inv x free
Step-IsHonest (dispatch r o h c) inv x free = inv x free
Step-IsHonest (quit o g) inv x free = inv x free
Step-IsHonest (receive before after r rest w q) inv x free = inv x free
Step-IsHonest (succeed before after r w) inv x free = inv x free
Step-IsHonest (fail before after r w) inv x free = inv x free
Step-IsHonest (reschedule before after r w o c) inv x free = inv x free
Step-IsHonest (exit before after w o q) inv x free = inv x free
Step-IsHonest (stop o) inv x free = inv x free
Step-IsHonest (add_closed r o) inv x free = inv x free
Step-IsHonest (dispatch_closed r o h) inv x free = inv x free
Step-IsHonest (reschedule_closed before after r w o) inv x free = inv x free

pub Run-IsHonest : {s s' : Pool} → Run s s' → IsHonest s → IsHonest s'
Run-IsHonest here inv = inv
Run-IsHonest (step alive move rest) inv = Run-IsHonest rest (Step-IsHonest move inv)
