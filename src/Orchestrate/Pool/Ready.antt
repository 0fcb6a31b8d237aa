-- ===== src/Orchestrate/Pool/Ready.antt =====
-- What holds of a pool until `Stop`: its scheduler runs and both its workers are there.
use nix_compose.Prelude.{
  ℕ, suc, ◌+◌, List, [], ◌∷◌, ◌++◌, ◌≡◌, refl, ap, true, false, ◌⊎◌, inl, inr, arith,
}
use nix_compose.Orchestrate.Types.{Request}
use nix_compose.Orchestrate.Pool.{
  Worker, idle, busy, blocked, exited, Pool, Step, add, cancel, skip, take, dispatch, quit, receive,
  succeed, fail, reschedule, exit, stop, add_closed, dispatch_closed, reschedule_closed, Run, here,
  step,
}
use nix_compose.Orchestrate.Pool.Conserved.{at_work}

-- How many workers have not exited.
abbrev pub staff : List Worker → ℕ
staff [] = 0
staff (idle ∷ ws) = suc (staff ws)
staff (busy r ∷ ws) = suc (staff ws)
staff (blocked r ∷ ws) = suc (staff ws)
staff (exited ∷ ws) = staff ws

pub staff-append : (xs ys : List Worker) → staff (xs ++ ys) ≡ staff xs + staff ys
staff-append [] ys = omega arith
staff-append (idle ∷ xs) ys = ground (arith, staff-append xs ys)
staff-append (busy r ∷ xs) ys = ground (arith, staff-append xs ys)
staff-append (blocked r ∷ xs) ys = ground (arith, staff-append xs ys)
staff-append (exited ∷ xs) ys = staff-append xs ys

-- Scheduling, with both workers, and nothing given up.
abbrev pub IsStaffed : Pool → Type 0
IsStaffed s = (s.scheduling ≡ true) × (staff s.workers ≡ 2) × (s.abandoned ≡ [])

abbrev pub IsOpen : Pool → Type 0
IsOpen s = s.closed ≡ false → IsStaffed s

-- A worker that changes its request keeps its place.
pub staff_swap :
    (ws before after : List Worker) (old new : Worker)
    → ws ≡ before ++ old ∷ after
    → staff ws ≡ 2
    → staff (old ∷ []) ≡ staff (new ∷ [])
    → staff (before ++ new ∷ after) ≡ 2
staff_swap ws before after old new e n same = ground (
  arith,
  ap staff e,
  staff-append before (old ∷ after),
  staff-append before (new ∷ after),
  staff-append (old ∷ []) after,
  staff-append (new ∷ []) after,
)

Step-IsOpen : {s s' : Pool} → Step s s' → IsOpen s → IsOpen s'
Step-IsOpen (add r o c) inv still = inv still
Step-IsOpen (cancel rs) inv still = inv still
Step-IsOpen (skip r rest g h e c) inv still = inv still
Step-IsOpen (take r rest g h e c) inv still = inv still
Step-IsOpen (dispatch r o h c) inv still = inv still
Step-IsOpen (quit o g) inv still = absurd (ground arith)
Step-IsOpen {s} (receive before after r rest w q) inv still =
    let was = inv still in
    (was.0, staff_swap s.workers before after idle (busy r) w was.1 refl, was.2)
Step-IsOpen {s} (succeed before after r w) inv still =
    let was = inv still in
    (was.0, staff_swap s.workers before after (busy r) idle w was.1 refl, was.2)
Step-IsOpen {s} (fail before after r w) inv still =
    let was = inv still in
    (was.0, staff_swap s.workers before after (busy r) (blocked r) w was.1 refl, was.2)
Step-IsOpen {s} (reschedule before after r w o c) inv still =
    let was = inv still in
    (was.0, staff_swap s.workers before after (blocked r) idle w was.1 refl, was.2)
Step-IsOpen (exit before after w o q) inv still = absurd (ground arith)
Step-IsOpen (stop o) inv still = absurd (ground arith)
Step-IsOpen (add_closed r o) inv still = inv still
Step-IsOpen (dispatch_closed r o h) inv still = inv still
Step-IsOpen (reschedule_closed before after r w o) inv still = inv still

pub Run-IsOpen : {s s' : Pool} → Run s s' → IsOpen s → IsOpen s'
Run-IsOpen here inv = inv
Run-IsOpen (step alive move rest) inv = Run-IsOpen rest (Step-IsOpen move inv)

-- `ws` has the worker `w`.
abbrev pub Stands : Worker → List Worker → Type 0
Stands w ws = (before : List Worker) × (after : List Worker) × (ws ≡ before ++ w ∷ after)

Stands-cons : (w x : Worker) (ws : List Worker) → Stands w ws → Stands w (x ∷ ws)
Stands-cons w x ws (before, after, e) = (x ∷ before, after, ap (λ l. x ∷ l) e)

-- A worker that has a request, processing it or with its send.
abbrev pub Occupied : List Worker → Type 0
Occupied ws = (r : Request) × (Stands (busy r) ws ⊎ Stands (blocked r) ws)

Occupied-cons : (x : Worker) (ws : List Worker) → Occupied ws → Occupied (x ∷ ws)
Occupied-cons x ws (r, inl at) = (r, inl (Stands-cons (busy r) x ws at))
Occupied-cons x ws (r, inr at) = (r, inr (Stands-cons (blocked r) x ws at))

pub find_busy : (ws : List Worker) → (at_work ws ≡ []) ⊎ Occupied ws
find_busy [] = inl refl
find_busy (idle ∷ ws) = elim (find_busy ws) [
  | inl none_busy ↦ inl none_busy
  | inr found ↦ inr (Occupied-cons idle ws found)
]
find_busy (exited ∷ ws) = elim (find_busy ws) [
  | inl none_busy ↦ inl none_busy
  | inr found ↦ inr (Occupied-cons exited ws found)
]
find_busy (busy r ∷ ws) = inr (r, inl ([], ws, refl))
find_busy (blocked r ∷ ws) = inr (r, inr ([], ws, refl))

-- Where none is busy and one has not exited, here is an idle one.
pub find_idle :
    (n : ℕ) (ws : List Worker)
    → at_work ws ≡ []
    → staff ws ≡ suc n
    → (before : List Worker) × (after : List Worker) × (ws ≡ before ++ idle ∷ after)
find_idle n [] none_busy here_is = absurd (omega (arith, here_is))
find_idle n (idle ∷ ws) none_busy here_is = ([], ws, refl)
find_idle n (exited ∷ ws) none_busy here_is =
    let found = find_idle n ws none_busy here_is in
    (exited ∷ found.0, found.1, ap (λ l. exited ∷ l) found.2)
find_idle n (busy r ∷ ws) none_busy here_is = absurd (ground arith)
find_idle n (blocked r ∷ ws) none_busy here_is = absurd (ground arith)
