-- ===== src/Orchestrate/Pool.antt =====
-- pkg/orchestrate/deploy/pool.go and worker.go: the pool of workers, as a relation on its states.
-- A step is what one goroutine does between two operations on a channel. `Stop` closes its three
-- channels in one step. Processing a request succeeds or fails, as the outside decides; the rate
-- limit, the tracker and the saving of deployments do not touch this state.
pub mod Conserved
pub mod Drains
pub mod Ready
mod Examples
use nix_compose.Prelude.{
  ℕ, ◌<◌, String, List, [], ◌∷◌, ◌++◌, Option, none, some, Bool, true, false, ◌≡◌, length, contains,
}
use nix_compose.Orchestrate.Types.{Request, subject_id}

-- The buffers of `queue` and `feedback`.
abbrev pub capacity : ℕ
capacity = 1024

pub data Worker : Type 0 where
  idle : Worker
  busy : (request : Request) → Worker
  -- `Process` failed, and the request is to be sent to `feedback`, which may be full.
  blocked : (request : Request) → Worker
  exited : Worker

pub record Pool : Type 0 where
  pub feedback : List Request
  pub queue : List Request
  pub workers : List Worker
  -- What the scheduler took from `feedback` and has not queued yet.
  pub holding : Option Request
  pub scheduling : Bool
  pub cancelled : List String
  pub closed : Bool
  pub crashed : Bool
  -- The requests that were added, processed, skipped as cancelled, and given up by `Stop`.
  pub added : List Request
  pub processed : List Request
  pub skipped : List Request
  pub abandoned : List Request

-- `NewPool` and `Start`, with DefaultNrWorkers workers.
abbrev pub new_pool : Pool
new_pool = record {
  feedback = [];
  queue = [];
  workers = idle ∷ idle ∷ [];
  holding = none;
  scheduling = true;
  cancelled = [];
  closed = false;
  crashed = false;
  added = [];
  processed = [];
  skipped = [];
  abandoned = [];
}

abbrev pub subject_ids : List Request → List String
subject_ids [] = []
subject_ids (r ∷ rest) = subject_id r ∷ subject_ids rest

abbrev pub held : Option Request → List Request
held none = []
held (some r) = r ∷ []

-- The body of the loop of `Add`.
abbrev pub after_add : Request → Pool → Pool
after_add r s = record s { feedback = s.feedback ++ r ∷ []; added = s.added ++ r ∷ [] }

-- `Cancel`.
abbrev pub after_cancel : List Request → Pool → Pool
after_cancel requests s = record s { cancelled = subject_ids requests ++ s.cancelled }

-- `IsCancelled`.
abbrev pub is_cancelled : Pool → Request → Bool
is_cancelled s r = contains s.cancelled (subject_id r)

-- `Stop`.
abbrev pub after_stop : Pool → Pool
after_stop s = record s { closed = true }

-- In `Worker.Run`: the worker between `before` and `after` has read a request.
abbrev pub after_receive : List Worker → List Worker → Request → List Request → Pool → Pool
after_receive before after r rest s = record s { workers = before ++ busy r ∷ after; queue = rest }

-- `handleRequest` without an error.
abbrev pub after_success : List Worker → List Worker → Request → Pool → Pool
after_success before after r s = record s {
  workers = before ++ idle ∷ after;
  processed = s.processed ++ r ∷ [];
}

-- `handleRequest` from an error to the send.
abbrev pub after_failure : List Worker → List Worker → Request → Pool → Pool
after_failure before after r s = record s { workers = before ++ blocked r ∷ after }

-- `feedback <- r`
abbrev pub after_reschedule : List Worker → List Worker → Request → Pool → Pool
after_reschedule before after r s = record s {
  workers = before ++ idle ∷ after;
  feedback = s.feedback ++ r ∷ [];
}

pub data Step (s : Pool) : Pool → Type 0 where
  add : (r : Request) → s.closed ≡ false → length s.feedback < capacity → Step s (after_add r s)
  cancel : (requests : List Request) → Step s (after_cancel requests s)
  -- `Schedule` reads a request that is cancelled.
  skip :
      (r : Request) (rest : List Request)
      → s.scheduling ≡ true
      → s.holding ≡ none
      → s.feedback ≡ r ∷ rest
      → is_cancelled s r ≡ true
      → Step s (record s { feedback = rest; skipped = s.skipped ++ r ∷ [] })
  -- `Schedule` reads another one.
  take :
      (r : Request) (rest : List Request)
      → s.scheduling ≡ true
      → s.holding ≡ none
      → s.feedback ≡ r ∷ rest
      → is_cancelled s r ≡ false
      → Step s (record s { feedback = rest; holding = some r })
  -- `p.queue <- r`
  dispatch :
      (r : Request)
      → s.closed ≡ false
      → s.holding ≡ some r
      → length s.queue < capacity
      → Step s (record s { queue = s.queue ++ r ∷ []; holding = none })
  -- `<-p.close` in `Schedule`.
  quit :
      s.closed ≡ true
      → s.scheduling ≡ true
      → Step s (record s {
        scheduling = false;
        holding = none;
        abandoned = s.abandoned ++ held s.holding;
      })
  -- A worker reads a request.
  receive :
      (before after : List Worker) (r : Request) (rest : List Request)
      → s.workers ≡ before ++ idle ∷ after
      → s.queue ≡ r ∷ rest
      → Step s (after_receive before after r rest s)
  succeed :
      (before after : List Worker) (r : Request)
      → s.workers ≡ before ++ busy r ∷ after
      → Step s (after_success before after r s)
  fail :
      (before after : List Worker) (r : Request)
      → s.workers ≡ before ++ busy r ∷ after
      → Step s (after_failure before after r s)
  reschedule :
      (before after : List Worker) (r : Request)
      → s.workers ≡ before ++ blocked r ∷ after
      → s.closed ≡ false
      → length s.feedback < capacity
      → Step s (after_reschedule before after r s)
  -- A worker reads the end of the closed queue.
  exit :
      (before after : List Worker)
      → s.workers ≡ before ++ idle ∷ after
      → s.closed ≡ true
      → s.queue ≡ []
      → Step s (record s { workers = before ++ exited ∷ after })
  stop : s.closed ≡ false → Step s (after_stop s)
  -- A send on a closed channel ends the program: by `Add`, by `Schedule` and by a worker.
  add_closed : Request → s.closed ≡ true → Step s (record s { crashed = true })
  dispatch_closed :
      (r : Request) → s.closed ≡ true → s.holding ≡ some r → Step s (record s { crashed = true })
  reschedule_closed :
      (before after : List Worker) (r : Request)
      → s.workers ≡ before ++ blocked r ∷ after
      → s.closed ≡ true
      → Step s (record s { crashed = true })

-- Any number of steps of a program that has not crashed.
pub data Run : Pool → Pool → Type 0 where
  here : {s : Pool} → Run s s
  step : {s mid end : Pool} → s.crashed ≡ false → Step s mid → Run mid end → Run s end
