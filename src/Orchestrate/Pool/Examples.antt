-- ===== src/Orchestrate/Pool/Examples.antt =====
-- A pool with two requests, one of which is cancelled before it is scheduled.
use nix_compose.Prelude.{◌+◌, String, [], ◌∷◌, ◌≡◌, refl, Bool, false, arith, contains}
use nix_compose.Orchestrate.Types.{Request, create, delete}
use nix_compose.Orchestrate.Pool.{Pool, new_pool, add, cancel, Run, here, step}
use nix_compose.Orchestrate.Pool.Conserved.{tally, is_about}
use nix_compose.Orchestrate.Pool.Drains.{IsDrained, pool_drains}

abbrev web : Request
web = create "web" "service" "{}"

abbrev db : Request
db = delete "db" "service"

abbrev one_waits : Pool
one_waits = record new_pool { feedback = web ∷ []; added = web ∷ [] }

abbrev both_wait : Pool
both_wait = record one_waits { feedback = web ∷ db ∷ []; added = web ∷ db ∷ [] }

abbrev db_cancelled : Pool
db_cancelled = record both_wait { cancelled = "db" ∷ [] }

db_cancelled-Run : Run new_pool db_cancelled
db_cancelled-Run =
    step refl (add web refl (omega arith))
      (step refl (add db refl (omega arith)) (step refl (cancel (db ∷ [])) here))

pool_drains_example :
    (end : Pool) × Run db_cancelled end
    × IsDrained end
    × (end.added ≡ web ∷ db ∷ [])
    × ((test : Request → Bool)
        → tally test (web ∷ db ∷ []) ≡ tally test end.processed + tally test end.skipped)
    × ((x : String)
        → contains ("db" ∷ []) x ≡ false
        → tally (is_about x) (web ∷ db ∷ []) ≡ tally (is_about x) end.processed)
pool_drains_example = pool_drains db_cancelled db_cancelled-Run refl refl (omega arith)
