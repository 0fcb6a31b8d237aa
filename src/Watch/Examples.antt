-- ===== src/Watch/Examples.antt =====
-- A diff, where a service is marshalled to its image.
use nix_compose.Prelude.{String, [], ◌∷◌, ◌≡◌, refl, some}
use nix_compose.Prelude.Dict.{lookup}
use nix_compose.Prelude.Sort.{sort}
use nix_compose.Eval.{Service, Composition}
use nix_compose.Samples.{blank, with_services}
use nix_compose.Watch.{DiffResult, diff_compositions}
use nix_compose.Watch.Laws.{Describes, IsTidy, diff_compositions_lem}

program : Unit {0}
unfolding diff_compositions lookup sort
program = tt

abbrev image : String → Service
image i = record blank { image = i }

abbrev before : Composition
before = with_services (("web", image "1") ∷ ("db", image "1") ∷ [])

abbrev after : Composition
after = with_services (("web", image "2") ∷ ("api", image "1") ∷ [])

one_each :
    diff_compositions (λ svc. some svc.image) before after
    ≡ some (record { added = "api" ∷ []; removed = "db" ∷ []; changed = "web" ∷ [] })
unfolding program
one_each = refl

diff_compositions_lem_example :
    (d : DiffResult) × (diff_compositions (λ svc. some svc.image) before after ≡ some d)
    × Describes (λ svc. svc.image) before.services after.services d
    × IsTidy d.added
    × IsTidy d.removed
    × IsTidy d.changed
diff_compositions_lem_example =
    diff_compositions_lem (λ svc. svc.image) (λ svc. some svc.image) before after (λ svc. refl)
      (refl, (refl, tt)) (refl, (refl, tt))
