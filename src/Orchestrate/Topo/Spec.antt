-- ===== src/Orchestrate/Topo/Spec.antt =====
-- What an execution order promises.
use nix_compose.Prelude.{
  ℕ, suc, ◌<◌, String, List, [], ◌∷◌, ◌++◌, Option, none, some, Bool, false, not, ◌==◌, ◌&&◌, ◌≡◌,
  contains, if◌then◌else◌,
}
use nix_compose.Prelude.Dict.{Dict, has}
use nix_compose.Orchestrate.Types.{Link}

-- The first element with the id.
abbrev pub find {ℓ} : {A : Type ℓ} → (A → String) → String → List A → Option A
find id_of id [] = none
find id_of id (r ∷ rest) = if id_of r == id then some r else find id_of id rest

-- `b` stands somewhere behind the first `a`.
abbrev pub stands_before : String → String → List String → Bool
stands_before a b [] = false
stands_before a b (x ∷ xs) = if x == a then contains xs b else stands_before a b xs

-- The links from `source` to targets of the batch that are not done.
abbrev pub waits {ℓ} : {A : Type ℓ} → Dict A → List Link → List String → String → ℕ
waits set [] done source = 0
waits set (l ∷ rest) done source =
    let later = waits set rest done source in
    if (l.source.id == source) && (has l.target.id set && not (contains done l.target.id))
    then suc later
    else later

-- Each id stands behind all targets that it waits for.
abbrev pub Respects {ℓ} : {A : Type ℓ} → Dict A → List Link → List String → List String → Type 0
Respects set links done [] = Unit
Respects set links done (x ∷ xs) =
    (waits set links done x ≡ 0) × Respects set links (done ++ x ∷ []) xs

-- A rank that falls along every link shows that the links form no cycle.
abbrev pub Falls : (String → ℕ) → List Link → Type 0
Falls rank [] = Unit
Falls rank (l ∷ rest) = (rank l.target.id < rank l.source.id) × Falls rank rest

-- The last element with the id.
abbrev pub find_last {ℓ} : {A : Type ℓ} → (A → String) → String → List A → Option A
find_last id_of id [] = none
find_last id_of id (r ∷ rest) = elim (find_last id_of id rest) [
  | none ↦ if id_of r == id then some r else none
  | some later ↦ some later
]

-- The links with both ends among the names.
abbrev pub inside : List String → List Link → List Link
inside names [] = []
inside names (l ∷ rest) =
    let later = inside names rest in
    if contains names l.source.id && contains names l.target.id then l ∷ later else later
