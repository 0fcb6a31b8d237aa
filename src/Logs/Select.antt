-- ===== src/Logs/Select.antt =====
-- `TailEntries`, and the order of `collectEntries`.
use nix_compose.Prelude.{
  ℕ, zero, suc, ◌-◌, ◌≤◌, String, List, [], ◌∷◌, ◌++◌, ◌≡◌, refl, ◌∙◌, ap, Option, inl, inr,
  Bool-cases, arith, if◌then◌else◌, length, drop, min, beq, leb, ltb, length-drop,
}
use nix_compose.Prelude.Int.{pos}
use nix_compose.Logs.{
  LogEntry, tail_entries, insert_entry, sort_entries, collect_entries, join_partials, gather,
}

take_of : (n : ℕ) (es : List LogEntry) → (front : List LogEntry) × (es ≡ front ++ drop n es)
take_of zero es = ([], refl)
take_of (suc n) [] = ([], refl)
take_of (suc n) (e ∷ es) = let (front, h) = take_of n es in (e ∷ front, ap (λ l. e ∷ l) h)

-- `TailEntries` with a positive number gives the end of the list, of that length where the list is
-- long enough, and else all of it.
pub tail_entries_lem :
    (es : List LogEntry) (n : ℕ)
    → (length (tail_entries es (pos (suc n))) ≡ min (suc n) (length es))
      × ((front : List LogEntry) × (es ≡ front ++ tail_entries es (pos (suc n))))
unfolding tail_entries
tail_entries_lem es n = elim (Bool-cases (leb (length es) (suc n))) [
  | inl t ↦ rw t (ground arith, ([], refl))
  | inr f ↦
      rw f (ground (arith, length-drop (length es - suc n) es), take_of (length es - suc n) es)
]

-- The entries of one time, in order.
abbrev pub at_time : ℕ → List LogEntry → List LogEntry
at_time t [] = []
at_time t (e ∷ es) = let rest = at_time t es in if beq e.timestamp t then e ∷ rest else rest

abbrev LaterHead : ℕ → List LogEntry → Type 0
LaterHead t [] = Unit
LaterHead t (e ∷ es) = t ≤ e.timestamp

-- No entry is before the one in front of it.
abbrev pub IsChronological : List LogEntry → Type 0
IsChronological [] = Unit
IsChronological (e ∷ es) = LaterHead e.timestamp es × IsChronological es

at_time-insert :
    (t : ℕ) (e : LogEntry) (es : List LogEntry) → at_time t (insert_entry e es) ≡ at_time t (e ∷ es)
unfolding insert_entry
at_time-insert t e [] = refl
at_time-insert t e (x ∷ es) = ground (arith, at_time-insert t e es)

at_time-sort : (t : ℕ) (es : List LogEntry) → at_time t (sort_entries es) ≡ at_time t es
unfolding sort_entries
at_time-sort t [] = refl
at_time-sort t (e ∷ es) = at_time-insert t e (sort_entries es) ∙ (rw (at_time-sort t es) refl)

LaterHead-insert :
    (t : ℕ) (e : LogEntry) (es : List LogEntry)
    → t ≤ e.timestamp
    → LaterHead t es
    → LaterHead t (insert_entry e es)
unfolding insert_entry
LaterHead-insert t e [] h k = h
LaterHead-insert t e (x ∷ es) h k = ground arith

insert-IsChronological :
    (e : LogEntry) (es : List LogEntry) → IsChronological es → IsChronological (insert_entry e es)
unfolding insert_entry
insert-IsChronological e [] h = (tt, tt)
insert-IsChronological e (x ∷ es) h = elim (Bool-cases (ltb x.timestamp e.timestamp)) [
  | inl t ↦
      rw t (LaterHead-insert x.timestamp e es (ground arith) h.0, insert-IsChronological e es h.1)
  | inr f ↦ rw f (ground arith, h)
]

sort-IsChronological : (es : List LogEntry) → IsChronological (sort_entries es)
unfolding sort_entries
sort-IsChronological [] = tt
sort-IsChronological (e ∷ es) = insert-IsChronological e (sort_entries es) (sort-IsChronological es)

-- `collectEntries` puts the joined entries of all services in the order of their times, and those of
-- one time stay in the order in which they were joined.
pub collect_entries_lem :
    (read_log : String → Option (List LogEntry)) (services : List String)
    → IsChronological (collect_entries read_log services)
      × ((t : ℕ)
          → at_time t (collect_entries read_log services)
            ≡ at_time t (join_partials (gather read_log services)))
unfolding collect_entries
collect_entries_lem read_log services = (
  sort-IsChronological (join_partials (gather read_log services)),
  λ t. at_time-sort t (join_partials (gather read_log services)),
)
