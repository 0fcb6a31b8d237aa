-- ===== src/Logs/Examples.antt =====
-- Log lines, and the theorems on them.
use nix_compose.Prelude.{
  ℕ, String, List, [], ◌∷◌, ◌++◌, ◌≡◌, refl, Option, none, some, Bool, true, false, ◌==◌, length,
  min, if◌then◌else◌,
}
use nix_compose.Prelude.Int.{pos}
use nix_compose.Prelude.Text.{cut_space}
use nix_compose.Logs.{
  LogEntry, parse_line, tail_entries, join_partials, gather, of_service, sort_entries,
  collect_entries,
}
use nix_compose.Logs.Join.{
  text_of, OnlyLastPartial, text_of-join_partials, join_partials-OnlyLastPartial,
}
use nix_compose.Logs.Mixed.{merged, collect_entries-mixed}
use nix_compose.Logs.Line.{parse_line-line_of}
use nix_compose.Logs.Select.{IsChronological, at_time, tail_entries_lem, collect_entries_lem}

program : Unit {0}
unfolding parse_line cut_space join_partials collect_entries tail_entries
program = tt

abbrev entry : ℕ → Bool → String → LogEntry
entry ts partial msg = record {
  timestamp = ts;
  stream = "stdout";
  is_partial = partial;
  message = msg;
  service = "";
}

abbrev entries : List LogEntry
entries =
    entry 1 true "he"
    ∷ entry 2 true "ll"
    ∷ entry 3 false "o"
    ∷ entry 4 false "x"
    ∷ entry 5 true "y"
    ∷ []

abbrev clock : String → Option ℕ
clock stamp = if stamp == "noon" then some 12 else none

joined_entries :
    join_partials entries ≡ entry 1 false "hello" ∷ entry 4 false "x" ∷ entry 5 true "y" ∷ []
unfolding program
joined_entries = refl

two_words : parse_line clock "noon stdout" ≡ none
unfolding program
two_words = refl

parse_line-line_of_example :
    parse_line clock "noon stdout P two words"
    ≡ some (record {
      timestamp = 12;
      stream = "stdout";
      is_partial = true;
      message = "two words";
      service = "";
    })
unfolding program
parse_line-line_of_example =
    parse_line-line_of clock "noon" "stdout" "P" (some "two words") 12 refl refl refl refl

text_of-join_partials_example : text_of (join_partials entries) ≡ text_of entries
text_of-join_partials_example = text_of-join_partials entries

join_partials-OnlyLastPartial_example : OnlyLastPartial (join_partials entries)
join_partials-OnlyLastPartial_example = join_partials-OnlyLastPartial entries

abbrev logs : String → Option (List LogEntry)
logs svc = if svc == "db" then some (entry 1 true "begin" ∷ []) else some (entry 9 false "end" ∷ [])

abbrev torn_logs : String → Option (List LogEntry)
torn_logs svc =
    if svc == "db"
    then some (entry 0 false "up" ∷ entry 1 true "begin" ∷ [])
    else if svc == "web"
    then some (entry 9 false "end" ∷ entry 10 false "ok" ∷ [])
    else some (entry 2 false "api" ∷ [])

collect_entries-mixed_example :
    collect_entries torn_logs ("api" ∷ "db" ∷ "web" ∷ [])
    ≡ sort_entries (
        (gather torn_logs ("api" ∷ []) ++ of_service "db" (entry 0 false "up" ∷ []))
        ++ merged (record (entry 1 true "begin") { service = "db" }) (entry 9 false "end")
          ∷ (of_service "web" (entry 10 false "ok" ∷ []) ++ gather torn_logs []))
unfolding gather
collect_entries-mixed_example =
    collect_entries-mixed torn_logs ("api" ∷ []) [] "db" "web" (entry 0 false "up" ∷ [])
      (entry 10 false "ok" ∷ []) (entry 1 true "begin") (entry 9 false "end") (refl, tt) (refl, tt)
      (refl, tt) tt refl refl refl refl

tail_entries_lem_example :
    (length (tail_entries entries (pos 2)) ≡ min 2 (length entries))
    × ((front : List LogEntry) × (entries ≡ front ++ tail_entries entries (pos 2)))
tail_entries_lem_example = tail_entries_lem entries 1

collect_entries_lem_example :
    IsChronological (collect_entries logs ("web" ∷ "db" ∷ []))
    × ((t : ℕ)
        → at_time t (collect_entries logs ("web" ∷ "db" ∷ []))
          ≡ at_time t (join_partials (gather logs ("web" ∷ "db" ∷ []))))
collect_entries_lem_example = collect_entries_lem logs ("web" ∷ "db" ∷ [])
