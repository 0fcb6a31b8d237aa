-- ===== src/Logs.antt =====
-- pkg/logs/parse.go, and `collectEntries` of pkg/logs/mux.go. A timestamp is its number of
-- nanoseconds; `time.Parse` is the parameter `parse_time`, and reading a service's log file the
-- parameter `read_log`, which is `none` where the file cannot be read.
pub mod Join
pub mod Mixed
pub mod Line
pub mod Select
mod Examples
use nix_compose.Prelude.{
  ℕ, zero, suc, ◌-◌, String, List, [], ◌∷◌, ◌++◌, Option, none, some, Bool, true, false, ◌==◌, not,
  beq, ltb, leb, length, drop, if◌then◌else◌,
}
use nix_compose.Prelude.Int.{ℤ, pos, negsuc}
use nix_compose.Prelude.Text.{◌<>◌, cut_space}

pub record LogEntry : Type 0 where
  pub timestamp : ℕ
  pub stream : String
  pub is_partial : Bool
  pub message : String
  pub service : String

-- `strings.SplitN(line, " ", 4)`: the first three words, and the text behind them.
pub record Parts : Type 0 where
  pub first : String
  pub second : Option String
  pub third : Option String
  pub rest : Option String

pub cut_again : Option String → Option String × Option String
unfolding cut_space
cut_again none = (none, none)
cut_again (some s) = let (word, rest) = cut_space s in (some word, rest)

pub split_line : String → Parts
unfolding cut_again
split_line line =
    let (first, r) = cut_space line in
    let (second, r') = cut_again r in
    let (third, r'') = cut_again r' in
    record { first = first; second = second; third = third; rest = r'' }

abbrev pub or_empty : Option String → String
or_empty none = ""
or_empty (some s) = s

-- The entry of a line with a stream and a tag.
pub entry_of : Option ℕ → String → String → Option String → Option LogEntry
entry_of none stream tag msg = none
entry_of (some ts) stream tag msg = some (record {
  timestamp = ts;
  stream = stream;
  is_partial = tag == "P";
  message = or_empty msg;
  service = "";
})

module _ (parse_time : String → Option ℕ) where
  pub parse_parts : String → Option String → Option String → Option String → Option LogEntry
  unfolding entry_of
  parse_parts first none third rest = none
  parse_parts first (some stream) none rest = none
  parse_parts first (some stream) (some tag) rest = entry_of (parse_time first) stream tag rest

  -- `none` is the error for a malformed line.
  pub parse_line : String → Option LogEntry
  unfolding split_line parse_parts
  parse_line line = let p = split_line line in parse_parts p.first p.second p.third p.rest

  -- `ReadEntries`, on the lines of the reader.
  pub read_entries : List String → List LogEntry
  unfolding parse_line
  read_entries [] = []
  read_entries (line ∷ rest) = elim (parse_line line) [
    | none ↦ read_entries rest
    | some e ↦ e ∷ read_entries rest
  ]

pub filter_since : List LogEntry → ℕ → List LogEntry
filter_since [] since = []
filter_since (e ∷ rest) since =
    let later = filter_since rest since in if not (ltb e.timestamp since) then e ∷ later else later

pub tail_entries : List LogEntry → ℤ → List LogEntry
tail_entries entries (negsuc n) = entries
tail_entries entries (pos zero) = entries
tail_entries entries (pos (suc n)) =
    if leb (length entries) (suc n) then entries else drop (length entries - suc n) entries

-- The variables of the loop of `JoinPartials`.
pub record Joining : Type 0 where
  pub result : List LogEntry
  pub buf : String
  pub first : LogEntry
  pub in_partial : Bool

-- The buffer's text as the message of the first entry.
abbrev pub joined : LogEntry → String → Bool → LogEntry
joined first text partial = record first { message = text; is_partial = partial }

-- The body of the loop, by whether the entry is partial and `inPartial`.
pub join_case : Bool → Bool → LogEntry → Joining → Joining
join_case true true e s = record s { buf = s.buf <> e.message }
join_case true false e s = record s { first = e; buf = e.message; in_partial = true }
join_case false true e s = record s {
  buf = s.buf <> e.message;
  result = s.result ++ joined s.first (s.buf <> e.message) false ∷ [];
  in_partial = false;
}
join_case false false e s = record s { result = s.result ++ e ∷ [] }

pub join_step : LogEntry → Joining → Joining
unfolding join_case
join_step e s = join_case e.is_partial s.in_partial e s

pub join_loop : List LogEntry → Joining → Joining
unfolding join_step
join_loop [] s = s
join_loop (e ∷ rest) s = join_loop rest (join_step e s)

-- A partial entry that nothing closed.
pub join_end : Joining → List LogEntry
join_end s =
    if s.in_partial then s.result ++ joined s.first s.buf s.first.is_partial ∷ [] else s.result

abbrev pub no_entry : LogEntry
no_entry = record { timestamp = 0; stream = ""; is_partial = false; message = ""; service = "" }

abbrev pub no_joining : Joining
no_joining = record { result = []; buf = ""; first = no_entry; in_partial = false }

pub join_partials : List LogEntry → List LogEntry
unfolding join_loop join_end
join_partials entries = join_end (join_loop entries no_joining)

abbrev pub of_service : String → List LogEntry → List LogEntry
of_service svc [] = []
of_service svc (e ∷ rest) = record e { service = svc } ∷ of_service svc rest

abbrev pub read_or_skip : Option (List LogEntry) → List LogEntry
read_or_skip none = []
read_or_skip (some entries) = entries

pub gather : (String → Option (List LogEntry)) → List String → List LogEntry
gather read_log [] = []
gather read_log (svc ∷ rest) = of_service svc (read_or_skip (read_log svc)) ++ gather read_log rest

-- `sort.SliceStable` by timestamp: an entry goes before those that are not before it.
pub insert_entry : LogEntry → List LogEntry → List LogEntry
insert_entry e [] = e ∷ []
insert_entry e (x ∷ rest) =
    let later = insert_entry e rest in
    if ltb x.timestamp e.timestamp then x ∷ later else e ∷ x ∷ rest

pub sort_entries : List LogEntry → List LogEntry
unfolding insert_entry
sort_entries [] = []
sort_entries (e ∷ rest) = insert_entry e (sort_entries rest)

pub collect_entries : (String → Option (List LogEntry)) → List String → List LogEntry
unfolding gather join_partials sort_entries
collect_entries read_log services = sort_entries (join_partials (gather read_log services))
