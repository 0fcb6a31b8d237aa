-- ===== src/Logs/Line.antt =====
-- `ParseLine` reads back the lines that a container runtime writes.
use nix_compose.Prelude.{ℕ, String, ◌≡◌, refl, Option, none, some, false, ◌==◌}
use nix_compose.Prelude.Text.{◌<>◌, has_space, cut_space-word, cut_space-whole}
use nix_compose.Logs.{cut_again, split_line, entry_of, parse_parts, parse_line, or_empty}

-- The line with the message, if it has one, behind a space.
abbrev pub line_of : String → String → String → Option String → String
line_of stamp stream tag none = stamp <> " " <> stream <> " " <> tag
line_of stamp stream tag (some msg) = stamp <> " " <> stream <> " " <> tag <> " " <> msg

-- A line of three words, with or without a message behind them, is read as it was written: the
-- message is all that follows the third space, spaces included. The words have no space, and the
-- first one is a time.
pub parse_line-line_of :
    (parse_time : String → Option ℕ) (stamp stream tag : String) (msg : Option String) (ts : ℕ)
    → has_space stamp ≡ false
    → has_space stream ≡ false
    → has_space tag ≡ false
    → parse_time stamp ≡ some ts
    → parse_line parse_time (line_of stamp stream tag msg)
      ≡ some (record {
        timestamp = ts;
        stream = stream;
        is_partial = tag == "P";
        message = or_empty msg;
        service = "";
      })
unfolding parse_line split_line parse_parts cut_again entry_of
parse_line-line_of parse_time stamp stream tag none ts a b c h =
    rw (cut_space-word stamp (stream <> " " <> tag) a)
      (rw (cut_space-word stream tag b) (rw (cut_space-whole tag c) (rw h refl)))
parse_line-line_of parse_time stamp stream tag (some msg) ts a b c h =
    rw (cut_space-word stamp (stream <> " " <> tag <> " " <> msg) a)
      (rw (cut_space-word stream (tag <> " " <> msg) b) (rw (cut_space-word tag msg c) (rw h refl)))
