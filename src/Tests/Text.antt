-- ===== src/Tests/Text.antt =====
-- CSV rows, lines, names and clock tables, at concrete texts.
use tracemux.Prelude.{ℕ, ◌≡◌, refl, List, [], ◌∷◌, Option, none, some, nat_eq}
use tracemux.Prelude.Bytes.{bytes_eq}
use tracemux.Csv.{locate_cols, locate_loop, column, to_ascii_lowercase}
use tracemux.Codec.{crlf, detect, count, likely, starts_with, split_lines}
use tracemux.Codec.Lines.{Splits, split_lines-Splits}
use tracemux.Time.NodeClockTable.{ClockTableEntry, synced}

-- Of one CR LF and one LF alone, CR LF is picked.
detect_tie : detect (97 ∷ 13 ∷ 10 ∷ 98 ∷ 10 ∷ []) ≡ crlf
unfolding detect count likely starts_with
detect_tie = refl

split_lines-Splits_example :
    Splits crlf (97 ∷ 13 ∷ 10 ∷ 98 ∷ []) (split_lines (97 ∷ 13 ∷ 10 ∷ 98 ∷ []) crlf)
split_lines-Splits_example = split_lines-Splits (97 ∷ 13 ∷ 10 ∷ 98 ∷ []) crlf

abbrev measured : ℕ → ClockTableEntry
measured n = record {
  ts = "2026-01-01T00:00:00Z";
  node_id = n;
  rtt_ms = 1;
  offset_ms = n;
  drift_ppm = 0;
  quality = synced;
}

-- Lines of one letter, which is the node.
abbrev from_str : List ℕ → Option ClockTableEntry
from_str [] = none
from_str (c ∷ cs) = some (measured c)

abbrev to_string : ClockTableEntry → List ℕ
to_string e = e.node_id ∷ []

-- "Time,x,MSG"
locate-header :
    locate_cols ((84 ∷ 105 ∷ 109 ∷ 101 ∷ []) ∷ (120 ∷ []) ∷ (77 ∷ 83 ∷ 71 ∷ []) ∷ [])
    ≡ record { col_ts = some 0; col_level = none; col_text = some 2 }
unfolding locate_cols locate_loop column to_ascii_lowercase bytes_eq
locate-header = refl
