-- ===== src/Tests/Transfer.antt =====
-- A session that is logged, exported and imported, and packet captures, at concrete inputs.
use tracemux.Prelude.{
  ◌*◌, ℕ, ◌+◌, ◌≡◌, refl, List, [], ◌∷◌, Option, true, false, none, some, false, length, map,
  if◌then◌else◌, arith,
}
use tracemux.Prelude.Bytes.{bytes_eq}
use tracemux.Prelude.Ints.{ℤ, pos, negsuc}
use tracemux.Error.{Result, ok}
use tracemux.Log.Index.{DualTimestamp, incoming, outgoing, IndexEntry, from_envelope}
use tracemux.Log.Index
use tracemux.Log.Lines.{LineEntry, FrameEntry, Record}
use tracemux.Log.Session.{Crates}
use tracemux.Log.Session.Rows.{Call, raws, records, commits, closes, reopens, logged}
use tracemux.Time.NodeClockTable
use tracemux.Prelude.Text.{trim_start, trim_end, whitespace}
use tracemux.Exporter.Timestamp.{
  UtcOffset, offset, returned, panicked, parse_timezone_offset, format_rfc3339_in_timezone,
}
use tracemux.Exporter.Timestamp.Labels.{minutes_east, in_gmt, label, parse_timezone_offset-label}
use tracemux.Exporter.Timestamp.Ascii.{parse_timezone_offset-IsAscii}
use tracemux.Exporter.Rows.Written.{session, IsWritable}
use tracemux.Exporter.Text
use tracemux.Exporter.Text.Replay.{transcript, run-session}
use tracemux.Csv.{needs_quotes}
use tracemux.Csv.Export
use tracemux.Csv.Import.Emitted.{imported}
use tracemux.Csv.Table.Transfer.{HoldsTexts, sent, import-export}

-- A row is printed as its offset and length behind letters.
abbrev pub print_entry : IndexEntry → List ℕ
print_entry e = (100 + e.off) ∷ (200 + e.len) ∷ []

abbrev pub print_line : LineEntry → List ℕ
print_line l = 34 ∷ l.text

abbrev pub print_frame : FrameEntry (Unit {0}) → List ℕ
print_frame f = 35 ∷ f.ts

abbrev pub print_instant : ℤ → List ℕ
print_instant (pos n) = (65 + n) ∷ []
print_instant (negsuc n) = 45 ∷ []

abbrev pub io : Crates (Unit {0})
io = record {
  format_rfc3339_ns = print_instant;
  entry_to_string = print_entry;
  line_to_string = print_line;
  frame_to_string = print_frame;
  spill = length;
}

-- A reader of the rows that it knows.
abbrev pub find_entry : List IndexEntry → List ℕ → Option IndexEntry
find_entry [] l = none
find_entry (e ∷ es) l =
    let rest = find_entry es l in if bytes_eq (print_entry e) l then some e else rest

abbrev pub at : ℕ → DualTimestamp
at n = record {
  ts_origin_ns = pos n;
  ts_ingest_ns = pos (n + 1);
  mono_ns = n;
  boot_id = 1;
  node_id = 2;
  clock_offset_ms = 0;
  clock_quality = NodeClockTable.synced;
  drift_ppm = 0;
  clock_source = Index.system;
}

abbrev body : Record (Unit {0})
body = record {
  schema_id = none;
  level = none;
  text = some (104 ∷ []);
  fields = tt;
  tags = [];
  correlation_id = none;
}

-- `h,"` comes in, a record is decoded, the sink is opened again, and `b` goes out.
abbrev calls : List (Call (Unit {0}))
calls =
    raws (at 0) incoming (104 ∷ 44 ∷ 34 ∷ [])
    ∷ records (at 1) body
    ∷ commits
    ∷ closes
    ∷ reopens 7 (some (115 ∷ [])) none (120 ∷ [])
    ∷ raws (at 2) outgoing (98 ∷ [])
    ∷ []

abbrev from_str : List ℕ → Option IndexEntry
from_str =
    find_entry (map (λ r. r.0) (logged io (record { sid = 6; source = none; host = none }) 0 calls))

abbrev decode : List ℕ → List ℕ
decode bytes = bytes

-- A timezone is shown by a letter.
abbrev convert : UtcOffset → List ℕ → Option (List ℕ)
convert offset ts = some (90 ∷ ts)

abbrev jst : UtcOffset
jst = pos 540

calls-IsWritable :
    IsWritable io from_str (logged io (record { sid = 6; source = none; host = none }) 0 calls)
unfolding logged from_envelope bytes_eq
calls-IsWritable = record {
  readable = ((omega arith, refl), ((omega arith, refl), tt));
  small = omega arith;
  room = omega arith;
}

run-session_example :
    Text.run from_str decode convert (some jst) (session io from_str calls 6 none none [])
    ≡ transcript io from_str decode convert (some jst) calls []
run-session_example =
    run-session io from_str decode convert (some jst) calls 6 none none [] calls-IsWritable

transcript_run :
    transcript io from_str decode convert (some jst) calls []
    ≡ ok (90 ∷ 65 ∷ 9 ∷ 104 ∷ 44 ∷ 34 ∷ 10 ∷ 90 ∷ 67 ∷ 9 ∷ 98 ∷ 10 ∷ [])
unfolding transcript format_rfc3339_in_timezone
transcript_run = refl

-- The table of the session, where instants are shown as they are, and its import as session 8.
abbrev same : List ℕ → List ℕ
same xs = xs

abbrev no_instant : List ℕ → Option ℤ
no_instant s = none

abbrev pub tick : ℕ → ℤ
tick n = pos n

import-export_example :
    (tbl : List ℕ) × (Export.run from_str decode convert none
        (session io from_str calls 6 none none [])
      ≡ ok tbl)
    × HoldsTexts decode convert none same io no_instant same tick 8
        (sent decode convert none same io no_instant same tick 8 calls)
        tbl
import-export_example =
    import-export decode convert none same io no_instant same tick 8 from_str calls 6 none none []
      calls-IsWritable
      (unfold logged from_envelope format_rfc3339_in_timezone needs_quotes in
        ((refl, refl, refl, refl, omega arith), ((refl, refl, refl, refl, omega arith), tt)))
      (unfold sent in omega arith) (unfold sent imported in omega arith)

-- `+09:30` behind GMT.
parse_timezone_offset-label_example :
    parse_timezone_offset (label in_gmt true false 9 30)
    ≡ returned (ok (minutes_east false (9 * 60 + 30)))
parse_timezone_offset-label_example =
    parse_timezone_offset-label in_gmt true false 9 30 (omega arith) (omega arith)

parse_timezone_offset-IsAscii_example :
    (r : Result UtcOffset) × (parse_timezone_offset (43 ∷ 49 ∷ 120 ∷ []) ≡ returned r)
parse_timezone_offset-IsAscii_example =
    parse_timezone_offset-IsAscii (43 ∷ 49 ∷ 120 ∷ []) (omega arith)

-- A plus sign, an e with an accent and a digit: the cut falls inside the letter.
panics : parse_timezone_offset (43 ∷ 233 ∷ 49 ∷ []) ≡ panicked
unfolding parse_timezone_offset trim_start trim_end whitespace
panics = refl
