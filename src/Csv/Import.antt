-- ===== src/Csv/Import.antt =====
-- `run` of crates/core/src/importer/csv.rs: the import of a table into a session's directory. A table is
-- the list of its characters, which can be read. Parameters: the bytes of a text (`as_bytes`), the
-- parsing and printing of instants and rows (`parse_rfc3339_ns`, and those of Log/Session), the clock
-- at the n-th row (`clock`), and the new session's id.
pub mod Emitted
use tracemux.Prelude.{
  ℕ, ◌+◌, List, [], ◌∷◌, ◌++◌, Option, none, some, Bool, true, false, ◌&&◌, ◌||◌, ◌==◌,
  if◌then◌else◌, get_elem?,
}
use tracemux.Prelude.Ints.{ℤ}
use tracemux.Prelude.Text.{is_empty}
use tracemux.Log.Raw
use tracemux.Log.Raw.{RawWriter}
use tracemux.Log.BufWriter
use tracemux.Log.BufWriter.{BufWriter}
use tracemux.Log.Index
use tracemux.Log.Index.{DualTimestamp, IndexEntry, from_envelope}
use tracemux.Log.Lines.{append_line}
use tracemux.Log.Session.{SessionDir, Crates}
use tracemux.Time.NodeClockTable
use tracemux.Exporter.Rows.{onto_first}
use tracemux.Csv.{Columns, parse_row, locate_cols, join}

-- `read_line`, until it returns 0: a line keeps its line feed.
unfoldable pub read_lines : List ℕ → List (List ℕ)
read_lines [] = []
read_lines (c ∷ cs) =
    let rest = read_lines cs in if c == 10 then (10 ∷ []) ∷ rest else onto_first c rest

-- `trim_end_matches(['\r', '\n'])`
unfoldable pub trim_eol : List ℕ → List ℕ
unfolding is_empty
trim_eol [] = []
trim_eol (c ∷ cs) =
    let rest = trim_eol cs in if is_empty rest && (c == 13 || c == 10) then [] else c ∷ rest

-- The three writers, and how many rows there were.
pub record Writers : Type 0 where
  pub raw : RawWriter
  pub idx : BufWriter
  pub lines : BufWriter
  pub emitted : ℕ

-- `imported_ts`
unfoldable pub imported_ts : ℤ → DualTimestamp
imported_ts now = record {
  ts_origin_ns = now;
  ts_ingest_ns = now;
  mono_ns = 0;
  boot_id = 0;
  node_id = 0;
  clock_offset_ms = 0;
  clock_quality = NodeClockTable.imported;
  drift_ppm = 0;
  clock_source = Index.imported;
}

-- `row.get(i).cloned().unwrap_or_default()`
unfoldable pub get_or_default : List (List ℕ) → Option (List ℕ) → List ℕ
get_or_default row none = []
get_or_default row (some s) = s

-- `payload`
unfoldable pub payload_of : List (List ℕ) → Option ℕ → List ℕ
unfolding get_or_default join
payload_of row none = join row
payload_of row (some i) = get_or_default row (get_elem? row i)

-- `row.get(i)`, if there is such a column
unfoldable pub cell : List (List ℕ) → Option ℕ → Option (List ℕ)
cell row none = none
cell row (some i) = get_elem? row i

-- `if !l.is_empty() { entry.level = Some(l.clone()) }`
unfoldable pub filled : Option (List ℕ) → Option (List ℕ)
filled none = none
filled (some []) = none
filled (some (c ∷ cs)) = some (c ∷ cs)

abbrev pub is_some : Option ℕ → Bool
is_some none = false
is_some (some i) = true

-- `has_header`
unfoldable pub has_header : Columns → Bool
has_header cols = is_some cols.col_ts || (is_some cols.col_level || is_some cols.col_text)

module _ {V : Type 0} (io : Crates V) (parse_rfc3339_ns : List ℕ → Option ℤ)
    (as_bytes : List ℕ → List ℕ) (clock : ℕ → ℤ) (sid : ℕ) where
  -- `if let Some(ns) = parse_rfc3339_ns(s) { ts.ts_origin_ns = ns; }`
  abbrev pub stamped : Option (List ℕ) → DualTimestamp → DualTimestamp
  stamped none ts = ts
  stamped (some s) ts = elim (parse_rfc3339_ns s) [
    | none ↦ ts
    | some ns ↦ record ts { ts_origin_ns = ns }
  ]

  -- `if col_text.is_some()`: the line of the row
  abbrev pub emit_line : Option ℕ → DualTimestamp → Option (List ℕ) → List ℕ → BufWriter → BufWriter
  emit_line none ts level payload w = w
  emit_line (some i) ts level payload w =
      append_line io.line_to_string io.spill
        (record {
          ts = io.format_rfc3339_ns ts.ts_origin_ns;
          level = level;
          text = payload;
          correlation_id = none;
          tags = [];
        })
        w

  -- `emit_row`
  unfoldable pub emit_row : List (List ℕ) → Columns → Writers → Writers
  unfolding payload_of cell filled imported_ts
  emit_row row cols w =
      let payload = payload_of row cols.col_text in
      let bytes = as_bytes payload in
      let ((off, len), raw) = Raw.append (io.spill (w.raw.buffered ++ bytes)) bytes w.raw in
      let ts = stamped (cell row cols.col_ts) (imported_ts (clock w.emitted)) in
      let level = filled (cell row cols.col_level) in
      let entry =
        record (from_envelope io.format_rfc3339_ns ts sid Index.incoming Index.bytes off len) {
          level = level;
        } in
      record {
        raw = raw;
        idx = Index.append io.entry_to_string io.spill entry w.idx;
        lines = emit_line cols.col_text ts level payload w.lines;
        emitted = w.emitted + 1;
      }

  -- The loop over the rows behind the first.
  abbrev pub emit_line_of : List ℕ → Columns → Writers → Writers
  emit_line_of [] cols w = w
  emit_line_of (c ∷ cs) cols w = emit_row (parse_row (c ∷ cs)) cols w

  unfoldable pub import_loop : List (List ℕ) → Columns → Writers → Writers
  unfolding trim_eol
  import_loop [] cols w = w
  import_loop (line ∷ lines) cols w = import_loop lines cols (emit_line_of (trim_eol line) cols w)

  -- The first row is emitted whole if it is no header.
  unfoldable pub import_first : List (List ℕ) → Columns → Writers → Writers
  unfolding has_header emit_row
  import_first header cols w =
      if has_header cols
      then w
      else emit_row header (record { col_ts = none; col_level = none; col_text = none }) w

  -- The files after the last flush.
  unfoldable pub close_files : SessionDir → Writers → SessionDir
  close_files dst w = record dst {
    raw_bin = (Raw.flush w.raw).disk;
    index_jsonl = (BufWriter.flush w.idx).disk;
    lines_jsonl = (BufWriter.flush w.lines).disk;
  }

  unfoldable pub import_table : SessionDir → List (List ℕ) → Writers → SessionDir
  unfolding close_files import_first import_loop
  import_table dst [] w = dst
  import_table dst (first ∷ lines) w =
      let header = parse_row (trim_eol first) in
      let cols = locate_cols header in
      close_files dst (import_loop lines cols (import_first header cols w))

  -- `run`, on a table that can be read and a directory that can be written
  unfoldable pub run : List ℕ → SessionDir → SessionDir
  unfolding read_lines import_table
  run table dst = import_table dst (read_lines table) (record {
    raw = Raw.create dst.raw_bin;
    idx = BufWriter.new dst.index_jsonl;
    lines = BufWriter.new dst.lines_jsonl;
    emitted = 0;
  })
