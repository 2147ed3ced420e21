-- ===== src/Csv/Export.antt =====
-- `run` of crates/core/src/exporter/csv.rs: the export of a session as a table.
use tracemux.Prelude.{ℕ, List, [], ◌∷◌, ◌++◌, Option}
use tracemux.Error.{Result, ok, ◌>>=◌}
use tracemux.Log.Index
use tracemux.Log.Index.{Dir, incoming, outgoing, Kind, IndexEntry}
use tracemux.Log.Session.{SessionDir}
use tracemux.Exporter.Rows.{buf_lines, export_loop}
use tracemux.Exporter.Timestamp.{UtcOffset, format_rfc3339_in_timezone}
use tracemux.Csv.{quote, join}
use tracemux.Export.Names.{decimal}

-- `kind_str(&entry, "dir")` and `kind_str(&entry, "kind")`
unfoldable pub dir_str : Dir → List ℕ
dir_str incoming = 105 ∷ 110 ∷ []
dir_str outgoing = 111 ∷ 117 ∷ 116 ∷ []

unfoldable pub kind_str : Kind → List ℕ
kind_str Index.bytes = 98 ∷ 121 ∷ 116 ∷ 101 ∷ 115 ∷ []
kind_str Index.datagram = 100 ∷ 97 ∷ 116 ∷ 97 ∷ 103 ∷ 114 ∷ 97 ∷ 109 ∷ []
kind_str Index.frame = 102 ∷ 114 ∷ 97 ∷ 109 ∷ 101 ∷ []
kind_str Index.decoded = 114 ∷ 101 ∷ 99 ∷ 111 ∷ 114 ∷ 100 ∷ []

-- ts_origin,ts_ingest,dir,kind,len,text
abbrev pub header : List ℕ
header =
    116 ∷ 115 ∷ 95 ∷ 111 ∷ 114 ∷ 105 ∷ 103 ∷ 105 ∷ 110 ∷ 44 ∷ 116 ∷ 115 ∷ 95 ∷ 105 ∷ 110 ∷ 103 ∷ 101
    ∷ 115 ∷ 116 ∷ 44 ∷ 100 ∷ 105 ∷ 114 ∷ 44 ∷ 107 ∷ 105 ∷ 110 ∷ 100 ∷ 44 ∷ 108 ∷ 101 ∷ 110 ∷ 44
    ∷ 116 ∷ 101 ∷ 120 ∷ 116 ∷ []

-- The digits of a number below 2 ^ 32.
abbrev pub len_digits : ℕ → List ℕ
len_digits n = decimal 10 n

module _ (from_str : List ℕ → Option IndexEntry) (decode : List ℕ → List ℕ)
    (convert : UtcOffset → List ℕ → Option (List ℕ)) where
  -- The table row of a row of the index: two instants, direction, kind, length and text.
  unfoldable pub csv_row : Option UtcOffset → IndexEntry → List ℕ → Result (List ℕ)
  unfolding dir_str kind_str
  csv_row timezone entry bytes = do
    ts_origin ← format_rfc3339_in_timezone convert timezone entry.ts_origin
    ts_ingest ← format_rfc3339_in_timezone convert timezone entry.ts_ingest
    ok (
        join (
          ts_origin
          ∷ ts_ingest
          ∷ dir_str entry.dir
          ∷ kind_str entry.kind
          ∷ len_digits entry.len
          ∷ quote (decode bytes)
          ∷ [])
        ++ (10 ∷ []))

  -- `run`, on a directory that can be read
  unfoldable pub run : Option UtcOffset → SessionDir → Result (List ℕ)
  run timezone dir =
      export_loop from_str (csv_row timezone) dir.raw_bin (buf_lines dir.index_jsonl)
        (header ++ (10 ∷ []))
