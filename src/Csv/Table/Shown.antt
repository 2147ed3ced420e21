-- ===== src/Csv/Table/Shown.antt =====
-- The table that csv.rs writes for rows that can each be shown on a line.
use tracemux.Prelude.{
  ℕ, ◌≡◌, refl, sym, ap, ◌∙◌, List, [], ◌∷◌, ◌++◌, Option, All, append-nil, append_assoc,
}
use tracemux.Error.{ok, ◌>>=◌}
use tracemux.Log.Index
use tracemux.Log.Index.{Dir, incoming, outgoing, Kind, IndexEntry}
use tracemux.Exporter.Timestamp.{UtcOffset, format_rfc3339_in_timezone}
use tracemux.Exporter.Rows.Replay.{render}
use tracemux.Csv.{needs_quotes}
use tracemux.Csv.Row.{row}
use tracemux.Csv.Export.{dir_str, kind_str, len_digits, csv_row}
use tracemux.Csv.Table.{NoEol, IsPlain, IsPlain-NoEol, decimal-IsPlain, row-NoEol, line-row}

dir_str-IsPlain : (d : Dir) → IsPlain (dir_str d)
unfolding dir_str needs_quotes
dir_str-IsPlain incoming = refl
dir_str-IsPlain outgoing = refl

kind_str-IsPlain : (k : Kind) → IsPlain (kind_str k)
unfolding kind_str needs_quotes
kind_str-IsPlain Index.bytes = refl
kind_str-IsPlain Index.datagram = refl
kind_str-IsPlain Index.frame = refl
kind_str-IsPlain Index.decoded = refl

module _ (decode : List ℕ → List ℕ) (convert : UtcOffset → List ℕ → Option (List ℕ))
    (tz : Option UtcOffset) (shown : List ℕ → List ℕ) where
  -- A row that can be shown on one line: its instants are `shown` in the timezone without commas,
  -- quotation marks and line ends, and its text has no line ends.
  abbrev pub IsTabular : IndexEntry × List ℕ → Type 0
  IsTabular (e, bytes) =
      (format_rfc3339_in_timezone convert tz e.ts_origin ≡ ok (shown e.ts_origin))
      × (format_rfc3339_in_timezone convert tz e.ts_ingest ≡ ok (shown e.ts_ingest))
      × IsPlain (shown e.ts_origin)
      × IsPlain (shown e.ts_ingest)
      × NoEol (decode bytes)

  -- The five fields in front of the text.
  abbrev pub others : IndexEntry → List (List ℕ)
  others e = shown e.ts_ingest ∷ dir_str e.dir ∷ kind_str e.kind ∷ len_digits e.len ∷ []

  abbrev pub cells : IndexEntry × List ℕ → List (List ℕ)
  cells (e, bytes) = shown e.ts_origin ∷ (others e ++ (decode bytes ∷ []))

  abbrev pub table_line : IndexEntry × List ℕ → List ℕ
  table_line (e, bytes) = row (shown e.ts_origin) (others e ++ (decode bytes ∷ []))

  abbrev pub table : List (IndexEntry × List ℕ) → List ℕ
  table [] = []
  table (r ∷ rs) = table_line r ++ (10 ∷ table rs)

  others-IsPlain : (e : IndexEntry) → IsPlain (shown e.ts_ingest) → All IsPlain (others e)
  others-IsPlain e h =
      (h, (dir_str-IsPlain e.dir, (kind_str-IsPlain e.kind, (decimal-IsPlain 10 e.len, tt))))

  pub table_line-NoEol : (r : IndexEntry × List ℕ) → IsTabular r → NoEol (table_line r)
  table_line-NoEol (e, bytes) (_, _, p, q, t) =
      let (i, (d, (k, (n, u)))) = others-IsPlain e q in
      row-NoEol (shown e.ts_origin) (others e ++ (decode bytes ∷ []))
        (IsPlain-NoEol (shown e.ts_origin) p)
        (
          IsPlain-NoEol (shown e.ts_ingest) i,
          (
            IsPlain-NoEol (dir_str e.dir) d,
            (IsPlain-NoEol (kind_str e.kind) k, (IsPlain-NoEol (len_digits e.len) n, (t, tt))),
          ),
        )

  csv_row-table_line :
      (from_str : List ℕ → Option IndexEntry) (e : IndexEntry) (bytes : List ℕ)
      → IsTabular (e, bytes)
      → csv_row from_str decode convert tz e bytes ≡ ok (table_line (e, bytes) ++ (10 ∷ []))
  unfolding csv_row
  csv_row-table_line from_str e bytes (a, b, p, q, t) =
      rw (a, b)
        (ap (λ xs. ok (xs ++ (10 ∷ [])))
          (line-row (shown e.ts_origin) (others e) (decode bytes) p (others-IsPlain e q)))

  -- What the exporter writes for the rows.
  pub render-table :
      (from_str : List ℕ → Option IndexEntry) (rows : List (IndexEntry × List ℕ)) (out : List ℕ)
      → All IsTabular rows
      → render (csv_row from_str decode convert tz) rows out ≡ ok (out ++ table rows)
  unfolding render
  render-table from_str [] out h = ap ok (sym (append-nil out))
  render-table from_str ((e, bytes) ∷ rs) out h =
      ap (λ r. r >>= λ text. render (csv_row from_str decode convert tz) rs (out ++ text))
        (csv_row-table_line from_str e bytes h.0)
      ∙ render-table from_str rs (out ++ (table_line (e, bytes) ++ (10 ∷ []))) h.1
      ∙ ap ok (
          append_assoc out (table_line (e, bytes) ++ (10 ∷ [])) (table rs)
          ∙ ap (λ xs. out ++ xs) (append_assoc (table_line (e, bytes)) (10 ∷ []) (table rs)))
