-- ===== src/Csv/Table/Transfer.antt =====
-- A session that is exported as a table by csv.rs and imported again.
use tracemux.Prelude.{
  ℕ, ◌+◌, ◌^◌, ◌<◌, ◌≡◌, refl, sym, ap, ◌∙◌, List, [], ◌∷◌, ◌++◌, Option, length, map, All,
  append_assoc, subst, arith,
}
use tracemux.Prelude.Ints.{ℤ}
use tracemux.Error.{ok}
use tracemux.Log.Raw
use tracemux.Log.BufWriter
use tracemux.Log.Index.{IndexEntry}
use tracemux.Log.Session.{Crates}
use tracemux.Log.Session.Rows.{
  Call, raws, records, commits, closes, reopens, Labels, logged, payloads, index_text,
}
use tracemux.Exporter.Timestamp.{UtcOffset}
use tracemux.Exporter.Rows.Written.{no_files, session, IsWritable, export_loop-session}
use tracemux.Csv.{comma, quote, parse_row, parse_loop, locate_cols, locate_loop}
use tracemux.Csv.Row.{row, parse_row-row}
use tracemux.Csv.Export
use tracemux.Csv.Export.{dir_str, kind_str, header, len_digits, csv_row}
use tracemux.Csv.Import
use tracemux.Csv.Import.{
  read_lines, trim_eol, Writers, emit_row, emit_line_of, import_loop, import_first, import_table,
  close_files,
}
use tracemux.Csv.Import.Emitted.{
  text_column, imported, imported_lines, emit_rows, Sixth, AreShort, emit_rows-Has,
}
use tracemux.Csv.Table.{NoEol, read_lines-append, trim_eol-append}
use tracemux.Csv.Table.Shown.{
  IsTabular, others, cells, table_line, table, table_line-NoEol, render-table,
}

module _ (decode : List ℕ → List ℕ) (convert : UtcOffset → List ℕ → Option (List ℕ))
    (tz : Option UtcOffset) (shown : List ℕ → List ℕ) {V : Type 0} (io : Crates V)
    (parse_rfc3339_ns : List ℕ → Option ℤ) (as_bytes : List ℕ → List ℕ) (clock : ℕ → ℤ)
    (sid : ℕ) where
  emit_full :
      (l xs ys : List ℕ) (w : Writers)
      → l ≡ xs ++ (comma ∷ ys)
      → emit_line_of io parse_rfc3339_ns as_bytes clock sid l text_column w
        ≡ emit_row io parse_rfc3339_ns as_bytes clock sid (parse_row l) text_column w
  emit_full [] [] ys w e = absurd (omega (arith, ap (λ (l : List ℕ). length l) e))
  emit_full [] (x ∷ xs) ys w e = absurd (omega (arith, ap (λ (l : List ℕ). length l) e))
  emit_full (c ∷ l) xs ys w e = refl

  -- The importer emits the cells of every row.
  import_loop-table :
      (rows : List (IndexEntry × List ℕ)) (w : Writers)
      → All (IsTabular decode convert tz shown) rows
      → import_loop io parse_rfc3339_ns as_bytes clock sid
          (read_lines ((table decode convert tz shown) rows))
          text_column
          w
        ≡ emit_rows io parse_rfc3339_ns as_bytes clock sid
            (map (cells decode convert tz shown) rows)
            w
  unfolding import_loop
  import_loop-table [] w h = unfold read_lines in refl
  import_loop-table ((e, bytes) ∷ rs) w h =
      let l = (table_line decode convert tz shown) (e, bytes) in
      let fs = (others decode convert tz shown) e ++ (decode bytes ∷ []) in
      let go = import_loop io parse_rfc3339_ns as_bytes clock sid in
      let w' =
        emit_row io parse_rfc3339_ns as_bytes clock sid ((cells decode convert tz shown) (e, bytes))
          text_column w in
      ap (λ ls. go ls text_column w)
        (read_lines-append l ((table decode convert tz shown) rs)
          ((table_line-NoEol decode convert tz shown) (e, bytes) h.0))
      ∙ ap
          (λ k.
            go (read_lines ((table decode convert tz shown) rs)) text_column
              (emit_line_of io parse_rfc3339_ns as_bytes clock sid k text_column w))
          (trim_eol-append l ((table_line-NoEol decode convert tz shown) (e, bytes) h.0))
      ∙ ap (λ v. go (read_lines ((table decode convert tz shown) rs)) text_column v)
          (emit_full l (quote (shown e.ts_origin))
              (row (shown e.ts_ingest)
                (dir_str e.dir ∷ kind_str e.kind ∷ len_digits e.len ∷ decode bytes ∷ []))
              w refl
            ∙ ap (λ r. emit_row io parse_rfc3339_ns as_bytes clock sid r text_column w)
                (parse_row-row (shown e.ts_origin) fs))
      ∙ import_loop-table rs w' h.1

  -- The texts of the rows.
  abbrev pub texts : List (IndexEntry × List ℕ) → List (List ℕ)
  texts [] = []
  texts ((e, bytes) ∷ rs) = decode bytes ∷ texts rs

  sixth :
      (rows : List (IndexEntry × List ℕ))
      → Sixth io parse_rfc3339_ns as_bytes clock sid
          (map (cells decode convert tz shown) rows)
          (texts rows)
  sixth [] = tt
  sixth ((e, bytes) ∷ rs) = (refl, sixth rs)

  header-NoEol : NoEol header
  header-NoEol = omega arith

  columns :
      (rows : List ℕ) → read_lines (header ++ (10 ∷ rows)) ≡ (header ++ (10 ∷ [])) ∷ read_lines rows
  columns rows = read_lines-append header rows header-NoEol

  header_columns : locate_cols (parse_row (trim_eol (header ++ (10 ∷ [])))) ≡ text_column
  unfolding trim_eol locate_cols parse_row locate_loop parse_loop
  header_columns = refl

  -- The files of an import into an empty directory, from the writers.
  start : Writers
  unfolding Raw.create BufWriter.new
  start = record {
    raw = Raw.create [];
    idx = BufWriter.new [];
    lines = BufWriter.new [];
    emitted = 0;
  }

  run-table :
      (rows : List (IndexEntry × List ℕ))
      → All (IsTabular decode convert tz shown) rows
      → Import.run io parse_rfc3339_ns as_bytes clock sid
          (header ++ (10 ∷ (table decode convert tz shown) rows))
          no_files
        ≡ close_files io parse_rfc3339_ns as_bytes clock sid no_files (
            emit_rows io parse_rfc3339_ns as_bytes clock sid
              (map (cells decode convert tz shown) rows)
              start)
  unfolding Import.run import_table import_first start
  run-table rows h =
      ap (λ ls. import_table io parse_rfc3339_ns as_bytes clock sid no_files ls start)
        (columns ((table decode convert tz shown) rows))
      ∙ ap
          (λ cols. close_files io parse_rfc3339_ns as_bytes clock sid no_files (
            import_loop io parse_rfc3339_ns as_bytes clock sid
              (read_lines ((table decode convert tz shown) rows)) cols
              (import_first io parse_rfc3339_ns as_bytes clock sid
                (parse_row (trim_eol (header ++ (10 ∷ [])))) cols start)))
          header_columns
      ∙ ap (close_files io parse_rfc3339_ns as_bytes clock sid no_files)
          (import_loop-table rows start h)

  -- What the chunks that were logged say.
  unfoldable pub sent : List (Call V) → List (List ℕ)
  sent [] = []
  sent (raws ts dir payload ∷ cs) = decode payload ∷ sent cs
  sent (records ts r ∷ cs) = sent cs
  sent (commits ∷ cs) = sent cs
  sent (closes ∷ cs) = sent cs
  sent (reopens id source host decoder ∷ cs) = sent cs

  texts-logged : (cs : List (Call V)) (l : Labels) (off : ℕ) → texts (logged io l off cs) ≡ sent cs
  unfolding logged sent
  texts-logged [] l off = refl
  texts-logged (raws ts dir payload ∷ cs) l off =
      ap (λ ts. decode payload ∷ ts) (texts-logged cs l (off + length payload))
  texts-logged (records ts r ∷ cs) l off = texts-logged cs l off
  texts-logged (commits ∷ cs) l off = texts-logged cs l off
  texts-logged (closes ∷ cs) l off = texts-logged cs l off
  texts-logged (reopens id source host decoder ∷ cs) l off =
      texts-logged cs (record { sid = id; source = source; host = host }) off

  -- What an import leaves of texts.
  abbrev pub HoldsTexts : List (List ℕ) → List ℕ → Type 0
  HoldsTexts ts tbl =
      let dir = Import.run io parse_rfc3339_ns as_bytes clock sid tbl no_files in
      let rows = imported io parse_rfc3339_ns as_bytes clock sid 0 0 ts in
      (dir.raw_bin ≡ payloads rows)
      × (dir.index_jsonl ≡ index_text io rows)
      × (dir.lines_jsonl ≡ imported_lines io parse_rfc3339_ns as_bytes clock sid 0 ts)

  run-texts :
      (rows : List (IndexEntry × List ℕ))
      → All (IsTabular decode convert tz shown) rows
      → AreShort io parse_rfc3339_ns as_bytes clock sid (texts rows)
      → length (payloads (imported io parse_rfc3339_ns as_bytes clock sid 0 0 (texts rows)))
        < 2 ^ 64
      → HoldsTexts (texts rows) (header ++ (10 ∷ (table decode convert tz shown) rows))
  unfolding start close_files Raw.flush BufWriter.flush
  run-texts rows h short room =
      let (r, i, k) =
        emit_rows-Has io parse_rfc3339_ns as_bytes clock sid
          (map (cells decode convert tz shown) rows) (texts rows) start 0 0 [] [] [] (sixth rows)
          (record {
            raw_is = refl;
            index_is = refl;
            lines_are = refl;
            placed = refl;
            counted = refl;
          })
          short (omega (arith, room)) in
      (
        ap (λ d. d.raw_bin) (run-table rows h) ∙ r,
        ap (λ d. d.index_jsonl) (run-table rows h) ∙ i,
        ap (λ d. d.lines_jsonl) (run-table rows h) ∙ k,
      )

  -- A session whose rows can be written down, whose instants are shown without commas, quotation marks
  -- and line ends and whose texts have no line ends: its export as a table succeeds, and importing
  -- the table into an empty directory leaves the bytes of the texts in raw.bin, in order, a row in
  -- the index for each that names its bytes, and a line with each text, as long as the texts are
  -- shorter than 2 ^ 32 bytes each and 2 ^ 64 together. The instants do not come along: the importer
  -- does not know the columns ts_origin and ts_ingest, and every row has that of its import.
  pub import-export :
      (from_str : List ℕ → Option IndexEntry) (cs : List (Call V)) (id : ℕ)
      (source host : Option (List ℕ)) (decoder : List ℕ)
      → let rows = logged io (record { sid = id; source = source; host = host }) 0 cs in
        IsWritable io from_str rows
        → All (IsTabular decode convert tz shown) rows
        → AreShort io parse_rfc3339_ns as_bytes clock sid (sent cs)
        → length (payloads (imported io parse_rfc3339_ns as_bytes clock sid 0 0 (sent cs))) < 2 ^ 64
        → (tbl : List ℕ) × (Export.run from_str decode convert tz
              (session io from_str cs id source host decoder)
            ≡ ok tbl)
          × HoldsTexts (sent cs) tbl
  unfolding Export.run
  import-export from_str cs id source host decoder w h short room =
      let l : Labels = record { sid = id; source = source; host = host } in
      let rows = logged io l 0 cs in
      (
        header ++ (10 ∷ (table decode convert tz shown) rows),
        export_loop-session io from_str (csv_row from_str decode convert tz) cs id source host
              decoder (header ++ (10 ∷ [])) w
            ∙ (render-table decode convert tz shown) from_str rows (header ++ (10 ∷ [])) h
            ∙ ap ok (append_assoc header (10 ∷ []) ((table decode convert tz shown) rows)),
        subst (λ ts. HoldsTexts ts (header ++ (10 ∷ (table decode convert tz shown) rows)))
            (texts-logged cs l 0)
            (run-texts rows h
              (subst (λ ts. AreShort io parse_rfc3339_ns as_bytes clock sid ts)
                (sym (texts-logged cs l 0)) short)
              (subst
                (λ ts.
                  length (payloads (imported io parse_rfc3339_ns as_bytes clock sid 0 0 ts))
                  < 2 ^ 64)
                (sym (texts-logged cs l 0)) room)),
      )
