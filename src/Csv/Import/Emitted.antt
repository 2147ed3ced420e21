-- ===== src/Csv/Import/Emitted.antt =====
-- What the rows of a table with a column of texts become in the files of a session.
use tracemux.Prelude.{
  ℕ, ◌+◌, ◌-◌, ◌^◌, ◌<◌, ◌≡◌, refl, sym, ap, ap₂, ◌∙◌, List, [], ◌∷◌, ◌++◌, Option, none, some,
  length, min, All, append-nil, append_assoc, length-append, get_elem?, arith,
}
use tracemux.Prelude.Ints.{ℤ}
use tracemux.Log.Raw
use tracemux.Log.Raw.Offsets.{content, content-append}
use tracemux.Log.BufWriter
use tracemux.Log.BufWriter.{BufWriter, flush-write_all}
use tracemux.Log.Index
use tracemux.Log.Index.{IndexEntry, from_envelope, flush-append}
use tracemux.Log.Lines.{LineEntry, append_line}
use tracemux.Log.Session.{Crates}
use tracemux.Log.Session.Rows.{payloads, index_text}
use tracemux.Csv.{Columns}
use tracemux.Csv.Import.{Writers, imported_ts, emit_row}

-- The table has a column of texts, the sixth, and no other that is looked at.
abbrev pub text_column : Columns
text_column = record { col_ts = none; col_level = none; col_text = some 5 }

flush-append_line :
    (to_string : LineEntry → List ℕ) (spill : List ℕ → ℕ) (e : LineEntry) (w : BufWriter)
    → (BufWriter.flush (append_line to_string spill e w)).disk
      ≡ (BufWriter.flush w).disk ++ (to_string e ++ (10 ∷ []))
unfolding append_line
flush-append_line to_string spill e w =
    flush-write_all spill (10 ∷ []) (BufWriter.write_all spill (to_string e) w)
    ∙ ap (λ xs. xs ++ (10 ∷ [])) (flush-write_all spill (to_string e) w)
    ∙ append_assoc (BufWriter.flush w).disk (to_string e) (10 ∷ [])

line_joined : (xs l rest : List ℕ) → (xs ++ (l ++ (10 ∷ []))) ++ rest ≡ xs ++ (l ++ (10 ∷ rest))
line_joined xs l rest =
    append_assoc xs (l ++ (10 ∷ [])) rest ∙ ap (λ ys. xs ++ ys) (append_assoc l (10 ∷ []) rest)

module _ {V : Type 0} (io : Crates V) (parse_rfc3339_ns : List ℕ → Option ℤ)
    (as_bytes : List ℕ → List ℕ) (clock : ℕ → ℤ) (sid : ℕ) where
  -- The rows and the lines that texts become, from a row number and an offset on.
  unfoldable pub imported : ℕ → ℕ → List (List ℕ) → List (IndexEntry × List ℕ)
  imported n off [] = []
  imported n off (t ∷ ts) =
      (
        from_envelope io.format_rfc3339_ns (imported_ts (clock n)) sid Index.incoming Index.bytes
            off (length (as_bytes t)),
        as_bytes t,
      )
      ∷ imported (n + 1) (off + length (as_bytes t)) ts

  unfoldable pub imported_lines : ℕ → List (List ℕ) → List ℕ
  imported_lines n [] = []
  imported_lines n (t ∷ ts) =
      io.line_to_string (record {
        ts = io.format_rfc3339_ns (clock n);
        level = none;
        text = t;
        correlation_id = none;
        tags = [];
      })
      ++ (10 ∷ imported_lines (n + 1) ts)

  -- What the writers have put down, with the next offset and the next row.
  pub record Has (w : Writers) (off n : ℕ) (raw index lines : List ℕ) : Type 0 where
    pub raw_is : content w.raw ≡ raw
    pub index_is : (BufWriter.flush w.idx).disk ≡ index
    pub lines_are : (BufWriter.flush w.lines).disk ≡ lines
    pub placed : w.raw.pos ≡ off
    pub counted : w.emitted ≡ n

  abbrev line_at : ℕ → List ℕ → LineEntry
  line_at n t = record {
    ts = io.format_rfc3339_ns (clock n);
    level = none;
    text = t;
    correlation_id = none;
    tags = [];
  }

  abbrev entry_at : ℕ → ℕ → ℕ → IndexEntry
  entry_at n off len =
      from_envelope io.format_rfc3339_ns (imported_ts (clock n)) sid Index.incoming Index.bytes off
        len

  -- A row whose sixth cell is a text.
  emit_row-text :
      (row : List (List ℕ)) (t : List ℕ) (w : Writers)
      → get_elem? row 5 ≡ some t
      → emit_row io parse_rfc3339_ns as_bytes clock sid row text_column w ≡ record {
        raw = (Raw.append (io.spill (w.raw.buffered ++ as_bytes t)) (as_bytes t) w.raw).1;
        idx =
            Index.append io.entry_to_string io.spill
              (entry_at w.emitted w.raw.pos (min (length (as_bytes t)) (2 ^ 32 - 1)))
              w.idx;
        lines = append_line io.line_to_string io.spill (line_at w.emitted t) w.lines;
        emitted = w.emitted + 1;
      }
  unfolding emit_row Raw.append from_envelope
  emit_row-text row t w h = rw h refl

  emit_row-Has :
      (row : List (List ℕ)) (t : List ℕ) (w : Writers) (off n : ℕ) (raw index lines : List ℕ)
      → get_elem? row 5 ≡ some t
      → Has w off n raw index lines
      → length (as_bytes t) < 2 ^ 32
      → off + length (as_bytes t) < 2 ^ 64
      → Has
          (emit_row io parse_rfc3339_ns as_bytes clock sid row text_column w)
          (off + length (as_bytes t))
          (n + 1)
          (raw ++ as_bytes t)
          (index ++ (io.entry_to_string (entry_at n off (length (as_bytes t))) ++ (10 ∷ [])))
          (lines ++ (io.line_to_string (line_at n t) ++ (10 ∷ [])))
  emit_row-Has row t w off n raw index lines six h small room =
      rw (emit_row-text row t w six) (record {
        raw_is =
            content-append (io.spill (w.raw.buffered ++ as_bytes t)) (as_bytes t) w.raw
            ∙ ap (λ xs. xs ++ as_bytes t) h.raw_is;
        index_is =
            flush-append io.entry_to_string io.spill (entry_at w.emitted w.raw.pos len) w.idx
            ∙ ap₂ (λ xs e. xs ++ (io.entry_to_string e ++ (10 ∷ []))) h.index_is same_entry;
        lines_are =
            flush-append_line io.line_to_string io.spill (line_at w.emitted t) w.lines
            ∙ ap₂ (λ xs k. xs ++ (io.line_to_string (line_at k t) ++ (10 ∷ []))) h.lines_are
                h.counted;
        placed = next w.raw h.placed;
        counted = ap (λ (k : ℕ). k + 1) h.counted;
      })
    where
      len : ℕ
      len = min (length (as_bytes t)) (2 ^ 32 - 1)

      same_entry : entry_at w.emitted w.raw.pos len ≡ entry_at n off (length (as_bytes t))
      same_entry =
          let full : len ≡ length (as_bytes t) = omega arith in
          ap₂ (λ k p. entry_at k p len) h.counted h.placed ∙ ap (entry_at n off) full

      next :
          (r : Raw.RawWriter)
          → r.pos ≡ off
          → (Raw.append (io.spill (r.buffered ++ as_bytes t)) (as_bytes t) r).1.pos
            ≡ off + length (as_bytes t)
      next r e = unfold Raw.append in omega arith

  -- All the rows of texts.
  abbrev pub emit_rows : List (List (List ℕ)) → Writers → Writers
  emit_rows [] w = w
  emit_rows (row ∷ rows) w =
      emit_rows rows (emit_row io parse_rfc3339_ns as_bytes clock sid row text_column w)

  -- The sixth cells of rows.
  abbrev pub Sixth : List (List (List ℕ)) → List (List ℕ) → Type 0
  Sixth [] [] = Unit
  Sixth [] (t ∷ ts) = ⊥
  Sixth (row ∷ rows) [] = ⊥
  Sixth (row ∷ rows) (t ∷ ts) = (get_elem? row 5 ≡ some t) × Sixth rows ts

  -- Bytes that can be counted.
  abbrev pub AreShort : List (List ℕ) → Type 0
  AreShort = All (λ t. length (as_bytes t) < 2 ^ 32)

  pub emit_rows-Has :
      (rows : List (List (List ℕ))) (ts : List (List ℕ)) (w : Writers) (off n : ℕ)
      (raw index lines : List ℕ)
      → Sixth rows ts
      → Has w off n raw index lines
      → AreShort ts
      → off + length (payloads (imported n off ts)) < 2 ^ 64
      → let w' = emit_rows rows w in
        (content w'.raw ≡ raw ++ payloads (imported n off ts))
        × ((BufWriter.flush w'.idx).disk ≡ index ++ index_text io (imported n off ts))
        × ((BufWriter.flush w'.lines).disk ≡ lines ++ imported_lines n ts)
  unfolding imported imported_lines
  emit_rows-Has [] [] w off n raw index lines six h short room = (
    h.raw_is ∙ sym (append-nil raw),
    h.index_is ∙ sym (append-nil index),
    h.lines_are ∙ sym (append-nil lines),
  )
  emit_rows-Has [] (t ∷ ts) w off n raw index lines six h short room = elim six [ ]
  emit_rows-Has (row ∷ rows) [] w off n raw index lines six h short room = elim six [ ]
  emit_rows-Has (row ∷ rows) (t ∷ ts) w off n raw index lines six h short room =
      let off' = off + length (as_bytes t) in
      let rest = imported (n + 1) off' ts in
      let all = length-append (as_bytes t) (payloads rest) in
      let e = io.entry_to_string (entry_at n off (length (as_bytes t))) in
      let l = io.line_to_string (line_at n t) in
      let (r, i, k) =
        emit_rows-Has rows ts (emit_row io parse_rfc3339_ns as_bytes clock sid row text_column w)
          off' (n + 1) (raw ++ as_bytes t) (index ++ (e ++ (10 ∷ []))) (lines ++ (l ++ (10 ∷ [])))
          six.1 (emit_row-Has row t w off n raw index lines six.0 h short.0 (omega (arith, all)))
          short.1 (omega (arith, all)) in
      (
        r ∙ append_assoc raw (as_bytes t) (payloads rest),
        i ∙ line_joined index e (index_text io rest),
        k ∙ line_joined lines l (imported_lines (n + 1) ts),
      )
