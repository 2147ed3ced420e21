-- ===== src/Exporter/Rows/Replay.antt =====
-- The loop of the exporters, on a directory that the sink of file.rs wrote.
use tracemux.Prelude.{ℕ, ◌≡◌, ◌≢◌, refl, ap, ◌∙◌, List, [], ◌∷◌, ◌++◌, Option, some, All, arith}
use tracemux.Error.{Result, ok, err, ◌>>=◌}
use tracemux.Log.Raw.{read_at}
use tracemux.Log.Index.{IndexEntry}
use tracemux.Exporter.Rows.{buf_lines, from_bytes, from_entry, export_line, export_loop}

-- A printed row is a line: it has characters, and none of them ends it.
abbrev pub IsLine : List ℕ → Type 0
IsLine [] = ⊥
IsLine (b ∷ bs) = All (λ c. (c ≢ 10) × (c ≢ 13)) (b ∷ bs)

pub buf_lines-append :
    (l rest : List ℕ)
    → All (λ c. (c ≢ 10) × (c ≢ 13)) l
    → buf_lines (l ++ (10 ∷ rest)) ≡ l ∷ buf_lines rest
unfolding buf_lines
buf_lines-append [] rest h = refl
buf_lines-append (b ∷ l) rest h = ground (arith, buf_lines-append l rest h.1, h.0.0, h.0.1)

-- What an exporter makes of rows and their bytes.
unfoldable pub render :
    (IndexEntry → List ℕ → Result (List ℕ)) → List (IndexEntry × List ℕ) → List ℕ → Result (List ℕ)
render row [] out = ok out
render row ((e, bytes) ∷ rs) out = row e bytes >>= λ text. render row rs (out ++ text)

module _ (from_str : List ℕ → Option IndexEntry) (to_string : IndexEntry → List ℕ) where
  -- A row that is printed as a line and read back.
  abbrev pub IsPrinted : IndexEntry × List ℕ → Type 0
  IsPrinted (e, bytes) = IsLine (to_string e) × (from_str (to_string e) ≡ some e)

  -- The bytes of a row are found where it says.
  abbrev pub IsStored : List ℕ → IndexEntry × List ℕ → Type 0
  IsStored raw (e, bytes) = read_at e.off e.len raw ≡ some bytes

  abbrev pub printed : List (IndexEntry × List ℕ) → List ℕ
  printed [] = []
  printed ((e, p) ∷ rs) = to_string e ++ (10 ∷ printed rs)

  export_line_row :
      (row : IndexEntry → List ℕ → Result (List ℕ)) (raw : List ℕ) (e : IndexEntry)
      (bytes l : List ℕ)
      → IsLine l
      → from_str l ≡ some e
      → read_at e.off e.len raw ≡ some bytes
      → export_line from_str row raw l ≡ row e bytes
  unfolding export_line
  export_line_row row raw e bytes [] line back stored = elim line [ ]
  export_line_row row raw e bytes (b ∷ bs) line back stored =
      ap (from_entry from_str row raw) back ∙ ap (from_bytes from_str row e) stored

  line_of : (l : List ℕ) → IsLine l → All (λ c. (c ≢ 10) × (c ≢ 13)) l
  line_of [] h = tt
  line_of (b ∷ bs) h = h

  -- The loop over printed rows makes of each what the exporter makes of it, and stops at the first
  -- that it refuses.
  pub export_loop_rows :
      (row : IndexEntry → List ℕ → Result (List ℕ)) (raw : List ℕ)
      (rows : List (IndexEntry × List ℕ)) (out : List ℕ)
      → All IsPrinted rows
      → All (IsStored raw) rows
      → export_loop from_str row raw (buf_lines (printed rows)) out ≡ render row rows out
  unfolding export_loop render
  export_loop_rows row raw [] out h k = unfold buf_lines in refl
  export_loop_rows row raw ((e, bytes) ∷ rs) out h k =
      ap (λ ls. export_loop from_str row raw ls out)
        (buf_lines-append (to_string e) (printed rs) (line_of (to_string e) h.0.0))
      ∙ ap (λ r. r >>= λ text. export_loop from_str row raw (buf_lines (printed rs)) (out ++ text))
          (export_line_row row raw e bytes (to_string e) h.0.0 h.0.1 k.0)
      ∙ go_on (row e bytes) (λ text. export_loop_rows row raw rs (out ++ text) h.1 k.1)
    where
      go_on :
          (r : Result (List ℕ))
          → ((text : List ℕ)
              → export_loop from_str row raw (buf_lines (printed rs)) (out ++ text)
                ≡ render row rs (out ++ text))
          → (r >>= λ text. export_loop from_str row raw (buf_lines (printed rs)) (out ++ text))
            ≡ (r >>= λ text. render row rs (out ++ text))
      go_on (ok text) later = later text
      go_on (err e) later = refl
