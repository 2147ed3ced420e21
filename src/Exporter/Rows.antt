-- ===== src/Exporter/Rows.antt =====
-- The loop that the exporters of crates/core/src/exporter share: they go through the lines of
-- index.jsonl and write what they make of each row and its bytes in raw.bin. Reading a row from a
-- line is a call of serde_json, the parameter `from_str`. What an export writes is its result; a file
-- that is left behind by an error is not looked at.
pub mod Replay
pub mod Written
use tracemux.Prelude.{
  ℕ, List, [], ◌∷◌, ◌++◌, Option, none, some, Bool, true, false, ◌&&◌, ◌==◌, if◌then◌else◌,
}
use tracemux.Error.{Result, ok, err, ◌>>=◌, pipeline_generic}
use tracemux.Log.Raw.{read_at}
use tracemux.Log.Index.{IndexEntry}

-- `BufRead::lines`: a line ends at a line feed, and a carriage return in front of that belongs to it;
-- after the last line feed there is a line only if there are bytes.
unfoldable pub starts_with_lf : List ℕ → Bool
starts_with_lf [] = false
starts_with_lf (b ∷ bs) = b == 10

abbrev pub onto_first : ℕ → List (List ℕ) → List (List ℕ)
onto_first b [] = (b ∷ []) ∷ []
onto_first b (l ∷ ls) = (b ∷ l) ∷ ls

unfoldable pub buf_lines : List ℕ → List (List ℕ)
unfolding starts_with_lf
buf_lines [] = []
buf_lines (b ∷ bs) =
    let rest = buf_lines bs in
    if b == 10 then [] ∷ rest else if b == 13 && starts_with_lf bs then rest else onto_first b rest

module _ (from_str : List ℕ → Option IndexEntry) (row : IndexEntry → List ℕ → Result (List ℕ)) where
  abbrev pub from_bytes : IndexEntry → Option (List ℕ) → Result (List ℕ)
  from_bytes entry none = err pipeline_generic
  from_bytes entry (some bytes) = row entry bytes

  abbrev pub from_entry : List ℕ → Option IndexEntry → Result (List ℕ)
  from_entry raw none = err pipeline_generic
  from_entry raw (some entry) = from_bytes entry (read_at entry.off entry.len raw)

  -- One turn of the loop: what is written for a line.
  unfoldable pub export_line : List ℕ → List ℕ → Result (List ℕ)
  export_line raw [] = ok []
  export_line raw (b ∷ bs) = from_entry raw (from_str (b ∷ bs))

  -- The loop over the lines.
  unfoldable pub export_loop : List ℕ → List (List ℕ) → List ℕ → Result (List ℕ)
  export_loop raw [] out = ok out
  export_loop raw (line ∷ lines) out =
      export_line raw line >>= λ text. export_loop raw lines (out ++ text)
