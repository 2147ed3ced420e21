-- ===== src/Exporter/Text.antt =====
-- crates/core/src/exporter/text.rs: the export of a session as lines of text. Decoding bytes is a call
-- of encoding_rs, the parameter `decode`, with the encoding that was resolved before.
pub mod Replay
use tracemux.Prelude.{ℕ, List, [], ◌∷◌, ◌++◌, Option}
use tracemux.Error.{Result, ok, ◌>>=◌}
use tracemux.Log.Index.{IndexEntry}
use tracemux.Log.Session.{SessionDir}
use tracemux.Exporter.Rows.{buf_lines, export_loop}
use tracemux.Exporter.Timestamp.{UtcOffset, format_rfc3339_in_timezone}

module _ (from_str : List ℕ → Option IndexEntry) (decode : List ℕ → List ℕ)
    (convert : UtcOffset → List ℕ → Option (List ℕ)) where
  -- The line of a row: its instant, a tabulator, and its text.
  unfoldable pub text_row : Option UtcOffset → IndexEntry → List ℕ → Result (List ℕ)
  text_row timezone entry bytes = do
    ts_origin ← format_rfc3339_in_timezone convert timezone entry.ts_origin
    ok (ts_origin ++ (9 ∷ (decode bytes ++ (10 ∷ []))))

  -- `run`, on a directory that can be read
  unfoldable pub run : Option UtcOffset → SessionDir → Result (List ℕ)
  run timezone dir =
      export_loop from_str (text_row timezone) dir.raw_bin (buf_lines dir.index_jsonl) []
