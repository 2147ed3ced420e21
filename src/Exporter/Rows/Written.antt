-- ===== src/Exporter/Rows/Written.antt =====
-- An export of a directory that the sink of file.rs wrote, of any of the formats.
use tracemux.Prelude.{
  ℕ, ◌^◌, ◌<◌, ◌≡◌, refl, ap, ap₂, ◌∙◌, List, [], ◌∷◌, ◌++◌, Option, length, All, arith,
}
use tracemux.Error.{Result}
use tracemux.Log.Index.{IndexEntry}
use tracemux.Log.Session.{SessionDir, on_disk, create_with_labels, Crates}
use tracemux.Log.Session.Rows.{Call, Labels, after, logged, payloads, index_text, AreSmall}
use tracemux.Log.Session.Rows.Files.{session_files}
use tracemux.Log.Session.Rows.Stored.{logged_stored}
use tracemux.Exporter.Rows.{buf_lines, export_loop}
use tracemux.Exporter.Rows.Replay.{IsPrinted, printed, render, export_loop_rows}

-- A directory without files yet.
abbrev pub no_files : SessionDir
no_files = record { raw_bin = []; index_jsonl = []; lines_jsonl = []; frames_jsonl = [] }

module _ {V : Type 0} (io : Crates V) (from_str : List ℕ → Option IndexEntry) where
  -- The directory that a sink leaves which was created on an empty one.
  abbrev pub session : List (Call V) → ℕ → Option (List ℕ) → Option (List ℕ) → List ℕ → SessionDir
  session cs sid source host decoder =
      on_disk (after io cs (create_with_labels no_files sid source host decoder))

  -- The rows of a session can be written down: each is printed as a line that is read back, each
  -- payload is shorter than 2 ^ 32, and all of them than 2 ^ 64.
  pub record IsWritable (rows : List (IndexEntry × List ℕ)) : Type 0 where
    pub readable : All (IsPrinted from_str io.entry_to_string) rows
    pub small : AreSmall rows
    pub room : length (payloads rows) < 2 ^ 64

  index_text-printed :
      (rows : List (IndexEntry × List ℕ))
      → index_text io rows ≡ printed from_str io.entry_to_string rows
  index_text-printed [] = refl
  index_text-printed ((e, p) ∷ rs) =
      ap (λ t. io.entry_to_string e ++ (10 ∷ t)) (index_text-printed rs)

  -- Each row is made up from its entry and its payload, in the order of the log.
  pub export_loop-session :
      (row : IndexEntry → List ℕ → Result (List ℕ)) (cs : List (Call V)) (sid : ℕ)
      (source host : Option (List ℕ)) (decoder out : List ℕ)
      → let rows = logged io (record { sid = sid; source = source; host = host }) 0 cs in
        IsWritable rows
        → let dir = session cs sid source host decoder in
          export_loop from_str row dir.raw_bin (buf_lines dir.index_jsonl) out ≡ render row rows out
  unfolding on_disk
  export_loop-session row cs sid source host decoder out h =
      let l : Labels = record { sid = sid; source = source; host = host } in
      let rows = logged io l 0 cs in
      let (raw, index) =
        session_files io cs no_files sid source host decoder h.small (omega (arith, h.room)) in
      ap₂ (λ bytes text. export_loop from_str row bytes (buf_lines text) out) raw
        (index ∙ index_text-printed rows)
      ∙ export_loop_rows from_str io.entry_to_string row (payloads rows) rows out h.readable
          (logged_stored io cs l 0 [] (payloads rows) refl refl h.small)
