-- ===== src/Importer/Pcapng/Refused.antt =====
-- A session that was imported by the importer of pcapng.rs, exported by the exporter of that name.
use tracemux.Prelude.{
  ℕ, ◌+◌, ◌-◌, ◌^◌, ◌<◌, ◌≡◌, refl, sym, ap, ◌∙◌, min, List, [], ◌∷◌, ◌++◌, Option, some, length,
  All, append-nil, append_assoc, length-append, arith,
}
use tracemux.Prelude.Ints.{ℤ}
use tracemux.Error.{Result, ok, err, pipeline_generic}
use tracemux.Log.Raw.{read_at}
use tracemux.Log.Raw.Offsets.{read_at_middle}
use tracemux.Log.Index.{IndexEntry, from_envelope}
use tracemux.Log.Lines.{FrameEntry}
use tracemux.Log.Session.{SessionDir, Crates}
use tracemux.Log.Session.Rows.{payloads, index_text}
use tracemux.Exporter.Rows.{buf_lines}
use tracemux.Exporter.Rows.Replay.{IsPrinted, IsStored, printed}
use tracemux.Exporter.Rows.Written.{no_files}
use tracemux.Exporter.Pcapng.{Block, PcapngPartWriter}
use tracemux.Exporter.Pcapng.Session
use tracemux.Exporter.Pcapng.Metadata.{Value, pair_key}
use tracemux.Exporter.Pcapng.Session.Demanded.{demanded}
use tracemux.Exporter.Pcapng.Session.Replay.{some_packets, shown_in, all_shown, run-rows}
use tracemux.Prelude.Maps.{lookup}
use tracemux.Importer.Pcapng
use tracemux.Importer.Pcapng.Blocks.{FileBlock, IsBlock}
use tracemux.Importer.Pcapng.Packets.{file, packets}
use tracemux.Importer.Pcapng.Imported.{AreLoggable, imported, run-file}

module _ {V : Type 0} (io : Crates V) (clock : ℕ → ℤ) (sid : ℕ) (field : V → List ℕ → Option Value)
    (entry_from_str : List ℕ → Option IndexEntry) (frame_from_str : List ℕ → Option (FrameEntry V))
    (parse_rfc3339 : List ℕ → Option ℤ) (head_len : ℕ) (block_len : Block → ℕ) where
  read_there :
      (off : ℕ) (pre payload later raw : List ℕ)
      → off ≡ length pre
      → raw ≡ pre ++ (payload ++ later)
      → length payload < 2 ^ 32
      → read_at off (length payload) raw ≡ some payload
  read_there off pre payload later raw p e small =
      let len : length payload ≡ min (length payload) (2 ^ 32 - 1) = omega arith in
      ap (λ n. read_at off n raw) len ∙ rw (p, e) (read_at_middle pre payload later small)

  -- The rows name their packets.
  imported-IsStored :
      (ps : List (ℕ × List ℕ)) (n off : ℕ) (pre raw : List ℕ)
      → off ≡ length pre
      → raw ≡ pre ++ payloads (imported io clock sid n off ps)
      → AreLoggable ps
      → All (IsStored entry_from_str io.entry_to_string raw) (imported io clock sid n off ps)
  unfolding imported from_envelope
  imported-IsStored [] n off pre raw p e h = tt
  imported-IsStored ((ticks, bytes) ∷ ps) n off pre raw p e h =
      let rest = payloads (imported io clock sid (n + 1) (off + length bytes) ps) in
      (
        read_there off pre bytes rest raw p e h.0.1,
        imported-IsStored ps (n + 1) (off + length bytes) (pre ++ bytes) raw
            (omega (arith, length-append pre bytes)) (e ∙ sym (append_assoc pre bytes rest)) h.1,
      )

  -- None of them is taken for a packet.
  demanded-imported :
      (ps : List (ℕ × List ℕ)) (n off : ℕ)
      → demanded field entry_from_str frame_from_str parse_rfc3339 head_len block_len []
          (imported io clock sid n off ps)
        ≡ ok []
  unfolding imported demanded lookup from_envelope
  demanded-imported [] n off = refl
  demanded-imported ((ticks, bytes) ∷ ps) n off = demanded-imported ps (n + 1) (off + length bytes)

  length-imported :
      (ps : List (ℕ × List ℕ)) (n off : ℕ) → length (imported io clock sid n off ps) ≡ length ps
  unfolding imported
  length-imported [] n off = refl
  length-imported ((ticks, bytes) ∷ ps) n off =
      omega (arith, length-imported ps (n + 1) (off + length bytes))

  index_text-printed :
      (rows : List (IndexEntry × List ℕ))
      → index_text io rows ≡ printed entry_from_str io.entry_to_string rows
  index_text-printed [] = refl
  index_text-printed ((e, p) ∷ rs) =
      ap (λ t. io.entry_to_string e ++ (10 ∷ t)) (index_text-printed rs)

  abbrev with_rows : List (IndexEntry × List ℕ) → SessionDir
  with_rows rows = record no_files { raw_bin = payloads rows; index_jsonl = index_text io rows }

  no_frames :
      (rows : List (IndexEntry × List ℕ))
      → Session.read_packet_metadata field entry_from_str frame_from_str parse_rfc3339 head_len
          block_len
          (with_rows rows)
        ≡ ok []
  unfolding Session.read_packet_metadata Session.metadata_loop buf_lines
  no_frames rows = refl

  refused :
      (r : Result PcapngPartWriter)
      → shown_in field entry_from_str frame_from_str parse_rfc3339 head_len block_len r
        ≡ err pipeline_generic
      → r ≡ err pipeline_generic
  refused (ok w) h = ground (arith, h)
  refused (err e) h = ground (arith, h)

  -- A session that was imported from a pcapng file with fewer than 2 ^ 32 packets, whose rows are
  -- printed as lines and read back, cannot be exported as pcapng: the export finds no packets and
  -- fails with E-1001.
  pub run-imported :
      (bs : List FileBlock)
      → let ps = packets bs in
        let rows = imported io clock sid 0 0 ps in
        All IsBlock bs
        → AreLoggable ps
        → length (payloads rows) < 2 ^ 64
        → length ps < 2 ^ 32
        → All (IsPrinted entry_from_str io.entry_to_string) rows
        → (dir : SessionDir) × (Pcapng.run io clock sid (file bs) no_files ≡ some (ok dir))
          × (Session.run field entry_from_str frame_from_str parse_rfc3339 head_len block_len dir
              ≡ err pipeline_generic)
  run-imported bs h fit room few lines =
      let ps = packets bs in
      let rows = imported io clock sid 0 0 ps in
      let dir = with_rows rows in
      (
        dir,
        ap (λ src. Pcapng.run io clock sid src no_files) (sym (append-nil (file bs)))
            ∙ run-file io clock sid bs [] h (omega arith) fit room,
        refused
            (Session.run field entry_from_str frame_from_str parse_rfc3339 head_len block_len dir)
            (run-rows field entry_from_str frame_from_str parse_rfc3339 head_len block_len
                io.entry_to_string dir [] rows lines
                (imported-IsStored ps 0 0 [] (payloads rows) refl refl fit)
                (omega (arith, few, length-imported ps 0 0)) (index_text-printed rows)
                (no_frames rows)
              ∙ ap
                  (λ x.
                    all_shown field entry_from_str frame_from_str parse_rfc3339 head_len block_len (
                      some_packets field entry_from_str frame_from_str parse_rfc3339 head_len
                        block_len x))
                  (demanded-imported ps 0 0)),
      )
