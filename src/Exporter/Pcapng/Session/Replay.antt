-- ===== src/Exporter/Pcapng/Session/Replay.antt =====
-- The packets that the export of a session by pcapng.rs contains.
use tracemux.Prelude.{
  ℕ, ◌+◌, ◌^◌, ◌<◌, ◌≤◌, ◌≡◌, ◌≢◌, refl, sym, ap, ◌∙◌, List, [], ◌∷◌, Option, some, true, false,
  length, ◌==◌, if◌then◌else◌, All, subst, Bool-cases, inl, inr, arith,
}
use tracemux.Prelude.Ints.{ℤ}
use tracemux.Prelude.Maps.{lookup}
use tracemux.Error.{Result, ok, err, ◌>>=◌, pipeline_generic}
use tracemux.Log.Raw.{read_at}
use tracemux.Log.Index.{IndexEntry}
use tracemux.Log.Lines.{FrameEntry}
use tracemux.Log.Session.{SessionDir}
use tracemux.Exporter.Rows.{buf_lines}
use tracemux.Exporter.Rows.Replay.{IsLine, IsPrinted, IsStored, printed, buf_lines-append}
use tracemux.Exporter.Pcapng.{
  InterfaceKey, interface_key, Block, PcapngPartWriter, create_part, ensure_interface,
}
use tracemux.Exporter.Pcapng.Blocks.{Shown, both, read_blocks, IsPart}
use tracemux.Exporter.Pcapng.Part.{Adds-refl}
use tracemux.Exporter.Pcapng.Metadata.{
  Value, pair_key, is_packet, packet_interface_label, linktype_of,
}
use tracemux.Exporter.Pcapng.Session.{timestamp_duration}
use tracemux.Exporter.Pcapng.Session
use tracemux.Exporter.Pcapng.Session.Found.{Found-known}
use tracemux.Exporter.Pcapng.Session.Wanted.{
  Metadata, wanted, expected, Agree, go, on_interface-Step, Agree-step,
}
use tracemux.Exporter.Pcapng.Session.Demanded.{demanded, expected-demanded}

module _ {V : Type 0} (field : V → List ℕ → Option Value)
    (entry_from_str : List ℕ → Option IndexEntry) (frame_from_str : List ℕ → Option (FrameEntry V))
    (parse_rfc3339 : List ℕ → Option ℤ) (head_len : ℕ) (block_len : Block → ℕ) where
  module _ (to_string : IndexEntry → List ℕ) (raw : List ℕ)
      (metadata : (Metadata field entry_from_str frame_from_str parse_rfc3339 head_len
        block_len)) where
    abbrev export_line : List ℕ → PcapngPartWriter × ℕ → Result (PcapngPartWriter × ℕ)
    export_line =
        Session.export_line field entry_from_str frame_from_str parse_rfc3339 head_len block_len raw
          metadata

    abbrev export_loop : List (List ℕ) → PcapngPartWriter × ℕ → Result (PcapngPartWriter × ℕ)
    export_loop =
        Session.export_loop field entry_from_str frame_from_str parse_rfc3339 head_len block_len raw
          metadata

    abbrev on_row : IndexEntry → List ℕ → PcapngPartWriter × ℕ → Result (PcapngPartWriter × ℕ)
    on_row e bytes (w, n) =
        let meta = lookup (e.off, e.len) metadata in
        if is_packet e meta
        then ((go field entry_from_str frame_from_str parse_rfc3339 head_len block_len) e meta bytes
              (ensure_interface head_len block_len
                (record { linktype = linktype_of meta; label = packet_interface_label e meta }) w)
            >>= λ w'. ok (w', n + 1))
        else ok (w, n)

    export_line-row :
        (e : IndexEntry) (bytes l : List ℕ) (s : PcapngPartWriter × ℕ)
        → IsLine l
        → entry_from_str l ≡ some e
        → read_at e.off e.len raw ≡ some bytes
        → export_line l s ≡ on_row e bytes s
    unfolding Session.export_line
    export_line-row e bytes [] s line back stored = elim line [ ]
    export_line-row e bytes (b ∷ bs) (w, n) line back stored =
        ap
          (λ o.
            Session.export_entry field entry_from_str frame_from_str parse_rfc3339 head_len
              block_len raw metadata o (w, n))
          back
        ∙ ap
            (λ o.
              let meta = lookup (e.off, e.len) metadata in
              if is_packet e meta
              then (Session.export_bytes field entry_from_str frame_from_str parse_rfc3339 head_len
                    block_len e meta o w
                  >>= λ w'. ok (w', n + 1))
              else ok (w, n))
            stored

    line_chars : (l : List ℕ) → IsLine l → All (λ c. (c ≢ 10) × (c ≢ 13)) l
    line_chars [] h = elim h [ ]
    line_chars (b ∷ bs) h = h

    row_agrees :
        (e : IndexEntry) (bytes : List ℕ) (w : PcapngPartWriter) (n : ℕ)
        (loop : PcapngPartWriter × ℕ → Result (PcapngPartWriter × ℕ)) (x : Result (List Shown))
        → IsPart w
        → length w.interfaces < 2 ^ 32
        → ((w' : PcapngPartWriter) (m : ℕ)
            → IsPart w'
            → length w'.interfaces ≤ length w.interfaces + 1
            → (Agree field entry_from_str frame_from_str parse_rfc3339 head_len block_len) w' m
                (loop (w', m))
                x)
        → let meta = lookup (e.off, e.len) metadata in
          (Agree field entry_from_str frame_from_str parse_rfc3339 head_len block_len) w n
            (on_row e bytes (w, n) >>= loop)
            (if is_packet e meta
              then (timestamp_duration (parse_rfc3339 e.ts_origin) >>= λ t. x >>= λ ss. ok (
                  (wanted field entry_from_str frame_from_str parse_rfc3339 head_len block_len) e
                    meta bytes t
                  ∷ ss))
              else x)
    unfolding ensure_interface
    row_agrees e bytes w n loop x part few later =
        let meta = lookup (e.off, e.len) metadata in
        let key : InterfaceKey = record {
          linktype = linktype_of meta;
          label = packet_interface_label e meta;
        } in
        elim (Bool-cases (is_packet e meta)) [
          | inl t ↦ rw t (
              (Agree-step field entry_from_str frame_from_str parse_rfc3339 head_len block_len) w n
                ((wanted field entry_from_str frame_from_str parse_rfc3339 head_len block_len) e
                  meta bytes)
                ((go field entry_from_str frame_from_str parse_rfc3339 head_len block_len) e meta
                  bytes (ensure_interface head_len block_len key w))
                (timestamp_duration (parse_rfc3339 e.ts_origin)) loop x
                ((on_interface-Step field entry_from_str frame_from_str parse_rfc3339 head_len
                    block_len)
                  e meta bytes w (ensure_interface head_len block_len key w)
                  (Found-known head_len block_len key (lookup key w.interfaces) w refl part few))
                (λ w' d a le. later w' (n + 1) a.0 le))
          | inr f ↦ rw f (later w n part (omega arith))
        ]

    rows-Agree :
        (rs : List (IndexEntry × List ℕ)) (w : PcapngPartWriter) (n : ℕ)
        → All (IsPrinted entry_from_str to_string) rs
        → All (IsStored entry_from_str to_string raw) rs
        → IsPart w
        → length w.interfaces + length rs < 2 ^ 32
        → (Agree field entry_from_str frame_from_str parse_rfc3339 head_len block_len) w n
            (export_loop (buf_lines (printed entry_from_str to_string rs)) (w, n))
            ((expected field entry_from_str frame_from_str parse_rfc3339 head_len block_len)
              metadata rs)
    unfolding Session.export_loop expected ensure_interface
    rows-Agree [] w n h k part few =
        unfold buf_lines in (Adds-refl head_len block_len w part, omega arith)
    rows-Agree ((e, bytes) ∷ rs) w n h k part few =
        let rest = buf_lines (printed entry_from_str to_string rs) in
        let meta = lookup (e.off, e.len) metadata in
        let key : InterfaceKey = record {
          linktype = linktype_of meta;
          label = packet_interface_label e meta;
        } in
        subst
          (λ r. (Agree field entry_from_str frame_from_str parse_rfc3339 head_len block_len) w n r (
            (expected field entry_from_str frame_from_str parse_rfc3339 head_len block_len) metadata
              ((e, bytes) ∷ rs)))
          (sym (
            ap (λ ls. export_loop ls (w, n))
              (buf_lines-append (to_string e) (printed entry_from_str to_string rs)
                (line_chars (to_string e) h.0.0))
            ∙ ap (λ r. r >>= export_loop rest)
                (export_line-row e bytes (to_string e) (w, n) h.0.0 h.0.1 k.0)))
          (row_agrees e bytes w n (export_loop rest)
            ((expected field entry_from_str frame_from_str parse_rfc3339 head_len block_len)
              metadata rs)
            part (omega (arith, few))
            (λ w' m p le. rows-Agree rs w' m h.1 k.1 p (omega (arith, few, le))))

  -- An export of no packets is an error.
  abbrev pub some_packets : Result (List Shown) → Result (List Shown)
  some_packets (err e) = err e
  some_packets (ok []) = err pipeline_generic
  some_packets (ok (s ∷ ss)) = ok (s ∷ ss)

  -- What a reader of blocks shows of an export.
  abbrev pub shown_in : Result PcapngPartWriter → Result (Option (List Shown))
  shown_in (err e) = err e
  shown_in (ok w) = ok (read_blocks [] w.blocks)

  abbrev pub all_shown : Result (List Shown) → Result (Option (List Shown))
  all_shown (err e) = err e
  all_shown (ok ss) = ok (some ss)

  abbrev not_empty : PcapngPartWriter × ℕ → Result PcapngPartWriter
  not_empty = Session.not_empty field entry_from_str frame_from_str parse_rfc3339 head_len block_len

  finished :
      (w : PcapngPartWriter) (r : Result (PcapngPartWriter × ℕ)) (x : Result (List Shown))
      → read_blocks [] w.blocks ≡ some []
      → (Agree field entry_from_str frame_from_str parse_rfc3339 head_len block_len) w 0 r x
      → shown_in (r >>= not_empty) ≡ all_shown (some_packets x)
  finished w (err e) (err f) empty h = ap err h
  finished w (err e) (ok ss) empty h = absurd h
  finished w (ok s) (err f) empty h = absurd h
  finished w (ok (w', n)) (ok []) empty (a, c) =
      let t : (n == 0) ≡ true = ground (arith, c) in rw t refl
  finished w (ok (w', n)) (ok (s ∷ ss)) empty (a, c) =
      let t : (n == 0) ≡ false = ground (arith, c) in
      rw t (ap ok (a.1 ∙ ap (λ o. both o (some (s ∷ ss))) empty))

  -- A directory of fewer than 2 ^ 32 rows that are printed as lines and read back, each naming its bytes,
  -- with a frames file that can be read: the export fails where the instant of a packet cannot be told
  -- or there is no packet, and otherwise a reader of its blocks sees the packets in order, each under
  -- its link type and label, with its instant, its original length and its bytes. Packets are the rows
  -- of datagrams that have metadata, the schema of packets, or a source that begins with `pcap:`; the
  -- label is the interface of the metadata or else what follows `pcap:`, and `pcap` if that is empty.
  pub run-rows :
      (to_string : IndexEntry → List ℕ) (dir : SessionDir)
      (metadata : (Metadata field entry_from_str frame_from_str parse_rfc3339 head_len block_len))
      (rows : List (IndexEntry × List ℕ))
      → All (IsPrinted entry_from_str to_string) rows
      → All (IsStored entry_from_str to_string dir.raw_bin) rows
      → length rows < 2 ^ 32
      → dir.index_jsonl ≡ printed entry_from_str to_string rows
      → Session.read_packet_metadata field entry_from_str frame_from_str parse_rfc3339 head_len
          block_len dir
        ≡ ok metadata
      → shown_in
          (Session.run field entry_from_str frame_from_str parse_rfc3339 head_len block_len dir)
        ≡ all_shown (
            some_packets (
              demanded field entry_from_str frame_from_str parse_rfc3339 head_len block_len metadata
                rows))
  unfolding Session.run create_part read_blocks lookup
  run-rows to_string dir metadata rows h k few same meta =
      let w = create_part head_len block_len in
      let start : IsPart w = record { number = λ j i e. ground (arith, e); count = refl } in
      ap
        (λ r. shown_in (
          r >>= λ m.
          Session.export_loop field entry_from_str frame_from_str parse_rfc3339 head_len block_len
            dir.raw_bin m (buf_lines dir.index_jsonl) (w, 0)
          >>= not_empty))
        meta
      ∙ ap
          (λ text. shown_in (
            Session.export_loop field entry_from_str frame_from_str parse_rfc3339 head_len block_len
              dir.raw_bin metadata (buf_lines text) (w, 0)
            >>= not_empty))
          same
      ∙ finished w
          (Session.export_loop field entry_from_str frame_from_str parse_rfc3339 head_len block_len
            dir.raw_bin metadata (buf_lines (printed entry_from_str to_string rows)) (w, 0))
          ((expected field entry_from_str frame_from_str parse_rfc3339 head_len block_len) metadata
            rows)
          refl (rows-Agree to_string dir.raw_bin metadata rows w 0 h k start (omega arith))
      ∙ ap (λ x. all_shown (some_packets x))
          (expected-demanded field entry_from_str frame_from_str parse_rfc3339 head_len block_len
            metadata rows)
