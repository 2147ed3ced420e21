-- ===== src/Exporter/Pcapng/Session.antt =====
-- crates/core/src/exporter/pcapng.rs: the export of a session's directory (`run`). A file is the blocks
-- that were written, in a part writer whose counts are not read. The JSON of a record's fields is of a
-- type `V` of serde_json; `field` is its `get`. Other parameters are the reading of the rows of the
-- index and of frames.jsonl and the parsing of instants.
pub mod Found
pub mod Wanted
pub mod Demanded
pub mod Replay
use tracemux.Prelude.{
  ℕ, ◌+◌, ◌^◌, List, [], ◌∷◌, ◌++◌, Option, none, some, Bool, true, false, ◌&&◌, ◌||◌, not, ltb,
  ◌==◌, if◌then◌else◌, ◌≡◌, ◌↔◌, Eq, arith,
}
use tracemux.Prelude.Ints.{ℤ}
use tracemux.Prelude.Bytes.{bytes_eq}
use tracemux.Prelude.Text.{is_empty}
use tracemux.Prelude.Maps.{HashMap, lookup, insert}
use tracemux.Error.{Result, ok, err, ◌>>=◌, pipeline_generic}
use tracemux.Log.Raw.{read_at}
use tracemux.Log.Index.{IndexEntry, Kind}
use tracemux.Log.Index
use tracemux.Log.Lines.{FrameEntry}
use tracemux.Log.Session.{SessionDir}
use tracemux.Exporter.Rows.{buf_lines}
use tracemux.Exporter.Timestamp.{some_digits, strip_prefix}
use tracemux.Exporter.Pcapng.{
  InterfaceKey, EnhancedPacketBlock, Block, packet_block, Duration, timestamp_nanos_duration,
  PcapngPartWriter, create_part, write_block, ensure_interface,
}
use tracemux.Exporter.Pcapng.Metadata.{
  pair_key, Value, PacketMetadata, u64_field, u32_field, string_field, is_packet_schema,
  packet_interface_label, linktype_of, original_len_of, is_packet, number,
}

-- `timestamp_duration`
abbrev pub timestamp_duration : Option ℤ → Result Duration
timestamp_duration none = err pipeline_generic
timestamp_duration (some nanos) = timestamp_nanos_duration nanos

module _ {V : Type 0} (field : V → List ℕ → Option Value)
    (entry_from_str : List ℕ → Option IndexEntry) (frame_from_str : List ℕ → Option (FrameEntry V))
    (parse_rfc3339 : List ℕ → Option ℤ) (head_len : ℕ) (block_len : Block → ℕ) where
  -- `PacketMetadata::from_fields`: raw_off, raw_len, captured_len, original_len, linktype, interface
  abbrev pub with_range : V → Option ℕ → Option ℕ → Option PacketMetadata
  with_range fields none len = none
  with_range fields (some off) none = none
  with_range fields (some off) (some len) = some (record {
    raw_off = off;
    raw_len = len;
    captured_len =
        u32_field
          (field fields (99 ∷ 97 ∷ 112 ∷ 116 ∷ 117 ∷ 114 ∷ 101 ∷ 100 ∷ 95 ∷ 108 ∷ 101 ∷ 110 ∷ []));
    original_len =
        u32_field
          (field fields (111 ∷ 114 ∷ 105 ∷ 103 ∷ 105 ∷ 110 ∷ 97 ∷ 108 ∷ 95 ∷ 108 ∷ 101 ∷ 110 ∷ []));
    linktype = u32_field (field fields (108 ∷ 105 ∷ 110 ∷ 107 ∷ 116 ∷ 121 ∷ 112 ∷ 101 ∷ []));
    interface =
        string_field (field fields (105 ∷ 110 ∷ 116 ∷ 101 ∷ 114 ∷ 102 ∷ 97 ∷ 99 ∷ 101 ∷ []));
  })

  unfoldable pub from_fields : V → Option PacketMetadata
  unfolding u64_field u32_field string_field
  from_fields fields =
      with_range fields (u64_field (field fields (114 ∷ 97 ∷ 119 ∷ 95 ∷ 111 ∷ 102 ∷ 102 ∷ [])))
        (u32_field (field fields (114 ∷ 97 ∷ 119 ∷ 95 ∷ 108 ∷ 101 ∷ 110 ∷ [])))

  -- The loop of `read_packet_metadata`.
  abbrev pub Metadata : Type 0
  Metadata = HashMap (ℕ × ℕ) PacketMetadata

  abbrev pub insert_some : Option PacketMetadata → Metadata → Metadata
  insert_some none m = m
  insert_some (some meta) m = insert (meta.raw_off, meta.raw_len) meta m

  abbrev pub add_frame : Option (FrameEntry V) → Metadata → Result Metadata
  add_frame none m = err pipeline_generic
  add_frame (some frame) m = ok (
      if is_packet_schema frame.body.schema_id
      then insert_some (from_fields frame.body.fields) m
      else m)

  unfoldable pub add_line : List ℕ → Metadata → Result Metadata
  unfolding from_fields
  add_line [] m = ok m
  add_line (c ∷ cs) m = add_frame (frame_from_str (c ∷ cs)) m

  unfoldable pub metadata_loop : List (List ℕ) → Metadata → Result Metadata
  unfolding add_line
  metadata_loop [] m = ok m
  metadata_loop (line ∷ lines) m = add_line line m >>= λ m'. metadata_loop lines m'

  -- `read_packet_metadata`; a file that is not there is empty
  unfoldable pub read_packet_metadata : SessionDir → Result Metadata
  unfolding metadata_loop
  read_packet_metadata dir = metadata_loop (buf_lines dir.frames_jsonl) []

  -- The packet of a row: its interface, its instant, and its block.
  abbrev pub write_block_of :
      IndexEntry
      → Option PacketMetadata
      → List ℕ
      → ℕ
      → PcapngPartWriter
      → Duration
      → PcapngPartWriter
  write_block_of entry meta bytes id w timestamp =
      write_block head_len block_len
        (packet_block (record {
          interface_id = id;
          timestamp = timestamp;
          original_len = original_len_of entry meta;
          bytes = bytes;
        }))
        w

  abbrev pub on_interface :
      IndexEntry
      → Option PacketMetadata
      → List ℕ
      → Result ℕ × PcapngPartWriter
      → Result PcapngPartWriter
  on_interface entry meta bytes (err e, w) = err e
  on_interface entry meta bytes (ok id, w) =
      timestamp_duration (parse_rfc3339 entry.ts_origin) >>= λ timestamp.
      ok (write_block_of entry meta bytes id w timestamp)

  abbrev pub export_bytes :
      IndexEntry
      → Option PacketMetadata
      → Option (List ℕ)
      → PcapngPartWriter
      → Result PcapngPartWriter
  export_bytes entry meta none w = err pipeline_generic
  export_bytes entry meta (some bytes) w = on_interface entry meta bytes (
      ensure_interface head_len block_len
        (record { linktype = linktype_of meta; label = packet_interface_label entry meta }) w)

  -- The file and the number of packets, after a row.
  abbrev pub State : Type 0
  State = PcapngPartWriter × ℕ

  abbrev pub export_entry : List ℕ → Metadata → Option IndexEntry → State → Result State
  export_entry raw metadata none s = err pipeline_generic
  export_entry raw metadata (some entry) (w, n) =
      let meta = lookup (entry.off, entry.len) metadata in
      if is_packet entry meta
      then (export_bytes entry meta (read_at entry.off entry.len raw) w >>= λ w'. ok (w', n + 1))
      else ok (w, n)

  unfoldable pub export_line : List ℕ → Metadata → List ℕ → State → Result State
  export_line raw metadata [] s = ok s
  export_line raw metadata (c ∷ cs) s = export_entry raw metadata (entry_from_str (c ∷ cs)) s

  -- The loop of `run`.
  unfoldable pub export_loop : List ℕ → Metadata → List (List ℕ) → State → Result State
  export_loop raw metadata [] s = ok s
  export_loop raw metadata (line ∷ lines) s =
      export_line raw metadata line s >>= λ s'. export_loop raw metadata lines s'

  -- `exported == 0` is an error.
  abbrev pub not_empty : State → Result PcapngPartWriter
  not_empty (w, n) = if n == 0 then err pipeline_generic else ok w

  -- `run`, on a directory that can be read
  unfoldable pub run : SessionDir → Result PcapngPartWriter
  run dir = read_packet_metadata dir >>= λ metadata.
      export_loop dir.raw_bin metadata (buf_lines dir.index_jsonl)
        (create_part head_len block_len, 0)
      >>= λ s. not_empty s
