-- ===== src/Tests/Packets.antt =====
-- Packet files that are imported and exported, at concrete inputs.
use tracemux.Prelude.{ℕ, ◌≡◌, refl, List, [], ◌∷◌, ◌++◌, Option, none, some, map, arith}
use tracemux.Prelude.Bytes.{bytes_eq, to_le_bytes}
use tracemux.Prelude.Ints.{ℤ, pos, negsuc}
use tracemux.Error.{Result, ok, err, pipeline_generic}
use tracemux.Log.Raw.{read_at}
use tracemux.Log.Index.{DualTimestamp, incoming, outgoing, IndexEntry, from_envelope}
use tracemux.Log.Index
use tracemux.Log.Lines.{FrameEntry}
use tracemux.Log.Session.{SessionDir}
use tracemux.Log.Session.Rows.{payloads, index_text}
use tracemux.Exporter.Rows.Written.{no_files}
use tracemux.Prelude.Maps.{lookup, insert}
use tracemux.Log.Rotate.{RotatePolicy, should_rotate}
use tracemux.Exporter.Pcapng.{
  key_eq, Block, interface_block, packet_block, PcapPacket, timestamp_nanos_duration, write_block,
  create, create_part, ensure_interface, append_part, should_rotate_for, append_packet,
}
use tracemux.Exporter.Pcapng.Parts.{capture}
use tracemux.Importer.Pcapng
use tracemux.Importer.Pcapng.Blocks.{FileBlock, section, packet, other}
use tracemux.Importer.Pcapng.Packets.{file, packets}
use tracemux.Importer.Pcapng.Imported
use tracemux.Importer.Pcapng.Imported.{run-file, run_ends}
use tracemux.Importer.Pcapng.Exported.{nanoseconds, as_ticks, run-capture}
use tracemux.Tests.Transfer.{print_entry, io, find_entry, at, tick}
use tracemux.Exporter.Rows.{buf_lines}
use tracemux.Exporter.Pcapng.Session
use tracemux.Exporter.Pcapng.Metadata.{Value, pair_key}
use tracemux.Exporter.Pcapng.Session.Demanded.{demanded}
use tracemux.Exporter.Pcapng.Session.Replay.{shown_in, all_shown, some_packets, run-rows}
use tracemux.Importer.Pcapng.Refused.{run-imported}
use tracemux.Exporter.Rows.Replay.{printed}

-- A file with a section header, a packet of a thousand ticks with two bytes and two of padding, a block
-- of another type, and three bytes of a block that was cut.
abbrev blocks : List FileBlock
blocks =
    section []
    ∷ packet (record {
      interface_id = 0;
      ticks = 1000;
      original_len = 2;
      bytes = 7 ∷ 8 ∷ [];
      trailer = 0 ∷ 0 ∷ [];
    })
    ∷ other 5 (1 ∷ 2 ∷ [])
    ∷ []

run-file_example :
    Pcapng.run io tick 8 (file blocks ++ (6 ∷ 0 ∷ 0 ∷ [])) no_files
    ≡ some (
        ok (record no_files {
          raw_bin = payloads (Imported.imported io tick 8 0 0 (packets blocks));
          index_jsonl = index_text io (Imported.imported io tick 8 0 0 (packets blocks));
        }))
run-file_example =
    run-file io tick 8 blocks (6 ∷ 0 ∷ 0 ∷ [])
      (unfold to_le_bytes in
        (
          omega arith,
          ((omega arith, omega arith), ((omega arith, omega arith, omega arith, omega arith), tt)),
        ))
      (omega arith) (omega arith) (unfold Imported.imported in omega arith)

run_ends_example : (r : Result SessionDir) × (Pcapng.run io tick 8 (1 ∷ 2 ∷ []) no_files ≡ some r)
run_ends_example = run_ends io tick 8 (1 ∷ 2 ∷ []) no_files

-- Two accepted packets on one interface and one from before 1970; blocks are laid out with no options.
abbrev layout : Block → FileBlock
layout (interface_block k) = other 1 []
layout (packet_block b) = packet (record {
  interface_id = b.interface_id;
  ticks = nanoseconds b.timestamp;
  original_len = b.original_len;
  bytes = b.bytes;
  trailer = [];
})

abbrev no_limits : RotatePolicy
no_limits = record { size_bytes = none; duration = none }

abbrev captured : List (List ℕ × PcapPacket)
captured =
    (97 ∷ [], record { linktype = 1; ts_origin_ns = pos 5; original_len = 2; bytes = 1 ∷ 2 ∷ [] })
    ∷ (97 ∷ [], record { linktype = 1; ts_origin_ns = negsuc 5; original_len = 0; bytes = [] })
    ∷ []

abbrev size : Block → ℕ
size b = 20

run-capture_example :
    let r = capture 28 size captured (create 28 size no_limits) in
    let rows = Imported.imported io tick 8 0 0 (as_ticks r.0) in
    Pcapng.run io tick 8 (file (section [] ∷ map layout r.1.current.blocks)) no_files
    ≡ some (ok (record no_files { raw_bin = payloads rows; index_jsonl = index_text io rows }))
unfolding capture create create_part append_packet append_part ensure_interface should_rotate_for
    write_block timestamp_nanos_duration lookup insert should_rotate to_le_bytes key_eq bytes_eq
    Imported.imported
run-capture_example =
    run-capture layout (record { packet_kept = λ b. refl; interface_skipped = λ k. refl }) io tick 8
      28 size no_limits captured [] refl
      (
        omega arith,
        ((omega arith, omega arith, omega arith, omega arith), ((omega arith, omega arith), tt)),
      )
      (omega arith) (omega arith)

-- The imported session cannot be exported.
abbrev rows : List (IndexEntry × List ℕ)
rows = Imported.imported io tick 8 0 0 (packets blocks)

abbrev no_field : Unit {0} → List ℕ → Option Value
no_field v k = none

abbrev no_frame : List ℕ → Option (FrameEntry (Unit {0}))
no_frame l = none

abbrev parse_instant : List ℕ → Option ℤ
parse_instant [] = none
parse_instant (c ∷ cs) = some (pos c)

run-imported_example :
    (dir : SessionDir) × (Pcapng.run io tick 8 (file blocks) no_files ≡ some (ok dir))
    × (Session.run no_field (find_entry (map (λ r. r.0) rows)) no_frame parse_instant 28 size dir
        ≡ err pipeline_generic)
unfolding to_le_bytes Imported.imported from_envelope bytes_eq
run-imported_example =
    run-imported io tick 8 no_field (find_entry (map (λ r. r.0) rows)) no_frame parse_instant 28
      size blocks
      (
        omega arith,
        ((omega arith, omega arith), ((omega arith, omega arith, omega arith, omega arith), tt)),
      )
      (omega arith) (omega arith) (omega arith) ((omega arith, refl), tt)

-- A directory with a packet of the source `pcap:e` at offset 0 and a chunk of a terminal behind it.
abbrev terminal : IndexEntry
unfolding from_envelope
terminal = from_envelope io.format_rfc3339_ns (at 3) 8 incoming Index.bytes 2 1

abbrev captured_row : IndexEntry
unfolding from_envelope
captured_row = record (from_envelope io.format_rfc3339_ns (at 2) 8 incoming Index.datagram 0 2) {
  source = some (112 ∷ 99 ∷ 97 ∷ 112 ∷ 58 ∷ 101 ∷ []);
}

abbrev mixed : List (IndexEntry × List ℕ)
mixed = (captured_row, 7 ∷ 8 ∷ []) ∷ (terminal, 9 ∷ []) ∷ []

abbrev mixed_reader : List ℕ → Option IndexEntry
mixed_reader = find_entry (captured_row ∷ terminal ∷ [])

abbrev mixed_dir : SessionDir
mixed_dir = record {
  raw_bin = 7 ∷ 8 ∷ 9 ∷ [];
  index_jsonl = printed mixed_reader print_entry mixed;
  lines_jsonl = [];
  frames_jsonl = [];
}

run-rows_example :
    shown_in no_field mixed_reader no_frame parse_instant 28 size
      (Session.run no_field mixed_reader no_frame parse_instant 28 size mixed_dir)
    ≡ all_shown no_field mixed_reader no_frame parse_instant 28 size (
        some_packets no_field mixed_reader no_frame parse_instant 28 size
          (demanded no_field mixed_reader no_frame parse_instant 28 size [] mixed))
unfolding bytes_eq read_at buf_lines Session.read_packet_metadata Session.metadata_loop
    from_envelope
run-rows_example =
    run-rows no_field mixed_reader no_frame parse_instant 28 size print_entry mixed_dir [] mixed
      ((omega arith, refl), ((omega arith, refl), tt)) (refl, (refl, tt)) (omega arith) refl refl

-- One packet is shown, of the interface `e`.
mixed_shown :
    demanded no_field mixed_reader no_frame parse_instant 28 size [] mixed
    ≡ ok (
        record {
          key = record { linktype = 1; label = 101 ∷ [] };
          timestamp = record { secs = 0; nanos = 67 };
          original_len = 2;
          bytes = 7 ∷ 8 ∷ [];
        }
        ∷ [])
unfolding demanded from_envelope lookup bytes_eq
mixed_shown = refl
