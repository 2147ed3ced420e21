-- ===== src/Importer/Pcapng.antt =====
-- crates/core/src/importer/pcapng.rs: the import of a pcapng file, which is its bytes, into a session's
-- directory. The clock at the n-th packet and the id of the session are parameters. The files do not
-- fail; what an import that ends with an error has left behind is not looked at.
pub mod Blocks
pub mod Taken
pub mod Packets
pub mod Imported
pub mod Exported
pub mod Refused
use tracemux.Prelude.{
  ℕ, zero, suc, ◌+◌, ◌-◌, ◌*◌, ◌^◌, min, List, [], ◌∷◌, ◌++◌, Option, none, some, Bool, true, false,
  length, take, drop, ltb, ◌==◌, if◌then◌else◌,
}
use tracemux.Prelude.Ints.{ℤ, pos, negsuc}
use tracemux.Prelude.Bytes.{from_le_bytes}
use tracemux.Error.{Result, ok, err, pipeline_generic}
use tracemux.Log.File.{read_exact}
use tracemux.Log.Raw
use tracemux.Log.Raw.{RawWriter}
use tracemux.Log.BufWriter
use tracemux.Log.BufWriter.{BufWriter}
use tracemux.Log.Index
use tracemux.Log.Index.{DualTimestamp, from_envelope}
use tracemux.Log.Session.{SessionDir, Crates}
use tracemux.Time.NodeClockTable

abbrev pub block_shb : ℕ
block_shb = 0x0A0D0D0A

abbrev pub block_epb : ℕ
block_epb = 6

abbrev pub shb_magic : ℕ
shb_magic = 0x1A2B3C4D

-- The writers, and how many packets there were.
pub record Writers : Type 0 where
  pub raw : RawWriter
  pub idx : BufWriter
  pub packets : ℕ

-- `u64 as i64`
unfoldable pub as_i64 : ℕ → ℤ
as_i64 n = if ltb n (2 ^ 63) then pos n else negsuc (2 ^ 64 - 1 - n)

-- `saturating_mul(1_000)` on `i64`
unfoldable pub times_thousand : ℤ → ℤ
times_thousand (pos n) = pos (min (n * 1000) (2 ^ 63 - 1))
times_thousand (negsuc n) = negsuc (min ((n + 1) * 1000 - 1) (2 ^ 63 - 1))

-- `imported_ts`
unfoldable pub imported_ts : ℤ → ℤ → DualTimestamp
imported_ts ts_origin_ns now = record {
  ts_origin_ns = ts_origin_ns;
  ts_ingest_ns = now;
  mono_ns = 0;
  boot_id = 0;
  node_id = 0;
  clock_offset_ms = 0;
  clock_quality = NodeClockTable.imported;
  drift_ppm = 0;
  clock_source = Index.imported;
}

-- `u32::from_le_bytes` of four bytes from `at` on
unfoldable pub u32_at : ℕ → List ℕ → ℕ
u32_at at body = from_le_bytes (take 4 (drop at body))

-- A turn of the loop: `done` ends it at the end of the file, `more` goes on with what is left.
pub data Turn : Type 0 where
  done : Result Writers → Turn
  more : List ℕ → Writers → Turn

module _ {V : Type 0} (io : Crates V) (clock : ℕ → ℤ) (sid : ℕ) where
  -- The arm of section headers.
  unfoldable pub on_section : List ℕ → Writers → Result Writers
  on_section body w =
      if ltb (length body) 4
      then err pipeline_generic
      else if u32_at 0 body == shb_magic
      then ok w
      else err pipeline_generic

  -- A packet that was found.
  unfoldable pub add_packet : ℕ → List ℕ → Writers → Writers
  add_packet ts_us pkt w =
      let ((off, len), raw) = Raw.append (io.spill (w.raw.buffered ++ pkt)) pkt w.raw in
      let ts = imported_ts (times_thousand (as_i64 ts_us)) (clock w.packets) in
      record {
        raw = raw;
        idx =
            Index.append io.entry_to_string io.spill
              (from_envelope io.format_rfc3339_ns ts sid Index.incoming Index.datagram off len)
              w.idx;
        packets = w.packets + 1;
      }

  -- The arm of enhanced packets.
  unfoldable pub on_packet : List ℕ → Writers → Result Writers
  on_packet body w =
      let cap_len = u32_at 12 body in
      if ltb (length body) 20
      then ok w
      else if ltb (length body) (20 + cap_len)
      then err pipeline_generic
      else ok (add_packet (u32_at 4 body * 2 ^ 32 + u32_at 8 body) (take cap_len (drop 20 body)) w)

  -- `match block_type`
  unfoldable pub on_block : ℕ → List ℕ → Writers → Result Writers
  on_block block_type body w =
      if block_type == block_shb
      then on_section body w
      else if block_type == block_epb
      then on_packet body w
      else ok w

  abbrev pub with_tail : ℕ → List ℕ → Writers → Option (List ℕ × List ℕ) → Turn
  with_tail block_type body w none = done (err pipeline_generic)
  with_tail block_type body w (some (tail, rest)) = elim (on_block block_type body w) [
    | ok w' ↦ more rest w'
    | err e ↦ done (err e)
  ]

  abbrev pub with_body : ℕ → Writers → Option (List ℕ × List ℕ) → Turn
  with_body block_type w none = done (err pipeline_generic)
  with_body block_type w (some (body, rest)) = with_tail block_type body w (read_exact 4 rest)

  abbrev pub with_header : Writers → Option (List ℕ × List ℕ) → Turn
  with_header w none = done (ok w)
  with_header w (some (header, rest)) =
      let total_len = u32_at 4 header in
      if ltb total_len 12
      then done (err pipeline_generic)
      else with_body (u32_at 0 header) w (read_exact (total_len - 12) rest)

  unfoldable pub turn : List ℕ → Writers → Turn
  turn rest w = with_header w (read_exact 8 rest)

  -- The loop, of at most `fuel` turns; `none` says that they were not enough.
  unfoldable pub import_loop : ℕ → List ℕ → Writers → Option (Result Writers)
  import_loop zero rest w = none
  import_loop (suc fuel) rest w = elim (turn rest w) [
    | done r ↦ some r
    | more rest' w' ↦ import_loop fuel rest' w'
  ]

  -- `run`, with a turn for every byte of the file and one more
  abbrev pub close_files : SessionDir → Result Writers → Result SessionDir
  close_files dst (err e) = err e
  close_files dst (ok w) =
      ok (record dst {
        raw_bin = (Raw.flush w.raw).disk;
        index_jsonl = (BufWriter.flush w.idx).disk;
      })

  abbrev pub finish : SessionDir → Option (Result Writers) → Option (Result SessionDir)
  finish dst none = none
  finish dst (some r) = some (close_files dst r)

  abbrev pub open_files : SessionDir → Writers
  open_files dst = record {
    raw = Raw.create dst.raw_bin;
    idx = BufWriter.new dst.index_jsonl;
    packets = 0;
  }

  unfoldable pub run : List ℕ → SessionDir → Option (Result SessionDir)
  run src dst = finish dst (import_loop (length src + 1) src (open_files dst))
