-- ===== src/Exporter/Pcapng.antt =====
-- crates/core/src/exporter/pcapng.rs: the writers of packets. The blocks of a file are data; how many
-- bytes each takes, and how many the head of a file, is pcap_file's and a parameter. A label is its
-- code points. Creating and writing files succeeds.
pub mod Blocks
pub mod Part
pub mod Parts
pub mod Metadata
pub mod Session
use tracemux.Prelude.{
  ℕ, zero, suc, ◌+◌, ◌-◌, ◌/◌, ◌%◌, ◌^◌, min, List, [], ◌∷◌, ◌++◌, Option, none, some, Bool, true,
  false, ◌&&◌, length, ltb, ◌==◌, if◌then◌else◌, ◌≡◌, ◌↔◌, refl, ap, Eq, arith, All,
}
use tracemux.Prelude.Ints.{ℤ, pos, negsuc}
use tracemux.Prelude.Bytes.{bytes_eq, bytes_eq_iff}
use tracemux.Prelude.Maps.{HashMap, lookup, insert}
use tracemux.Error.{Result, ok, err, pipeline_generic}
use tracemux.Log.Rotate.{RotatePolicy, RotateStats, should_rotate}

-- `InterfaceKey`, and its `PartialEq`
pub record InterfaceKey : Type 0 where
  pub linktype : ℕ
  pub label : List ℕ

unfoldable pub key_eq : InterfaceKey → InterfaceKey → Bool
key_eq a b = a.linktype == b.linktype && bytes_eq a.label b.label

pub key_eq_iff : (a b : InterfaceKey) → (key_eq a b ≡ true) ↔ (a ≡ b)
unfolding key_eq
key_eq_iff a b = ground (arith, bytes_eq_iff a.label b.label)

instance abbrev pub interface_key : Eq InterfaceKey
interface_key = record { beq = key_eq; beq_iff = key_eq_iff }

-- `PcapPacket`, of what the writer reads
pub record PcapPacket : Type 0 where
  pub linktype : ℕ
  pub ts_origin_ns : ℤ
  pub original_len : ℕ
  pub bytes : List ℕ

-- `Duration`, in seconds and nanoseconds
pub record Duration : Type 0 where
  pub secs : ℕ
  pub nanos : ℕ

-- The blocks: an interface description, and an enhanced packet.
pub record EnhancedPacketBlock : Type 0 where
  pub interface_id : ℕ
  pub timestamp : Duration
  pub original_len : ℕ
  pub bytes : List ℕ

pub data Block : Type 0 where
  interface_block : InterfaceKey → Block
  packet_block : EnhancedPacketBlock → Block

-- `timestamp_nanos_duration`; seconds past `u64` are refused
unfoldable pub timestamp_nanos_duration : ℤ → Result Duration
timestamp_nanos_duration (negsuc n) = err pipeline_generic
timestamp_nanos_duration (pos n) =
    if ltb (2 ^ 64 - 1) (n / 1_000_000_000)
    then err pipeline_generic
    else ok (record { secs = n / 1_000_000_000; nanos = n % 1_000_000_000 })

-- `timestamp_ns_duration`
abbrev pub timestamp_ns_duration : ℤ → Result Duration
timestamp_ns_duration ts = timestamp_nanos_duration ts

-- `u64::try_from(next.saturating_sub(first)).unwrap_or(0)` on `i64`
unfoldable pub elapsed : ℤ → ℤ → ℕ
elapsed (pos a) (pos b) = a - b
elapsed (pos a) (negsuc b) = min (a + (b + 1)) (2 ^ 63 - 1)
elapsed (negsuc a) (pos b) = 0
elapsed (negsuc a) (negsuc b) = b - a

-- `PcapngPartWriter`, with the blocks that it wrote
pub record PcapngPartWriter : Type 0 where
  pub blocks : List Block
  pub bytes_written : ℕ
  pub interfaces : HashMap InterfaceKey ℕ
  pub first_ts_origin_ns : Option ℤ
  pub packets : ℕ

-- `PcapngStreamWriter`, with the parts that are closed, the last one first; `artifacts` has a path for
-- each of these and for the current one
pub record PcapngStreamWriter : Type 0 where
  pub rotate : RotatePolicy
  pub next_part_index : ℕ
  pub artifacts : List ℕ
  pub closed : List PcapngPartWriter
  pub current : PcapngPartWriter

module _ (head_len : ℕ) (block_len : Block → ℕ) where
  -- `PcapngPartWriter::create`
  unfoldable pub create_part : PcapngPartWriter
  create_part = record {
    blocks = [];
    bytes_written = head_len;
    interfaces = [];
    first_ts_origin_ns = none;
    packets = 0;
  }

  -- `write_pcapng_block` through `CountingWriter`, whose count saturates
  unfoldable pub write_block : Block → PcapngPartWriter → PcapngPartWriter
  write_block b w = record w {
    blocks = w.blocks ++ (b ∷ []);
    bytes_written = min (w.bytes_written + block_len b) (2 ^ 64 - 1);
  }

  -- `ensure_interface`
  abbrev pub new_interface : InterfaceKey → PcapngPartWriter → Result ℕ × PcapngPartWriter
  new_interface key w =
      let id = length w.interfaces in
      if ltb (2 ^ 32 - 1) id then (err pipeline_generic, w) else (
        ok id,
        record (write_block (interface_block key) w) { interfaces = insert key id w.interfaces },
      )

  abbrev pub known_interface :
      InterfaceKey → Option ℕ → PcapngPartWriter → Result ℕ × PcapngPartWriter
  known_interface key (some id) w = (ok id, w)
  known_interface key none w = new_interface key w

  unfoldable pub ensure_interface : InterfaceKey → PcapngPartWriter → Result ℕ × PcapngPartWriter
  ensure_interface key w = known_interface key (lookup key w.interfaces) w

  -- `get_or_insert`
  abbrev pub get_or_insert : ℤ → Option ℤ → Option ℤ
  get_or_insert ts none = some ts
  get_or_insert ts (some first) = some first

  -- `PcapngPartWriter::append_packet`
  abbrev pub write_packet :
      PcapPacket → ℕ → Result Duration → PcapngPartWriter → Result (Unit {0}) × PcapngPartWriter
  write_packet p id (err e) w = (err e, w)
  write_packet p id (ok ts) w = (
    ok tt,
    record (write_block
        (packet_block (record {
          interface_id = id;
          timestamp = ts;
          original_len = p.original_len;
          bytes = p.bytes;
        }))
        w) {
          first_ts_origin_ns = get_or_insert p.ts_origin_ns w.first_ts_origin_ns;
          packets = min (w.packets + 1) (2 ^ 64 - 1);
        },
  )

  abbrev pub append_on :
      PcapPacket → Result ℕ × PcapngPartWriter → Result (Unit {0}) × PcapngPartWriter
  append_on p (err e, w) = (err e, w)
  append_on p (ok id, w) = write_packet p id (timestamp_ns_duration p.ts_origin_ns) w

  unfoldable pub append_part :
      List ℕ → PcapPacket → PcapngPartWriter → Result (Unit {0}) × PcapngPartWriter
  append_part label p w =
      append_on p (ensure_interface (record { linktype = p.linktype; label = label }) w)

  -- `age_for`
  abbrev pub age_from : ℤ → Option ℤ → ℕ
  age_from next none = 0
  age_from next (some first) = elapsed next first

  unfoldable pub age_for : ℤ → PcapngPartWriter → ℕ
  age_for next w = age_from next w.first_ts_origin_ns

  -- `should_rotate_for`
  unfoldable pub should_rotate_for : ℤ → RotatePolicy → PcapngPartWriter → Bool
  should_rotate_for next policy w =
      if w.packets == 0
      then false
      else should_rotate (record { size_bytes = w.bytes_written; age = age_for next w }) policy

  -- `PcapngStreamWriter::create`
  unfoldable pub create : RotatePolicy → PcapngStreamWriter
  create policy = record {
    rotate = policy;
    next_part_index = 1;
    artifacts = 0 ∷ [];
    closed = [];
    current = create_part;
  }

  -- `rotate`; a part is named by its index, the first one by 0
  unfoldable pub rotate_part : PcapngStreamWriter → PcapngStreamWriter
  rotate_part s = record s {
    next_part_index = min (s.next_part_index + 1) (2 ^ 32 - 1);
    artifacts = s.artifacts ++ (s.next_part_index ∷ []);
    closed = s.current ∷ s.closed;
    current = create_part;
  }

  -- `PcapngStreamWriter::append_packet`
  abbrev pub append_current :
      List ℕ → PcapPacket → PcapngStreamWriter → Result (Unit {0}) × PcapngStreamWriter
  append_current label p s =
      let r = append_part label p s.current in (r.0, record s { current = r.1 })

  unfoldable pub append_packet :
      List ℕ → PcapPacket → PcapngStreamWriter → Result (Unit {0}) × PcapngStreamWriter
  append_packet label p s =
      append_current label p
        (if should_rotate_for p.ts_origin_ns s.rotate s.current then rotate_part s else s)
