-- ===== src/Log/Index.antt =====
-- crates/core/src/log/index.rs: the rows of index.jsonl, and the envelope of a row. A text is a list of
-- code points, a UUID a number, an `i32` and an `f32` their words of 32 bits. Printing an instant is a
-- call of the crate time, the parameter `format_rfc3339_ns`; printing a row is one of serde_json, the
-- parameter `to_string`.
use tracemux.Prelude.{ℕ, ◌≡◌, ap, ◌∙◌, List, [], ◌∷◌, ◌++◌, Option, none, append_assoc}
use tracemux.Prelude.Ints.{ℤ}
use tracemux.Time.NodeClockTable.{ClockQuality}
use tracemux.Log.BufWriter.{BufWriter, write_all, flush, flush-write_all}

-- `ClockSource`, crates/core/src/time/mod.rs
pub data ClockSource : Type 0 where
  system ntp ptp monotonic imported : ClockSource

-- `DualTimestamp`, crates/core/src/time/mod.rs
pub record DualTimestamp : Type 0 where
  pub ts_origin_ns : ℤ
  pub ts_ingest_ns : ℤ
  pub mono_ns : ℕ
  pub boot_id : ℕ
  pub node_id : ℕ
  pub clock_offset_ms : ℕ
  pub clock_quality : ClockQuality
  pub drift_ppm : ℕ
  pub clock_source : ClockSource

-- `Dir`: `In` and `Out`
pub data Dir : Type 0 where
  incoming outgoing : Dir

-- `Kind`: `Bytes`, `Datagram`, `Frame` and `Record`
pub data Kind : Type 0 where
  bytes datagram frame decoded : Kind

-- `IndexEntry`
pub record IndexEntry : Type 0 where
  pub ts_origin : List ℕ
  pub ts_ingest : List ℕ
  pub mono_ns : ℕ
  pub boot_id : ℕ
  pub node_id : ℕ
  pub clock_offset_ms : ℕ
  pub clock_quality : ClockQuality
  pub drift_ppm : ℕ
  pub clock_source : ClockSource
  pub sid : ℕ
  pub dir : Dir
  pub kind : Kind
  pub off : ℕ
  pub len : ℕ
  pub level : Option (List ℕ)
  pub tags : List (List ℕ)
  pub correlation_id : Option (List ℕ)
  pub source : Option (List ℕ)
  pub host : Option (List ℕ)
  pub schema_id : Option (List ℕ)

-- `IndexEntry::from_envelope`
unfoldable pub from_envelope : (ℤ → List ℕ) → DualTimestamp → ℕ → Dir → Kind → ℕ → ℕ → IndexEntry
from_envelope format_rfc3339_ns ts sid dir kind off len = record {
  ts_origin = format_rfc3339_ns ts.ts_origin_ns;
  ts_ingest = format_rfc3339_ns ts.ts_ingest_ns;
  mono_ns = ts.mono_ns;
  boot_id = ts.boot_id;
  node_id = ts.node_id;
  clock_offset_ms = ts.clock_offset_ms;
  clock_quality = ts.clock_quality;
  drift_ppm = ts.drift_ppm;
  clock_source = ts.clock_source;
  sid = sid;
  dir = dir;
  kind = kind;
  off = off;
  len = len;
  level = none;
  tags = [];
  correlation_id = none;
  source = none;
  host = none;
  schema_id = none;
}

-- `IndexWriter::append`: the row and a line feed
unfoldable pub append : (IndexEntry → List ℕ) → (List ℕ → ℕ) → IndexEntry → BufWriter → BufWriter
append to_string spill entry w = write_all spill (10 ∷ []) (write_all spill (to_string entry) w)

-- The file has what it had, and the row on a line.
pub flush-append :
    (to_string : IndexEntry → List ℕ) (spill : List ℕ → ℕ) (e : IndexEntry) (w : BufWriter)
    → (flush (append to_string spill e w)).disk ≡ (flush w).disk ++ (to_string e ++ (10 ∷ []))
unfolding append
flush-append to_string spill e w =
    flush-write_all spill (10 ∷ []) (write_all spill (to_string e) w)
    ∙ ap (λ xs. xs ++ (10 ∷ [])) (flush-write_all spill (to_string e) w)
    ∙ append_assoc (flush w).disk (to_string e) (10 ∷ [])
