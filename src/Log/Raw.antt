-- ===== src/Log/Raw.antt =====
-- crates/core/src/log/raw.rs: the file of raw payloads. A `BufWriter` may pass on bytes to the file
-- whenever it is written to: how many is an argument of `append`.
pub mod Offsets
use tracemux.Prelude.{
  ℕ, ◌+◌, ◌-◌, ◌%◌, ◌^◌, min, List, [], ◌∷◌, ◌++◌, Option, none, some, length, take, drop, leb,
  if◌then◌else◌,
}

-- `RawWriter`: the bytes of the file, those still in the buffer, and the offset of the next append
pub record RawWriter : Type 0 where
  pub disk : List ℕ
  pub buffered : List ℕ
  pub pos : ℕ

-- `RawWriter::create`, on the bytes of the file if there is one
unfoldable pub create : List ℕ → RawWriter
create bytes = record { disk = bytes; buffered = []; pos = length bytes }

-- `RawWriter::append`, where `spill` bytes go on to the file
unfoldable pub append : ℕ → List ℕ → RawWriter → (ℕ × ℕ) × RawWriter
append spill payload w =
    let all = w.buffered ++ payload in
    let off = w.pos in
    let len = min (length payload) (2 ^ 32 - 1) in
    (
      (off, len),
      record {
        disk = w.disk ++ take spill all;
        buffered = drop spill all;
        pos = (w.pos + length payload) % 2 ^ 64;
      },
    )

-- `RawWriter::flush`
unfoldable pub flush : RawWriter → RawWriter
flush w = record w { disk = w.disk ++ w.buffered; buffered = [] }

-- `RawReader::read_at`, on the bytes of the file; `none` is `UnexpectedEof`
unfoldable pub read_at : ℕ → ℕ → List ℕ → Option (List ℕ)
read_at off len bytes =
    if leb len (length (drop off bytes)) then some (take len (drop off bytes)) else none
