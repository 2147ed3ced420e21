-- ===== src/Framer/LengthPrefixed.antt =====
-- crates/core/src/framer/length_prefixed.rs: the length-prefixed framer. `usize` has 64 bits.
pub mod Frames
use tracemux.Prelude.{
  ℕ, ◌+◌, ◌-◌, ◌%◌, ◌^◌, List, Option, none, some, Bool, length, take, drop, ltb, if◌then◌else◌,
}
use tracemux.Prelude.Bytes.{from_le_bytes, from_be_bytes}
use tracemux.Error.{Result, ok, err, framer_overflow}

-- `HeaderWidth`
pub data HeaderWidth : Type 0 where
  u8 u16 u32 u64 : HeaderWidth

-- `HeaderWidth::bytes`
unfoldable pub bytes : HeaderWidth → ℕ
bytes u8 = 1
bytes u16 = 2
bytes u32 = 4
bytes u64 = 8

-- `Endian`
pub data Endian : Type 0 where
  big little : Endian

-- `LengthPrefixedFramer`
pub record LengthPrefixedFramer : Type 0 where
  pub width : HeaderWidth
  pub endian : Endian
  pub include_header : Bool
  pub max_frame : ℕ

-- `read_len`, on a header of `width.bytes()` bytes; at one byte the two orders agree.
unfoldable pub read_len : LengthPrefixedFramer → List ℕ → ℕ
read_len f hdr = elim f.endian [ big ↦ from_be_bytes hdr | little ↦ from_le_bytes hdr ]

-- `LengthPrefixedFramer::poll_frame`; `-` stops at zero as `saturating_sub` does.
unfoldable pub poll_frame : LengthPrefixedFramer → List ℕ → Result (Option (List ℕ)) × List ℕ
unfolding bytes read_len
poll_frame f buf =
    let hdr_len = bytes f.width in
    if ltb (length buf) hdr_len
    then (ok none, buf)
    else (let raw_len = read_len f (take hdr_len buf) in
        let payload_len = if f.include_header then raw_len - hdr_len else raw_len in
        if ltb f.max_frame payload_len
        then (err framer_overflow, buf)
        else if ltb (length buf) ((hdr_len + payload_len) % 2 ^ 64)
        then (ok none, buf)
        else (let rest = drop hdr_len buf in
            (ok (some (take payload_len rest)), drop payload_len rest)))
