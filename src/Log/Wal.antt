-- ===== src/Log/Wal.antt =====
-- crates/core/src/log/wal.rs: the write-ahead log, its writer, its reader and its recovery scan.
-- The checksum of the crate crc32fast is the parameter `crc32`. Reads and seeks are taken to
-- succeed; a write or a sync may fail, and a failing write leaves a prefix of its bytes.
pub mod Codec
pub mod Scan
pub mod Recovery
pub mod Append
use tracemux.Prelude.{
  ℕ, zero, suc, ◌+◌, ◌*◌, ◌^◌, List, [], ◌∷◌, ◌++◌, Option, none, some, Bool, true, false, not,
  length, take, drop, ltb, leb, ◌==◌, if◌then◌else◌,
}
use tracemux.Prelude.Bytes.{to_le_bytes, from_le_bytes, bytes_eq}
use tracemux.Error.{Result, ok, err, ◌>>=◌, pipeline_generic, framer_overflow, wal_fsync}
use tracemux.Log.File.{File, write_all, sync_data, seek, set_len, read_exact}

-- `MAGIC`, "WLOG"
abbrev pub magic : List ℕ
magic = 0x57 ∷ 0x4c ∷ 0x4f ∷ 0x47 ∷ []

abbrev pub format_version : ℕ
format_version = 1

abbrev pub header_len : ℕ
header_len = 12

abbrev pub max_payload : ℕ
max_payload = 1024 * 1024

-- The header that `write_header` writes: magic, version, and the reserved bytes and flags at zero.
abbrev pub file_header : List ℕ
file_header = magic ++ (1 ∷ 0 ∷ 0 ∷ 0 ∷ 0 ∷ 0 ∷ 0 ∷ 0 ∷ [])

unfoldable pub write_header : File → File
unfolding write_all
write_header f = write_all file_header f

-- `verify_header`; on success what follows the header is left to read. The two failures after the
-- read are "bad magic" and "unsupported version".
unfoldable pub verify_header : List ℕ → Result (List ℕ)
unfolding read_exact bytes_eq from_le_bytes
verify_header bytes = elim (read_exact header_len bytes) [
  | none ↦ err pipeline_generic
  | some (h, rest) ↦
      if bytes_eq (take 4 h) magic
      then (if from_le_bytes (take 2 (drop 4 h)) == format_version
          then ok rest
          else err pipeline_generic)
      else err pipeline_generic
]

-- `WalRecord`
pub record WalRecord : Type 0 where
  pub offset : ℕ
  pub payload : List ℕ

-- `WalWriter`
pub record WalWriter : Type 0 where
  pub file : File
  pub end : ℕ

-- How a write or a sync of the operating system ends; a write that fails has put down a prefix.
pub data Io : Type 0 where
  done : Io
  fails : ℕ → Io

-- `write_all` with its outcome.
unfoldable pub try_write : Io → List ℕ → File → Bool × File
try_write done xs f = (true, write_all xs f)
try_write (fails k) xs f = (false, write_all (take k xs) f)

-- `WalWriter::sync`
unfoldable pub sync : Io → WalWriter → Result (Unit {0}) × WalWriter
sync done w = (ok tt, record w { file = sync_data w.file })
sync (fails k) w = (err wal_fsync, w)

module _ (crc32 : List ℕ → ℕ) where
  -- The loop of `scan_valid_end`: `rest` is what the reader has left, and `len` the file's length.
  -- A round takes eight bytes at least, so `length rest` rounds are enough.
  unfoldable pub scan_loop : ℕ → List ℕ → ℕ → ℕ → ℕ
  scan_loop zero rest pos len = pos
  scan_loop (suc fuel) rest pos len = if pos == len then pos else elim (read_exact 8 rest) [
    | none ↦ pos
    | some (hdr, body) ↦
        let rlen = from_le_bytes (take 4 hdr) in
        let rcrc = from_le_bytes (drop 4 hdr) in
        if ltb max_payload rlen
        then pos
        else if ltb len (pos + 8 + rlen)
        then pos
        else elim (read_exact rlen body) [
          | none ↦ pos
          | some (payload, rest') ↦
              let next = scan_loop fuel rest' (pos + (8 + rlen)) len in
              if crc32 payload == rcrc then next else pos
        ]
  ]

  -- `scan_valid_end`, from the bytes behind the header.
  unfoldable pub scan_valid_end : List ℕ → ℕ → ℕ
  scan_valid_end rest len = scan_loop (suc (length rest)) rest header_len len

  -- `WalWriter::open`, on the file as `OpenOptions` opens it.
  unfoldable pub open_writer : File → Result WalWriter
  open_writer f =
      let len = length f.bytes in
      if len == 0
      then (let g = sync_data (write_header (seek 0 f)) in
          ok (record { file = seek header_len g; end = header_len }))
      else (do
        rest ← verify_header f.bytes
        let end = scan_valid_end rest len
        let g = if end == len then f else set_len end f
        ok (record { file = seek end g; end = end }))

  -- `WalWriter::append`, with the outcomes of its two writes.
  unfoldable pub append : Io → Io → List ℕ → WalWriter → Result ℕ × WalWriter
  append io₁ io₂ payload w =
      if leb (2 ^ 32) (length payload)
      then (err pipeline_generic, w)
      else if ltb max_payload (length payload)
      then (err framer_overflow, w)
      else (let payload_off = w.end + 8 in
          let hdr = to_le_bytes 4 (length payload) ++ to_le_bytes 4 (crc32 payload) in
          let (ok₁, f₁) = try_write io₁ hdr w.file in
          let (ok₂, f₂) = try_write io₂ payload f₁ in
          if ok₁
          then (if ok₂
              then (ok payload_off, record { file = f₂; end = payload_off + length payload })
              else (err pipeline_generic, record w { file = f₂ }))
          else (err pipeline_generic, record w { file = f₁ }))

  -- The loop of `WalReader::read_all`.
  unfoldable pub read_loop : ℕ → List ℕ → ℕ → List WalRecord → List WalRecord × ℕ
  read_loop zero rest pos out = (out, pos)
  read_loop (suc fuel) rest pos out = elim (read_exact 8 rest) [
    | none ↦ (out, pos)
    | some (hdr, body) ↦
        let len = from_le_bytes (take 4 hdr) in
        let crc = from_le_bytes (drop 4 hdr) in
        if ltb max_payload len then (out, pos) else elim (read_exact len body) [
          | none ↦ (out, pos)
          | some (payload, rest') ↦
              let found : WalRecord = record { offset = pos + 8; payload = payload } in
              let next = read_loop fuel rest' (pos + 8 + len) (out ++ (found ∷ [])) in
              if crc32 payload == crc then next else (out, pos)
        ]
  ]

  -- `WalReader::open` and `read_all`.
  unfoldable pub read_all : List ℕ → Result (List WalRecord × ℕ)
  read_all bytes = do
    rest ← verify_header bytes
    ok (read_loop (suc (length rest)) rest header_len [])
