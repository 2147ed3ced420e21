-- ===== src/Log/Wal/Recovery.antt =====
-- `WalWriter::open` and `WalReader::read_all` of wal.rs: what they keep of a file.
use tracemux.Prelude.{
  ℕ, suc, ◌+◌, ◌^◌, ◌<◌, ◌≡◌, refl, sym, ap, ◌∙◌, List, [], ◌++◌, none, arith, length, take, drop,
  append-nil, append_assoc, length-append, All-drop, subst, take-append, take_all, drop-append, All,
}
use tracemux.Prelude.Bytes.{IsBytes, from_le_bytes, bytes_eq_self}
use tracemux.Error.{ok, err, pipeline_generic}
use tracemux.Log.File.{File, seek, set_len, sync_data, write_all}
use tracemux.Log.Wal.{
  WalWriter, magic, format_version, header_len, verify_header, write_header, file_header,
  scan_valid_end, open_writer, read_all,
}
use tracemux.Log.Wal.Codec.{IsPayload, encode_record, length-encode_record, next_record}
use tracemux.Log.Wal.Scan.{
  encode, records_at, IsTorn, next_record-IsTorn, IsTorn-next_record, parse_records,
  scan_loop-encode, read_loop-encode,
}

-- A header of this version; the code reads neither the reserved bytes nor the flags.
pub record IsHeader (h : List ℕ) : Type 0 where
  pub sized : length h ≡ header_len
  pub magical : take 4 h ≡ magic
  pub versioned : from_le_bytes (take 2 (drop 4 h)) ≡ format_version

pub verify_header-IsHeader : (h rest : List ℕ) → IsHeader h → verify_header (h ++ rest) ≡ ok rest
unfolding verify_header
verify_header-IsHeader h rest v = ground (
  arith,
  length-append h rest,
  take-append 12 h rest v.sized,
  drop-append 12 h rest v.sized,
  bytes_eq_self magic,
)

pub file_header-IsHeader : IsHeader file_header
unfolding from_le_bytes
file_header-IsHeader = record { sized = refl; magical = refl; versioned = refl }

-- The state of a writer on a file of a header and the records of `ps`, its cursor at the end.
abbrev pub writer_of : List ℕ → List ℕ → WalWriter
writer_of bytes synced = record {
  file = record { bytes = bytes; pos = length bytes; synced = synced };
  end = length bytes;
}

tail-IsBytes : (xs tail rest : List ℕ) → rest ≡ xs ++ tail → IsBytes rest → IsBytes tail
tail-IsBytes xs tail rest e bs =
    subst IsBytes (ap (drop (length xs)) e ∙ drop-append (length xs) xs tail refl)
      (All-drop _ (length xs) rest bs)

pub nil-IsTorn : (crc32 : List ℕ → ℕ) → IsTorn crc32 []
nil-IsTorn crc32 p r small e = absurd (
    omega
      (arith, ap length e, length-append (encode_record crc32 p) r, length-encode_record crc32 p))

module _ (crc32 : List ℕ → ℕ) (crc32-lt : (p : List ℕ) → crc32 p < 2 ^ 32) where
  -- With a checksum below 2 ^ 32: from a header of this version, records of at most 1 MiB and a
  -- torn tail of bytes, `read_all` yields those records, each with the offset of its payload, and
  -- the offset at which the tail begins.
  pub read_all-encode :
      (h : List ℕ) (ps : List (List ℕ)) (tail : List ℕ)
      → IsHeader h
      → All IsPayload ps
      → IsBytes tail
      → IsTorn crc32 tail
      → read_all crc32 (h ++ (encode crc32 ps ++ tail))
        ≡ ok (records_at 12 ps, 12 + length (encode crc32 ps))
  unfolding read_all
  read_all-encode h ps tail v small bs torn =
      rw (verify_header-IsHeader h (encode crc32 ps ++ tail) v) (
        ap ok (
          read_loop-encode crc32 crc32-lt ps tail (suc (length (encode crc32 ps ++ tail))) 12 []
            small (next_record-IsTorn crc32 tail bs torn) (omega arith)))

  scan_valid_end-encode :
      (ps : List (List ℕ)) (tail : List ℕ) (len : ℕ)
      → All IsPayload ps
      → next_record crc32 tail ≡ none
      → 12 + length (encode crc32 ps ++ tail) ≡ len
      → scan_valid_end crc32 (encode crc32 ps ++ tail) len ≡ 12 + length (encode crc32 ps)
  unfolding scan_valid_end
  scan_valid_end-encode ps tail len small torn e =
      scan_loop-encode crc32 crc32-lt ps tail (suc (length (encode crc32 ps ++ tail))) 12 len small
        torn (omega arith) e

  -- With a checksum below 2 ^ 32: on a header of this version, records of at most 1 MiB and a torn
  -- tail of bytes, `WalWriter::open` cuts the tail off, keeps the rest, and stands at the end of
  -- the file.
  pub open_writer-recovers :
      (f : File) (h : List ℕ) (ps : List (List ℕ)) (tail : List ℕ)
      → f.bytes ≡ h ++ (encode crc32 ps ++ tail)
      → IsHeader h
      → All IsPayload ps
      → IsBytes tail
      → IsTorn crc32 tail
      → open_writer crc32 f ≡ ok (writer_of (h ++ encode crc32 ps) f.synced)
  unfolding open_writer set_len seek
  open_writer-recovers f h ps tail e v small bs torn = ground (
    arith,
    ap verify_header e,
    verify_header-IsHeader h (encode crc32 ps ++ tail) v,
    ap length e,
    length-append h (encode crc32 ps ++ tail),
    length-append h (encode crc32 ps),
    scan_valid_end-encode ps tail (length f.bytes) small (next_record-IsTorn crc32 tail bs torn),
    ap (take (length (h ++ encode crc32 ps))) e,
    ap (take (length (h ++ encode crc32 ps))) (append_assoc h (encode crc32 ps) tail),
    take-append (length (h ++ encode crc32 ps)) (h ++ encode crc32 ps) tail,
    take_all (length f.bytes) f.bytes,
  )

  -- With a checksum below 2 ^ 32: whatever bytes follow a header of this version, they are records
  -- and a torn tail, which no record begins; `open` keeps the records, `read_all` yields them and
  -- stops where `open` cuts, and yields them again from the cut file.
  pub open_writer-read_all :
      (f : File) (h rest : List ℕ)
      → f.bytes ≡ h ++ rest
      → IsHeader h
      → IsBytes rest
      → (ps : List (List ℕ)) × (tail : List ℕ) × (rest ≡ encode crc32 ps ++ tail)
        × IsTorn crc32 tail
        × (open_writer crc32 f ≡ ok (writer_of (h ++ encode crc32 ps) f.synced))
        × (read_all crc32 f.bytes ≡ ok (records_at 12 ps, length (h ++ encode crc32 ps)))
        × (read_all crc32 (h ++ encode crc32 ps)
            ≡ ok (records_at 12 ps, length (h ++ encode crc32 ps)))
  open_writer-read_all f h rest e v bs =
      let (ps, tail, small, parts, none_there) =
        parse_records crc32 (suc (length rest)) rest (omega arith) bs in
      let torn = IsTorn-next_record crc32 crc32-lt tail none_there in
      let tail_bytes = tail-IsBytes (encode crc32 ps) tail rest parts bs in
      let whole : f.bytes ≡ h ++ (encode crc32 ps ++ tail) = e ∙ ap (λ r. h ++ r) parts in
      let size : 12 + length (encode crc32 ps) ≡ length (h ++ encode crc32 ps) =
        omega (arith, length-append h (encode crc32 ps), v.sized) in
      (
        ps,
        tail,
        parts,
        torn,
        open_writer-recovers f h ps tail whole v small tail_bytes torn,
        ap (read_all crc32) whole
            ∙ read_all-encode h ps tail v small tail_bytes torn
            ∙ ap (λ n. ok (records_at 12 ps, n)) size,
        ap (λ r. read_all crc32 (h ++ r)) (sym (append-nil (encode crc32 ps)))
            ∙ read_all-encode h ps [] v small tt (nil-IsTorn crc32)
            ∙ ap (λ n. ok (records_at 12 ps, n)) size,
      )

  -- A new or empty file gets the header, synced, and the writer stands behind it.
  pub open_writer-new :
      (f : File) → f.bytes ≡ [] → open_writer crc32 f ≡ ok (writer_of file_header file_header)
  unfolding open_writer write_header write_all sync_data seek
  open_writer-new f e = ground (arith, ap length e, e)

  -- A file that is shorter than a header and not empty is refused as a general error, and not
  -- mended.
  pub open_writer-short :
      (f : File)
      → 0 < length f.bytes
      → length f.bytes < header_len
      → open_writer crc32 f ≡ err pipeline_generic
  unfolding open_writer verify_header
  open_writer-short f h k = ground arith
