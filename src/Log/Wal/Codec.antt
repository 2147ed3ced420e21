-- ===== src/Log/Wal/Codec.antt =====
-- The record format of wal.rs: what `append` lays down, and what the two scanning loops accept.
use tracemux.Prelude.{
  ℕ, suc, ◌+◌, ◌^◌, ◌≤◌, ◌<◌, ◌≡◌, sym, ap, ap₂, ◌∙◌, List, [], ◌∷◌, ◌++◌, Option, none, some,
  arith, length, take, drop, ltb, ◌==◌, if◌then◌else◌, append_assoc, length-append, take-append,
  drop-append, take-append-drop, length-take, length-drop, All-take, All-drop,
}
use tracemux.Prelude.Bytes.{
  to_le_bytes, from_le_bytes, length-to_le_bytes, from_le_bytes-to_le_bytes, IsBytes,
  to_le_bytes-from_le_bytes,
}
use tracemux.Log.File.{read_exact}
use tracemux.Log.Wal.{max_payload, WalRecord, scan_loop, read_loop}

abbrev pub IsPayload : List ℕ → Type 0
IsPayload p = length p ≤ max_payload

field_of_bytes :
    (xs : List ℕ) (n : ℕ) → IsBytes xs → length xs ≡ 4 → n ≡ from_le_bytes xs → to_le_bytes 4 n ≡ xs
field_of_bytes xs n bs h e = ap₂ to_le_bytes (sym h) e ∙ to_le_bytes-from_le_bytes xs bs

header_of_bytes :
    (rest : List ℕ) (n c : ℕ)
    → IsBytes rest
    → 8 ≤ length rest
    → n ≡ from_le_bytes (take 4 (take 8 rest))
    → c ≡ from_le_bytes (drop 4 (take 8 rest))
    → to_le_bytes 4 n ++ to_le_bytes 4 c ≡ take 8 rest
header_of_bytes rest n c bs h en ec =
    ap₂ ◌++◌
      (field_of_bytes (take 4 hdr) n (All-take _ 4 hdr bytes)
        (omega (arith, length-take 4 hdr, length-take 8 rest)) en)
      (field_of_bytes (drop 4 hdr) c (All-drop _ 4 hdr bytes)
        (omega (arith, length-drop 4 hdr, length-take 8 rest)) ec)
    ∙ take-append-drop 4 hdr
  where
    hdr : List ℕ
    hdr = take 8 rest

    bytes : IsBytes hdr
    bytes = All-take _ 8 rest bs

module _ (crc32 : List ℕ → ℕ) where
  unfoldable pub encode_record : List ℕ → List ℕ
  encode_record p = (to_le_bytes 4 (length p) ++ to_le_bytes 4 (crc32 p)) ++ p

  -- The first record of a stream, with what follows it.
  unfoldable pub next_record : List ℕ → Option (List ℕ × List ℕ)
  unfolding read_exact
  next_record rest = elim (read_exact 8 rest) [
    | none ↦ none
    | some (hdr, body) ↦
        let n = from_le_bytes (take 4 hdr) in
        if ltb max_payload n then none else elim (read_exact n body) [
          | none ↦ none
          | some (payload, rest') ↦
              if crc32 payload == from_le_bytes (drop 4 hdr) then some (payload, rest') else none
        ]
  ]

  pub length-encode_record : (p : List ℕ) → length (encode_record p) ≡ 8 + length p
  unfolding encode_record
  length-encode_record p = omega (
    arith,
    length-append (to_le_bytes 4 (length p) ++ to_le_bytes 4 (crc32 p)) p,
    length-append (to_le_bytes 4 (length p)) (to_le_bytes 4 (crc32 p)),
    length-to_le_bytes 4 (length p),
    length-to_le_bytes 4 (crc32 p),
  )

  pub scan_loop-next :
      (fuel : ℕ) (rest : List ℕ) (pos len : ℕ)
      → pos + length rest ≡ len
      → scan_loop crc32 (suc fuel) rest pos len ≡ elim (next_record rest) [
        | none ↦ pos
        | some (p, r) ↦ scan_loop crc32 fuel r (pos + (8 + length p)) len
      ]
  unfolding scan_loop next_record
  scan_loop-next fuel rest pos len h =
      ground (
        arith,
        length-drop 8 rest,
        length-take (from_le_bytes (take 4 (take 8 rest))) (drop 8 rest),
      )

  pub read_loop-next :
      (fuel : ℕ) (rest : List ℕ) (pos : ℕ) (out : List WalRecord)
      → read_loop crc32 (suc fuel) rest pos out ≡ elim (next_record rest) [
        | none ↦ (out, pos)
        | some (p, r) ↦
            read_loop crc32 fuel r
              (pos + (8 + length p))
              (out ++ (record { offset = pos + 8; payload = p } ∷ []))
      ]
  unfolding read_loop next_record
  read_loop-next fuel rest pos out =
      ground (
        arith,
        length-drop 8 rest,
        length-take (from_le_bytes (take 4 (take 8 rest))) (drop 8 rest),
      )

  -- The length field of the record at the head of `rest`.
  abbrev declared : List ℕ → ℕ
  declared rest = from_le_bytes (take 4 (take 8 rest))

  abbrev pub header : List ℕ → List ℕ
  header p = to_le_bytes 4 (length p) ++ to_le_bytes 4 (crc32 p)

  pub length-header : (p : List ℕ) → length (header p) ≡ 8
  length-header p = omega (
    arith,
    length-append (to_le_bytes 4 (length p)) (to_le_bytes 4 (crc32 p)),
    length-to_le_bytes 4 (length p),
    length-to_le_bytes 4 (crc32 p),
  )

  pub take-header : (p r : List ℕ) → take 8 (encode_record p ++ r) ≡ header p
  unfolding encode_record
  take-header p r =
      ap (take 8) (append_assoc (header p) p r)
      ∙ take-append 8 (header p) (p ++ r) (length-header p)

  drop-header : (p r : List ℕ) → drop 8 (encode_record p ++ r) ≡ p ++ r
  unfolding encode_record
  drop-header p r =
      ap (drop 8) (append_assoc (header p) p r)
      ∙ drop-append 8 (header p) (p ++ r) (length-header p)

  -- What an accepted record fulfils.
  next_record-some :
      (rest p r : List ℕ)
      → next_record rest ≡ some (p, r)
      → (8 ≤ length rest)
        × (declared rest ≤ max_payload)
        × (declared rest ≤ length (drop 8 rest))
        × (p ≡ take (declared rest) (drop 8 rest))
        × (r ≡ drop (declared rest) (drop 8 rest))
        × (crc32 p ≡ from_le_bytes (drop 4 (take 8 rest)))
  unfolding next_record
  next_record-some rest p r h = ground arith

  module _ (crc32-lt : (p : List ℕ) → crc32 p < 2 ^ 32) where
    pub next_record-encode_record :
        (p r : List ℕ) → IsPayload p → next_record (encode_record p ++ r) ≡ some (p, r)
    unfolding next_record
    next_record-encode_record p r h = ground (
      arith,
      take-header p r,
      drop-header p r,
      length-append (encode_record p) r,
      length-encode_record p,
      take-append 4 (to_le_bytes 4 (length p)) (to_le_bytes 4 (crc32 p)),
      drop-append 4 (to_le_bytes 4 (length p)) (to_le_bytes 4 (crc32 p)),
      length-to_le_bytes 4 (length p),
      from_le_bytes-to_le_bytes 4 (length p),
      from_le_bytes-to_le_bytes 4 (crc32 p),
      crc32-lt p,
      take-append (length p) p r,
      drop-append (length p) p r,
      length-append p r,
    )

  pub encode_record-next_record :
      (rest p r : List ℕ)
      → IsBytes rest
      → next_record rest ≡ some (p, r)
      → (rest ≡ encode_record p ++ r) × IsPayload p
  unfolding encode_record
  encode_record-next_record rest p r bs h =
      let (long, small, fits, ep, er, ec) = next_record-some rest p r h in
      let n : length p ≡ declared rest =
        ap length ep ∙ omega (arith, length-take (declared rest) (drop 8 rest)) in
      (
        sym (
            append_assoc (header p) p r
            ∙ ap₂ ◌++◌ (header_of_bytes rest (length p) (crc32 p) bs long n ec)
                (ap₂ ◌++◌ ep er ∙ take-append-drop (declared rest) (drop 8 rest))
            ∙ take-append-drop 8 rest),
        omega arith,
      )
