-- ===== src/Log/Wal/Append.antt =====
-- `WalWriter::append` of wal.rs: what it writes, what it refuses, and what a crash in its midst
-- leaves for the next `open`.
use tracemux.Prelude.{
  ℕ, ◌+◌, ◌^◌, ◌≤◌, ◌<◌, ◌≡◌, ap, ap₂, ◌∙◌, List, [], ◌∷◌, ◌++◌, none, arith, length, take,
  append-nil, append_assoc, length-append, take-append, take_all, drop_all, take-append_le,
  take-append_add, take-take, length-drop, All, All-append, All-take, ltb, ◌⊎◌, inl, inr,
  Bool-cases, min, length-take, if◌then◌else◌,
}
use tracemux.Prelude.Bytes.{
  IsBytes, to_le_bytes, to_le_bytes-IsBytes, length-to_le_bytes, from_le_bytes-to_le_bytes,
}
use tracemux.Error.{ok, err, pipeline_generic, framer_overflow}
use tracemux.Log.File.{File, write_all}
use tracemux.Log.Wal.{
  WalWriter, Io, done, fails, try_write, append, open_writer, read_all, max_payload,
}
use tracemux.Log.Wal.Codec.{
  IsPayload, encode_record, next_record, length-encode_record, header, length-header, take-header,
}
use tracemux.Log.Wal.Scan.{encode, records_at, encode-append, IsTorn-next_record}
use tracemux.Log.Wal.Recovery.{
  IsHeader, writer_of, open_writer-recovers, nil-IsTorn, read_all-encode,
}

-- Appending at the end of a file.
abbrev at_end : List ℕ → List ℕ → File
at_end bytes synced = record { bytes = bytes; pos = length bytes; synced = synced }

write_all-at_end :
    (xs bytes synced : List ℕ) → write_all xs (at_end bytes synced) ≡ at_end (bytes ++ xs) synced
unfolding write_all
write_all-at_end xs bytes synced = ground (
  arith,
  take_all (length bytes) bytes,
  drop_all (length bytes + length xs) bytes,
  append-nil xs,
  length-append bytes xs,
)

module _ (crc32 : List ℕ → ℕ) where
  -- A payload of at most 1 MiB becomes one record at the end of the file; the result is the offset
  -- of its payload.
  pub append-done :
      (p bytes synced : List ℕ)
      → IsPayload p
      → append crc32 done done p (writer_of bytes synced)
        ≡ (ok (length bytes + 8), writer_of (bytes ++ encode_record crc32 p) synced)
  unfolding append try_write encode_record
  append-done p bytes synced small = ground (
    arith,
    write_all-at_end (header crc32 p) bytes synced,
    write_all-at_end p (bytes ++ header crc32 p) synced,
    append_assoc bytes (header crc32 p) p,
    length-append bytes (encode_record crc32 p),
    length-encode_record crc32 p,
  )

  -- A payload above 1 MiB is refused before anything is written.
  pub append-refuses :
      (io₁ io₂ : Io) (p : List ℕ) (w : WalWriter)
      → max_payload < length p
      → append crc32 io₁ io₂ p w
        ≡ (err (if ltb (length p) (2 ^ 32) then framer_overflow else pipeline_generic), w)
  unfolding append
  append-refuses io₁ io₂ p w big = ground arith

  -- However the two writes end, the file has gained a prefix of the record, and the whole of it if
  -- `append` succeeds.
  append-prefix :
      (io₁ io₂ : Io) (p bytes synced : List ℕ)
      → IsPayload p
      → (k : ℕ) × ((append crc32 io₁ io₂ p (writer_of bytes synced)).1.file.bytes
          ≡ bytes ++ take k (encode_record crc32 p))
        × ((append crc32 io₁ io₂ p (writer_of bytes synced)).1.file.synced ≡ synced)
  unfolding append try_write encode_record
  append-prefix (fails j) io₂ p bytes synced small = (
    min j 8,
    ground (
      arith,
      write_all-at_end (take j (header crc32 p)) bytes synced,
      take-append_le (min j 8) (header crc32 p) p,
      take_all j (header crc32 p),
      take_all 8 (header crc32 p),
      length-header crc32 p,
    ),
    ground (arith, write_all-at_end (take j (header crc32 p)) bytes synced),
  )
  append-prefix done (fails j) p bytes synced small = (
    8 + j,
    ground (
      arith,
      write_all-at_end (header crc32 p) bytes synced,
      write_all-at_end (take j p) (bytes ++ header crc32 p) synced,
      append_assoc bytes (header crc32 p) (take j p),
      take-append_add j (8 + j) (header crc32 p) p,
      length-header crc32 p,
    ),
    ground (
      arith,
      write_all-at_end (header crc32 p) bytes synced,
      write_all-at_end (take j p) (bytes ++ header crc32 p) synced,
    ),
  )
  append-prefix done done p bytes synced small = (
    8 + length p,
    cc (
      append-done p bytes synced small,
      take_all (8 + length p) (encode_record crc32 p) (omega (arith, length-encode_record crc32 p)),
    ),
    cc (append-done p bytes synced small),
  )

  -- After the header write of an append failed with k of its bytes down, the end of the writer is
  -- k bytes short of that of the file: a later append that succeeds, both payloads being of at
  -- most 1 MiB, returns an offset k bytes before its payload, and its record stands behind those k
  -- bytes.
  pub append-after_failure :
      (k : ℕ) (io₂ : Io) (p q bytes synced : List ℕ)
      → IsPayload p
      → IsPayload q
      → k ≤ 8
      → let w = (append crc32 (fails k) io₂ p (writer_of bytes synced)).1 in
        let (result, w') = append crc32 done done q w in
        (result ≡ ok (length bytes + 8))
        × (w'.end ≡ length bytes + (8 + length q))
        × (w'.file.bytes ≡ (bytes ++ take k (header crc32 p)) ++ encode_record crc32 q)
  unfolding append try_write encode_record
  append-after_failure k io₂ p q bytes synced small small' h = ground (
    arith,
    write_all-at_end (take k (header crc32 p)) bytes synced,
    write_all-at_end (header crc32 q) (bytes ++ take k (header crc32 p)) synced,
    write_all-at_end q ((bytes ++ take k (header crc32 p)) ++ header crc32 q) synced,
    append_assoc (bytes ++ take k (header crc32 p)) (header crc32 q) q,
  )

  module _ (crc32-lt : (p : List ℕ) → crc32 p < 2 ^ 32) where
    -- A record that is cut short is no record.
    next_record-cut :
        (p : List ℕ) (k : ℕ)
        → IsPayload p
        → k < 8 + length p
        → next_record crc32 (take k (encode_record crc32 p)) ≡ none
    unfolding next_record
    next_record-cut p k small h = ground (
      arith,
      length-take k (encode_record crc32 p),
      length-encode_record crc32 p,
      take-take 8 k (encode_record crc32 p),
      length-drop 8 (take k (encode_record crc32 p)),
      ap (take 8) (append-nil (encode_record crc32 p)),
      take-header crc32 p [],
      take-append 4 (to_le_bytes 4 (length p)) (to_le_bytes 4 (crc32 p)),
      length-to_le_bytes 4 (length p),
      from_le_bytes-to_le_bytes 4 (length p),
    )

    encode_snoc :
        (h : List ℕ) (ps : List (List ℕ)) (p : List ℕ)
        → (h ++ encode crc32 ps) ++ encode_record crc32 p ≡ h ++ (encode crc32 (ps ++ p ∷ []) ++ [])
    unfolding encode
    encode_snoc h ps p = simp (append_assoc, encode-append, append-nil)

    records_at-snoc :
        (pos : ℕ) (ps : List (List ℕ)) (p : List ℕ)
        → records_at pos (ps ++ p ∷ [])
          ≡ records_at pos ps
            ++ record { offset = pos + length (encode crc32 ps) + 8; payload = p } ∷ []
    unfolding records_at encode
    records_at-snoc pos [] p = ap (λ n. record { offset = n; payload = p } ∷ []) (omega arith)
    records_at-snoc pos (q ∷ ps) p =
        ap (λ r. record { offset = pos + 8; payload = q } ∷ r)
          (records_at-snoc (pos + (8 + length q)) ps p
            ∙ ap
                (λ n.
                  records_at (pos + (8 + length q)) ps ++ record { offset = n; payload = p } ∷ [])
                (omega (
                  arith,
                  length-append (encode_record crc32 q) (encode crc32 ps),
                  length-encode_record crc32 q,
                )))

    encode_record-IsBytes : (p : List ℕ) → IsBytes p → IsBytes (encode_record crc32 p)
    unfolding encode_record
    encode_record-IsBytes p bs =
        All-append _ (header crc32 p) p
          (All-append _ (to_le_bytes 4 (length p)) (to_le_bytes 4 (crc32 p))
            (to_le_bytes-IsBytes 4 (length p)) (to_le_bytes-IsBytes 4 (crc32 p)))
          bs

    -- Reopening a file of records that ends in a prefix of one more record.
    open_writer-prefix :
        (f : File) (h : List ℕ) (ps : List (List ℕ)) (p : List ℕ) (k : ℕ)
        → f.bytes ≡ (h ++ encode crc32 ps) ++ take k (encode_record crc32 p)
        → IsHeader h
        → All IsPayload ps
        → IsPayload p
        → IsBytes p
        → (open_writer crc32 f ≡ ok (writer_of (h ++ encode crc32 ps) f.synced))
          ⊎ (open_writer crc32 f ≡ ok (writer_of (h ++ encode crc32 (ps ++ p ∷ [])) f.synced))
    open_writer-prefix f h ps p k e v smalls small bs = elim (Bool-cases (ltb k (8 + length p))) [
      | inl cut ↦ inl (
          open_writer-recovers crc32 crc32-lt f h ps (take k (encode_record crc32 p))
            (e ∙ append_assoc h (encode crc32 ps) (take k (encode_record crc32 p))) v smalls
            (All-take _ k (encode_record crc32 p) (encode_record-IsBytes p bs))
            (IsTorn-next_record crc32 crc32-lt (take k (encode_record crc32 p))
              (next_record-cut p k small (ground arith))))
      | inr whole ↦ inr (
          open_writer-recovers crc32 crc32-lt f h (ps ++ p ∷ []) []
            (e
              ∙ ap (λ r. (h ++ encode crc32 ps) ++ r)
                  (take_all k (encode_record crc32 p)
                    (ground (arith, length-encode_record crc32 p)))
              ∙ encode_snoc h ps p)
            v (All-append _ ps (p ∷ []) smalls (small, tt)) tt (nil-IsTorn crc32))
    ]

    -- With a checksum below 2 ^ 32: when an `append` of a payload of at most 1 MiB, to a log of a
    -- header and such records, is cut short in either of its writes or in neither, no earlier
    -- record is lost and none is made up: the next `open` has the records from before, or those
    -- and the new one.
    pub append-recovers :
        (io₁ io₂ : Io) (h : List ℕ) (ps : List (List ℕ)) (p synced : List ℕ)
        → IsHeader h
        → All IsPayload ps
        → IsPayload p
        → IsBytes p
        → let f = (append crc32 io₁ io₂ p (writer_of (h ++ encode crc32 ps) synced)).1.file in
          (open_writer crc32 f ≡ ok (writer_of (h ++ encode crc32 ps) synced))
          ⊎ (open_writer crc32 f ≡ ok (writer_of (h ++ encode crc32 (ps ++ p ∷ [])) synced))
    append-recovers io₁ io₂ h ps p synced v smalls small bs =
        let (k, gained, kept) = append-prefix io₁ io₂ p (h ++ encode crc32 ps) synced small in
        let w = (append crc32 io₁ io₂ p (writer_of (h ++ encode crc32 ps) synced)).1 in
        rw kept at (open_writer-prefix w.file h ps p k gained v smalls small bs)

    -- With a checksum below 2 ^ 32: an `append` of a payload of at most 1 MiB, to a log of a
    -- header and such records, whose writes succeed, returns the offset at which `read_all` finds
    -- the payload, behind the records from before; the cursor stands at the end that `read_all`
    -- reports.
    pub append-read_all :
        (h : List ℕ) (ps : List (List ℕ)) (p synced : List ℕ)
        → IsHeader h
        → All IsPayload ps
        → IsPayload p
        → let (result, w) = append crc32 done done p (writer_of (h ++ encode crc32 ps) synced) in
          (off : ℕ) × (result ≡ ok off)
          × (read_all crc32 w.file.bytes
              ≡ ok (records_at 12 ps ++ record { offset = off; payload = p } ∷ [], w.end))
          × (w.file.pos ≡ w.end)
    append-read_all h ps p synced v smalls small = (
      length (h ++ encode crc32 ps) + 8,
      ap (λ r. r.0) (append-done p (h ++ encode crc32 ps) synced small),
      rw (append-done p (h ++ encode crc32 ps) synced small) (
          ap (read_all crc32) (encode_snoc h ps p)
          ∙ read_all-encode crc32 crc32-lt h (ps ++ p ∷ []) [] v
              (All-append _ ps (p ∷ []) smalls (small, tt)) tt (nil-IsTorn crc32)
          ∙ ap ok (
              ap₂ (λ a b. (a, b))
                (records_at-snoc 12 ps p
                  ∙ ap (λ n. records_at 12 ps ++ record { offset = n; payload = p } ∷ [])
                      (omega (arith, length-append h (encode crc32 ps), v.sized)))
                (omega (
                  arith,
                  v.sized,
                  length-append (h ++ encode crc32 ps) (encode_record crc32 p),
                  length-append h (encode crc32 ps),
                  ap length (encode_snoc h ps p),
                  length-append h (encode crc32 (ps ++ p ∷ []) ++ []),
                  ap length (append-nil (encode crc32 (ps ++ p ∷ []))),
                )))),
      cc (append-done p (h ++ encode crc32 ps) synced small),
    )
