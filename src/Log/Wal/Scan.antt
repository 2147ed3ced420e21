-- ===== src/Log/Wal/Scan.antt =====
-- The two scanning loops of wal.rs on a stream of records: both stop at the first place where no
-- record stands, and `read_all` yields the records before it.
use tracemux.Prelude.{
  ℕ, zero, suc, ◌+◌, ◌^◌, ◌<◌, ◌≡◌, ◌≢◌, refl, sym, ap, ap₂, ◌∙◌, subst, List, [], ◌∷◌, ◌++◌, none,
  some, arith, length, drop, append_assoc, append-nil, length-append, drop-append, All,
  Option-cases, inl, inr, All-drop,
}
use tracemux.Prelude.Bytes.{IsBytes}
use tracemux.Log.Wal.{WalRecord, scan_loop, read_loop}
use tracemux.Log.Wal.Codec.{
  IsPayload, encode_record, next_record, length-encode_record, scan_loop-next, read_loop-next,
  next_record-encode_record, encode_record-next_record,
}

-- The records that the loop of `read_all` yields for payloads that lie from `pos` on.
unfoldable pub records_at : ℕ → List (List ℕ) → List WalRecord
records_at pos [] = []
records_at pos (p ∷ ps) =
    record { offset = pos + 8; payload = p } ∷ records_at (pos + (8 + length p)) ps

module _ (crc32 : List ℕ → ℕ) where
  -- Records laid end to end.
  unfoldable pub encode : List (List ℕ) → List ℕ
  encode [] = []
  encode (p ∷ ps) = encode_record crc32 p ++ encode ps

  -- No record stands at the head of `tail`.
  abbrev pub IsTorn : List ℕ → Type 0
  IsTorn tail = (p r : List ℕ) → IsPayload p → tail ≢ encode_record crc32 p ++ r

  pub encode-append : (ps qs : List (List ℕ)) → encode (ps ++ qs) ≡ encode ps ++ encode qs
  unfolding encode
  encode-append [] qs = refl
  encode-append (p ∷ ps) qs =
      ap (λ r. encode_record crc32 p ++ r) (encode-append ps qs)
      ∙ sym (append_assoc (encode_record crc32 p) (encode ps) (encode qs))

  pub length-encode_cons :
      (p : List ℕ) (ps : List (List ℕ)) (tail : List ℕ)
      → length (encode (p ∷ ps) ++ tail) ≡ 8 + length p + length (encode ps ++ tail)
  unfolding encode
  length-encode_cons p ps tail = omega (
    arith,
    length-append (encode_record crc32 p ++ encode ps) tail,
    length-append (encode_record crc32 p) (encode ps),
    length-append (encode ps) tail,
    length-encode_record crc32 p,
  )

  -- A torn tail yields no record.
  pub next_record-IsTorn :
      (tail : List ℕ) → IsBytes tail → IsTorn tail → next_record crc32 tail ≡ none
  next_record-IsTorn tail bs torn = elim (Option-cases (next_record crc32 tail)) [
    | inl e ↦ e
    | inr ((p, r), e) ↦
        let found = encode_record-next_record crc32 tail p r bs e in
        absurd (torn p r found.1 found.0)
  ]

  module _ (crc32-lt : (p : List ℕ) → crc32 p < 2 ^ 32) where
    pub IsTorn-next_record : (tail : List ℕ) → next_record crc32 tail ≡ none → IsTorn tail
    IsTorn-next_record tail h p r small e =
        cc (h, ap (next_record crc32) e, next_record-encode_record crc32 crc32-lt p r small)

    next_record-encode_cons :
        (p : List ℕ) (ps : List (List ℕ)) (tail : List ℕ)
        → IsPayload p
        → next_record crc32 (encode (p ∷ ps) ++ tail) ≡ some (p, encode ps ++ tail)
    unfolding encode
    next_record-encode_cons p ps tail small =
        ap (next_record crc32) (append_assoc (encode_record crc32 p) (encode ps) tail)
        ∙ next_record-encode_record crc32 crc32-lt p (encode ps ++ tail) small

    pub scan_loop-encode :
        (ps : List (List ℕ)) (tail : List ℕ) (fuel pos len : ℕ)
        → All IsPayload ps
        → next_record crc32 tail ≡ none
        → length (encode ps ++ tail) < fuel
        → pos + length (encode ps ++ tail) ≡ len
        → scan_loop crc32 fuel (encode ps ++ tail) pos len ≡ pos + length (encode ps)
    unfolding encode
    scan_loop-encode ps tail zero pos len small torn f e = absurd (omega arith)
    scan_loop-encode [] tail (suc fuel) pos len small torn f e =
        scan_loop-next crc32 fuel tail pos len e ∙ rw torn (omega arith)
    scan_loop-encode (p ∷ ps) tail (suc fuel) pos len small torn f e =
        scan_loop-next crc32 fuel (encode (p ∷ ps) ++ tail) pos len e
        ∙ rw (next_record-encode_cons p ps tail small.0) (
            scan_loop-encode ps tail fuel (pos + (8 + length p)) len small.1 torn
              (omega (arith, length-encode_cons p ps tail))
              (omega (arith, length-encode_cons p ps tail))
            ∙ omega (
              arith,
              length-append (encode_record crc32 p) (encode ps),
              length-encode_record crc32 p,
            ))

    pub read_loop-encode :
        (ps : List (List ℕ)) (tail : List ℕ) (fuel pos : ℕ) (out : List WalRecord)
        → All IsPayload ps
        → next_record crc32 tail ≡ none
        → length (encode ps ++ tail) < fuel
        → read_loop crc32 fuel (encode ps ++ tail) pos out
          ≡ (out ++ records_at pos ps, pos + length (encode ps))
    unfolding encode records_at
    read_loop-encode ps tail zero pos out small torn f = absurd (omega arith)
    read_loop-encode [] tail (suc fuel) pos out small torn f =
        read_loop-next crc32 fuel tail pos out
        ∙ rw torn (ap₂ (λ a b. (a, b)) (sym (append-nil out)) (omega arith))
    read_loop-encode (p ∷ ps) tail (suc fuel) pos out small torn f =
        let found : WalRecord = record { offset = pos + 8; payload = p } in
        read_loop-next crc32 fuel (encode (p ∷ ps) ++ tail) pos out
        ∙ rw (next_record-encode_cons p ps tail small.0) (
            read_loop-encode ps tail fuel (pos + (8 + length p)) (out ++ (found ∷ [])) small.1 torn
              (omega (arith, length-encode_cons p ps tail))
            ∙ ap₂ (λ a b. (a, b))
                (append_assoc out (found ∷ []) (records_at (pos + (8 + length p)) ps))
                (omega (
                  arith,
                  length-append (encode_record crc32 p) (encode ps),
                  length-encode_record crc32 p,
                )))

  -- What follows a record in a stream of bytes is bytes.
  tail-IsBytes : (bs p r : List ℕ) → IsBytes bs → bs ≡ encode_record crc32 p ++ r → IsBytes r
  tail-IsBytes bs p r h split =
      subst IsBytes
        (ap (drop (8 + length p)) split
          ∙ drop-append (8 + length p) (encode_record crc32 p) r (length-encode_record crc32 p))
        (All-drop _ (8 + length p) bs h)

  -- Every stream of bytes is a run of records and a torn tail.
  pub parse_records :
      (fuel : ℕ) (bs : List ℕ)
      → length bs < fuel
      → IsBytes bs
      → (ps : List (List ℕ)) × (tail : List ℕ) × All IsPayload ps
        × (bs ≡ encode ps ++ tail)
        × (next_record crc32 tail ≡ none)
  unfolding encode
  parse_records zero bs f h = absurd (omega arith)
  parse_records (suc fuel) bs f h = elim (Option-cases (next_record crc32 bs)) [
    | inl e ↦ ([], bs, tt, refl, e)
    | inr ((p, r), e) ↦
        let (split, small) = encode_record-next_record crc32 bs p r h e in
        let long : length bs ≡ 8 + length p + length r =
          ap length split
          ∙ omega (arith, length-append (encode_record crc32 p) r, length-encode_record crc32 p) in
        let (ps, tail, smalls, parts, torn) =
          parse_records fuel r (omega arith) (tail-IsBytes bs p r h split) in
        (
          p ∷ ps,
          tail,
          (small, smalls),
          split
              ∙ ap (λ s. encode_record crc32 p ++ s) parts
              ∙ sym (append_assoc (encode_record crc32 p) (encode ps) tail),
          torn,
        )
  ]
