-- ===== src/Framer/LengthPrefixed/Frames.antt =====
-- The frames of length_prefixed.rs: what a sender writes, whole or cut short.
use tracemux.Prelude.{
  ℕ, ◌+◌, ◌-◌, ◌^◌, ◌≤◌, ◌<◌, ◌≡◌, refl, List, ◌++◌, none, some, arith, length, take, drop,
  if◌then◌else◌, length-append, take-append, drop-append, append_assoc, length-take, length-drop,
  take-take, take-append_le, drop-append_le,
}
use tracemux.Prelude.Bytes.{
  to_le_bytes, to_be_bytes, length-to_le_bytes, length-to_be_bytes, from_le_bytes-to_le_bytes,
  from_be_bytes-to_be_bytes,
}
use tracemux.Error.{ok, err, framer_overflow}
use tracemux.Framer.LengthPrefixed.{
  LengthPrefixedFramer, HeaderWidth, u8, u16, u32, u64, big, little, bytes, read_len, poll_frame,
}

-- A length as the framer's peer writes it.
unfoldable pub write_len : LengthPrefixedFramer → ℕ → List ℕ
write_len f n = elim f.endian [
  | big ↦ to_be_bytes (bytes f.width) n
  | little ↦ to_le_bytes (bytes f.width) n
]

-- The length that the header declares for a payload.
abbrev pub declared_len : LengthPrefixedFramer → List ℕ → ℕ
declared_len f payload = if f.include_header then length payload + bytes f.width else length payload

unfoldable pub encode_frame : LengthPrefixedFramer → List ℕ → List ℕ
encode_frame f payload = write_len f (declared_len f payload) ++ payload

length-write_len : (f : LengthPrefixedFramer) (n : ℕ) → length (write_len f n) ≡ bytes f.width
unfolding write_len
length-write_len f n =
    ground (arith, length-to_be_bytes (bytes f.width) n, length-to_le_bytes (bytes f.width) n)

read_len-write_len :
    (f : LengthPrefixedFramer) (n : ℕ) → n < 256 ^ bytes f.width → read_len f (write_len f n) ≡ n
unfolding read_len write_len
read_len-write_len f n h = ground (
  arith,
  from_be_bytes-to_be_bytes (bytes f.width) n,
  from_le_bytes-to_le_bytes (bytes f.width) n,
)

bytes-le : (w : HeaderWidth) → bytes w ≤ 8
unfolding bytes
bytes-le u8 = omega arith
bytes-le u16 = omega arith
bytes-le u32 = omega arith
bytes-le u64 = omega arith

bytes-pos : (w : HeaderWidth) → 0 < bytes w
unfolding bytes
bytes-pos u8 = omega arith
bytes-pos u16 = omega arith
bytes-pos u32 = omega arith
bytes-pos u64 = omega arith

-- A payload within the limit, whose declared length fits the header, the limit and eight being
-- below 2 ^ 64, is yielded whole behind its header, and what follows is left.
pub poll_frame-encode_frame :
    (f : LengthPrefixedFramer) (payload rest : List ℕ)
    → declared_len f payload < 256 ^ bytes f.width
    → length payload ≤ f.max_frame
    → f.max_frame + 8 < 2 ^ 64
    → poll_frame f (encode_frame f payload ++ rest) ≡ (ok (some payload), rest)
unfolding encode_frame poll_frame
poll_frame-encode_frame f payload rest h fits room =
    let n = declared_len f payload in
    let hdr = write_len f n in
    rw (append_assoc hdr payload rest) (
      ground (
        arith,
        length-write_len f n,
        read_len-write_len f n h,
        bytes-le f.width,
        take-append (bytes f.width) hdr (payload ++ rest) (length-write_len f n),
        drop-append (bytes f.width) hdr (payload ++ rest) (length-write_len f n),
        length-append hdr (payload ++ rest),
        length-append payload rest,
        take-append (length payload) payload rest refl,
        drop-append (length payload) payload rest refl,
      ))

-- Where a payload is within the limit and its declared length fits the header, the limit and eight
-- being below 2 ^ 64, the frame cut short anywhere is left in the buffer and waited for.
pub poll_frame-cut :
    (f : LengthPrefixedFramer) (payload : List ℕ) (k : ℕ)
    → declared_len f payload < 256 ^ bytes f.width
    → length payload ≤ f.max_frame
    → f.max_frame + 8 < 2 ^ 64
    → k < bytes f.width + length payload
    → poll_frame f (take k (encode_frame f payload)) ≡ (ok none, take k (encode_frame f payload))
unfolding encode_frame poll_frame
poll_frame-cut f payload k h fits room short =
    let n = declared_len f payload in
    let hdr = write_len f n in
    ground (
      arith,
      length-write_len f n,
      read_len-write_len f n h,
      bytes-le f.width,
      length-take k (hdr ++ payload),
      length-append hdr payload,
      take-take (bytes f.width) k (hdr ++ payload),
      take-append (bytes f.width) hdr payload (length-write_len f n),
    )

-- A header that declares more than the limit, with the header itself where it counts, is an
-- overflow, whatever has arrived behind it, and the buffer is left.
pub poll_frame-overflow :
    (f : LengthPrefixedFramer) (n : ℕ) (rest : List ℕ)
    → n < 256 ^ bytes f.width
    → (if f.include_header then f.max_frame + bytes f.width else f.max_frame) < n
    → poll_frame f (write_len f n ++ rest) ≡ (err framer_overflow, write_len f n ++ rest)
unfolding poll_frame
poll_frame-overflow f n rest h over = ground (
  arith,
  length-write_len f n,
  read_len-write_len f n h,
  take-append (bytes f.width) (write_len f n) rest (length-write_len f n),
  length-append (write_len f n) rest,
)

-- Where the limit and eight are below 2 ^ 64, a frame found stays the frame when more bytes have
-- arrived behind it, those bytes stay behind what is left, and what is left is shorter than the
-- buffer.
pub poll_frame-more :
    (f : LengthPrefixedFramer) (xs ys frame rest : List ℕ)
    → f.max_frame + 8 < 2 ^ 64
    → poll_frame f xs ≡ (ok (some frame), rest)
    → (poll_frame f (xs ++ ys) ≡ (ok (some frame), rest ++ ys)) × (length rest < length xs)
unfolding poll_frame
poll_frame-more f xs ys frame rest room h =
    let n = bytes f.width in
    let raw = read_len f (take n xs) in
    let len = if f.include_header then raw - n else raw in
    ground (
      arith,
      bytes-le f.width,
      bytes-pos f.width,
      length-append xs ys,
      take-append_le n xs ys,
      drop-append_le n xs ys,
      length-drop n xs,
      length-drop len (drop n xs),
      take-append_le len (drop n xs) ys,
      drop-append_le len (drop n xs) ys,
    )
