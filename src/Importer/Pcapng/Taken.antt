-- ===== src/Importer/Pcapng/Taken.antt =====
-- How a turn of the importer of pcapng.rs takes a block off the file.
use tracemux.Prelude.{
  ℕ, ◌+◌, ◌-◌, ◌*◌, ◌/◌, ◌%◌, ◌^◌, ◌<◌, ◌≡◌, refl, sym, ap, ◌∙◌, List, [], ◌++◌, false, length,
  take, drop, ltb, leb, append-nil, append_assoc, length-append, take-append, arith,
}
use tracemux.Prelude.Bytes.{length-to_le_bytes}
use tracemux.Error.{ok}
use tracemux.Log.File.{read_exact}
use tracemux.Log.Session.{Crates}
use tracemux.Prelude.Ints.{ℤ}
use tracemux.Importer.Pcapng.{
  shb_magic, Writers, u32_at, on_section, on_packet, add_packet, on_block, done, more, with_tail,
  with_body, with_header, turn,
}
use tracemux.Importer.Pcapng.Blocks.{
  Packet, FileBlock, section, packet, other, word, block_type, packet_body, body, laid_out, IsBlock,
  read_exact-append, u32_at-word, drop-word, u32_at-skip, effect,
}

module _ {V : Type 0} (io : Crates V) (clock : ℕ → ℤ) (sid : ℕ) where
  on_section-lem :
      (b : List ℕ) (w : Writers) → on_section io clock sid (word shb_magic ++ b) w ≡ ok w
  unfolding on_section
  on_section-lem b w = ground (
    arith,
    u32_at-word 0 shb_magic [] b refl (omega arith),
    length-append (word shb_magic) b,
    length-to_le_bytes 4 shb_magic,
  )

  -- The words of a packet.
  high_word : (p : Packet) → p.ticks < 2 ^ 64 → u32_at 4 (packet_body p) ≡ p.ticks / 2 ^ 32
  high_word p h =
      u32_at-word 4 (p.ticks / 2 ^ 32) (word p.interface_id)
        (word (p.ticks % 2 ^ 32)
          ++ (word (length p.bytes) ++ (word p.original_len ++ (p.bytes ++ p.trailer))))
        (length-to_le_bytes 4 p.interface_id) (omega (arith, h))

  low_word : (p : Packet) → u32_at 8 (packet_body p) ≡ p.ticks % 2 ^ 32
  low_word p =
      let rest = word (length p.bytes) ++ (word p.original_len ++ (p.bytes ++ p.trailer)) in
      u32_at-skip 8 4 p.interface_id (word (p.ticks / 2 ^ 32) ++ (word (p.ticks % 2 ^ 32) ++ rest))
        (omega arith)
      ∙ u32_at-word 4 (p.ticks % 2 ^ 32) (word (p.ticks / 2 ^ 32)) rest
          (length-to_le_bytes 4 (p.ticks / 2 ^ 32)) (omega arith)

  len_word : (p : Packet) → length p.bytes < 2 ^ 32 → u32_at 12 (packet_body p) ≡ length p.bytes
  len_word p h =
      let rest = word p.original_len ++ (p.bytes ++ p.trailer) in
      let from_low = word (p.ticks % 2 ^ 32) ++ (word (length p.bytes) ++ rest) in
      u32_at-skip 12 8 p.interface_id (word (p.ticks / 2 ^ 32) ++ from_low) (omega arith)
      ∙ u32_at-skip 8 4 (p.ticks / 2 ^ 32) from_low (omega arith)
      ∙ u32_at-word 4 (length p.bytes) (word (p.ticks % 2 ^ 32)) rest
          (length-to_le_bytes 4 (p.ticks % 2 ^ 32)) h

  drop_words : (p : Packet) → drop 20 (packet_body p) ≡ p.bytes ++ p.trailer
  drop_words p =
      let at_len = word (length p.bytes) ++ (word p.original_len ++ (p.bytes ++ p.trailer)) in
      let at_low = word (p.ticks % 2 ^ 32) ++ at_len in
      drop-word 20 16 p.interface_id (word (p.ticks / 2 ^ 32) ++ at_low) (omega arith)
      ∙ drop-word 16 12 (p.ticks / 2 ^ 32) at_low (omega arith)
      ∙ drop-word 12 8 (p.ticks % 2 ^ 32) at_len (omega arith)
      ∙ drop-word 8 4 (length p.bytes) (word p.original_len ++ (p.bytes ++ p.trailer)) (omega arith)
      ∙ drop-word 4 0 p.original_len (p.bytes ++ p.trailer) (omega arith)

  length-word : (n : ℕ) (rest : List ℕ) → length (word n ++ rest) ≡ 4 + length rest
  length-word n rest = omega (arith, length-append (word n) rest, length-to_le_bytes 4 n)

  length-packet_body :
      (p : Packet) → length (packet_body p) ≡ 20 + (length p.bytes + length p.trailer)
  length-packet_body p =
      let at_orig = word p.original_len ++ (p.bytes ++ p.trailer) in
      let at_len = word (length p.bytes) ++ at_orig in
      let at_low = word (p.ticks % 2 ^ 32) ++ at_len in
      omega (
        arith,
        length-word p.interface_id (word (p.ticks / 2 ^ 32) ++ at_low),
        length-word (p.ticks / 2 ^ 32) at_low,
        length-word (p.ticks % 2 ^ 32) at_len,
        length-word (length p.bytes) at_orig,
        length-word p.original_len (p.bytes ++ p.trailer),
        length-append p.bytes p.trailer,
      )

  on_packet-steps :
      (b : List ℕ) (p : Packet) (w : Writers)
      → length b ≡ 20 + (length p.bytes + length p.trailer)
      → u32_at 12 b ≡ length p.bytes
      → u32_at 4 b ≡ p.ticks / 2 ^ 32
      → u32_at 8 b ≡ p.ticks % 2 ^ 32
      → take (length p.bytes) (drop 20 b) ≡ p.bytes
      → on_packet io clock sid b w ≡ ok (add_packet io clock sid p.ticks p.bytes w)
  unfolding on_packet
  on_packet-steps b p w len cap high low pkt =
      let t₁ : ltb (length b) 20 ≡ false = ground (arith, len) in
      let t₂ : ltb (length b) (20 + length p.bytes) ≡ false = ground (arith, len) in
      let ticks : p.ticks / 2 ^ 32 * 2 ^ 32 + p.ticks % 2 ^ 32 ≡ p.ticks = omega arith in
      rw (t₁, cap, t₂, high, low, pkt, ticks) refl

  on_packet-lem :
      (p : Packet) (w : Writers)
      → length (packet_body p) + 12 < 2 ^ 32
      → p.ticks < 2 ^ 64
      → on_packet io clock sid (packet_body p) w ≡ ok (add_packet io clock sid p.ticks p.bytes w)
  on_packet-lem p w room h =
      let len = length-packet_body p in
      let cap = len_word p (omega (arith, room, len)) in
      on_packet-steps (packet_body p) p w len cap (high_word p h) (low_word p) (
        ap (take (length p.bytes)) (drop_words p)
        ∙ take-append (length p.bytes) p.bytes p.trailer refl)

  on_block-lem :
      (b : FileBlock) (w : Writers)
      → IsBlock b
      → on_block io clock sid (block_type b) (body b) w ≡ ok (effect io clock sid b w)
  unfolding on_block
  on_block-lem (section b) w h = on_section-lem b w
  on_block-lem (packet p) w h = on_packet-lem p w h.0 h.1
  on_block-lem (other t b) w h = ground (arith, h.2, h.3)

  length-body : (b : FileBlock) → IsBlock b → length (body b) + 12 < 2 ^ 32
  length-body (section b) h = omega (arith, h, length-word shb_magic b)
  length-body (packet p) h = h.0
  length-body (other t b) h = h.0

  type_small : (b : FileBlock) → IsBlock b → block_type b < 2 ^ 32
  type_small (section b) h = omega arith
  type_small (packet p) h = omega arith
  type_small (other t b) h = h.1

  -- A turn takes one block off.
  pub turn-laid_out :
      (b : FileBlock) (rest : List ℕ) (w : Writers)
      → IsBlock b
      → turn io clock sid (laid_out b ++ rest) w ≡ more rest (effect io clock sid b w)
  unfolding turn laid_out
  turn-laid_out b rest w h =
      let total = length (body b) + 12 in
      let header = word (block_type b) ++ word total in
      let behind = body b ++ (word total ++ rest) in
      let at_total : u32_at 4 header ≡ total =
        ap (λ xs. u32_at 4 (word (block_type b) ++ xs)) (sym (append-nil (word total)))
        ∙ u32_at-word 4 total (word (block_type b)) [] (length-to_le_bytes 4 (block_type b))
            (length-body b h) in
      let long : ltb total 12 ≡ false = ground arith in
      let eight : length header ≡ 8 =
        omega (arith, length-word (block_type b) (word total), length-to_le_bytes 4 total) in
      ap (λ xs. with_header io clock sid w (read_exact 8 xs))
        (append_assoc header (body b ++ word total) rest
          ∙ ap (λ xs. header ++ xs) (append_assoc (body b) (word total) rest))
      ∙ ap (with_header io clock sid w) (read_exact-append 8 header behind eight)
      ∙ rw (at_total, long)
          (ap (λ t. with_body io clock sid t w (read_exact (total - 12) behind))
              (u32_at-word 0 (block_type b) [] (word total) refl (type_small b h))
            ∙ ap (with_body io clock sid (block_type b) w)
                (read_exact-append (total - 12) (body b) (word total ++ rest) (omega arith))
            ∙ ap (with_tail io clock sid (block_type b) (body b) w)
                (read_exact-append 4 (word total) rest (length-to_le_bytes 4 total))
            ∙ rw (on_block-lem b w h, with_tail) refl)

  -- Fewer than eight bytes are the end of the file.
  pub turn_end :
      (rest : List ℕ) (w : Writers) → length rest < 8 → turn io clock sid rest w ≡ done (ok w)
  unfolding turn read_exact
  turn_end rest w h = let short : leb 8 (length rest) ≡ false = ground (arith, h) in rw short refl
