-- ===== src/Importer/Pcapng/Blocks.antt =====
-- The blocks of a pcapng file as its format lays them out. Of a packet's options and padding nothing is asked.
use tracemux.Prelude.{
  ℕ, zero, suc, ◌+◌, ◌/◌, ◌%◌, ◌^◌, ◌<◌, ◌≡◌, ◌≢◌, ap, ◌∙◌, List, [], ◌∷◌, ◌++◌, some, length, take,
  drop, length-append, take-append, drop-append, arith,
}
use tracemux.Prelude.Bytes.{
  to_le_bytes, from_le_bytes, length-to_le_bytes, from_le_bytes-to_le_bytes,
}
use tracemux.Log.File.{read_exact}
use tracemux.Log.Session.{Crates}
use tracemux.Prelude.Ints.{ℤ}
use tracemux.Importer.Pcapng.{block_shb, block_epb, shb_magic, Writers, u32_at, add_packet}

-- An enhanced packet: its instant in ticks of its interface, and what follows the bytes.
pub record Packet : Type 0 where
  pub interface_id : ℕ
  pub ticks : ℕ
  pub original_len : ℕ
  pub bytes : List ℕ
  pub trailer : List ℕ

-- A block: a section header in the byte order of the importer, a packet, or one of another type.
pub data FileBlock : Type 0 where
  section : List ℕ → FileBlock
  packet : Packet → FileBlock
  other : ℕ → List ℕ → FileBlock

abbrev pub word : ℕ → List ℕ
word n = to_le_bytes 4 n

abbrev pub block_type : FileBlock → ℕ
block_type (section b) = block_shb
block_type (packet p) = block_epb
block_type (other t b) = t

abbrev pub packet_body : Packet → List ℕ
packet_body p =
    word p.interface_id
    ++ (word (p.ticks / 2 ^ 32)
        ++ (word (p.ticks % 2 ^ 32)
            ++ (word (length p.bytes) ++ (word p.original_len ++ (p.bytes ++ p.trailer)))))

abbrev pub body : FileBlock → List ℕ
body (section b) = word shb_magic ++ b
body (packet p) = packet_body p
body (other t b) = b

unfoldable pub laid_out : FileBlock → List ℕ
laid_out b =
    let total = length (body b) + 12 in
    (word (block_type b) ++ word total) ++ (body b ++ word total)

-- The words have room for what stands in them.
abbrev pub IsBlock : FileBlock → Type 0
IsBlock (section b) = length b + 16 < 2 ^ 32
IsBlock (packet p) = (length (packet_body p) + 12 < 2 ^ 32) × (p.ticks < 2 ^ 64)
IsBlock (other t b) = (length b + 12 < 2 ^ 32) × (t < 2 ^ 32) × (t ≢ block_shb) × (t ≢ block_epb)

pub read_exact-append :
    (n : ℕ) (xs rest : List ℕ) → length xs ≡ n → read_exact n (xs ++ rest) ≡ some (xs, rest)
unfolding read_exact
read_exact-append n xs rest h =
    ground (arith, length-append xs rest, take-append n xs rest h, drop-append n xs rest h)

-- A word that stands behind `pre`.
pub u32_at-word :
    (at n : ℕ) (pre rest : List ℕ)
    → length pre ≡ at
    → n < 2 ^ 32
    → u32_at at (pre ++ (word n ++ rest)) ≡ n
unfolding u32_at
u32_at-word at n pre rest h small =
    ap (λ xs. from_le_bytes (take 4 xs)) (drop-append at pre (word n ++ rest) h)
    ∙ ap from_le_bytes (take-append 4 (word n) rest (length-to_le_bytes 4 n))
    ∙ from_le_bytes-to_le_bytes 4 n small

pub drop_further : (m k : ℕ) (xs ys : List ℕ) → m ≡ length xs + k → drop m (xs ++ ys) ≡ drop k ys
drop_further m k [] ys h = ap (λ i. drop i ys) (omega arith)
drop_further zero k (x ∷ xs) ys h = absurd (omega arith)
drop_further (suc m) k (x ∷ xs) ys h = drop_further m k xs ys (omega arith)

-- Behind a word.
pub drop-word : (m k n : ℕ) (rest : List ℕ) → m ≡ 4 + k → drop m (word n ++ rest) ≡ drop k rest
drop-word m k n rest h = drop_further m k (word n) rest (omega (arith, length-to_le_bytes 4 n))

pub u32_at-skip :
    (m k n : ℕ) (rest : List ℕ) → m ≡ 4 + k → u32_at m (word n ++ rest) ≡ u32_at k rest
unfolding u32_at
u32_at-skip m k n rest h = ap (λ xs. from_le_bytes (take 4 xs)) (drop-word m k n rest h)

module _ {V : Type 0} (io : Crates V) (clock : ℕ → ℤ) (sid : ℕ) where
  -- What a block does with the writers.
  abbrev pub effect : FileBlock → Writers → Writers
  effect (section b) w = w
  effect (packet p) w = add_packet io clock sid p.ticks p.bytes w
  effect (other t b) w = w
