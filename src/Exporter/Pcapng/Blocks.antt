-- ===== src/Exporter/Pcapng/Blocks.antt =====
-- A reader of the blocks that pcapng.rs writes, and what it shows of a packet.
use tracemux.Prelude.{
  ℕ, zero, suc, ◌/◌, ◌%◌, ◌≡◌, refl, sym, ap, ◌∙◌, List, [], ◌∷◌, ◌++◌, Option, none, some, length,
  get_elem?, arith, append-nil, append_assoc,
}
use tracemux.Prelude.Ints.{ℤ, pos, negsuc}
use tracemux.Prelude.Maps.{lookup}
use tracemux.Error.{Result, ok, err}
use tracemux.Exporter.Pcapng.{
  InterfaceKey, interface_key, PcapPacket, Duration, EnhancedPacketBlock, Block, interface_block,
  packet_block, PcapngPartWriter, PcapngStreamWriter,
}

-- A packet as a reader shows it.
pub record Shown : Type 0 where
  pub key : InterfaceKey
  pub timestamp : Duration
  pub original_len : ℕ
  pub bytes : List ℕ

abbrev pub both : {A : Type 0} → Option (List A) → Option (List A) → Option (List A)
both none r = none
both (some xs) none = none
both (some xs) (some ys) = some (xs ++ ys)

-- A reader of blocks, with the interfaces that were described so far: a packet is of the interface
-- whose number it has.
abbrev pub resolve : EnhancedPacketBlock → Option InterfaceKey → Option (List Shown)
resolve b none = none
resolve b (some k) = some (
    record { key = k; timestamp = b.timestamp; original_len = b.original_len; bytes = b.bytes }
    ∷ [])

unfoldable pub read_blocks : List InterfaceKey → List Block → Option (List Shown)
read_blocks ks [] = some []
read_blocks ks (interface_block k ∷ bs) = read_blocks (ks ++ (k ∷ [])) bs
read_blocks ks (packet_block b ∷ bs) =
    both (resolve b (get_elem? ks b.interface_id)) (read_blocks ks bs)

abbrev pub described : List InterfaceKey → List Block → List InterfaceKey
described ks [] = ks
described ks (interface_block k ∷ bs) = described (ks ++ (k ∷ [])) bs
described ks (packet_block b ∷ bs) = described ks bs

-- The parts of a stream, each read by itself, the one after the other.
abbrev pub read_parts : List PcapngPartWriter → Option (List Shown)
read_parts [] = some []
read_parts (w ∷ ws) = both (read_parts ws) (read_blocks [] w.blocks)

abbrev pub read_stream : PcapngStreamWriter → Option (List Shown)
read_stream s = read_parts (s.current ∷ s.closed)

pub both_assoc : {A : Type 0} (a b c : Option (List A)) → both (both a b) c ≡ both a (both b c)
both_assoc none b c = refl
both_assoc (some xs) none c = refl
both_assoc (some xs) (some ys) none = refl
both_assoc (some xs) (some ys) (some zs) = ap some (append_assoc xs ys zs)

pub both_right : {A : Type 0} (a : Option (List A)) → both a (some []) ≡ a
both_right none = refl
both_right (some xs) = ap some (append-nil xs)

pub both_left : {A : Type 0} (a : Option (List A)) → both (some []) a ≡ a
both_left none = refl
both_left (some xs) = refl

pub read_blocks-append :
    (ks : List InterfaceKey) (bs cs : List Block)
    → read_blocks ks (bs ++ cs) ≡ both (read_blocks ks bs) (read_blocks (described ks bs) cs)
unfolding read_blocks
read_blocks-append ks [] cs = sym (both_left (read_blocks ks cs))
read_blocks-append ks (interface_block k ∷ bs) cs = read_blocks-append (ks ++ (k ∷ [])) bs cs
read_blocks-append ks (packet_block b ∷ bs) cs =
    ap (both (resolve b (get_elem? ks b.interface_id))) (read_blocks-append ks bs cs)
    ∙ sym (
        both_assoc (resolve b (get_elem? ks b.interface_id)) (read_blocks ks bs)
          (read_blocks (described ks bs) cs))

pub described-append :
    (ks : List InterfaceKey) (bs cs : List Block)
    → described ks (bs ++ cs) ≡ described (described ks bs) cs
described-append ks [] cs = refl
described-append ks (interface_block k ∷ bs) cs = described-append (ks ++ (k ∷ [])) bs cs
described-append ks (packet_block b ∷ bs) cs = described-append ks bs cs

pub get_elem_left :
    (ks ls : List InterfaceKey) (i : ℕ) (k : InterfaceKey)
    → get_elem? ks i ≡ some k
    → get_elem? (ks ++ ls) i ≡ some k
get_elem_left [] ls i k h = ground (arith, h)
get_elem_left (x ∷ ks) ls zero k h = h
get_elem_left (x ∷ ks) ls (suc i) k h = get_elem_left ks ls i k h

pub get_elem_last :
    (ks : List InterfaceKey) (n : ℕ) (k : InterfaceKey)
    → n ≡ length ks
    → get_elem? (ks ++ (k ∷ [])) n ≡ some k
get_elem_last [] zero k h = refl
get_elem_last [] (suc n) k h = absurd (omega arith)
get_elem_last (x ∷ ks) zero k h = absurd (omega arith)
get_elem_last (x ∷ ks) (suc n) k h = get_elem_last ks n k (omega arith)

-- The map of a part has the numbers of the interfaces that its blocks describe.
pub record IsPart (w : PcapngPartWriter) : Type 0 where
  pub number :
      (k : InterfaceKey) (i : ℕ)
      → lookup k w.interfaces ≡ some i
      → get_elem? (described [] w.blocks) i ≡ some k
  pub count : length w.interfaces ≡ length (described [] w.blocks)

-- How a step extends what is read of a part.
abbrev pub Adds : PcapngPartWriter → List Shown → PcapngPartWriter → Type 0
Adds w new w' = IsPart w' × (read_blocks [] w'.blocks ≡ both (read_blocks [] w.blocks) (some new))

-- The number of an interface in the part, if there is one.
abbrev pub Resolves : InterfaceKey → Result ℕ × PcapngPartWriter → Type 0
Resolves k (err e, w) = Unit
Resolves k (ok i, w) = get_elem? (described [] w.blocks) i ≡ some k

-- What an accepted packet adds.
abbrev pub stamp : ℤ → Duration
stamp (negsuc n) = record { secs = 0; nanos = 0 }
stamp (pos n) = record { secs = n / 1_000_000_000; nanos = n % 1_000_000_000 }

abbrev pub shown : List ℕ → PcapPacket → Shown
shown label p = record {
  key = record { linktype = p.linktype; label = label };
  timestamp = stamp p.ts_origin_ns;
  original_len = p.original_len;
  bytes = p.bytes;
}

abbrev pub accepted : List ℕ → PcapPacket → Result (Unit {0}) → List Shown
accepted label p (err e) = []
accepted label p (ok _) = shown label p ∷ []
