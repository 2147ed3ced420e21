-- ===== src/Importer/Pcapng/Exported.antt =====
-- A capture that the exporter of pcapng.rs wrote, read by the importer. How pcap_file lays a block out
-- is the parameter `layout`: an enhanced packet has its time in the ticks that its interface was
-- described with, nanoseconds, and an interface description is a block of another type.
use tracemux.Prelude.{
  ℕ, ◌+◌, ◌*◌, ◌^◌, ◌<◌, ◌≡◌, refl, sym, ap, ap₂, ◌∙◌, List, [], ◌∷◌, ◌++◌, Option, none, some,
  length, append-nil, map, All, get_elem?, subst, arith,
}
use tracemux.Prelude.Ints.{ℤ}
use tracemux.Error.{ok}
use tracemux.Log.Rotate.{RotatePolicy}
use tracemux.Log.Session.{Crates}
use tracemux.Log.Session.Rows.{payloads, index_text}
use tracemux.Exporter.Rows.Written.{no_files}
use tracemux.Exporter.Pcapng.{
  InterfaceKey, Duration, EnhancedPacketBlock, Block, interface_block, packet_block, PcapPacket,
  create,
}
use tracemux.Exporter.Pcapng.Blocks
use tracemux.Exporter.Pcapng.Blocks.{Shown, both, resolve, read_blocks, both_left}
use tracemux.Exporter.Pcapng.Parts.{capture, read_stream-capture}
use tracemux.Importer.Pcapng.{run}
use tracemux.Importer.Pcapng.Blocks.{FileBlock, section, packet, other, IsBlock}
use tracemux.Importer.Pcapng.Packets.{file, packets}
use tracemux.Importer.Pcapng.Imported.{AreLoggable, imported, run-file}

-- Nanoseconds since 1970.
abbrev pub nanoseconds : Duration → ℕ
nanoseconds d = d.secs * 1_000_000_000 + d.nanos

abbrev pub as_ticks : List Shown → List (ℕ × List ℕ)
as_ticks [] = []
as_ticks (s ∷ ss) = (nanoseconds s.timestamp, s.bytes) ∷ as_ticks ss

abbrev ticks_of : Option (List Shown) → List (ℕ × List ℕ)
ticks_of none = []
ticks_of (some ss) = as_ticks ss

module _ (layout : Block → FileBlock) where
  -- What the layout keeps of a block.
  pub record LaysOut : Type 0 where
    pub packet_kept :
        (b : EnhancedPacketBlock)
        → packets (layout (packet_block b) ∷ []) ≡ (nanoseconds b.timestamp, b.bytes) ∷ []
    pub interface_skipped : (k : InterfaceKey) → packets (layout (interface_block k) ∷ []) ≡ []

  packets_next :
      (b : FileBlock) (bs : List FileBlock) → packets (b ∷ bs) ≡ packets (b ∷ []) ++ packets bs
  packets_next (section b) bs = refl
  packets_next (packet p) bs = refl
  packets_next (other t b) bs = refl

  shown_packets :
      (h : LaysOut) (ks : List InterfaceKey) (bs : List Block) (ss : List Shown)
      → read_blocks ks bs ≡ some ss
      → packets (map layout bs) ≡ as_ticks ss
  unfolding read_blocks
  shown_packets h ks [] [] e = refl
  shown_packets h ks [] (s ∷ ss) e = ground (arith, e)
  shown_packets h ks (interface_block k ∷ bs) ss e =
      packets_next (layout (interface_block k)) (map layout bs)
      ∙ ap₂ (λ xs ys. xs ++ ys) (h.interface_skipped k) (shown_packets h (ks ++ (k ∷ [])) bs ss e)
  shown_packets h ks (packet_block b ∷ bs) ss e =
      packets_next (layout (packet_block b)) (map layout bs)
      ∙ ap (λ xs. xs ++ packets (map layout bs)) (h.packet_kept b)
      ∙ found (get_elem? ks b.interface_id) (read_blocks ks bs) e
          (λ rest k. shown_packets h ks bs rest k)
    where
      found :
          (o : Option InterfaceKey) (r : Option (List Shown))
          → both (resolve b o) r ≡ some ss
          → ((rest : List Shown) → r ≡ some rest → packets (map layout bs) ≡ as_ticks rest)
          → (nanoseconds b.timestamp, b.bytes) ∷ packets (map layout bs) ≡ as_ticks ss
      found none r k later = ground (arith, k)
      found (some i) none k later = ground (arith, k)
      found (some i) (some rest) k later =
          ap (λ xs. (nanoseconds b.timestamp, b.bytes) ∷ xs) (later rest refl) ∙ ap ticks_of k

  -- A capture of any packets that took one part, laid out behind a section header: the import succeeds,
  -- and leaves the bytes of the packets that were accepted, in order, each with a row of the index that
  -- names them. Its instant is a thousand times the one that it was captured at, in nanoseconds, as
  -- far as an `i64` goes.
  pub run-capture :
      (h : LaysOut) {V : Type 0} (io : Crates V) (clock : ℕ → ℤ) (sid : ℕ) (head_len : ℕ)
      (block_len : Block → ℕ) (policy : RotatePolicy) (ps : List (List ℕ × PcapPacket))
      (head : List ℕ)
      → let r = capture head_len block_len ps (create head_len block_len policy) in
        let blocks = section head ∷ map layout r.1.current.blocks in
        let rows = imported io clock sid 0 0 (as_ticks r.0) in
        (r.1.closed ≡ [])
        → All IsBlock blocks
        → AreLoggable (as_ticks r.0)
        → length (payloads rows) < 2 ^ 64
        → run io clock sid (file blocks) no_files
          ≡ some
              (ok (record no_files { raw_bin = payloads rows; index_jsonl = index_text io rows }))
  run-capture h io clock sid head_len block_len policy ps head one blocks_fit fit room =
      let r = capture head_len block_len ps (create head_len block_len policy) in
      let blocks = section head ∷ map layout r.1.current.blocks in
      let reads : read_blocks [] r.1.current.blocks ≡ some r.0 =
        sym (both_left (read_blocks [] r.1.current.blocks))
        ∙ ap (λ c. both (Blocks.read_parts c) (read_blocks [] r.1.current.blocks)) (sym one)
        ∙ read_stream-capture head_len block_len policy ps in
      let same = shown_packets h [] r.1.current.blocks r.0 reads in
      ap (λ src. run io clock sid src no_files) (sym (append-nil (file blocks)))
      ∙ run-file io clock sid blocks [] blocks_fit (omega arith) (subst AreLoggable (sym same) fit)
          (subst (λ xs. length (payloads (imported io clock sid 0 0 xs)) < 2 ^ 64) (sym same) room)
      ∙ ap
          (λ xs. some (
            ok (record no_files {
              raw_bin = payloads (imported io clock sid 0 0 xs);
              index_jsonl = index_text io (imported io clock sid 0 0 xs);
            })))
          same
