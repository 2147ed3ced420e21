-- ===== src/Exporter/Pcapng/Session/Found.antt =====
-- The interface and the block of a packet that pcapng.rs exports.
use tracemux.Prelude.{
  ℕ, ◌+◌, ◌-◌, ◌^◌, ◌<◌, ◌≤◌, ◌≡◌, sym, ap, ◌∙◌, List, [], ◌∷◌, Option, none, some, false, length,
  get_elem?, ltb, arith,
}
use tracemux.Prelude.Maps.{lookup, length-insert_new}
use tracemux.Error.{Result, ok, err}
use tracemux.Exporter.Pcapng.{
  InterfaceKey, interface_key, EnhancedPacketBlock, Block, packet_block, PcapngPartWriter,
  write_block, known_interface,
}
use tracemux.Exporter.Pcapng.Blocks.{
  both, resolve, read_blocks, described, read_blocks-append, described-append, IsPart, Adds,
}
use tracemux.Exporter.Pcapng.Part.{known_interface_lem, with_interface_lem}
use tracemux.Exporter.Pcapng.Metadata.{pair_key}

module _ (head_len : ℕ) (block_len : Block → ℕ) where
  -- A packet block adds the packet that it names.
  pub with_block_lem :
      (k : InterfaceKey) (b : EnhancedPacketBlock) (w : PcapngPartWriter)
      → get_elem? (described [] w.blocks) b.interface_id ≡ some k
      → IsPart w
      → Adds w
          (record {
            key = k;
            timestamp = b.timestamp;
            original_len = b.original_len;
            bytes = b.bytes;
          }
            ∷ [])
          (write_block head_len block_len (packet_block b) w)
  unfolding write_block read_blocks
  with_block_lem k b w there h =
      let d = described-append [] w.blocks (packet_block b ∷ []) in
      (
        record {
          number = λ j i e. ap (λ ks. get_elem? ks i) d ∙ h.number j i e;
          count = h.count ∙ ap (λ (ks : List InterfaceKey). length ks) (sym d);
        },
        read_blocks-append [] w.blocks (packet_block b ∷ [])
            ∙ ap (both (read_blocks [] w.blocks)) (ap (λ o. both (resolve b o) (some [])) there),
      )

  -- While there is room, an interface is found or made.
  abbrev pub Found : InterfaceKey → PcapngPartWriter → Result ℕ × PcapngPartWriter → Type 0
  Found k w (err e, w') = ⊥
  Found k w (ok id, w') =
      Adds w [] w'
      × (get_elem? (described [] w'.blocks) id ≡ some k)
      × (length w'.interfaces ≤ length w.interfaces + 1)

  pub Found-known :
      (k : InterfaceKey) (o : Option ℕ) (w : PcapngPartWriter)
      → lookup k w.interfaces ≡ o
      → IsPart w
      → length w.interfaces < 2 ^ 32
      → Found k w (known_interface head_len block_len k o w)
  unfolding write_block
  Found-known k (some id) w e h few =
      let (adds, there) = known_interface_lem head_len block_len k (some id) w e h in
      (adds, there, omega arith)
  Found-known k none w e h few =
      let room : ltb (2 ^ 32 - 1) (length w.interfaces) ≡ false = ground (arith, few) in
      let (adds, there) = with_interface_lem head_len block_len k w e h in
      rw room (adds, there, omega (arith, length-insert_new k (length w.interfaces) w.interfaces e))
