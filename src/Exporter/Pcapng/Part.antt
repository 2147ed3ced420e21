-- ===== src/Exporter/Pcapng/Part.antt =====
-- One part of a capture that pcapng.rs writes: its interfaces and its packets.
use tracemux.Prelude.{
  ℕ, ◌-◌, ◌^◌, ◌≡◌, ◌⊎◌, inl, inr, refl, sym, ap, ◌∙◌, List, [], ◌∷◌, ◌++◌, Option, none, some,
  Bool, true, false, length, get_elem?, ltb, if◌then◌else◌, arith, Bool-cases, length-append,
}
use tracemux.Prelude.Ints.{ℤ, pos, negsuc}
use tracemux.Prelude.Maps.{lookup, insert, lookup-insert, length-insert_new}
use tracemux.Error.{Result, ok, err, pipeline_generic}
use tracemux.Exporter.Pcapng.{
  InterfaceKey, key_eq, key_eq_iff, interface_key, PcapPacket, Duration, EnhancedPacketBlock, Block,
  interface_block, packet_block, timestamp_nanos_duration, timestamp_ns_duration, PcapngPartWriter,
  write_block, new_interface, known_interface, ensure_interface, write_packet, append_on,
  append_part,
}
use tracemux.Exporter.Pcapng.Blocks.{
  Shown, both, resolve, read_blocks, described, both_right, read_blocks-append, described-append,
  get_elem_left, get_elem_last, IsPart, Adds, Resolves, stamp, shown, accepted,
}

module _ (head_len : ℕ) (block_len : Block → ℕ) where
  abbrev pub with_interface : InterfaceKey → PcapngPartWriter → PcapngPartWriter
  with_interface k w = record (write_block head_len block_len (interface_block k) w) {
    interfaces = insert k (length w.interfaces) w.interfaces;
  }

  pub Adds-refl : (w : PcapngPartWriter) → IsPart w → Adds w [] w
  Adds-refl w h = (h, sym (both_right (read_blocks [] w.blocks)))

  pub described_next :
      (k : InterfaceKey) (w : PcapngPartWriter)
      → described [] (with_interface k w).blocks ≡ described [] w.blocks ++ (k ∷ [])
  unfolding write_block
  described_next k w = described-append [] w.blocks (interface_block k ∷ [])

  pub number_next :
      (k : InterfaceKey) (w : PcapngPartWriter)
      → IsPart w
      → (j : InterfaceKey) (i : ℕ) → lookup j (insert k (length w.interfaces) w.interfaces) ≡ some i
      → get_elem? (described [] w.blocks ++ (k ∷ [])) i ≡ some j
  number_next k w h j i e =
      which (Bool-cases (key_eq k j))
        (sym (lookup-insert k j (length w.interfaces) w.interfaces) ∙ e)
    where
      which :
          (key_eq k j ≡ true) ⊎ (key_eq k j ≡ false)
          → (if key_eq k j then some (length w.interfaces) else lookup j w.interfaces) ≡ some i
          → get_elem? (described [] w.blocks ++ (k ∷ [])) i ≡ some j
      which (inl t) found =
          let at : i ≡ length w.interfaces = ground (arith, t, found) in
          get_elem_last (described [] w.blocks) i k (at ∙ h.count) ∙ ap some ((key_eq_iff k j).0 t)
      which (inr f) found =
          get_elem_left (described [] w.blocks) (k ∷ []) i j
            (h.number j i (ground (arith, f, found)))

  pub with_interface_lem :
      (k : InterfaceKey) (w : PcapngPartWriter)
      → lookup k w.interfaces ≡ none
      → IsPart w
      → Adds w [] (with_interface k w) × Resolves k (ok (length w.interfaces), with_interface k w)
  unfolding write_block read_blocks
  with_interface_lem k w new h =
      let d = described_next k w in
      (
        (
          record {
            number = λ j i e. ap (λ ks. get_elem? ks i) d ∙ number_next k w h j i e;
            count =
                length-insert_new k (length w.interfaces) w.interfaces new
                ∙ omega (
                  arith,
                  ap (λ (ks : List InterfaceKey). length ks) d,
                  length-append (described [] w.blocks) (k ∷ []),
                  h.count,
                );
          },
          read_blocks-append [] w.blocks (interface_block k ∷ []),
        ),
        ap (λ ks. get_elem? ks (length w.interfaces)) d
            ∙ get_elem_last (described [] w.blocks) (length w.interfaces) k h.count,
      )

  abbrev pub Extends : InterfaceKey → PcapngPartWriter → Result ℕ × PcapngPartWriter → Type 0
  Extends k w r = Adds w [] r.1 × Resolves k r

  pub new_interface_lem :
      (k : InterfaceKey) (w : PcapngPartWriter)
      → lookup k w.interfaces ≡ none
      → IsPart w
      → Extends k w (new_interface head_len block_len k w)
  new_interface_lem k w new h = which (ltb (2 ^ 32 - 1) (length w.interfaces))
    where
      which :
          (b : Bool)
          → Extends k w (
              if b
              then (err pipeline_generic, w)
              else (ok (length w.interfaces), with_interface k w))
      which true = (Adds-refl w h, tt)
      which false = with_interface_lem k w new h

  pub known_interface_lem :
      (k : InterfaceKey) (o : Option ℕ) (w : PcapngPartWriter)
      → lookup k w.interfaces ≡ o
      → IsPart w
      → Extends k w (known_interface head_len block_len k o w)
  known_interface_lem k none w e h = new_interface_lem k w e h
  known_interface_lem k (some i) w e h = (Adds-refl w h, h.number k i e)

  pub stamp_lem : (z : ℤ) (d : Duration) → timestamp_nanos_duration z ≡ ok d → stamp z ≡ d
  unfolding timestamp_nanos_duration
  stamp_lem (negsuc n) d h = ground (arith, h)
  stamp_lem (pos n) d h = ground (arith, h)

  abbrev pub with_packet : PcapPacket → ℕ → Duration → PcapngPartWriter → PcapngPartWriter
  with_packet p id ts w = (write_packet head_len block_len p id (ok ts) w).1

  pub with_packet_lem :
      (label : List ℕ) (p : PcapPacket) (id : ℕ) (ts : Duration) (w : PcapngPartWriter)
      → get_elem? (described [] w.blocks) id
        ≡ some (record { linktype = p.linktype; label = label })
      → stamp p.ts_origin_ns ≡ ts
      → IsPart w
      → Adds w (shown label p ∷ []) (with_packet p id ts w)
  unfolding write_block read_blocks
  with_packet_lem label p id ts w there same h =
      let b : EnhancedPacketBlock = record {
        interface_id = id;
        timestamp = ts;
        original_len = p.original_len;
        bytes = p.bytes;
      } in
      let d = described-append [] w.blocks (packet_block b ∷ []) in
      (
        record {
          number = λ j i e. ap (λ ks. get_elem? ks i) d ∙ h.number j i e;
          count = h.count ∙ ap (λ (ks : List InterfaceKey). length ks) (sym d);
        },
        read_blocks-append [] w.blocks (packet_block b ∷ [])
            ∙ ap (both (read_blocks [] w.blocks)) (
                ap (λ o. both (resolve b o) (some [])) there
                ∙ ap
                    (λ t. some (
                      record {
                        key = record { linktype = p.linktype; label = label };
                        timestamp = t;
                        original_len = p.original_len;
                        bytes = p.bytes;
                      }
                      ∷ []))
                    (sym same)),
      )

  pub Adds-trans :
      (w w' w'' : PcapngPartWriter) (new : List Shown)
      → Adds w [] w'
      → Adds w' new w''
      → Adds w new w''
  Adds-trans w w' w'' new a b =
      (b.0, b.1 ∙ ap (λ o. both o (some new)) (a.1 ∙ both_right (read_blocks [] w.blocks)))

  pub write_packet_lem :
      (label : List ℕ) (p : PcapPacket) (id : ℕ) (r : Result Duration) (w : PcapngPartWriter)
      → get_elem? (described [] w.blocks) id
        ≡ some (record { linktype = p.linktype; label = label })
      → timestamp_nanos_duration p.ts_origin_ns ≡ r
      → IsPart w
      → let q = write_packet head_len block_len p id r w in Adds w (accepted label p q.0) q.1
  write_packet_lem label p id (err e) w there same h = Adds-refl w h
  write_packet_lem label p id (ok ts) w there same h =
      with_packet_lem label p id ts w there (stamp_lem p.ts_origin_ns ts same) h

  pub append_on_lem :
      (label : List ℕ) (p : PcapPacket) (w : PcapngPartWriter) (r : Result ℕ × PcapngPartWriter)
      → Extends (record { linktype = p.linktype; label = label }) w r
      → let q = append_on head_len block_len p r in Adds w (accepted label p q.0) q.1
  append_on_lem label p w (err e, w') (a, t) = a
  append_on_lem label p w (ok id, w') (a, t) =
      let q = write_packet head_len block_len p id (timestamp_ns_duration p.ts_origin_ns) w' in
      Adds-trans w w' q.1 (accepted label p q.0) a
        (write_packet_lem label p id (timestamp_ns_duration p.ts_origin_ns) w' t refl a.0)

  pub append_part_lem :
      (label : List ℕ) (p : PcapPacket) (w : PcapngPartWriter)
      → IsPart w
      → let q = append_part head_len block_len label p w in Adds w (accepted label p q.0) q.1
  unfolding append_part ensure_interface
  append_part_lem label p w h =
      let k : InterfaceKey = record { linktype = p.linktype; label = label } in
      append_on_lem label p w (ensure_interface head_len block_len k w)
        (known_interface_lem k (lookup k w.interfaces) w refl h)
