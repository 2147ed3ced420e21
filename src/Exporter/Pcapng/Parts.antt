-- ===== src/Exporter/Pcapng/Parts.antt =====
-- What the parts that pcapng.rs writes contain: every packet under its interface, in order.
use tracemux.Prelude.{
  ℕ, ◌-◌, ◌/◌, ◌^◌, ◌<◌, ◌≡◌, refl, sym, ap, ◌∙◌, List, [], ◌∷◌, ◌++◌, Option, none, some, Bool,
  true, false, length, ltb, if◌then◌else◌, arith,
}
use tracemux.Prelude.Ints.{ℤ, pos, negsuc}
use tracemux.Prelude.Maps.{lookup}
use tracemux.Error.{Result, ok, err, pipeline_generic}
use tracemux.Log.Rotate.{RotatePolicy}
use tracemux.Exporter.Pcapng.{
  InterfaceKey, interface_key, PcapPacket, Block, timestamp_nanos_duration, timestamp_ns_duration,
  PcapngPartWriter, PcapngStreamWriter, create_part, known_interface, ensure_interface,
  write_packet, append_on, append_part, should_rotate_for, create, rotate_part, append_current,
  append_packet,
}
use tracemux.Exporter.Pcapng.Blocks.{
  Shown, both, read_blocks, read_parts, read_stream, both_assoc, both_right, IsPart, accepted,
}
use tracemux.Exporter.Pcapng.Part.{with_interface, append_part_lem}

module _ (head_len : ℕ) (block_len : Block → ℕ) where
  create_part-IsPart : IsPart (create_part head_len block_len)
  unfolding create_part lookup
  create_part-IsPart = record { number = λ k i e. ground (arith, e); count = refl }

  create_part-blocks : read_blocks [] (create_part head_len block_len).blocks ≡ some []
  unfolding create_part read_blocks
  create_part-blocks = refl

  -- How a step extends what is read of a stream.
  abbrev AddsAll : PcapngStreamWriter → List Shown → PcapngStreamWriter → Type 0
  AddsAll s new s' = IsPart s'.current × (read_stream s' ≡ both (read_stream s) (some new))

  append_current_lem :
      (label : List ℕ) (p : PcapPacket) (s : PcapngStreamWriter)
      → IsPart s.current
      → let q = append_current head_len block_len label p s in AddsAll s (accepted label p q.0) q.1
  append_current_lem label p s h =
      let q = append_part head_len block_len label p s.current in
      let new = accepted label p q.0 in
      let (part, reads) = append_part_lem head_len block_len label p s.current h in
      (
        part,
        ap (both (read_parts s.closed)) reads
            ∙ sym (both_assoc (read_parts s.closed) (read_blocks [] s.current.blocks) (some new)),
      )

  rotate_part_lem :
      (s : PcapngStreamWriter)
      → let s' = rotate_part head_len block_len s in
        IsPart s'.current × (read_stream s' ≡ read_stream s)
  unfolding rotate_part
  rotate_part_lem s = (
    create_part-IsPart,
    ap (both (read_stream s)) create_part-blocks ∙ both_right (read_stream s),
  )

  rotated_lem :
      (b : Bool) (s : PcapngStreamWriter)
      → IsPart s.current
      → let s' = if b then rotate_part head_len block_len s else s in
        IsPart s'.current × (read_stream s' ≡ read_stream s)
  rotated_lem true s h = rotate_part_lem s
  rotated_lem false s h = (h, refl)

  append_packet_lem :
      (label : List ℕ) (p : PcapPacket) (s : PcapngStreamWriter)
      → IsPart s.current
      → let q = append_packet head_len block_len label p s in AddsAll s (accepted label p q.0) q.1
  unfolding append_packet
  append_packet_lem label p s h =
      let b = should_rotate_for head_len block_len p.ts_origin_ns s.rotate s.current in
      let s' = if b then rotate_part head_len block_len s else s in
      let q = append_current head_len block_len label p s' in
      let (part, same) = rotated_lem b s h in
      let (done, reads) = append_current_lem label p s' part in
      (done, reads ∙ ap (λ o. both o (some (accepted label p q.0))) same)

  -- A live capture: the packets with the names of their interfaces, what was accepted, and the stream.
  unfoldable pub capture :
      List (List ℕ × PcapPacket) → PcapngStreamWriter → List Shown × PcapngStreamWriter
  capture [] s = ([], s)
  capture ((label, p) ∷ ps) s =
      let q = append_packet head_len block_len label p s in
      let rest = capture ps q.1 in (accepted label p q.0 ++ rest.0, rest.1)

  capture_lem :
      (ps : List (List ℕ × PcapPacket)) (s : PcapngStreamWriter)
      → IsPart s.current
      → read_stream (capture ps s).1 ≡ both (read_stream s) (some (capture ps s).0)
  unfolding capture
  capture_lem [] s h = sym (both_right (read_stream s))
  capture_lem ((label, p) ∷ ps) s h =
      let q = append_packet head_len block_len label p s in
      let (part, reads) = append_packet_lem label p s h in
      capture_lem ps q.1 part
      ∙ ap (λ o. both o (some (capture ps q.1).0)) reads
      ∙ both_assoc (read_stream s) (some (accepted label p q.0)) (some (capture ps q.1).0)

  -- A capture of any packets, with any rotation: a reader that reads each part by itself, the one
  -- after the other, finds every interface that it looks up, and shows the packets that were accepted,
  -- in order, each with its link type, the name of its interface, its time in seconds and nanoseconds,
  -- its original length and its bytes.
  pub read_stream-capture :
      (policy : RotatePolicy) (ps : List (List ℕ × PcapPacket))
      → let r = capture ps (create head_len block_len policy) in read_stream r.1 ≡ some r.0
  unfolding create
  read_stream-capture policy ps =
      capture_lem ps (create head_len block_len policy) create_part-IsPart
      ∙ ap (λ o. both (both (some []) o) (some (capture ps (create head_len block_len policy)).0))
          create_part-blocks

  -- An `i64`, and what is answered for it.
  abbrev pub Word : ℤ → Type 0
  Word (pos n) = n < 2 ^ 63
  Word (negsuc n) = n < 2 ^ 63

  abbrev pub answer : ℤ → Result (Unit {0})
  answer (pos n) = ok tt
  answer (negsuc n) = err pipeline_generic

  write_packet-answer :
      (p : PcapPacket) (z : ℤ) (id : ℕ) (w : PcapngPartWriter)
      → Word z
      → (write_packet head_len block_len p id (timestamp_ns_duration z) w).0 ≡ answer z
  unfolding timestamp_nanos_duration
  write_packet-answer p (negsuc n) id w h = refl
  write_packet-answer p (pos n) id w h = rw (in_range n h) refl
    where
      in_range : (m : ℕ) → m < 2 ^ 63 → ltb (2 ^ 64 - 1) (m / 1_000_000_000) ≡ false
      in_range m k = ground (arith, k)

  append_on-answer :
      (k : InterfaceKey) (o : Option ℕ) (p : PcapPacket) (w : PcapngPartWriter)
      → length w.interfaces < 2 ^ 32
      → Word p.ts_origin_ns
      → (append_on head_len block_len p (known_interface head_len block_len k o w)).0
        ≡ answer p.ts_origin_ns
  append_on-answer k (some id) p w few h = write_packet-answer p p.ts_origin_ns id w h
  append_on-answer k none p w few h = rw (room (length w.interfaces) few) (
      write_packet-answer p p.ts_origin_ns (length w.interfaces)
        (with_interface head_len block_len k w) h)
    where
      room : (n : ℕ) → n < 2 ^ 32 → ltb (2 ^ 32 - 1) n ≡ false
      room n e = ground (arith, e)

  rotated_few :
      (b : Bool) (s : PcapngStreamWriter)
      → length s.current.interfaces < 2 ^ 32
      → length (if b then rotate_part head_len block_len s else s).current.interfaces < 2 ^ 32
  unfolding rotate_part create_part
  rotated_few true s h = omega arith
  rotated_few false s h = h

  -- While the current part has fewer than 2 ^ 32 interfaces, a packet whose instant is not before 1970
  -- is accepted, and one before it is refused with E-1001, whatever is rotated.
  pub append_packet-answer :
      (label : List ℕ) (p : PcapPacket) (s : PcapngStreamWriter)
      → length s.current.interfaces < 2 ^ 32
      → Word p.ts_origin_ns
      → (append_packet head_len block_len label p s).0 ≡ answer p.ts_origin_ns
  unfolding append_packet append_part ensure_interface
  append_packet-answer label p s few h =
      let b = should_rotate_for head_len block_len p.ts_origin_ns s.rotate s.current in
      let k : InterfaceKey = record { linktype = p.linktype; label = label } in
      let w = (if b then rotate_part head_len block_len s else s).current in
      append_on-answer k (lookup k w.interfaces) p w (rotated_few b s few) h
