-- ===== src/Exporter/Pcapng/Session/Wanted.antt =====
-- What an export of pcapng.rs should contain, and one packet of it.
use tracemux.Prelude.{
  ℕ, ◌+◌, ◌≤◌, ◌≡◌, refl, ap, ◌∙◌, List, [], ◌∷◌, Option, some, length, if◌then◌else◌, arith,
}
use tracemux.Prelude.Ints.{ℤ}
use tracemux.Prelude.Maps.{lookup}
use tracemux.Error.{Result, ok, err, ◌>>=◌}
use tracemux.Log.Index.{IndexEntry}
use tracemux.Log.Lines.{FrameEntry}
use tracemux.Exporter.Pcapng.{
  interface_key, Duration, EnhancedPacketBlock, Block, packet_block, PcapngPartWriter, write_block,
}
use tracemux.Exporter.Pcapng.Blocks.{Shown, both, read_blocks, both_assoc, Adds}
use tracemux.Exporter.Pcapng.Part.{Adds-trans}
use tracemux.Exporter.Pcapng.Metadata.{
  Value, PacketMetadata, pair_key, is_packet, packet_interface_label, linktype_of, original_len_of,
}
use tracemux.Exporter.Pcapng.Session.{timestamp_duration}
use tracemux.Exporter.Pcapng.Session
use tracemux.Exporter.Pcapng.Session.Found.{with_block_lem, Found}

module _ {V : Type 0} (field : V → List ℕ → Option Value)
    (entry_from_str : List ℕ → Option IndexEntry) (frame_from_str : List ℕ → Option (FrameEntry V))
    (parse_rfc3339 : List ℕ → Option ℤ) (head_len : ℕ) (block_len : Block → ℕ) where
  abbrev pub Metadata : Type 0
  Metadata = Session.Metadata field entry_from_str frame_from_str parse_rfc3339 head_len block_len

  -- A packet as a reader should show it.
  abbrev pub wanted : IndexEntry → Option PacketMetadata → List ℕ → Duration → Shown
  wanted e meta bytes t = record {
    key = record { linktype = linktype_of meta; label = packet_interface_label e meta };
    timestamp = t;
    original_len = original_len_of e meta;
    bytes = bytes;
  }

  -- The packets of rows: those that are packets, each with its instant, up to the first instant that
  -- cannot be told.
  unfoldable pub expected : Metadata → List (IndexEntry × List ℕ) → Result (List Shown)
  expected metadata [] = ok []
  expected metadata ((e, bytes) ∷ rs) =
      let meta = lookup (e.off, e.len) metadata in
      let rest = expected metadata rs in
      if is_packet e meta
      then (timestamp_duration (parse_rfc3339 e.ts_origin) >>= λ t.
          rest >>= λ ss. ok (wanted e meta bytes t ∷ ss))
      else rest

  -- What an export wrote is what it should have, or both failed.
  abbrev pub Agree :
      PcapngPartWriter → ℕ → Result (PcapngPartWriter × ℕ) → Result (List Shown) → Type 0
  Agree w n (ok (w', n')) (ok ss) = Adds w ss w' × (n' ≡ n + length ss)
  Agree w n (ok s) (err e) = ⊥
  Agree w n (err e) (ok ss) = ⊥
  Agree w n (err e) (err f) = e ≡ f

  -- One packet.
  abbrev pub Step :
      PcapngPartWriter → (Duration → Shown) → Result PcapngPartWriter → Result Duration → Type 0
  Step w one (ok w') (ok t) =
      Adds w (one t ∷ []) w' × (length w'.interfaces ≤ length w.interfaces + 1)
  Step w one (ok w') (err e) = ⊥
  Step w one (err e) (ok t) = ⊥
  Step w one (err e) (err f) = e ≡ f

  abbrev pub go :
      IndexEntry
      → Option PacketMetadata
      → List ℕ
      → Result ℕ × PcapngPartWriter
      → Result PcapngPartWriter
  go = Session.on_interface field entry_from_str frame_from_str parse_rfc3339 head_len block_len

  pub on_interface-Step :
      (e : IndexEntry) (meta : Option PacketMetadata) (bytes : List ℕ) (w : PcapngPartWriter)
      (r : Result ℕ × PcapngPartWriter)
      → Found head_len block_len
          (record { linktype = linktype_of meta; label = packet_interface_label e meta })
          w
          r
      → Step w
          (wanted e meta bytes)
          (go e meta bytes r)
          (timestamp_duration (parse_rfc3339 e.ts_origin))
  on_interface-Step e meta bytes w (err f, w') h = absurd h
  on_interface-Step e meta bytes w (ok id, w') (adds, there, few) =
      which (timestamp_duration (parse_rfc3339 e.ts_origin))
    where
      block : Duration → EnhancedPacketBlock
      block t = record {
        interface_id = id;
        timestamp = t;
        original_len = original_len_of e meta;
        bytes = bytes;
      }

      which :
          (d : Result Duration)
          → Step w
              (wanted e meta bytes)
              (d >>= λ t. ok (
                Session.write_block_of field entry_from_str frame_from_str parse_rfc3339 head_len
                  block_len e meta bytes id w' t))
              d
      which (err f) = refl
      which (ok t) = (
        Adds-trans head_len block_len w w'
            (write_block head_len block_len (packet_block (block t)) w')
            (wanted e meta bytes t ∷ []) adds
            (with_block_lem head_len block_len
              (record { linktype = linktype_of meta; label = packet_interface_label e meta })
              (block t) w' there adds.0),
        unfold write_block in few,
      )

  -- A packet, and then what follows.
  Agree-cons :
      (w w' : PcapngPartWriter) (n : ℕ) (s : Shown) (l : Result (PcapngPartWriter × ℕ))
      (x : Result (List Shown))
      → Adds w (s ∷ []) w'
      → Agree w' (n + 1) l x
      → Agree w n l (x >>= λ ss. ok (s ∷ ss))
  Agree-cons w w' n s (err e) (err f) a h = h
  Agree-cons w w' n s (err e) (ok ss) a h = absurd h
  Agree-cons w w' n s (ok q) (err f) a h = absurd h
  Agree-cons w w' n s (ok (w'', n')) (ok ss) a (b, c) = (
    (
      b.0,
      b.1
          ∙ ap (λ o. both o (some ss)) a.1
          ∙ both_assoc (read_blocks [] w.blocks) (some (s ∷ [])) (some ss),
    ),
    omega (arith, c),
  )

  pub Agree-step :
      (w : PcapngPartWriter) (n : ℕ) (one : Duration → Shown) (r : Result PcapngPartWriter)
      (d : Result Duration) (loop : PcapngPartWriter × ℕ → Result (PcapngPartWriter × ℕ))
      (x : Result (List Shown))
      → Step w one r d
      → ((w' : PcapngPartWriter) (t : Duration)
          → Adds w (one t ∷ []) w'
          → length w'.interfaces ≤ length w.interfaces + 1
          → Agree w' (n + 1) (loop (w', n + 1)) x)
      → Agree w n ((r >>= λ w'. ok (w', n + 1)) >>= loop) (d >>= λ t. x >>= λ ss. ok (one t ∷ ss))
  Agree-step w n one (err e) (err f) loop x h later = h
  Agree-step w n one (err e) (ok t) loop x h later = absurd h
  Agree-step w n one (ok w') (err f) loop x h later = absurd h
  Agree-step w n one (ok w') (ok t) loop x (a, few) later =
      Agree-cons w w' n (one t) (loop (w', n + 1)) x a (later w' t a few)
