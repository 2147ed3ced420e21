-- ===== src/Importer/Pcapng/Imported.antt =====
-- The session that the importer of pcapng.rs makes of a file.
use tracemux.Prelude.{
  ℕ, ◌+◌, ◌-◌, ◌*◌, ◌^◌, ◌<◌, ◌≡◌, refl, sym, ap, ap₂, ◌∙◌, min, List, [], ◌∷◌, ◌++◌, some, true,
  ltb, length, All, append-nil, append_assoc, length-append, arith,
}
use tracemux.Prelude.Ints.{ℤ, pos}
use tracemux.Error.{Result, ok}
use tracemux.Log.Raw
use tracemux.Log.Raw.Offsets.{content, content-append}
use tracemux.Log.BufWriter
use tracemux.Log.Index
use tracemux.Log.Index.{IndexEntry, from_envelope, flush-append}
use tracemux.Log.Session.{SessionDir, Crates}
use tracemux.Log.Session.Rows.{payloads, index_text}
use tracemux.Exporter.Rows.Written.{no_files}
use tracemux.Importer.Pcapng.{
  Writers, as_i64, times_thousand, imported_ts, add_packet, finish, close_files, open_files, run,
}
use tracemux.Importer.Pcapng.Blocks.{FileBlock, section, packet, other, IsBlock}
use tracemux.Importer.Pcapng.Packets.{
  file, packets, effects, import_loop-file, length-file, loop_ends,
}

-- The instant of a packet whose ticks are microseconds, up to the last one of an `i64`.
abbrev pub instant : ℕ → ℤ
instant ticks = pos (min (ticks * 1000) (2 ^ 63 - 1))

-- Packets that can be logged: their ticks are an `i64`, their lengths words.
abbrev pub AreLoggable : List (ℕ × List ℕ) → Type 0
AreLoggable = All (λ p. (p.0 < 2 ^ 63) × (length p.1 < 2 ^ 32))

module _ {V : Type 0} (io : Crates V) (clock : ℕ → ℤ) (sid : ℕ) where
  abbrev entry_at : ℕ → ℕ → ℕ → ℕ → IndexEntry
  entry_at n off ticks len =
      from_envelope io.format_rfc3339_ns (imported_ts (instant ticks) (clock n)) sid Index.incoming
        Index.datagram off len

  -- The rows that packets become, from a number and an offset on.
  unfoldable pub imported : ℕ → ℕ → List (ℕ × List ℕ) → List (IndexEntry × List ℕ)
  imported n off [] = []
  imported n off ((ticks, bytes) ∷ ps) =
      (
        from_envelope io.format_rfc3339_ns (imported_ts (instant ticks) (clock n)) sid
            Index.incoming Index.datagram off (length bytes),
        bytes,
      )
      ∷ imported (n + 1) (off + length bytes) ps

  -- What the writers have put down, with the next offset and the next packet.
  record Has (w : Writers) (off n : ℕ) (raw index : List ℕ) : Type 0 where
    raw_is : content w.raw ≡ raw
    index_is : (BufWriter.flush w.idx).disk ≡ index
    placed : w.raw.pos ≡ off
    counted : w.packets ≡ n

  times_thousand-as_i64 :
      (ticks : ℕ) → ticks < 2 ^ 63 → times_thousand (as_i64 ticks) ≡ instant ticks
  unfolding as_i64 times_thousand
  times_thousand-as_i64 ticks h = let t : ltb ticks (2 ^ 63) ≡ true = ground (arith, h) in rw t refl

  pos-append :
      (k off : ℕ) (bytes : List ℕ) (r : Raw.RawWriter)
      → r.pos ≡ off
      → off + length bytes < 2 ^ 64
      → (Raw.append k bytes r).1.pos ≡ off + length bytes
  unfolding Raw.append
  pos-append k off bytes r h room = omega arith

  add_packet-idx :
      (ticks : ℕ) (bytes : List ℕ) (w : Writers) (off n : ℕ) {raw index : List ℕ}
      → Has w off n raw index
      → ticks < 2 ^ 63
      → min (length bytes) (2 ^ 32 - 1) ≡ length bytes
      → (add_packet io clock sid ticks bytes w).idx
        ≡ Index.append io.entry_to_string io.spill (entry_at n off ticks (length bytes)) w.idx
  unfolding add_packet Raw.append
  add_packet-idx ticks bytes w off n h small full =
      let row = λ (k : ℕ) (at : ℕ) (z : ℤ) (len : ℕ).
        Index.append io.entry_to_string io.spill
          (from_envelope io.format_rfc3339_ns (imported_ts z (clock k)) sid Index.incoming
            Index.datagram at len)
          w.idx in
      ap₂ (λ k at. row k at (times_thousand (as_i64 ticks)) (min (length bytes) (2 ^ 32 - 1)))
        h.counted h.placed
      ∙ ap₂ (λ z len. row n off z len) (times_thousand-as_i64 ticks small) full

  add_packet-Has :
      (ticks : ℕ) (bytes : List ℕ) (w : Writers) (off n : ℕ) (raw index : List ℕ)
      → Has w off n raw index
      → ticks < 2 ^ 63
      → length bytes < 2 ^ 32
      → off + length bytes < 2 ^ 64
      → Has
          (add_packet io clock sid ticks bytes w)
          (off + length bytes)
          (n + 1)
          (raw ++ bytes)
          (index ++ (io.entry_to_string (entry_at n off ticks (length bytes)) ++ (10 ∷ [])))
  unfolding add_packet
  add_packet-Has ticks bytes w off n raw index h small short room =
      let spill = io.spill (w.raw.buffered ++ bytes) in
      let full : min (length bytes) (2 ^ 32 - 1) ≡ length bytes = omega arith in
      record {
        raw_is = content-append spill bytes w.raw ∙ ap (λ xs. xs ++ bytes) h.raw_is;
        index_is =
            ap (λ i. (BufWriter.flush i).disk) (add_packet-idx ticks bytes w off n h small full)
            ∙ flush-append io.entry_to_string io.spill (entry_at n off ticks (length bytes)) w.idx
            ∙ ap
                (λ xs.
                  xs ++ (io.entry_to_string (entry_at n off ticks (length bytes)) ++ (10 ∷ [])))
                h.index_is;
        placed = pos-append spill off bytes w.raw h.placed room;
        counted = ap (λ (k : ℕ). k + 1) h.counted;
      }

  effects-Has :
      (bs : List FileBlock) (w : Writers) (off n : ℕ) (raw index : List ℕ)
      → Has w off n raw index
      → AreLoggable (packets bs)
      → off + length (payloads (imported n off (packets bs))) < 2 ^ 64
      → let w' = effects io clock sid bs w in
        (content w'.raw ≡ raw ++ payloads (imported n off (packets bs)))
        × ((BufWriter.flush w'.idx).disk ≡ index ++ index_text io (imported n off (packets bs)))
  unfolding imported
  effects-Has [] w off n raw index h fit room =
      (h.raw_is ∙ sym (append-nil raw), h.index_is ∙ sym (append-nil index))
  effects-Has (section b ∷ bs) w off n raw index h fit room =
      effects-Has bs w off n raw index h fit room
  effects-Has (other t b ∷ bs) w off n raw index h fit room =
      effects-Has bs w off n raw index h fit room
  effects-Has (packet p ∷ bs) w off n raw index h fit room =
      let rest = imported (n + 1) (off + length p.bytes) (packets bs) in
      let all = length-append p.bytes (payloads rest) in
      let e = io.entry_to_string (entry_at n off p.ticks (length p.bytes)) in
      let (r, i) =
        effects-Has bs (add_packet io clock sid p.ticks p.bytes w) (off + length p.bytes) (n + 1)
          (raw ++ p.bytes) (index ++ (e ++ (10 ∷ [])))
          (add_packet-Has p.ticks p.bytes w off n raw index h fit.0.0 fit.0.1 (omega (arith, all)))
          fit.1 (omega (arith, all)) in
      (
        r ∙ append_assoc raw p.bytes (payloads rest),
        i
            ∙ append_assoc index (e ++ (10 ∷ [])) (index_text io rest)
            ∙ ap (λ xs. index ++ xs) (append_assoc e (10 ∷ []) (index_text io rest)),
      )

  -- The import ends, whatever the file and the directory contain.
  pub run_ends :
      (src : List ℕ) (dst : SessionDir)
      → (r : Result SessionDir) × (run io clock sid src dst ≡ some r)
  unfolding run
  run_ends src dst =
      let (r, e) =
        loop_ends io clock sid (length src + 1) src (open_files io clock sid dst) (omega arith) in
      (close_files io clock sid dst r, ap (finish io clock sid dst) e)

  -- A file of section headers in the importer's byte order, packets with any padding and options, and
  -- blocks of other types, which may be cut in the middle of a block's first eight bytes: the import
  -- into an empty directory leaves the bytes of the packets in raw.bin, in order, and for each a row
  -- of the index that names its bytes, with a thousand times its ticks for an instant, as far as an
  -- `i64` goes, as long as each has less than 2 ^ 32 bytes and all of them less than 2 ^ 64.
  pub run-file :
      (bs : List FileBlock) (tail : List ℕ)
      → All IsBlock bs
      → length tail < 8
      → AreLoggable (packets bs)
      → length (payloads (imported 0 0 (packets bs))) < 2 ^ 64
      → run io clock sid (file bs ++ tail) no_files
        ≡ some (
            ok (record no_files {
              raw_bin = payloads (imported 0 0 (packets bs));
              index_jsonl = index_text io (imported 0 0 (packets bs));
            }))
  unfolding run Raw.create Raw.flush BufWriter.new BufWriter.flush
  run-file bs tail h short fit room =
      let w = open_files io clock sid no_files in
      let (r, i) =
        effects-Has bs w 0 0 [] []
          (record { raw_is = refl; index_is = refl; placed = refl; counted = refl }) fit
          (omega (arith, room)) in
      ap (finish io clock sid no_files) (
        import_loop-file io clock sid (length (file bs ++ tail) + 1) bs tail w h short
          (omega (arith, length-append (file bs) tail, length-file io clock sid bs)))
      ∙ ap₂ (λ raw index. some (ok (record no_files { raw_bin = raw; index_jsonl = index }))) r i
