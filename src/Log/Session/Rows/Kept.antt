-- ===== src/Log/Session/Rows/Kept.antt =====
-- How one call of the sink of file.rs changes the files of a session.
use tracemux.Prelude.{
  ℕ, ◌+◌, ◌-◌, ◌^◌, ◌<◌, ◌≡◌, refl, sym, ap, ◌∙◌, List, [], ◌∷◌, ◌++◌, Option, Bool, true, false,
  length, min, append-nil, append_assoc, length-append, arith,
}
use tracemux.Log.Raw
use tracemux.Log.Raw.Offsets.{content-append}
use tracemux.Log.BufWriter
use tracemux.Log.BufWriter.{BufWriter, flush-write_all}
use tracemux.Log.Index
use tracemux.Log.Index.{Dir, DualTimestamp, IndexEntry, from_envelope}
use tracemux.Log.Session.{
  SessionDir, FileLogSink, create_with_labels, Crates, row, append_raw, commit, close_if,
}
use tracemux.Log.Session.Rows.{Labels, labels, IsSettled}

module _ {V : Type 0} (io : Crates V) where
  -- A row is one line of the index after those that are there.
  index_append :
      (e : IndexEntry) (w : BufWriter)
      → w.buffered ≡ []
      → (BufWriter.flush (Index.append io.entry_to_string io.spill e w)).disk
        ≡ w.disk ++ (io.entry_to_string e ++ (10 ∷ []))
  unfolding Index.append
  index_append e w h =
      flush-write_all io.spill (10 ∷ []) (BufWriter.write_all io.spill (io.entry_to_string e) w)
      ∙ ap (λ xs. xs ++ (10 ∷ []))
          (flush-write_all io.spill (io.entry_to_string e) w
            ∙ ap (λ xs. xs ++ io.entry_to_string e) (flushed w h))
      ∙ append_assoc w.disk (io.entry_to_string e) (10 ∷ [])
    where
      flushed : (w : BufWriter) → w.buffered ≡ [] → (BufWriter.flush w).disk ≡ w.disk
      flushed w k = unfold BufWriter.flush in ap (λ xs. w.disk ++ xs) k ∙ append-nil w.disk

  -- How a call that logs nothing leaves the two files.
  abbrev pub Keeps : FileLogSink → FileLogSink → Type 0
  Keeps s s' = IsSettled s' × (s'.raw.disk ≡ s.raw.disk) × (s'.index.disk ≡ s.index.disk)

  pub commit-Keeps : (s : FileLogSink) → IsSettled s → Keeps s (commit io s).1
  unfolding commit Raw.flush BufWriter.flush
  commit-Keeps s h =
      let raw = ap (λ xs. s.raw.disk ++ xs) h.raw_flushed ∙ append-nil s.raw.disk in
      (
        record {
          raw_flushed = refl;
          index_flushed = refl;
          placed = h.placed ∙ ap (λ (xs : List ℕ). length xs) (sym raw);
        },
        raw,
        ap (λ xs. s.index.disk ++ xs) h.index_flushed ∙ append-nil s.index.disk,
      )

  pub close-Keeps : (b : Bool) (s : FileLogSink) → IsSettled s → Keeps s (close_if io b s).1
  close-Keeps true s h = (h, refl, refl)
  close-Keeps false s h =
      let (settled, raw, index) = commit-Keeps s h in
      (
        record {
          raw_flushed = settled.raw_flushed;
          index_flushed = settled.index_flushed;
          placed = settled.placed;
        },
        raw,
        index,
      )

  pub create-Keeps :
      (dir : SessionDir) (sid : ℕ) (source host : Option (List ℕ)) (decoder : List ℕ)
      → let s = create_with_labels dir sid source host decoder in
        IsSettled s × (s.raw.disk ≡ dir.raw_bin) × (s.index.disk ≡ dir.index_jsonl)
  unfolding create_with_labels Raw.create BufWriter.new
  create-Keeps dir sid source host decoder =
      (record { raw_flushed = refl; index_flushed = refl; placed = refl }, refl, refl)

  -- The row of a chunk, its payload standing at `off`.
  abbrev pub row_at : Labels → ℕ → DualTimestamp → Dir → List ℕ → IndexEntry
  row_at l off ts dir payload =
      record (from_envelope io.format_rfc3339_ns ts l.sid dir Index.bytes off (length payload)) {
        source = l.source;
        host = l.host;
      }

  row_lem :
      (s : FileLogSink) (ts : DualTimestamp) (dir : Dir) (off n : ℕ) (payload : List ℕ)
      → off ≡ length s.raw.disk
      → n ≡ length payload
      → row io s ts dir (off, n) ≡ row_at (labels s) (length s.raw.disk) ts dir payload
  unfolding row from_envelope
  row_lem s ts dir off n payload p q = rw p (rw q refl)

  pub append_raw_lem :
      (s : FileLogSink) (ts : DualTimestamp) (dir : Dir) (payload : List ℕ)
      → IsSettled s
      → length payload < 2 ^ 32
      → length s.raw.disk + length payload < 2 ^ 64
      → let s' = (append_raw io ts dir payload s).1 in
        let e = row_at (labels s) (length s.raw.disk) ts dir payload in
        IsSettled s'
        × (s'.raw.disk ≡ s.raw.disk ++ payload)
        × (s'.index.disk ≡ s.index.disk ++ (io.entry_to_string e ++ (10 ∷ [])))
  unfolding append_raw Raw.flush Raw.append
  append_raw_lem s ts dir payload h small room =
      let all : List ℕ = s.raw.buffered ++ payload in
      let raw =
        content-append (io.spill all) payload s.raw
        ∙ ap (λ xs. xs ++ payload)
            (ap (λ xs. s.raw.disk ++ xs) h.raw_flushed ∙ append-nil s.raw.disk) in
      let e = row_at (labels s) (length s.raw.disk) ts dir payload in
      let len : min (length payload) (2 ^ 32 - 1) ≡ length payload = omega arith in
      let same =
        row_lem s ts dir s.raw.pos (min (length payload) (2 ^ 32 - 1)) payload h.placed len in
      (
        record {
          raw_flushed = refl;
          index_flushed = index_flushed (
              Index.append io.entry_to_string io.spill
                (row io s ts dir (s.raw.pos, min (length payload) (2 ^ 32 - 1))) s.index);
          placed = omega (
            arith,
            h.placed,
            ap (λ (xs : List ℕ). length xs) raw,
            length-append s.raw.disk payload,
          );
        },
        raw,
        ap (λ a. (BufWriter.flush (Index.append io.entry_to_string io.spill a s.index)).disk) same
            ∙ index_append e s.index h.index_flushed,
      )
    where
      index_flushed : (w : BufWriter) → (BufWriter.flush w).buffered ≡ []
      index_flushed w = unfold BufWriter.flush in refl
