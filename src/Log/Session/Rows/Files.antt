-- ===== src/Log/Session/Rows/Files.antt =====
-- The proof that the files of a session's directory contain what was logged.
use tracemux.Prelude.{
  ℕ, ◌+◌, ◌^◌, ◌<◌, ◌≡◌, refl, sym, ap, ap₂, ◌∙◌, List, [], ◌∷◌, ◌++◌, Option, Bool, true, false,
  length, append-nil, append_assoc, length-append, arith,
}
use tracemux.Log.Index.{Dir, DualTimestamp, IndexEntry}
use tracemux.Log.Lines.{Record}
use tracemux.Log.Session.{
  SessionDir, FileLogSink, on_disk, create_with_labels, Crates, append_raw, append_record, commit,
  close, close_if,
}
use tracemux.Log.Session.Rows.{
  Call, raws, records, commits, closes, reopens, Labels, labels, IsSettled, perform, after, logged,
  payloads, index_text, AreSmall,
}
use tracemux.Log.Session.Rows.Kept.{
  Keeps, commit-Keeps, close-Keeps, create-Keeps, row_at, append_raw_lem,
}

module _ {V : Type 0} (io : Crates V) where
  -- A sink in a settled state with the given labels and files.
  record Has (s : FileLogSink) (l : Labels) (off : ℕ) (raw index : List ℕ) : Type 0 where
    settled : IsSettled s
    labelled : labels s ≡ l
    raw_is : s.raw.disk ≡ raw
    index_is : s.index.disk ≡ index
    off_is : off ≡ length raw

  abbrev Keeping : FileLogSink → FileLogSink → Labels → ℕ → List ℕ → List ℕ → Type 0
  Keeping s s' l off raw index = Keeps io s s' → labels s' ≡ labels s → Has s' l off raw index

  keep :
      (s s' : FileLogSink) (l : Labels) (off : ℕ) (raw index : List ℕ)
      → Has s l off raw index
      → Keeping s s' l off raw index
  keep s s' l off raw index h (settled, r, i) e = record {
    settled = settled;
    labelled = e ∙ h.labelled;
    raw_is = r ∙ h.raw_is;
    index_is = i ∙ h.index_is;
    off_is = h.off_is;
  }

  perform-raws :
      (s : FileLogSink) (l : Labels) (off : ℕ) (raw index : List ℕ) (ts : DualTimestamp) (dir : Dir)
      (payload : List ℕ)
      → Has s l off raw index
      → length payload < 2 ^ 32
      → off + length payload < 2 ^ 64
      → Has
          (perform io (raws ts dir payload) s)
          l
          (off + length payload)
          (raw ++ payload)
          (index ++ (io.entry_to_string (row_at io l off ts dir payload) ++ (10 ∷ [])))
  unfolding perform
  perform-raws s l off raw index ts dir payload h small room =
      let there : off ≡ length s.raw.disk =
        h.off_is ∙ ap (λ (xs : List ℕ). length xs) (sym h.raw_is) in
      let (settled, r, i) = append_raw_lem io s ts dir payload h.settled small (omega arith) in
      let same : row_at io (labels s) (length s.raw.disk) ts dir payload
          ≡ row_at io l off ts dir payload =
        ap₂ (λ k n. row_at io k n ts dir payload) h.labelled (sym there) in
      record {
        settled = settled;
        labelled = unfold append_raw in h.labelled;
        raw_is = r ∙ ap (λ xs. xs ++ payload) h.raw_is;
        index_is = i ∙ ap₂ (λ xs e. xs ++ (io.entry_to_string e ++ (10 ∷ []))) h.index_is same;
        off_is = omega (arith, h.off_is, length-append raw payload);
      }

  perform-reopens :
      (s : FileLogSink) (l : Labels) (off : ℕ) (raw index : List ℕ) (sid : ℕ)
      (source host : Option (List ℕ)) (decoder : List ℕ)
      → Has s l off raw index
      → Has
          (perform io (reopens sid source host decoder) s)
          (record { sid = sid; source = source; host = host })
          off
          raw
          index
  unfolding perform on_disk create_with_labels
  perform-reopens s l off raw index sid source host decoder h =
      let (settled, r, i) = commit-Keeps io s h.settled in
      let (settled', r', i') = create-Keeps io (on_disk (commit io s).1) sid source host decoder in
      record {
        settled = settled';
        labelled = refl;
        raw_is = r' ∙ r ∙ h.raw_is;
        index_is = i' ∙ i ∙ h.index_is;
        off_is = h.off_is;
      }

  perform-records :
      (s : FileLogSink) (l : Labels) (off : ℕ) (raw index : List ℕ) (ts : DualTimestamp)
      (r : Record V)
      → Has s l off raw index
      → Has (perform io (records ts r) s) l off raw index
  unfolding perform append_record
  perform-records s l off raw index ts r h =
      keep s (append_record io ts r s).1 l off raw index h
        (
          record {
            raw_flushed = h.settled.raw_flushed;
            index_flushed = h.settled.index_flushed;
            placed = h.settled.placed;
          },
          refl,
          refl,
        )
        refl

  perform-commits :
      (s : FileLogSink) (l : Labels) (off : ℕ) (raw index : List ℕ)
      → Has s l off raw index
      → Has (perform io commits s) l off raw index
  unfolding perform
  perform-commits s l off raw index h =
      keep s (commit io s).1 l off raw index h (commit-Keeps io s h.settled) (unfold commit in refl)

  perform-closes :
      (s : FileLogSink) (l : Labels) (off : ℕ) (raw index : List ℕ)
      → Has s l off raw index
      → Has (perform io closes s) l off raw index
  unfolding perform close
  perform-closes s l off raw index h =
      keep s (close io s).1 l off raw index h (close-Keeps io s.closed s h.settled)
        (same s.closed s)
    where
      same : (b : Bool) (s : FileLogSink) → labels (close_if io b s).1 ≡ labels s
      same true s = refl
      same false s = unfold commit in refl

  -- After any calls the two files have what they had, and then the payloads and the rows.
  abbrev pub HasRows : FileLogSink → List ℕ → List ℕ → List (IndexEntry × List ℕ) → Type 0
  HasRows s raw index rows =
      (s.raw.disk ≡ raw ++ payloads rows) × (s.index.disk ≡ index ++ index_text io rows)

  after_lem :
      (cs : List (Call V)) (s : FileLogSink) (l : Labels) (off : ℕ) (raw index : List ℕ)
      → Has s l off raw index
      → AreSmall (logged io l off cs)
      → off + length (payloads (logged io l off cs)) < 2 ^ 64
      → HasRows (after io cs s) raw index (logged io l off cs)
  unfolding after logged
  after_lem [] s l off raw index h small room =
      (h.raw_is ∙ sym (append-nil raw), h.index_is ∙ sym (append-nil index))
  after_lem (raws ts dir payload ∷ cs) s l off raw index h small room =
      let rest = logged io l (off + length payload) cs in
      let all = length-append payload (payloads rest) in
      let e = io.entry_to_string (row_at io l off ts dir payload) in
      let (r, i) =
        after_lem cs (perform io (raws ts dir payload) s) l (off + length payload) (raw ++ payload)
          (index ++ (e ++ (10 ∷ [])))
          (perform-raws s l off raw index ts dir payload h small.0 (omega (arith, all))) small.1
          (omega (arith, all)) in
      (
        r ∙ append_assoc raw payload (payloads rest),
        i
            ∙ append_assoc index (e ++ (10 ∷ [])) (index_text io rest)
            ∙ ap (λ xs. index ++ xs) (append_assoc e (10 ∷ []) (index_text io rest)),
      )
  after_lem (records ts r ∷ cs) s l off raw index h small room =
      after_lem cs (perform io (records ts r) s) l off raw index
        (perform-records s l off raw index ts r h) small room
  after_lem (commits ∷ cs) s l off raw index h small room =
      after_lem cs (perform io commits s) l off raw index (perform-commits s l off raw index h)
        small room
  after_lem (closes ∷ cs) s l off raw index h small room =
      after_lem cs (perform io closes s) l off raw index (perform-closes s l off raw index h) small
        room
  after_lem (reopens sid source host decoder ∷ cs) s l off raw index h small room =
      after_lem cs (perform io (reopens sid source host decoder) s)
        (record { sid = sid; source = source; host = host }) off raw index
        (perform-reopens s l off raw index sid source host decoder h) small room

  -- The same from the creation of the sink.
  pub session_files :
      (cs : List (Call V)) (dir : SessionDir) (sid : ℕ) (source host : Option (List ℕ))
      (decoder : List ℕ)
      → let l : Labels = record { sid = sid; source = source; host = host } in
        let rows = logged io l (length dir.raw_bin) cs in
        AreSmall rows
        → length dir.raw_bin + length (payloads rows) < 2 ^ 64
        → let s = after io cs (create_with_labels dir sid source host decoder) in
          HasRows s dir.raw_bin dir.index_jsonl rows
  session_files cs dir sid source host decoder small room =
      let (settled, r, i) = create-Keeps io dir sid source host decoder in
      after_lem cs (create_with_labels dir sid source host decoder)
        (record { sid = sid; source = source; host = host }) (length dir.raw_bin) dir.raw_bin
        dir.index_jsonl
        (record {
          settled = settled;
          labelled = unfold create_with_labels in refl;
          raw_is = r;
          index_is = i;
          off_is = refl;
        })
        small room
