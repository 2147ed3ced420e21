-- ===== src/Log/Session/Rows.antt =====
-- What may be done with the sink of file.rs, and what the files of a session's directory then contain,
-- row by row.
pub mod Kept
pub mod Files
pub mod Stored
use tracemux.Prelude.{ℕ, ◌+◌, ◌^◌, ◌<◌, ◌≡◌, List, [], ◌∷◌, ◌++◌, Option, length, All}
use tracemux.Log.Index
use tracemux.Log.Index.{Dir, DualTimestamp, IndexEntry, from_envelope}
use tracemux.Log.Lines.{Record}
use tracemux.Log.Session.{
  FileLogSink, on_disk, create_with_labels, Crates, append_raw, append_record, commit, close,
}

-- What may be done with a sink; it may be dropped, which flushes it, and created again on the same
-- directory.
pub data Call (V : Type 0) : Type 0 where
  raws : DualTimestamp → Dir → List ℕ → Call V
  records : DualTimestamp → Record V → Call V
  commits closes : Call V
  reopens : ℕ → Option (List ℕ) → Option (List ℕ) → List ℕ → Call V

-- What a sink puts into every row.
pub record Labels : Type 0 where
  pub sid : ℕ
  pub source : Option (List ℕ)
  pub host : Option (List ℕ)

abbrev pub labels : FileLogSink → Labels
labels s = record { sid = s.sid; source = s.source; host = s.host }

-- No payload is left in a buffer, and the next offset is the length of the file.
pub record IsSettled (s : FileLogSink) : Type 0 where
  pub raw_flushed : s.raw.buffered ≡ []
  pub index_flushed : s.index.buffered ≡ []
  pub placed : s.raw.pos ≡ length s.raw.disk

abbrev pub payloads : List (IndexEntry × List ℕ) → List ℕ
payloads [] = []
payloads ((e, p) ∷ rs) = p ++ payloads rs

-- Every payload has a length of 32 bits.
abbrev pub AreSmall : List (IndexEntry × List ℕ) → Type 0
AreSmall = All (λ r. length r.1 < 2 ^ 32)

module _ {V : Type 0} (io : Crates V) where
  unfoldable pub perform : Call V → FileLogSink → FileLogSink
  perform (raws ts dir payload) s = (append_raw io ts dir payload s).1
  perform (records ts r) s = (append_record io ts r s).1
  perform commits s = (commit io s).1
  perform closes s = (close io s).1
  perform (reopens sid source host decoder) s =
      create_with_labels (on_disk (commit io s).1) sid source host decoder

  unfoldable pub after : List (Call V) → FileLogSink → FileLogSink
  after [] s = s
  after (c ∷ cs) s = after cs (perform c s)

  -- The rows and payloads that calls log, from an offset on.
  unfoldable pub logged : Labels → ℕ → List (Call V) → List (IndexEntry × List ℕ)
  logged l off [] = []
  logged l off (raws ts dir payload ∷ cs) =
      (
        record (from_envelope io.format_rfc3339_ns ts l.sid dir Index.bytes off (length payload)) {
          source = l.source;
          host = l.host;
        },
        payload,
      )
      ∷ logged l (off + length payload) cs
  logged l off (records ts r ∷ cs) = logged l off cs
  logged l off (commits ∷ cs) = logged l off cs
  logged l off (closes ∷ cs) = logged l off cs
  logged l off (reopens sid source host decoder ∷ cs) =
      logged (record { sid = sid; source = source; host = host }) off cs

  abbrev pub index_text : List (IndexEntry × List ℕ) → List ℕ
  index_text [] = []
  index_text ((e, p) ∷ rs) = io.entry_to_string e ++ (10 ∷ index_text rs)
