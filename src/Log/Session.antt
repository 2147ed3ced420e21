-- ===== src/Log/Session.antt =====
-- crates/core/src/logsink/file.rs: the sink that writes a session's directory. The files are the bytes
-- on disk; meta.toml is left out. The file system does not fail.
pub mod Rows
use tracemux.Prelude.{ℕ, List, [], ◌∷◌, ◌++◌, Option, none, some, Bool, true, false}
use tracemux.Prelude.Ints.{ℤ}
use tracemux.Error.{Result, ok}
use tracemux.Log.Raw
use tracemux.Log.Raw.{RawWriter}
use tracemux.Log.BufWriter
use tracemux.Log.BufWriter.{BufWriter}
use tracemux.Log.Index
use tracemux.Log.Index.{Dir, DualTimestamp, IndexEntry, from_envelope}
use tracemux.Log.Lines.{Level, Record, LineEntry, FrameEntry, append_line, append_frame}
use tracemux.Log.Sinks.{LogSink}

-- The files of a session's directory.
pub record SessionDir : Type 0 where
  pub raw_bin : List ℕ
  pub index_jsonl : List ℕ
  pub lines_jsonl : List ℕ
  pub frames_jsonl : List ℕ

-- `FileLogSink`; the path of the directory is left out
pub record FileLogSink : Type 0 where
  pub sid : ℕ
  pub source : Option (List ℕ)
  pub host : Option (List ℕ)
  pub decoder : List ℕ
  pub raw : RawWriter
  pub index : BufWriter
  pub lines : BufWriter
  pub frames : BufWriter
  pub closed : Bool

-- What is on disk.
unfoldable pub on_disk : FileLogSink → SessionDir
on_disk s = record {
  raw_bin = s.raw.disk;
  index_jsonl = s.index.disk;
  lines_jsonl = s.lines.disk;
  frames_jsonl = s.frames.disk;
}

-- `FileLogSink::create_with_labels`, on the files that are there
unfoldable pub create_with_labels :
    SessionDir → ℕ → Option (List ℕ) → Option (List ℕ) → List ℕ → FileLogSink
create_with_labels dir sid source host decoder = record {
  sid = sid;
  source = source;
  host = host;
  decoder = decoder;
  raw = Raw.create dir.raw_bin;
  index = BufWriter.new dir.index_jsonl;
  lines = BufWriter.new dir.lines_jsonl;
  frames = BufWriter.new dir.frames_jsonl;
  closed = false;
}

-- `level_token`
unfoldable pub level_token : Level → List ℕ
level_token Level.trace = 116 ∷ 114 ∷ 97 ∷ 99 ∷ 101 ∷ []
level_token Level.debug = 100 ∷ 101 ∷ 98 ∷ 117 ∷ 103 ∷ []
level_token Level.info = 105 ∷ 110 ∷ 102 ∷ 111 ∷ []
level_token Level.warn = 119 ∷ 97 ∷ 114 ∷ 110 ∷ []
level_token Level.error = 101 ∷ 114 ∷ 114 ∷ 111 ∷ 114 ∷ []
level_token Level.fatal = 102 ∷ 97 ∷ 116 ∷ 97 ∷ 108 ∷ []

-- What the sink calls of other crates: the printing of instants and of the three kinds of rows, and how
-- many bytes a `BufWriter` passes on.
pub record Crates (V : Type 0) : Type 0 where
  pub format_rfc3339_ns : ℤ → List ℕ
  pub entry_to_string : IndexEntry → List ℕ
  pub line_to_string : LineEntry → List ℕ
  pub frame_to_string : FrameEntry V → List ℕ
  pub spill : List ℕ → ℕ

module _ {V : Type 0} (io : Crates V) where
  -- The row of a chunk.
  unfoldable pub row : FileLogSink → DualTimestamp → Dir → ℕ × ℕ → IndexEntry
  row s ts dir (off, len) =
      record (from_envelope io.format_rfc3339_ns ts s.sid dir Index.bytes off len) {
        source = s.source;
        host = s.host;
      }

  -- `append_raw`
  unfoldable pub append_raw :
      DualTimestamp → Dir → List ℕ → FileLogSink → Result (Unit {0}) × FileLogSink
  append_raw ts dir payload s =
      let (at, raw) = Raw.append (io.spill (s.raw.buffered ++ payload)) payload s.raw in
      let index = Index.append io.entry_to_string io.spill (row s ts dir at) s.index in
      (ok tt, record s { raw = Raw.flush raw; index = BufWriter.flush index })

  -- `record.level.map(level_token)`
  unfoldable pub token : Option Level → Option (List ℕ)
  token none = none
  token (some l) = some (level_token l)

  -- The lines file, if the record has a text.
  unfoldable pub append_text : DualTimestamp → Record V → Option (List ℕ) → BufWriter → BufWriter
  append_text ts r none w = w
  append_text ts r (some text) w = BufWriter.flush (
      append_line io.line_to_string io.spill
        (record {
          ts = io.format_rfc3339_ns ts.ts_ingest_ns;
          level = token r.level;
          text = text;
          correlation_id = r.correlation_id;
          tags = r.tags;
        })
        w)

  -- `append_record`
  unfoldable pub append_record :
      DualTimestamp → Record V → FileLogSink → Result (Unit {0}) × FileLogSink
  append_record ts r s = (
    ok tt,
    record s {
      lines = append_text ts r r.text s.lines;
      frames = BufWriter.flush (
          append_frame io.frame_to_string io.spill
            (record { ts = io.format_rfc3339_ns ts.ts_ingest_ns; decoder = s.decoder; body = r })
            s.frames);
    },
  )

  -- `commit`
  unfoldable pub commit : FileLogSink → Result (Unit {0}) × FileLogSink
  commit s = (
    ok tt,
    record s {
      raw = Raw.flush s.raw;
      index = BufWriter.flush s.index;
      lines = BufWriter.flush s.lines;
      frames = BufWriter.flush s.frames;
    },
  )

  -- `close`
  abbrev pub close_if : Bool → FileLogSink → Result (Unit {0}) × FileLogSink
  close_if true s = (ok tt, s)
  close_if false s = (ok tt, record (commit s).1 { closed = true })

  unfoldable pub close : FileLogSink → Result (Unit {0}) × FileLogSink
  close s = close_if s.closed s

  -- The sink behind the interface of the log sinks.
  unfoldable pub file_log_sink : LogSink FileLogSink DualTimestamp Dir (Record V)
  unfolding append_raw append_record commit close
  file_log_sink = record {
    append_raw = append_raw;
    append_record = append_record;
    commit = commit;
    close = close;
  }
