-- ===== src/Log/Sinks.antt =====
-- crates/core/src/logsink/fanout.rs: a log sink that forwards every call to several.
pub mod Forward
use tracemux.Prelude.{ℕ, List, [], ◌∷◌, Bool, length, ◌==◌}
use tracemux.Error.{Result, ok, err}

-- `LogSink`, crates/core/src/logsink/mod.rs, for sinks with the state `S`; a call returns the state
-- that it leaves, also when it fails.
pub record LogSink (S Stamp Direction Record : Type 0) : Type 0 where
  pub append_raw : Stamp → Direction → List ℕ → S → Result (Unit {0}) × S
  pub append_record : Stamp → Record → S → Result (Unit {0}) × S
  pub commit : S → Result (Unit {0}) × S
  pub close : S → Result (Unit {0}) × S

module _ {S : Type 0} where
  -- One sink was called; the rest is, unless it failed.
  abbrev pub go_on :
      Result (Unit {0}) × S → List S → Result (Unit {0}) × List S → Result (Unit {0}) × List S
  go_on (ok _, s) ss (r, ts) = (r, s ∷ ts)
  go_on (err e, s) ss rest = (err e, s ∷ ss)

  -- `for s in &mut self.inner { s.call().await?; }`
  unfoldable pub forward : (S → Result (Unit {0}) × S) → List S → Result (Unit {0}) × List S
  forward call [] = (ok tt, [])
  forward call (s ∷ ss) = go_on (call s) ss (forward call ss)

-- `FanoutLogSink`
unfoldable pub fanout_log_sink :
    {S Stamp Direction Record : Type 0}
    → LogSink S Stamp Direction Record
    → LogSink (List S) Stamp Direction Record
unfolding forward
fanout_log_sink sink = record {
  append_raw = λ ts dir payload. forward (sink.append_raw ts dir payload);
  append_record = λ ts r. forward (sink.append_record ts r);
  commit = forward sink.commit;
  close = forward sink.close;
}
