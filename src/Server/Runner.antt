-- ===== src/Server/Runner.antt =====
-- crates/server/src/runner.rs: `run_source_once_notify`, from the bytes of a source to the records of
-- a log sink. The framer is a `StreamingFramer`; the decoder, with its state, is a parameter, and so
-- is the encoder of the wire. A sink that fails ends the run; the model follows the runs in which it
-- does not. Timestamps are left out.
pub mod Chunks
use tracemux.Prelude.{ℕ, zero, suc, ◌+◌, ◌%◌, ◌^◌, List, [], ◌∷◌, ◌++◌, Option, none, some, length}
use tracemux.Error.{Result, ok, err, ◌>>=◌}
use tracemux.Framer.Streaming.{StreamingFramer}

module _ (State Record : Type 0) where
  -- What the inner loop works on: the buffer, the decoder, `framed` and `decoded_records` of the
  -- statistics, and the records appended to the sink, the last of them first.
  pub record Pipe : Type 0 where
    pub buf : List ℕ
    pub decoder : State
    pub framed : ℕ
    pub decoded_records : ℕ
    pub records : List Record

  -- The run: also `raw_frames`, the raw frames appended to the sink and the wire frames published,
  -- the last of them first.
  pub record Run : Type 0 where
    pub pipe : Pipe
    pub raw_frames : ℕ
    pub raws : List (List ℕ)
    pub wires : List (List ℕ)

module _ {State Record : Type 0} (framer : StreamingFramer)
    (decode : State → List ℕ → Result (Option Record × State)) where
  -- A frame is counted and decoded, and its record, if it has one, is appended and counted.
  unfoldable pub on_record : Pipe State Record → Option Record × State → Pipe State Record
  on_record p (none, d) = record p { decoder = d }
  on_record p (some r, d) = record p {
    decoder = d;
    decoded_records = (p.decoded_records + 1) % 2 ^ 64;
    records = r ∷ p.records;
  }

  unfoldable pub on_frame : Pipe State Record → List ℕ → List ℕ → Result (Pipe State Record)
  unfolding on_record
  on_frame p frame rest = decode p.decoder frame >>= λ out.
      ok (on_record (record p { buf = rest; framed = (p.framed + 1) % 2 ^ 64 }) out)

  -- `while let Some(framed) = framer.poll_frame(&mut buf)?`; the loop goes on with `again`
  unfoldable pub on_poll :
      (Pipe State Record → Result (Pipe State Record))
      → Pipe State Record
      → Result (Option (List ℕ)) × List ℕ
      → Result (Pipe State Record)
  on_poll again p (err e, rest) = err e
  on_poll again p (ok none, rest) = ok (record p { buf = rest })
  on_poll again p (ok (some frame), rest) = on_frame p frame rest >>= again

  unfoldable pub poll_loop : ℕ → Pipe State Record → Result (Pipe State Record)
  poll_loop zero p = ok p
  poll_loop (suc fuel) p = on_poll (poll_loop fuel) p (framer.poll p.buf)

  -- The loop runs at most once for every byte of the buffer, and once more.
  unfoldable pub drain : Pipe State Record → Result (Pipe State Record)
  drain p = poll_loop (length p.buf + 1) p

  module _ (encode_data_envelope : ℕ → List ℕ → Result (List ℕ)) where
    -- The body of the outer loop, on one raw frame.
    unfoldable pub receive : Run State Record → List ℕ → Result (Run State Record)
    receive s raw =
        let n = (s.raw_frames + 1) % 2 ^ 64 in
        encode_data_envelope n raw >>= λ wire.
        drain (record s.pipe { buf = s.pipe.buf ++ raw }) >>= λ pipe.
        ok (record { pipe = pipe; raw_frames = n; raws = raw ∷ s.raws; wires = wire ∷ s.wires })

    -- `while let Some(frame) = source.recv()`
    unfoldable pub receive_all : Run State Record → List (List ℕ) → Result (Run State Record)
    receive_all s [] = ok s
    receive_all s (raw ∷ rest) = receive s raw >>= λ s'. receive_all s' rest
