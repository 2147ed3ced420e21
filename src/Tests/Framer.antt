-- ===== src/Tests/Framer.antt =====
-- The framers and the runner, at concrete bytes.
use tracemux.Prelude.{ℕ, ◌+◌, ◌≡◌, ◌≢◌, refl, List, [], ◌∷◌, ◌++◌, Option, some, true, arith}
use tracemux.Prelude.Bytes.{from_be_bytes, from_be_bytes_acc}
use tracemux.Error.{Result, ok}
use tracemux.Framer.Line.{
  lf, crlf, auto, poll_frame, eol_position, position, trim, ends_line, trims_crlf,
}
use tracemux.Framer.Line.Cut.{IsLine, Ends, by_crlf, poll_frame-line}
use tracemux.Framer.Line.Complete.{poll_frame_sound}
use tracemux.Framer.LengthPrefixed.{
  LengthPrefixedFramer, HeaderWidth, u16, Endian, big, read_len, bytes,
}
use tracemux.Framer.LengthPrefixed
use tracemux.Framer.LengthPrefixed.Frames.{encode_frame, poll_frame-encode_frame}
use tracemux.Framer.Streaming.{StreamingFramer, line_framer}
use tracemux.Server.Runner.{
  Pipe, Run, receive_all, receive, drain, poll_loop, on_poll, on_frame, on_record,
}
use tracemux.Server.Runner.Chunks.{receive_all-chunks}

poll_frame-line_example :
    poll_frame crlf 64 ((104 ∷ 105 ∷ []) ++ ((13 ∷ 10 ∷ []) ++ (1 ∷ [])))
    ≡ (ok (some (104 ∷ 105 ∷ [])), 1 ∷ [])
poll_frame-line_example =
    poll_frame-line crlf 64 (104 ∷ 105 ∷ []) (13 ∷ 10 ∷ []) (1 ∷ []) (refl, (refl, tt)) by_crlf

poll_lf : poll_frame lf 64 (104 ∷ 10 ∷ 1 ∷ []) ≡ (ok (some (104 ∷ [])), 1 ∷ [])
unfolding poll_frame eol_position position trim ends_line trims_crlf
poll_lf = refl

poll_frame_sound_example :
    (term : List ℕ) × IsLine lf (104 ∷ [])
    × Ends (1 ∷ []) lf term
    × ((104 ∷ 10 ∷ 1 ∷ []) ≡ (104 ∷ []) ++ (term ++ (1 ∷ [])))
poll_frame_sound_example = poll_frame_sound lf 64 (104 ∷ 10 ∷ 1 ∷ []) (104 ∷ []) (1 ∷ []) poll_lf

abbrev prefixed : LengthPrefixedFramer
prefixed = record { width = u16; endian = big; include_header = true; max_frame = 8 }

prefixed_width : bytes u16 ≡ 2
unfolding bytes
prefixed_width = refl

poll_frame-encode_frame_example :
    LengthPrefixed.poll_frame prefixed (encode_frame prefixed (1 ∷ 2 ∷ 3 ∷ []) ++ (9 ∷ []))
    ≡ (ok (some (1 ∷ 2 ∷ 3 ∷ [])), 9 ∷ [])
poll_frame-encode_frame_example =
    poll_frame-encode_frame prefixed (1 ∷ 2 ∷ 3 ∷ []) (9 ∷ []) (rw prefixed_width (omega arith))
      (omega arith) (omega arith)

poll_prefixed :
    LengthPrefixed.poll_frame prefixed (0 ∷ 3 ∷ 7 ∷ 1 ∷ []) ≡ (ok (some (7 ∷ [])), 1 ∷ [])
unfolding LengthPrefixed.poll_frame read_len from_be_bytes from_be_bytes_acc
poll_prefixed = refl

-- A decoder that counts its frames and makes a record of every frame, and an encoder of the wire.
abbrev numbered : ℕ → List ℕ → Result (Option (ℕ × List ℕ) × ℕ)
numbered n frame = ok (some (n, frame), n + 1)

abbrev wire : ℕ → List ℕ → Result (List ℕ)
wire n raw = ok (n ∷ raw)

lf_not_auto : lf ≢ auto
lf_not_auto e = ground arith

abbrev lines : StreamingFramer
lines = line_framer lf 64 lf_not_auto

abbrev started : Run ℕ (ℕ × List ℕ)
started = record {
  pipe = record { buf = []; decoder = 0; framed = 0; decoded_records = 0; records = [] };
  raw_frames = 0;
  raws = [];
  wires = [];
}

abbrev records_of : Pipe ℕ (ℕ × List ℕ)
records_of = record {
  buf = 3 ∷ [];
  decoder = 2;
  framed = 2;
  decoded_records = 2;
  records = (1, 2 ∷ []) ∷ (0, 1 ∷ []) ∷ [];
}

abbrev by_three : Run ℕ (ℕ × List ℕ)
by_three = record {
  pipe = records_of;
  raw_frames = 2;
  raws = (2 ∷ 10 ∷ 3 ∷ []) ∷ (1 ∷ 10 ∷ []) ∷ [];
  wires = (2 ∷ 2 ∷ 10 ∷ 3 ∷ []) ∷ (1 ∷ 1 ∷ 10 ∷ []) ∷ [];
}

abbrev at_once : Run ℕ (ℕ × List ℕ)
at_once = record {
  pipe = records_of;
  raw_frames = 1;
  raws = (1 ∷ 10 ∷ 2 ∷ 10 ∷ 3 ∷ []) ∷ [];
  wires = (1 ∷ 1 ∷ 10 ∷ 2 ∷ 10 ∷ 3 ∷ []) ∷ [];
}

runs_by_three :
    receive_all lines numbered wire started ((1 ∷ 10 ∷ []) ∷ (2 ∷ 10 ∷ 3 ∷ []) ∷ []) ≡ ok by_three
unfolding receive_all receive drain poll_loop on_poll on_frame on_record poll_frame eol_position
    position trim ends_line trims_crlf
runs_by_three = refl

runs_at_once :
    receive_all lines numbered wire started ((1 ∷ 10 ∷ 2 ∷ 10 ∷ 3 ∷ []) ∷ []) ≡ ok at_once
unfolding receive_all receive drain poll_loop on_poll on_frame on_record poll_frame eol_position
    position trim ends_line trims_crlf
runs_at_once = refl

receive_all-chunks_example : by_three.pipe ≡ at_once.pipe
receive_all-chunks_example =
    receive_all-chunks lines numbered wire started by_three at_once (1 ∷ 10 ∷ [])
      (1 ∷ 10 ∷ 2 ∷ 10 ∷ 3 ∷ []) ((2 ∷ 10 ∷ 3 ∷ []) ∷ []) [] refl runs_by_three runs_at_once
