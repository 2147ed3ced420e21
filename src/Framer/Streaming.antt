-- ===== src/Framer/Streaming.antt =====
-- What the runner expects of a framer (crates/core/src/framer/mod.rs, `Framer`): a frame takes bytes
-- away, it does not change when more bytes come, and a framer that waits leaves the buffer as it is.
use tracemux.Prelude.{
  ℕ, ◌+◌, ◌^◌, ◌<◌, ◌≡◌, ◌≢◌, List, [], ◌∷◌, ◌++◌, Option, none, some, length, length-drop, arith,
  Option-cases, inl, inr,
}
use tracemux.Error.{Result, ok}
use tracemux.Framer.Line
use tracemux.Framer.Line.{Eol, lf, cr, crlf, auto, eol_position}
use tracemux.Framer.Line.Streaming.{poll_frame-append}
use tracemux.Framer.LengthPrefixed
use tracemux.Framer.LengthPrefixed.{LengthPrefixedFramer}
use tracemux.Framer.LengthPrefixed.Frames.{poll_frame-more}

pub record StreamingFramer : Type 0 where
  pub poll : List ℕ → Result (Option (List ℕ)) × List ℕ
  pub more :
      (xs ys frame rest : List ℕ)
      → poll xs ≡ (ok (some frame), rest)
      → poll (xs ++ ys) ≡ (ok (some frame), rest ++ ys)
  pub shorter :
      (xs frame rest : List ℕ) → poll xs ≡ (ok (some frame), rest) → length rest < length xs
  pub waits : (xs rest : List ℕ) → poll xs ≡ (ok none, rest) → rest ≡ xs

pub line_waits :
    (eol : Eol) (max_frame : ℕ) (xs rest : List ℕ)
    → Line.poll_frame eol max_frame xs ≡ (ok none, rest)
    → rest ≡ xs
unfolding Line.poll_frame
line_waits eol max_frame xs rest h = ground arith

pub line_shorter :
    (eol : Eol) (max_frame : ℕ) (xs frame rest : List ℕ)
    → Line.poll_frame eol max_frame xs ≡ (ok (some frame), rest)
    → length rest < length xs
unfolding Line.poll_frame Line.eol_position Line.position Line.crlf_position Line.auto_eol_position
line_shorter lf max_frame [] frame rest h = ground arith
line_shorter cr max_frame [] frame rest h = ground arith
line_shorter crlf max_frame [] frame rest h = ground arith
line_shorter auto max_frame [] frame rest h = ground arith
line_shorter eol max_frame (b ∷ bs) frame rest h = elim (Option-cases (eol_position eol (b ∷ bs))) [
  | inl e ↦ ground arith
  | inr (i, e) ↦ ground (arith, length-drop (i + 1) (b ∷ bs))
]

pub prefixed_waits :
    (f : LengthPrefixedFramer) (xs rest : List ℕ)
    → LengthPrefixed.poll_frame f xs ≡ (ok none, rest)
    → rest ≡ xs
unfolding LengthPrefixed.poll_frame
prefixed_waits f xs rest h = ground arith

pub prefixed_shorter :
    (f : LengthPrefixedFramer) (xs frame rest : List ℕ)
    → f.max_frame + 8 < 2 ^ 64
    → LengthPrefixed.poll_frame f xs ≡ (ok (some frame), rest)
    → length rest < length xs
prefixed_shorter f xs frame rest room h = (poll_frame-more f xs [] frame rest room h).1

-- The line framer is one for every convention but `auto`, and the length-prefixed framer is one
-- where its limit leaves room for a header within 64 bits.
abbrev pub line_framer : (eol : Eol) → ℕ → eol ≢ auto → StreamingFramer
line_framer eol max_frame ne = record {
  poll = Line.poll_frame eol max_frame;
  more = λ xs ys frame rest h. poll_frame-append eol max_frame xs ys frame rest ne h;
  shorter = line_shorter eol max_frame;
  waits = line_waits eol max_frame;
}

abbrev pub prefixed_framer : (f : LengthPrefixedFramer) → f.max_frame + 8 < 2 ^ 64 → StreamingFramer
prefixed_framer f room = record {
  poll = LengthPrefixed.poll_frame f;
  more = λ xs ys frame rest h. (poll_frame-more f xs ys frame rest room h).0;
  shorter = λ xs frame rest h. prefixed_shorter f xs frame rest room h;
  waits = prefixed_waits f;
}
