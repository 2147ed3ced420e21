-- ===== src/Framer/Line/Streaming.antt =====
-- The line framer against how the bytes arrive: a frame that is cut stays cut when more bytes come,
-- except by a carriage return at the end of the buffer in the `auto` mode.
use tracemux.Prelude.{
  ℕ, ◌+◌, ◌<◌, ◌≡◌, refl, List, [], ◌∷◌, ◌++◌, some, arith, length, take-append_le, drop-append_le,
  Option-cases, inl, inr, ◌≢◌,
}
use tracemux.Error.{ok}
use tracemux.Framer.Line.{
  Eol, lf, crlf, cr, auto, lf_byte, cr_byte, position, starts_with, crlf_position, eol_position,
  poll_frame,
}
use tracemux.Framer.Line.Cut.{IsLine, auto_cr, auto_lf, auto_crlf, poll_frame-line}

position-append :
    (c : ℕ) (xs ys : List ℕ) (i : ℕ)
    → position c xs ≡ some i
    → (position c (xs ++ ys) ≡ some i) × (i < length xs)
unfolding position
position-append c [] ys i h = cc
position-append c (x ∷ xs) ys i h = elim (Option-cases (position c xs)) [
  | inl e ↦ ground arith
  | inr (j, e) ↦ ground (arith, position-append c xs ys j e)
]

crlf_position-append :
    (xs ys : List ℕ) (i : ℕ)
    → crlf_position xs ≡ some i
    → (crlf_position (xs ++ ys) ≡ some i) × (i < length xs)
unfolding crlf_position
crlf_position-append [] ys i h = cc
crlf_position-append (x ∷ []) ys i h = ground arith
crlf_position-append (x ∷ y ∷ xs) ys i h = elim (Option-cases (crlf_position (y ∷ xs))) [
  | inl e ↦ ground arith
  | inr (j, e) ↦ ground (arith, crlf_position-append (y ∷ xs) ys j e)
]

eol_position-append :
    (eol : Eol) (xs ys : List ℕ) (i : ℕ)
    → eol ≢ auto
    → eol_position eol xs ≡ some i
    → (eol_position eol (xs ++ ys) ≡ some i) × (i < length xs)
unfolding eol_position
eol_position-append lf xs ys i ne h = position-append lf_byte xs ys i h
eol_position-append cr xs ys i ne h = position-append cr_byte xs ys i h
eol_position-append crlf xs ys i ne h = crlf_position-append xs ys i h
eol_position-append auto xs ys i ne h = absurd (ne refl)

-- Outside `auto`, a frame that `poll_frame` finds is the one that it finds when more bytes have
-- arrived behind, and those bytes stay behind what is left.
pub poll_frame-append :
    (eol : Eol) (max_frame : ℕ) (xs ys frame rest : List ℕ)
    → eol ≢ auto
    → poll_frame eol max_frame xs ≡ (ok (some frame), rest)
    → poll_frame eol max_frame (xs ++ ys) ≡ (ok (some frame), rest ++ ys)
unfolding poll_frame
poll_frame-append eol max_frame xs ys frame rest ne h = elim (Option-cases (eol_position eol xs)) [
  | inl e ↦ ground arith
  | inr (i, e) ↦ ground (
    arith,
    eol_position-append eol xs ys i ne e,
    take-append_le (i + 1) xs ys,
    drop-append_le (i + 1) xs ys,
  )
]

-- In `auto`, a line that ends in CR LF, in a buffer that ends between the two bytes, comes out at
-- once, and the line feed with which the next bytes begin as an empty line; when the whole has
-- arrived, the line comes out alone.
pub auto_split_crlf :
    (max_frame : ℕ) (xs rest : List ℕ)
    → IsLine auto xs
    → (poll_frame auto max_frame (xs ++ cr_byte ∷ []) ≡ (ok (some xs), []))
      × (poll_frame auto max_frame (lf_byte ∷ rest) ≡ (ok (some []), rest))
      × (poll_frame auto max_frame (xs ++ cr_byte ∷ lf_byte ∷ rest) ≡ (ok (some xs), rest))
auto_split_crlf max_frame xs rest h = (
  poll_frame-line auto max_frame xs (cr_byte ∷ []) [] h (auto_cr (unfold starts_with in refl)),
  poll_frame-line auto max_frame [] (lf_byte ∷ []) rest tt auto_lf,
  poll_frame-line auto max_frame xs (cr_byte ∷ lf_byte ∷ []) rest h auto_crlf,
)
