-- ===== src/Framer/Line/Complete.antt =====
-- Every answer of the line framer, read back: what it found, or that nothing was there to find.
use tracemux.Prelude.{
  ℕ, ◌≡◌, ◌≢◌, refl, sym, ap, ◌∙◌, subst, List, [], ◌∷◌, ◌++◌, none, some, true, false, ◌&&◌, ◌⊎◌,
  inl, inr, arith, length, ltb, ◌==◌, if◌then◌else◌, All, Bool-cases,
}
use tracemux.Error.{ok, err, framer_overflow}
use tracemux.Framer.Line.{
  Eol, lf, crlf, cr, auto, lf_byte, cr_byte, position, starts_with, auto_eol_position,
  crlf_position, eol_position, poll_frame,
}
use tracemux.Framer.Line.Cut.{
  IsLine, NoCrlf, Ends, by_lf, by_cr, by_crlf, auto_lf, auto_crlf, auto_cr, poll_frame-line,
}

-- A buffer read as a line, a terminator and the rest.
record Split (eol : Eol) (buf : List ℕ) : Type 0 where
  line : List ℕ
  term : List ℕ
  rest : List ℕ
  is_line : IsLine eol line
  ends : Ends rest eol term
  whole : buf ≡ line ++ (term ++ rest)

Split-lf : (buf : List ℕ) → IsLine lf buf ⊎ Split lf buf
Split-lf [] = inl tt
Split-lf (b ∷ bs) = elim (Bool-cases (b == lf_byte)) [
  | inl hit ↦ inr (record {
    line = [];
    term = lf_byte ∷ [];
    rest = bs;
    is_line = tt;
    ends = by_lf;
    whole = ground arith;
  })
  | inr miss ↦ elim (Split-lf bs) [
    | inl l ↦ inl (ground arith, l)
    | inr s ↦ inr (record {
      line = b ∷ s.line;
      term = s.term;
      rest = s.rest;
      is_line = (ground arith, s.is_line);
      ends = s.ends;
      whole = ap (λ r. b ∷ r) s.whole;
    })
  ]
]

Split-cr : (buf : List ℕ) → IsLine cr buf ⊎ Split cr buf
Split-cr [] = inl tt
Split-cr (b ∷ bs) = elim (Bool-cases (b == cr_byte)) [
  | inl hit ↦ inr (record {
    line = [];
    term = cr_byte ∷ [];
    rest = bs;
    is_line = tt;
    ends = by_cr;
    whole = ground arith;
  })
  | inr miss ↦ elim (Split-cr bs) [
    | inl l ↦ inl (ground arith, l)
    | inr s ↦ inr (record {
      line = b ∷ s.line;
      term = s.term;
      rest = s.rest;
      is_line = (ground arith, s.is_line);
      ends = s.ends;
      whole = ap (λ r. b ∷ r) s.whole;
    })
  ]
]

-- A first byte in front of a line that holds no CR LF.
NoCrlf-cons :
    (b : ℕ) (line rest : List ℕ)
    → (b == cr_byte && starts_with lf_byte (line ++ cr_byte ∷ rest)) ≡ false
    → NoCrlf line
    → NoCrlf (b ∷ line)
unfolding starts_with
NoCrlf-cons b [] rest h n = (ground arith, tt)
NoCrlf-cons b (c ∷ line) rest h n = (h, n)

extend_crlf :
    (b c : ℕ) (bs line term rest : List ℕ)
    → (b == cr_byte && c == lf_byte) ≡ false
    → IsLine crlf line
    → Ends rest crlf term
    → c ∷ bs ≡ line ++ (term ++ rest)
    → Split crlf (b ∷ c ∷ bs)
unfolding starts_with
extend_crlf b c bs line term rest miss is_line by_crlf whole = record {
  line = b ∷ line;
  term = cr_byte ∷ lf_byte ∷ [];
  rest = rest;
  is_line =
      NoCrlf-cons b line (lf_byte ∷ rest)
        (ap (λ l. b == cr_byte && starts_with lf_byte l) (sym whole) ∙ miss) is_line;
  ends = by_crlf;
  whole = ap (λ r. b ∷ r) whole;
}

at_lf : (b : ℕ) (bs : List ℕ) → (b == lf_byte) ≡ true → Split auto (b ∷ bs)
at_lf b bs hit = record {
  line = [];
  term = lf_byte ∷ [];
  rest = bs;
  is_line = tt;
  ends = auto_lf;
  whole = ground arith;
}

at_lone_cr :
    (b : ℕ) (bs : List ℕ)
    → (b == cr_byte) ≡ true
    → starts_with lf_byte bs ≡ false
    → Split auto (b ∷ bs)
at_lone_cr b bs hit lone = record {
  line = [];
  term = cr_byte ∷ [];
  rest = bs;
  is_line = tt;
  ends = auto_cr lone;
  whole = ground arith;
}

at_cr : (b : ℕ) (bs : List ℕ) → (b == cr_byte) ≡ true → Split auto (b ∷ bs)
unfolding starts_with
at_cr b [] hit = at_lone_cr b [] hit refl
at_cr b (c ∷ cs) hit = elim (Bool-cases (c == lf_byte)) [
  | inl pair ↦ record {
    line = [];
    term = cr_byte ∷ lf_byte ∷ [];
    rest = cs;
    is_line = tt;
    ends = auto_crlf;
    whole = ground arith;
  }
  | inr lone ↦ at_lone_cr b (c ∷ cs) hit lone
]

Split-crlf : (buf : List ℕ) → IsLine crlf buf ⊎ Split crlf buf
Split-crlf [] = inl tt
Split-crlf (b ∷ []) = inl (unfold starts_with in ground arith, tt)
Split-crlf (b ∷ c ∷ bs) = elim (Bool-cases (b == cr_byte && c == lf_byte)) [
  | inl hit ↦ inr (record {
    line = [];
    term = cr_byte ∷ lf_byte ∷ [];
    rest = bs;
    is_line = tt;
    ends = by_crlf;
    whole = ground arith;
  })
  | inr miss ↦ elim (Split-crlf (c ∷ bs)) [
    | inl l ↦ inl (unfold starts_with in miss, l)
    | inr s ↦ inr (extend_crlf b c bs s.line s.term s.rest miss s.is_line s.ends s.whole)
  ]
]

Split-auto : (buf : List ℕ) → IsLine auto buf ⊎ Split auto buf
Split-auto [] = inl tt
Split-auto (b ∷ bs) = elim (Bool-cases (b == lf_byte)) [
  | inl hit ↦ inr (at_lf b bs hit)
  | inr miss ↦ elim (Bool-cases (b == cr_byte)) [
    | inl hit ↦ inr (at_cr b bs hit)
    | inr other ↦ elim (Split-auto bs) [
      | inl l ↦ inl ((ground arith, ground arith), l)
      | inr s ↦ inr (record {
        line = b ∷ s.line;
        term = s.term;
        rest = s.rest;
        is_line = ((ground arith, ground arith), s.is_line);
        ends = s.ends;
        whole = ap (λ r. b ∷ r) s.whole;
      })
    ]
  ]
]

split : (eol : Eol) (buf : List ℕ) → IsLine eol buf ⊎ Split eol buf
split lf buf = Split-lf buf
split cr buf = Split-cr buf
split crlf buf = Split-crlf buf
split auto buf = Split-auto buf

position-none : (c : ℕ) (xs : List ℕ) → All (λ b. b ≢ c) xs → position c xs ≡ none
unfolding position
position-none c [] h = refl
position-none c (x ∷ xs) h = ground (arith, position-none c xs h.1)

crlf_position-none : (xs : List ℕ) → NoCrlf xs → crlf_position xs ≡ none
unfolding crlf_position
crlf_position-none [] h = refl
crlf_position-none (x ∷ xs) h = ground (arith, crlf_position-none xs h.1)

auto_eol_position-none : (xs : List ℕ) → IsLine auto xs → auto_eol_position xs ≡ none
unfolding auto_eol_position
auto_eol_position-none [] h = refl
auto_eol_position-none (x ∷ xs) h = ground (arith, auto_eol_position-none xs h.1)

eol_position-none : (eol : Eol) (xs : List ℕ) → IsLine eol xs → eol_position eol xs ≡ none
unfolding eol_position
eol_position-none lf xs h = position-none lf_byte xs h
eol_position-none cr xs h = position-none cr_byte xs h
eol_position-none crlf xs h = crlf_position-none xs h
eol_position-none auto xs h = auto_eol_position-none xs h

-- From bytes with no terminator `poll_frame` takes nothing: it waits for more, and reports an
-- overflow when they are more than the limit.
pub poll_frame-no_line :
    (eol : Eol) (max_frame : ℕ) (buf : List ℕ)
    → IsLine eol buf
    → poll_frame eol max_frame buf
      ≡ ((if ltb max_frame (length buf) then err framer_overflow else ok none), buf)
unfolding poll_frame
poll_frame-no_line eol max_frame buf h = rw (eol_position-none eol buf h, poll_frame)

-- A frame that `poll_frame` yields is the first line of the buffer: the buffer is that line, a
-- terminator of the mode, and what is left.
pub poll_frame_sound :
    (eol : Eol) (max_frame : ℕ) (buf frame rest : List ℕ)
    → poll_frame eol max_frame buf ≡ (ok (some frame), rest)
    → (term : List ℕ) × IsLine eol frame × Ends rest eol term × (buf ≡ frame ++ (term ++ rest))
poll_frame_sound eol max_frame buf frame rest h = elim (split eol buf) [
  | inl l ↦ absurd (ground (arith, poll_frame-no_line eol max_frame buf l))
  | inr s ↦
      let found =
        ap (poll_frame eol max_frame) s.whole
        ∙ poll_frame-line eol max_frame s.line s.term s.rest s.is_line s.ends in
      let same_line : s.line ≡ frame = cc (found, h) in
      let same_rest : s.rest ≡ rest = cc (found, h) in
      (
        s.term,
        subst (IsLine eol) same_line s.is_line,
        subst (λ r. Ends r eol s.term) same_rest s.ends,
        s.whole ∙ cc (same_line, same_rest),
      )
]
