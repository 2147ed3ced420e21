-- ===== src/Framer/Line/Cut.antt =====
-- Where the line framer cuts: at the first terminator, and nowhere else.
use tracemux.Prelude.{
  ℕ, suc, ◌+◌, ◌-◌, ◌≤◌, ◌<◌, ◌≡◌, ◌≢◌, refl, ap, ◌∙◌, List, [], ◌∷◌, ◌++◌, some, false, ◌&&◌, ◌||◌,
  arith, length, drop, leb, ◌==◌, length-append, take-append, drop-append, All, append_assoc,
}
use tracemux.Prelude.Bytes.{bytes_eq}
use tracemux.Error.{ok}
use tracemux.Framer.Line.{
  Eol, lf, crlf, cr, auto, lf_byte, cr_byte, position, starts_with, auto_eol_position,
  crlf_position, eol_position, ends_line, trim, poll_frame,
}

-- No carriage return is followed by a line feed.
abbrev pub NoCrlf : List ℕ → Type 0
NoCrlf [] = Unit
NoCrlf (b ∷ bs) = ((b == cr_byte && starts_with lf_byte bs) ≡ false) × NoCrlf bs

-- The text of a line: no terminator inside.
abbrev pub IsLine : Eol → List ℕ → Type 0
IsLine lf xs = All (λ b. b ≢ lf_byte) xs
IsLine cr xs = All (λ b. b ≢ cr_byte) xs
IsLine crlf xs = NoCrlf xs
IsLine auto xs = All (λ b. (b ≢ lf_byte) × (b ≢ cr_byte)) xs

-- The terminators of each mode, in front of what follows: a lone carriage return ends a line in
-- `auto` where no line feed follows.
pub data Ends (rest : List ℕ) : Eol → List ℕ → Type 0 where
  by_lf : Ends rest lf (lf_byte ∷ [])
  by_cr : Ends rest cr (cr_byte ∷ [])
  by_crlf : Ends rest crlf (cr_byte ∷ lf_byte ∷ [])
  auto_lf : Ends rest auto (lf_byte ∷ [])
  auto_crlf : Ends rest auto (cr_byte ∷ lf_byte ∷ [])
  auto_cr : starts_with lf_byte rest ≡ false → Ends rest auto (cr_byte ∷ [])

position-line :
    (c : ℕ) (xs rest : List ℕ)
    → All (λ b. b ≢ c) xs
    → position c (xs ++ c ∷ rest) ≡ some (length xs)
unfolding position
position-line c [] rest h = ground arith
position-line c (x ∷ xs) rest h = ground (arith, position-line c xs rest h.1)

crlf_position-line :
    (xs rest : List ℕ)
    → NoCrlf xs
    → crlf_position (xs ++ cr_byte ∷ lf_byte ∷ rest) ≡ some (suc (length xs))
unfolding crlf_position
crlf_position-line [] rest h = refl
crlf_position-line (x ∷ []) rest h = ground arith
crlf_position-line (x ∷ y ∷ xs) rest h = ground (arith, crlf_position-line (y ∷ xs) rest h.1)

auto_eol_position-line :
    (xs term rest : List ℕ)
    → IsLine auto xs
    → Ends rest auto term
    → auto_eol_position (xs ++ (term ++ rest)) ≡ some (length xs + (length term - 1))
unfolding auto_eol_position
auto_eol_position-line [] term rest h auto_lf = refl
auto_eol_position-line [] term rest h auto_crlf = refl
auto_eol_position-line [] term rest h (auto_cr e) = ground arith
auto_eol_position-line (x ∷ xs) term rest h t =
    ground (arith, auto_eol_position-line xs term rest h.1 t)

eol_position-line :
    (eol : Eol) (xs term rest : List ℕ)
    → IsLine eol xs
    → Ends rest eol term
    → eol_position eol (xs ++ (term ++ rest)) ≡ some (length xs + (length term - 1))
unfolding eol_position
eol_position-line lf xs term rest h by_lf =
    position-line lf_byte xs rest h ∙ ap (λ n. some n) (omega arith)
eol_position-line cr xs term rest h by_cr =
    position-line cr_byte xs rest h ∙ ap (λ n. some n) (omega arith)
eol_position-line crlf xs term rest h by_crlf =
    crlf_position-line xs rest h ∙ ap (λ n. some n) (omega arith)
eol_position-line auto xs term rest h t = auto_eol_position-line xs term rest h t

ends_line-snoc : (xs : List ℕ) (c : ℕ) → ends_line (xs ++ c ∷ []) ≡ (c == lf_byte || c == cr_byte)
unfolding ends_line
ends_line-snoc [] c = refl
ends_line-snoc (x ∷ []) c = refl
ends_line-snoc (x ∷ y ∷ xs) c = ends_line-snoc (y ∷ xs) c

-- No carriage return stands before the last byte, so the frame does not end in CR LF.
not_crlf_end :
    (xs : List ℕ) (c : ℕ)
    → All (λ b. (b ≢ lf_byte) × (b ≢ cr_byte)) xs
    → (leb 2 (length (xs ++ c ∷ []))
        && bytes_eq (drop (length (xs ++ c ∷ []) - 2) (xs ++ c ∷ [])) (cr_byte ∷ lf_byte ∷ []))
      ≡ false
unfolding bytes_eq
not_crlf_end [] c h = refl
not_crlf_end (x ∷ []) c h = ground arith
not_crlf_end (x ∷ y ∷ xs) c h =
    let l = y ∷ (xs ++ c ∷ []) in
    let one : 2 ≤ length l = omega (arith, length-append xs (c ∷ [])) in
    let shift : suc (length l) - 2 ≡ suc (length l - 2) = omega arith in
    rw shift (ground (arith, not_crlf_end (y ∷ xs) c h.1))

trim-line :
    (eol : Eol) (xs term rest : List ℕ)
    → IsLine eol xs
    → Ends rest eol term
    → trim eol (xs ++ term) ≡ xs
unfolding trim
trim-line eol xs term rest h by_lf = ground (
  arith,
  ends_line-snoc xs lf_byte,
  length-append xs (lf_byte ∷ []),
  take-append (length xs) xs (lf_byte ∷ []),
)
trim-line eol xs term rest h by_cr = ground (
  arith,
  ends_line-snoc xs cr_byte,
  length-append xs (cr_byte ∷ []),
  take-append (length xs) xs (cr_byte ∷ []),
)
trim-line eol xs term rest h by_crlf = ground (
  arith,
  length-append xs (cr_byte ∷ lf_byte ∷ []),
  take-append (length xs) xs (cr_byte ∷ lf_byte ∷ []),
  drop-append (length xs) xs (cr_byte ∷ lf_byte ∷ []),
)
trim-line eol xs term rest h auto_lf = ground (
  arith,
  not_crlf_end xs lf_byte h,
  ends_line-snoc xs lf_byte,
  length-append xs (lf_byte ∷ []),
  take-append (length xs) xs (lf_byte ∷ []),
)
trim-line eol xs term rest h auto_crlf = ground (
  arith,
  length-append xs (cr_byte ∷ lf_byte ∷ []),
  take-append (length xs) xs (cr_byte ∷ lf_byte ∷ []),
  drop-append (length xs) xs (cr_byte ∷ lf_byte ∷ []),
)
trim-line eol xs term rest h (auto_cr e) = ground (
  arith,
  not_crlf_end xs cr_byte h,
  ends_line-snoc xs cr_byte,
  length-append xs (cr_byte ∷ []),
  take-append (length xs) xs (cr_byte ∷ []),
)

Ends-nonempty : {rest term : List ℕ} {eol : Eol} → Ends rest eol term → 0 < length term
Ends-nonempty by_lf = omega arith
Ends-nonempty by_cr = omega arith
Ends-nonempty by_crlf = omega arith
Ends-nonempty auto_lf = omega arith
Ends-nonempty auto_crlf = omega arith
Ends-nonempty (auto_cr e) = omega arith

-- From a line, its terminator and more bytes, `poll_frame` yields exactly the line and leaves
-- exactly the bytes behind the terminator, whatever the limit is: it is tested only where no line ends,
-- so that a longer line is yielded too.
pub poll_frame-line :
    (eol : Eol) (max_frame : ℕ) (xs term rest : List ℕ)
    → IsLine eol xs
    → Ends rest eol term
    → poll_frame eol max_frame (xs ++ (term ++ rest)) ≡ (ok (some xs), rest)
unfolding poll_frame
poll_frame-line eol max_frame xs term rest h t = ground (
  arith,
  eol_position-line eol xs term rest h t,
  trim-line eol xs term rest h t,
  Ends-nonempty t,
  length-append xs term,
  append_assoc xs term rest,
  take-append (length xs + length term) (xs ++ term) rest,
  drop-append (length xs + length term) (xs ++ term) rest,
)
