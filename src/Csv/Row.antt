-- ===== src/Csv/Row.antt =====
-- Rows of quoted fields are read back whole.
use tracemux.Prelude.{
  ℕ, ◌≡◌, ◌∙◌, refl, List, [], ◌∷◌, ◌++◌, append-nil, append_assoc, true, false, arith, Bool-cases,
  inl, inr,
}
use tracemux.Csv.{
  dquote, comma, needs_quotes, doubled, quote, peeks_dquote, is_empty, step, parse_loop, parse_row,
}

-- A row: the fields as `quote` writes them, with commas between them.
abbrev pub row : List ℕ → List (List ℕ) → List ℕ
row f [] = quote f
row f (g ∷ fs) = quote f ++ (comma ∷ row g fs)

plain :
    (s rest cur : List ℕ) (out : List (List ℕ))
    → needs_quotes s ≡ false
    → parse_loop (s ++ rest) false false cur out ≡ parse_loop rest false false (cur ++ s) out
unfolding needs_quotes parse_loop step
plain [] rest cur out h = rw (append-nil cur) refl
plain (c ∷ s) rest cur out h =
    ground (arith, plain s rest (cur ++ (c ∷ [])) out, append_assoc cur (c ∷ []) s)

quoted :
    (s rest cur : List ℕ) (out : List (List ℕ))
    → peeks_dquote rest ≡ false
    → parse_loop (doubled s ++ (dquote ∷ rest)) false true cur out
      ≡ parse_loop rest false false (cur ++ s) out
unfolding doubled parse_loop step peeks_dquote
quoted [] rest cur out h = ground (arith, append-nil cur)
quoted (c ∷ s) rest cur out h =
    ground (arith, quoted s rest (cur ++ (c ∷ [])) out h, append_assoc cur (c ∷ []) s)

opened :
    (f rest : List ℕ) (out : List (List ℕ))
    → peeks_dquote rest ≡ false
    → parse_loop (dquote ∷ (doubled f ++ (dquote ∷ rest))) false false [] out
      ≡ parse_loop rest false false f out
unfolding parse_loop step is_empty
opened f rest out h = quoted f rest [] out h

-- A quoted field is read whole, whatever is in it, where no quotation mark follows.
field :
    (f rest : List ℕ) (out : List (List ℕ))
    → peeks_dquote rest ≡ false
    → parse_loop (quote f ++ rest) false false [] out ≡ parse_loop rest false false f out
unfolding quote
field f rest out h = elim (Bool-cases (needs_quotes f)) [
  | inl q ↦ rw q (rw (append_assoc (doubled f) (dquote ∷ []) rest) (opened f rest out h))
  | inr q ↦ rw q (plain f rest [] out q)
]

rows :
    (f : List ℕ) (fs out : List (List ℕ))
    → parse_loop (row f fs) false false [] out ≡ out ++ (f ∷ fs)
unfolding parse_loop
rows f [] out = rw⁻¹ (append-nil (quote f)) (field f [] out refl)
rows f (g ∷ fs) out =
    field f (comma ∷ row g fs) out refl
    ∙ rows g fs (out ++ (f ∷ []))
    ∙ append_assoc out (f ∷ []) (g ∷ fs)

-- `parse_row` reads a row of any fields, written by `quote` with commas between them, as these
-- fields, whatever characters they have.
pub parse_row-row : (f : List ℕ) (fs : List (List ℕ)) → parse_row (row f fs) ≡ f ∷ fs
unfolding parse_row
parse_row-row f fs = rows f fs []
