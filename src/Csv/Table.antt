-- ===== src/Csv/Table.antt =====
-- Tables that the exporter of csv.rs writes, as the importer reads them: line by line, field by field.
pub mod Shown
pub mod Transfer
use tracemux.Prelude.{
  ℕ, suc, zero, ◌+◌, ◌/◌, ◌%◌, ◌≡◌, ◌≢◌, refl, sym, ap, ap₂, ◌∙◌, List, [], ◌∷◌, ◌++◌, true, false,
  All, All-append, append_assoc, arith, Bool-cases, inl, inr, subst,
}
use tracemux.Prelude.Ints.{ℤ}
use tracemux.Prelude.Text.{is_empty}
use tracemux.Export.Names.{decimal}
use tracemux.Exporter.Rows.{onto_first}
use tracemux.Log.Session.{Crates}
use tracemux.Csv.{comma, dquote, needs_quotes, doubled, quote, join, parse_row, Columns}
use tracemux.Csv.Row.{row, parse_row-row}
use tracemux.Csv.Import.{read_lines, trim_eol, Writers, emit_row, emit_line_of, import_loop}
use tracemux.Csv.Import.Emitted.{text_column, emit_rows}

-- Text on one line.
abbrev pub NoEol : List ℕ → Type 0
NoEol = All (λ c. (c ≢ 10) × (c ≢ 13))

-- A field that needs no quotation marks.
abbrev pub IsPlain : List ℕ → Type 0
IsPlain f = needs_quotes f ≡ false

quote_plain : (f : List ℕ) → IsPlain f → quote f ≡ f
unfolding quote
quote_plain f h = rw h refl

IsPlain-NoEol : (f : List ℕ) → IsPlain f → NoEol f
unfolding needs_quotes
IsPlain-NoEol [] h = tt
IsPlain-NoEol (c ∷ f) h = ground (arith, IsPlain-NoEol f)

IsPlain-append : (f g : List ℕ) → IsPlain f → IsPlain g → IsPlain (f ++ g)
unfolding needs_quotes
IsPlain-append [] g h k = k
IsPlain-append (c ∷ f) g h k = ground (arith, IsPlain-append f g)

pub decimal-IsPlain : (fuel n : ℕ) → IsPlain (decimal fuel n)
unfolding decimal needs_quotes
decimal-IsPlain zero n = refl
decimal-IsPlain (suc fuel) n = ground (
  arith,
  decimal-IsPlain fuel (n / 10),
  IsPlain-append (decimal fuel (n / 10)) ((48 + n % 10) ∷ []),
)

doubled-NoEol : (s : List ℕ) → NoEol s → NoEol (doubled s)
unfolding doubled
doubled-NoEol [] h = tt
doubled-NoEol (c ∷ s) h = ground (arith, doubled-NoEol s h.1, h.0)

quote-NoEol : (s : List ℕ) → NoEol s → NoEol (quote s)
unfolding quote
quote-NoEol s h = elim (Bool-cases (needs_quotes s)) [
  | inl q ↦ rw q (
    (omega arith, omega arith),
    All-append (λ c. (c ≢ 10) × (c ≢ 13)) (doubled s) (dquote ∷ []) (doubled-NoEol s h)
        ((omega arith, omega arith), tt),
  )
  | inr q ↦ rw q h
]

pub row-NoEol : (f : List ℕ) (fs : List (List ℕ)) → NoEol f → All NoEol fs → NoEol (row f fs)
row-NoEol f [] h k = quote-NoEol f h
row-NoEol f (g ∷ fs) h k =
    All-append (λ c. (c ≢ 10) × (c ≢ 13)) (quote f) (comma ∷ row g fs) (quote-NoEol f h)
      ((omega arith, omega arith), row-NoEol g fs k.0 k.1)

-- The line of a row: its plain fields, and its text as `quote` writes it.
abbrev pub line : List (List ℕ) → List ℕ → List ℕ
line fs t = join (fs ++ (quote t ∷ []))

pub line-row :
    (f : List ℕ) (fs : List (List ℕ)) (t : List ℕ)
    → IsPlain f
    → All IsPlain fs
    → line (f ∷ fs) t ≡ row f (fs ++ (t ∷ []))
unfolding join
line-row f [] t h k = ap (λ g. g ++ (comma ∷ quote t)) (sym (quote_plain f h))
line-row f (g ∷ fs) t h k =
    ap₂ (λ a b. a ++ (comma ∷ b)) (sym (quote_plain f h)) (line-row g fs t k.0 k.1)

pub read_lines-append :
    (l rest : List ℕ) → NoEol l → read_lines (l ++ (10 ∷ rest)) ≡ (l ++ (10 ∷ [])) ∷ read_lines rest
unfolding read_lines
read_lines-append [] rest h = refl
read_lines-append (c ∷ l) rest h = ground (arith, read_lines-append l rest h.1, h.0.0)

pub trim_eol-append : (l : List ℕ) → NoEol l → trim_eol (l ++ (10 ∷ [])) ≡ l
unfolding trim_eol is_empty
trim_eol-append [] h = refl
trim_eol-append (c ∷ l) h = ground (arith, trim_eol-append l h.1, h.0.0, h.0.1)
