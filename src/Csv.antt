-- ===== src/Csv.antt =====
-- The CSV dialect: `quote` of crates/core/src/exporter/csv.rs writes a field, `parse_row` of
-- crates/core/src/importer/csv.rs reads a row and `locate_cols` finds the columns in a header. A
-- string is the list of its characters' code points.
pub mod Row
pub mod Export
pub mod Import
pub mod Table
use tracemux.Prelude.{
  ℕ, List, [], ◌∷◌, ◌++◌, Option, none, some, Bool, true, false, ◌||◌, ◌&&◌, not, ◌==◌,
  if◌then◌else◌, ◌+◌, leb, map,
}
use tracemux.Prelude.Bytes.{bytes_eq}

abbrev pub dquote : ℕ
dquote = 34

abbrev pub comma : ℕ
comma = 44

-- `s.contains([',', '"', '\n', '\r'])`
unfoldable pub needs_quotes : List ℕ → Bool
needs_quotes [] = false
needs_quotes (c ∷ cs) = (c == comma || (c == dquote || (c == 10 || c == 13))) || needs_quotes cs

-- The loop of `quote`, which doubles each quotation mark.
unfoldable pub doubled : List ℕ → List ℕ
doubled [] = []
doubled (c ∷ cs) = if c == dquote then dquote ∷ c ∷ doubled cs else c ∷ doubled cs

-- `quote`
unfoldable pub quote : List ℕ → List ℕ
quote s = if not (needs_quotes s) then s else dquote ∷ doubled s ++ (dquote ∷ [])

-- What the loop of `parse_row` does with a character.
pub data Step : Type 0 where
  opens escapes closes splits takes : Step

unfoldable pub is_empty : List ℕ → Bool
is_empty [] = true
is_empty (c ∷ cs) = false

-- `matches!(chars.peek(), Some('"'))`
unfoldable pub peeks_dquote : List ℕ → Bool
peeks_dquote [] = false
peeks_dquote (c ∷ cs) = c == dquote

-- The arms of the `match c`, from the character, what is after it, and the state.
unfoldable pub step : ℕ → List ℕ → Bool → List ℕ → Step
unfolding is_empty peeks_dquote
step c cs in_quoted cur =
    if c == dquote && (not in_quoted && is_empty cur)
    then opens
    else if c == dquote && in_quoted
    then (if peeks_dquote cs then escapes else closes)
    else if c == comma && not in_quoted
    then splits
    else takes

-- The loop of `parse_row`; `skip` says that the character in front was taken by `chars.next()` when
-- the one before it was read.
unfoldable pub parse_loop : List ℕ → Bool → Bool → List ℕ → List (List ℕ) → List (List ℕ)
unfolding step
parse_loop [] skip in_quoted cur out = out ++ (cur ∷ [])
parse_loop (c ∷ cs) true in_quoted cur out = parse_loop cs false in_quoted cur out
parse_loop (c ∷ cs) false in_quoted cur out = elim (step c cs in_quoted cur) [
  | opens ↦ parse_loop cs false true cur out
  | escapes ↦ parse_loop cs true in_quoted (cur ++ (dquote ∷ [])) out
  | closes ↦ parse_loop cs false false cur out
  | splits ↦ parse_loop cs false in_quoted [] (out ++ (cur ∷ []))
  | takes ↦ parse_loop cs false in_quoted (cur ++ (c ∷ [])) out
]

-- `parse_row`
unfoldable pub parse_row : List ℕ → List (List ℕ)
parse_row line = parse_loop line false false [] []

-- `char::to_ascii_lowercase`
unfoldable pub to_ascii_lowercase : ℕ → ℕ
to_ascii_lowercase c = if leb 65 c && leb c 90 then c + 32 else c

-- The columns that `locate_cols` looks for, and any other.
pub data Column : Type 0 where
  ts level text other : Column

-- `match h.to_ascii_lowercase().as_str()`
unfoldable pub column : List ℕ → Column
unfolding bytes_eq to_ascii_lowercase
column h =
    let s = map to_ascii_lowercase h in
    if bytes_eq s (116 ∷ 115 ∷ [])
      || (bytes_eq s (116 ∷ 105 ∷ 109 ∷ 101 ∷ [])
          || bytes_eq s (116 ∷ 105 ∷ 109 ∷ 101 ∷ 115 ∷ 116 ∷ 97 ∷ 109 ∷ 112 ∷ []))
    then ts
    else if bytes_eq s (108 ∷ 101 ∷ 118 ∷ 101 ∷ 108 ∷ [])
        || bytes_eq s (115 ∷ 101 ∷ 118 ∷ 101 ∷ 114 ∷ 105 ∷ 116 ∷ 121 ∷ [])
    then level
    else if (bytes_eq s (116 ∷ 101 ∷ 120 ∷ 116 ∷ [])
          || bytes_eq s (109 ∷ 101 ∷ 115 ∷ 115 ∷ 97 ∷ 103 ∷ 101 ∷ []))
        || (bytes_eq s (109 ∷ 115 ∷ 103 ∷ []) || bytes_eq s (98 ∷ 111 ∷ 100 ∷ 121 ∷ []))
    then text
    else other

-- The columns found: the last of a kind stands.
pub record Columns : Type 0 where
  pub col_ts : Option ℕ
  pub col_level : Option ℕ
  pub col_text : Option ℕ

unfoldable pub locate_loop : ℕ → List (List ℕ) → Columns → Columns
unfolding column
locate_loop i [] cols = cols
locate_loop i (h ∷ header) cols = locate_loop (i + 1) header (elim (column h) [
  | ts ↦ record cols { col_ts = some i }
  | level ↦ record cols { col_level = some i }
  | text ↦ record cols { col_text = some i }
  | other ↦ cols
])

-- `locate_cols`
unfoldable pub locate_cols : List (List ℕ) → Columns
locate_cols header =
    locate_loop 0 header (record { col_ts = none; col_level = none; col_text = none })

-- Fields with commas between them, as they are.
unfoldable pub join : List (List ℕ) → List ℕ
join [] = []
join (f ∷ []) = f
join (f ∷ g ∷ fs) = f ++ (comma ∷ join (g ∷ fs))
