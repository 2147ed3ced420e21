-- ===== src/Exporter/Timestamp.antt =====
-- crates/core/src/exporter/timestamp.rs: the timezones that a user names, and instants printed in them.
-- A label is its code points; an offset is its minutes east of UTC. Parsing and printing an instant in
-- an offset are calls of the crate time, the parameter `convert`.
pub mod Labels
pub mod Ascii
use tracemux.Prelude.{
  ℕ, ◌+◌, ◌-◌, ◌*◌, List, [], ◌∷◌, Option, none, some, Bool, true, false, ◌&&◌, ◌||◌, not, ltb, leb,
  ◌==◌, if◌then◌else◌, map,
}
use tracemux.Prelude.Ints.{ℤ, pos, negsuc}
use tracemux.Prelude.Bytes.{bytes_eq}
use tracemux.Prelude.Text.{trim, is_empty}
use tracemux.Error.{Result, ok, err, pipeline_generic}
use tracemux.Csv.{to_ascii_lowercase}

-- `UtcOffset`
abbrev pub UtcOffset : Type 0
UtcOffset = ℤ

-- `offset`, on hours and minutes that both lie west or both east
unfoldable pub offset : Bool → ℕ → ℕ → UtcOffset
offset west hours minutes =
    let total = hours * 60 + minutes in
    if west && not (total == 0) then negsuc (total - 1) else pos total

-- What a call does: it returns, or it panics.
pub data Outcome (A : Type 0) : Type 0 where
  returned : A → Outcome A
  panicked : Outcome A

-- The bytes of a character in UTF-8.
unfoldable pub char_len : ℕ → ℕ
char_len c = if ltb c 128 then 1 else if ltb c 2048 then 2 else if ltb c 65536 then 3 else 4

unfoldable pub byte_len : List ℕ → ℕ
unfolding char_len
byte_len [] = 0
byte_len (c ∷ cs) = char_len c + byte_len cs

abbrev pub behind : ℕ → Option (List ℕ × List ℕ) → Option (List ℕ × List ℕ)
behind c none = none
behind c (some (xs, ys)) = some (c ∷ xs, ys)

-- `str::split_at`, which panics inside a character: then it is `none`
unfoldable pub split_at : ℕ → List ℕ → Option (List ℕ × List ℕ)
unfolding char_len
split_at n [] = if n == 0 then some ([], []) else none
split_at n (c ∷ cs) =
    if n == 0
    then some ([], c ∷ cs)
    else if ltb n (char_len c)
    then none
    else behind c (split_at (n - char_len c) cs)

-- `split_once(':')`
unfoldable pub split_once : List ℕ → Option (List ℕ × List ℕ)
split_once [] = none
split_once (c ∷ cs) = if c == 58 then some ([], cs) else behind c (split_once cs)

-- `parse::<i8>()`: digits behind an optional sign
unfoldable pub digits : ℕ → List ℕ → Option ℕ
digits acc [] = some acc
digits acc (c ∷ cs) =
    let rest = digits (acc * 10 + (c - 48)) cs in if leb 48 c && leb c 57 then rest else none

abbrev pub narrow : Bool → Option ℕ → Option ℤ
narrow negative none = none
narrow negative (some n) =
    if ltb (if negative then 128 else 127) n
    then none
    else some (if negative && not (n == 0) then negsuc (n - 1) else pos n)

unfoldable pub some_digits : List ℕ → Option ℕ
unfolding digits
some_digits [] = none
some_digits (c ∷ cs) = digits 0 (c ∷ cs)

unfoldable pub parse_i8 : List ℕ → Option ℤ
unfolding some_digits
parse_i8 [] = none
parse_i8 (c ∷ cs) =
    if c == 43
    then narrow false (some_digits cs)
    else if c == 45
    then narrow true (some_digits cs)
    else narrow false (some_digits (c ∷ cs))

-- `parse_numeric_offset` from the two texts on
abbrev pub ranged : Bool → Option ℤ → Option ℤ → Option UtcOffset
ranged west none minutes = none
ranged west (some hours) none = none
ranged west (some (negsuc h)) (some minutes) = none
ranged west (some (pos h)) (some (negsuc m)) = none
ranged west (some (pos h)) (some (pos m)) =
    if leb h 23 && leb m 59 then some (offset west h m) else none

abbrev pub of_texts : Bool → Option (List ℕ × List ℕ) → Outcome (Option UtcOffset)
of_texts west none = panicked
of_texts west (some (h, m)) = returned (ranged west (parse_i8 h) (parse_i8 m))

-- Subtraction on `usize`, which panics below 0 (without overflow checks it wraps, and then the cut
-- lies behind the end, where split_at panics).
unfoldable pub checked_sub : ℕ → ℕ → Option ℕ
checked_sub a b = if ltb a b then none else some (a - b)

abbrev pub split_where : Option ℕ → List ℕ → Option (List ℕ × List ℕ)
split_where none s = none
split_where (some n) s = split_at n s

-- `hour_text` and `minute_text`; `none` is a panic
abbrev pub texts : List ℕ → Option (List ℕ × List ℕ) → Option (List ℕ × List ℕ)
texts rest (some parts) = some parts
texts rest none =
    if ltb 2 (byte_len rest)
    then split_where (checked_sub (byte_len rest) 2) rest
    else some (rest, 48 ∷ [])

unfoldable pub unsigned_offset : Bool → List ℕ → Outcome (Option UtcOffset)
unfolding offset parse_i8 byte_len split_at split_once is_empty checked_sub
unsigned_offset west rest =
    if is_empty rest then returned none else of_texts west (texts rest (split_once rest))

-- `parse_numeric_offset`
unfoldable pub parse_numeric_offset : List ℕ → Outcome (Option UtcOffset)
unfolding unsigned_offset
parse_numeric_offset [] = returned none
parse_numeric_offset (c ∷ rest) =
    if c == 43
    then unsigned_offset false rest
    else if c == 45
    then unsigned_offset true rest
    else returned none

-- `strip_prefix`
unfoldable pub strip_prefix : List ℕ → List ℕ → Option (List ℕ)
strip_prefix [] s = some s
strip_prefix (p ∷ ps) [] = none
strip_prefix (p ∷ ps) (c ∷ cs) = if p == c then strip_prefix ps cs else none

abbrev pub gmt : List ℕ
gmt = 103 ∷ 109 ∷ 116 ∷ []

abbrev pub utc : List ℕ
utc = 117 ∷ 116 ∷ 99 ∷ []

abbrev pub jst : List ℕ
jst = 106 ∷ 115 ∷ 116 ∷ []

abbrev pub asia_tokyo : List ℕ
asia_tokyo = 97 ∷ 115 ∷ 105 ∷ 97 ∷ 47 ∷ 116 ∷ 111 ∷ 107 ∷ 121 ∷ 111 ∷ []

abbrev pub or_else : Option (List ℕ) → Option (List ℕ) → List ℕ → List ℕ
or_else (some s) t lower = s
or_else none (some t) lower = t
or_else none none lower = lower

abbrev pub ok_or : Outcome (Option UtcOffset) → Outcome (Result UtcOffset)
ok_or panicked = panicked
ok_or (returned none) = returned (err pipeline_generic)
ok_or (returned (some o)) = returned (ok o)

-- `match lower.as_str()`
unfoldable pub named_offset : List ℕ → Outcome (Result UtcOffset)
unfolding parse_numeric_offset strip_prefix bytes_eq
named_offset lower =
    if bytes_eq lower utc || (bytes_eq lower (122 ∷ []) || bytes_eq lower gmt)
    then returned (ok (offset false 0 0))
    else if bytes_eq lower jst || bytes_eq lower asia_tokyo
    then returned (ok (offset false 9 0))
    else ok_or
        (parse_numeric_offset (or_else (strip_prefix gmt lower) (strip_prefix utc lower) lower))

-- `parse_timezone_offset`
unfoldable pub parse_timezone_offset : List ℕ → Outcome (Result UtcOffset)
unfolding named_offset is_empty trim to_ascii_lowercase
parse_timezone_offset label =
    let raw = trim label in
    if is_empty raw
    then returned (err pipeline_generic)
    else named_offset (map to_ascii_lowercase raw)

-- `format_rfc3339_in_timezone`
unfoldable pub format_rfc3339_in_timezone :
    (UtcOffset → List ℕ → Option (List ℕ)) → Option UtcOffset → List ℕ → Result (List ℕ)
format_rfc3339_in_timezone convert none ts = ok ts
format_rfc3339_in_timezone convert (some offset) ts = elim (convert offset ts) [
  | none ↦ err pipeline_generic
  | some text ↦ ok text
]
