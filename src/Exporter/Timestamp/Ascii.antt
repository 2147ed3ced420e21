-- ===== src/Exporter/Timestamp/Ascii.antt =====
-- Where timestamp.rs may panic: never on a label of ASCII characters.
use tracemux.Prelude.{
  ℕ, ◌-◌, ◌<◌, ◌≤◌, ◌≡◌, refl, List, [], ◌∷◌, Option, none, some, Bool, true, false, ◌&&◌, ◌||◌,
  ltb, ◌==◌, if◌then◌else◌, length, map, All, Bool-cases, inl, inr, arith,
}
use tracemux.Prelude.Bytes.{bytes_eq}
use tracemux.Prelude.Text.{is_empty, trim, trim_start, trim_end, whitespace}
use tracemux.Error.{Result, err, pipeline_generic}
use tracemux.Csv.{to_ascii_lowercase}
use tracemux.Exporter.Timestamp.{
  UtcOffset, Outcome, returned, panicked, char_len, byte_len, behind, split_at, split_once,
  checked_sub, of_texts, texts, unsigned_offset, parse_numeric_offset, strip_prefix, gmt, utc, jst,
  asia_tokyo, or_else, ok_or, named_offset, parse_timezone_offset,
}

abbrev pub IsAscii : List ℕ → Type 0
IsAscii = All (λ c. c < 128)

byte_len-IsAscii : (s : List ℕ) → IsAscii s → byte_len s ≡ length s
unfolding byte_len
byte_len-IsAscii [] h = refl
byte_len-IsAscii (c ∷ s) h = ground (arith, byte_len-IsAscii s h.1, h.0)

abbrev IsSome : Option (List ℕ × List ℕ) → Type 0
IsSome none = ⊥
IsSome (some p) = Unit

behind-IsSome : (c : ℕ) (o : Option (List ℕ × List ℕ)) → IsSome o → IsSome (behind c o)
behind-IsSome c none h = h
behind-IsSome c (some (xs, ys)) h = tt

split_at-IsSome : (n : ℕ) (s : List ℕ) → IsAscii s → n ≤ length s → IsSome (split_at n s)
unfolding split_at
split_at-IsSome n [] h le = let e : (n == 0) ≡ true = ground (arith, le) in rw e tt
split_at-IsSome n (c ∷ s) h le = elim (Bool-cases (n == 0)) [
  | inl e ↦ rw e tt
  | inr e ↦
      let one : char_len c ≡ 1 = unfold char_len in ground (arith, h.0) in
      let t : ltb n (char_len c) ≡ false = ground (arith, one, e) in
      rw e (
        rw t (
          behind-IsSome c (split_at (n - char_len c) s)
            (split_at-IsSome (n - char_len c) s h.1 (ground (arith, one, e, le)))))
]

texts-IsSome : (rest : List ℕ) (o : Option (List ℕ × List ℕ)) → IsAscii rest → IsSome (texts rest o)
texts-IsSome rest (some p) h = tt
texts-IsSome rest none h = elim (Bool-cases (ltb 2 (byte_len rest))) [
  | inl t ↦
      let enough : checked_sub (byte_len rest) 2 ≡ some (byte_len rest - 2) =
        unfold checked_sub in ground (arith, t) in
      rw t (
        rw enough
          (split_at-IsSome (byte_len rest - 2) rest h (omega (arith, byte_len-IsAscii rest h))))
  | inr t ↦ rw t tt
]

abbrev Returns : {A : Type 0} → Outcome A → Type 0
Returns panicked = ⊥
Returns (returned a) = Unit

of_texts-Returns :
    (west : Bool) (o : Option (List ℕ × List ℕ)) → IsSome o → Returns (of_texts west o)
of_texts-Returns west none h = h
of_texts-Returns west (some (a, b)) h = tt

unsigned_offset-Returns :
    (west : Bool) (rest : List ℕ) → IsAscii rest → Returns (unsigned_offset west rest)
unfolding unsigned_offset
unsigned_offset-Returns west rest h = elim (Bool-cases (is_empty rest)) [
  | inl t ↦ rw t tt
  | inr t ↦
      rw t (
        of_texts-Returns west (texts rest (split_once rest))
          (texts-IsSome rest (split_once rest) h))
]

parse_numeric_offset-Returns : (s : List ℕ) → IsAscii s → Returns (parse_numeric_offset s)
unfolding parse_numeric_offset
parse_numeric_offset-Returns [] h = tt
parse_numeric_offset-Returns (c ∷ rest) h = elim (Bool-cases (c == 43)) [
  | inl t ↦ rw t (unsigned_offset-Returns false rest h.1)
  | inr t ↦ rw t (elim (Bool-cases (c == 45)) [
    | inl u ↦ rw u (unsigned_offset-Returns true rest h.1)
    | inr u ↦ rw u tt
  ])
]

abbrev AllOf : Option (List ℕ) → Type 0
AllOf none = Unit
AllOf (some s) = IsAscii s

strip_prefix-IsAscii : (p s : List ℕ) → IsAscii s → AllOf (strip_prefix p s)
unfolding strip_prefix
strip_prefix-IsAscii [] s h = h
strip_prefix-IsAscii (p ∷ ps) [] h = tt
strip_prefix-IsAscii (p ∷ ps) (c ∷ s) h = elim (Bool-cases (p == c)) [
  | inl t ↦ rw t (strip_prefix-IsAscii ps s h.1)
  | inr t ↦ rw t tt
]

or_else-IsAscii :
    (a b : Option (List ℕ)) (s : List ℕ) → AllOf a → AllOf b → IsAscii s → IsAscii (or_else a b s)
or_else-IsAscii (some x) b s ha hb hs = ha
or_else-IsAscii none (some y) s ha hb hs = hb
or_else-IsAscii none none s ha hb hs = hs

trim_start-IsAscii : (s : List ℕ) → IsAscii s → IsAscii (trim_start s)
unfolding trim_start
trim_start-IsAscii [] h = tt
trim_start-IsAscii (c ∷ s) h = elim (Bool-cases (whitespace c)) [
  | inl t ↦ rw t (trim_start-IsAscii s h.1)
  | inr t ↦ rw t h
]

trim_end-IsAscii : (s : List ℕ) → IsAscii s → IsAscii (trim_end s)
unfolding trim_end
trim_end-IsAscii [] h = tt
trim_end-IsAscii (c ∷ s) h = elim (Bool-cases (is_empty (trim_end s) && whitespace c)) [
  | inl t ↦ rw t tt
  | inr t ↦ rw t (h.0, trim_end-IsAscii s h.1)
]

lowercase-IsAscii : (s : List ℕ) → IsAscii s → IsAscii (map to_ascii_lowercase s)
unfolding to_ascii_lowercase
lowercase-IsAscii [] h = tt
lowercase-IsAscii (c ∷ s) h = (ground (arith, h.0), lowercase-IsAscii s h.1)

ok_or-Returns : (o : Outcome (Option UtcOffset)) → Returns o → Returns (ok_or o)
ok_or-Returns panicked h = h
ok_or-Returns (returned none) h = tt
ok_or-Returns (returned (some z)) h = tt

named_offset-Returns : (s : List ℕ) → IsAscii s → Returns (named_offset s)
unfolding named_offset
named_offset-Returns s h =
    elim (Bool-cases (bytes_eq s utc || (bytes_eq s (122 ∷ []) || bytes_eq s gmt))) [
      | inl t ↦ rw t tt
      | inr t ↦ rw t (elim (Bool-cases (bytes_eq s jst || bytes_eq s asia_tokyo)) [
        | inl u ↦ rw u tt
        | inr u ↦ rw u (
            let text = or_else (strip_prefix gmt s) (strip_prefix utc s) s in
            ok_or-Returns (parse_numeric_offset text) (
              parse_numeric_offset-Returns text (
                or_else-IsAscii (strip_prefix gmt s) (strip_prefix utc s) s
                  (strip_prefix-IsAscii gmt s h) (strip_prefix-IsAscii utc s h) h)))
      ])
    ]

trimmed-Returns :
    (raw : List ℕ)
    → IsAscii raw
    → Returns (
        if is_empty raw
        then returned (err pipeline_generic)
        else named_offset (map to_ascii_lowercase raw))
trimmed-Returns raw h = elim (Bool-cases (is_empty raw)) [
  | inl t ↦ rw t tt
  | inr t ↦ rw t (named_offset-Returns (map to_ascii_lowercase raw) (lowercase-IsAscii raw h))
]

-- A label of ASCII characters is read or refused; the call does not panic.
pub parse_timezone_offset-IsAscii :
    (label : List ℕ)
    → IsAscii label
    → (r : Result UtcOffset) × (parse_timezone_offset label ≡ returned r)
unfolding parse_timezone_offset trim
parse_timezone_offset-IsAscii label h = result (parse_timezone_offset label) (
    trimmed-Returns (trim_end (trim_start label))
      (trim_end-IsAscii (trim_start label) (trim_start-IsAscii label h)))
  where
    result :
        (o : Outcome (Result UtcOffset)) → Returns o → (r : Result UtcOffset) × (o ≡ returned r)
    result panicked k = elim k [ ]
    result (returned r) k = (r, refl)
