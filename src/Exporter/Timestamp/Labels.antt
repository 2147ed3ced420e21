-- ===== src/Exporter/Timestamp/Labels.antt =====
-- The labels of timezones that timestamp.rs understands.
use tracemux.Prelude.{
  ℕ, zero, suc, ◌+◌, ◌*◌, ◌/◌, ◌%◌, ◌<◌, ◌≡◌, refl, sym, ap, ap₂, ◌∙◌, List, [], ◌∷◌, ◌++◌, Bool,
  true, false, ◌&&◌, not, ◌-◌, if◌then◌else◌, ◌==◌, ==_iff, arith,
}
use tracemux.Prelude.Ints.{ℤ, pos, negsuc}
use tracemux.Error.{Result, ok, err}
use tracemux.Prelude.Text.{whitespace, trim_start, trim_end}
use tracemux.Exporter.Timestamp.{
  UtcOffset, offset, Outcome, returned, panicked, parse_timezone_offset,
}

-- How an offset is written: what stands in front of the sign, and whether a colon stands between hours
-- and minutes.
pub data Prefix : Type 0 where
  bare in_gmt in_utc : Prefix

abbrev pub prefix : Prefix → List ℕ
prefix bare = []
prefix in_gmt = 71 ∷ 77 ∷ 84 ∷ []
prefix in_utc = 85 ∷ 84 ∷ 67 ∷ []

abbrev pub sign : Bool → ℕ
sign true = 45
sign false = 43

abbrev pub separator : Bool → List ℕ
separator true = 58 ∷ []
separator false = []

abbrev pub two : ℕ → List ℕ
two n = (48 + n / 10) ∷ (48 + n % 10) ∷ []

abbrev pub label : Prefix → Bool → Bool → ℕ → ℕ → List ℕ
label p colon west h m = prefix p ++ (sign west ∷ (two h ++ (separator colon ++ two m)))

-- Minutes to the west are negative.
abbrev pub minutes_east : Bool → ℕ → UtcOffset
minutes_east false n = pos n
minutes_east true zero = pos 0
minutes_east true (suc n) = negsuc n

offset-minutes_east : (west : Bool) (h m : ℕ) → offset west h m ≡ minutes_east west (h * 60 + m)
unfolding offset
offset-minutes_east west h m = signed west (h * 60 + m)
  where
    signed :
        (b : Bool) (n : ℕ)
        → (if b && not (n == 0) then negsuc (n - 1) else pos n) ≡ minutes_east b n
    signed false n = refl
    signed true zero = refl
    signed true (suc n) = ground arith

abbrev same : ℤ → ℤ → Bool
same (pos a) (pos b) = a == b
same (pos a) (negsuc b) = false
same (negsuc a) (pos b) = false
same (negsuc a) (negsuc b) = a == b

abbrev gives : UtcOffset → Outcome (Result UtcOffset) → Bool
gives o panicked = false
gives o (returned (err e)) = false
gives o (returned (ok p)) = same p o

abbrev reads : Prefix → Bool → Bool → ℕ → Bool
reads p colon west i =
    gives (offset west (i / 60) (i % 60))
      (parse_timezone_offset (label p colon west (i / 60) (i % 60)))

all_below : ℕ → (ℕ → Bool) → Bool
all_below zero p = true
all_below (suc n) p = p n && all_below n p

all_below_sound : (n : ℕ) (p : ℕ → Bool) (i : ℕ) → all_below n p ≡ true → i < n → p i ≡ true
unfolding all_below
all_below_sound zero p i h lt = absurd (omega arith)
all_below_sound (suc n) p i h lt = ground (arith, all_below_sound n p i)

-- Every label of the twelve forms, tried.
tried : (p : Prefix) (colon west : Bool) → all_below 1440 (reads p colon west) ≡ true
unfolding all_below parse_timezone_offset offset trim_start trim_end whitespace
tried bare true true = refl
tried bare true false = refl
tried bare false true = refl
tried bare false false = refl
tried in_gmt true true = refl
tried in_gmt true false = refl
tried in_gmt false true = refl
tried in_gmt false false = refl
tried in_utc true true = refl
tried in_utc true false = refl
tried in_utc false true = refl
tried in_utc false false = refl

same→eq : (a b : ℤ) → same a b ≡ true → a ≡ b
same→eq (pos a) (pos b) h = ap pos ((==_iff a b).0 h)
same→eq (pos a) (negsuc b) h = cc
same→eq (negsuc a) (pos b) h = cc
same→eq (negsuc a) (negsuc b) h = ap negsuc ((==_iff a b).0 h)

gives→eq : (o : UtcOffset) (r : Outcome (Result UtcOffset)) → gives o r ≡ true → r ≡ returned (ok o)
gives→eq o panicked h = cc
gives→eq o (returned (err e)) h = cc
gives→eq o (returned (ok p)) h = ap (λ z. returned (ok z)) (same→eq p o h)

-- A label that is a sign, two digits of hours below 24 and two of minutes below 60, with or without a
-- colon between them, alone or behind GMT or UTC, is read as sixty times the hours and the minutes
-- together, in minutes: to the east, counted up, behind a plus sign, and to the west, counted down,
-- behind a minus sign.
pub parse_timezone_offset-label :
    (p : Prefix) (colon west : Bool) (h m : ℕ)
    → h < 24
    → m < 60
    → parse_timezone_offset (label p colon west h m)
      ≡ returned (ok (minutes_east west (h * 60 + m)))
parse_timezone_offset-label p colon west h m hh hm =
    let hours : (h * 60 + m) / 60 ≡ h = omega arith in
    let minutes : (h * 60 + m) % 60 ≡ m = omega arith in
    ap₂ (λ a b. parse_timezone_offset (label p colon west a b)) (sym hours) (sym minutes)
    ∙ gives→eq (offset west ((h * 60 + m) / 60) ((h * 60 + m) % 60))
        (parse_timezone_offset (label p colon west ((h * 60 + m) / 60) ((h * 60 + m) % 60)))
        (all_below_sound 1440 (reads p colon west) (h * 60 + m) (tried p colon west) (omega arith))
    ∙ ap₂ (λ a b. returned (ok (offset west a b))) hours minutes
    ∙ ap (λ z. returned (ok z)) (offset-minutes_east west h m)
