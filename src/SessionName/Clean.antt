-- ===== src/SessionName/Clean.antt =====
-- What session_name.rs makes is clean, and it leaves alone what is.
use tracemux.Prelude.{
  ℕ, zero, suc, ◌≤◌, ◌≡◌, ◌⊎◌, ◌↔◌, refl, List, [], ◌∷◌, Bool, true, false, length, take, ltb, ◌==◌,
  if◌then◌else◌, arith, length-take, Bool-cases, inl, inr,
}
use tracemux.SessionName.{
  safe, mapped, collapse, trims, trim_start, is_empty, trim_end, trim_matches, session,
  sanitize_session_name,
}

-- An ASCII letter or digit, a dash, an underscore or a dot.
abbrev pub IsSafe : ℕ → Type 0
IsSafe c =
    ((48 ≤ c) × (c ≤ 57))
    ⊎ (((65 ≤ c) × (c ≤ 90)) ⊎ (((97 ≤ c) × (c ≤ 122)) ⊎ ((c ≡ 45) ⊎ ((c ≡ 95) ⊎ (c ≡ 46)))))

safe_iff : (c : ℕ) → (safe c ≡ true) ↔ IsSafe c
unfolding safe
safe_iff c = ground arith

-- Every character is safe, and no dash comes after a dash; `dash` says that there was one in front.
abbrev pub IsText : Bool → List ℕ → Type 0
IsText dash [] = Unit
IsText dash (c ∷ cs) = IsSafe c × (c ≡ 45 → dash ≡ false) × IsText (c == 45) cs

-- No dash and no dot at the front, none at the end.
abbrev pub StartsClean : List ℕ → Type 0
StartsClean [] = Unit
StartsClean (c ∷ cs) = (c ≡ 45 → ⊥) × (c ≡ 46 → ⊥)

abbrev pub EndsClean : List ℕ → Type 0
EndsClean [] = Unit
EndsClean (c ∷ []) = (c ≡ 45 → ⊥) × (c ≡ 46 → ⊥)
EndsClean (c ∷ d ∷ cs) = EndsClean (d ∷ cs)

pub record IsClean (s : List ℕ) : Type 0 where
  pub text : IsText false s
  pub starts : StartsClean s
  pub ends : EndsClean s
  pub some_length : 1 ≤ length s
  pub short : length s ≤ 160

mapped-IsSafe : (c : ℕ) → IsSafe (mapped c)
unfolding mapped safe
mapped-IsSafe c = (safe_iff (mapped c)).0 (ground arith)

collapse-IsText : (cs : List ℕ) (dash : Bool) → IsText dash (collapse cs dash)
unfolding collapse
collapse-IsText [] dash = tt
collapse-IsText (c ∷ cs) dash = ground (arith, collapse-IsText cs (mapped c == 45), mapped-IsSafe c)

IsText-weaken : (s : List ℕ) (dash : Bool) → IsText dash s → IsText false s
IsText-weaken [] dash h = tt
IsText-weaken (c ∷ cs) dash h = ground (arith, h)

trim_start-IsText : (s : List ℕ) → IsText false s → IsText false (trim_start s)
unfolding trim_start
trim_start-IsText [] h = tt
trim_start-IsText (c ∷ cs) h = ground (arith, trim_start-IsText cs, IsText-weaken cs (c == 45) h.2)

trim_end-IsText : (s : List ℕ) (dash : Bool) → IsText dash s → IsText dash (trim_end s)
unfolding trim_end is_empty
trim_end-IsText [] dash h = tt
trim_end-IsText (c ∷ cs) dash h = ground (arith, trim_end-IsText cs (c == 45) h.2)

take-IsText : (n : ℕ) (s : List ℕ) (dash : Bool) → IsText dash s → IsText dash (take n s)
take-IsText zero s dash h = tt
take-IsText (suc n) [] dash h = tt
take-IsText (suc n) (c ∷ cs) dash h = (h.0, h.1, take-IsText n cs (c == 45) h.2)

trim_start-StartsClean : (s : List ℕ) → StartsClean (trim_start s)
unfolding trims trim_start
trim_start-StartsClean [] = tt
trim_start-StartsClean (c ∷ cs) = ground (arith, trim_start-StartsClean cs)

trim_end-StartsClean : (s : List ℕ) → StartsClean s → StartsClean (trim_end s)
unfolding trims trim_end is_empty
trim_end-StartsClean [] h = tt
trim_end-StartsClean (c ∷ cs) h = ground (arith, h)

trim_end-EndsClean : (s : List ℕ) → EndsClean (trim_end s)
unfolding trims trim_end is_empty
trim_end-EndsClean [] = tt
trim_end-EndsClean (c ∷ cs) = ground (arith, trim_end-EndsClean cs)

length-trim_start : (s : List ℕ) → length (trim_start s) ≤ length s
unfolding trim_start
length-trim_start [] = omega arith
length-trim_start (c ∷ cs) = ground (arith, length-trim_start cs)

length-trim_end : (s : List ℕ) → length (trim_end s) ≤ length s
unfolding trim_end is_empty
length-trim_end [] = omega arith
length-trim_end (c ∷ cs) = ground (arith, length-trim_end cs)

collapse_clean : (s : List ℕ) (dash : Bool) → IsText dash s → collapse s dash ≡ s
unfolding collapse mapped
collapse_clean [] dash h = refl
collapse_clean (c ∷ cs) dash h = ground (arith, collapse_clean cs (c == 45), (safe_iff c).1 h.0, h)

trim_start_clean : (s : List ℕ) → StartsClean s → trim_start s ≡ s
unfolding trims trim_start
trim_start_clean [] h = refl
trim_start_clean (c ∷ cs) h = ground (arith, h)

trim_end_clean : (s : List ℕ) → EndsClean s → trim_end s ≡ s
unfolding trims trim_end is_empty
trim_end_clean [] h = refl
trim_end_clean (c ∷ []) h = ground (arith, h)
trim_end_clean (c ∷ d ∷ cs) h = ground (arith, trim_end_clean (d ∷ cs) h)

trim_matches-clean :
    (s : List ℕ)
    → IsText false s
    → IsText false (trim_matches s)
      × StartsClean (trim_matches s)
      × EndsClean (trim_matches s)
      × (length (trim_matches s) ≤ length s)
unfolding trim_matches
trim_matches-clean s h = (
  trim_end-IsText (trim_start s) false (trim_start-IsText s h),
  trim_end-StartsClean (trim_start s) (trim_start-StartsClean s),
  trim_end-EndsClean (trim_start s),
  ground (arith, length-trim_end (trim_start s), length-trim_start s),
)

session-IsClean : IsClean session
session-IsClean = record {
  text = ground arith;
  starts = ground arith;
  ends = ground arith;
  some_length = omega arith;
  short = omega arith;
}

or_session :
    (s : List ℕ)
    → IsText false s
    → StartsClean s
    → EndsClean s
    → length s ≤ 160
    → IsClean (if is_empty s then session else s)
unfolding is_empty
or_session [] t st en len = session-IsClean
or_session (c ∷ cs) t st en len = record {
  text = t;
  starts = st;
  ends = en;
  some_length = omega arith;
  short = len;
}

not_longer : (n len : ℕ) → ltb n len ≡ false → len ≤ n
not_longer n len h = ground arith

pub sanitize_session_name-IsClean : (input : List ℕ) → IsClean (sanitize_session_name input)
unfolding sanitize_session_name
sanitize_session_name-IsClean input =
    let all = collapse input false in
    let trimmed = trim_matches all in
    let (t, st, en, len) = trim_matches-clean all (collapse-IsText input false) in
    let (t', st', en', len') =
      trim_matches-clean (take 160 trimmed) (take-IsText 160 trimmed false t) in
    elim (Bool-cases (ltb 160 (length trimmed))) [
      | inl long ↦ rw long (
          or_session (trim_matches (take 160 trimmed)) t' st' en'
            (ground (arith, length-take 160 trimmed, len')))
      | inr fits ↦ rw fits (or_session trimmed t st en (not_longer 160 (length trimmed) fits))
    ]

-- A clean name is left as it is.
pub sanitize_session_name_clean : (s : List ℕ) → IsClean s → sanitize_session_name s ≡ s
unfolding sanitize_session_name trim_matches is_empty
sanitize_session_name_clean [] v = ground (arith, v.some_length)
sanitize_session_name_clean (c ∷ cs) v =
    rw
      (
        collapse_clean (c ∷ cs) false v.text,
        trim_start_clean (c ∷ cs) v.starts,
        trim_end_clean (c ∷ cs) v.ends,
      )
      (ground (arith, v.short))

-- A name sanitised twice is the name sanitised once.
pub sanitize_session_name_twice :
    (input : List ℕ)
    → sanitize_session_name (sanitize_session_name input) ≡ sanitize_session_name input
sanitize_session_name_twice input =
    sanitize_session_name_clean (sanitize_session_name input) (sanitize_session_name-IsClean input)
