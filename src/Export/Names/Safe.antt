-- ===== src/Export/Names/Safe.antt =====
-- What `sanitize_filename` of export_api.rs makes can be the name of a file.
use tracemux.Prelude.{
  ℕ, ◌≤◌, ◌<◌, ◌≡◌, ◌⊎◌, inl, inr, Bool-cases, refl, List, [], ◌∷◌, Bool, true, false, not, ◌&&◌,
  ◌==◌, if◌then◌else◌, arith, All,
}
use tracemux.Prelude.Text.{whitespace, is_empty, trim, trim_start, trim_end}
use tracemux.Export.Names.{
  is_control, invalid, scrub, trim_dots, tracemux_export, sanitize_filename,
}

-- None of `< > : " / \ | ? *`, and no control character.
abbrev pub Allowed : ℕ → Type 0
Allowed c =
    All (λ bad. c ≡ bad → ⊥) (60 ∷ 62 ∷ 58 ∷ 34 ∷ 47 ∷ 92 ∷ 124 ∷ 63 ∷ 42 ∷ [])
    × (32 ≤ c)
    × ((c < 127) ⊎ (159 < c))

-- Not empty, and no dot at the end.
abbrev pub EndsWell : List ℕ → Type 0
EndsWell [] = ⊥
EndsWell (c ∷ []) = (c == 46) ≡ false
EndsWell (c ∷ d ∷ cs) = EndsWell (d ∷ cs)

pub record IsFilename (s : List ℕ) : Type 0 where
  pub allowed : All Allowed s
  pub ends : EndsWell s

dash-Allowed : Allowed 45 × Allowed 32
dash-Allowed = (ground arith, ground arith)

valid-Allowed : (c : ℕ) → invalid c ≡ false → Allowed c
unfolding invalid is_control
valid-Allowed c h = ground (arith, h)

scrub-Allowed : (prev : Bool) (s : List ℕ) → All Allowed (scrub prev s)
unfolding scrub
scrub-Allowed prev [] = tt
scrub-Allowed prev (c ∷ cs) =
    let rest = scrub-Allowed (not (invalid c) && whitespace c) cs in
    elim (Bool-cases (invalid c)) [
      | inl t ↦ rw t (dash-Allowed.0, scrub-Allowed (not true && whitespace c) cs)
      | inr t ↦ rw t (elim (Bool-cases (whitespace c)) [
        | inl u ↦ rw u (spaced prev (scrub true cs) (scrub-Allowed true cs))
        | inr u ↦ rw u (valid-Allowed c t, scrub-Allowed false cs)
      ])
    ]
  where
    spaced :
        (b : Bool) (rest : List ℕ) → All Allowed rest → All Allowed (if b then rest else 32 ∷ rest)
    spaced true rest h = h
    spaced false rest h = (dash-Allowed.1, h)

trim_start-Allowed : (s : List ℕ) → All Allowed s → All Allowed (trim_start s)
unfolding trim_start
trim_start-Allowed [] h = tt
trim_start-Allowed (c ∷ cs) h = ground (arith, trim_start-Allowed cs h.1, h)

trim_end-Allowed : (s : List ℕ) → All Allowed s → All Allowed (trim_end s)
unfolding trim_end
trim_end-Allowed [] h = tt
trim_end-Allowed (c ∷ cs) h = ground (arith, trim_end-Allowed cs h.1, h)

trim_dots-Allowed : (s : List ℕ) → All Allowed s → All Allowed (trim_dots s)
unfolding trim_dots
trim_dots-Allowed [] h = tt
trim_dots-Allowed (c ∷ cs) h = ground (arith, trim_dots-Allowed cs h.1, h)

trim_dots-EndsWell : (s : List ℕ) → is_empty (trim_dots s) ≡ false → EndsWell (trim_dots s)
unfolding trim_dots is_empty
trim_dots-EndsWell [] h = ground (arith, h)
trim_dots-EndsWell (c ∷ cs) h = ground (arith, trim_dots-EndsWell cs)

tracemux_export-IsFilename : IsFilename tracemux_export
tracemux_export-IsFilename = record { allowed = ground arith; ends = refl }

or_default :
    (s : List ℕ)
    → All Allowed s
    → (is_empty s ≡ false → EndsWell s)
    → IsFilename (if is_empty s then tracemux_export else s)
unfolding is_empty
or_default [] h k = tracemux_export-IsFilename
or_default (c ∷ cs) h k = record { allowed = h; ends = k refl }

-- Every name that comes out has none of `< > : " / \ | ? *` and no control character, is not empty, and
-- does not end in a dot, whatever was asked for: so it is neither `.` nor `..`, nor a path.
pub sanitize_filename-IsFilename : (value : List ℕ) → IsFilename (sanitize_filename value)
unfolding sanitize_filename trim
sanitize_filename-IsFilename value =
    let t = trim (scrub false value) in
    or_default (trim_dots t)
      (trim_dots-Allowed t (
        trim_end-Allowed (trim_start (scrub false value))
          (trim_start-Allowed (scrub false value) (scrub-Allowed false value))))
      (trim_dots-EndsWell t)
