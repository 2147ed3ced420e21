-- ===== src/Export/Names/Fresh.antt =====
-- The names that `unique_zip_entry_name` of export_api.rs gives are new.
use tracemux.Prelude.{
  ℕ, zero, suc, ◌+◌, ◌-◌, ◌*◌, ◌/◌, ◌%◌, ◌^◌, ◌≤◌, ◌<◌, ◌≡◌, ◌⊎◌, inl, inr, refl, sym, ap, ◌∙◌,
  List, [], ◌∷◌, ◌++◌, true, false, length, take, drop, if◌then◌else◌, arith, length-append,
  take-append, drop-append, append_assoc, Bool-cases,
}
use native.Mathlib.Nat.{pow-suc}
use tracemux.Prelude.Bytes.{bytes_eq, bytes_eq_iff, bytes_eq→eq}
use tracemux.Export.Zip.{Result, ok, slashes}
use tracemux.Export.Names.{
  decimal, last_dot, split_at, contains, candidate, try_names, unique_zip_entry_name,
}

-- The number that digits write.
abbrev number_from : ℕ → List ℕ → ℕ
number_from acc [] = acc
number_from acc (d ∷ ds) = number_from (acc * 10 + (d - 48)) ds

number_from_append :
    (acc d : ℕ) (ds : List ℕ)
    → number_from acc (ds ++ (d ∷ [])) ≡ number_from acc ds * 10 + (d - 48)
number_from_append acc d [] = refl
number_from_append acc d (e ∷ ds) = number_from_append (acc * 10 + (e - 48)) d ds

number_from-decimal : (fuel n : ℕ) → n < 10 ^ fuel → number_from 0 (decimal fuel n) ≡ n
unfolding decimal
number_from-decimal zero n h = omega arith
number_from-decimal (suc fuel) n h = ground (
  arith,
  number_from_append 0 (48 + n % 10) (decimal fuel (n / 10)),
  number_from-decimal fuel (n / 10) (omega (arith, pow-suc 10 fuel)),
)

-- The index of a candidate, read back.
abbrev index_of : List ℕ × List ℕ → List ℕ → ℕ
index_of (stem, ext) c =
    let d = drop (length stem + 1) c in number_from 0 (take (length d - length ext) d)

index_of-candidate :
    (stem ext : List ℕ) (i : ℕ) → i < 10_000 → index_of (stem, ext) (candidate (stem, ext) i) ≡ i
unfolding candidate
index_of-candidate stem ext i h =
    let ds = decimal 4 i in
    let behind : drop (length stem + 1) (stem ++ (45 ∷ (ds ++ ext))) ≡ ds ++ ext =
      ap (drop (length stem + 1)) (sym (append_assoc stem (45 ∷ []) (ds ++ ext)))
      ∙ drop-append (length stem + 1) (stem ++ (45 ∷ [])) (ds ++ ext)
          (length-append stem (45 ∷ [])) in
    ap (λ d. number_from 0 (take (length d - length ext) d)) behind
    ∙ ap (number_from 0)
        (take-append (length (ds ++ ext) - length ext) ds ext (omega (arith, length-append ds ext)))
    ∙ number_from-decimal 4 i h

candidate_other :
    (parts : List ℕ × List ℕ) (i j : ℕ)
    → i < j
    → j < 10_000
    → bytes_eq (candidate parts i) (candidate parts j) ≡ false
candidate_other (stem, ext) i j h k =
    let parts : List ℕ × List ℕ = (stem, ext) in
    elim (Bool-cases (bytes_eq (candidate parts i) (candidate parts j))) [
      | inl e ↦
          (let same : i ≡ j =
              sym (index_of-candidate stem ext i (omega arith))
              ∙ ap (index_of parts) (bytes_eq→eq (candidate parts i) (candidate parts j) e)
              ∙ index_of-candidate stem ext j k in
            absurd (omega arith))
      | inr e ↦ e
    ]

-- Taking one occurrence out.
abbrev without : List ℕ → List (List ℕ) → List (List ℕ)
without name [] = []
without name (n ∷ ns) = let rest = without name ns in if bytes_eq n name then ns else n ∷ rest

length-without :
    (name : List ℕ) (ns : List (List ℕ))
    → contains ns name ≡ true
    → length ns ≡ suc (length (without name ns))
unfolding contains
length-without name [] h = ground (arith, h)
length-without name (n ∷ ns) h = ground (arith, length-without name ns)

contains-without :
    (name other : List ℕ) (ns : List (List ℕ))
    → bytes_eq name other ≡ false
    → contains ns other ≡ true
    → contains (without name ns) other ≡ true
unfolding contains
contains-without name other [] d h = h
contains-without name other (n ∷ ns) d h = ground (
  arith,
  contains-without name other ns d,
  bytes_eq_iff n name,
  bytes_eq_iff n other,
  bytes_eq_iff name other,
)

module _ (parts : List ℕ × List ℕ) where
  -- The next `n` candidates from `index` on are in the set.
  abbrev Taken : ℕ → ℕ → List (List ℕ) → Type 0
  Taken zero index used = Unit
  Taken (suc n) index used =
      (contains used (candidate parts index) ≡ true) × Taken n (suc index) used

  Taken-without :
      (n i j : ℕ) (used : List (List ℕ))
      → i < j
      → j + n ≤ 10_000
      → Taken n j used
      → Taken n j (without (candidate parts i) used)
  Taken-without zero i j used h k t = tt
  Taken-without (suc n) i j used h k (t, ts) = (
    contains-without (candidate parts i) (candidate parts j) used
        (candidate_other parts i j h (omega arith)) t,
    Taken-without n i (suc j) used (omega arith) (omega arith) ts,
  )

  Taken-bound :
      (n index : ℕ) (used : List (List ℕ))
      → index + n ≤ 10_000
      → Taken n index used
      → n ≤ length used
  Taken-bound zero index used h t = omega arith
  Taken-bound (suc n) index used h (t, ts) = omega (
    arith,
    length-without (candidate parts index) used t,
    Taken-bound n (suc index) (without (candidate parts index) used) (omega arith)
        (Taken-without n index (suc index) used (omega arith) (omega arith) ts),
  )

  -- A name that is new, with the set that it is put into.
  abbrev Fresh : List (List ℕ) → Result (List ℕ) × List (List ℕ) → Type 0
  Fresh used r = (name : List ℕ) × (r ≡ (ok name, name ∷ used)) × (contains used name ≡ false)

  try_names-Fresh :
      (n index : ℕ) (used : List (List ℕ))
      → Taken n index used ⊎ Fresh used (try_names n index parts used)
  unfolding try_names
  try_names-Fresh zero index used = inl tt
  try_names-Fresh (suc n) index used =
      next (Bool-cases (contains used (candidate parts index))) (try_names-Fresh n (suc index) used)
    where
      taken :
          contains used (candidate parts index) ≡ true
          → Taken n (suc index) used ⊎ Fresh used (try_names n (suc index) parts used)
          → Taken (suc n) index used ⊎ Fresh used (try_names (suc n) index parts used)
      taken e (inl ts) = inl (e, ts)
      taken e (inr (name, r, f)) = inr (name, rw e r, f)

      next :
          (contains used (candidate parts index) ≡ true)
            ⊎ (contains used (candidate parts index) ≡ false)
          → Taken n (suc index) used ⊎ Fresh used (try_names n (suc index) parts used)
          → Taken (suc n) index used ⊎ Fresh used (try_names (suc n) index parts used)
      next (inl e) c = taken e c
      next (inr e) c = inr (candidate parts index, rw e refl, e)

-- With fewer than 9,998 names in use every name gets a new one, which is put into the set, and the
-- loop over the candidates is never exhausted.
pub unique_zip_entry_name-Fresh :
    (name : List ℕ) (used : List (List ℕ))
    → length used < 9998
    → (new : List ℕ) × (unique_zip_entry_name name used ≡ (ok new, new ∷ used))
      × (contains used new ≡ false)
unfolding unique_zip_entry_name
unique_zip_entry_name-Fresh name used few =
    let normalized = slashes name in
    let parts = split_at normalized (last_dot normalized) in
    renamed (Bool-cases (contains used normalized)) (try_names-Fresh parts 9998 2 used)
  where
    renamed :
        let normalized = slashes name in
        let parts = split_at normalized (last_dot normalized) in
        (contains used normalized ≡ true) ⊎ (contains used normalized ≡ false)
        → Taken parts 9998 2 used ⊎ Fresh parts used (try_names 9998 2 parts used)
        → Fresh parts used (unique_zip_entry_name name used)
    renamed (inr e) c = (slashes name, rw e refl, e)
    renamed (inl e) (inl t) = absurd (
        omega (
          arith,
          Taken-bound (split_at (slashes name) (last_dot (slashes name))) 9998 2 used (omega arith)
              t,
        ))
    renamed (inl e) (inr (new, r, f)) = (new, rw e r, f)
