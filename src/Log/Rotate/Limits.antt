-- ===== src/Log/Rotate/Limits.antt =====
-- When rotate.rs rotates, and what its names are made of.
use tracemux.Prelude.{
  ℕ, ◌≤◌, ◌≡◌, ◌⊎◌, ◌↔◌, ap₂, inl, inr, refl, List, [], ◌∷◌, Option, none, some, Bool, true, false,
  if◌then◌else◌, arith, map, All, length,
}
use tracemux.Log.Rotate.{
  RotatePolicy, RotateStats, reaches, should_rotate, keeps, safe_char, sanitize_iface,
}

-- A limit is set and the value is at it or past it.
abbrev pub AtLimit : ℕ → Option ℕ → Type 0
AtLimit value limit = (n : ℕ) × (limit ≡ some n) × (n ≤ value)

reaches_iff : (value : ℕ) (limit : Option ℕ) → (reaches value limit ≡ true) ↔ AtLimit value limit
unfolding reaches
reaches_iff value none = (λ h. ground arith, λ h. ground (arith, h.1))
reaches_iff value (some limit) = (λ h. (limit, refl, ground arith), λ h. ground (arith, h.1, h.2))

either :
    {P Q : Type 0} (a b : Bool)
    → (a ≡ true) ↔ P
    → (b ≡ true) ↔ Q
    → ((if a then true else if b then true else false) ≡ true) ↔ (P ⊎ Q)
either true b p q = (λ h. inl (p.0 refl), λ h. refl)
either false true p q = (λ h. inr (q.0 refl), λ h. refl)
either false false p q = (λ h. ground arith, λ h. elim h [ inl x ↦ p.1 x | inr y ↦ q.1 y ])

-- A session is rotated exactly when its size or its age is at or past a limit that is set. So one
-- that is to be rotated still is when it has grown and aged, and without limits none ever is.
pub should_rotate_iff :
    (stats : RotateStats) (policy : RotatePolicy)
    → (should_rotate stats policy ≡ true)
      ↔ (AtLimit stats.size_bytes policy.size_bytes ⊎ AtLimit stats.age policy.duration)
unfolding should_rotate
should_rotate_iff stats policy =
    either (reaches stats.size_bytes policy.size_bytes) (reaches stats.age policy.duration)
      (reaches_iff stats.size_bytes policy.size_bytes) (reaches_iff stats.age policy.duration)

safe_char-keeps : (c : ℕ) → keeps (safe_char c) ≡ true
unfolding safe_char keeps
safe_char-keeps c = ground arith

kept_char : (c : ℕ) → keeps c ≡ true → safe_char c ≡ c
unfolding safe_char keeps
kept_char c h = ground (arith, h)

All-kept : (s : List ℕ) → All (λ c. keeps c ≡ true) (map safe_char s)
All-kept [] = tt
All-kept (c ∷ cs) = (safe_char-keeps c, All-kept cs)

map_kept : (s : List ℕ) → All (λ c. keeps c ≡ true) s → map safe_char s ≡ s
map_kept [] h = refl
map_kept (c ∷ cs) h = ap₂ (◌∷◌) (kept_char c h.0) (map_kept cs h.1)

-- Every character of a sanitised interface is one that the names keep, there is at least one, and
-- an interface of such characters is left as it is, but for the empty one.
pub sanitize_iface_lem :
    (s : List ℕ)
    → All (λ c. keeps c ≡ true) (sanitize_iface s)
      × (1 ≤ length (sanitize_iface s))
      × ((1 ≤ length s) → All (λ c. keeps c ≡ true) s → sanitize_iface s ≡ s)
unfolding sanitize_iface
sanitize_iface_lem [] = (unfold keeps in ground arith, omega arith, λ h. ground arith)
sanitize_iface_lem (c ∷ cs) = (All-kept (c ∷ cs), omega arith, λ h kept. map_kept (c ∷ cs) kept)
