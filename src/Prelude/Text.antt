-- ===== src/Prelude/Text.antt =====
-- Texts as lists of code points: `str::trim` and the tests that it makes.
use Prim.Native.Nat.{ℕ}
use mathlib.Core.Path.{◌≡◌, refl}
use mathlib.Core.Bool.{Bool, true, false, ◌&&◌, ◌||◌}
use mathlib.Core.List.{List, [], ◌∷◌}
use native.Mathlib.Omega.{arith}
use tracemux.Prelude.Tests.{leb, ◌==◌, if◌then◌else◌}

-- `char::is_whitespace`
unfoldable pub whitespace : ℕ → Bool
whitespace c =
    ((leb 9 c && leb c 13) || (c == 32 || (c == 133 || (c == 160 || c == 5760))))
    || ((leb 8192 c && leb c 8202)
        || (c == 8232 || (c == 8233 || (c == 8239 || (c == 8287 || c == 12288)))))

unfoldable pub is_empty : List ℕ → Bool
is_empty [] = true
is_empty (c ∷ cs) = false

unfoldable pub trim_start : List ℕ → List ℕ
trim_start [] = []
trim_start (c ∷ cs) = if whitespace c then trim_start cs else c ∷ cs

unfoldable pub trim_end : List ℕ → List ℕ
unfolding is_empty
trim_end [] = []
trim_end (c ∷ cs) = let rest = trim_end cs in if is_empty rest && whitespace c then [] else c ∷ rest

-- `str::trim`
unfoldable pub trim : List ℕ → List ℕ
trim s = trim_end (trim_start s)

-- A text that does not begin or end in white space, and is not empty.
abbrev pub StartsInk : List ℕ → Type 0
StartsInk [] = ⊥
StartsInk (c ∷ cs) = whitespace c ≡ false

abbrev pub EndsInk : List ℕ → Type 0
EndsInk [] = ⊥
EndsInk (c ∷ []) = whitespace c ≡ false
EndsInk (c ∷ d ∷ cs) = EndsInk (d ∷ cs)

trim_end_ink : (s : List ℕ) → EndsInk s → trim_end s ≡ s
unfolding trim_end is_empty
trim_end_ink [] h = elim h [ ]
trim_end_ink (c ∷ []) h = ground (arith, h)
trim_end_ink (c ∷ d ∷ cs) h = ground (arith, trim_end_ink (d ∷ cs) h)

pub trim_ink : (s : List ℕ) → StartsInk s → EndsInk s → trim s ≡ s
unfolding trim trim_start
trim_ink [] h k = elim h [ ]
trim_ink (c ∷ cs) h k = rw h (trim_end_ink (c ∷ cs) k)

pub is_empty_ink : (s : List ℕ) → StartsInk s → is_empty s ≡ false
unfolding is_empty
is_empty_ink [] h = elim h [ ]
is_empty_ink (c ∷ cs) h = refl
