-- ===== src/Prelude/Bytes.antt =====
-- Words of byte strings: `to_le_bytes`, `from_le_bytes` and `from_be_bytes` of the integer types.
-- A byte is a number below 256.
use Prim.Native.Nat.{ℕ, zero, suc, ◌+◌, ◌*◌, ◌/◌, ◌%◌, ◌^◌, ◌<◌}
use mathlib.Core.Path.{◌≡◌, refl, ap, ap₂, ◌∙◌, subst}
use mathlib.Core.Bool.{Bool, true, false, ◌&&◌}
use mathlib.Core.List.{List, [], ◌∷◌}
use mathlib.Core.Logic.{◌↔◌}
use native.Mathlib.Nat.{pow-suc}
use native.Mathlib.Omega.{arith}
use tracemux.Prelude.Lists.{length, All}
use tracemux.Prelude.Tests.{◌==◌, Eq}

-- The `n` low bytes of `x`, the lowest first.
unfoldable pub to_le_bytes : ℕ → ℕ → List ℕ
to_le_bytes zero x = []
to_le_bytes (suc n) x = (x % 256) ∷ to_le_bytes n (x / 256)

unfoldable pub from_le_bytes : List ℕ → ℕ
from_le_bytes [] = 0
from_le_bytes (b ∷ bs) = b + 256 * from_le_bytes bs

-- The bytes read after `acc`, the highest first.
unfoldable pub from_be_bytes_acc : ℕ → List ℕ → ℕ
from_be_bytes_acc acc [] = acc
from_be_bytes_acc acc (b ∷ bs) = from_be_bytes_acc (acc * 256 + b) bs

unfoldable pub from_be_bytes : List ℕ → ℕ
from_be_bytes bs = from_be_bytes_acc 0 bs

-- The `n` low bytes of `x`, the highest first, in front of `rest`.
unfoldable pub to_be_bytes_onto : ℕ → ℕ → List ℕ → List ℕ
to_be_bytes_onto zero x rest = rest
to_be_bytes_onto (suc n) x rest = to_be_bytes_onto n (x / 256) ((x % 256) ∷ rest)

unfoldable pub to_be_bytes : ℕ → ℕ → List ℕ
to_be_bytes n x = to_be_bytes_onto n x []

pub length-to_le_bytes : (n x : ℕ) → length (to_le_bytes n x) ≡ n
unfolding to_le_bytes
length-to_le_bytes zero x = refl
length-to_le_bytes (suc n) x = ap suc (length-to_le_bytes n (x / 256))

pub from_le_bytes-to_le_bytes : (n x : ℕ) → x < 256 ^ n → from_le_bytes (to_le_bytes n x) ≡ x
unfolding to_le_bytes from_le_bytes
from_le_bytes-to_le_bytes zero x h = omega arith
from_le_bytes-to_le_bytes (suc n) x h =
    omega (arith, from_le_bytes-to_le_bytes n (x / 256) (omega (arith, pow-suc 256 n)))

pub length-to_be_bytes_onto :
    (n x : ℕ) (rest : List ℕ) → length (to_be_bytes_onto n x rest) ≡ n + length rest
unfolding to_be_bytes_onto
length-to_be_bytes_onto zero x rest = omega arith
length-to_be_bytes_onto (suc n) x rest =
    omega (arith, length-to_be_bytes_onto n (x / 256) ((x % 256) ∷ rest))

pub length-to_be_bytes : (n x : ℕ) → length (to_be_bytes n x) ≡ n
unfolding to_be_bytes
length-to_be_bytes n x = omega (arith, length-to_be_bytes_onto n x [])

from_be_bytes_acc-to_be_bytes_onto :
    (n x acc : ℕ) (rest : List ℕ)
    → x < 256 ^ n
    → from_be_bytes_acc acc (to_be_bytes_onto n x rest) ≡ from_be_bytes_acc (acc * 256 ^ n + x) rest
unfolding to_be_bytes_onto from_be_bytes_acc
from_be_bytes_acc-to_be_bytes_onto zero x acc rest h =
    ap (λ a. from_be_bytes_acc a rest) (omega arith)
from_be_bytes_acc-to_be_bytes_onto (suc n) x acc rest h =
    from_be_bytes_acc-to_be_bytes_onto n (x / 256) acc ((x % 256) ∷ rest)
      (omega (arith, pow-suc 256 n))
    ∙ ap (λ a. from_be_bytes_acc a rest) (omega (arith, ap (λ (t : ℕ). acc * t) (pow-suc 256 n)))

pub from_be_bytes-to_be_bytes : (n x : ℕ) → x < 256 ^ n → from_be_bytes (to_be_bytes n x) ≡ x
unfolding to_be_bytes from_be_bytes from_be_bytes_acc
from_be_bytes-to_be_bytes n x h = omega (arith, from_be_bytes_acc-to_be_bytes_onto n x 0 [] h)

-- `==` on byte slices.
unfoldable pub bytes_eq : List ℕ → List ℕ → Bool
bytes_eq [] [] = true
bytes_eq (a ∷ as') (b ∷ bs) = a == b && bytes_eq as' bs
bytes_eq _ _ = false

pub bytes_eq_self : (xs : List ℕ) → bytes_eq xs xs ≡ true
unfolding bytes_eq
bytes_eq_self [] = refl
bytes_eq_self (x ∷ xs) = ground (arith, bytes_eq_self xs)

pub bytes_eq→eq : (xs ys : List ℕ) → bytes_eq xs ys ≡ true → xs ≡ ys
unfolding bytes_eq
bytes_eq→eq [] [] h = refl
bytes_eq→eq [] (y ∷ ys) h = cc
bytes_eq→eq (x ∷ xs) [] h = cc
bytes_eq→eq (x ∷ xs) (y ∷ ys) h = ground (arith, bytes_eq→eq xs ys)

-- Every element is a byte.
abbrev pub IsBytes : List ℕ → Type 0
IsBytes = All (λ b. b < 256)

pub to_le_bytes-from_le_bytes :
    (xs : List ℕ) → IsBytes xs → to_le_bytes (length xs) (from_le_bytes xs) ≡ xs
unfolding to_le_bytes from_le_bytes
to_le_bytes-from_le_bytes [] h = refl
to_le_bytes-from_le_bytes (x ∷ xs) h =
    ap₂ ◌∷◌ (omega arith)
      (ap (to_le_bytes (length xs)) (omega arith) ∙ to_le_bytes-from_le_bytes xs h.1)

pub to_le_bytes-IsBytes : (n x : ℕ) → IsBytes (to_le_bytes n x)
unfolding to_le_bytes
to_le_bytes-IsBytes zero x = tt
to_le_bytes-IsBytes (suc n) x = (omega arith, to_le_bytes-IsBytes n (x / 256))

pub bytes_eq_iff : (xs ys : List ℕ) → (bytes_eq xs ys ≡ true) ↔ (xs ≡ ys)
bytes_eq_iff xs ys =
    (bytes_eq→eq xs ys, λ e. subst (λ zs. bytes_eq xs zs ≡ true) e (bytes_eq_self xs))

-- Byte strings and texts, as lists of code points, are keys of maps.
instance abbrev pub bytes_key : Eq (List ℕ)
bytes_key = record { beq = bytes_eq; beq_iff = bytes_eq_iff }
