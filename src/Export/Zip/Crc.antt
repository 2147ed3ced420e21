-- ===== src/Export/Zip/Crc.antt =====
-- The checksum of export_api.rs is a word of 32 bits.
use Prim.Native.Nat.{bit_xor, bit_xor-bitwise, digits, differ}
use native.Mathlib.Nat.{pow-suc}
use tracemux.Prelude.{ℕ, zero, suc, ◌/◌, ◌%◌, ◌^◌, ◌<◌, subst, List, [], ◌∷◌, arith, sym}
use tracemux.Prelude.Bytes.{IsBytes}
use tracemux.Export.Zip.{shift, shifts, crc_bytes, crc32}

differ_bit : (x y : ℕ) → x < 2 → y < 2 → differ x y < 2
differ_bit zero y hx hy = hy
differ_bit (suc x) zero hx hy = hx
differ_bit (suc x) (suc y) hx hy = differ_bit x y (omega arith) (omega arith)

digits_bound : (k n a b : ℕ) → a < 2 ^ k → b < 2 ^ k → digits (λ b. b) differ n a b < 2 ^ k
digits_bound k zero a b ha hb = hb
digits_bound k (suc n) zero b ha hb = hb
digits_bound zero (suc n) (suc a) b ha hb = absurd (omega arith)
digits_bound (suc k) (suc n) (suc a) b ha hb = omega (
  arith,
  digits_bound k n (suc a / 2) (b / 2) (omega (arith, pow-suc 2 k)) (omega (arith, pow-suc 2 k)),
  differ_bit (suc a % 2) (b % 2) (omega arith) (omega arith),
  pow-suc 2 k,
)

bit_xor_bound : (k a b : ℕ) → a < 2 ^ k → b < 2 ^ k → bit_xor a b < 2 ^ k
bit_xor_bound k a b ha hb =
    subst (λ x. x < 2 ^ k) (sym (bit_xor-bitwise a b)) (digits_bound k a a b ha hb)

bit_xor_word : (a b : ℕ) → a < 2 ^ 32 → b < 2 ^ 32 → bit_xor a b < 2 ^ 32
bit_xor_word a b ha hb = bit_xor_bound 32 a b ha hb

shift_word : (crc : ℕ) → crc < 2 ^ 32 → shift crc < 2 ^ 32
unfolding shift
shift_word crc h = ground (arith, bit_xor_word 0xedb88320 (crc / 2) (omega arith) (omega arith))

shifts_word : (n crc : ℕ) → crc < 2 ^ 32 → shifts n crc < 2 ^ 32
unfolding shifts
shifts_word zero crc h = h
shifts_word (suc n) crc h = shifts_word n (shift crc) (shift_word crc h)

crc_bytes_word : (bs : List ℕ) (crc : ℕ) → IsBytes bs → crc < 2 ^ 32 → crc_bytes crc bs < 2 ^ 32
unfolding crc_bytes
crc_bytes_word [] crc hb h = h
crc_bytes_word (b ∷ bs) crc hb h =
    crc_bytes_word bs (shifts 8 (bit_xor crc b)) hb.1
      (shifts_word 8 (bit_xor crc b) (bit_xor_word crc b h (omega (arith, hb.0))))

-- The checksum of bytes is below 2 ^ 32.
pub crc32_word : (bs : List ℕ) → IsBytes bs → crc32 bs < 2 ^ 32
unfolding crc32
crc32_word bs h =
    bit_xor_word (crc_bytes 0xffffffff bs) 0xffffffff (crc_bytes_word bs 0xffffffff h (omega arith))
      (omega arith)
