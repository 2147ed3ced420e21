-- ===== src/Server/Tofu/Digest.antt =====
-- The text of a digest in fingerprint.rs, written independently: two digests have the same text only if
-- they are the same.
use tracemux.Prelude.{
  ℕ, ◌+◌, ◌*◌, ◌-◌, ◌/◌, ◌%◌, ◌<◌, ◌≡◌, refl, sym, ap, ◌∙◌, List, [], ◌∷◌, Option, none, some, ltb,
  if◌then◌else◌, All, get_elem?, arith, Bool-cases, inl, inr,
}
use tracemux.Prelude.Bytes.{bytes_eq, bytes_eq_self, bytes_eq→eq}
use tracemux.Server.Tofu.{hex_digit, hex, fingerprint_der, PinFile}

-- 0123456789abcdef
abbrev pub letters : List ℕ
letters = 48 ∷ 49 ∷ 50 ∷ 51 ∷ 52 ∷ 53 ∷ 54 ∷ 55 ∷ 56 ∷ 57 ∷ 97 ∷ 98 ∷ 99 ∷ 100 ∷ 101 ∷ 102 ∷ []

abbrev pub or_zero : Option ℕ → ℕ
or_zero none = 0
or_zero (some n) = n

abbrev pub letter : ℕ → ℕ
letter n = or_zero (get_elem? letters n)

-- Two letters for every byte.
abbrev pub pairs : List ℕ → List ℕ
pairs [] = []
pairs (b ∷ bs) = letter (b / 16) ∷ letter (b % 16) ∷ pairs bs

-- `sha256:` and the letters
abbrev pub text_of : List ℕ → List ℕ
text_of digest = 115 ∷ 104 ∷ 97 ∷ 50 ∷ 53 ∷ 54 ∷ 58 ∷ pairs digest

abbrev pub AreBytes : List ℕ → Type 0
AreBytes = All (λ b. b < 256)

-- The value of a letter.
abbrev value : ℕ → ℕ
value c = if ltb c 58 then c - 48 else c - 87

value-hex_digit : (n : ℕ) → n < 16 → value (hex_digit n) ≡ n
unfolding hex_digit
value-hex_digit n h = ground (arith, h)

hex_digit-letter : (n : ℕ) → n < 16 → hex_digit n ≡ letter n
unfolding hex_digit
hex_digit-letter n h = grind (arith, h)

hex-pairs : (bs : List ℕ) → AreBytes bs → hex bs ≡ pairs bs
unfolding hex
hex-pairs [] h = refl
hex-pairs (b ∷ bs) h =
    rw (hex_digit-letter (b / 16) (omega (arith, h.0)))
      (rw (hex_digit-letter (b % 16) (omega arith)) (rw (hex-pairs bs h.1) refl))

abbrev unhex : List ℕ → List ℕ
unhex [] = []
unhex (c ∷ []) = []
unhex (c ∷ d ∷ cs) = (value c * 16 + value d) ∷ unhex cs

unhex-hex : (bs : List ℕ) → AreBytes bs → unhex (hex bs) ≡ bs
unfolding hex
unhex-hex [] h = refl
unhex-hex (b ∷ bs) h = rw (value-hex_digit (b / 16) (omega (arith, h.0))) (
    rw (value-hex_digit (b % 16) (omega arith))
      (rw (unhex-hex bs h.1) (ap (λ x. x ∷ bs) (omega arith))))

hex_other :
    (xs ys : List ℕ) → AreBytes xs → AreBytes ys → bytes_eq (hex xs) (hex ys) ≡ bytes_eq xs ys
hex_other xs ys h k = elim (Bool-cases (bytes_eq (hex xs) (hex ys))) [
  | inl e ↦
      (let same : xs ≡ ys =
          sym (unhex-hex xs h) ∙ ap unhex (bytes_eq→eq (hex xs) (hex ys) e) ∙ unhex-hex ys k in
        e ∙ sym (bytes_eq_self ys) ∙ ap (λ zs. bytes_eq zs ys) (sym same))
  | inr e ↦ elim (Bool-cases (bytes_eq xs ys)) [
    | inl same ↦
        ap (λ zs. bytes_eq (hex zs) (hex ys)) (bytes_eq→eq xs ys same)
        ∙ bytes_eq_self (hex ys)
        ∙ sym same
    | inr other ↦ e ∙ sym other
  ]
]

module _ (sha256 : List ℕ → List ℕ) (to_vec_pretty : PinFile → Option (List ℕ))
    (from_slice : List ℕ → Option PinFile) (digests : (x : List ℕ) → AreBytes (sha256 x)) where
  pub fingerprint_der-text_of :
      (cert : List ℕ) → fingerprint_der sha256 to_vec_pretty from_slice cert ≡ text_of (sha256 cert)
  unfolding fingerprint_der
  fingerprint_der-text_of cert =
      ap (λ t. 115 ∷ 104 ∷ 97 ∷ 50 ∷ 53 ∷ 54 ∷ 58 ∷ t) (hex-pairs (sha256 cert) (digests cert))

  -- Fingerprints agree exactly where digests do.
  pub bytes_eq-fingerprint_der :
      (a b : List ℕ)
      → bytes_eq
          (fingerprint_der sha256 to_vec_pretty from_slice a)
          (fingerprint_der sha256 to_vec_pretty from_slice b)
        ≡ bytes_eq (sha256 a) (sha256 b)
  unfolding fingerprint_der bytes_eq
  bytes_eq-fingerprint_der a b = hex_other (sha256 a) (sha256 b) (digests a) (digests b)
