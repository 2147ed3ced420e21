-- ===== src/Server/Auth/Access.antt =====
-- Who is let in by auth.rs and `check_auth` of ws.rs.
use tracemux.Prelude.{
  ℕ, ◌≡◌, List, [], ◌∷◌, ◌++◌, Option, none, some, Bool, true, false, ◌&&◌, ◌||◌, ◌==◌,
  if◌then◌else◌, All, ◌+◌, ◌*◌, ◌^◌, ◌<◌, leb, ltb, take, drop,
}
use tracemux.Prelude.Bytes.{bytes_eq}
use tracemux.Prelude.Text.{trim}
use tracemux.Server.Auth.{
  AuthOutcome, bearer, loopback_no_auth, bearer_rejected, no_bearer, IpAddr, v4, v6, add_phc,
}

-- Protocols in a row, with a comma between two.
abbrev pub join : List ℕ → List (List ℕ) → List ℕ
join p [] = p
join p (q ∷ ps) = p ++ (44 ∷ join q ps)

abbrev pub NoComma : List ℕ → Type 0
NoComma = All (λ c. (c == 44) ≡ false)

-- 127.0.0.0/8 by the number of the address, and ::1.
abbrev pub from_loopback : IpAddr → Bool
from_loopback (v4 a b c d) =
    let n = a * 2 ^ 24 + b * 2 ^ 16 + c * 2 ^ 8 + d in leb (127 * 2 ^ 24) n && ltb n (128 * 2 ^ 24)
from_loopback (v6 n) = n == 1

-- The parts of an address are bytes.
abbrev pub IsAddress : IpAddr → Type 0
IsAddress (v4 a b c d) = (a < 256) × (b < 256) × (c < 256) × (d < 256)
IsAddress (v6 n) = n < 2 ^ 128

-- What stands behind `bearer.` in the first protocol that begins with it.
abbrev pub first_token : List (List ℕ) → Option (List ℕ)
first_token [] = none
first_token (p ∷ ps) =
    if bytes_eq (take 7 (trim p)) (98 ∷ 101 ∷ 97 ∷ 114 ∷ 101 ∷ 114 ∷ 46 ∷ [])
    then some (drop 7 (trim p))
    else first_token ps

module _ {Hash : Type 0} (parse : List ℕ → Option Hash)
    (verify_password : List ℕ → Hash → Bool) where
  -- The verifier after the hashes were added, each that is refused being left out.
  abbrev pub added : List (List ℕ) → List (List ℕ) → List (List ℕ)
  added [] hashes = hashes
  added (phc ∷ phcs) hashes = added phcs (add_phc Hash parse verify_password phc hashes).1

  -- A hash among them that can be read fits the token.
  abbrev pub fits : List ℕ → Option Hash → Bool
  fits token none = false
  fits token (some h) = verify_password token h

  abbrev pub any_fits : List ℕ → List (List ℕ) → Bool
  any_fits token [] = false
  any_fits token (phc ∷ phcs) = fits token (parse phc) || any_fits token phcs

  abbrev is_read : Option Hash → Bool
  is_read none = false
  is_read (some h) = true

  abbrev Reads : List ℕ → Type 0
  Reads phc = is_read (parse phc) ≡ true

  -- Who is let in: with a token, who has one that fits a hash; without, who is allowed to by the
  -- address.
  abbrev pub expected : List (List ℕ) → IpAddr → Bool → Option (List ℕ) → AuthOutcome
  expected phcs peer no_auth none =
      if no_auth && from_loopback peer then loopback_no_auth else no_bearer
  expected phcs peer no_auth (some token) = if any_fits token phcs then bearer else bearer_rejected
