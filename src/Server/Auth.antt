-- ===== src/Server/Auth.antt =====
-- crates/server/src/auth.rs and `check_auth` of ws.rs: bearer tokens, and the peers that need none.
-- Texts are code points. argon2 is the parameters `parse` (`PasswordHash::new`) and `verify_password`.
pub mod Access
use tracemux.Prelude.{
  ℕ, List, [], ◌∷◌, ◌++◌, Option, none, some, Bool, true, false, ◌&&◌, ◌==◌, if◌then◌else◌,
}
use tracemux.Prelude.Text.{trim}

-- `AuthError`, without the failure of a fresh hash; every one has the id E-2101
pub data AuthError : Type 0 where
  rejected invalid_hash : AuthError

pub data Outcome (A : Type 0) : Type 0 where
  ok : A → Outcome A
  err : AuthError → Outcome A

-- `AuthOutcome`; the text of a refusal is for people
pub data AuthOutcome : Type 0 where
  bearer loopback_no_auth bearer_rejected no_bearer : AuthOutcome

-- `IpAddr`: four bytes, or a number of 128 bits
pub data IpAddr : Type 0 where
  v4 : ℕ → ℕ → ℕ → ℕ → IpAddr
  v6 : ℕ → IpAddr

-- `is_loopback_allowed`
unfoldable pub is_loopback_allowed : IpAddr → Bool
is_loopback_allowed (v4 a b c d) = a == 127
is_loopback_allowed (v6 n) = n == 1

-- `BEARER_PREFIX`, "bearer."
abbrev pub bearer_prefix : List ℕ
bearer_prefix = 98 ∷ 101 ∷ 97 ∷ 114 ∷ 101 ∷ 114 ∷ 46 ∷ []

-- `split(',')`: the characters before the first comma, and the later parts
abbrev pub head_part : ℕ → List (List ℕ) → List (List ℕ)
head_part c [] = (c ∷ []) ∷ []
head_part c (p ∷ ps) = (c ∷ p) ∷ ps

unfoldable pub split : List ℕ → List (List ℕ)
split [] = [] ∷ []
split (c ∷ cs) = let rest = split cs in if c == 44 then [] ∷ rest else head_part c rest

-- `strip_prefix`
unfoldable pub strip_prefix : List ℕ → List ℕ → Option (List ℕ)
strip_prefix [] s = some s
strip_prefix (p ∷ ps) [] = none
strip_prefix (p ∷ ps) (c ∷ cs) = let rest = strip_prefix ps cs in if p == c then rest else none

-- `find_map`
abbrev pub or_else : Option (List ℕ) → Option (List ℕ) → Option (List ℕ)
or_else none o = o
or_else (some t) o = some t

unfoldable pub find_token : List (List ℕ) → Option (List ℕ)
unfolding strip_prefix
find_token [] = none
find_token (p ∷ ps) = or_else (strip_prefix bearer_prefix (trim p)) (find_token ps)

-- `extract_bearer`
unfoldable pub extract_bearer : List ℕ → Option (List ℕ)
unfolding find_token split
extract_bearer header_value = find_token (split header_value)

module _ (Hash : Type 0) (parse : List ℕ → Option Hash)
    (verify_password : List ℕ → Hash → Bool) where
  -- `BearerVerifier::add_phc`; the verifier is its list of hashes
  abbrev pub add_parsed : List ℕ → Option Hash → List (List ℕ) → Outcome (Unit {0}) × List (List ℕ)
  add_parsed phc none hashes = (err invalid_hash, hashes)
  add_parsed phc (some h) hashes = (ok tt, hashes ++ (phc ∷ []))

  unfoldable pub add_phc : List ℕ → List (List ℕ) → Outcome (Unit {0}) × List (List ℕ)
  add_phc phc hashes = add_parsed phc (parse phc) hashes

  -- `BearerVerifier::verify`
  abbrev pub try_hash : List ℕ → Option Hash → Outcome (Unit {0}) → Outcome (Unit {0})
  try_hash token none rest = err invalid_hash
  try_hash token (some h) rest = if verify_password token h then ok tt else rest

  unfoldable pub verify : List ℕ → List (List ℕ) → Outcome (Unit {0})
  verify token [] = err rejected
  verify token (h ∷ hs) = try_hash token (parse h) (verify token hs)

  -- `check_auth`
  abbrev pub answer : Outcome (Unit {0}) → AuthOutcome
  answer (ok _) = bearer
  answer (err e) = bearer_rejected

  abbrev pub without_token : IpAddr → Bool → AuthOutcome
  without_token peer no_auth =
      if no_auth && is_loopback_allowed peer then loopback_no_auth else no_bearer

  abbrev pub with_token : Option (List ℕ) → IpAddr → List (List ℕ) → Bool → AuthOutcome
  with_token none peer hashes no_auth = without_token peer no_auth
  with_token (some token) peer hashes no_auth = answer (verify token hashes)

  abbrev pub token_of : Option (List ℕ) → Option (List ℕ)
  token_of none = none
  token_of (some h) = extract_bearer h

  unfoldable pub check_auth : Option (List ℕ) → IpAddr → List (List ℕ) → Bool → AuthOutcome
  check_auth header_value peer hashes no_auth =
      with_token (token_of header_value) peer hashes no_auth
