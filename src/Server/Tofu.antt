-- ===== src/Server/Tofu.antt =====
-- crates/server/src/fingerprint.rs: the certificates that are trusted on first use. Texts are code
-- points. SHA-256 (`sha256`) and serde_json (`to_vec_pretty`, `from_slice`) are parameters; of the
-- file system there is the pin file, which may be missing.
pub mod Digest
pub mod Trust
use tracemux.Prelude.{
  ℕ, ◌+◌, ◌/◌, ◌%◌, List, [], ◌∷◌, ◌++◌, Option, none, some, Bool, true, false, length, take, ltb,
  ◌==◌, if◌then◌else◌, Eq,
}
use tracemux.Prelude.Bytes.{bytes_key, bytes_eq}
use tracemux.Prelude.Maps.{HashMap, lookup, insert}

-- `PinFile`
pub record PinFile : Type 0 where
  pub schema : List ℕ
  pub pins : HashMap (List ℕ) (List ℕ)

-- `SCHEMA`, "tracemux/tofu/v1"
abbrev pub schema_v1 : List ℕ
schema_v1 =
    116 ∷ 114 ∷ 97 ∷ 99 ∷ 101 ∷ 109 ∷ 117 ∷ 120 ∷ 47 ∷ 116 ∷ 111 ∷ 102 ∷ 117 ∷ 47 ∷ 118 ∷ 49 ∷ []

-- `PinFile::empty`
abbrev pub empty_file : PinFile
empty_file = record { schema = schema_v1; pins = [] }

-- `PinStore`, with the bytes of the file at its path
pub record PinStore : Type 0 where
  pub disk : Option (List ℕ)
  pub inner : PinFile

-- `FingerprintError`; every one has the id E-2103
pub data FingerprintError : Type 0 where
  io json schema_mismatch : FingerprintError
  mismatch : List ℕ → List ℕ → FingerprintError

-- `PinOutcome`
pub data PinOutcome : Type 0 where
  pinned matched : PinOutcome

pub data Outcome (A : Type 0) : Type 0 where
  ok : A → Outcome A
  err : FingerprintError → Outcome A

-- How a save ends in the file system: done; refused before the file is touched; or broken off with
-- some of the new bytes in the file.
pub data Write : Type 0 where
  done untouched : Write
  cut : ℕ → Write

-- `{:x}` of half a byte
unfoldable pub hex_digit : ℕ → ℕ
hex_digit n = if ltb n 10 then 48 + n else 87 + n

-- `{b:02x}` of every byte
unfoldable pub hex : List ℕ → List ℕ
unfolding hex_digit
hex [] = []
hex (b ∷ bs) = hex_digit (b / 16) ∷ hex_digit (b % 16) ∷ hex bs

module _ (sha256 : List ℕ → List ℕ) (to_vec_pretty : PinFile → Option (List ℕ))
    (from_slice : List ℕ → Option PinFile) where
  -- `fingerprint_der`
  unfoldable pub fingerprint_der : List ℕ → List ℕ
  fingerprint_der cert = (115 ∷ 104 ∷ 97 ∷ 50 ∷ 53 ∷ 54 ∷ 58 ∷ []) ++ hex (sha256 cert)

  -- `PinStore::open`, where the file can be read
  abbrev pub check_schema : Option PinFile → List ℕ → Outcome PinStore
  check_schema none bytes = err json
  check_schema (some pf) bytes =
      if bytes_eq pf.schema schema_v1
      then ok (record { disk = some bytes; inner = pf })
      else err schema_mismatch

  unfoldable pub open_store : Option (List ℕ) → Outcome PinStore
  open_store none = ok (record { disk = none; inner = empty_file })
  open_store (some bytes) = check_schema (from_slice bytes) bytes

  -- `PinStore::get`
  unfoldable pub get : List ℕ → PinStore → Option (List ℕ)
  get host s = lookup host s.inner.pins

  -- `PinStore::len` and `PinStore::is_empty`
  unfoldable pub len : PinStore → ℕ
  len s = length s.inner.pins

  unfoldable pub is_empty : PinStore → Bool
  is_empty s = length s.inner.pins == 0

  -- `PinStore::save`
  abbrev pub write : Write → Option (List ℕ) → PinStore → Outcome (Unit {0}) × PinStore
  write w none s = (err json, s)
  write done (some bytes) s = (ok tt, record s { disk = some bytes })
  write untouched (some bytes) s = (err io, s)
  write (cut k) (some bytes) s = (err io, record s { disk = some (take k bytes) })

  unfoldable pub save : Write → PinStore → Outcome (Unit {0}) × PinStore
  save w s = write w (to_vec_pretty s.inner) s

  -- `self.save()?`, and what comes of it
  abbrev pub then_say : {A B : Type 0} → B → Outcome A × PinStore → Outcome B × PinStore
  then_say b (ok a, s) = (ok b, s)
  then_say b (err e, s) = (err e, s)

  -- `self.inner.pins.insert`
  abbrev pub insert_pin : List ℕ → List ℕ → PinStore → PinStore
  insert_pin host fp s = record s { inner = record s.inner { pins = insert host fp s.inner.pins } }

  -- `PinStore::verify_or_pin`, on what is pinned
  abbrev pub compare_pin :
      Write → List ℕ → List ℕ → Option (List ℕ) → PinStore → Outcome PinOutcome × PinStore
  compare_pin w host fp (some old) s =
      (if bytes_eq old fp then ok matched else err (mismatch old fp), s)
  compare_pin w host fp none s = then_say pinned (save w (insert_pin host fp s))

  unfoldable pub verify_or_pin : Write → List ℕ → List ℕ → PinStore → Outcome PinOutcome × PinStore
  verify_or_pin w host cert s =
      compare_pin w host (fingerprint_der cert) (lookup host s.inner.pins) s

  -- `PinStore::force_pin`
  unfoldable pub force_pin : Write → List ℕ → List ℕ → PinStore → Outcome (Unit {0}) × PinStore
  force_pin w host fp s = save w (insert_pin host fp s)
