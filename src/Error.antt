-- ===== src/Error.antt =====
-- crates/core/src/error_id.rs: the stable error codes, and the results of fallible code.
-- A `TraceMuxError` is modelled by its id: the message is text for people, and no code reads it.
pub mod Codes
use tracemux.Prelude.{ℕ, String, ◌≡◌, refl, Option, none, some, Bool, true, false}

-- `ErrorId`
pub data ErrorId : Type 0 where
  pipeline_generic backpressure framer_overflow : ErrorId
  source_open source_closed pcap_backend_unavailable pcap_permission_denied : ErrorId
  pcap_invalid_filter pcap_interface_unavailable : ErrorId
  decoder_schema wal_fsync rotate_fail wire_malformed wire_limit : ErrorId
  auth_rejected tls_handshake tofu_mismatch : ErrorId

-- `ErrorId::code`
unfoldable pub code : ErrorId → String
code pipeline_generic = "E-1001"
code backpressure = "E-1002"
code framer_overflow = "E-1003"
code source_open = "E-1101"
code source_closed = "E-1102"
code pcap_backend_unavailable = "E-1103"
code pcap_permission_denied = "E-1104"
code pcap_invalid_filter = "E-1105"
code pcap_interface_unavailable = "E-1106"
code decoder_schema = "E-1301"
code wal_fsync = "E-1401"
code rotate_fail = "E-1402"
code wire_malformed = "E-2001"
code wire_limit = "E-2002"
code auth_rejected = "E-2101"
code tls_handshake = "E-2102"
code tofu_mismatch = "E-2103"

-- `Result<T, TraceMuxError>`
pub data Result {ℓ} (A : Type ℓ) : Type ℓ where
  ok : A → Result A
  err : ErrorId → Result A

infixl 5 ◌>>=◌ ◌>>◌
abbrev pub ◌>>=◌ {ℓ κ} : {A : Type ℓ} {B : Type κ} → Result A → (A → Result B) → Result B
ok a >>= f = f a
err e >>= f = err e

abbrev pub ◌>>◌ {ℓ κ} : {A : Type ℓ} {B : Type κ} → Result A → Result B → Result B
m >> k = m >>= λ _. k
