-- ===== src/Error/Codes.antt =====
-- The codes of crates/core/src/error_id.rs are all different.
use tracemux.Prelude.{
  String, ◌≡◌, refl, ap, sym, ◌∙◌, Option, none, some, string_eq, if◌then◌else◌, arith,
}
use tracemux.Error.{
  ErrorId, code, pipeline_generic, backpressure, framer_overflow, source_open, source_closed,
  pcap_backend_unavailable, pcap_permission_denied, pcap_invalid_filter, pcap_interface_unavailable,
  decoder_schema, wal_fsync, rotate_fail, wire_malformed, wire_limit, auth_rejected, tls_handshake,
  tofu_mismatch,
}

-- The error that a code stands for.
abbrev id_of : String → Option ErrorId
id_of s =
    if string_eq.beq s "E-1001"
    then some pipeline_generic
    else if string_eq.beq s "E-1002"
    then some backpressure
    else if string_eq.beq s "E-1003"
    then some framer_overflow
    else if string_eq.beq s "E-1101"
    then some source_open
    else if string_eq.beq s "E-1102"
    then some source_closed
    else if string_eq.beq s "E-1103"
    then some pcap_backend_unavailable
    else if string_eq.beq s "E-1104"
    then some pcap_permission_denied
    else if string_eq.beq s "E-1105"
    then some pcap_invalid_filter
    else if string_eq.beq s "E-1106"
    then some pcap_interface_unavailable
    else if string_eq.beq s "E-1301"
    then some decoder_schema
    else if string_eq.beq s "E-1401"
    then some wal_fsync
    else if string_eq.beq s "E-1402"
    then some rotate_fail
    else if string_eq.beq s "E-2001"
    then some wire_malformed
    else if string_eq.beq s "E-2002"
    then some wire_limit
    else if string_eq.beq s "E-2101"
    then some auth_rejected
    else if string_eq.beq s "E-2102"
    then some tls_handshake
    else if string_eq.beq s "E-2103"
    then some tofu_mismatch
    else none

id_of-code : (e : ErrorId) → id_of (code e) ≡ some e
unfolding code
id_of-code pipeline_generic = refl
id_of-code backpressure = refl
id_of-code framer_overflow = refl
id_of-code source_open = refl
id_of-code source_closed = refl
id_of-code pcap_backend_unavailable = refl
id_of-code pcap_permission_denied = refl
id_of-code pcap_invalid_filter = refl
id_of-code pcap_interface_unavailable = refl
id_of-code decoder_schema = refl
id_of-code wal_fsync = refl
id_of-code rotate_fail = refl
id_of-code wire_malformed = refl
id_of-code wire_limit = refl
id_of-code auth_rejected = refl
id_of-code tls_handshake = refl
id_of-code tofu_mismatch = refl

some-inj : {a b : ErrorId} → some a ≡ some b → a ≡ b
some-inj h = ground arith

-- Two errors with the same code are the same error.
pub code-inj : (a b : ErrorId) → code a ≡ code b → a ≡ b
code-inj a b h = some-inj (sym (id_of-code a) ∙ ap id_of h ∙ id_of-code b)
