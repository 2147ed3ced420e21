-- ===== src/Exporter/Pcapng/Metadata.antt =====
-- crates/core/src/exporter/pcapng.rs: which rows of a session are packets, and what is known of them. The
-- JSON of a record's fields is seen by what is asked of it.
use tracemux.Prelude.{
  ℕ, ◌^◌, List, [], ◌∷◌, Option, none, some, Bool, true, false, ◌&&◌, ◌||◌, ltb, ◌==◌,
  if◌then◌else◌, ◌≡◌, ◌↔◌, Eq, arith,
}
use tracemux.Prelude.Bytes.{bytes_eq}
use tracemux.Prelude.Text.{is_empty}
use tracemux.Log.Index.{IndexEntry, Kind}
use tracemux.Log.Index
use tracemux.Exporter.Timestamp.{some_digits, strip_prefix}

-- tracemux.pcap.packet.v1, `PCAP_PACKET_SCHEMA_ID`
abbrev pub pcap_packet_schema_id : List ℕ
pcap_packet_schema_id =
    116 ∷ 114 ∷ 97 ∷ 99 ∷ 101 ∷ 109 ∷ 117 ∷ 120 ∷ 46 ∷ 112 ∷ 99 ∷ 97 ∷ 112 ∷ 46 ∷ 112 ∷ 97 ∷ 99
    ∷ 107 ∷ 101 ∷ 116 ∷ 46 ∷ 118 ∷ 49 ∷ []

-- pcap, and `pcap:`
abbrev pub pcap : List ℕ
pcap = 112 ∷ 99 ∷ 97 ∷ 112 ∷ []

abbrev pub pcap_colon : List ℕ
pcap_colon = 112 ∷ 99 ∷ 97 ∷ 112 ∷ 58 ∷ []

-- `Value`, of what is asked of it: a number, with what `as_u64` says of it, a text, or another
pub data Value : Type 0 where
  number : Option ℕ → Value
  text : List ℕ → Value
  another : Value

-- `PacketMetadata`
pub record PacketMetadata : Type 0 where
  pub raw_off : ℕ
  pub raw_len : ℕ
  pub captured_len : Option ℕ
  pub original_len : Option ℕ
  pub linktype : Option ℕ
  pub interface : Option (List ℕ)

-- The key `(raw_off, raw_len)`.
unfoldable pub pair_eq : ℕ × ℕ → ℕ × ℕ → Bool
pair_eq (a, b) (c, d) = a == c && b == d

pub pair_eq_iff : (p q : ℕ × ℕ) → (pair_eq p q ≡ true) ↔ (p ≡ q)
unfolding pair_eq
pair_eq_iff (a, b) (c, d) = ground arith

instance abbrev pub pair_key : Eq (ℕ × ℕ)
pair_key = record { beq = pair_eq; beq_iff = pair_eq_iff }

-- `s.parse::<u64>()`, which takes a plus sign
abbrev pub below : ℕ → Option ℕ → Option ℕ
below limit none = none
below limit (some n) = if ltb n limit then some n else none

unfoldable pub parse_u64 : List ℕ → Option ℕ
unfolding some_digits
parse_u64 [] = none
parse_u64 (c ∷ cs) = below (2 ^ 64) (some_digits (if c == 43 then cs else c ∷ cs))

-- `u64_field`, `u32_field` and `string_field`
unfoldable pub u64_field : Option Value → Option ℕ
unfolding parse_u64
u64_field none = none
u64_field (some (number n)) = n
u64_field (some (text s)) = parse_u64 s
u64_field (some another) = none

unfoldable pub u32_field : Option Value → Option ℕ
unfolding u64_field
u32_field v = below (2 ^ 32) (u64_field v)

unfoldable pub string_field : Option Value → Option (List ℕ)
string_field none = none
string_field (some (number n)) = none
string_field (some (text s)) = some s
string_field (some another) = none

-- `is_pcap_datagram`
abbrev pub is_some : {A : Type 0} → Option A → Bool
is_some none = false
is_some (some a) = true

abbrev pub is_packet_schema : Option (List ℕ) → Bool
is_packet_schema none = false
is_packet_schema (some s) = bytes_eq s pcap_packet_schema_id

abbrev pub pcap_source : Option (List ℕ) → Option (List ℕ)
pcap_source none = none
pcap_source (some s) = strip_prefix pcap_colon s

unfoldable pub is_pcap_datagram : IndexEntry → Option PacketMetadata → Bool
is_pcap_datagram entry meta =
    is_some meta || (is_packet_schema entry.schema_id || is_some (pcap_source entry.source))

-- `packet_interface_label`
abbrev pub interface_of : Option PacketMetadata → Option (List ℕ)
interface_of none = none
interface_of (some m) = m.interface

abbrev pub labelled : Option (List ℕ) → Option (List ℕ) → List ℕ
labelled none none = pcap
labelled none (some s) = if is_empty s then pcap else s
labelled (some s) t = if is_empty s then pcap else s

unfoldable pub packet_interface_label : IndexEntry → Option PacketMetadata → List ℕ
packet_interface_label entry meta = labelled (interface_of meta) (pcap_source entry.source)

-- `linktype` and `original_len` of `run`
abbrev pub linktype_of : Option PacketMetadata → ℕ
linktype_of none = 1
linktype_of (some m) = elim m.linktype [ none ↦ 1 | some t ↦ t ]

abbrev pub first_of : Option ℕ → Option ℕ → ℕ → ℕ
first_of (some a) b c = a
first_of none (some b) c = b
first_of none none c = c

abbrev pub original_len_of : IndexEntry → Option PacketMetadata → ℕ
original_len_of entry none = entry.len
original_len_of entry (some m) = first_of m.original_len m.captured_len entry.len

abbrev pub is_datagram : Kind → Bool
is_datagram Index.datagram = true
is_datagram _ = false

-- Whether a row is exported.
unfoldable pub is_packet : IndexEntry → Option PacketMetadata → Bool
unfolding is_pcap_datagram
is_packet entry meta = is_datagram entry.kind && is_pcap_datagram entry meta
