-- ===== src/Exporter/Pcapng/Session/Demanded.antt =====
-- What an export of pcapng.rs is asked for, said without the exporter's own tests: which rows are
-- packets, and what stands with each.
use tracemux.Prelude.{
  ℕ, ◌-◌, ◌*◌, ◌/◌, ◌%◌, ◌^◌, ◌≡◌, refl, ap, ◌∙◌, List, [], ◌∷◌, Option, none, some, Bool, true,
  false, ◌||◌, ◌&&◌, ltb, take, drop, length, if◌then◌else◌, arith,
}
use tracemux.Prelude.Ints.{ℤ, pos, negsuc}
use tracemux.Prelude.Bytes.{bytes_eq}
use tracemux.Prelude.Text.{is_empty}
use tracemux.Prelude.Maps.{lookup}
use tracemux.Error.{Result, ok, err, ◌>>=◌, pipeline_generic}
use tracemux.Log.Index
use tracemux.Log.Index.{IndexEntry, Kind}
use tracemux.Log.Lines.{FrameEntry}
use tracemux.Exporter.Timestamp.{strip_prefix}
use tracemux.Exporter.Pcapng.{Block, Duration, timestamp_nanos_duration}
use tracemux.Exporter.Pcapng.Blocks.{Shown}
use tracemux.Exporter.Pcapng.Metadata.{
  Value, PacketMetadata, pair_key, pcap, pcap_colon, is_some, is_packet, is_pcap_datagram,
  pcap_source, labelled, packet_interface_label, is_packet_schema, is_datagram, first_of,
  linktype_of, original_len_of,
}
use tracemux.Exporter.Pcapng.Session.{timestamp_duration}
use tracemux.Exporter.Pcapng.Session.Wanted.{Metadata, wanted, expected}

-- `tracemux.pcap.packet.v1`, `pcap` and `pcap:`
abbrev pub packet_schema : List ℕ
packet_schema =
    116 ∷ 114 ∷ 97 ∷ 99 ∷ 101 ∷ 109 ∷ 117 ∷ 120 ∷ 46 ∷ 112 ∷ 99 ∷ 97 ∷ 112 ∷ 46 ∷ 112 ∷ 97 ∷ 99
    ∷ 107 ∷ 101 ∷ 116 ∷ 46 ∷ 118 ∷ 49 ∷ []

abbrev pub plain : List ℕ
plain = 112 ∷ 99 ∷ 97 ∷ 112 ∷ []

abbrev pub colon : List ℕ
colon = 112 ∷ 99 ∷ 97 ∷ 112 ∷ 58 ∷ []

-- The text is there, and is the schema of packets; it is there, and its first five characters are `pcap:`.
abbrev pub of_packets : Option (List ℕ) → Bool
of_packets none = false
of_packets (some s) = bytes_eq s packet_schema

abbrev pub from_pcap : Option (List ℕ) → Bool
from_pcap none = false
from_pcap (some s) = bytes_eq (take 5 s) colon

-- Only datagrams are packets: all for which there is metadata, and of the others those with the schema
-- of packets or a source that is a capture.
abbrev pub demands : Kind → Option PacketMetadata → Option (List ℕ) → Option (List ℕ) → Bool
demands Index.datagram (some m) schema source = true
demands Index.datagram none schema source = of_packets schema || from_pcap source
demands Index.bytes meta schema source = false
demands Index.frame meta schema source = false
demands Index.decoded meta schema source = false

-- A label that is not empty, or else `pcap`.
abbrev pub or_pcap : List ℕ → List ℕ
or_pcap [] = plain
or_pcap (c ∷ cs) = c ∷ cs

-- The label is the interface of the metadata; where it names none, what follows `pcap:` in the source.
abbrev pub label_of_source : Option (List ℕ) → List ℕ
label_of_source none = plain
label_of_source (some s) = if bytes_eq (take 5 s) colon then or_pcap (drop 5 s) else plain

abbrev pub label_named : Option (List ℕ) → Option (List ℕ) → List ℕ
label_named (some i) source = or_pcap i
label_named none source = label_of_source source

abbrev pub label_of : Option PacketMetadata → Option (List ℕ) → List ℕ
label_of none source = label_of_source source
label_of (some m) source = label_named m.interface source

abbrev pub otherwise : Option ℕ → ℕ → ℕ
otherwise none n = n
otherwise (some m) n = m

-- Ethernet where no link type is known.
abbrev pub type_of : Option PacketMetadata → ℕ
type_of none = 1
type_of (some m) = otherwise m.linktype 1

-- The original length, or that of the capture, or that of the row.
abbrev pub full_len : ℕ → Option PacketMetadata → ℕ
full_len len none = len
full_len len (some m) = otherwise m.original_len (otherwise m.captured_len len)

-- Seconds below 2 ^ 64 since 1970, and nanoseconds.
abbrev pub moment : Option ℤ → Result Duration
moment none = err pipeline_generic
moment (some (negsuc n)) = err pipeline_generic
moment (some (pos n)) =
    if ltb n (2 ^ 64 * 1_000_000_000)
    then ok (record { secs = n / 1_000_000_000; nanos = n - n / 1_000_000_000 * 1_000_000_000 })
    else err pipeline_generic

either :
    (b : Bool) (x y : Result Duration)
    → (if b then x else y) ≡ (if (if b then false else true) then y else x)
either true x y = refl
either false x y = refl

moment_lem : (o : Option ℤ) → timestamp_duration o ≡ moment o
unfolding timestamp_nanos_duration
moment_lem none = refl
moment_lem (some (negsuc n)) = refl
moment_lem (some (pos n)) =
    let late = ltb (2 ^ 64 - 1) (n / 1_000_000_000) in
    let same : ltb n (2 ^ 64 * 1_000_000_000) ≡ (if late then false else true) = ground arith in
    let nanos : n % 1_000_000_000 ≡ n - n / 1_000_000_000 * 1_000_000_000 = omega arith in
    let at : Result Duration =
      ok (record { secs = n / 1_000_000_000; nanos = n - n / 1_000_000_000 * 1_000_000_000 }) in
    rw same (rw nanos (either late (err pipeline_generic) at))

strip_prefix_lem :
    (pre s : List ℕ)
    → strip_prefix pre s
      ≡ (if bytes_eq (take (length pre) s) pre then some (drop (length pre) s) else none)
unfolding strip_prefix bytes_eq
strip_prefix_lem [] s = refl
strip_prefix_lem (p ∷ pre) [] = refl
strip_prefix_lem (p ∷ pre) (c ∷ s) = ground (arith, strip_prefix_lem pre s)

from_pcap_lem : (source : Option (List ℕ)) → is_some (pcap_source source) ≡ from_pcap source
from_pcap_lem none = refl
from_pcap_lem (some s) =
    ap is_some (strip_prefix_lem pcap_colon s) ∙ found (bytes_eq (take 5 s) pcap_colon) (drop 5 s)
  where
    found : (b : Bool) (t : List ℕ) → is_some (if b then some t else none) ≡ b
    found true t = refl
    found false t = refl

or_pcap_lem : (s : List ℕ) → (if is_empty s then pcap else s) ≡ or_pcap s
unfolding is_empty
or_pcap_lem [] = refl
or_pcap_lem (c ∷ s) = refl

label_of_source_lem :
    (source : Option (List ℕ)) → labelled none (pcap_source source) ≡ label_of_source source
label_of_source_lem none = refl
label_of_source_lem (some s) =
    ap (labelled none) (strip_prefix_lem pcap_colon s)
    ∙ found (bytes_eq (take 5 s) pcap_colon) (drop 5 s)
  where
    found :
        (b : Bool) (t : List ℕ)
        → labelled none (if b then some t else none) ≡ (if b then or_pcap t else pcap)
    found true t = or_pcap_lem t
    found false t = refl

label_of_lem :
    (e : IndexEntry) (meta : Option PacketMetadata)
    → packet_interface_label e meta ≡ label_of meta e.source
unfolding packet_interface_label
label_of_lem e none = label_of_source_lem e.source
label_of_lem e (some m) = named m.interface
  where
    named : (i : Option (List ℕ)) → labelled i (pcap_source e.source) ≡ label_named i e.source
    named none = label_of_source_lem e.source
    named (some s) = or_pcap_lem s

demands_lem :
    (e : IndexEntry) (meta : Option PacketMetadata)
    → is_packet e meta ≡ demands e.kind meta e.schema_id e.source
unfolding is_packet is_pcap_datagram
demands_lem e meta = by_kind e.kind meta
  where
    schema : (o : Option (List ℕ)) → is_packet_schema o ≡ of_packets o
    schema none = refl
    schema (some s) = refl

    by_kind :
        (k : Kind) (m : Option PacketMetadata)
        → (is_datagram k && is_pcap_datagram e m) ≡ demands k m e.schema_id e.source
    by_kind Index.datagram (some m) = refl
    by_kind Index.datagram none = rw (schema e.schema_id) (rw (from_pcap_lem e.source) refl)
    by_kind Index.bytes m = refl
    by_kind Index.frame m = refl
    by_kind Index.decoded m = refl

module _ {V : Type 0} (field : V → List ℕ → Option Value)
    (entry_from_str : List ℕ → Option IndexEntry) (frame_from_str : List ℕ → Option (FrameEntry V))
    (parse_rfc3339 : List ℕ → Option ℤ) (head_len : ℕ) (block_len : Block → ℕ) where
  -- The packet of a row.
  abbrev pub shown_as : IndexEntry → Option PacketMetadata → List ℕ → Duration → Shown
  shown_as e meta bytes t = record {
    key = record { linktype = type_of meta; label = label_of meta e.source };
    timestamp = t;
    original_len = full_len e.len meta;
    bytes = bytes;
  }

  -- The packets of rows, up to the first instant that cannot be told.
  unfoldable pub demanded :
      Metadata field entry_from_str frame_from_str parse_rfc3339 head_len block_len
      → List (IndexEntry × List ℕ)
      → Result (List Shown)
  demanded metadata [] = ok []
  demanded metadata ((e, bytes) ∷ rs) =
      let meta = lookup (e.off, e.len) metadata in
      let rest = demanded metadata rs in
      if demands e.kind meta e.schema_id e.source
      then (moment (parse_rfc3339 e.ts_origin) >>= λ t.
          rest >>= λ ss. ok (shown_as e meta bytes t ∷ ss))
      else rest

  type_of_lem : (meta : Option PacketMetadata) → linktype_of meta ≡ type_of meta
  type_of_lem none = refl
  type_of_lem (some m) = named m.linktype
    where
      named : (t : Option ℕ) → (elim t [ none ↦ 1 | some t' ↦ t' ]) ≡ otherwise t 1
      named none = refl
      named (some t) = refl

  full_len_lem :
      (e : IndexEntry) (meta : Option PacketMetadata) → original_len_of e meta ≡ full_len e.len meta
  full_len_lem e none = refl
  full_len_lem e (some m) = named m.original_len m.captured_len
    where
      named : (a b : Option ℕ) → first_of a b e.len ≡ otherwise a (otherwise b e.len)
      named (some x) b = refl
      named none (some y) = refl
      named none none = refl

  wanted-shown_as :
      (e : IndexEntry) (meta : Option PacketMetadata) (bytes : List ℕ) (t : Duration)
      → wanted field entry_from_str frame_from_str parse_rfc3339 head_len block_len e meta bytes t
        ≡ shown_as e meta bytes t
  wanted-shown_as e meta bytes t =
      rw (type_of_lem meta) (rw (label_of_lem e meta) (rw (full_len_lem e meta) refl))

  pub expected-demanded :
      (metadata : Metadata field entry_from_str frame_from_str parse_rfc3339 head_len block_len)
      (rows : List (IndexEntry × List ℕ))
      → expected field entry_from_str frame_from_str parse_rfc3339 head_len block_len metadata rows
        ≡ demanded metadata rows
  unfolding expected demanded
  expected-demanded metadata [] = refl
  expected-demanded metadata ((e, bytes) ∷ rs) =
      let meta = lookup (e.off, e.len) metadata in
      rw (demands_lem e meta) (
        rw (moment_lem (parse_rfc3339 e.ts_origin)) (
          rw (expected-demanded metadata rs) (
            ap
              (λ (one : Duration → Shown).
                if demands e.kind meta e.schema_id e.source
                then (moment (parse_rfc3339 e.ts_origin) >>= λ t.
                    demanded metadata rs >>= λ ss. ok (one t ∷ ss))
                else demanded metadata rs)
              (λ i t. wanted-shown_as e meta bytes t i))))
