-- ===== src/Tests/Export.antt =====
-- The exports, at concrete files, names, tickets and packets.
use tracemux.Prelude.{ℕ, ◌≡◌, refl, List, [], ◌∷◌, none, some, false, map, arith, nat_eq}
use tracemux.Prelude.Bytes.{to_le_bytes, bytes_eq, bytes_key}
use tracemux.Prelude.Ints.{pos, negsuc}
use tracemux.Export.Zip.{
  write_u16, write_u32, local_header, central_header, crc32, crc_bytes, shifts, shift, slashes,
  slash,
}
use tracemux.Export.Zip.Layout.{File, stored, archive, unzip_result}
use tracemux.Export.Zip.Written.{Fit}
use tracemux.Export.Zip.Extract.{unzip-archive}
use tracemux.Export.Zip
use tracemux.Prelude.Text.{whitespace, trim, trim_start, trim_end}
use tracemux.Export.Names.{sanitize_filename, contains, unique_zip_entry_name, create_bundle_zip}
use tracemux.Export.Names.Safe.{IsFilename, sanitize_filename-IsFilename}
use tracemux.Export.Names.Fresh.{unique_zip_entry_name-Fresh}
use tracemux.Export.Names.Bundle.{
  job, entry_names, bundle_files, names_of, Distinct, unzip-create_bundle_zip,
}
use tracemux.Export.Tickets.{Tickets, issue, consume, granted, refused, missing}
use tracemux.Export.Tickets.Life.{Call, issues, consumes, after, consume-issue, consume-twice}
use tracemux.Log.Rotate.{RotatePolicy}
use tracemux.Exporter.Pcapng.{Block, PcapPacket, create}
use tracemux.Exporter.Pcapng.Blocks.{read_stream}
use tracemux.Exporter.Pcapng.Parts.{capture, read_stream-capture}

-- The check value of CRC-32, of the digits 1 to 9.
crc32_check : crc32 (49 ∷ 50 ∷ 51 ∷ 52 ∷ 53 ∷ 54 ∷ 55 ∷ 56 ∷ 57 ∷ []) ≡ 0xcbf43926
unfolding crc32 crc_bytes shifts shift
crc32_check = refl

-- `a\b` with two bytes, and `c` with none.
abbrev files : List File
files = (97 ∷ 92 ∷ 98 ∷ [], 1 ∷ 255 ∷ []) ∷ (99 ∷ [], []) ∷ []

files-Fit : Fit (map stored files)
unfolding local_header central_header write_u16 write_u32 to_le_bytes slashes slash
files-Fit = record {
  named = ((omega arith, (omega arith, (omega arith, tt))), ((omega arith, tt), tt));
  count = omega arith;
  locals_short = omega arith;
  dir_short = omega arith;
}

unzip-archive_example : unzip_result (archive files) ≡ some (map stored files)
unzip-archive_example = unzip-archive files files-Fit

-- ` a/b..` becomes `a-b`.
sanitize_slash : sanitize_filename (32 ∷ 97 ∷ 47 ∷ 98 ∷ 46 ∷ 46 ∷ []) ≡ 97 ∷ 45 ∷ 98 ∷ []
unfolding sanitize_filename trim trim_end trim_start whitespace
sanitize_slash = refl

sanitize_filename-IsFilename_example : IsFilename (sanitize_filename (46 ∷ 46 ∷ 47 ∷ 120 ∷ []))
sanitize_filename-IsFilename_example = sanitize_filename-IsFilename (46 ∷ 46 ∷ 47 ∷ 120 ∷ [])

-- `a/t` and `a\t`.
abbrev jobs : List File
jobs = (97 ∷ 47 ∷ 116 ∷ [], 7 ∷ []) ∷ (97 ∷ 92 ∷ 116 ∷ [], 8 ∷ []) ∷ []

-- The second becomes `a/t-2`.
entry_names-jobs : entry_names jobs [] ≡ (97 ∷ 47 ∷ 116 ∷ []) ∷ (97 ∷ 47 ∷ 116 ∷ 45 ∷ 50 ∷ []) ∷ []
unfolding unique_zip_entry_name slash bytes_eq
entry_names-jobs = refl

unique_zip_entry_name-Fresh_example :
    (new : List ℕ) × (unique_zip_entry_name (97 ∷ []) ((97 ∷ []) ∷ [])
      ≡ (Zip.ok new, new ∷ (97 ∷ []) ∷ []))
    × (contains ((97 ∷ []) ∷ []) new ≡ false)
unique_zip_entry_name-Fresh_example =
    unique_zip_entry_name-Fresh (97 ∷ []) ((97 ∷ []) ∷ []) (omega arith)

jobs-Fit : Fit (map stored (bundle_files (120 ∷ []) jobs []))
unfolding unique_zip_entry_name bytes_eq local_header central_header write_u16 write_u32 to_le_bytes
    slashes slash
jobs-Fit = record {
  named = ((omega arith, (omega arith, tt)), ((omega arith, (omega arith, tt)), tt));
  count = omega arith;
  locals_short = omega arith;
  dir_short = omega arith;
}

unzip-create_bundle_zip_example :
    (unzip_result (create_bundle_zip (120 ∷ []) (map job jobs))
      ≡ some (map stored (bundle_files (120 ∷ []) jobs [])))
    × Distinct (names_of (map stored (bundle_files (120 ∷ []) jobs [])))
unzip-create_bundle_zip_example = unzip-create_bundle_zip (120 ∷ []) jobs (omega arith) jobs-Fit

abbrev no_tickets : Tickets ℕ
no_tickets = []

abbrev calls : List (Call ℕ)
calls = issues (2 ∷ []) 6 10 11 ∷ consumes (2 ∷ []) 6 12 ∷ []

consume-issue_example :
    (consume (1 ∷ []) 5 13 (after calls (issue (1 ∷ []) 5 8 9 no_tickets))).0 ≡ granted 5
consume-issue_example =
    consume-issue (1 ∷ []) 5 8 9 13 calls no_tickets tt
      ((unfold bytes_eq in refl, omega arith), ((unfold bytes_eq in refl, omega arith), tt))
      (omega arith)

consume-twice_example :
    (consume (1 ∷ []) 5 14 (after calls (consume (1 ∷ []) 5 13 no_tickets).1)).0 ≡ refused missing
consume-twice_example =
    consume-twice (1 ∷ []) 5 5 13 14 calls no_tickets tt (unfold bytes_eq in refl, (tt, tt))

-- Every block takes twenty bytes, and a part is full at fifty.
abbrev size : Block → ℕ
size b = 20

abbrev small : RotatePolicy
small = record { size_bytes = some 50; duration = none }

abbrev packet : PcapPacket
packet = record {
  linktype = 1;
  ts_origin_ns = pos 1_500_000_000;
  original_len = 2;
  bytes = 1 ∷ 2 ∷ [];
}

abbrev early : PcapPacket
early = record { linktype = 1; ts_origin_ns = negsuc 0; original_len = 0; bytes = [] }

abbrev packets : List (List ℕ × PcapPacket)
packets = (97 ∷ [], packet) ∷ (98 ∷ [], early) ∷ (98 ∷ [], packet) ∷ (97 ∷ [], packet) ∷ []

read_stream-capture_example :
    let r = capture 28 size packets (create 28 size small) in read_stream r.1 ≡ some r.0
read_stream-capture_example = read_stream-capture 28 size small packets
