-- ===== src/Export/Zip/Layout.antt =====
-- The parts of an archive of export_api.rs, in the order in which they stand.
use tracemux.Prelude.{
  ℕ, ◌+◌, ◌≤◌, ◌≡◌, refl, ap, ap₂, ◌∙◌, List, [], ◌∷◌, ◌++◌, Option, none, some, length,
  length-append,
}
use tracemux.Prelude.Bytes.{IsBytes, to_le_bytes}
use tracemux.Export.Zip.{
  Result, ok, err, StoredZipWriter, CentralDirectoryEntry, create, slashes, local_header,
  central_header, end_of_central, append_file_from_path, finish, write_u16, write_u32, u16_max,
  crc32,
}
use tracemux.Export.Zip.Reader.{unzip}

-- A file to put in, by its name and its bytes.
abbrev pub File : Type 0
File = List ℕ × List ℕ

-- The loop that fills an archive: it stops at the first refusal.
abbrev pub next_file :
    Result (Unit {0}) × StoredZipWriter
    → (StoredZipWriter → Result (Unit {0}) × StoredZipWriter)
    → Result (Unit {0}) × StoredZipWriter
next_file (err e, w) k = (err e, w)
next_file (ok _, w) k = k w

unfoldable pub append_files : List File → StoredZipWriter → Result (Unit {0}) × StoredZipWriter
append_files [] w = (ok tt, w)
append_files ((name, bytes) ∷ fs) w =
    next_file (append_file_from_path name (some bytes) (some bytes) w) (append_files fs)

abbrev pub finish_all : Result (Unit {0}) × StoredZipWriter → Result (List ℕ)
finish_all (err e, w) = err e
finish_all (ok _, w) = finish w

unfoldable pub archive : List File → Result (List ℕ)
unfolding append_files
archive fs = finish_all (append_files fs create)

-- The name as it stands in the archive, and the same bytes.
abbrev pub stored : File → File
stored (name, bytes) = (slashes name, bytes)

abbrev pub unzip_result : Result (List ℕ) → Option (List File)
unzip_result (err e) = none
unzip_result (ok bytes) = unzip bytes

-- The local part of a file, those of all, their entries when the first stands at `off`, and the
-- directory.
abbrev pub local : File → List ℕ
local (n, d) = local_header (crc32 d) (length d) (length n) ++ (n ++ d)

abbrev pub locals : List File → List ℕ
locals [] = []
locals (f ∷ fs) = local f ++ locals fs

abbrev pub entry : ℕ → File → CentralDirectoryEntry
entry off (n, d) = record { name = n; crc32 = crc32 d; size = length d; local_offset = off }

abbrev pub table : ℕ → List File → List CentralDirectoryEntry
table off [] = []
table off (f ∷ fs) = entry off f ∷ table (off + length (local f)) fs

abbrev pub central_part : CentralDirectoryEntry → List ℕ
central_part e = central_header e ++ e.name

abbrev pub dir : List CentralDirectoryEntry → List ℕ
dir [] = []
dir (e ∷ es) = central_part e ++ dir es

-- What the files must keep to: bytes, names of at most 65,535 bytes, at most 65,535 files, and local
-- parts and a directory of at most 4,294,967,295 bytes.
abbrev pub Named : File → Type 0
Named (n, d) = (length n ≤ u16_max) × IsBytes d

pub length-local_header : (crc size n : ℕ) → length (local_header crc size n) ≡ 30
unfolding local_header write_u16 write_u32 to_le_bytes
length-local_header crc size n = refl

pub length-central_header : (e : CentralDirectoryEntry) → length (central_header e) ≡ 46
unfolding central_header write_u16 write_u32 to_le_bytes
length-central_header e = refl

pub length-end : (n size off : ℕ) → length (end_of_central n size off) ≡ 22
unfolding end_of_central write_u16 write_u32 to_le_bytes
length-end n size off = refl

pub length-local : (n d : List ℕ) → length (local (n, d)) ≡ 30 + (length n + length d)
length-local n d =
    length-append (local_header (crc32 d) (length d) (length n)) (n ++ d)
    ∙ ap₂ ◌+◌ (length-local_header (crc32 d) (length d) (length n)) (length-append n d)

pub length-central_part : (e : CentralDirectoryEntry) → length (central_part e) ≡ 46 + length e.name
length-central_part e =
    length-append (central_header e) e.name ∙ ap (λ k. k + length e.name) (length-central_header e)
