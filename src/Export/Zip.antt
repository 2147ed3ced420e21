-- ===== src/Export/Zip.antt =====
-- crates/server/src/export_api.rs: `StoredZipWriter` and `crc32_file`. The archive is the bytes that
-- were written, whose writing succeeds; a name is the bytes of its UTF-8, in which a backslash is a byte
-- of its own; a file that is put in is read twice, and either reading may fail, which is `none`. `u64`
-- has 64 bits.
pub mod Crc
pub mod Reader
pub mod Layout
pub mod Written
pub mod Headers
pub mod Extract
use Prim.Native.Nat.{bit_and, bit_xor}
use tracemux.Prelude.{
  ℕ, zero, suc, ◌+◌, ◌/◌, ◌%◌, ◌^◌, List, [], ◌∷◌, ◌++◌, Option, none, some, Bool, ◌||◌, length,
  ltb, ◌==◌, if◌then◌else◌, map,
}
use tracemux.Prelude.Bytes.{to_le_bytes}

-- The errors by their status: 400, and 500.
pub data ExportApiError : Type 0 where
  bad_request internal : ExportApiError

pub data Result (A : Type 0) : Type 0 where
  ok : A → Result A
  err : ExportApiError → Result A

-- `write_u16` and `write_u32`, the bytes that they write
unfoldable pub write_u16 : ℕ → List ℕ
write_u16 value = to_le_bytes 2 value

unfoldable pub write_u32 : ℕ → List ℕ
write_u32 value = to_le_bytes 4 value

-- `crc32_file`: one turn of the inner loop, its eight turns, the loop on the bytes, and the result
unfoldable pub shift : ℕ → ℕ
shift crc = if bit_and crc 1 == 0 then crc / 2 else bit_xor 0xedb88320 (crc / 2)

unfoldable pub shifts : ℕ → ℕ → ℕ
unfolding shift
shifts zero crc = crc
shifts (suc n) crc = shifts n (shift crc)

unfoldable pub crc_bytes : ℕ → List ℕ → ℕ
crc_bytes crc [] = crc
crc_bytes crc (b ∷ bs) = crc_bytes (shifts 8 (bit_xor crc b)) bs

unfoldable pub crc32 : List ℕ → ℕ
crc32 bytes = bit_xor (crc_bytes 0xffffffff bytes) 0xffffffff

unfoldable pub crc32_file : Option (List ℕ) → Result (ℕ × ℕ)
crc32_file none = err internal
crc32_file (some bytes) = ok (crc32 bytes, length bytes)

-- `CentralDirectoryEntry`
pub record CentralDirectoryEntry : Type 0 where
  pub name : List ℕ
  pub crc32 : ℕ
  pub size : ℕ
  pub local_offset : ℕ

-- `StoredZipWriter`
pub record StoredZipWriter : Type 0 where
  pub out : List ℕ
  pub central : List CentralDirectoryEntry
  pub offset : ℕ

-- `StoredZipWriter::create`
abbrev pub create : StoredZipWriter
create = record { out = []; central = []; offset = 0 }

-- `name.replace('\\', "/")`
unfoldable pub slash : ℕ → ℕ
slash c = if c == 92 then 47 else c

unfoldable pub slashes : List ℕ → List ℕ
slashes name = map slash name

abbrev pub u16_max : ℕ
u16_max = 0xffff

abbrev pub u32_max : ℕ
u32_max = 0xffffffff

-- The header that `append_file_from_path` writes, up to the name.
unfoldable pub local_header : ℕ → ℕ → ℕ → List ℕ
local_header crc32 size name_len =
    write_u32 0x04034b50
    ++ (write_u16 20
        ++ (write_u16 0x0800
            ++ (write_u16 0
                ++ (write_u16 0
                    ++ (write_u16 33
                        ++ (write_u32 crc32
                            ++ (write_u32 size
                                ++ (write_u32 size ++ (write_u16 name_len ++ write_u16 0)))))))))

-- `append_file_from_path` from the second reading on: what it has is copied behind the header, and
-- the entry is kept if there is as much of it as was measured.
unfoldable pub copy_entry :
    CentralDirectoryEntry → Option (List ℕ) → StoredZipWriter → Result (Unit {0}) × StoredZipWriter
copy_entry entry none w = (err internal, w)
copy_entry entry (some bytes) w =
    if length bytes == entry.size
    then (
      ok tt,
      record {
        out = w.out ++ bytes;
        central = w.central ++ (entry ∷ []);
        offset = (w.offset + length bytes) % 2 ^ 64;
      },
    )
    else (err internal, record w { out = w.out ++ bytes })

-- From the checksum on.
unfoldable pub append_measured :
    List ℕ
    → Result (ℕ × ℕ)
    → Option (List ℕ)
    → StoredZipWriter
    → Result (Unit {0}) × StoredZipWriter
unfolding local_header copy_entry
append_measured name (err e) second w = (err e, w)
append_measured name (ok (crc, size)) second w =
    if ltb u32_max size || ltb u32_max w.offset
    then (err bad_request, w)
    else copy_entry (record { name = name; crc32 = crc; size = size; local_offset = w.offset })
        second
        (record w {
          out = w.out ++ (local_header crc size (length name) ++ name);
          offset = (w.offset + (30 + length name)) % 2 ^ 64;
        })

-- `StoredZipWriter::append_file_from_path`, the path as what its two readings find
unfoldable pub append_file_from_path :
    List ℕ
    → Option (List ℕ)
    → Option (List ℕ)
    → StoredZipWriter
    → Result (Unit {0}) × StoredZipWriter
unfolding append_measured slashes crc32_file
append_file_from_path name first second w =
    if ltb u16_max (length (slashes name))
    then (err bad_request, w)
    else append_measured (slashes name) (crc32_file first) second w

-- What `finish` writes for an entry, up to the name.
unfoldable pub central_header : CentralDirectoryEntry → List ℕ
central_header e =
    write_u32 0x02014b50
    ++ (write_u16 20
        ++ (write_u16 20
            ++ (write_u16 0x0800
                ++ (write_u16 0
                    ++ (write_u16 0
                        ++ (write_u16 33
                            ++ (write_u32 e.crc32
                                ++ (write_u32 e.size
                                    ++ (write_u32 e.size
                                        ++ (write_u16 (length e.name)
                                            ++ (write_u16 0
                                                ++ (write_u16 0
                                                    ++ (write_u16 0
                                                        ++ (write_u16 0
                                                            ++ (write_u32 0
                                                            ++ write_u32
                                                            e.local_offset)))))))))))))))

-- The loop of `finish`: the bytes of the directory after `out`, and their number after `size`.
unfoldable pub write_central : List CentralDirectoryEntry → List ℕ → ℕ → Result (List ℕ × ℕ)
unfolding central_header
write_central [] out size = ok (out, size)
write_central (e ∷ es) out size =
    let rest =
      write_central es (out ++ (central_header e ++ e.name))
        ((size + (46 + length e.name)) % 2 ^ 64) in
    if ltb u32_max e.size || ltb u32_max e.local_offset
    then err bad_request
    else if ltb u16_max (length e.name)
    then err bad_request
    else rest

-- The end that `finish` writes.
unfoldable pub end_of_central : ℕ → ℕ → ℕ → List ℕ
end_of_central count size offset =
    write_u32 0x06054b50
    ++ (write_u16 0
        ++ (write_u16 0
            ++ (write_u16 count
                ++ (write_u16 count ++ (write_u32 size ++ (write_u32 offset ++ write_u16 0))))))

unfoldable pub close_central : StoredZipWriter → Result (List ℕ × ℕ) → Result (List ℕ)
unfolding end_of_central
close_central w (err e) = err e
close_central w (ok (out, size)) =
    if ltb 0xffff (length w.central) || (ltb u32_max size || ltb u32_max w.offset)
    then err bad_request
    else ok (out ++ end_of_central (length w.central) size w.offset)

-- `StoredZipWriter::finish`: the bytes of the archive
unfoldable pub finish : StoredZipWriter → Result (List ℕ)
unfolding write_central close_central
finish w = close_central w (write_central w.central w.out 0)
