-- ===== src/Log/File.antt =====
-- `std::fs::File` as the log code uses it: bytes, a cursor, and what the last sync made durable.
use tracemux.Prelude.{ℕ, ◌+◌, ◌≡◌, List, ◌++◌, Option, none, some, arith}
use tracemux.Prelude.{length, take, drop, leb, if◌then◌else◌, drop_all, take_all, ap, append-nil}

pub record File : Type 0 where
  pub bytes : List ℕ
  pub pos : ℕ
  -- the bytes at the last successful `sync_data`
  pub synced : List ℕ

-- `write_all` at the cursor. A file that is shorter than the cursor would be filled up with zeros;
-- the log code never seeks past the end.
unfoldable pub write_all : List ℕ → File → File
write_all xs f = record f {
  bytes = take f.pos f.bytes ++ (xs ++ drop (f.pos + length xs) f.bytes);
  pos = f.pos + length xs;
}

-- `sync_data`
unfoldable pub sync_data : File → File
sync_data f = record f { synced = f.bytes }

-- `seek(SeekFrom::Start(n))`
unfoldable pub seek : ℕ → File → File
seek n f = record f { pos = n }

-- `set_len(n)`, where `n` is at most the length; the cursor stays.
unfoldable pub set_len : ℕ → File → File
set_len n f = record f { bytes = take n f.bytes }

-- `read_exact` of `n` bytes from what is left of a stream; `none` is `UnexpectedEof`.
unfoldable pub read_exact : ℕ → List ℕ → Option (List ℕ × List ℕ)
read_exact n rest = if leb n (length rest) then some (take n rest, drop n rest) else none

-- At the end of the file `write_all` appends.
pub write_all_end :
    (xs : List ℕ) (f : File) → f.pos ≡ length f.bytes → (write_all xs f).bytes ≡ f.bytes ++ xs
unfolding write_all
write_all_end xs f h =
    rw (take_all f.pos f.bytes (omega arith), drop_all (f.pos + length xs) f.bytes (omega arith))
      (ap (λ r. f.bytes ++ r) (append-nil xs))
