-- ===== src/Tests/Log.antt =====
-- The logs, at concrete files.
use tracemux.Prelude.{
  ◌==◌, ℕ, ◌+◌, ◌-◌, ◌*◌, ◌%◌, ◌^◌, ◌<◌, ◌≡◌, ◌⊎◌, refl, List, [], ◌∷◌, ◌++◌, Option, none, some,
  true, false, ◌||◌, leb, if◌then◌else◌, length, take, arith,
}
use tracemux.Error.{Result, ok, err, source_open}
use tracemux.Log.File.{File}
use tracemux.Log.Wal.{file_header, done, fails, open_writer, append, read_all}
use tracemux.Log.Wal.Codec.{encode_record, next_record, header}
use tracemux.Log.Wal.Scan.{encode, records_at, IsTorn, IsTorn-next_record}
use tracemux.Log.Wal.Recovery.{file_header-IsHeader, writer_of, open_writer-read_all}
use tracemux.Log.Wal.Append.{append-after_failure, append-recovers, append-read_all}
use tracemux.Log.GroupCommit.{GroupCommit, CommitPolicy, synced, buffered, append_at}
use tracemux.Log.GroupCommit.Durability.{IsTracked, append_at-durable}
use tracemux.Log.Raw.{create, append as append_raw, flush, read_at}
use tracemux.Log.Raw.Offsets.{appends, flushes, after, read_at-append}
use tracemux.Log.Rotate.{RotatePolicy, RotateStats, should_rotate}
use tracemux.Log.Retention.{DirEntry, judge, apply_loop, apply}

-- A checksum in the place of CRC-32.
abbrev total : List ℕ → ℕ
total [] = 0
total (b ∷ bs) = b + total bs

abbrev checksum : List ℕ → ℕ
checksum p = total p % 2 ^ 32

checksum-lt : (p : List ℕ) → checksum p < 2 ^ 32
checksum-lt p = omega arith

abbrev payloads : List (List ℕ)
payloads = (1 ∷ 2 ∷ []) ∷ (7 ∷ []) ∷ []

abbrev torn : List ℕ
torn = 5 ∷ 0 ∷ 0 ∷ 0 ∷ 1 ∷ []

torn-IsTorn : IsTorn checksum torn
torn-IsTorn = IsTorn-next_record checksum checksum-lt torn (unfold next_record in refl)

abbrev crashed : File
crashed = record { bytes = file_header ++ (encode checksum payloads ++ torn); pos = 0; synced = [] }

abbrev garbled : File
garbled = record { bytes = file_header ++ (1 ∷ 2 ∷ 3 ∷ []); pos = 0; synced = [] }

open_writer-read_all_example :
    (ps : List (List ℕ)) × (tail : List ℕ) × ((1 ∷ 2 ∷ 3 ∷ []) ≡ encode checksum ps ++ tail)
    × IsTorn checksum tail
    × (open_writer checksum garbled ≡ ok (writer_of (file_header ++ encode checksum ps) []))
    × (read_all checksum garbled.bytes
        ≡ ok (records_at 12 ps, length (file_header ++ encode checksum ps)))
    × (read_all checksum (file_header ++ encode checksum ps)
        ≡ ok (records_at 12 ps, length (file_header ++ encode checksum ps)))
open_writer-read_all_example =
    open_writer-read_all checksum checksum-lt garbled file_header (1 ∷ 2 ∷ 3 ∷ []) refl
      file_header-IsHeader (omega arith)

append-after_failure_example :
    let w = (append checksum (fails 3) done (1 ∷ []) (writer_of file_header [])).1 in
    let (result, w') = append checksum done done (7 ∷ 8 ∷ []) w in
    (result ≡ ok (12 + 8))
    × (w'.end ≡ 12 + (8 + 2))
    × (w'.file.bytes
        ≡ (file_header ++ take 3 (header checksum (1 ∷ []))) ++ encode_record checksum (7 ∷ 8 ∷ []))
append-after_failure_example =
    append-after_failure checksum 3 done (1 ∷ []) (7 ∷ 8 ∷ []) file_header [] (omega arith)
      (omega arith) (omega arith)

append-recovers_example :
    let f =
      (append checksum done
        (fails 1)
        (8 ∷ 9 ∷ [])
        (writer_of (file_header ++ encode checksum payloads) [])).1.file in
    (open_writer checksum f ≡ ok (writer_of (file_header ++ encode checksum payloads) []))
    ⊎ (open_writer checksum f
        ≡ ok (writer_of (file_header ++ encode checksum (payloads ++ (8 ∷ 9 ∷ []) ∷ [])) []))
append-recovers_example =
    append-recovers checksum checksum-lt done (fails 1) file_header payloads (8 ∷ 9 ∷ []) []
      file_header-IsHeader (omega arith) (omega arith) (omega arith)

append-read_all_example :
    let (result, w) =
      append checksum done done
        (8 ∷ 9 ∷ [])
        (writer_of (file_header ++ encode checksum payloads) []) in
    (off : ℕ) × (result ≡ ok off)
    × (read_all checksum w.file.bytes
        ≡ ok (records_at 12 payloads ++ record { offset = off; payload = 8 ∷ 9 ∷ [] } ∷ [], w.end))
    × (w.file.pos ≡ w.end)
append-read_all_example =
    append-read_all checksum checksum-lt file_header payloads (8 ∷ 9 ∷ []) [] file_header-IsHeader
      (omega arith) (omega arith)

abbrev policy : CommitPolicy
policy = record { window = 20; size_bytes = 12 }

abbrev fresh : GroupCommit
fresh = record {
  wal = writer_of file_header file_header;
  policy = policy;
  in_flight = 0;
  last_sync = 0;
}

fresh-IsTracked : IsTracked fresh
fresh-IsTracked = record { at_end = refl; ends = refl; counted = refl; durable = refl }

append_at-durable_example :
    let (r, g') = append_at checksum done done done (1 ∷ 2 ∷ 3 ∷ 4 ∷ []) 5 fresh in
    let due = leb 12 (0 + (4 + 8)) || leb 20 (5 - 0) in
    (r ≡ ok (12 + 8, (if due then synced else buffered)))
    × (length g'.wal.file.bytes < length g'.wal.file.synced + 12)
    × (g'.wal.file.synced
        ≡ (if due then file_header ++ encode_record checksum (1 ∷ 2 ∷ 3 ∷ 4 ∷ []) else file_header))
append_at-durable_example =
    append_at-durable checksum (1 ∷ 2 ∷ 3 ∷ 4 ∷ []) 5 fresh-IsTracked (omega arith) (omega arith)
      (omega arith)

abbrev grown : RotateStats
grown = record { size_bytes = 100; age = 7 }

abbrev limits : RotatePolicy
limits = record { size_bytes = some 64; duration = none }

should_rotate-grown : should_rotate grown limits ≡ true
unfolding should_rotate
should_rotate-grown = refl

-- Directories whose names are their days.
abbrev day : List ℕ → Option ℕ
day [] = none
day (d ∷ ds) = some (d * (24 * 60 * 60 * 1_000_000_000))

abbrev sessions : List (DirEntry ℕ)
sessions =
    record { path = 1; is_dir = true; name = some (3 ∷ []) }
    ∷ record { path = 2; is_dir = true; name = some (9 ∷ []) }
    ∷ record { path = 3; is_dir = false; name = some (1 ∷ []) }
    ∷ record { path = 4; is_dir = true; name = some [] }
    ∷ []

abbrev days : ℕ → ℕ
days n = n * (24 * 60 * 60 * 1_000_000_000)

apply-sessions :
    apply day (λ p. true) (record { keep_days = 5 }) sessions (days 10)
    ≡ record { deleted = 1 ∷ []; kept = 2 ∷ []; skipped = 4 ∷ [] }
unfolding apply apply_loop judge
apply-sessions = refl

read_at-append_example :
    let ((off, len), w) =
      append_raw 1
        (7 ∷ 8 ∷ 9 ∷ [])
        (after (appends 0 (5 ∷ []) ∷ flushes ∷ appends 0 (6 ∷ []) ∷ []) (create (1 ∷ 2 ∷ []))) in
    read_at off len (flush (after (appends 3 (4 ∷ []) ∷ []) w)).disk ≡ some (7 ∷ 8 ∷ 9 ∷ [])
unfolding create append_raw flush
read_at-append_example =
    read_at-append (1 ∷ 2 ∷ []) (7 ∷ 8 ∷ 9 ∷ [])
      (appends 0 (5 ∷ []) ∷ flushes ∷ appends 0 (6 ∷ []) ∷ []) (appends 3 (4 ∷ []) ∷ []) 1
      (omega arith) (omega arith)

-- Sinks that count their calls, and fail when they are called while at 3.
abbrev count_call : ℕ → Result (Unit {0}) × ℕ
count_call n = if n == 3 then (err source_open, n) else (ok tt, n + 1)
