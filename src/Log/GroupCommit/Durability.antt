-- ===== src/Log/GroupCommit/Durability.antt =====
-- What group_commit.rs promises of durability: `in_flight` is the number of bytes that a crash can
-- lose, and an append that returns leaves it below the size threshold.
use tracemux.Prelude.{
  ℕ, ◌+◌, ◌-◌, ◌^◌, ◌<◌, ◌≡◌, refl, ◌∙◌, List, arith, length, take, ◌++◌, length-append,
  take-append_le, take_all, leb, ◌||◌, if◌then◌else◌,
}
use tracemux.Error.{ok}
use tracemux.Log.Wal.{WalWriter, Io, done, fails, append}
use tracemux.Log.Wal.Codec.{IsPayload, encode_record, length-encode_record}
use tracemux.Log.Wal.Recovery.{writer_of}
use tracemux.Log.Wal.Append.{append-done}
use tracemux.Log.File.{sync_data}
use tracemux.Log.GroupCommit.{
  GroupCommit, buffered, synced, append_at, commit_at, sync_at, tick, saturating_add,
}

-- The writer stands at the end, and `in_flight` counts the bytes behind the durable prefix.
pub record IsTracked (g : GroupCommit) : Type 0 where
  pub at_end : g.wal.file.pos ≡ length g.wal.file.bytes
  pub ends : g.wal.end ≡ length g.wal.file.bytes
  pub counted : length g.wal.file.synced + g.in_flight ≡ length g.wal.file.bytes
  pub durable : take (length g.wal.file.synced) g.wal.file.bytes ≡ g.wal.file.synced

writer_of_ends :
    (w : WalWriter)
    → w.file.pos ≡ length w.file.bytes
    → w.end ≡ length w.file.bytes
    → w ≡ writer_of w.file.bytes w.file.synced
writer_of_ends w h k = ground arith

pub sync_at-IsTracked :
    (io : Io) (now : ℕ) {g : GroupCommit} → IsTracked g → IsTracked (sync_at io now g).1
unfolding sync_at sync_data
sync_at-IsTracked done now {g} v = record {
  at_end = v.at_end;
  ends = v.ends;
  counted = omega arith;
  durable = take_all (length g.wal.file.bytes) g.wal.file.bytes (omega arith);
}
sync_at-IsTracked (fails k) now v = v

pub append-wal :
    (crc32 : List ℕ → ℕ) (p : List ℕ) {g : GroupCommit}
    → IsTracked g
    → IsPayload p
    → let bytes = g.wal.file.bytes in
      append crc32 done done p g.wal
      ≡ (ok (length bytes + 8), writer_of (bytes ++ encode_record crc32 p) g.wal.file.synced)
append-wal crc32 p {g} v small = ground (
  arith,
  writer_of_ends g.wal v.at_end v.ends,
  append-done crc32 p g.wal.file.bytes g.wal.file.synced small,
)

-- The state between the append and the threshold test.
abbrev appended : (List ℕ → ℕ) → List ℕ → GroupCommit → GroupCommit
appended crc32 p g = record g {
  wal = writer_of (g.wal.file.bytes ++ encode_record crc32 p) g.wal.file.synced;
  in_flight = g.in_flight + (length p + 8);
}

appended-IsTracked :
    (crc32 : List ℕ → ℕ) (p : List ℕ) {g : GroupCommit}
    → IsTracked g
    → IsTracked (appended crc32 p g)
appended-IsTracked crc32 p {g} v = record {
  at_end = refl;
  ends = refl;
  counted =
      omega (
        arith,
        length-append g.wal.file.bytes (encode_record crc32 p),
        length-encode_record crc32 p,
      );
  durable =
      take-append_le (length g.wal.file.synced) g.wal.file.bytes (encode_record crc32 p)
        (omega arith)
      ∙ v.durable;
}

-- `append_at` whose writes succeed appends the record, and leaves the rest to `commit_at`.
append_at-eq-commit_at :
    (crc32 : List ℕ → ℕ) (io : Io) (p : List ℕ) (now : ℕ) {g : GroupCommit}
    → IsTracked g
    → IsPayload p
    → length g.wal.file.bytes + (length p + 8) < 2 ^ 64
    → append_at crc32 done done io p now g
      ≡ commit_at io (length g.wal.file.bytes + 8) now (appended crc32 p g)
unfolding append_at saturating_add
append_at-eq-commit_at crc32 io p now {g} v small room = ground (arith, append-wal crc32 p v small)

commit_at-IsTracked :
    (io : Io) (off now : ℕ) {g : GroupCommit} → IsTracked g → IsTracked (commit_at io off now g).1
unfolding commit_at
commit_at-IsTracked done off now v = ground (arith, sync_at-IsTracked done now v)
commit_at-IsTracked (fails k) off now v = ground arith

-- Where the cursor stands at the end and `in_flight` is the number of bytes not yet durable, an
-- append of a payload of at most 1 MiB whose writes succeed, to a file that stays below 2 ^ 64
-- bytes, keeps it so, whether its sync succeeds or fails.
pub append_at-IsTracked :
    (crc32 : List ℕ → ℕ) (io : Io) (p : List ℕ) (now : ℕ) {g : GroupCommit}
    → IsTracked g
    → IsPayload p
    → length g.wal.file.bytes + (length p + 8) < 2 ^ 64
    → IsTracked (append_at crc32 done done io p now g).1
append_at-IsTracked crc32 io p now {g} v small room =
    rw (append_at-eq-commit_at crc32 io p now v small room)
      (commit_at-IsTracked io (length g.wal.file.bytes + 8) now (appended-IsTracked crc32 p v))

pub tick-IsTracked :
    (io : Io) (now : ℕ) {g : GroupCommit} → IsTracked g → IsTracked (tick io now g).1
unfolding tick
tick-IsTracked done now v = ground (arith, sync_at-IsTracked done now v)
tick-IsTracked (fails k) now v = ground arith

-- Where the cursor stands at the end, `in_flight` is the number of bytes not yet durable and the
-- threshold of size is not zero, an append of a payload of at most 1 MiB whose writes and sync
-- succeed, to a file that stays below 2 ^ 64 bytes, returns the offset of the payload and leaves
-- fewer bytes not yet durable than the threshold; `synced` is reported exactly when the threshold
-- of size or time is met, and then every byte is durable.
pub append_at-durable :
    (crc32 : List ℕ → ℕ) (p : List ℕ) (now : ℕ) {g : GroupCommit}
    → IsTracked g
    → IsPayload p
    → length g.wal.file.bytes + (length p + 8) < 2 ^ 64
    → 0 < g.policy.size_bytes
    → let (r, g') = append_at crc32 done done done p now g in
      let due =
        leb g.policy.size_bytes (g.in_flight + (length p + 8))
        || leb g.policy.window (now - g.last_sync) in
      (r ≡ ok (length g.wal.file.bytes + 8, (if due then synced else buffered)))
      × (length g'.wal.file.bytes < length g'.wal.file.synced + g.policy.size_bytes)
      × (g'.wal.file.synced
          ≡ (if due then g.wal.file.bytes ++ encode_record crc32 p else g.wal.file.synced))
append_at-durable crc32 p now {g} v small room pos =
    rw (append_at-eq-commit_at crc32 done p now v small room)
      (unfold commit_at sync_data in ground (arith, (appended-IsTracked crc32 p v).counted))
