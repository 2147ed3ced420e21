-- ===== src/Log/GroupCommit.antt =====
-- crates/core/src/log/group_commit.rs: the fsync scheduler around the write-ahead log.
-- Instants and durations are nanoseconds; `Instant::duration_since` stops at zero, as `-` does.
pub mod Durability
use tracemux.Prelude.{
  ℕ, ◌+◌, ◌-◌, ◌*◌, ◌^◌, List, Bool, true, false, ◌||◌, min, length, leb, ◌==◌, if◌then◌else◌,
}
use tracemux.Error.{Result, ok, err}
use tracemux.Log.Wal.{WalWriter, Io, append, sync}

-- `CommitPolicy`
pub record CommitPolicy : Type 0 where
  pub window : ℕ
  pub size_bytes : ℕ

-- `CommitPolicy::default`: 50 ms and 256 KiB.
unfoldable pub default : CommitPolicy
default = record { window = 50 * 1_000_000; size_bytes = 256 * 1024 }

-- `GroupCommit`
pub record GroupCommit : Type 0 where
  pub wal : WalWriter
  pub policy : CommitPolicy
  pub in_flight : ℕ
  pub last_sync : ℕ

-- `CommitOutcome`
pub data CommitOutcome : Type 0 where
  buffered synced : CommitOutcome

-- `GroupCommit::new`, at the instant `now`.
unfoldable pub new : WalWriter → CommitPolicy → ℕ → GroupCommit
new wal policy now = record { wal = wal; policy = policy; in_flight = 0; last_sync = now }

-- `u64::saturating_add`
unfoldable pub saturating_add : ℕ → ℕ → ℕ
saturating_add a b = min (a + b) (2 ^ 64 - 1)

unfoldable pub should_sync : ℕ → GroupCommit → Bool
should_sync now g = leb g.policy.size_bytes g.in_flight || leb g.policy.window (now - g.last_sync)

-- A sync, and the reset of the counters if it succeeds.
unfoldable pub sync_at : Io → ℕ → GroupCommit → Result (Unit {0}) × GroupCommit
unfolding sync
sync_at io now g =
    let (r, w) = sync io g.wal in
    elim r [
      | ok _ ↦ (ok tt, record g { wal = w; in_flight = 0; last_sync = now })
      | err e ↦ (err e, record g { wal = w })
    ]

-- The part of `append_at` behind the append.
unfoldable pub commit_at : Io → ℕ → ℕ → GroupCommit → Result (ℕ × CommitOutcome) × GroupCommit
unfolding should_sync sync_at
commit_at io off now g =
    if should_sync now g
    then (let (r, g') = sync_at io now g in
        elim r [ ok _ ↦ (ok (off, synced), g') | err e ↦ (err e, g') ])
    else (ok (off, buffered), g)

-- `GroupCommit::append_at`, with the outcomes of the two writes and of the sync.
unfoldable pub append_at :
    (List ℕ → ℕ)
    → Io
    → Io
    → Io
    → List ℕ
    → ℕ
    → GroupCommit
    → Result (ℕ × CommitOutcome) × GroupCommit
unfolding commit_at saturating_add
append_at crc32 io₁ io₂ io₃ payload now g =
    let (r, w) = append crc32 io₁ io₂ payload g.wal in
    elim r [
      | ok off ↦
          commit_at io₃ off now
            (record g { wal = w; in_flight = saturating_add g.in_flight (length payload + 8) })
      | err e ↦ (err e, record g { wal = w })
    ]

-- `GroupCommit::flush`
unfoldable pub flush : Io → ℕ → GroupCommit → Result (Unit {0}) × GroupCommit
unfolding sync_at
flush io now g = sync_at io now g

-- `GroupCommit::tick`
unfoldable pub tick : Io → ℕ → GroupCommit → Result Bool × GroupCommit
unfolding sync_at
tick io now g =
    if g.in_flight == 0
    then (ok false, g)
    else if leb g.policy.window (now - g.last_sync)
    then (let (r, g') = sync_at io now g in elim r [ ok _ ↦ (ok true, g') | err e ↦ (err e, g') ])
    else (ok false, g)
