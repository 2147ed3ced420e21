-- ===== src/Server/Coalesce.antt =====
-- crates/server/src/coalesce.rs: the cadence at which a channel is flushed. Instants and durations
-- are nanoseconds; `saturating_duration_since` stops at zero, as `-` does.
pub mod Cadence
use tracemux.Prelude.{ℕ, ◌-◌, ◌*◌, Bool, true, false, List, [], ◌∷◌, leb, if◌then◌else◌}

-- `Bucket`
pub data Bucket : Type 0 where
  live visible hidden : Bucket

-- `Bucket::period`
unfoldable pub period : Bucket → ℕ
period live = 16 * 1_000_000
period visible = 500 * 1_000_000
period hidden = 2 * 1_000_000_000

-- `Coalescer`
pub record Coalescer : Type 0 where
  pub bucket : Bucket
  pub last_flush : ℕ

-- `Coalescer::new`, at the instant `now`
unfoldable pub new : Bucket → ℕ → Coalescer
new bucket now = record { bucket = bucket; last_flush = now }

-- `Coalescer::set_bucket`
unfoldable pub set_bucket : Bucket → Coalescer → Coalescer
set_bucket b c = record c { bucket = b }

-- `Coalescer::should_flush`
unfoldable pub should_flush : ℕ → Coalescer → Bool × Coalescer
unfolding period
should_flush now c =
    if leb (period c.bucket) (now - c.last_flush)
    then (true, record c { last_flush = now })
    else (false, c)

-- What happens to a channel: its panel moves to another bucket, or it asks whether to flush.
pub data Event : Type 0 where
  moved : Bucket → Event
  asked : ℕ → Event

-- The flushes, each with the bucket that it was made in.
unfoldable pub flushes : Coalescer → List Event → List (ℕ × Bucket)
flushes c [] = []
flushes c (moved b ∷ es) = flushes (set_bucket b c) es
flushes c (asked now ∷ es) =
    let (flush, c') = should_flush now c in
    let rest = flushes c' es in if flush then (now, c.bucket) ∷ rest else rest
