-- ===== src/Server/Coalesce/Cadence.antt =====
-- The flushes of coalesce.rs are spaced by the periods of their buckets.
use tracemux.Prelude.{ℕ, ◌+◌, ◌-◌, ◌≤◌, List, [], ◌∷◌, leb, arith, Bool-cases, inl, inr}
use tracemux.Server.Coalesce.{
  Bucket, live, visible, hidden, period, Coalescer, set_bucket, should_flush, Event, moved, asked,
  flushes,
}

-- Every flush comes at least the period of its bucket after the one before.
abbrev pub IsSpaced : ℕ → List (ℕ × Bucket) → Type 0
IsSpaced last [] = Unit
IsSpaced last ((now, b) ∷ fs) = (last + period b ≤ now) × IsSpaced now fs

period-pos : (b : Bucket) → 1 ≤ period b
unfolding period
period-pos live = omega arith
period-pos visible = omega arith
period-pos hidden = omega arith

-- Whatever moves the channel between buckets and whenever it asks, also at instants out of order,
-- its flushes are spaced by the periods of the buckets in which they are made.
pub flushes-IsSpaced : (es : List Event) (c : Coalescer) → IsSpaced c.last_flush (flushes c es)
unfolding flushes set_bucket should_flush
flushes-IsSpaced [] c = tt
flushes-IsSpaced (moved b ∷ es) c = flushes-IsSpaced es (record c { bucket = b })
flushes-IsSpaced (asked now ∷ es) c =
    elim (Bool-cases (leb (period c.bucket) (now - c.last_flush))) [
      | inl due ↦ rw due (
        (ground (arith, period-pos c.bucket)),
        flushes-IsSpaced es (record c { last_flush = now }),
      )
      | inr early ↦ rw early (flushes-IsSpaced es c)
    ]
