-- ===== src/Server/ConnCounter.antt =====
-- crates/server/src/ratelimit.rs: `ConnCounter`, the lock-free cap on the connections. The atomic
-- actions of the threads interleave in any order; `fetch_sub` wraps at 2 ^ 32.
pub mod Interleave
use tracemux.Prelude.{
  ℕ, zero, suc, ◌+◌, ◌-◌, ◌%◌, ◌^◌, List, [], ◌∷◌, Bool, not, ◌&&◌, leb, ◌==◌, if◌then◌else◌,
}

-- `MAX_CONNS`
abbrev pub max_conns : ℕ
max_conns = 32

-- Where a thread stands: outside, in the loop of `acquire` with the count that it has read, or with
-- a guard in its hand.
pub data Thread : Type 0 where
  idle : Thread
  loaded : ℕ → Thread
  holding : Thread

-- The next atomic action of a thread, on the count: the load of `acquire`; a round of its loop,
-- which gives up at the cap or tries `compare_exchange_weak`, which may fail spuriously; the
-- `fetch_sub` of the guard's `drop`.
unfoldable pub act : ℕ → Bool → ℕ → Thread → ℕ × Thread
act limit spurious cur idle = (cur, loaded cur)
act limit spurious cur (loaded seen) =
    if leb limit seen
    then (cur, idle)
    else if cur == seen && not spurious
    then (cur + 1, holding)
    else (cur, loaded cur)
act limit spurious cur holding = ((cur + 2 ^ 32 - 1) % 2 ^ 32, idle)

pub record ConnState : Type 0 where
  pub cur : ℕ
  pub threads : List Thread

-- The thread with index `i` acts; there is no thread beyond the last.
unfoldable pub act_at : ℕ → Bool → ℕ → ℕ → List Thread → ℕ × List Thread
unfolding act
act_at limit spurious cur i [] = (cur, [])
act_at limit spurious cur zero (t ∷ ts) =
    let (cur', t') = act limit spurious cur t in (cur', t' ∷ ts)
act_at limit spurious cur (suc i) (t ∷ ts) =
    let (cur', ts') = act_at limit spurious cur i ts in (cur', t ∷ ts')

-- A schedule says which thread acts next, and whether its exchange fails spuriously.
unfoldable pub run : ℕ → List (ℕ × Bool) → ConnState → ConnState
run limit [] s = s
run limit ((i, spurious) ∷ schedule) s =
    let (cur, threads) = act_at limit spurious s.cur i s.threads in
    run limit schedule (record { cur = cur; threads = threads })
