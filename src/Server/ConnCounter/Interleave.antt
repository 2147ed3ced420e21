-- ===== src/Server/ConnCounter/Interleave.antt =====
-- Under every interleaving the counter of ratelimit.rs is the number of guards, and within the cap.
use tracemux.Prelude.{
  ℕ, zero, suc, ◌+◌, ◌^◌, ◌≤◌, ◌<◌, ◌≡◌, List, [], ◌∷◌, Bool, false, ltb, if◌then◌else◌, arith,
}
use tracemux.Server.ConnCounter.{Thread, idle, loaded, holding, act, ConnState, act_at, run}

abbrev pub guards_of : Thread → ℕ
guards_of idle = 0
guards_of (loaded n) = 0
guards_of holding = 1

-- The guards that are alive.
unfoldable pub guards : List Thread → ℕ
guards [] = 0
guards (t ∷ ts) = guards_of t + guards ts

pub record IsCounted (limit : ℕ) (s : ConnState) : Type 0 where
  pub counted : s.cur ≡ guards s.threads
  pub capped : s.cur ≤ limit

act-counted :
    (limit : ℕ) (spurious : Bool) (cur others : ℕ) (t : Thread)
    → limit < 2 ^ 32
    → cur ≡ guards_of t + others
    → cur ≤ limit
    → let (cur', t') = act limit spurious cur t in (cur' ≡ guards_of t' + others) × (cur' ≤ limit)
unfolding act
act-counted limit spurious cur others idle h e c = ground arith
act-counted limit spurious cur others (loaded n) h e c = ground arith
act-counted limit spurious cur others holding h e c = ground arith

-- `others` are the guards of the threads before.
act_at-counted :
    (limit : ℕ) (spurious : Bool) (cur others i : ℕ) (ts : List Thread)
    → limit < 2 ^ 32
    → cur ≡ others + guards ts
    → cur ≤ limit
    → let (cur', ts') = act_at limit spurious cur i ts in
      (cur' ≡ others + guards ts') × (cur' ≤ limit)
unfolding act_at guards
act_at-counted limit spurious cur others i [] h e c = (e, c)
act_at-counted limit spurious cur others zero (t ∷ ts) h e c =
    omega (arith, act-counted limit spurious cur (others + guards ts) t h (omega arith) c)
act_at-counted limit spurious cur others (suc i) (t ∷ ts) h e c =
    omega (arith, act_at-counted limit spurious cur (others + guards_of t) i ts h (omega arith) c)

-- With a cap below 2 ^ 32, from a state in which the count is the number of guards alive and at
-- most the cap, however the threads interleave, and whichever exchanges fail spuriously, it stays
-- so.
pub run-IsCounted :
    (limit : ℕ) (schedule : List (ℕ × Bool)) {s : ConnState}
    → limit < 2 ^ 32
    → IsCounted limit s
    → IsCounted limit (run limit schedule s)
unfolding run
run-IsCounted limit [] h v = v
run-IsCounted limit ((i, spurious) ∷ schedule) {s} h v =
    let next =
      act_at-counted limit spurious s.cur 0 i s.threads h (omega (arith, v.counted)) v.capped in
    run-IsCounted limit schedule h (record { counted = omega (arith, next.0); capped = next.1 })

-- A thread that runs alone is done with `acquire` after two actions: with a guard below the cap,
-- and with nothing at the cap.
pub acquire_alone :
    (limit cur : ℕ)
    → let (cur₁, t₁) = act limit false cur idle in
      act limit false cur₁ t₁ ≡ (if ltb cur limit then (cur + 1, holding) else (cur, idle))
unfolding act
acquire_alone limit cur = ground arith
