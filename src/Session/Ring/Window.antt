-- ===== src/Session/Ring/Window.antt =====
-- The ring of ring.rs as a window: the longest run of the newest entries that fits its capacity.
use tracemux.Prelude.{
  ℕ, ◌+◌, ◌-◌, ◌≤◌, ◌<◌, ◌≡◌, refl, ap, List, [], ◌∷◌, ◌++◌, none, some, arith, length, leb,
  if◌then◌else◌, length-append, inl, inr, ◌⊎◌,
}
use tracemux.Session.Ring.{Bytes, Ring, with_capacity, evict, push, pop, pop_items}

unfoldable pub total : List Bytes → ℕ
total [] = 0
total (b ∷ bs) = length b + total bs

-- The longest suffix of at most `cap` bytes.
unfoldable pub fit : ℕ → List Bytes → List Bytes
fit cap [] = []
fit cap (b ∷ bs) = if leb (total (b ∷ bs)) cap then b ∷ bs else fit cap bs

pub record IsValid (r : Ring) : Type 0 where
  pub counted : r.used ≡ total r.items
  pub bounded : r.used ≤ r.capacity

total-append : (xs ys : List Bytes) → total (xs ++ ys) ≡ total xs + total ys
unfolding total
total-append [] ys = omega arith
total-append (x ∷ xs) ys = omega (arith, total-append xs ys)

-- What the loop leaves, whatever it started from.
record Evicted (n : ℕ) (r : Ring) (items : List Bytes) (k : ℕ) (out : Ring × ℕ) : Type 0 where
  capacity : out.0.capacity ≡ r.capacity
  used : out.0.used ≡ total out.0.items
  dropped : out.0.dropped + k ≡ r.dropped + out.1
  count : out.1 + length out.0.items ≡ k + length items
  room : n ≤ r.capacity → out.0.used + n ≤ r.capacity
  none_left : r.capacity < n → out.0.items ≡ []

evict-Evicted :
    (n : ℕ) (r : Ring) (items : List Bytes) (k : ℕ)
    → r.used ≡ total items
    → Evicted n r items k (evict n r items k)
unfolding evict total
evict-Evicted n r [] k h = ground arith
evict-Evicted n r (b ∷ items) k h = ground (
  arith,
  evict-Evicted n (record r { used = r.used - length b; dropped = r.dropped + 1 }) items (k + 1),
)

-- The new entry behind what the loop leaves is the longest suffix that fits.
fit-evict :
    (b : Bytes) (r : Ring) (items : List Bytes) (k : ℕ)
    → r.used ≡ total items
    → length b ≤ r.capacity
    → fit r.capacity (items ++ b ∷ []) ≡ (evict (length b) r items k).0.items ++ b ∷ []
unfolding evict fit total
fit-evict b r [] k h small = ground arith
fit-evict b r (x ∷ items) k h small = ground (
  arith,
  total-append items (b ∷ []),
  fit-evict b (record r { used = r.used - length x; dropped = r.dropped + 1 }) items (k + 1),
)

fit_oversize :
    (cap : ℕ) (b : Bytes) (xs : List Bytes) → cap < length b → fit cap (xs ++ b ∷ []) ≡ []
unfolding fit total
fit_oversize cap b [] h = ground arith
fit_oversize cap b (x ∷ xs) h = ground (arith, total-append xs (b ∷ []), fit_oversize cap b xs h)

-- In a ring that holds what it counts, within its capacity, `push` leaves the longest run of the
-- newest entries that fits the capacity, the new one being the newest; what it returns, and adds
-- to `dropped`, is the number of entries that had to go; the capacity stays.
pub push_lem :
    {r : Ring} (b : Bytes)
    → IsValid r
    → let (r', evicted) = push r b in
      (r'.items ≡ fit r.capacity (r.items ++ b ∷ []))
      × (evicted + length r'.items ≡ length r.items + 1)
      × (r'.dropped ≡ r.dropped + evicted)
      × (r'.capacity ≡ r.capacity)
unfolding push
push_lem {r} b v =
    let e = evict-Evicted (length b) r r.items 0 v.counted in
    let s = (evict (length b) r r.items 0).0 in
    ground (
      arith,
      e.capacity,
      e.dropped,
      e.count,
      e.none_left,
      fit-evict b r r.items 0 v.counted,
      fit_oversize r.capacity b r.items,
      length-append s.items (b ∷ []),
    )

-- `push` and `pop` keep `used` the number of bytes held, and at most the capacity.
pub push-IsValid : {r : Ring} (b : Bytes) → IsValid r → IsValid (push r b).0
unfolding push total
push-IsValid {r} b v =
    let e = evict-Evicted (length b) r r.items 0 v.counted in
    let s = (evict (length b) r r.items 0).0 in
    ground (arith, e.capacity, e.used, e.room, e.none_left, total-append s.items (b ∷ []))

pop_items-IsValid :
    (items : List Bytes) {r : Ring} → r.items ≡ items → IsValid r → IsValid (pop_items r items).1
unfolding pop_items total
pop_items-IsValid [] {r} e v = v
pop_items-IsValid (b ∷ items) {r} e v = ground (arith, ap total e)

pub pop-IsValid : {r : Ring} → IsValid r → IsValid (pop r).1
unfolding pop
pop-IsValid {r} v = pop_items-IsValid r.items refl v

pub with_capacity-IsValid : (cap : ℕ) → IsValid (with_capacity cap)
unfolding with_capacity total
with_capacity-IsValid cap = omega arith

-- A client's calls in order.
pub data Op : Type 0 where
  put : Bytes → Op
  get : Op

unfoldable pub run : List Op → Ring → Ring
run [] r = r
run (put b ∷ ops) r = run ops (push r b).0
run (get ∷ ops) r = run ops (pop r).1

-- From a ring that holds what it counts, within its capacity, any calls lead to one that does.
pub run-IsValid : (ops : List Op) {r : Ring} → IsValid r → IsValid (run ops r)
unfolding run
run-IsValid [] v = v
run-IsValid (put b ∷ ops) v = run-IsValid ops (push-IsValid b v)
run-IsValid (get ∷ ops) v = run-IsValid ops (pop-IsValid v)

-- `pop` takes the oldest entry and leaves the others; an empty ring it leaves alone.
pub pop_lem :
    (r : Ring)
    → ((pop r).0 ≡ none) × (r.items ≡ []) × ((pop r).1 ≡ r)
      ⊎ ((b : Bytes) × ((pop r).0 ≡ some b) × (r.items ≡ b ∷ (pop r).1.items))
unfolding pop
pop_lem r = go r.items refl
  where
    go :
        (items : List Bytes)
        → r.items ≡ items
        → ((pop_items r items).0 ≡ none) × (r.items ≡ []) × ((pop_items r items).1 ≡ r)
          ⊎ ((b : Bytes) × ((pop_items r items).0 ≡ some b)
              × (r.items ≡ b ∷ (pop_items r items).1.items))
    go [] e = inl (refl, e, refl)
    go (b ∷ items) e = inr (b, refl, e)
