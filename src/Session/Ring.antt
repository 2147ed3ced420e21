-- ===== src/Session/Ring.antt =====
-- crates/core/src/session/ring.rs: a ring of entries bounded by its bytes. The counters are not
-- taken modulo 2 ^ 64: the ring would have to drop that many entries.
pub mod Window
use tracemux.Prelude.{
  ℕ, ◌+◌, ◌-◌, ◌*◌, List, [], ◌∷◌, ◌++◌, Option, none, some, Bool, length, ltb, leb, if◌then◌else◌,
  ◌==◌,
}

abbrev pub Bytes : Type 0
Bytes = List ℕ

-- `Ring`
pub record Ring : Type 0 where
  pub capacity : ℕ
  pub used : ℕ
  pub items : List Bytes
  pub dropped : ℕ

-- `DEFAULT_CAPACITY`, 8 MiB
abbrev pub default_capacity : ℕ
default_capacity = 8 * 1024 * 1024

-- `Ring::with_capacity`
unfoldable pub with_capacity : ℕ → Ring
with_capacity capacity = record { capacity = capacity; used = 0; items = []; dropped = 0 }

-- The loop of `push` on the items: the ring and the number evicted.
unfoldable pub evict : ℕ → Ring → List Bytes → ℕ → Ring × ℕ
evict n r [] evicted = (record r { items = [] }, evicted)
evict n r (old ∷ items) evicted =
    let next =
      evict n (record r { used = r.used - length old; dropped = r.dropped + 1 }) items
        (evicted + 1) in
    if ltb r.capacity (r.used + n) then next else (record r { items = old ∷ items }, evicted)

-- `Ring::push`
unfoldable pub push : Ring → Bytes → Ring × ℕ
unfolding evict
push r b =
    let (s, evicted) = evict (length b) r r.items 0 in
    if leb (length b) s.capacity
    then (record s { used = s.used + length b; items = s.items ++ b ∷ [] }, evicted)
    else (record s { dropped = s.dropped + 1 }, evicted + 1)

unfoldable pub pop_items : Ring → List Bytes → Option Bytes × Ring
pop_items r [] = (none, r)
pop_items r (b ∷ items) = (some b, record r { used = r.used - length b; items = items })

-- `Ring::pop`
unfoldable pub pop : Ring → Option Bytes × Ring
unfolding pop_items
pop r = pop_items r r.items

-- `Ring::len` and `Ring::is_empty`
unfoldable pub len : Ring → ℕ
len r = length r.items

unfoldable pub is_empty : Ring → Bool
is_empty r = length r.items == 0
