-- ===== src/Server/Hold.antt =====
-- crates/server/src/hold.rs: the bounded queue in front of a slow client. The drop counter is not
-- taken modulo 2 ^ 64.
pub mod Bounds
use tracemux.Prelude.{
  ℕ, ◌+◌, List, [], ◌∷◌, ◌++◌, Option, none, some, Bool, true, false, length, ltb, ◌==◌,
  if◌then◌else◌,
}

-- `DropPolicy`
pub data DropPolicy : Type 0 where
  drop_oldest drop_new : DropPolicy

module _ {ℓ} where
  -- `HoldQueue`
  pub record HoldQueue (A : Type ℓ) : Type ℓ where
    pub inner : List A
    pub capacity : ℕ
    pub policy : DropPolicy
    pub dropped : ℕ

module _ {ℓ} {A : Type ℓ} where
  -- `HoldQueue::new`; `none` is the panic at capacity 0.
  unfoldable pub new : ℕ → DropPolicy → Option (HoldQueue A)
  new capacity policy =
      if capacity == 0
      then none
      else some (record { inner = []; capacity = capacity; policy = policy; dropped = 0 })

  -- `VecDeque::pop_front`, the queue alone
  unfoldable pub pop_front : List A → List A
  pop_front [] = []
  pop_front (x ∷ xs) = xs

  -- `HoldQueue::push`
  unfoldable pub push : HoldQueue A → A → HoldQueue A × Bool
  unfolding pop_front
  push q item =
      if ltb (length q.inner) q.capacity
      then (record q { inner = q.inner ++ item ∷ [] }, true)
      else elim q.policy [
        | drop_oldest ↦
            (record q { inner = pop_front q.inner ++ item ∷ []; dropped = q.dropped + 1 }, true)
        | drop_new ↦ (record q { dropped = q.dropped + 1 }, false)
      ]

  unfoldable pub pop_inner : HoldQueue A → List A → Option A × HoldQueue A
  pop_inner q [] = (none, q)
  pop_inner q (x ∷ xs) = (some x, record q { inner = xs })

  -- `HoldQueue::pop`
  unfoldable pub pop : HoldQueue A → Option A × HoldQueue A
  unfolding pop_inner
  pop q = pop_inner q q.inner

  -- The calls of a producer, in order.
  unfoldable pub push_all : HoldQueue A → List A → HoldQueue A
  push_all q [] = q
  push_all q (x ∷ xs) = push_all (push q x).0 xs

  -- `HoldQueue::len` and `HoldQueue::is_empty`
  unfoldable pub len : HoldQueue A → ℕ
  len q = length q.inner

  unfoldable pub is_empty : HoldQueue A → Bool
  is_empty q = length q.inner == 0
