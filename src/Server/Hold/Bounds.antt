-- ===== src/Server/Hold/Bounds.antt =====
-- What the queue of hold.rs keeps of a burst: its newest items or its oldest, by the policy.
use tracemux.Prelude.{
  ℕ, zero, suc, ◌-◌, ◌≤◌, ◌<◌, ◌≡◌, refl, ap, List, [], ◌∷◌, ◌++◌, some, arith, length, take, drop,
  ltb, length-append, append_assoc, append-nil, length-drop, length-take, take_all, drop_all,
  take-append_le, drop-append_le, Bool-cases, inl, inr,
}
use tracemux.Server.Hold.{
  DropPolicy, drop_oldest, drop_new, HoldQueue, new, push, pop_front, push_all,
}

module _ {A : Type 0} where
  length-pop_front : (xs : List A) → length (pop_front xs) ≡ length xs - 1
  unfolding pop_front
  length-pop_front [] = omega arith
  length-pop_front (x ∷ xs) = omega arith

  -- A queue never holds more than its capacity, and `push` and `pop` change neither that nor the
  -- policy.
  pub record IsBounded (q : HoldQueue A) : Type 0 where
    pub positive : 0 < q.capacity
    pub bounded : length q.inner ≤ q.capacity

  pub push-IsBounded : {q : HoldQueue A} (x : A) → IsBounded q → IsBounded (push q x).0
  unfolding push
  push-IsBounded {q} x v = ground (
    arith,
    length-append q.inner (x ∷ []),
    length-append (pop_front q.inner) (x ∷ []),
    length-pop_front q.inner,
  )

  -- The window that each policy keeps of all the items that were ever put in.
  abbrev pub kept : DropPolicy → ℕ → List A → List A
  kept drop_oldest size xs = drop (length xs - size) xs
  kept drop_new size xs = take size xs

  pop_front-drop : (k : ℕ) (xs : List A) → pop_front (drop k xs) ≡ drop (suc k) xs
  unfolding pop_front
  pop_front-drop zero [] = refl
  pop_front-drop zero (x ∷ xs) = refl
  pop_front-drop (suc k) [] = refl
  pop_front-drop (suc k) (x ∷ xs) = pop_front-drop k xs

  kept-nil : (policy : DropPolicy) (size : ℕ) → kept policy size [] ≡ []
  kept-nil drop_oldest size = drop_all (0 - size) [] (omega arith)
  kept-nil drop_new size = take_all size [] (omega arith)

  -- The queue after every item of `xs` was put in.
  record Holds (policy : DropPolicy) (size : ℕ) (xs : List A) (q : HoldQueue A) : Type 0 where
    capacity : q.capacity ≡ size
    policed : q.policy ≡ policy
    inner : q.inner ≡ kept policy size xs
    dropped : q.dropped ≡ length xs - size

  push-Holds :
      (policy : DropPolicy) (size : ℕ) (xs : List A) (x : A) (q : HoldQueue A)
      → 0 < size
      → Holds policy size xs q
      → Holds policy size (xs ++ x ∷ []) (push q x).0
  unfolding push
  push-Holds drop_oldest size xs x q h v =
      let k = length xs - size in
      elim (Bool-cases (ltb (length xs) size)) [
        | inl room ↦
            let all : k ≡ 0 = ground arith in
            let more : length (xs ++ x ∷ []) - size ≡ 0 =
              ground (arith, length-append xs (x ∷ [])) in
            ground (
              arith,
              v,
              ap (λ n. drop n xs) all,
              ap (λ n. drop n (xs ++ x ∷ [])) more,
              length-append xs (x ∷ []),
            )
        | inr full ↦
            let more : length (xs ++ x ∷ []) - size ≡ suc k =
              ground (arith, length-append xs (x ∷ [])) in
            ground (
              arith,
              v,
              length-drop k xs,
              pop_front-drop k xs,
              ap (λ n. drop n (xs ++ x ∷ [])) more,
              drop-append_le (suc k) xs (x ∷ []),
            )
      ]
  push-Holds drop_new size xs x q h v = ground (
    arith,
    v,
    length-take size xs,
    take_all size xs,
    take_all size (xs ++ x ∷ []),
    take-append_le size xs (x ∷ []),
    length-append xs (x ∷ []),
  )

  push_all-Holds :
      (policy : DropPolicy) (size : ℕ) (xs ys : List A) (q : HoldQueue A)
      → 0 < size
      → Holds policy size xs q
      → Holds policy size (xs ++ ys) (push_all q ys)
  unfolding push_all
  push_all-Holds policy size xs [] q h v = rw append-nil v
  push_all-Holds policy size xs (y ∷ ys) q h v = rw append_assoc at (
      push_all-Holds policy size (xs ++ y ∷ []) ys (push q y).0 h
        (push-Holds policy size xs y q h v))

  -- Of a burst a new queue keeps the newest items under `drop_oldest`, and the oldest under
  -- `drop_new`, as many as its capacity, and it counts the others.
  pub push_all_lem :
      (policy : DropPolicy) (size : ℕ) (xs : List A) {q : HoldQueue A}
      → new size policy ≡ some q
      → ((push_all q xs).inner ≡ kept policy size xs) × ((push_all q xs).dropped ≡ length xs - size)
  unfolding new
  push_all_lem policy size xs {q} e =
      let v : Holds policy size [] q = ground (arith, kept-nil policy size) in
      let end = push_all-Holds policy size [] xs q (ground arith) v in (end.inner, end.dropped)
