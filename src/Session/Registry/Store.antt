-- ===== src/Session/Registry/Store.antt =====
-- The registry of registry.rs keeps the first session of an id.
use tracemux.Prelude.{
  ℕ, ◌+◌, ◌≡◌, refl, ◌∙◌, none, some, if◌then◌else◌, ◌==◌, arith, Option-cases, inl, inr, nat_eq,
  ==_self,
}
use tracemux.Prelude.Maps.{
  lookup, insert, remove, lookup-insert, lookup-remove, length-insert_new, IsMap, insert-IsMap,
  remove-IsMap,
}
use tracemux.Session.Registry.{SessionState, Registry, insert_if_absent, get, remove_session, len}

module _ {Channel : Type 0} where
  -- Every entry stands under the id of its session, and no id stands twice.
  pub record IsKeyed (m : Registry Channel) : Type 0 where
    pub keys : IsMap m
    pub own : (sid : ℕ) (s : SessionState Channel) → lookup sid m ≡ some s → s.sid ≡ sid

  pub insert-IsKeyed :
      (s : SessionState Channel) (m : Registry Channel) → IsKeyed m → IsKeyed (insert s.sid s m)
  insert-IsKeyed s m v = record {
    keys = insert-IsMap s.sid s m v.keys;
    own = λ sid t h. ground (arith, lookup-insert s.sid sid s m, v.own sid t);
  }

  -- Whatever is asked of a well-formed registry, it stays well formed.
  pub insert_if_absent-IsKeyed :
      (s : SessionState Channel) (m : Registry Channel)
      → IsKeyed m
      → IsKeyed (insert_if_absent s m).1
  unfolding insert_if_absent
  insert_if_absent-IsKeyed s m v = elim (Option-cases (lookup s.sid m)) [
    | inl h ↦ rw h (insert-IsKeyed s m v)
    | inr (t, h) ↦ rw h v
  ]

  pub remove_session-IsKeyed :
      (sid : ℕ) (m : Registry Channel) → IsKeyed m → IsKeyed (remove_session sid m).1
  unfolding remove_session
  remove_session-IsKeyed sid m v = record {
    keys = remove-IsMap sid m v.keys;
    own = λ j t h. ground (arith, lookup-remove sid j m, v.own j t);
  }

  lookup_inserted :
      (s : SessionState Channel) (m : Registry Channel) → lookup s.sid (insert s.sid s m) ≡ some s
  lookup_inserted s m = lookup-insert s.sid s.sid s m ∙ rw (==_self s.sid) refl

  -- In a well-formed registry `insert_if_absent` returns what stands under the id after the call,
  -- which has that id: the session that was there, with nothing changed, or else the new one, with
  -- one session more. No other id is touched, and a second call, with any session of that id,
  -- returns the same and changes nothing.
  pub insert_if_absent_lem :
      (s t : SessionState Channel) (m : Registry Channel)
      → IsKeyed m
      → t.sid ≡ s.sid
      → let (kept, m') = insert_if_absent s m in
        (get s.sid m' ≡ some kept)
        × (kept.sid ≡ s.sid)
        × (kept ≡ elim (get s.sid m) [ some old ↦ old | none ↦ s ])
        × (len m' ≡ elim (get s.sid m) [ some old ↦ len m | none ↦ len m + 1 ])
        × ((j : ℕ) → get j m' ≡ (if s.sid == j then some kept else get j m))
        × (insert_if_absent t m' ≡ (kept, m'))
  unfolding insert_if_absent get len
  insert_if_absent_lem s t m v same = elim (Option-cases (lookup s.sid m)) [
    | inl h ↦ rw h (
      lookup_inserted s m,
      refl,
      refl,
      length-insert_new s.sid s m h,
      (λ j. lookup-insert s.sid j s m),
      rw same (rw (lookup_inserted s m) refl),
    )
    | inr (old, h) ↦
        rw h (h, v.own s.sid old h, refl, refl, (λ j. ground (arith, h)), rw same (rw h refl))
  ]

  removed : (s : SessionState Channel) (m : Registry Channel) → lookup s.sid (remove s.sid m) ≡ none
  removed s m = lookup-remove s.sid s.sid m ∙ rw (==_self s.sid) refl

  -- What `remove` returns is what `get` showed, after it the id is free, and the others stay; so a
  -- session that is inserted after that is the one that is kept.
  pub remove_session_lem :
      (s : SessionState Channel) (m : Registry Channel)
      → let (gone, m') = remove_session s.sid m in
        (gone ≡ get s.sid m)
        × ((j : ℕ) → get j m' ≡ (if s.sid == j then none else get j m))
        × ((insert_if_absent s m').0 ≡ s)
  unfolding remove_session get insert_if_absent
  remove_session_lem s m = (refl, (λ j. lookup-remove s.sid j m), rw (removed s m) refl)
