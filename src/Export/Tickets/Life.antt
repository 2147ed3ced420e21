-- ===== src/Export/Tickets/Life.antt =====
-- The life of a download ticket of export_api.rs: good once, until it ends.
use tracemux.Prelude.{
  ℕ, ◌+◌, ◌<◌, ◌≡◌, ◌∙◌, refl, List, ◌∷◌, [], none, some, false, if◌then◌else◌, Eq, arith, All,
}
use tracemux.Prelude.Bytes.{bytes_key, bytes_eq, bytes_eq_self}
use tracemux.Prelude.Maps.{
  lookup, retain, kept_if, lookup-retain, retain-IsMap, lookup-insert, lookup-remove, insert-IsMap,
  remove-IsMap, IsMap, beq_self,
}
use tracemux.Export.Tickets.{
  Ticket, Tickets, missing, granted, refused, alive, prune_expired, issue, check, redeem,
  compare_scope, consume, download_ticket_ttl,
}

-- What clients do with the tickets.
pub data Call (A : Type 0) : Type 0 where
  issues : List ℕ → A → ℕ → ℕ → Call A
  consumes : List ℕ → A → ℕ → Call A

module _ {A : Type 0} ⦃e : Eq A⦄ where
  abbrev pub call : Call A → Tickets A → Tickets A
  call (issues ticket scope now later) m = issue ticket scope now later m
  call (consumes ticket scope now) m = (consume ticket scope now m).1

  unfoldable pub after : List (Call A) → Tickets A → Tickets A
  after [] m = m
  after (c ∷ cs) m = after cs (call c m)

  lookup-issue :
      (ticket j : List ℕ) (scope : A) (now later : ℕ) (m : Tickets A)
      → IsMap m
      → lookup j (issue ticket scope now later m) ≡ (
          if bytes_eq ticket j
          then some (record { scope = scope; expires_at = later + download_ticket_ttl })
          else kept_if (alive now) (lookup j m))
  unfolding issue prune_expired
  lookup-issue ticket j scope now later m h = rw⁻¹ (lookup-retain (alive now) j m h) (
      lookup-insert ticket j (record { scope = scope; expires_at = later + download_ticket_ttl })
        (retain (alive now) m))

  lookup-consume :
      (ticket j : List ℕ) (scope : A) (now : ℕ) (m : Tickets A)
      → IsMap m
      → lookup j (consume ticket scope now m).1
        ≡ (if bytes_eq ticket j then none else kept_if (alive now) (lookup j m))
  unfolding consume redeem prune_expired
  lookup-consume ticket j scope now m h =
      rw⁻¹ (lookup-retain (alive now) j m h) (lookup-remove ticket j (retain (alive now) m))

  call-IsMap : (c : Call A) (m : Tickets A) → IsMap m → IsMap (call c m)
  unfolding issue consume redeem prune_expired
  call-IsMap (issues ticket scope now later) m h =
      insert-IsMap ticket (record { scope = scope; expires_at = later + download_ticket_ttl })
        (retain (alive now) m) (retain-IsMap (alive now) m h)
  call-IsMap (consumes ticket scope now) m h =
      remove-IsMap ticket (retain (alive now) m) (retain-IsMap (alive now) m h)

  pub after-IsMap : (cs : List (Call A)) (m : Tickets A) → IsMap m → IsMap (after cs m)
  unfolding after
  after-IsMap [] m h = h
  after-IsMap (c ∷ cs) m h = after-IsMap cs (call c m) (call-IsMap c m h)

  -- A call that is about other tickets and reads the clock before the instant `end`.
  abbrev pub Spares : List ℕ → ℕ → Call A → Type 0
  Spares ticket end (issues t scope now later) = (bytes_eq t ticket ≡ false) × (now < end)
  Spares ticket end (consumes t scope now) = (bytes_eq t ticket ≡ false) × (now < end)

  -- A call that does not issue the ticket.
  abbrev pub Leaves : List ℕ → Call A → Type 0
  Leaves ticket (issues t scope now later) = bytes_eq t ticket ≡ false
  Leaves ticket (consumes t scope now) = Unit

  call-Spares :
      (ticket : List ℕ) (t : Ticket A) (c : Call A) (m : Tickets A)
      → IsMap m
      → lookup ticket m ≡ some t
      → Spares ticket t.expires_at c
      → lookup ticket (call c m) ≡ some t
  call-Spares ticket t (issues j scope now later) m h there (other, early) =
      lookup-issue j ticket scope now later m h ∙ rw other (rw there (ground (arith, early)))
  call-Spares ticket t (consumes j scope now) m h there (other, early) =
      lookup-consume j ticket scope now m h ∙ rw other (rw there (ground (arith, early)))

  after-Spares :
      (ticket : List ℕ) (t : Ticket A) (cs : List (Call A)) (m : Tickets A)
      → IsMap m
      → lookup ticket m ≡ some t
      → All (Spares ticket t.expires_at) cs
      → lookup ticket (after cs m) ≡ some t
  unfolding after
  after-Spares ticket t [] m h there s = there
  after-Spares ticket t (c ∷ cs) m h there s =
      after-Spares ticket t cs (call c m) (call-IsMap c m h) (call-Spares ticket t c m h there s.0)
        s.1

  call-Leaves :
      (ticket : List ℕ) (c : Call A) (m : Tickets A)
      → IsMap m
      → lookup ticket m ≡ none
      → Leaves ticket c
      → lookup ticket (call c m) ≡ none
  call-Leaves ticket (issues j scope now later) m h gone other =
      lookup-issue j ticket scope now later m h ∙ rw other (rw gone refl)
  call-Leaves ticket (consumes j scope now) m h gone s =
      lookup-consume j ticket scope now m h ∙ rw gone (ground arith)

  after-Leaves :
      (ticket : List ℕ) (cs : List (Call A)) (m : Tickets A)
      → IsMap m
      → lookup ticket m ≡ none
      → All (Leaves ticket) cs
      → lookup ticket (after cs m) ≡ none
  unfolding after
  after-Leaves ticket [] m h gone s = gone
  after-Leaves ticket (c ∷ cs) m h gone s =
      after-Leaves ticket cs (call c m) (call-IsMap c m h) (call-Leaves ticket c m h gone s.0) s.1

  consume_lem :
      (ticket : List ℕ) (scope : A) (now : ℕ) (m : Tickets A)
      → IsMap m
      → (consume ticket scope now m).0
        ≡ compare_scope scope (check now (kept_if (alive now) (lookup ticket m)))
  unfolding consume redeem prune_expired
  consume_lem ticket scope now m h = rw (lookup-retain (alive now) ticket m h) refl

  check-alive :
      (now : ℕ) (t : Ticket A)
      → now < t.expires_at
      → check now (kept_if (alive now) (some t)) ≡ granted t.scope
  check-alive now t early = ground (arith, early)

  -- A ticket that was issued is granted to who consumes it with its scope, less than 60 seconds
  -- after the instant its issuing ended at, whatever other tickets were issued and consumed in
  -- between, at instants before that end.
  pub consume-issue :
      (ticket : List ℕ) (scope : A) (first later now : ℕ) (cs : List (Call A)) (m : Tickets A)
      → IsMap m
      → All (Spares ticket (later + download_ticket_ttl)) cs
      → now < later + download_ticket_ttl
      → (consume ticket scope now (after cs (issue ticket scope first later m))).0 ≡ granted scope
  consume-issue ticket scope first later now cs m h s early =
      let t : Ticket A = record { scope = scope; expires_at = later + download_ticket_ttl } in
      let m' = issue ticket scope first later m in
      let h' : IsMap m' = issued h in
      consume_lem ticket scope now (after cs m') (after-IsMap cs m' h')
      ∙ rw (after-Spares ticket t cs m' h' there s)
          (rw (check-alive now t early) (rw (beq_self scope) refl))
    where
      issued : IsMap m → IsMap (issue ticket scope first later m)
      issued h = call-IsMap (issues ticket scope first later) m h

      there :
          lookup ticket (issue ticket scope first later m)
          ≡ some (record { scope = scope; expires_at = later + download_ticket_ttl })
      there = lookup-issue ticket ticket scope first later m h ∙ rw (bytes_eq_self ticket) refl

  -- A ticket that was consumed, with success or without, is refused as missing to whoever consumes it
  -- again, at any instant and with any scope, as long as it was not issued anew in between.
  pub consume-twice :
      (ticket : List ℕ) (scope scope' : A) (now now' : ℕ) (cs : List (Call A)) (m : Tickets A)
      → IsMap m
      → All (Leaves ticket) cs
      → (consume ticket scope' now' (after cs (consume ticket scope now m).1)).0 ≡ refused missing
  consume-twice ticket scope scope' now now' cs m h s =
      let m' = (consume ticket scope now m).1 in
      let h' : IsMap m' = consumed h in
      consume_lem ticket scope' now' (after cs m') (after-IsMap cs m' h')
      ∙ rw (after-Leaves ticket cs m' h' gone s) refl
    where
      consumed : IsMap m → IsMap (consume ticket scope now m).1
      consumed h = call-IsMap (consumes ticket scope now) m h

      gone : lookup ticket (consume ticket scope now m).1 ≡ none
      gone = lookup-consume ticket ticket scope now m h ∙ rw (bytes_eq_self ticket) refl
