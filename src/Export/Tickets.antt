-- ===== src/Export/Tickets.antt =====
-- crates/server/src/export_api.rs: `DownloadTickets` and `BundleDownloadTickets`. A ticket is a text,
-- as its code points; an instant is a number of nanoseconds. The random text of a new ticket and the
-- instants of the clock are arguments.
pub mod Life
use tracemux.Prelude.{
  ℕ, ◌+◌, ◌*◌, List, ◌∷◌, [], Option, none, some, Bool, true, false, ltb, leb, if◌then◌else◌, Eq,
}
use tracemux.Prelude.Bytes.{bytes_key}
use tracemux.Prelude.Maps.{HashMap, lookup, insert, remove, retain}

-- `DOWNLOAD_TICKET_TTL`, 60 seconds
abbrev pub download_ticket_ttl : ℕ
download_ticket_ttl = 60 * 1_000_000_000

-- `DownloadTicket` and `BundleDownloadTicket`: what the ticket is for, and when it ends
pub record Ticket (A : Type 0) : Type 0 where
  pub scope : A
  pub expires_at : ℕ

-- `DownloadTickets` and `BundleDownloadTickets`
abbrev pub Tickets : Type 0 → Type 0
Tickets A = HashMap (List ℕ) (Ticket A)

-- The three refusals of `consume`, all of them with E-2101.
pub data TicketError : Type 0 where
  missing expired mismatch : TicketError

pub data Redeemed (A : Type 0) : Type 0 where
  granted : A → Redeemed A
  refused : TicketError → Redeemed A

module _ {A : Type 0} where
  -- `|_, ticket| ticket.expires_at > now`
  abbrev pub alive : ℕ → Ticket A → Bool
  alive now t = ltb now t.expires_at

  -- `prune_expired`
  unfoldable pub prune_expired : ℕ → Tickets A → Tickets A
  prune_expired now m = retain (alive now) m

  -- `issue`: the clock is read before the pruning and after it
  unfoldable pub issue : List ℕ → A → ℕ → ℕ → Tickets A → Tickets A
  unfolding prune_expired
  issue ticket scope now later m =
      insert ticket (record { scope = scope; expires_at = later + download_ticket_ttl })
        (prune_expired now m)

  -- The tests of `consume` on what was stored.
  abbrev pub check : ℕ → Option (Ticket A) → Redeemed A
  check now none = refused missing
  check now (some t) = if leb t.expires_at now then refused expired else granted t.scope

  -- `BundleDownloadTickets::consume`
  unfoldable pub redeem : List ℕ → ℕ → Tickets A → Redeemed A × Tickets A
  unfolding prune_expired
  redeem ticket now m =
      let live = prune_expired now m in (check now (lookup ticket live), remove ticket live)

  -- `DownloadTickets::consume`, which also compares the scope
  abbrev pub compare_scope : ⦃e : Eq A⦄ → A → Redeemed A → Redeemed A
  compare_scope scope (refused r) = refused r
  compare_scope ⦃e⦄ scope (granted s) = if e.beq s scope then granted s else refused mismatch

  unfoldable pub consume : ⦃e : Eq A⦄ → List ℕ → A → ℕ → Tickets A → Redeemed A × Tickets A
  unfolding redeem
  consume ticket scope now m = let (r, m') = redeem ticket now m in (compare_scope scope r, m')
