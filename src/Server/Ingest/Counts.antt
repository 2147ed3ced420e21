-- ===== src/Server/Ingest/Counts.antt =====
-- What the counters of ingest.rs show after any calls.
use tracemux.Prelude.{
  ℕ, ◌+◌, ◌%◌, ◌^◌, ◌<◌, ◌≡◌, ◌≢◌, ◌∙◌, refl, Option, none, some, List, [], ◌∷◌, Bool, true, false,
  if◌then◌else◌, ◌==◌, length, arith, Option-cases, inl, inr, ==_self, ==_iff, nat_eq,
}
use tracemux.Prelude.Maps.{HashMap, lookup, lookup-insert}
use tracemux.Session.Registry.{SessionState, Registry, insert_if_absent, get}
use tracemux.Server.Ingest.{
  IngestStats, no_stats, entry, Ingest, with_registry, record_frame, record_drop, stats, publish,
  register_session, publish_wire,
}

-- A call that counts.
pub data Op : Type 0 where
  frame drops : ℕ → ℕ → Op

module _ {Channel : Type 0} where
  abbrev pub act : Op → Ingest Channel → Ingest Channel
  act (frame sid bytes) i = record_frame sid bytes i
  act (drops sid n) i = record_drop sid n i

  -- The state after the calls, the last of them first.
  abbrev pub after : Registry Channel → List Op → Ingest Channel
  after r [] = with_registry r
  after r (o ∷ os) = act o (after r os)

-- What a session counted: frames, their bytes, and drops, none of them wrapped.
abbrev pub frames : ℕ → List Op → ℕ
frames sid [] = 0
frames sid (frame j bytes ∷ os) = (if j == sid then 1 else 0) + frames sid os
frames sid (drops j n ∷ os) = frames sid os

abbrev pub logged : ℕ → List Op → ℕ
logged sid [] = 0
logged sid (frame j bytes ∷ os) = (if j == sid then bytes else 0) + logged sid os
logged sid (drops j n ∷ os) = logged sid os

abbrev pub lost : ℕ → List Op → ℕ
lost sid [] = 0
lost sid (frame j bytes ∷ os) = lost sid os
lost sid (drops j n ∷ os) = (if j == sid then n else 0) + lost sid os

abbrev pub names : ℕ → List Op → Bool
names sid [] = false
names sid (frame j bytes ∷ os) = if j == sid then true else names sid os
names sid (drops j n ∷ os) = if j == sid then true else names sid os

abbrev pub totals : ℕ → List Op → IngestStats
totals sid os = record {
  frames_in = frames sid os % 2 ^ 64;
  bytes_logged = logged sid os % 2 ^ 64;
  dropped = lost sid os % 2 ^ 64;
}

-- The entry of a session that shows its totals, or is not there yet.
abbrev pub shown : ℕ → List Op → Option IngestStats
shown sid os = if names sid os then some (totals sid os) else none

no_frames : (sid : ℕ) (os : List Op) → names sid os ≡ false → totals sid os ≡ no_stats
no_frames sid [] h = refl
no_frames sid (frame j bytes ∷ os) h = ground (arith, no_frames sid os)
no_frames sid (drops j n ∷ os) h = ground (arith, no_frames sid os)

entry-shown :
    (sid : ℕ) (os : List Op) (m : HashMap ℕ IngestStats)
    → lookup sid m ≡ shown sid os
    → entry sid m ≡ totals sid os
unfolding entry
entry-shown sid os m h = ground (arith, no_frames sid os)

module _ {Channel : Type 0} where
  -- After any calls on an ingest with no counters, `stats` shows for every session the number of
  -- its frames, of their bytes and of its drops, each modulo 2 ^ 64, and nothing for a session that
  -- no call named.
  pub stats-after :
      (r : Registry Channel) (os : List Op) (sid : ℕ) → stats sid (after r os) ≡ shown sid os
  unfolding stats with_registry record_frame record_drop lookup
  stats-after r [] sid = refl
  stats-after r (frame j bytes ∷ os) sid =
      lookup-insert j sid
        (record (entry j (after r os).counters) {
          frames_in = ((entry j (after r os).counters).frames_in + 1) % 2 ^ 64;
          bytes_logged = ((entry j (after r os).counters).bytes_logged + bytes) % 2 ^ 64;
        })
        (after r os).counters
      ∙ ground (
        arith,
        ==_iff j sid,
        stats-after r os sid,
        entry-shown j os (after r os).counters (stats-after r os j),
      )
  stats-after r (drops j n ∷ os) sid =
      lookup-insert j sid
        (record (entry j (after r os).counters) {
          dropped = ((entry j (after r os).counters).dropped + n) % 2 ^ 64;
        })
        (after r os).counters
      ∙ ground (
        arith,
        ==_iff j sid,
        stats-after r os sid,
        entry-shown j os (after r os).counters (stats-after r os j),
      )

  -- After a session is registered, bytes of fewer than 2 ^ 64 for its id are delivered: to the
  -- channel of the session that had the id before, if there was one, else to the channel of the new
  -- one; they count as one frame of that id, also when there is no subscriber. What is delivered for
  -- another id is what would have been before.
  pub publish_wire-register_session :
      (send : Channel → List ℕ → Option ℕ) (s : SessionState Channel) (bytes : List ℕ)
      (i : Ingest Channel) (j : ℕ)
      → length bytes < 2 ^ 64
      → j ≢ s.sid
      → let (sid, i') = register_session s i in
        (publish_wire send s.sid bytes i' ≡ (
          some (
              publish send
                (elim (get s.sid i.registry) [ some old ↦ old.fanout | none ↦ s.fanout ])
                bytes),
          record_frame s.sid (length bytes) i',
        ))
        × ((publish_wire send j bytes i').0 ≡ (publish_wire send j bytes i).0)
  unfolding publish_wire register_session insert_if_absent get
  publish_wire-register_session send s bytes i j h other =
      elim (Option-cases (lookup s.sid i.registry)) [
        | inl new ↦ (
          ground (arith, lookup-insert s.sid s.sid s i.registry, ==_self s.sid),
          ground (arith, lookup-insert s.sid j s i.registry, ==_iff s.sid j),
        )
        | inr (old, there) ↦ (ground arith, ground arith)
      ]
