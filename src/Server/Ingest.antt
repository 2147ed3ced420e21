-- ===== src/Server/Ingest.antt =====
-- crates/server/src/ingest.rs: the counters of the sessions and the way of a wire frame to the
-- subscribers. The counters have 64 bits and wrap. `send` is the broadcast channel of tokio: how
-- many subscribers take the bytes, `none` being its error that there are none.
pub mod Counts
use tracemux.Prelude.{
  ℕ, ◌+◌, ◌-◌, ◌%◌, ◌^◌, min, Option, none, some, List, [], ◌∷◌, if◌then◌else◌, length, nat_eq,
}
use tracemux.Prelude.Maps.{HashMap, lookup, insert}
use tracemux.Session.Registry.{SessionState, Registry, insert_if_absent, get}

-- `IngestStats`
pub record IngestStats : Type 0 where
  pub frames_in : ℕ
  pub bytes_logged : ℕ
  pub dropped : ℕ

-- `IngestStats::default`
abbrev pub no_stats : IngestStats
no_stats = record { frames_in = 0; bytes_logged = 0; dropped = 0 }

-- `m.entry(sid).or_default()`
unfoldable pub entry : ℕ → HashMap ℕ IngestStats → IngestStats
entry sid m = elim (lookup sid m) [ some e ↦ e | none ↦ no_stats ]

module _ (Channel : Type 0) where
  -- `Ingest`
  pub record Ingest : Type 0 where
    pub registry : Registry Channel
    pub counters : HashMap ℕ IngestStats

module _ {Channel : Type 0} where
  -- `Ingest::with_registry`; `Ingest::new` is it on an empty registry
  unfoldable pub with_registry : Registry Channel → Ingest Channel
  with_registry r = record { registry = r; counters = [] }

  -- `Ingest::register_session`
  unfoldable pub register_session : SessionState Channel → Ingest Channel → ℕ × Ingest Channel
  register_session s i =
      let (kept, r) = insert_if_absent s i.registry in (kept.sid, record i { registry = r })

  -- `Ingest::record_frame`
  unfoldable pub record_frame : ℕ → ℕ → Ingest Channel → Ingest Channel
  unfolding entry
  record_frame sid bytes i =
      let e = entry sid i.counters in
      record i {
        counters =
            insert sid
              (record e {
                frames_in = (e.frames_in + 1) % 2 ^ 64;
                bytes_logged = (e.bytes_logged + bytes) % 2 ^ 64;
              })
              i.counters;
      }

  -- `Ingest::record_drop`
  unfoldable pub record_drop : ℕ → ℕ → Ingest Channel → Ingest Channel
  unfolding entry
  record_drop sid n i =
      let e = entry sid i.counters in
      record i {
        counters = insert sid (record e { dropped = (e.dropped + n) % 2 ^ 64 }) i.counters;
      }

  -- `Ingest::stats`
  unfoldable pub stats : ℕ → Ingest Channel → Option IngestStats
  stats sid i = lookup sid i.counters

  module _ (send : Channel → List ℕ → Option ℕ) where
    -- `Fanout::publish`
    unfoldable pub publish : Channel → List ℕ → ℕ
    publish c b = elim (send c b) [ some n ↦ n | none ↦ 0 ]

    -- `Ingest::publish_wire`
    unfoldable pub publish_wire : ℕ → List ℕ → Ingest Channel → Option ℕ × Ingest Channel
    unfolding get publish
    publish_wire sid bytes i =
        let byte_count = min (length bytes) (2 ^ 64 - 1) in
        elim (get sid i.registry) [
          | some s ↦ (some (publish s.fanout bytes), record_frame sid byte_count i)
          | none ↦ (none, i)
        ]
