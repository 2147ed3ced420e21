-- ===== src/Session/Registry.antt =====
-- crates/core/src/session/registry.rs: the sessions of the server by id. A session id is a number of
-- 128 bits, and the lock makes each operation one step. The fan-out of a session is
-- crates/core/src/session/fanout.rs around the broadcast channel of tokio, which is the parameter
-- `Channel`.
pub mod Store
use tracemux.Prelude.{ℕ, ◌==◌, String, Option, none, some, Bool, length, List, [], map, nat_eq}
use tracemux.Prelude.Maps.{HashMap, lookup, insert, remove}

-- `SessionState`
pub record SessionState (Channel : Type 0) : Type 0 where
  pub sid : ℕ
  pub kind : String
  pub iface : String
  pub label : Option String
  pub fanout : Channel

-- `Registry`
abbrev pub Registry : Type 0 → Type 0
Registry Channel = HashMap ℕ (SessionState Channel)

module _ {Channel : Type 0} where
  -- `SessionState::new`, with the random id and the new channel that it draws
  unfoldable pub new_session : ℕ → Channel → String → String → SessionState Channel
  new_session sid fanout kind iface = record {
    sid = sid;
    kind = kind;
    iface = iface;
    label = none;
    fanout = fanout;
  }

  -- `Registry::insert`
  unfoldable pub insert_session : SessionState Channel → Registry Channel → ℕ × Registry Channel
  insert_session s m = (s.sid, insert s.sid s m)

  -- `Registry::insert_if_absent`: the session that is there, or else the new one
  abbrev pub kept_or :
      Option (SessionState Channel)
      → SessionState Channel
      → Registry Channel
      → SessionState Channel × Registry Channel
  kept_or (some existing) s m = (existing, m)
  kept_or none s m = (s, insert s.sid s m)

  unfoldable pub insert_if_absent :
      SessionState Channel → Registry Channel → SessionState Channel × Registry Channel
  insert_if_absent s m = kept_or (lookup s.sid m) s m

  -- `Registry::get`
  unfoldable pub get : ℕ → Registry Channel → Option (SessionState Channel)
  get sid m = lookup sid m

  -- `Registry::remove`
  unfoldable pub remove_session :
      ℕ → Registry Channel → Option (SessionState Channel) × Registry Channel
  remove_session sid m = (lookup sid m, remove sid m)

  -- `Registry::ids`
  unfoldable pub ids : Registry Channel → List ℕ
  ids m = map (λ p. p.0) m

  -- `Registry::len` and `Registry::is_empty`
  unfoldable pub len : Registry Channel → ℕ
  len m = length m

  unfoldable pub is_empty : Registry Channel → Bool
  is_empty m = length m == 0
