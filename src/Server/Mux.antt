-- ===== src/Server/Mux.antt =====
-- crates/server/src/mux.rs: the channels of one connection. `next` is an `AtomicU32`, whose
-- `fetch_add` wraps; the lock is taken not to be poisoned.
pub mod Fresh
use tracemux.Prelude.{ℕ, ◌+◌, ◌%◌, ◌^◌, String, Option, [], Bool, length, ◌==◌, nat_eq}
use tracemux.Prelude.Maps.{HashMap, lookup, insert, remove}

-- `ChannelInfo`
pub record ChannelInfo : Type 0 where
  pub kind : String
  pub sid : Option String

-- `Mux`, with `ChannelId` as its number
pub record Mux : Type 0 where
  pub next : ℕ
  pub channels : HashMap ℕ ChannelInfo

-- `Mux::new`
unfoldable pub new : Mux
new = record { next = 0; channels = [] }

-- `Mux::open`
unfoldable pub open_channel : Mux → ChannelInfo → ℕ × Mux
open_channel m info =
    (m.next, record { next = (m.next + 1) % 2 ^ 32; channels = insert m.next info m.channels })

-- `Mux::close`
unfoldable pub close : Mux → ℕ → Option ChannelInfo × Mux
close m id = (lookup id m.channels, record m { channels = remove id m.channels })

-- `Mux::get`
unfoldable pub get : Mux → ℕ → Option ChannelInfo
get m id = lookup id m.channels

-- `Mux::len` and `Mux::is_empty`
unfoldable pub len : Mux → ℕ
len m = length m.channels

unfoldable pub is_empty : Mux → Bool
is_empty m = len m == 0
