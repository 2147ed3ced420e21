-- ===== src/Server/Mux/Fresh.antt =====
-- The channel ids of mux.rs: new ones until the counter wraps, used ones after that.
use tracemux.Prelude.{
  ℕ, ◌+◌, ◌^◌, ◌≤◌, ◌<◌, ◌≡◌, refl, ◌∙◌, none, some, arith, ◌==◌, if◌then◌else◌, ==_self, nat_eq,
}
use tracemux.Prelude.Maps.{
  lookup, lookup-insert, lookup-remove, length-insert_new, length-insert_old,
}
use tracemux.Server.Mux.{ChannelInfo, Mux, new, open_channel, close, get, len}

-- No id from `next` on is in use: so it is until the counter wraps.
pub record IsFresh (m : Mux) : Type 0 where
  pub unused : (id : ℕ) → m.next ≤ id → get m id ≡ none

pub new-IsFresh : IsFresh new
unfolding new get lookup
new-IsFresh = record { unused = λ id h. refl }

pub open_channel-IsFresh :
    {m : Mux} (info : ChannelInfo)
    → m.next + 1 < 2 ^ 32
    → IsFresh m
    → IsFresh (open_channel m info).1
unfolding open_channel get
open_channel-IsFresh {m} info room v = record {
  unused = λ id h. ground (arith, lookup-insert m.next id info m.channels, v.unused id);
}

pub close-IsFresh : {m : Mux} (id : ℕ) → IsFresh m → IsFresh (close m id).1
unfolding close get
close-IsFresh {m} id v = record {
  unused = λ j h. ground (arith, lookup-remove id j m.channels, v.unused j);
}

-- Before the counter wraps, where no id from the counter on is in use, `open` hands out an id that
-- is not in use and below the next one; the channel is there, the others are as they were, and
-- there is one more.
pub open_channel_lem :
    {m : Mux} (info : ChannelInfo)
    → m.next + 1 < 2 ^ 32
    → IsFresh m
    → let (id, m') = open_channel m info in
      (get m id ≡ none)
      × (id < m'.next)
      × ((j : ℕ) → get m' j ≡ (if id == j then some info else get m j))
      × (len m' ≡ len m + 1)
unfolding open_channel get len
open_channel_lem {m} info room v = (
  v.unused m.next (omega arith),
  omega arith,
  λ j. lookup-insert m.next j info m.channels,
  length-insert_new m.next info m.channels (v.unused m.next (omega arith)),
)

-- When the counter stands at an id that is in use, `open` hands that id out again: the channel
-- that held it is replaced, and there are as many as before.
pub open_channel-reuse :
    (m : Mux) (info old : ChannelInfo)
    → get m m.next ≡ some old
    → let (id, m') = open_channel m info in
      (id ≡ m.next) × (get m' id ≡ some info) × (len m' ≡ len m)
unfolding open_channel get len
open_channel-reuse m info old h = (
  refl,
  lookup-insert m.next m.next info m.channels ∙ rw (==_self m.next),
  length-insert_old m.next info old m.channels h,
)

-- What `close` takes away is gone, it is what `get` showed, and no other channel changes.
pub close_lem :
    (m : Mux) (id : ℕ)
    → let (info, m') = close m id in
      (info ≡ get m id)
      × (m'.next ≡ m.next)
      × ((j : ℕ) → get m' j ≡ (if id == j then none else get m j))
unfolding close get
close_lem m id = (refl, refl, λ j. lookup-remove id j m.channels)
