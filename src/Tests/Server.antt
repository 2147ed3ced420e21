-- ===== src/Tests/Server.antt =====
-- The server's parts, at concrete states.
use tracemux.Prelude.{
  ℕ, ◌-◌, ◌≡◌, refl, List, [], ◌∷◌, Option, none, some, Bool, false, ◌==◌, if◌then◌else◌, arith,
  nat_eq,
}
use tracemux.Prelude.Maps.{lookup}
use tracemux.Server.Hold.{HoldQueue, drop_oldest, new, push_all}
use tracemux.Server.Hold.Bounds.{kept, push_all_lem}
use tracemux.Server.Mux.{ChannelInfo, Mux, open_channel, len}
use tracemux.Server.Mux
use tracemux.Server.Coalesce.{hidden, Event, moved, asked}
use tracemux.Server.ConnCounter
use tracemux.Server.ConnCounter.{Thread, idle, loaded, holding, ConnState}
use tracemux.Server.ConnCounter.Interleave.{IsCounted, guards, run-IsCounted}
use tracemux.Session.Registry.{SessionState, Registry}
use tracemux.Server.Ingest.{Ingest}
use tracemux.Server.Ingest.Counts.{frame, drops, shown as shown_totals}

abbrev queue : HoldQueue ℕ
queue = record { inner = []; capacity = 2; policy = drop_oldest; dropped = 0 }

new-queue : new 2 drop_oldest ≡ some queue
unfolding new
new-queue = refl

push_all_lem_example :
    ((push_all queue (1 ∷ 2 ∷ 3 ∷ [])).inner ≡ kept drop_oldest 2 (1 ∷ 2 ∷ 3 ∷ []))
    × ((push_all queue (1 ∷ 2 ∷ 3 ∷ [])).dropped ≡ 3 - 2)
push_all_lem_example = push_all_lem drop_oldest 2 (1 ∷ 2 ∷ 3 ∷ []) new-queue

abbrev info : ChannelInfo
info = record { kind = "serial"; sid = some "7" }

abbrev wrapped : Mux
wrapped = record { next = 1; channels = (1, info) ∷ [] }

wrapped-info : Mux.get wrapped 1 ≡ some info
unfolding Mux.get lookup
wrapped-info = refl

abbrev asks : List Event
asks = asked 20_000_000 ∷ asked 30_000_000 ∷ moved hidden ∷ asked 60_000_000 ∷ []

abbrev two_threads : ConnState
two_threads = record { cur = 0; threads = idle ∷ idle ∷ [] }

abbrev schedule : List (ℕ × Bool)
schedule = (0, false) ∷ (1, false) ∷ (0, false) ∷ (1, false) ∷ (1, false) ∷ (0, false) ∷ []

two_threads-IsCounted : IsCounted 1 two_threads
two_threads-IsCounted = record { counted = unfold guards in refl; capped = omega arith }

run-IsCounted_example : IsCounted 1 (ConnCounter.run 1 schedule two_threads)
run-IsCounted_example = run-IsCounted 1 schedule (omega arith) two_threads-IsCounted

abbrev no_sessions : Registry ℕ
no_sessions = []

shown_one :
    shown_totals 1 (drops 2 3 ∷ frame 1 8 ∷ frame 1 42 ∷ [])
    ≡ some (record { frames_in = 2; bytes_logged = 50; dropped = 0 })
shown_one = refl

abbrev session : SessionState ℕ
session = record { sid = 5; kind = "mock"; iface = "loopback"; label = none; fanout = 3 }

abbrev server : Ingest ℕ
server = record { registry = []; counters = [] }

-- Every channel has as many subscribers as its number.
abbrev send : ℕ → List ℕ → Option ℕ
send channel b = if channel == 0 then none else some channel
