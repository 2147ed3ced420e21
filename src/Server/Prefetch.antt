-- ===== src/Server/Prefetch.antt =====
-- crates/server/src/source_manager.rs: `prefetch_for_detection` and `PrefetchedSource`. A source is what
-- arrives from it: frames, errors, and pauses longer than the timeout of the detection. Opening it does
-- not fail, and a `recv` that is cancelled loses no frame. Byte strings and texts are
-- lists of numbers.
pub mod Order
use tracemux.Prelude.{
  ℕ, zero, suc, ◌+◌, ◌-◌, ◌*◌, min, List, [], ◌∷◌, ◌++◌, Bool, true, false, not, ◌&&◌, Option, none,
  some, length, take, ltb, if◌then◌else◌,
}

-- `Frame`
pub data Frame : Type 0 where
  bytes : List ℕ → Frame
  datagram : Option (List ℕ) → List ℕ → Frame
  ssh : ℕ → List ℕ → Frame
  visa : Bool → List ℕ → Frame
  other : List ℕ → List ℕ → Frame

-- `frame_bytes`, which finds bytes in every frame there is
unfoldable pub frame_bytes : Frame → List ℕ
frame_bytes (bytes b) = b
frame_bytes (datagram src b) = b
frame_bytes (ssh stream b) = b
frame_bytes (visa eom b) = b
frame_bytes (other kind b) = b

-- What arrives.
pub data Arrival : Type 0 where
  frame : Frame → Arrival
  pause failure : Arrival

-- What `recv` gives: a frame, the end, or an error.
pub data Received : Type 0 where
  got : Frame → Received
  ended failed : Received

-- A source: what is still to arrive, whether a `recv` after the end gives the end again (that of
-- source/tcp.rs gives an error), whether the end was given, and how often the source was opened.
pub record Inner : Type 0 where
  pub arrivals : List Arrival
  pub repeats : Bool
  pub at_end : Bool
  pub opens : ℕ

-- `open` of the source itself
abbrev pub open_inner : Inner → Inner
open_inner s = record s { opens = s.opens + 1; at_end = false }

-- `recv` of the source itself, which waits through a pause
unfoldable pub recv_inner : List Arrival → Inner → Received × Inner
recv_inner [] s =
    (if s.at_end && not s.repeats then failed else ended, record s { arrivals = []; at_end = true })
recv_inner (frame f ∷ rest) s = (got f, record s { arrivals = rest })
recv_inner (failure ∷ rest) s = (failed, record s { arrivals = rest })
recv_inner (pause ∷ rest) s = recv_inner rest (record s { arrivals = rest })

-- `PrefetchedSource`; `is_open` is its `opened`
pub record PrefetchedSource : Type 0 where
  pub inner : Inner
  pub prefetched : List Frame
  pub is_open : Bool

-- `PrefetchedSource::open`
unfoldable pub open_source : PrefetchedSource → PrefetchedSource
open_source s = if not s.is_open then record s { inner = open_inner s.inner; is_open = true } else s

-- `PrefetchedSource::recv`
abbrev pub and_inner : Received × Inner → PrefetchedSource → Received × PrefetchedSource
and_inner (r, inner) s = (r, record s { inner = inner })

abbrev pub pop : List Frame → PrefetchedSource → Received × PrefetchedSource
pop [] s = and_inner (recv_inner s.inner.arrivals s.inner) s
pop (f ∷ fs) s = (got f, record s { prefetched = fs })

unfoldable pub recv : PrefetchedSource → Received × PrefetchedSource
recv s = pop s.prefetched s

-- `DetectionMode`
pub data DetectionMode : Type 0 where
  configured auto suggest off : DetectionMode

abbrev pub samples : DetectionMode → Bool
samples configured = false
samples auto = true
samples suggest = true
samples off = false

-- `DEFAULT_MAX_SAMPLE_BYTES`
abbrev pub default_max_sample_bytes : ℕ
default_max_sample_bytes = 64 * 1024

-- What the loop gives: the frames, the sample, what is still to arrive, and whether the end was given.
pub data Prefetched : Type 0 where
  sampled : List Frame → List ℕ → List Arrival → Bool → Prefetched
  broken : Prefetched

-- The loop of `prefetch_for_detection`, `max` being the limit of the sample.
unfoldable pub sample_loop : ℕ → List Arrival → List ℕ → List Frame → Prefetched
unfolding frame_bytes
sample_loop max [] sample prefetched = sampled prefetched sample [] (ltb (length sample) max)
sample_loop max (pause ∷ inner) sample prefetched =
    if ltb (length sample) max
    then sampled prefetched sample inner false
    else sampled prefetched sample (pause ∷ inner) false
sample_loop max (failure ∷ inner) sample prefetched =
    if ltb (length sample) max then broken else sampled prefetched sample (failure ∷ inner) false
sample_loop max (frame f ∷ inner) sample prefetched =
    let b = frame_bytes f in
    let rest =
      sample_loop max inner (sample ++ take (min (length b) (max - length sample)) b)
        (prefetched ++ (f ∷ [])) in
    if ltb (length sample) max then rest else sampled prefetched sample (frame f ∷ inner) false

-- `prefetch_for_detection`: the source to go on with, and the sample if one was taken
abbrev pub prefetched_source : Inner → Prefetched → Option (PrefetchedSource × Option (List ℕ))
prefetched_source source broken = none
prefetched_source source (sampled prefetched sample rest at_end) = some (
  record {
    inner = record source { arrivals = rest; at_end = at_end };
    prefetched = prefetched;
    is_open = true;
  },
  some sample,
)

unfoldable pub prefetch_for_detection :
    DetectionMode → Inner → Option (PrefetchedSource × Option (List ℕ))
unfolding sample_loop
prefetch_for_detection mode source =
    if samples mode
    then prefetched_source (open_inner source)
        (sample_loop default_max_sample_bytes source.arrivals [] [])
    else some (record { inner = source; prefetched = []; is_open = false }, none)
