-- ===== src/Server/Prefetch/Order.antt =====
-- The detection of source_manager.rs takes nothing from the source that the session does not get.
use tracemux.Prelude.{
  ℕ, zero, suc, ◌+◌, ◌-◌, ◌≤◌, ◌<◌, ◌≡◌, refl, sym, ap, subst, ◌∙◌, min, List, [], ◌∷◌, ◌++◌, Bool,
  true, false, Option, none, some, length, take, ltb, if◌then◌else◌, arith, append_assoc,
  append-nil, take_all, take-append_add, length-append, length-take, inl, inr, ◌⊎◌,
}
use tracemux.Server.Prefetch.{
  Frame, frame_bytes, Arrival, frame, pause, failure, Received, got, ended, failed, recv_inner,
  PrefetchedSource, recv, DetectionMode, samples, default_max_sample_bytes, Prefetched, sampled,
  broken, Inner, open_inner, open_source, sample_loop, prefetched_source, prefetch_for_detection,
}

-- The frames that come up to the end or the first error, and whether there was one.
abbrev pub Stream : Type 0
Stream = List Frame × Bool

abbrev pub frames_of : List Arrival → Stream
frames_of [] = ([], true)
frames_of (frame f ∷ inner) = let rest = frames_of inner in (f ∷ rest.0, rest.1)
frames_of (failure ∷ inner) = ([], false)
frames_of (pause ∷ inner) = frames_of inner

-- What a session reads by `recv`, at most `fuel` times.
abbrev pub receive_next : (PrefetchedSource → Stream) → Received × PrefetchedSource → Stream
receive_next again (ended, s) = ([], true)
receive_next again (failed, s) = ([], false)
receive_next again (got f, s) = let rest = again s in (f ∷ rest.0, rest.1)

unfoldable pub receive : ℕ → PrefetchedSource → Stream
receive zero s = ([], false)
receive (suc fuel) s = receive_next (receive fuel) (recv s)

abbrev after_frames : List Frame → Stream → Stream
after_frames fs s = (fs ++ s.0, s.1)

-- A source that has not given its end gives all; one that has given it gives it again or fails.
receive_inner :
    (fuel : ℕ) (inner : List Arrival) (repeats b : Bool) (n : ℕ)
    → length inner < fuel
    → receive fuel (record {
      inner = record { arrivals = inner; repeats = repeats; at_end = false; opens = n };
      prefetched = [];
      is_open = b;
    })
      ≡ frames_of inner
unfolding receive recv recv_inner
receive_inner zero inner r b n h = absurd (omega arith)
receive_inner (suc fuel) [] r b n h = refl
receive_inner (suc fuel) (frame f ∷ inner) r b n h =
    rw (receive_inner fuel inner r b n (omega arith)) refl
receive_inner (suc fuel) (failure ∷ inner) r b n h = refl
receive_inner (suc fuel) (pause ∷ inner) r b n h =
    receive_inner (suc fuel) inner r b n (omega arith)

receive_ended :
    (fuel : ℕ) (repeats b : Bool) (n : ℕ)
    → 0 < fuel
    → receive fuel (record {
      inner = record { arrivals = []; repeats = repeats; at_end = true; opens = n };
      prefetched = [];
      is_open = b;
    })
      ≡ ([], repeats)
unfolding receive recv recv_inner
receive_ended zero r b n h = absurd (omega arith)
receive_ended (suc fuel) true b n h = refl
receive_ended (suc fuel) false b n h = refl

receive_prefetched :
    (fuel extra : ℕ) (inner : Inner) (fs : List Frame) (b : Bool) (x : Stream)
    → length fs + extra < fuel
    → ((k : ℕ) → extra < k → receive k (record { inner = inner; prefetched = []; is_open = b }) ≡ x)
    → receive fuel (record { inner = inner; prefetched = fs; is_open = b }) ≡ after_frames fs x
unfolding receive recv
receive_prefetched fuel extra inner [] b x h later = later fuel (omega arith)
receive_prefetched zero extra inner (f ∷ fs) b x h later = absurd (omega arith)
receive_prefetched (suc fuel) extra inner (f ∷ fs) b x h later =
    rw (receive_prefetched fuel extra inner fs b x (omega arith) later) refl

abbrev data_of : List Frame → List ℕ
data_of [] = []
data_of (f ∷ fs) = frame_bytes f ++ data_of fs

data_of-append : (fs gs : List Frame) → data_of (fs ++ gs) ≡ data_of fs ++ data_of gs
data_of-append [] gs = refl
data_of-append (f ∷ fs) gs =
    ap (λ b. frame_bytes f ++ b) (data_of-append fs gs)
    ∙ sym (append_assoc (frame_bytes f) (data_of fs) (data_of gs))

-- What is prefetched and what is left are together what there was, and the sample is what stands
-- first in the prefetched frames.
abbrev Keeps : ℕ → Stream → ℕ → Prefetched → Type 0
Keeps max all n broken = all.1 ≡ false
Keeps max all n (sampled fs sample inner false) =
    (after_frames fs (frames_of inner) ≡ all) × (length fs + length inner ≤ n)
Keeps max all n (sampled fs sample inner true) =
    (inner ≡ []) × (all ≡ (fs, true)) × (length (data_of fs) < max) × (length fs ≤ n)

Keeps-if :
    (max : ℕ) (all : Stream) (n : ℕ) (b : Bool) (p q : Prefetched)
    → (b ≡ true → Keeps max all n p)
    → Keeps max all n q
    → Keeps max all n (if b then p else q)
Keeps-if max all n true p q h k = h refl
Keeps-if max all n false p q h k = k

take-min : (n : ℕ) (xs : List ℕ) → take (min (length xs) n) xs ≡ take n xs
take-min n [] = take_nil (min 0 n) ∙ sym (take_nil n)
  where
    take_nil : (k : ℕ) → ◌≡◌ {A = List ℕ} (take k []) []
    take_nil zero = refl
    take_nil (suc k) = refl
take-min zero (x ∷ xs) =
    ap (λ k. take k (x ∷ xs)) {x = min (suc (length xs)) 0} {y = 0} (omega arith)
take-min (suc n) (x ∷ xs) =
    ap (λ k. take k (x ∷ xs)) {x = min (suc (length xs)) (suc n)} {y = suc (min (length xs) n)}
      (omega arith)
    ∙ ap (λ r. x ∷ r) (take-min n xs)

-- A sample that is not full has all the data, and is filled up.
sample_grows :
    (max : ℕ) (sample d b : List ℕ)
    → sample ≡ take max d
    → length sample < max
    → sample ++ take (min (length b) (max - length sample)) b ≡ take max (d ++ b)
sample_grows max sample d b h few =
    let short : length d ≤ max =
      omega (arith, length-take max d, ap (λ (r : List ℕ). length r) h, few) in
    let whole : sample ≡ d = h ∙ take_all max d short in
    ap (λ r. sample ++ r) (take-min (max - length sample) b)
    ∙ ap (λ r. r ++ take (max - length sample) b) whole
    ∙ sym (
        take-append_add (max - length sample) max d b
          (omega (arith, ap (λ (r : List ℕ). length r) whole, few)))

ended_short :
    (max : ℕ) (d sample : List ℕ) → sample ≡ take max d → length sample < max → length d < max
ended_short max d sample h few =
    omega (arith, length-take max d, ap (λ (r : List ℕ). length r) h, few)

less : (a b : ℕ) → ltb a b ≡ true → a < b
less a b h = ground (arith, h)

sample_loop-Keeps :
    (max : ℕ) (inner : List Arrival) (sample : List ℕ) (fs : List Frame)
    → sample ≡ take max (data_of fs)
    → Keeps max
        (after_frames fs (frames_of inner))
        (length fs + length inner)
        (sample_loop max inner sample fs)
unfolding sample_loop
sample_loop-Keeps max [] sample fs h = at_end (ltb (length sample) max) refl
  where
    at_end :
        (b : Bool)
        → ltb (length sample) max ≡ b
        → Keeps max (after_frames fs ([], true)) (length fs + 0) (sampled fs sample [] b)
    at_end false e = (refl, omega arith)
    at_end true e = (
      refl,
      ap (λ (gs : List Frame). (gs, true)) (append-nil fs),
      ended_short max (data_of fs) sample h (less (length sample) max e),
      omega arith,
    )
sample_loop-Keeps max (pause ∷ inner) sample fs h =
    Keeps-if max (after_frames fs (frames_of inner)) (length fs + length (pause ∷ inner))
      (ltb (length sample) max) (sampled fs sample inner false)
      (sampled fs sample (pause ∷ inner) false) (λ e. (refl, omega arith)) (refl, omega arith)
sample_loop-Keeps max (failure ∷ inner) sample fs h =
    Keeps-if max (after_frames fs (frames_of (failure ∷ inner)))
      (length fs + length (failure ∷ inner)) (ltb (length sample) max) broken
      (sampled fs sample (failure ∷ inner) false) (λ e. refl) (refl, omega arith)
sample_loop-Keeps max (frame f ∷ inner) sample fs h =
    let all = after_frames fs (frames_of (frame f ∷ inner)) in
    let n = length fs + length (frame f ∷ inner) in
    let b = frame_bytes f in
    let sample' = sample ++ take (min (length b) (max - length sample)) b in
    let fs' = fs ++ (f ∷ []) in
    Keeps-if max all n (ltb (length sample) max) (sample_loop max inner sample' fs')
      (sampled fs sample (frame f ∷ inner) false)
      (λ e.
        subst (λ k. Keeps max all k (sample_loop max inner sample' fs'))
          (lengths (length fs) (length fs') (length inner) (length-append fs (f ∷ [])))
          (subst (λ s. Keeps max s (length fs' + length inner) (sample_loop max inner sample' fs'))
            (same_stream fs f inner)
            (sample_loop-Keeps max inner sample' fs' (
              sample_grows max sample (data_of fs) b h (less (length sample) max e)
              ∙ ap (take max)
                  (sym (data_of-append fs (f ∷ []) ∙ ap (λ r. data_of fs ++ r) (append-nil b)))))))
      (refl, omega arith)
  where
    lengths : (x y z : ℕ) → y ≡ x + 1 → y + z ≡ x + suc z
    lengths x y z e = omega (arith, e)

    same_stream :
        (gs : List Frame) (g : Frame) (rest : List Arrival)
        → after_frames (gs ++ (g ∷ [])) (frames_of rest)
          ≡ after_frames gs (frames_of (frame g ∷ rest))
    same_stream gs g rest =
        ap (λ (xs : List Frame). (xs, (frames_of rest).1))
          (append_assoc gs (g ∷ []) (frames_of rest).0)

-- A source that was not opened yet.
abbrev pub unread : List Arrival → Bool → Inner
unread arrivals repeats = record {
  arrivals = arrivals;
  repeats = repeats;
  at_end = false;
  opens = 0;
}

-- What a session reads from the source that it is given, once it has opened that, and how often the
-- source itself was opened by then.
abbrev pub session_stream : ℕ → Option (PrefetchedSource × Option (List ℕ)) → Option (Stream × ℕ)
session_stream fuel none = none
session_stream fuel (some (s, sample)) =
    let s' = open_source s in some (receive fuel s', s'.inner.opens)

-- What can come of a detection: the session reads all, of a source that is opened once; or an error
-- arrives and the start fails; or the source does not repeat its end, which the sample has come to, and
-- the session reads all the frames and an error in place of the end.
abbrev pub Detected : List Arrival → Bool → ℕ → Option (PrefetchedSource × Option (List ℕ)) → Type 0
Detected arrivals repeats fuel p =
    (session_stream fuel p ≡ some (frames_of arrivals, 1))
    ⊎ (((p ≡ none) × ((frames_of arrivals).1 ≡ false))
        ⊎ ((session_stream fuel p ≡ some (((frames_of arrivals).0, false), 1))
            × (repeats ≡ false)
            × ((frames_of arrivals).1 ≡ true)
            × (length (data_of (frames_of arrivals).0) < default_max_sample_bytes)))

Detected-sample :
    (fuel n : ℕ) (arrivals : List Arrival) (repeats : Bool) (p : Prefetched)
    → n < fuel
    → Keeps default_max_sample_bytes (frames_of arrivals) n p
    → Detected arrivals repeats fuel (prefetched_source (open_inner (unread arrivals repeats)) p)
unfolding open_source
Detected-sample fuel n arrivals repeats broken h k = inr (inl (refl, k))
Detected-sample fuel n arrivals repeats (sampled fs sample rest false) h (same, few) = inl (
    ap (λ (x : Stream). some (x, 1))
      (receive_prefetched fuel (length rest)
          (record { arrivals = rest; repeats = repeats; at_end = false; opens = 1 }) fs true
          (frames_of rest) (omega (arith, few, h)) (λ k l. receive_inner k rest repeats true 1 l)
        ∙ same))
Detected-sample fuel n arrivals repeats (sampled fs sample rest true) h (nil, all, short, few) =
    which repeats refl
  where
    inner : Bool → Inner
    inner r = record { arrivals = rest; repeats = r; at_end = true; opens = 1 }

    reads :
        (r : Bool)
        → receive fuel (record { inner = inner r; prefetched = fs; is_open = true }) ≡ (fs, r)
    reads r =
        receive_prefetched fuel 0 (inner r) fs true ([], r) (omega (arith, few, h))
          (λ k l. rw nil (receive_ended k r true 1 l))
        ∙ ap (λ (gs : List Frame). (gs, r)) (append-nil fs)

    which :
        (r : Bool)
        → repeats ≡ r
        → Detected arrivals r fuel
            (some (record { inner = inner r; prefetched = fs; is_open = true }, some sample))
    which true e = inl (ap (λ (x : Stream). some (x, 1)) (reads true ∙ sym all))
    which false e = inr (
        inr (
          ap (λ (x : Stream). some (x, 1)) (reads false)
              ∙ ap (λ (x : Stream). some ((x.0, false), 1)) (sym all),
          refl,
          ap (λ (x : Stream). x.1) all,
          subst (λ (x : Stream). length (data_of x.0) < default_max_sample_bytes) (sym all) short,
        ))

-- In every mode the source is opened once, and what a session reads after the detection is what arrives
-- from it up to its end or first error, in order, whatever was read ahead for the sample and whatever
-- pauses there are; one `recv` more than arrivals is enough. There are two exceptions: where an error
-- arrives the start may fail; and where a source with less data than the limit of the sample does not
-- give its end twice, as those of tcp.rs, the session may read an error in place of the end.
pub session_stream-prefetch_for_detection :
    (mode : DetectionMode) (arrivals : List Arrival) (repeats : Bool) (fuel : ℕ)
    → length arrivals < fuel
    → Detected arrivals repeats fuel (prefetch_for_detection mode (unread arrivals repeats))
unfolding prefetch_for_detection
session_stream-prefetch_for_detection mode arrivals repeats fuel h = taken (samples mode)
  where
    taken :
        (b : Bool)
        → Detected arrivals repeats fuel (
            if b
            then prefetched_source
                (open_inner (unread arrivals repeats))
                (sample_loop default_max_sample_bytes arrivals [] [])
            else some (
              record { inner = unread arrivals repeats; prefetched = []; is_open = false },
              none,
            ))
    taken true =
        Detected-sample fuel (0 + length arrivals) arrivals repeats
          (sample_loop default_max_sample_bytes arrivals [] []) (omega (arith, h))
          (sample_loop-Keeps default_max_sample_bytes arrivals [] [] refl)
    taken false = inl (
        unfold open_source in
        ap (λ (x : Stream). some (x, 1)) (receive_inner fuel arrivals repeats true 1 h))
