-- ===== src/Server/Runner/Chunks.antt =====
-- The records of a run of runner.rs do not depend on how the source cuts its bytes.
use tracemux.Prelude.{
  ℕ, zero, suc, ◌+◌, ◌%◌, ◌^◌, ◌<◌, ◌≡◌, ◌∙◌, ◌⊎◌, inl, inr, refl, sym, ap, List, [], ◌∷◌, ◌++◌,
  Option, none, some, length, append_assoc, append-nil, arith,
}
use tracemux.Error.{ErrorId, Result, ok, err, ◌>>=◌}
use tracemux.Framer.Streaming.{StreamingFramer}
use tracemux.Server.Runner.{
  Pipe, Run, on_record, on_frame, on_poll, poll_loop, drain, receive, receive_all,
}

Result-cases : {A : Type 0} (r : Result A) → ((a : A) × (r ≡ ok a)) ⊎ ((e : ErrorId) × (r ≡ err e))
Result-cases (ok a) = inl (a, refl)
Result-cases (err e) = inr (e, refl)

ok-inj : {A : Type 0} {a b : A} → ok a ≡ ok b → a ≡ b
ok-inj h = ground arith

bind-ok :
    {A B : Type 0} (m : Result A) (f : A → Result B) (b : B)
    → (m >>= f) ≡ ok b
    → (a : A) × (m ≡ ok a) × (f a ≡ ok b)
bind-ok (ok a) f b h = (a, refl, h)
bind-ok (err e) f b h = ground arith

abbrev pub concat : List (List ℕ) → List ℕ
concat [] = []
concat (x ∷ xs) = x ++ concat xs

-- More bytes behind a buffer.
abbrev pub behind : {State Record : Type 0} → Pipe State Record → List ℕ → Pipe State Record
behind p ys = record p { buf = p.buf ++ ys }

module _ {State Record : Type 0} (framer : StreamingFramer)
    (decode : State → List ℕ → Result (Option Record × State)) where
  on_record-buf :
      (p : Pipe State Record) (out : Option Record × State)
      → (on_record framer decode p out).buf ≡ p.buf
  unfolding on_record
  on_record-buf p (none, d) = refl
  on_record-buf p (some r, d) = refl

  -- Two loops that agree on shorter buffers go on alike.
  on_poll-agree :
      (f g : Pipe State Record → Result (Pipe State Record)) (p : Pipe State Record)
      (r : Result (Option (List ℕ)) × List ℕ)
      → framer.poll p.buf ≡ r
      → ((q : Pipe State Record) → length q.buf < length p.buf → f q ≡ g q)
      → on_poll framer decode f p r ≡ on_poll framer decode g p r
  unfolding on_poll on_frame
  on_poll-agree f g p (err e, rest) h same = refl
  on_poll-agree f g p (ok none, rest) h same = refl
  on_poll-agree f g p (ok (some frame), rest) h same =
      elim (Result-cases (decode p.decoder frame)) [
        | inl (out, d) ↦ rw d (
            same
              (on_record framer decode (record p { buf = rest; framed = (p.framed + 1) % 2 ^ 64 })
                out)
              (rw (on_record-buf (record p { buf = rest; framed = (p.framed + 1) % 2 ^ 64 }) out)
                (framer.shorter p.buf frame rest h)))
        | inr (e, d) ↦ rw d refl
      ]

  -- Two fuels that are enough for the buffer give the same.
  poll_loop_fuel :
      (n m : ℕ) (p : Pipe State Record)
      → length p.buf < n
      → length p.buf < m
      → poll_loop framer decode n p ≡ poll_loop framer decode m p
  unfolding poll_loop
  poll_loop_fuel zero m p hn hm = ground arith
  poll_loop_fuel (suc n) zero p hn hm = ground arith
  poll_loop_fuel (suc n) (suc m) p hn hm =
      on_poll-agree (poll_loop framer decode n) (poll_loop framer decode m) p (framer.poll p.buf)
        refl (λ q lt. poll_loop_fuel n m q (omega arith) (omega arith))

  drain_step :
      (p : Pipe State Record)
      → drain framer decode p ≡ on_poll framer decode (drain framer decode) p (framer.poll p.buf)
  unfolding drain poll_loop
  drain_step p =
      poll_loop_fuel (length p.buf + 1) (suc (length p.buf)) p (omega arith) (omega arith)
      ∙ on_poll-agree (poll_loop framer decode (length p.buf)) (drain framer decode) p
          (framer.poll p.buf) refl
          (λ q lt. poll_loop_fuel (length p.buf) (length q.buf + 1) q lt (omega arith))

  on_record-behind :
      (p : Pipe State Record) (ys : List ℕ) (out : Option Record × State)
      → on_record framer decode (behind p ys) out ≡ behind (on_record framer decode p out) ys
  unfolding on_record
  on_record-behind p ys (none, d) = refl
  on_record-behind p ys (some r, d) = refl

  -- What becomes of the frame that is found in the buffer, with the same bytes behind.
  framed_pipe : Pipe State Record → List ℕ → Option Record × State → Pipe State Record
  framed_pipe p rest out =
      on_record framer decode (record p { buf = rest; framed = (p.framed + 1) % 2 ^ 64 }) out

  drain-frame :
      (p : Pipe State Record) (frame rest : List ℕ) (out : Option Record × State)
      → framer.poll p.buf ≡ (ok (some frame), rest)
      → decode p.decoder frame ≡ ok out
      → drain framer decode p ≡ drain framer decode (framed_pipe p rest out)
  unfolding framed_pipe on_frame on_poll
  drain-frame p frame rest out h d = drain_step p ∙ rw h (rw d refl)

  drain-behind_frame :
      (p : Pipe State Record) (ys frame rest : List ℕ) (out : Option Record × State)
      → framer.poll p.buf ≡ (ok (some frame), rest)
      → decode p.decoder frame ≡ ok out
      → drain framer decode (behind p ys) ≡ drain framer decode (behind (framed_pipe p rest out) ys)
  unfolding framed_pipe
  drain-behind_frame p ys frame rest out h d =
      drain-frame (behind p ys) frame (rest ++ ys) out (framer.more p.buf ys frame rest h) d
      ∙ ap (drain framer decode)
          (on_record-behind (record p { buf = rest; framed = (p.framed + 1) % 2 ^ 64 }) ys out)

  behind_step :
      (f : Pipe State Record → Result (Pipe State Record)) (p p' : Pipe State Record) (ys : List ℕ)
      (r : Result (Option (List ℕ)) × List ℕ)
      → framer.poll p.buf ≡ r
      → ((q : Pipe State Record)
          → length q.buf < length p.buf
          → f q ≡ ok p'
          → drain framer decode (behind q ys) ≡ drain framer decode (behind p' ys))
      → on_poll framer decode f p r ≡ ok p'
      → drain framer decode (behind p ys) ≡ drain framer decode (behind p' ys)
  unfolding on_poll on_frame framed_pipe
  behind_step f p p' ys (err e, rest) h ih done = ground arith
  behind_step f p p' ys (ok none, rest) h ih done =
      ap (λ b. drain framer decode (behind (record p { buf = b }) ys))
        (sym (framer.waits p.buf rest h))
      ∙ ap (λ q. drain framer decode (behind q ys)) (ok-inj done)
  behind_step f p p' ys (ok (some frame), rest) h ih done =
      elim (Result-cases (decode p.decoder frame)) [
        | inl (out, d) ↦
            drain-behind_frame p ys frame rest out h d
            ∙ ih (framed_pipe p rest out)
                (rw (on_record-buf (record p { buf = rest; framed = (p.framed + 1) % 2 ^ 64 }) out)
                  (framer.shorter p.buf frame rest h))
                (rw d at done)
        | inr (e, d) ↦ failed (rw d at done)
      ]
    where
      failed : {e : ErrorId} {q : Pipe State Record} {X : Type 0} → err e ≡ ok q → X
      failed h = ground arith

  -- A buffer that was drained before the rest of the bytes came is as good as the whole buffer.
  poll_loop-behind :
      (n : ℕ) (p p' : Pipe State Record) (ys : List ℕ)
      → length p.buf < n
      → poll_loop framer decode n p ≡ ok p'
      → drain framer decode (behind p ys) ≡ drain framer decode (behind p' ys)
  unfolding poll_loop
  poll_loop-behind zero p p' ys lt done = ground arith
  poll_loop-behind (suc n) p p' ys lt done =
      behind_step (poll_loop framer decode n) p p' ys (framer.poll p.buf) refl
        (λ q shorter h. poll_loop-behind n q p' ys (omega arith) h) done

  drain-behind :
      (p p' : Pipe State Record) (ys : List ℕ)
      → drain framer decode p ≡ ok p'
      → drain framer decode (behind p ys) ≡ drain framer decode (behind p' ys)
  unfolding drain
  drain-behind p p' ys done = poll_loop-behind (length p.buf + 1) p p' ys (omega arith) done

  module _ (encode_data_envelope : ℕ → List ℕ → Result (List ℕ)) where
    receive-drain :
        (s s' : Run State Record) (raw : List ℕ)
        → receive framer decode encode_data_envelope s raw ≡ ok s'
        → drain framer decode (behind s.pipe raw) ≡ ok s'.pipe
    unfolding receive
    receive-drain s s' raw h =
        let n = (s.raw_frames + 1) % 2 ^ 64 in
        let done = λ (wire : List ℕ) (pipe : Pipe State Record).
          ok
            (record { pipe = pipe; raw_frames = n; raws = raw ∷ s.raws; wires = wire ∷ s.wires }) in
        let (wire, w, h') =
          bind-ok (encode_data_envelope n raw)
            (λ wire. drain framer decode (behind s.pipe raw) >>= done wire) s' h in
        let (pipe, d, same) = bind-ok (drain framer decode (behind s.pipe raw)) (done wire) s' h' in
        d ∙ ap ok (ap (λ run. run.pipe) (ok-inj same))

    -- Where a run gets through its raw frames, one or more, and does not fail, its decoder, counts
    -- of frames and records, records and left-over bytes are what draining all of the bytes at once
    -- gives.
    pub receive_all-concat :
        (s s' : Run State Record) (raw : List ℕ) (raws : List (List ℕ))
        → receive_all framer decode encode_data_envelope s (raw ∷ raws) ≡ ok s'
        → drain framer decode (behind s.pipe (concat (raw ∷ raws))) ≡ ok s'.pipe
    unfolding receive_all
    receive_all-concat s s' raw [] h =
        let (s1, r, same) =
          bind-ok (receive framer decode encode_data_envelope s raw) (λ s1. ok s1) s' h in
        rw (append-nil raw) (receive-drain s s1 raw r ∙ ap ok (ap (λ run. run.pipe) (ok-inj same)))
    receive_all-concat s s' raw (raw' ∷ raws) h =
        let (s1, r, rest) =
          bind-ok (receive framer decode encode_data_envelope s raw)
            (λ s1. receive_all framer decode encode_data_envelope s1 (raw' ∷ raws)) s' h in
        rw⁻¹ (append_assoc s.pipe.buf raw (concat (raw' ∷ raws))) (
          drain-behind (behind s.pipe raw) s1.pipe (concat (raw' ∷ raws)) (receive-drain s s1 raw r)
          ∙ receive_all-concat s1 s' raw' raws rest)

    -- For a framer that keeps the laws of Framer/Streaming, of which one is that a frame it has found
    -- stays the same when more bytes come (passthrough.rs breaks it, and so does the line framer in its
    -- automatic mode): two runs from the same state that get through their raw frames, and were given
    -- the same bytes cut in different ways, end with the same decoder, counts of frames and records,
    -- records and left-over bytes.
    pub receive_all-chunks :
        (s s' s'' : Run State Record) (a b : List ℕ) (us vs : List (List ℕ))
        → concat (a ∷ us) ≡ concat (b ∷ vs)
        → receive_all framer decode encode_data_envelope s (a ∷ us) ≡ ok s'
        → receive_all framer decode encode_data_envelope s (b ∷ vs) ≡ ok s''
        → s'.pipe ≡ s''.pipe
    receive_all-chunks s s' s'' a b us vs same ha hb = ok-inj (
        sym (receive_all-concat s s' a us ha)
        ∙ ap (λ bytes. drain framer decode (behind s.pipe bytes)) same
        ∙ receive_all-concat s s'' b vs hb)
