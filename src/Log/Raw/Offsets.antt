-- ===== src/Log/Raw/Offsets.antt =====
-- The offsets that raw.rs hands out are those of the payloads.
use tracemux.Prelude.{
  ℕ, ◌+◌, ◌-◌, ◌^◌, ◌<◌, ◌≤◌, ◌≡◌, ◌∙◌, refl, sym, ap, min, List, [], ◌∷◌, ◌++◌, some, length, take,
  drop, append_assoc, append-nil, length-append, take-append-drop, take-append, drop-append, arith,
}
use tracemux.Log.Raw.{RawWriter, create, append, flush, read_at}

-- Every byte that was appended, on disk or not.
abbrev pub content : RawWriter → List ℕ
content w = w.disk ++ w.buffered

-- What may be done with a writer.
pub data Call : Type 0 where
  appends : ℕ → List ℕ → Call
  flushes : Call

abbrev pub after : List Call → RawWriter → RawWriter
after [] w = w
after (appends spill payload ∷ cs) w = after cs (append spill payload w).1
after (flushes ∷ cs) w = after cs (flush w)

pub content-append :
    (spill : ℕ) (payload : List ℕ) (w : RawWriter)
    → content (append spill payload w).1 ≡ content w ++ payload
unfolding append
content-append spill payload w =
    append_assoc w.disk (take spill (w.buffered ++ payload)) (drop spill (w.buffered ++ payload))
    ∙ ap (λ xs. w.disk ++ xs) (take-append-drop spill (w.buffered ++ payload))
    ∙ sym (append_assoc w.disk w.buffered payload)

content-flush : (w : RawWriter) → content (flush w) ≡ content w
unfolding flush
content-flush w = append-nil (w.disk ++ w.buffered)

content-after :
    (cs : List Call) (w : RawWriter)
    → (later : List ℕ) × (content (after cs w) ≡ content w ++ later)
content-after [] w = ([], sym (append-nil (content w)))
content-after (appends spill payload ∷ cs) w =
    let (later, e) = content-after cs (append spill payload w).1 in
    (
      payload ++ later,
      e
          ∙ ap (λ xs. xs ++ later) (content-append spill payload w)
          ∙ append_assoc (content w) payload later,
    )
content-after (flushes ∷ cs) w =
    let (later, e) = content-after cs (flush w) in
    (later, e ∙ ap (λ xs. xs ++ later) (content-flush w))

-- The next offset is the number of bytes appended.
abbrev pub IsPlaced : RawWriter → Type 0
IsPlaced w = w.pos ≡ length (content w)

append-IsPlaced :
    (spill : ℕ) (payload : List ℕ) (w : RawWriter)
    → IsPlaced w
    → length (content (append spill payload w).1) < 2 ^ 64
    → IsPlaced (append spill payload w).1
append-IsPlaced spill payload w v room =
    grown (ap length (content-append spill payload w) ∙ length-append (content w) payload)
  where
    grown :
        length (content (append spill payload w).1) ≡ length (content w) + length payload
        → IsPlaced (append spill payload w).1
    grown e = unfold append in omega arith

length-content-after :
    (cs : List Call) (w : RawWriter) → length (content w) ≤ length (content (after cs w))
length-content-after cs w =
    let (later, e) = content-after cs w in
    omega (arith, ap length e, length-append (content w) later)

after-IsPlaced :
    (cs : List Call) (w : RawWriter)
    → IsPlaced w
    → length (content (after cs w)) < 2 ^ 64
    → IsPlaced (after cs w)
after-IsPlaced [] w v room = v
after-IsPlaced (appends spill payload ∷ cs) w v room =
    let w' = (append spill payload w).1 in
    after-IsPlaced cs w'
      (append-IsPlaced spill payload w v (omega (arith, length-content-after cs w'))) room
after-IsPlaced (flushes ∷ cs) w v room =
    after-IsPlaced cs (flush w) (flushed w ∙ v ∙ ap length (sym (content-flush w))) room
  where
    flushed : (w : RawWriter) → (flush w).pos ≡ w.pos
    flushed w = unfold flush in refl

pub create-IsPlaced : (bytes : List ℕ) → IsPlaced (create bytes)
unfolding create
create-IsPlaced bytes = ap length (sym (append-nil bytes))

pub read_at_middle :
    (xs payload later : List ℕ)
    → length payload < 2 ^ 32
    → read_at (length xs) (min (length payload) (2 ^ 32 - 1)) (xs ++ (payload ++ later))
      ≡ some payload
unfolding read_at
read_at_middle xs payload later small =
    rw (drop-append (length xs) xs (payload ++ later) refl)
      (ground (arith, length-append payload later, take-append (length payload) payload later refl))

-- A payload shorter than 2 ^ 32 that is appended to a file, after any calls since it was opened and
-- before any others, is what `read_at` reads at the offset and length that `append` returned, once
-- the writer is flushed, however the buffer spilled, as long as the payload ends before byte 2 ^ 64.
pub read_at-append :
    (bytes payload : List ℕ) (before later : List Call) (spill : ℕ)
    → length payload < 2 ^ 32
    → length (content (after before (create bytes))) + length payload < 2 ^ 64
    → let ((off, len), w) = append spill payload (after before (create bytes)) in
      read_at off len (flush (after later w)).disk ≡ some payload
unfolding append flush
read_at-append bytes payload before later spill small room =
    let w = after before (create bytes) in
    let (rest, e) = content-after later (append spill payload w).1 in
    let len = min (length payload) (2 ^ 32 - 1) in
    ap (λ off. read_at off len (content (after later (append spill payload w).1)))
      (after-IsPlaced before (create bytes) (create-IsPlaced bytes) (omega arith))
    ∙ ap (read_at (length (content w)) len) (
        e
        ∙ ap (λ xs. xs ++ rest) (content-append spill payload w)
        ∙ append_assoc (content w) payload rest)
    ∙ read_at_middle (content w) payload rest small
