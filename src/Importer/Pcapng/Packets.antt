-- ===== src/Importer/Pcapng/Packets.antt =====
-- What the importer of pcapng.rs makes of a file of blocks.
use tracemux.Prelude.{
  ℕ, zero, suc, ◌+◌, ◌-◌, ◌<◌, ◌≤◌, ◌≡◌, refl, List, [], ◌∷◌, ◌++◌, Option, none, some, Bool,
  if◌then◌else◌, true, false, ltb, length, All, append_assoc, length-append, length-drop, arith,
}
use tracemux.Prelude.Ints.{ℤ}
use tracemux.Prelude.Bytes.{length-to_le_bytes}
use tracemux.Error.{Result, ok, err, pipeline_generic}
use tracemux.Log.File.{read_exact}
use tracemux.Log.Session.{Crates}
use tracemux.Importer.Pcapng.{
  Writers, u32_at, on_block, Turn, done, more, with_tail, with_body, with_header, turn, import_loop,
}
use tracemux.Importer.Pcapng.Blocks
use tracemux.Importer.Pcapng.Blocks.{
  Packet, FileBlock, section, packet, other, body, block_type, laid_out, IsBlock, effect,
}
use tracemux.Importer.Pcapng.Taken.{turn-laid_out, turn_end}

abbrev pub file : List FileBlock → List ℕ
file [] = []
file (b ∷ bs) = laid_out b ++ file bs

-- The packets of blocks: their instants in ticks, and their bytes.
abbrev pub packets : List FileBlock → List (ℕ × List ℕ)
packets [] = []
packets (section b ∷ bs) = packets bs
packets (packet p ∷ bs) = (p.ticks, p.bytes) ∷ packets bs
packets (other t b ∷ bs) = packets bs

module _ {V : Type 0} (io : Crates V) (clock : ℕ → ℤ) (sid : ℕ) where
  abbrev pub effects : List FileBlock → Writers → Writers
  effects [] w = w
  effects (b ∷ bs) w = effects bs (effect io clock sid b w)

  -- The loop takes all the blocks off, one in each turn.
  pub import_loop-file :
      (fuel : ℕ) (bs : List FileBlock) (tail : List ℕ) (w : Writers)
      → All IsBlock bs
      → length tail < 8
      → length bs < fuel
      → import_loop io clock sid fuel (file bs ++ tail) w ≡ some (ok (effects bs w))
  unfolding import_loop
  import_loop-file zero bs tail w h short enough = absurd (omega arith)
  import_loop-file (suc fuel) [] tail w h short enough =
      rw (turn_end io clock sid tail w short, import_loop) refl
  import_loop-file (suc fuel) (b ∷ bs) tail w h short enough =
      rw (append_assoc (laid_out b) (file bs) tail) (
        rw (turn-laid_out io clock sid b (file bs ++ tail) w h.0, import_loop)
          (import_loop-file fuel bs tail (effect io clock sid b w) h.1 short (omega arith)))

  length-laid_out : (b : FileBlock) → 1 ≤ length (laid_out b)
  unfolding laid_out
  length-laid_out b =
      let total = length (body b) + 12 in
      omega (
        arith,
        length-append (Blocks.word (block_type b) ++ Blocks.word total)
            (body b ++ Blocks.word total),
        length-append (Blocks.word (block_type b)) (Blocks.word total),
        length-to_le_bytes 4 total,
      )

  pub length-file : (bs : List FileBlock) → length bs ≤ length (file bs)
  length-file [] = omega arith
  length-file (b ∷ bs) =
      omega (arith, length-append (laid_out b) (file bs), length-laid_out b, length-file bs)

  -- A turn that goes on takes bytes away.
  abbrev Shrinks : ℕ → Turn → Type 0
  Shrinks n (done r) = Unit
  Shrinks n (more rest w) = length rest < n

  read_exact_rest :
      (n : ℕ) (rest xs ys : List ℕ)
      → read_exact n rest ≡ some (xs, ys)
      → length ys + n ≤ length rest
  unfolding read_exact
  read_exact_rest n rest xs ys h = ground (arith, h, length-drop n rest)

  tail-Shrinks :
      (n t : ℕ) (body : List ℕ) (w : Writers) (o : Option (List ℕ × List ℕ))
      → ((xs ys : List ℕ) → o ≡ some (xs, ys) → length ys < n)
      → Shrinks n (with_tail io clock sid t body w o)
  tail-Shrinks n t body w none h = tt
  tail-Shrinks n t body w (some (tail, rest)) h = which (on_block io clock sid t body w)
    where
      which :
          (r : Result Writers) → Shrinks n (elim r [ ok w' ↦ more rest w' | err e ↦ done (err e) ])
      which (ok w') = h tail rest refl
      which (err e) = tt

  body-Shrinks :
      (n t : ℕ) (w : Writers) (o : Option (List ℕ × List ℕ))
      → ((xs ys : List ℕ) → o ≡ some (xs, ys) → length ys < n)
      → Shrinks n (with_body io clock sid t w o)
  body-Shrinks n t w none h = tt
  body-Shrinks n t w (some (body, rest)) h = tail-Shrinks n t body w (read_exact 4 rest) (λ xs ys e.
      let less = h body rest refl in omega (arith, read_exact_rest 4 rest xs ys e, less))

  header-Shrinks :
      (n : ℕ) (w : Writers) (o : Option (List ℕ × List ℕ))
      → ((xs ys : List ℕ) → o ≡ some (xs, ys) → length ys < n)
      → Shrinks n (with_header io clock sid w o)
  header-Shrinks n w none h = tt
  header-Shrinks n w (some (header, rest)) h = which (ltb (u32_at 4 header) 12)
    where
      which :
          (b : Bool)
          → Shrinks n (
              if b
              then done (err pipeline_generic)
              else with_body io clock sid
                  (u32_at 0 header)
                  w
                  (read_exact (u32_at 4 header - 12) rest))
      which true = tt
      which false =
          body-Shrinks n (u32_at 0 header) w (read_exact (u32_at 4 header - 12) rest) (λ xs ys e.
            let less = h header rest refl in
            omega (arith, read_exact_rest (u32_at 4 header - 12) rest xs ys e, less))

  turn-Shrinks : (rest : List ℕ) (w : Writers) → Shrinks (length rest) (turn io clock sid rest w)
  unfolding turn
  turn-Shrinks rest w =
      header-Shrinks (length rest) w (read_exact 8 rest)
        (λ xs ys e. omega (arith, read_exact_rest 8 rest xs ys e))

  pub loop_ends :
      (fuel : ℕ) (rest : List ℕ) (w : Writers)
      → length rest < fuel
      → (r : Result Writers) × (import_loop io clock sid fuel rest w ≡ some r)
  unfolding import_loop
  loop_ends zero rest w h = absurd (omega arith)
  loop_ends (suc fuel) rest w h =
      which (turn io clock sid rest w) (turn-Shrinks rest w)
        (λ rest' w' less. loop_ends fuel rest' w' (omega (arith, less)))
    where
      which :
          (t : Turn)
          → Shrinks (length rest) t
          → ((rest' : List ℕ) (w' : Writers)
              → length rest' < length rest
              → (r : Result Writers) × (import_loop io clock sid fuel rest' w' ≡ some r))
          → (r : Result Writers) × (elim t [
            | done r ↦ some r
            | more rest' w' ↦ import_loop io clock sid fuel rest' w'
          ]
              ≡ some r)
      which (done r) k later = (r, refl)
      which (more rest' w') k later = later rest' w' k
