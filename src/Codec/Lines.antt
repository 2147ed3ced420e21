-- ===== src/Codec/Lines.antt =====
-- The lines of codec.rs: with their terminators they make up the buffer.
use tracemux.Prelude.{
  ℕ, zero, suc, min, ◌*◌, ◌+◌, ◌≤◌, ◌<◌, ◌≡◌, ◌≢◌, refl, List, [], ◌∷◌, ◌++◌, none, some, true,
  false, length, take, drop, arith, Option-cases, inl, inr, length-drop,
}
use tracemux.Codec.{
  Eol, lf, crlf, cr, auto, bytes, starts_with, Counts, count, likely, detect, position,
  crlf_position, term_pos, term_len, resolve, next, collect, split_lines,
}

-- What it is to split a buffer into lines: nothing is left; or there is no terminator and the buffer,
-- which is not empty, is the last line; or a line without a terminator in it, a terminator, and the
-- rest split. The terminator is the one that the convention means for the buffer at that point.
pub data Splits (eol : Eol) : List ℕ → List (List ℕ) → Type 0 where
  finished : Splits eol [] []
  last :
      (buf : List ℕ) → buf ≢ [] → term_pos (resolve eol buf) buf ≡ none → Splits eol buf (buf ∷ [])
  line :
      (buf l rest : List ℕ) (ls : List (List ℕ))
      → buf ≡ l ++ (bytes (resolve eol buf) ++ rest)
      → term_pos (resolve eol buf) l ≡ none
      → Splits eol rest ls
      → Splits eol buf (l ∷ ls)

-- Where a terminator is found: the buffer is what is before it, it, and what is after it, and there
-- is no terminator before it.
abbrev IsCut : Eol → ℕ → List ℕ → Type 0
IsCut eol i buf =
    (buf ≡ take i buf ++ (bytes eol ++ drop (term_len eol) (drop i buf)))
    × (term_pos eol (take i buf) ≡ none)
    × (i < length buf)

position-IsCut :
    (c i : ℕ) (buf : List ℕ)
    → position c buf ≡ some i
    → (buf ≡ take i buf ++ (c ∷ drop 1 (drop i buf)))
      × (position c (take i buf) ≡ none)
      × (i < length buf)
unfolding position
position-IsCut c i [] h = ground arith
position-IsCut c zero (b ∷ bs) h = ground arith
position-IsCut c (suc i) (b ∷ bs) h = ground (arith, position-IsCut c i bs)

starts_with-take :
    (c i : ℕ) (bs : List ℕ) → starts_with c bs ≡ false → starts_with c (take i bs) ≡ false
unfolding starts_with
starts_with-take c zero bs h = refl
starts_with-take c (suc i) [] h = refl
starts_with-take c (suc i) (b ∷ bs) h = h

crlf_position-IsCut :
    (i : ℕ) (buf : List ℕ)
    → crlf_position buf ≡ some i
    → (buf ≡ take i buf ++ (13 ∷ 10 ∷ drop 2 (drop i buf)))
      × (crlf_position (take i buf) ≡ none)
      × (i < length buf)
unfolding crlf_position starts_with
crlf_position-IsCut i [] h = ground arith
crlf_position-IsCut zero (b ∷ []) h = ground arith
crlf_position-IsCut zero (b ∷ d ∷ bs) h = ground arith
crlf_position-IsCut (suc i) (b ∷ bs) h =
    ground (arith, crlf_position-IsCut i bs, starts_with-take 10 i bs)

term_pos-IsCut : (eol : Eol) (i : ℕ) (buf : List ℕ) → term_pos eol buf ≡ some i → IsCut eol i buf
unfolding term_pos term_len bytes
term_pos-IsCut lf i buf h = position-IsCut 10 i buf h
term_pos-IsCut cr i buf h = position-IsCut 13 i buf h
term_pos-IsCut crlf i buf h = crlf_position-IsCut i buf h
term_pos-IsCut auto i buf h = ground arith

likely-term_len : (n : Counts) → 1 ≤ term_len (likely n)
unfolding likely term_len
likely-term_len n = ground arith

resolve-term_len : (eol : Eol) (buf : List ℕ) → 1 ≤ term_len (resolve eol buf)
unfolding resolve detect term_len
resolve-term_len lf buf = omega arith
resolve-term_len cr buf = omega arith
resolve-term_len crlf buf = omega arith
resolve-term_len auto buf =
    likely-term_len (
      count (take (min (length buf) (64 * 1024)) buf) false
        (record { crlfs = 0; crs = 0; lfs = 0 }))

finished_lem : (fuel : ℕ) (eol : Eol) → collect fuel eol (record { buf = []; done = true }) ≡ []
unfolding collect next
finished_lem zero eol = refl
finished_lem (suc fuel) eol = refl

term_pos-nil : (eol : Eol) → term_pos eol [] ≡ none
unfolding term_pos position crlf_position
term_pos-nil lf = refl
term_pos-nil cr = refl
term_pos-nil crlf = refl
term_pos-nil auto = refl

shorter :
    (i n fuel : ℕ) (buf : List ℕ)
    → 1 ≤ n
    → i < length buf
    → length buf < suc fuel
    → length (drop n (drop i buf)) < fuel
shorter i n fuel buf hn hi hb = ground (arith, length-drop n (drop i buf), length-drop i buf)

collect-Splits :
    (fuel : ℕ) (eol : Eol) (buf : List ℕ)
    → length buf < fuel
    → Splits eol buf (collect fuel eol (record { buf = buf; done = false }))
unfolding collect next
collect-Splits zero eol buf h = ground arith
collect-Splits (suc fuel) eol [] h = rw (term_pos-nil (resolve eol [])) finished
collect-Splits (suc fuel) eol (b ∷ bs) h =
    elim (Option-cases (term_pos (resolve eol (b ∷ bs)) (b ∷ bs))) [
      | inl none_left ↦
          rw none_left (rw (finished_lem fuel eol) (last (b ∷ bs) (ground arith) none_left))
      | inr (i, found) ↦ rw found (
          line (b ∷ bs) (take i (b ∷ bs)) (drop (term_len (resolve eol (b ∷ bs))) (drop i (b ∷ bs)))
            (collect fuel eol (record {
              buf = drop (term_len (resolve eol (b ∷ bs))) (drop i (b ∷ bs));
              done = false;
            }))
            (term_pos-IsCut (resolve eol (b ∷ bs)) i (b ∷ bs) found).0
            (term_pos-IsCut (resolve eol (b ∷ bs)) i (b ∷ bs) found).1
            (collect-Splits fuel eol (drop (term_len (resolve eol (b ∷ bs))) (drop i (b ∷ bs))) (
              shorter i (term_len (resolve eol (b ∷ bs))) fuel (b ∷ bs)
                (resolve-term_len eol (b ∷ bs))
                (term_pos-IsCut (resolve eol (b ∷ bs)) i (b ∷ bs) found).2 h)))
    ]

-- For any buffer and any convention, the automatic one too, `split_lines` yields the lines of the
-- buffer: no line has a terminator in it, the lines and their terminators in order make up the whole
-- buffer, and only the last line may have none, which then is not empty. So the iterator comes to
-- its end within one call more than the buffer has bytes. Under the automatic convention each line is
-- cut at the terminator that `detect` picks for what is left at that point.
pub split_lines-Splits : (buf : List ℕ) (eol : Eol) → Splits eol buf (split_lines buf eol)
unfolding split_lines
split_lines-Splits buf eol = collect-Splits (length buf + 1) eol buf (omega arith)
