-- ===== src/Codec.antt =====
-- crates/core/src/codec.rs: the line endings of a sample, and the lines of a buffer. The encodings
-- are calls of encoding_rs and are not modelled.
pub mod Lines
use tracemux.Prelude.{
  ℕ, zero, suc, ◌+◌, ◌*◌, List, [], ◌∷◌, Option, none, some, Bool, true, false, ◌&&◌, length, take,
  drop, ltb, leb, ◌==◌, if◌then◌else◌, min,
}
use mathlib.Core.Option

-- `Eol`
pub data Eol : Type 0 where
  lf crlf cr auto : Eol

-- `Eol::bytes`
unfoldable pub bytes : Eol → List ℕ
bytes lf = 10 ∷ []
bytes auto = 10 ∷ []
bytes crlf = 13 ∷ 10 ∷ []
bytes cr = 13 ∷ []

-- The counters of `Eol::detect`.
pub record Counts : Type 0 where
  pub crlfs : ℕ
  pub crs : ℕ
  pub lfs : ℕ

-- `buf.get(0) == Some(c)`
unfoldable pub starts_with : ℕ → List ℕ → Bool
starts_with c [] = false
starts_with c (b ∷ bs) = b == c

-- The loop of `Eol::detect`; `skip` says that the byte in front belongs to the pair before it
-- (`i += 2`).
unfoldable pub count : List ℕ → Bool → Counts → Counts
unfolding starts_with
count [] skip n = n
count (b ∷ bs) true n = count bs false n
count (b ∷ bs) false n =
    let pair = b == 13 && starts_with 10 bs in
    count bs pair (
      if pair
      then record n { crlfs = n.crlfs + 1 }
      else if b == 13
      then record n { crs = n.crs + 1 }
      else if b == 10
      then record n { lfs = n.lfs + 1 }
      else n)

-- The choice at the end of `Eol::detect`.
unfoldable pub likely : Counts → Eol
likely n =
    if leb n.lfs n.crlfs && (leb n.crs n.crlfs && ltb 0 n.crlfs)
    then crlf
    else if ltb n.lfs n.crs && ltb 0 n.crs
    then cr
    else lf

-- `Eol::detect`
unfoldable pub detect : List ℕ → Eol
detect sample =
    let limit = min (length sample) (64 * 1024) in
    likely (count (take limit sample) false (record { crlfs = 0; crs = 0; lfs = 0 }))

-- `self.buf.iter().position(|&b| b == c)`
unfoldable pub position : ℕ → List ℕ → Option ℕ
position c [] = none
position c (b ∷ bs) = if b == c then some 0 else Option.map suc (position c bs)

-- `self.buf.windows(2).position(|w| w == b"\r\n")`
unfoldable pub crlf_position : List ℕ → Option ℕ
unfolding starts_with
crlf_position [] = none
crlf_position (b ∷ bs) =
    if b == 13 && starts_with 10 bs then some 0 else Option.map suc (crlf_position bs)

-- `term_pos` and `term_len`; the last arm is unreachable in the source
unfoldable pub term_pos : Eol → List ℕ → Option ℕ
term_pos lf buf = position 10 buf
term_pos cr buf = position 13 buf
term_pos crlf buf = crlf_position buf
term_pos auto buf = none

unfoldable pub term_len : Eol → ℕ
term_len lf = 1
term_len cr = 1
term_len crlf = 2
term_len auto = 0

-- `resolved`
unfoldable pub resolve : Eol → List ℕ → Eol
resolve auto buf = detect buf
resolve lf buf = lf
resolve crlf buf = crlf
resolve cr buf = cr

-- `LineIter`, whose `eol` never changes
pub record LineIter : Type 0 where
  pub buf : List ℕ
  pub done : Bool

-- The two ends of `LineIter::next`: with a terminator at `idx`, and with none.
abbrev pub cut : ℕ → Option ℕ → List ℕ → Option (List ℕ) × LineIter
cut len (some idx) buf =
    (some (take idx buf), record { buf = drop len (drop idx buf); done = false })
cut len none [] = (none, record { buf = []; done = true })
cut len none (b ∷ bs) = (some (b ∷ bs), record { buf = []; done = true })

-- `LineIter::next`
unfoldable pub next : Eol → LineIter → Option (List ℕ) × LineIter
next eol it =
    if it.done
    then (none, it)
    else cut (term_len (resolve eol it.buf)) (term_pos (resolve eol it.buf) it.buf) it.buf

abbrev pub until_none : Option (List ℕ) → List (List ℕ) → List (List ℕ)
until_none (some l) ls = l ∷ ls
until_none none ls = []

-- The lines that the iterator yields until its first `none`, in at most `fuel` calls.
unfoldable pub collect : ℕ → Eol → LineIter → List (List ℕ)
collect zero eol it = []
collect (suc fuel) eol it =
    let (line, it') = next eol it in let rest = collect fuel eol it' in until_none line rest

-- `split_lines`: the buffer has at most one line more than bytes
unfoldable pub split_lines : List ℕ → Eol → List (List ℕ)
split_lines buf eol = collect (length buf + 1) eol (record { buf = buf; done = false })
