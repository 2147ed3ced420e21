-- ===== src/Framer/Line.antt =====
-- crates/core/src/framer/line.rs: the line framer.
pub mod Cut
pub mod Streaming
pub mod Complete
use tracemux.Prelude.{
  ℕ, suc, ◌+◌, ◌-◌, List, [], ◌∷◌, Option, none, some, Bool, true, false, ◌&&◌, ◌||◌, length, take,
  drop, get_elem?, ltb, leb, ◌==◌, if◌then◌else◌,
}
use mathlib.Core.Option
use tracemux.Prelude.Bytes.{bytes_eq}
use tracemux.Error.{Result, ok, err, framer_overflow}

-- `Eol`
pub data Eol : Type 0 where
  lf crlf cr auto : Eol

abbrev pub lf_byte : ℕ
lf_byte = 10

abbrev pub cr_byte : ℕ
cr_byte = 13

-- `buf.iter().position(|b| *b == c)`
unfoldable pub position : ℕ → List ℕ → Option ℕ
position c [] = none
position c (b ∷ bs) = if b == c then some 0 else Option.map suc (position c bs)

-- `buf.get(0) == Some(c)`
unfoldable pub starts_with : ℕ → List ℕ → Bool
starts_with c [] = false
starts_with c (b ∷ bs) = b == c

-- `auto_eol_position`: the index of the last byte of the first terminator.
unfoldable pub auto_eol_position : List ℕ → Option ℕ
unfolding starts_with
auto_eol_position [] = none
auto_eol_position (b ∷ bs) =
    if b == cr_byte && starts_with lf_byte bs
    then some 1
    else if b == cr_byte || b == lf_byte
    then some 0
    else Option.map suc (auto_eol_position bs)

-- `buf.windows(2).position(|w| w == b"\r\n").map(|i| i + 1)`
unfoldable pub crlf_position : List ℕ → Option ℕ
unfolding starts_with
crlf_position [] = none
crlf_position (b ∷ bs) =
    if b == cr_byte && starts_with lf_byte bs then some 1 else Option.map suc (crlf_position bs)

unfoldable pub eol_position : Eol → List ℕ → Option ℕ
eol_position lf buf = position lf_byte buf
eol_position auto buf = auto_eol_position buf
eol_position cr buf = position cr_byte buf
eol_position crlf buf = crlf_position buf

-- `matches!(self.eol, Eol::Crlf | Eol::Auto)`
unfoldable pub trims_crlf : Eol → Bool
trims_crlf lf = false
trims_crlf crlf = true
trims_crlf cr = false
trims_crlf auto = true

-- The last byte of a frame is a line feed or a carriage return.
unfoldable pub ends_line : List ℕ → Bool
ends_line [] = false
ends_line (b ∷ []) = b == lf_byte || b == cr_byte
ends_line (b ∷ c ∷ bs) = ends_line (c ∷ bs)

-- The terminator is taken off the end of a frame.
unfoldable pub trim : Eol → List ℕ → List ℕ
unfolding bytes_eq trims_crlf ends_line
trim eol frame =
    let n = length frame in
    if trims_crlf eol && (leb 2 n && bytes_eq (drop (n - 2) frame) (cr_byte ∷ lf_byte ∷ []))
    then take (n - 2) frame
    else if ends_line frame
    then take (n - 1) frame
    else frame

-- `LineFramer::poll_frame`
unfoldable pub poll_frame : Eol → ℕ → List ℕ → Result (Option (List ℕ)) × List ℕ
poll_frame eol max_frame buf = elim (eol_position eol buf) [
  | some idx ↦ (ok (some (trim eol (take (idx + 1) buf))), drop (idx + 1) buf)
  | none ↦ (if ltb max_frame (length buf) then err framer_overflow else ok none, buf)
]
