-- ===== src/Framer/Passthrough.antt =====
-- crates/core/src/framer/passthrough.rs: whatever is buffered is one frame.
use tracemux.Prelude.{ℕ, List, [], ◌∷◌, Option, none, some}
use tracemux.Error.{Result, ok}

pub poll_frame : List ℕ → Result (Option (List ℕ)) × List ℕ
poll_frame [] = (ok none, [])
poll_frame (b ∷ buf) = (ok (some (b ∷ buf)), [])
