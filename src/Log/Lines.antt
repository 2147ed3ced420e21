-- ===== src/Log/Lines.antt =====
-- crates/core/src/log/lines.rs and frames.rs: the files of decoded lines and of decoded records.
-- Printing a row is a call of serde_json, the parameter `to_string`; the fields of a record are JSON of
-- that crate, of a type `V` that is a parameter.
use tracemux.Prelude.{ℕ, List, [], ◌∷◌, Option}
use tracemux.Log.BufWriter.{BufWriter, write_all}

-- `Level`, crates/core/src/decoder/mod.rs
pub data Level : Type 0 where
  trace debug info warn error fatal : Level

-- `Record`, crates/core/src/decoder/mod.rs
pub record Record (V : Type 0) : Type 0 where
  pub schema_id : Option (List ℕ)
  pub level : Option Level
  pub text : Option (List ℕ)
  pub fields : V
  pub tags : List (List ℕ)
  pub correlation_id : Option (List ℕ)

-- `LineEntry`
pub record LineEntry : Type 0 where
  pub ts : List ℕ
  pub level : Option (List ℕ)
  pub text : List ℕ
  pub correlation_id : Option (List ℕ)
  pub tags : List (List ℕ)

-- `FrameEntry`
pub record FrameEntry (V : Type 0) : Type 0 where
  pub ts : List ℕ
  pub decoder : List ℕ
  pub body : Record V

-- `LinesWriter::append`
unfoldable pub append_line : (LineEntry → List ℕ) → (List ℕ → ℕ) → LineEntry → BufWriter → BufWriter
append_line to_string spill entry w =
    write_all spill (10 ∷ []) (write_all spill (to_string entry) w)

-- `FramesWriter::append`
unfoldable pub append_frame :
    {V : Type 0} → (FrameEntry V → List ℕ) → (List ℕ → ℕ) → FrameEntry V → BufWriter → BufWriter
append_frame to_string spill entry w =
    write_all spill (10 ∷ []) (write_all spill (to_string entry) w)
