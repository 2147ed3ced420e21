-- ===== src/SessionName.antt =====
-- crates/core/src/session_name.rs: a string made safe as the name of one directory. Strings are lists
-- of code points; what comes out is ASCII, so that bytes and characters agree. `render_session_name`
-- replaces the placeholders of a pattern before that and is not modelled.
pub mod Clean
use tracemux.Prelude.{
  ℕ, List, [], ◌∷◌, Bool, true, false, ◌||◌, ◌&&◌, length, take, leb, ltb, ◌==◌, if◌then◌else◌,
}

-- `ch.is_ascii_alphanumeric() || matches!(ch, '-' | '_' | '.')`
unfoldable pub safe : ℕ → Bool
safe c =
    (leb 48 c && leb c 57)
    || ((leb 65 c && leb c 90) || ((leb 97 c && leb c 122) || (c == 45 || (c == 95 || c == 46))))

-- `mapped`
unfoldable pub mapped : ℕ → ℕ
unfolding safe
mapped c = if safe c then c else 45

-- The loop of `sanitize_session_name`, with `previous_dash`.
unfoldable pub collapse : List ℕ → Bool → List ℕ
collapse [] previous_dash = []
collapse (c ∷ cs) previous_dash =
    let m = mapped c in
    let rest = collapse cs (m == 45) in if m == 45 && previous_dash then rest else m ∷ rest

-- `matches!(ch, '-' | '.')`
unfoldable pub trims : ℕ → Bool
trims c = c == 45 || c == 46

unfoldable pub trim_start : List ℕ → List ℕ
trim_start [] = []
trim_start (c ∷ cs) = if trims c then trim_start cs else c ∷ cs

unfoldable pub is_empty : List ℕ → Bool
is_empty [] = true
is_empty (c ∷ cs) = false

unfoldable pub trim_end : List ℕ → List ℕ
trim_end [] = []
trim_end (c ∷ cs) = let rest = trim_end cs in if is_empty rest && trims c then [] else c ∷ rest

-- `trim_matches(|ch| matches!(ch, '-' | '.'))`
unfoldable pub trim_matches : List ℕ → List ℕ
trim_matches s = trim_end (trim_start s)

-- `"session"`
abbrev pub session : List ℕ
session = 115 ∷ 101 ∷ 115 ∷ 115 ∷ 105 ∷ 111 ∷ 110 ∷ []

-- `sanitize_session_name`
unfoldable pub sanitize_session_name : List ℕ → List ℕ
unfolding is_empty
sanitize_session_name input =
    let trimmed = trim_matches (collapse input false) in
    let short = if ltb 160 (length trimmed) then trim_matches (take 160 trimmed) else trimmed in
    if is_empty short then session else short
