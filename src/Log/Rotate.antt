-- ===== src/Log/Rotate.antt =====
-- crates/core/src/log/rotate.rs: when a session is rotated, and the interface in the name of its
-- directory. Durations are nanoseconds; `format_session_dirname` puts strings around a formatted
-- time and is not modelled.
pub mod Limits
use tracemux.Prelude.{
  ℕ, ◌*◌, List, [], ◌∷◌, Option, none, some, Bool, true, false, ◌||◌, ◌&&◌, leb, ◌==◌,
  if◌then◌else◌, map,
}

-- `RotatePolicy`
pub record RotatePolicy : Type 0 where
  pub size_bytes : Option ℕ
  pub duration : Option ℕ

-- `RotatePolicy::default`
abbrev pub default : RotatePolicy
default = record {
  size_bytes = some (256 * 1024 * 1024);
  duration = some (60 * 60 * 24 * 1_000_000_000);
}

-- `RotateStats`
pub record RotateStats : Type 0 where
  pub size_bytes : ℕ
  pub age : ℕ

-- `if let Some(limit) = limit { if value >= limit { return true; } }`
unfoldable pub reaches : ℕ → Option ℕ → Bool
reaches value none = false
reaches value (some limit) = leb limit value

-- `should_rotate`
unfoldable pub should_rotate : RotateStats → RotatePolicy → Bool
unfolding reaches
should_rotate stats policy =
    if reaches stats.size_bytes policy.size_bytes
    then true
    else if reaches stats.age policy.duration
    then true
    else false

-- `c.is_ascii_alphanumeric() || c == '.' || c == '_' || c == '-'`
unfoldable pub keeps : ℕ → Bool
keeps c =
    (leb 48 c && leb c 57)
    || ((leb 65 c && leb c 90) || ((leb 97 c && leb c 122) || (c == 46 || (c == 95 || c == 45))))

-- `"unknown"`
abbrev pub unknown : List ℕ
unknown = 117 ∷ 110 ∷ 107 ∷ 110 ∷ 111 ∷ 119 ∷ 110 ∷ []

unfoldable pub safe_char : ℕ → ℕ
unfolding keeps
safe_char c = if keeps c then c else 95

-- `sanitize_iface`
unfoldable pub sanitize_iface : List ℕ → List ℕ
sanitize_iface [] = unknown
sanitize_iface (c ∷ cs) = map safe_char (c ∷ cs)
