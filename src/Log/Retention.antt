-- ===== src/Log/Retention.antt =====
-- crates/core/src/log/retention.rs: the directories of old sessions are deleted. The file system is
-- the list of the entries of the parent directory and a function that says whether deleting one
-- succeeds; instants are nanoseconds and those before the epoch are not modelled. The reading of the
-- timestamp in a name, `parse_session_timestamp`, ends in calls of the crate `time`, and is the
-- parameter `parse`.
pub mod Report
use tracemux.Prelude.{
  ℕ, ◌-◌, ◌*◌, List, [], ◌∷◌, ◌++◌, Option, none, some, Bool, true, false, ltb, if◌then◌else◌, not,
}

-- `RetentionPolicy`
pub record RetentionPolicy : Type 0 where
  pub keep_days : ℕ

-- An entry of the directory: its path, whether it is a directory, and its name, if that is UTF-8.
pub record DirEntry (DirPath : Type 0) : Type 0 where
  pub path : DirPath
  pub is_dir : Bool
  pub name : Option (List ℕ)

-- `RetentionReport`
pub record RetentionReport (DirPath : Type 0) : Type 0 where
  pub deleted : List DirPath
  pub kept : List DirPath
  pub skipped : List DirPath

-- The arms of the loop's body.
pub data Verdict : Type 0 where
  ignore remove keep skip : Verdict

module _ {DirPath : Type 0} (parse : List ℕ → Option ℕ) (remove_dir_all : DirPath → Bool) where
  -- `match parse_session_timestamp(&name)`
  abbrev pub judge_time : Option ℕ → ℕ → Verdict
  judge_time none cutoff = skip
  judge_time (some ts) cutoff = if ltb ts cutoff then remove else keep

  abbrev pub judge_name : Option (List ℕ) → ℕ → Verdict
  judge_name none cutoff = skip
  judge_name (some n) cutoff = judge_time (parse n) cutoff

  unfoldable pub judge : DirEntry DirPath → ℕ → Verdict
  judge e cutoff = if not e.is_dir then ignore else judge_name e.name cutoff

  abbrev pub file_under : Verdict → DirPath → RetentionReport DirPath → RetentionReport DirPath
  file_under ignore p r = r
  file_under remove p r =
      if remove_dir_all p
      then record r { deleted = r.deleted ++ (p ∷ []) }
      else record r { skipped = r.skipped ++ (p ∷ []) }
  file_under keep p r = record r { kept = r.kept ++ (p ∷ []) }
  file_under skip p r = record r { skipped = r.skipped ++ (p ∷ []) }

  unfoldable pub apply_loop :
      ℕ → List (DirEntry DirPath) → RetentionReport DirPath → RetentionReport DirPath
  apply_loop cutoff [] r = r
  apply_loop cutoff (e ∷ es) r = apply_loop cutoff es (file_under (judge e cutoff) e.path r)

  -- `RetentionPolicy::apply`, on a directory that can be read
  unfoldable pub apply : RetentionPolicy → List (DirEntry DirPath) → ℕ → RetentionReport DirPath
  apply policy es now =
      apply_loop (now - policy.keep_days * (24 * 60 * 60 * 1_000_000_000)) es
        (record { deleted = []; kept = []; skipped = [] })
