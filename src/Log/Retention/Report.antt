-- ===== src/Log/Retention/Report.antt =====
-- What the report of retention.rs says.
use tracemux.Prelude.{
  ℕ, ◌+◌, ◌-◌, ◌*◌, ◌≡◌, ◌∙◌, refl, ap, List, [], ◌∷◌, ◌++◌, append_assoc, append-nil, Option, none,
  some, Bool, false, ◌&&◌, ltb, if◌then◌else◌, length, length-append, arith,
}
use tracemux.Log.Retention.{
  RetentionPolicy, DirEntry, RetentionReport, judge, file_under, apply_loop, apply,
}

-- How many of the entries are directories.
abbrev pub dirs : {P : Type 0} → List (DirEntry P) → ℕ
dirs [] = 0
dirs (e ∷ es) = (if e.is_dir then 1 else 0) + dirs es

abbrev pub size : {P : Type 0} → RetentionReport P → ℕ
size r = length r.deleted + (length r.kept + length r.skipped)

module _ {P : Type 0} (parse : List ℕ → Option ℕ) (remove_dir_all : P → Bool) where
  -- A directory with a readable name that `parse` dates before the cutoff.
  abbrev pub old : ℕ → DirEntry P → Bool
  old cutoff e = e.is_dir && elim e.name [
    | none ↦ false
    | some n ↦ elim (parse n) [ none ↦ false | some ts ↦ ltb ts cutoff ]
  ]

  -- The paths of the old directories that can be deleted, in order.
  abbrev pub deletable : ℕ → List (DirEntry P) → List P
  deletable cutoff [] = []
  deletable cutoff (e ∷ es) =
      if old cutoff e && remove_dir_all e.path
      then e.path ∷ deletable cutoff es
      else deletable cutoff es

  file_under-size :
      (cutoff : ℕ) (e : DirEntry P) (r : RetentionReport P)
      → size (file_under parse remove_dir_all (judge parse remove_dir_all e cutoff) e.path r)
        ≡ size r + (if e.is_dir then 1 else 0)
  unfolding judge
  file_under-size cutoff e r = ground (
    arith,
    length-append r.deleted (e.path ∷ []),
    length-append r.kept (e.path ∷ []),
    length-append r.skipped (e.path ∷ []),
  )

  file_under-deleted :
      (cutoff : ℕ) (e : DirEntry P) (r : RetentionReport P)
      → (file_under parse remove_dir_all (judge parse remove_dir_all e cutoff) e.path r).deleted
        ≡ r.deleted ++ deletable cutoff (e ∷ [])
  unfolding judge
  file_under-deleted cutoff e r = ground (arith, append-nil r.deleted)

  deletable_cons :
      (cutoff : ℕ) (e : DirEntry P) (es : List (DirEntry P))
      → deletable cutoff (e ∷ []) ++ deletable cutoff es ≡ deletable cutoff (e ∷ es)
  deletable_cons cutoff e es = ground arith

  size-apply_loop :
      (cutoff : ℕ) (es : List (DirEntry P)) (r : RetentionReport P)
      → size (apply_loop parse remove_dir_all cutoff es r) ≡ size r + dirs es
  unfolding apply_loop
  size-apply_loop cutoff [] r = omega arith
  size-apply_loop cutoff (e ∷ es) r =
      let r' = file_under parse remove_dir_all (judge parse remove_dir_all e cutoff) e.path r in
      omega (arith, size-apply_loop cutoff es r', file_under-size cutoff e r)

  deleted-apply_loop :
      (cutoff : ℕ) (es : List (DirEntry P)) (r : RetentionReport P)
      → (apply_loop parse remove_dir_all cutoff es r).deleted ≡ r.deleted ++ deletable cutoff es
  unfolding apply_loop
  deleted-apply_loop cutoff [] r = rw (append-nil r.deleted) refl
  deleted-apply_loop cutoff (e ∷ es) r =
      deleted-apply_loop cutoff es
        (file_under parse remove_dir_all (judge parse remove_dir_all e cutoff) e.path r)
      ∙ rw (file_under-deleted cutoff e r) (
          append_assoc r.deleted (deletable cutoff (e ∷ [])) (deletable cutoff es)
          ∙ ap (λ ps. r.deleted ++ ps) (deletable_cons cutoff e es))

  -- What `apply` deletes are, in order, exactly the directories whose name dates them before the
  -- cutoff and whose deletion succeeds, and every directory is reported once: as deleted, kept or
  -- skipped.
  pub apply_lem :
      (policy : RetentionPolicy) (es : List (DirEntry P)) (now : ℕ)
      → let r = apply parse remove_dir_all policy es now in
        (r.deleted ≡ deletable (now - policy.keep_days * (24 * 60 * 60 * 1_000_000_000)) es)
        × (size r ≡ dirs es)
  unfolding apply
  apply_lem policy es now =
      let cutoff = now - policy.keep_days * (24 * 60 * 60 * 1_000_000_000) in
      let empty : RetentionReport P = record { deleted = []; kept = []; skipped = [] } in
      (deleted-apply_loop cutoff es empty, omega (arith, size-apply_loop cutoff es empty))
