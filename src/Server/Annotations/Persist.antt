-- ===== src/Server/Annotations/Persist.antt =====
-- The annotations of annotation_api.rs and their file: what a start of the server reads back.
use tracemux.Prelude.{
  ℕ, ◌≡◌, ◌≢◌, ◌⊎◌, Bool, false, refl, sym, ap, ◌∙◌, List, [], ◌∷◌, Option, none, some, true, false,
  if◌then◌else◌, nat_eq, All, arith, ==_self, ◌==◌, Bool-cases, inl, inr,
}
use tracemux.Prelude.Maps.{
  lookup, insert, remove, IsMap, lookup-insert, insert-IsMap, remove-IsMap, remove_new,
}
use tracemux.Prelude.Text.{StartsInk, EndsInk, trim_ink, is_empty_ink}
use tracemux.Server.Annotations.{
  AnnotationTarget, Annotation, AnnotationStore, Table, Answer, ok, err, internal, Io, done,
  normalize_target, normalize_text, and_then_actor, body, persist_locked, rename_tmp, remove_old,
  write_tmp, reply, store_annotation, upsert, delete_found, delete, load_lines, load_annotations,
  open_store, opened,
}

-- Every annotation stands under its own id and is not deleted.
abbrev pub IsLive : ℕ × Annotation → Type 0
IsLive (id, a) = (a.id ≡ id) × (a.deleted ≡ false)

abbrev pub IsTable : Table → Type 0
IsTable m = IsMap m × All IsLive m

-- A call of the two operations that change the store; each write of the file is done.
pub data Call : Type 0 where
  upserts : ℕ → AnnotationTarget → List ℕ → Option (List ℕ) → ℕ → Call
  deletes : ℕ → Call

-- The annotation of an id in a store that was opened.
abbrev pub annotation_in : ℕ → Answer AnnotationStore → Answer (Option Annotation)
annotation_in id (err e) = err e
annotation_in id (ok s) = ok (lookup id s.annotations)

abbrev entry_in : ℕ → Answer Table → Answer (Option Annotation)
entry_in id (err e) = err e
entry_in id (ok m) = ok (lookup id m)

abbrev or_else : Option Annotation → Option Annotation → Option Annotation
or_else none o = o
or_else (some a) o = some a

-- The annotation that `upsert` stores.
abbrev pub placed : ℕ → AnnotationTarget → List ℕ → Option (List ℕ) → ℕ → Annotation
placed id target text who at = record {
  id = id;
  target = target;
  text = text;
  updated_at = at;
  updated_by = who;
  deleted = false;
}

insert-IsLive :
    (id : ℕ) (a : Annotation) (m : Table)
    → IsLive (id, a)
    → All IsLive m
    → All IsLive (insert id a m)
unfolding insert
insert-IsLive id a [] h k = (h, tt)
insert-IsLive id a ((j, b) ∷ m) h k = ground (arith, insert-IsLive id a m h k.1, h, k)

remove-IsLive : (id : ℕ) (m : Table) → All IsLive m → All IsLive (remove id m)
unfolding remove
remove-IsLive id [] k = tt
remove-IsLive id ((j, b) ∷ m) k = ground (arith, remove-IsLive id m k.1, k)

module _ (to_string : Annotation → List ℕ) (from_str : List ℕ → Option Annotation) where
  abbrev pub call : Call → AnnotationStore → AnnotationStore
  call (upserts id target text by at) s = (upsert to_string from_str done id target text by at s).1
  call (deletes id) s = (delete to_string from_str done id s).1

  unfoldable pub after : List Call → AnnotationStore → AnnotationStore
  after [] s = s
  after (c ∷ cs) s = after cs (call c s)

  module _ (starts : (a : Annotation) → StartsInk (to_string a))
      (ends : (a : Annotation) → EndsInk (to_string a))
      (back : (a : Annotation) → from_str (to_string a) ≡ some a) where
    body_live :
        (id : ℕ) (a : Annotation) (m : Table)
        → IsLive (id, a)
        → body to_string from_str ((id, a) ∷ m) ≡ to_string a ∷ body to_string from_str m
    unfolding body
    body_live id a m (same, live) = rw live refl

    opened_entry :
        (j : ℕ) (disk : Option (List (List ℕ))) (r : Answer Table)
        → annotation_in j (opened to_string from_str disk r) ≡ entry_in j r
    opened_entry j disk (err e) = refl
    opened_entry j disk (ok m) = refl

    or_else-none : (o : Option Annotation) → or_else o none ≡ o
    or_else-none none = refl
    or_else-none (some a) = refl

    load_line-to_string :
        (id : ℕ) (a : Annotation) (ls : List (List ℕ)) (acc : Table)
        → IsLive (id, a)
        → load_lines to_string from_str (to_string a ∷ ls) acc
          ≡ load_lines to_string from_str ls (insert id a acc)
    unfolding load_lines
    load_line-to_string id a ls acc (same, live) =
        rw (trim_ink (to_string a) (starts a) (ends a))
          (rw (is_empty_ink (to_string a) (starts a)) (rw (back a) (rw live (rw same refl))))

    or_else-insert :
        (id j : ℕ) (a : Annotation) (m acc : Table)
        → lookup id m ≡ none
        → or_else (lookup j m) (lookup j (insert id a acc))
          ≡ or_else (if id == j then some a else lookup j m) (lookup j acc)
    or_else-insert id j a m acc h =
        ap (or_else (lookup j m)) (lookup-insert id j a acc) ∙ picked (Bool-cases (id == j))
      where
        picked :
            ((id == j) ≡ true) ⊎ ((id == j) ≡ false)
            → or_else (lookup j m) (if id == j then some a else lookup j acc)
              ≡ or_else (if id == j then some a else lookup j m) (lookup j acc)
        picked (inl e) =
            let missing : lookup j m ≡ none = ap (λ k. lookup k m) (sym (ground (arith, e))) ∙ h in
            rw e (rw missing refl)
        picked (inr e) = rw e refl

    load_none :
        (acc : Table) (j : ℕ)
        → entry_in j (load_lines to_string from_str (body to_string from_str []) acc)
          ≡ ok (or_else (lookup j []) (lookup j acc))
    unfolding load_lines body lookup
    load_none acc j = refl

    load_lines-body :
        (m acc : Table) (j : ℕ)
        → IsTable m
        → entry_in j (load_lines to_string from_str (body to_string from_str m) acc)
          ≡ ok (or_else (lookup j m) (lookup j acc))
    unfolding lookup
    load_lines-body [] acc j h = load_none acc j
    load_lines-body ((id, a) ∷ m) acc j ((new, h), (live, k)) =
        ap (λ ls. entry_in j (load_lines to_string from_str ls acc)) (body_live id a m live)
        ∙ ap (entry_in j) (load_line-to_string id a (body to_string from_str m) acc live)
        ∙ load_lines-body m (insert id a acc) j (h, k)
        ∙ ap ok (or_else-insert id j a m acc new)

    open_store-body :
        (m : Table) (j : ℕ)
        → IsTable m
        → annotation_in j (open_store to_string from_str (some (body to_string from_str m)))
          ≡ ok (lookup j m)
    unfolding open_store load_annotations lookup
    open_store-body m j h =
        opened_entry j (some (body to_string from_str m))
          (load_lines to_string from_str (body to_string from_str m) [])
        ∙ load_lines-body m [] j h
        ∙ ap ok (or_else-none (lookup j m))

    IsTable-insert :
        (id : ℕ) (a : Annotation) (m : Table) → IsLive (id, a) → IsTable m → IsTable (insert id a m)
    IsTable-insert id a m h k = (insert-IsMap id a m k.0, insert-IsLive id a m h k.1)

    IsTable-remove : (id : ℕ) (m : Table) → IsTable m → IsTable (remove id m)
    IsTable-remove id m k = (remove-IsMap id m k.0, remove-IsLive id m k.1)

    -- The table is well formed, and the file has its annotations.
    abbrev pub IsSynced : ℕ → AnnotationStore → Type 0
    IsSynced j s =
        IsTable s.annotations
        × (annotation_in j (open_store to_string from_str s.disk) ≡ ok (lookup j s.annotations))

    persist_locked-IsSynced :
        {A : Type 0} (j : ℕ) (r : A) (m : Table) (s : AnnotationStore)
        → IsTable m
        → IsSynced j (reply to_string from_str r (persist_locked to_string from_str done m s)).1
    unfolding persist_locked
    persist_locked-IsSynced j r m s h = renamed s.disk
      where
        renamed :
            (file : Option (List (List ℕ)))
            → IsSynced j
                (reply to_string from_str r (
                  remove_old to_string from_str done file
                    (record s { annotations = m; tmp = some (body to_string from_str m) }))).1
        renamed none = (h, open_store-body m j h)
        renamed (some lines) = (h, open_store-body m j h)

    upsert-IsSynced :
        (j id : ℕ) (t : Answer AnnotationTarget) (x : Answer (List ℕ)) (who : Option (List ℕ))
        (at : ℕ) (s : AnnotationStore)
        → IsSynced j s
        → IsSynced j (store_annotation to_string from_str done id t x who at s).1
    upsert-IsSynced j id (err e) x who at s h = h
    upsert-IsSynced j id (ok t) (err e) who at s h = h
    upsert-IsSynced j id (ok t) (ok x) who at s h =
        let a = placed id t x who at in
        persist_locked-IsSynced j a (insert id a s.annotations) s
          (IsTable-insert id a s.annotations (refl, refl) h.0)

    delete-IsSynced :
        (j id : ℕ) (o : Option Annotation) (s : AnnotationStore)
        → lookup id s.annotations ≡ o
        → IsSynced j s
        → IsSynced j (delete_found to_string from_str done id o s).1
    delete-IsSynced j id none s e h = (
      IsTable-remove id s.annotations h.0,
      h.1 ∙ ap (λ m. ok (lookup j m)) (sym (remove_new id s.annotations e)),
    )
    delete-IsSynced j id (some a) s e h =
        persist_locked-IsSynced j true (remove id s.annotations) s
          (IsTable-remove id s.annotations h.0)

    call-IsSynced : (j : ℕ) (c : Call) (s : AnnotationStore) → IsSynced j s → IsSynced j (call c s)
    unfolding upsert delete
    call-IsSynced j (upserts id target text who at) s h =
        upsert-IsSynced j id (normalize_target target) (normalize_text text) (and_then_actor who) at
          s h
    call-IsSynced j (deletes id) s h = delete-IsSynced j id (lookup id s.annotations) s refl h

    after-IsSynced :
        (j : ℕ) (cs : List Call) (s : AnnotationStore) → IsSynced j s → IsSynced j (after cs s)
    unfolding after
    after-IsSynced j [] s h = h
    after-IsSynced j (c ∷ cs) s h = after-IsSynced j cs (call c s) (call-IsSynced j c s h)

    -- Where serde_json prints an annotation as a line without white space at its ends and reads it
    -- back: a store that is well formed and whose file has what its table has keeps this over any
    -- calls of `upsert` and `delete` whose writes are done, accepted or refused; so a server started
    -- after them finds under each id what the store had.
    pub open_store-after :
        (j : ℕ) (cs : List Call) (s : AnnotationStore)
        → IsTable s.annotations
        → annotation_in j (open_store to_string from_str s.disk) ≡ ok (lookup j s.annotations)
        → annotation_in j (open_store to_string from_str (after cs s).disk)
          ≡ ok (lookup j (after cs s).annotations)
    open_store-after j cs s h k = (after-IsSynced j cs s (h, k)).1

  -- What an upsert of `a` may leave of a store `s`: with success the new file; with an error the old
  -- file, where the write broke off or the old file was not removed; and with an error no file, where
  -- only the renaming failed.
  abbrev pub Leaves :
      Io → Annotation → AnnotationStore → Answer Annotation × AnnotationStore → Type 0
  Leaves io a s r =
      ((r.0 ≡ ok a)
        × (r.1.disk ≡ some (body to_string from_str (insert a.id a s.annotations)))
        × (io.renames ≡ true))
      ⊎ (((r.0 ≡ err internal)
            × (r.1.disk ≡ s.disk)
            × ((io.breaks_off ≢ none) ⊎ ((io.removes ≡ false) × (s.disk ≢ none))))
          ⊎ ((r.0 ≡ err internal) × (r.1.disk ≡ none) × (io.renames ≡ false)))

  persist_locked-Leaves :
      (io : Io) (a : Annotation) (s : AnnotationStore)
      → let m = insert a.id a s.annotations in
        let r = reply to_string from_str a (persist_locked to_string from_str io m s) in
        Leaves io a s r × (r.1.annotations ≡ m)
  unfolding persist_locked
  persist_locked-Leaves io a s = written io.breaks_off refl
    where
      m : Table
      m = insert a.id a s.annotations

      renamed :
          (b : Bool) (t : AnnotationStore)
          → io.renames ≡ b
          → t.annotations ≡ m
          → t.disk ≡ none
          → t.tmp ≡ some (body to_string from_str m)
          → let r = reply to_string from_str a (rename_tmp to_string from_str b t) in
            Leaves io a s r × (r.1.annotations ≡ m)
      renamed true t e same gone new = (inl (refl, new, e), same)
      renamed false t e same gone new = (inr (inr (refl, gone, e)), same)

      unlinked :
          (b : Bool)
          → io.removes ≡ b
          → s.disk ≢ none
          → let t : AnnotationStore = record s {
            annotations = m;
            tmp = some (body to_string from_str m);
          } in
            let r = reply to_string from_str a (
              if b
              then rename_tmp to_string from_str io.renames (record t { disk = none })
              else (err internal, t)) in
            Leaves io a s r × (r.1.annotations ≡ m)
      unlinked true e there =
          renamed io.renames
            (record s { annotations = m; tmp = some (body to_string from_str m); disk = none }) refl
            refl refl refl
      unlinked false e there = (inr (inl (refl, refl, inr (e, there))), refl)

      existing :
          (file : Option (List (List ℕ)))
          → s.disk ≡ file
          → let t : AnnotationStore = record s {
            annotations = m;
            tmp = some (body to_string from_str m);
          } in
            let r = reply to_string from_str a (remove_old to_string from_str io file t) in
            Leaves io a s r × (r.1.annotations ≡ m)
      existing none e =
          renamed io.renames (record s { annotations = m; tmp = some (body to_string from_str m) })
            refl refl e refl
      existing (some lines) e = unlinked io.removes refl (λ x. ground (arith, sym e ∙ x))

      written :
          (k : Option ℕ)
          → io.breaks_off ≡ k
          → let r = reply to_string from_str a (
              write_tmp to_string from_str io k
                (body to_string from_str m)
                (record s { annotations = m })) in
            Leaves io a s r × (r.1.annotations ≡ m)
      written (some k) e = (inr (inl (refl, refl, inl (λ x. ground (arith, sym e ∙ x)))), refl)
      written none e = existing s.disk refl

  -- Whatever the calls of the file system do, an upsert of a valid annotation puts it into the table. With
  -- success the file has the new table. With an error the file is the old one, where the write broke
  -- off or an old file was not removed, or there is no file any more, where the renaming failed; so
  -- the client is told of an error, and yet the annotation is shown.
  pub upsert-Leaves :
      (io : Io) (id : ℕ) (target t : AnnotationTarget) (text x : List ℕ) (who : Option (List ℕ))
      (at : ℕ) (s : AnnotationStore)
      → normalize_target target ≡ ok t
      → normalize_text text ≡ ok x
      → let a = placed id t x (and_then_actor who) at in
        let r = upsert to_string from_str io id target text who at s in
        Leaves io a s r × (lookup id r.1.annotations ≡ some a)
  unfolding upsert
  upsert-Leaves io id target t text x who at s h k =
      let a = placed id t x (and_then_actor who) at in
      let (leaves, same) = persist_locked-Leaves io a s in
      rw h (
        rw k (
          leaves,
          ap (lookup id) same ∙ lookup-insert id id a s.annotations ∙ rw (==_self id) refl,
        ))
