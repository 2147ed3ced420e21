-- ===== src/Server/Annotations.antt =====
-- crates/server/src/annotation_api.rs: the annotations of sessions and log types, and their file.
-- Texts are code points, ids are numbers of 128 bits; the instant of an update is an argument, an
-- `i128` of nanoseconds by its word. The file is the list of its lines; `none` is no file. serde_json
-- is the parameters `to_string`, which gives one line, and `from_str`; the order of the entries, by id in
-- the source's BTreeMap, is not modelled.
pub mod Persist
use tracemux.Prelude.{
  ℕ, zero, suc, List, [], ◌∷◌, ◌++◌, Option, none, some, Bool, true, false, not, length, take, ltb,
  ◌==◌, if◌then◌else◌, nat_eq, map,
}
use tracemux.Prelude.Maps.{HashMap, lookup, insert, remove}
use tracemux.Prelude.Text.{trim, is_empty}

-- `AnnotationTargetKind`
pub data AnnotationTargetKind : Type 0 where
  session log_type : AnnotationTargetKind

-- `AnnotationTarget`
pub record AnnotationTarget : Type 0 where
  pub kind : AnnotationTargetKind
  pub sid : Option ℕ
  pub key : Option (List ℕ)

-- `Annotation`
pub record Annotation : Type 0 where
  pub id : ℕ
  pub target : AnnotationTarget
  pub text : List ℕ
  pub updated_at : ℕ
  pub updated_by : Option (List ℕ)
  pub deleted : Bool

abbrev pub Table : Type 0
Table = HashMap ℕ Annotation

-- `AnnotationStore`, with its file and the one that is written beside it
pub record AnnotationStore : Type 0 where
  pub disk : Option (List (List ℕ))
  pub tmp : Option (List (List ℕ))
  pub annotations : Table

-- The errors by their status: 400, and 500.
pub data ApiError : Type 0 where
  bad_request internal : ApiError

pub data Answer (A : Type 0) : Type 0 where
  ok : A → Answer A
  err : ApiError → Answer A

-- `MAX_ANNOTATION_TEXT_LEN` and `MAX_LOG_TYPE_KEY_LEN`
abbrev pub max_annotation_text_len : ℕ
max_annotation_text_len = 20_000

abbrev pub max_log_type_key_len : ℕ
max_log_type_key_len = 120

abbrev pub key_or_empty : Option (List ℕ) → List ℕ
key_or_empty none = []
key_or_empty (some k) = k

-- `normalize_target`
abbrev pub session_target : Option ℕ → Answer AnnotationTarget
session_target none = err bad_request
session_target (some sid) = ok (record { kind = session; sid = some sid; key = none })

abbrev pub log_type_target : Option ℕ → List ℕ → Answer AnnotationTarget
log_type_target sid key =
    if is_empty key
    then err bad_request
    else if ltb max_log_type_key_len (length key)
    then err bad_request
    else ok (record { kind = log_type; sid = sid; key = some key })

unfoldable pub normalize_target : AnnotationTarget → Answer AnnotationTarget
normalize_target t = elim t.kind [
  | session ↦ session_target t.sid
  | log_type ↦ log_type_target t.sid (trim (key_or_empty t.key))
]

-- `normalize_text`
unfoldable pub normalize_text : List ℕ → Answer (List ℕ)
normalize_text text = if ltb max_annotation_text_len (length text) then err bad_request else ok text

-- `normalize_actor`
unfoldable pub normalize_actor : List ℕ → Option (List ℕ)
normalize_actor actor = let a = trim actor in if is_empty a then none else some (take 120 a)

abbrev pub and_then_actor : Option (List ℕ) → Option (List ℕ)
and_then_actor none = none
and_then_actor (some a) = normalize_actor a

-- `annotation_visible_for_sid`
abbrev pub sid_is : ℕ → Option ℕ → Bool
sid_is sid none = false
sid_is sid (some s) = s == sid

abbrev pub sid_is_or_none : ℕ → Option ℕ → Bool
sid_is_or_none sid none = true
sid_is_or_none sid (some s) = s == sid

unfoldable pub annotation_visible_for_sid : Annotation → Option ℕ → Bool
annotation_visible_for_sid a none = true
annotation_visible_for_sid a (some sid) = elim a.target.kind [
  | session ↦ sid_is sid a.target.sid
  | log_type ↦ sid_is_or_none sid a.target.sid
]

-- `AnnotationStore::list`
unfoldable pub list_visible : Table → Option ℕ → List Annotation
list_visible [] sid = []
list_visible ((id, a) ∷ m) sid =
    let rest = list_visible m sid in
    if not a.deleted then (if annotation_visible_for_sid a sid then a ∷ rest else rest) else rest

unfoldable pub list_annotations : AnnotationStore → Option ℕ → List Annotation
list_annotations s sid = list_visible s.annotations sid

-- How the calls of the file system in `persist_locked` end: the write, which may break off after some
-- lines; the removal of the old file; and the renaming. A call that fails otherwise changes nothing;
-- the directory can be made. The name beside the file is new every time; the last is kept.
pub record Io : Type 0 where
  pub breaks_off : Option ℕ
  pub removes : Bool
  pub renames : Bool

abbrev pub done : Io
done = record { breaks_off = none; removes = true; renames = true }

module _ (to_string : Annotation → List ℕ) (from_str : List ℕ → Option Annotation) where
  -- The body that `persist_locked` writes, by lines.
  unfoldable pub body : Table → List (List ℕ)
  body [] = []
  body ((id, a) ∷ m) = let rest = body m in if not a.deleted then to_string a ∷ rest else rest

  -- `std::fs::rename`
  abbrev pub rename_tmp : Bool → AnnotationStore → Answer (Unit {0}) × AnnotationStore
  rename_tmp true s = (ok tt, record s { disk = s.tmp; tmp = none })
  rename_tmp false s = (err internal, s)

  -- `if self.path.exists() { std::fs::remove_file }`
  abbrev pub remove_old :
      Io → Option (List (List ℕ)) → AnnotationStore → Answer (Unit {0}) × AnnotationStore
  remove_old io none s = rename_tmp io.renames s
  remove_old io (some file) s =
      if io.removes then rename_tmp io.renames (record s { disk = none }) else (err internal, s)

  -- `std::fs::write`
  abbrev pub write_tmp :
      Io → Option ℕ → List (List ℕ) → AnnotationStore → Answer (Unit {0}) × AnnotationStore
  write_tmp io (some k) lines s = (err internal, record s { tmp = some (take k lines) })
  write_tmp io none lines s = remove_old io s.disk (record s { tmp = some lines })

  -- `persist_locked`, with the table that it is given put in place first
  unfoldable pub persist_locked : Io → Table → AnnotationStore → Answer (Unit {0}) × AnnotationStore
  persist_locked io m s = write_tmp io io.breaks_off (body m) (record s { annotations = m })

  abbrev pub reply :
      {A : Type 0} → A → Answer (Unit {0}) × AnnotationStore → Answer A × AnnotationStore
  reply a (ok _, s) = (ok a, s)
  reply a (err e, s) = (err e, s)

  -- `AnnotationStore::upsert`
  abbrev pub store_annotation :
      Io
      → ℕ
      → Answer AnnotationTarget
      → Answer (List ℕ)
      → Option (List ℕ)
      → ℕ
      → AnnotationStore
      → Answer Annotation × AnnotationStore
  store_annotation io id (err e) text by at s = (err e, s)
  store_annotation io id (ok target) (err e) by at s = (err e, s)
  store_annotation io id (ok target) (ok text) by at s =
      let a : Annotation = record {
        id = id;
        target = target;
        text = text;
        updated_at = at;
        updated_by = by;
        deleted = false;
      } in
      reply a (persist_locked io (insert id a s.annotations) s)

  unfoldable pub upsert :
      Io
      → ℕ
      → AnnotationTarget
      → List ℕ
      → Option (List ℕ)
      → ℕ
      → AnnotationStore
      → Answer Annotation × AnnotationStore
  upsert io id target text by at s =
      store_annotation io id (normalize_target target) (normalize_text text) (and_then_actor by) at
        s

  -- `AnnotationStore::delete`
  abbrev pub delete_found :
      Io → ℕ → Option Annotation → AnnotationStore → Answer Bool × AnnotationStore
  delete_found io id none s = (ok false, record s { annotations = remove id s.annotations })
  delete_found io id (some a) s = reply true (persist_locked io (remove id s.annotations) s)

  unfoldable pub delete : Io → ℕ → AnnotationStore → Answer Bool × AnnotationStore
  delete io id s = delete_found io id (lookup id s.annotations) s

  -- `load_annotations`
  abbrev pub load_entry : Annotation → Table → Table
  load_entry a m = if a.deleted then remove a.id m else insert a.id a m

  abbrev pub load_line : Option Annotation → Table → Answer Table
  load_line none m = err internal
  load_line (some a) m = ok (load_entry a m)

  abbrev pub bind : Answer Table → (Table → Answer Table) → Answer Table
  bind (err e) k = err e
  bind (ok m) k = k m

  unfoldable pub load_lines : List (List ℕ) → Table → Answer Table
  load_lines [] m = ok m
  load_lines (l ∷ ls) m =
      let line = trim l in
      bind (if is_empty line then ok m else load_line (from_str line) m) (load_lines ls)

  unfoldable pub load_annotations : Option (List (List ℕ)) → Answer Table
  load_annotations none = ok []
  load_annotations (some lines) = load_lines lines []

  -- `AnnotationStore::open`
  abbrev pub opened : Option (List (List ℕ)) → Answer Table → Answer AnnotationStore
  opened disk (err e) = err e
  opened disk (ok m) = ok (record { disk = disk; tmp = none; annotations = m })

  unfoldable pub open_store : Option (List (List ℕ)) → Answer AnnotationStore
  open_store disk = opened disk (load_annotations disk)
