-- ===== src/Server/Sources.antt =====
-- crates/server/src/source_manager.rs: the life of the sources. The tasks of the runtime are part of
-- the state: a handle is the number of a task, and a task runs, is told to abort, or has finished. An
-- id, a number, stands for a `Uuid`. What a specification, a directory, a sink and the start options
-- are is a parameter; opening a source is an argument, with what it gave. The registry is the set of
-- its ids.
pub mod Held
pub mod Waits
pub mod Track
use tracemux.Prelude.{
  ℕ, suc, List, [], ◌∷◌, Option, none, some, Bool, true, false, not, ◌||◌, ◌==◌, if◌then◌else◌,
  nat_eq,
}
use tracemux.Prelude.Maps.{HashMap, lookup, insert, remove}

pub data Task : Type 0 where
  running aborting finished : Task

-- The refusals of `resume` and `restart_with_options`.
pub data SourceError : Type 0 where
  unknown active not_resumable not_started : SourceError

pub data Answer (A : Type 0) : Type 0 where
  ok : A → Answer A
  err : SourceError → Answer A

abbrev pub is_some : {A : Type 0} → Option A → Bool
is_some none = false
is_some (some a) = true

-- `SourceStatus`
pub data SourceStatus : Type 0 where
  is_running stopped not_known : SourceStatus

module _ (Spec Dir Options Sink : Type 0) where
  -- `SourceEntry`
  pub record SourceEntry : Type 0 where
    pub spec : Option Spec
    pub session_dir : Option Dir
    pub start_options : Options
    pub handle : Option ℕ
    pub sink : Option Sink

  -- `SourceManager`, with the sessions of the registry and the tasks
  pub record SourceManager : Type 0 where
    pub sources : HashMap ℕ SourceEntry
    pub registry : HashMap ℕ (Unit {0})
    pub tasks : HashMap ℕ (ℕ × Task)

  -- `SourceRegistration`
  pub record SourceRegistration : Type 0 where
    pub spec : Option Spec
    pub session_dir : Option Dir
    pub start_options : Options
    pub sink : Option Sink

-- `JoinHandle::is_finished`; a task that is not known has finished
abbrev pub task_finished : Option (ℕ × Task) → Bool
task_finished none = true
task_finished (some (sid, finished)) = true
task_finished (some (sid, running)) = false
task_finished (some (sid, aborting)) = false

unfoldable pub is_finished : HashMap ℕ (ℕ × Task) → ℕ → Bool
is_finished tasks t = task_finished (lookup t tasks)

-- `JoinHandle::abort`
abbrev pub aborted : Option (ℕ × Task) → ℕ → HashMap ℕ (ℕ × Task) → HashMap ℕ (ℕ × Task)
aborted none t tasks = tasks
aborted (some (sid, finished)) t tasks = tasks
aborted (some (sid, aborting)) t tasks = tasks
aborted (some (sid, running)) t tasks = insert t (sid, aborting) tasks

unfoldable pub abort : ℕ → HashMap ℕ (ℕ × Task) → HashMap ℕ (ℕ × Task)
abort t tasks = aborted (lookup t tasks) t tasks

abbrev pub has_finished : HashMap ℕ (ℕ × Task) → Option ℕ → Bool
has_finished tasks none = false
has_finished tasks (some t) = is_finished tasks t

abbrev pub or_made : {Dir : Type 0} → Option Dir → Option Dir → Option Dir
or_made (some d) made = some d
or_made none made = made

module _ {Spec Dir Options Sink : Type 0} where
  abbrev pub abort_handle :
      Option ℕ → SourceManager Spec Dir Options Sink → SourceManager Spec Dir Options Sink
  abort_handle none m = m
  abort_handle (some t) m = record m { tasks = abort t m.tasks }

  -- A task comes to its end by itself, or after it was told to abort.
  abbrev pub ended :
      Option (ℕ × Task)
      → ℕ
      → SourceManager Spec Dir Options Sink
      → SourceManager Spec Dir Options Sink
  ended none t m = m
  ended (some (sid, k)) t m = record m { tasks = insert t (sid, finished) m.tasks }

  unfoldable pub task_ends :
      ℕ → SourceManager Spec Dir Options Sink → SourceManager Spec Dir Options Sink
  task_ends t m = ended (lookup t m.tasks) t m

  -- `if entry.handle.is_some_and(is_finished) { handle = None; sink = None }`
  unfoldable pub clear_finished :
      HashMap ℕ (ℕ × Task) → SourceEntry Spec Dir Options Sink → SourceEntry Spec Dir Options Sink
  clear_finished tasks e =
      if has_finished tasks e.handle then record e { handle = none; sink = none } else e

  -- `start_source_with_sid`: the task `t` is spawned; either it registers the session, and then the
  -- entry is put in, or it ends before
  unfoldable pub start_source_with_sid :
      ℕ
      → ℕ
      → Bool
      → SourceRegistration Spec Dir Options Sink
      → SourceManager Spec Dir Options Sink
      → Answer ℕ × SourceManager Spec Dir Options Sink
  start_source_with_sid sid t registered reg m =
      if registered
      then (
        ok sid,
        record {
          sources =
              insert sid
                (record {
                  spec = reg.spec;
                  session_dir = reg.session_dir;
                  start_options = reg.start_options;
                  handle = some t;
                  sink = reg.sink;
                })
                m.sources;
          registry = insert sid tt m.registry;
          tasks = insert t (sid, running) m.tasks;
        },
      )
      else (err not_started, record m { tasks = insert t (sid, finished) m.tasks })

  -- The part of `resume` under the lock.
  abbrev pub resume_answer :
      SourceEntry Spec Dir Options Sink
      → Option ℕ
      → Option Spec
      → Answer (Spec × Option Dir × Options)
  resume_answer e (some t) spec = err active
  resume_answer e none none = err not_resumable
  resume_answer e none (some spec) = ok (spec, e.session_dir, e.start_options)

  abbrev pub resume_entry :
      ℕ
      → Option (SourceEntry Spec Dir Options Sink)
      → SourceManager Spec Dir Options Sink
      → Answer (Spec × Option Dir × Options) × SourceManager Spec Dir Options Sink
  resume_entry sid none m = (err unknown, m)
  resume_entry sid (some e) m =
      let e' = clear_finished m.tasks e in
      (resume_answer e' e'.handle e'.spec, record m { sources = insert sid e' m.sources })

  unfoldable pub resume_locked :
      ℕ
      → SourceManager Spec Dir Options Sink
      → Answer (Spec × Option Dir × Options) × SourceManager Spec Dir Options Sink
  resume_locked sid m = resume_entry sid (lookup sid m.sources) m

  -- The part of `restart_with_options` under the lock; `merge` is `merge_start_options`
  abbrev pub restart_found :
      ℕ
      → (Options → Options → Options)
      → Options
      → SourceEntry Spec Dir Options Sink
      → Option Spec
      → SourceManager Spec Dir Options Sink
      → Answer (Spec × Option Dir × Options) × SourceManager Spec Dir Options Sink
  restart_found sid merge overrides e none m = (err not_resumable, m)
  restart_found sid merge overrides e (some spec) m = (
    ok (spec, e.session_dir, merge e.start_options overrides),
    abort_handle e.handle
        (record m { sources = insert sid (record e { handle = none; sink = none }) m.sources }),
  )

  abbrev pub restart_entry :
      ℕ
      → (Options → Options → Options)
      → Options
      → Option (SourceEntry Spec Dir Options Sink)
      → SourceManager Spec Dir Options Sink
      → Answer (Spec × Option Dir × Options) × SourceManager Spec Dir Options Sink
  restart_entry sid merge overrides none m = (err unknown, m)
  restart_entry sid merge overrides (some e) m = restart_found sid merge overrides e e.spec m

  unfoldable pub restart_locked :
      ℕ
      → (Options → Options → Options)
      → Options
      → SourceManager Spec Dir Options Sink
      → Answer (Spec × Option Dir × Options) × SourceManager Spec Dir Options Sink
  restart_locked sid merge overrides m = restart_entry sid merge overrides (lookup sid m.sources) m

  -- `start_spec_with_sid` after one of these: what opening the source gives is a sink, if it has one,
  -- or `none` if it fails, before or after the task is spawned; `made` is a new directory.
  abbrev pub start_locked :
      ℕ
      → ℕ
      → Bool
      → Option Dir
      → Option Sink
      → Answer (Spec × Option Dir × Options) × SourceManager Spec Dir Options Sink
      → Answer ℕ × SourceManager Spec Dir Options Sink
  start_locked sid t registered made sink (err e, m) = (err e, m)
  start_locked sid t registered made sink (ok (spec, dir, options), m) =
      start_source_with_sid sid t registered
        (record {
          spec = some spec;
          session_dir = or_made dir made;
          start_options = options;
          sink = sink;
        })
        m

  -- `stop`
  abbrev pub stop_entry :
      ℕ
      → Option (SourceEntry Spec Dir Options Sink)
      → SourceManager Spec Dir Options Sink
      → Bool × SourceManager Spec Dir Options Sink
  stop_entry sid none m = (false, m)
  stop_entry sid (some e) m = (
    is_some e.handle,
    abort_handle e.handle
        (record m { sources = insert sid (record e { handle = none; sink = none }) m.sources }),
  )

  unfoldable pub stop :
      ℕ → SourceManager Spec Dir Options Sink → Bool × SourceManager Spec Dir Options Sink
  stop sid m = stop_entry sid (lookup sid m.sources) m

  -- `remove`
  abbrev pub handle_of : Option (SourceEntry Spec Dir Options Sink) → Option ℕ
  handle_of none = none
  handle_of (some e) = e.handle

  unfoldable pub remove_source :
      ℕ → SourceManager Spec Dir Options Sink → Bool × SourceManager Spec Dir Options Sink
  remove_source sid m =
      let entry = lookup sid m.sources in
      let m' : SourceManager Spec Dir Options Sink =
        abort_handle (handle_of entry) (record m { sources = remove sid m.sources }) in
      (
        (is_some (handle_of entry) || is_some (lookup sid m.registry)) || is_some entry,
        record m' { registry = remove sid m.registry },
      )

  -- `wait`: the handle is taken under the lock, the task is awaited, and then the sink is dropped, and the
  -- entry, if it had no specification when the handle was taken.
  abbrev pub drop_sink :
      ℕ
      → Option (SourceEntry Spec Dir Options Sink)
      → SourceManager Spec Dir Options Sink
      → SourceManager Spec Dir Options Sink
  drop_sink sid none m = m
  drop_sink sid (some e) m = record m { sources = insert sid (record e { sink = none }) m.sources }

  unfoldable pub wait_done :
      ℕ → Bool → SourceManager Spec Dir Options Sink → SourceManager Spec Dir Options Sink
  wait_done sid remove_entry m =
      let m' : SourceManager Spec Dir Options Sink = drop_sink sid (lookup sid m.sources) m in
      if remove_entry then record m' { sources = remove sid m'.sources } else m'

  abbrev pub take_handle :
      ℕ
      → SourceEntry Spec Dir Options Sink
      → Option ℕ
      → SourceManager Spec Dir Options Sink
      → Option (ℕ × Bool) × SourceManager Spec Dir Options Sink
  take_handle sid e none m = (none, m)
  take_handle sid e (some t) m = (
    some (t, not (is_some e.spec)),
    record m { sources = insert sid (record e { handle = none }) m.sources },
  )

  abbrev pub wait_entry :
      ℕ
      → Option (SourceEntry Spec Dir Options Sink)
      → SourceManager Spec Dir Options Sink
      → Option (ℕ × Bool) × SourceManager Spec Dir Options Sink
  wait_entry sid none m = (none, m)
  wait_entry sid (some e) m = take_handle sid e e.handle m

  unfoldable pub wait_locked :
      ℕ
      → SourceManager Spec Dir Options Sink
      → Option (ℕ × Bool) × SourceManager Spec Dir Options Sink
  wait_locked sid m = wait_entry sid (lookup sid m.sources) m

  -- The whole of it, where nothing comes in between but the end of the task.
  abbrev pub waited :
      ℕ
      → Option (ℕ × Bool) × SourceManager Spec Dir Options Sink
      → SourceManager Spec Dir Options Sink
  waited sid (none, m) = m
  waited sid (some (t, remove_entry), m) = wait_done sid remove_entry (task_ends t m)

  unfoldable pub wait :
      ℕ → SourceManager Spec Dir Options Sink → SourceManager Spec Dir Options Sink
  wait sid m = waited sid (wait_locked sid m)

  -- `reap_finished`
  unfoldable pub reap :
      HashMap ℕ (ℕ × Task)
      → HashMap ℕ (SourceEntry Spec Dir Options Sink)
      → HashMap ℕ (SourceEntry Spec Dir Options Sink)
  reap tasks [] = []
  reap tasks ((sid, e) ∷ m) =
      let rest = reap tasks m in
      let e' = clear_finished tasks e in
      if is_some e'.spec || is_some e'.handle then (sid, e') ∷ rest else rest

  unfoldable pub reap_finished :
      SourceManager Spec Dir Options Sink → SourceManager Spec Dir Options Sink
  reap_finished m = record m { sources = reap m.tasks m.sources }

  -- The status that `list_sources` gives for a session of the registry.
  abbrev pub status_of :
      HashMap ℕ (ℕ × Task) → Option (SourceEntry Spec Dir Options Sink) → SourceStatus
  status_of tasks none = not_known
  status_of tasks (some e) = elim e.handle [
    | none ↦ stopped
    | some t ↦ (if not (is_finished tasks t) then is_running else stopped)
  ]

  unfoldable pub source_status : ℕ → SourceManager Spec Dir Options Sink → SourceStatus
  source_status sid m = status_of m.tasks (lookup sid m.sources)
