-- ===== src/Server/Sources/Track.antt =====
-- The tasks of source_manager.rs: while its calls follow one another, a task that runs is the one that
-- its source's entry holds, so that `stop` and `remove` reach it.
use tracemux.Prelude.{
  ℕ, ◌≡◌, ◌≢◌, ◌⊎◌, inl, inr, refl, sym, ap, ◌∙◌, [], Option, none, some, Bool, true, false, ◌==◌,
  if◌then◌else◌, nat_eq, arith, Bool-cases, ==_self,
}
use tracemux.Prelude.Maps.{HashMap, lookup, insert, remove, lookup-insert}
use tracemux.Server.Sources.{
  running, Answer, ok, err, SourceEntry, SourceManager, SourceRegistration, abort_handle, task_ends,
  clear_finished, start_source_with_sid, resume_answer, resume_entry, resume_locked, restart_found,
  restart_entry, restart_locked, or_made, start_locked, stop_entry, stop, handle_of, remove_source,
  reap_finished, wait,
}
use tracemux.Server.Sources.Waits.{wait-Tracked}
use tracemux.Server.Sources.Held.{
  Runs, Tracked, abort_handle-Tracked, abort_handle_quiet, start-Tracked, clear_finished-handle,
  reap-Tracked, insert_other, stop-Tracked, remove-Tracked, ends-Tracked,
}

module _ {Spec Dir Options Sink : Type 0} where
  -- One call after another, each of them to its end: a source is started under a new id, or resumed or
  -- restarted, where `t` is the task that is spawned; it is stopped or removed, or waited for, or those
  -- that finished are reaped; and a task comes to its end. No call begins before the one in front of it
  -- has returned, and none is dropped half-way.
  pub data Reachable : SourceManager Spec Dir Options Sink → Type 0 where
    empty : Reachable (record { sources = []; registry = []; tasks = [] })
    starts :
        (sid t : ℕ) (registered : Bool) (reg : SourceRegistration Spec Dir Options Sink)
        (m : SourceManager Spec Dir Options Sink)
        → Reachable m
        → lookup sid m.sources ≡ none
        → Reachable (start_source_with_sid sid t registered reg m).1
    resumes :
        (sid t : ℕ) (registered : Bool) (made : Option Dir) (sink : Option Sink)
        (m : SourceManager Spec Dir Options Sink)
        → Reachable m
        → Reachable (start_locked sid t registered made sink (resume_locked sid m)).1
    restarts :
        (sid t : ℕ) (registered : Bool) (made : Option Dir) (sink : Option Sink)
        (merge : Options → Options → Options) (overrides : Options)
        (m : SourceManager Spec Dir Options Sink)
        → Reachable m
        → Reachable
            (start_locked sid t registered made sink (restart_locked sid merge overrides m)).1
    stops :
        (sid : ℕ) (m : SourceManager Spec Dir Options Sink) → Reachable m → Reachable (stop sid m).1
    removes :
        (sid : ℕ) (m : SourceManager Spec Dir Options Sink)
        → Reachable m
        → Reachable (remove_source sid m).1
    waits :
        (sid : ℕ) (m : SourceManager Spec Dir Options Sink) → Reachable m → Reachable (wait sid m)
    reaps : (m : SourceManager Spec Dir Options Sink) → Reachable m → Reachable (reap_finished m)
    ends :
        (t : ℕ) (m : SourceManager Spec Dir Options Sink) → Reachable m → Reachable (task_ends t m)

  -- A start that goes on finds no handle in the entry.
  abbrev Free :
      ℕ → Answer (Spec × Option Dir × Options) × SourceManager Spec Dir Options Sink → Type 0
  Free sid (err e, m) = Unit
  Free sid (ok a, m) = handle_of (lookup sid m.sources) ≡ none

  start_locked-Tracked :
      (sid t : ℕ) (registered : Bool) (made : Option Dir) (sink : Option Sink)
      (r : Answer (Spec × Option Dir × Options) × SourceManager Spec Dir Options Sink)
      → Tracked r.1
      → Free sid r
      → Tracked (start_locked sid t registered made sink r).1
  start_locked-Tracked sid t registered made sink (err e, m) k f = k
  start_locked-Tracked sid t registered made sink (ok (spec, dir, options), m) k f =
      start-Tracked sid t registered
        (record {
          spec = some spec;
          session_dir = or_made dir made;
          start_options = options;
          sink = sink;
        })
        m f k

  cleared-Tracked :
      (sid : ℕ) (e : SourceEntry Spec Dir Options Sink) (m : SourceManager Spec Dir Options Sink)
      → lookup sid m.sources ≡ some e
      → Tracked m
      → Tracked (record m { sources = insert sid (clear_finished m.tasks e) m.sources })
  cleared-Tracked sid e m there k t j r =
      ap handle_of (lookup-insert sid j (clear_finished m.tasks e) m.sources)
      ∙ placed (Bool-cases (sid == j))
    where
      placed :
          ((sid == j) ≡ true) ⊎ ((sid == j) ≡ false)
          → handle_of (if sid == j then some (clear_finished m.tasks e) else lookup j m.sources)
            ≡ some t
      placed (inl a) =
          let at : sid ≡ j = ground (arith, a) in
          let held =
            ap handle_of (sym there) ∙ ap (λ i. handle_of (lookup i m.sources)) at ∙ k t j r in
          rw a (clear_finished-handle m.tasks t j e r held)
      placed (inr a) = rw a (k t j r)

  resume_answer-Free :
      (sid : ℕ) (e : SourceEntry Spec Dir Options Sink) (h : Option ℕ) (spec : Option Spec)
      (m : SourceManager Spec Dir Options Sink)
      → handle_of (lookup sid m.sources) ≡ h
      → Free sid (resume_answer e h spec, m)
  resume_answer-Free sid e (some t) spec m k = tt
  resume_answer-Free sid e none none m k = tt
  resume_answer-Free sid e none (some spec) m k = k

  handle_inserted :
      (sid : ℕ) (e : SourceEntry Spec Dir Options Sink)
      (sources : HashMap ℕ (SourceEntry Spec Dir Options Sink))
      → handle_of (lookup sid (insert sid e sources)) ≡ e.handle
  handle_inserted sid e sources =
      ap handle_of {y = some e} (lookup-insert sid sid e sources ∙ rw (==_self sid) refl)

  resume-Tracked :
      (sid : ℕ) (o : Option (SourceEntry Spec Dir Options Sink))
      (m : SourceManager Spec Dir Options Sink)
      → lookup sid m.sources ≡ o
      → Tracked m
      → Tracked (resume_entry sid o m).1 × Free sid (resume_entry sid o m)
  resume-Tracked sid none m there k = (k, tt)
  resume-Tracked sid (some e) m there k =
      let e' = clear_finished m.tasks e in
      (
        cleared-Tracked sid e m there k,
        resume_answer-Free sid e' e'.handle e'.spec (record m { sources = insert sid e' m.sources })
            (handle_inserted sid e' m.sources),
      )

  abort_handle-sources :
      (h : Option ℕ) (m : SourceManager Spec Dir Options Sink)
      → (abort_handle h m).sources ≡ m.sources
  abort_handle-sources none m = refl
  abort_handle-sources (some t) m = refl

  restart_found-Tracked :
      (sid : ℕ) (merge : Options → Options → Options) (overrides : Options)
      (e : SourceEntry Spec Dir Options Sink) (spec : Option Spec)
      (m : SourceManager Spec Dir Options Sink)
      → lookup sid m.sources ≡ some e
      → Tracked m
      → let r = restart_found sid merge overrides e spec m in Tracked r.1 × Free sid r
  restart_found-Tracked sid merge overrides e none m there k = (k, tt)
  restart_found-Tracked sid merge overrides e (some spec) m there k =
      let e' : SourceEntry Spec Dir Options Sink = record e { handle = none; sink = none } in
      let m' : SourceManager Spec Dir Options Sink = record m {
        sources = insert sid e' m.sources;
      } in
      (
        abort_handle-Tracked sid e.handle m m' k (ap handle_of there) refl
            (λ j h. insert_other sid j e' m.sources h),
        ap (λ s. handle_of (lookup sid s)) (abort_handle-sources e.handle m')
            ∙ handle_inserted sid e' m.sources,
      )

  restart-Tracked :
      (sid : ℕ) (merge : Options → Options → Options) (overrides : Options)
      (o : Option (SourceEntry Spec Dir Options Sink)) (m : SourceManager Spec Dir Options Sink)
      → lookup sid m.sources ≡ o
      → Tracked m
      → let r = restart_entry sid merge overrides o m in Tracked r.1 × Free sid r
  restart-Tracked sid merge overrides none m there k = (k, tt)
  restart-Tracked sid merge overrides (some e) m there k =
      restart_found-Tracked sid merge overrides e e.spec m there k

  Reachable-Tracked : (m : SourceManager Spec Dir Options Sink) → Reachable m → Tracked m
  unfolding resume_locked restart_locked stop reap_finished task_ends lookup
  Reachable-Tracked _ empty = λ t j r. ground (arith, r)
  Reachable-Tracked _ (starts sid t registered reg m h new) =
      start-Tracked sid t registered reg m (ap handle_of new) (Reachable-Tracked m h)
  Reachable-Tracked _ (resumes sid t registered made sink m h) =
      let (k, f) = resume-Tracked sid (lookup sid m.sources) m refl (Reachable-Tracked m h) in
      start_locked-Tracked sid t registered made sink (resume_locked sid m) k f
  Reachable-Tracked _ (restarts sid t registered made sink merge overrides m h) =
      let (k, f) =
        restart-Tracked sid merge overrides (lookup sid m.sources) m refl (Reachable-Tracked m h) in
      start_locked-Tracked sid t registered made sink (restart_locked sid merge overrides m) k f
  Reachable-Tracked _ (stops sid m h) =
      stop-Tracked sid (lookup sid m.sources) m refl (Reachable-Tracked m h)
  Reachable-Tracked _ (removes sid m h) = remove-Tracked sid m (Reachable-Tracked m h)
  Reachable-Tracked _ (waits sid m h) = wait-Tracked sid m (Reachable-Tracked m h)
  Reachable-Tracked _ (reaps m h) =
      λ t j r. reap-Tracked m.tasks t j m.sources r (Reachable-Tracked m h t j r)
  Reachable-Tracked _ (ends t m h) = ends-Tracked t (lookup t m.tasks) m (Reachable-Tracked m h)

  -- In a manager that was reached by calls of which each had returned before the next began, a task
  -- that runs for a source is the one whose handle the source's entry has; so two tasks that run for one
  -- source are the same.
  pub Reachable-handle :
      (m : SourceManager Spec Dir Options Sink) (t sid : ℕ)
      → Reachable m
      → Runs t sid m.tasks
      → handle_of (lookup sid m.sources) ≡ some t
  Reachable-handle m t sid h r = Reachable-Tracked m h t sid r

  stop_entry_quiet :
      (sid t : ℕ) (o : Option (SourceEntry Spec Dir Options Sink))
      (m : SourceManager Spec Dir Options Sink)
      → lookup sid m.sources ≡ o
      → Tracked m
      → lookup t (stop_entry sid o m).1.tasks ≢ some (sid, running)
  stop_entry_quiet sid t none m e k r =
      let x = sym (k t sid r) ∙ ap handle_of e in ground (arith, x)
  stop_entry_quiet sid t (some x) m e k r =
      abort_handle_quiet sid t x.handle m
        (record m { sources = insert sid (record x { handle = none; sink = none }) m.sources }) k
        (ap handle_of e) refl r

  -- In a manager that was reached by calls of which each had returned before the next began, after
  -- `stop` as after `remove` no task runs for the source any more: each that is left was told to abort
  -- or has finished.
  pub stop_quiet :
      (m : SourceManager Spec Dir Options Sink) (t sid : ℕ)
      → Reachable m
      → (lookup t (stop sid m).1.tasks ≢ some (sid, running))
        × (lookup t (remove_source sid m).1.tasks ≢ some (sid, running))
  unfolding stop remove_source
  stop_quiet m t sid h =
      let k = Reachable-Tracked m h in
      (
        stop_entry_quiet sid t (lookup sid m.sources) m refl k,
        abort_handle_quiet sid t (handle_of (lookup sid m.sources)) m
            (record m { sources = remove sid m.sources }) k refl refl,
      )
