-- ===== src/Server/Sources/Held.antt =====
-- The tasks of source_manager.rs and the handles of the entries, where a handle is taken or put in.
use tracemux.Prelude.{
  ℕ, ◌≡◌, ◌≢◌, ◌⊎◌, inl, inr, refl, sym, ap, ◌∙◌, [], ◌∷◌, Option, none, some, Bool, true, false,
  ◌==◌, if◌then◌else◌, nat_eq, arith, Bool-cases,
}
use tracemux.Prelude.Maps.{HashMap, lookup, insert, remove, lookup-insert, lookup-remove}
use tracemux.Server.Sources.{
  Task, running, aborting, finished, SourceEntry, SourceManager, SourceRegistration, is_finished,
  aborted, abort, abort_handle, ended, clear_finished, start_source_with_sid, stop_entry, handle_of,
  remove_source, reap,
}

abbrev pub Runs : ℕ → ℕ → HashMap ℕ (ℕ × Task) → Type 0
Runs t sid tasks = lookup t tasks ≡ some (sid, running)

pub Runs-finish :
    (t u sid k : ℕ) (tasks : HashMap ℕ (ℕ × Task))
    → Runs u sid (insert t (k, finished) tasks)
    → ((t == u) ≡ false) × Runs u sid tasks
Runs-finish t u sid k tasks h =
    let e = sym (lookup-insert t u (k, finished) tasks) ∙ h in ground (arith, e)

pub other_task :
    (t u sid : ℕ) (o : Option (ℕ × Task)) (tasks : HashMap ℕ (ℕ × Task))
    → lookup t tasks ≡ o
    → o ≢ some (sid, running)
    → Runs u sid tasks
    → (t == u) ≡ false
other_task t u sid o tasks e n r = elim (Bool-cases (t == u)) [
  | inl same ↦
      (let at : t ≡ u = ground (arith, same) in
        absurd (n (sym e ∙ ap (λ k. lookup k tasks) at ∙ r)))
  | inr other ↦ other
]

pub Runs-aborted :
    (t u sid : ℕ) (o : Option (ℕ × Task)) (tasks : HashMap ℕ (ℕ × Task))
    → lookup t tasks ≡ o
    → Runs u sid (aborted o t tasks)
    → ((t == u) ≡ false) × Runs u sid tasks
Runs-aborted t u sid none tasks e r =
    (other_task t u sid none tasks e (λ x. ground (arith, x)) r, r)
Runs-aborted t u sid (some (k, finished)) tasks e r =
    (other_task t u sid (some (k, finished)) tasks e (λ x. ground (arith, x)) r, r)
Runs-aborted t u sid (some (k, aborting)) tasks e r =
    (other_task t u sid (some (k, aborting)) tasks e (λ x. ground (arith, x)) r, r)
Runs-aborted t u sid (some (k, running)) tasks e r =
    let x = sym (lookup-insert t u (k, aborting) tasks) ∙ r in ground (arith, x)

pub Runs-abort :
    (t u sid : ℕ) (tasks : HashMap ℕ (ℕ × Task))
    → Runs u sid (abort t tasks)
    → ((t == u) ≡ false) × Runs u sid tasks
unfolding abort
Runs-abort t u sid tasks h = Runs-aborted t u sid (lookup t tasks) tasks refl h

module _ {Spec Dir Options Sink : Type 0} where
  -- A task that runs for a source is the one of its entry.
  abbrev pub Tracked : SourceManager Spec Dir Options Sink → Type 0
  Tracked m = (t sid : ℕ) → Runs t sid m.tasks → handle_of (lookup sid m.sources) ≡ some t

  -- What is tracked stays so where the entry of a source changes that does not have the task.
  pub tracked_other :
      (sid t j : ℕ) (h : Option ℕ) (m : SourceManager Spec Dir Options Sink)
      (sources : HashMap ℕ (SourceEntry Spec Dir Options Sink))
      → handle_of (lookup j m.sources) ≡ some t
      → handle_of (lookup sid m.sources) ≡ h
      → h ≢ some t
      → ((i : ℕ) → (sid == i) ≡ false → lookup i sources ≡ lookup i m.sources)
      → handle_of (lookup j sources) ≡ some t
  tracked_other sid t j h m sources k e n o = elim (Bool-cases (sid == j)) [
    | inl same ↦
        (let at : sid ≡ j = ground (arith, same) in
          absurd (n (sym e ∙ ap (λ i. handle_of (lookup i m.sources)) at ∙ k)))
    | inr other ↦ ap handle_of (o j other) ∙ k
  ]

  -- When the handle of a source is taken and its task told to abort, the others are left.
  pub abort_handle-Tracked :
      (sid : ℕ) (h : Option ℕ) (m m' : SourceManager Spec Dir Options Sink)
      → Tracked m
      → handle_of (lookup sid m.sources) ≡ h
      → m'.tasks ≡ m.tasks
      → ((j : ℕ) → (sid == j) ≡ false → lookup j m'.sources ≡ lookup j m.sources)
      → Tracked (abort_handle h m')
  abort_handle-Tracked sid none m m' k e s o t j r =
      tracked_other sid t j none m m'.sources (k t j (ap (lookup t) (sym s) ∙ r)) e
        (λ x. ground (arith, x)) o
  abort_handle-Tracked sid (some u) m m' k e s o t j r =
      let (other, r') = Runs-abort u t j m'.tasks r in
      tracked_other sid t j (some u) m m'.sources (k t j (ap (lookup t) (sym s) ∙ r')) e
        (λ x. ground (arith, x, other)) o

  -- After that, no task runs for the source.
  pub abort_handle_quiet :
      (sid t : ℕ) (h : Option ℕ) (m m' : SourceManager Spec Dir Options Sink)
      → Tracked m
      → handle_of (lookup sid m.sources) ≡ h
      → m'.tasks ≡ m.tasks
      → lookup t (abort_handle h m').tasks ≢ some (sid, running)
  abort_handle_quiet sid t none m m' k e s r =
      let x = sym e ∙ k t sid (ap (lookup t) (sym s) ∙ r) in ground (arith, x)
  abort_handle_quiet sid t (some u) m m' k e s r =
      let (other, r') = Runs-abort u t sid m'.tasks r in
      let x = sym e ∙ k t sid (ap (lookup t) (sym s) ∙ r') in ground (arith, x, other)

  abbrev pub started :
      ℕ → SourceRegistration Spec Dir Options Sink → SourceEntry Spec Dir Options Sink
  started t reg = record {
    spec = reg.spec;
    session_dir = reg.session_dir;
    start_options = reg.start_options;
    handle = some t;
    sink = reg.sink;
  }

  pub start-Tracked :
      (sid t : ℕ) (registered : Bool) (reg : SourceRegistration Spec Dir Options Sink)
      (m : SourceManager Spec Dir Options Sink)
      → handle_of (lookup sid m.sources) ≡ none
      → Tracked m
      → Tracked (start_source_with_sid sid t registered reg m).1
  unfolding start_source_with_sid
  start-Tracked sid t false reg m e k u j r = k u j ((Runs-finish t u j sid m.tasks r).1)
  start-Tracked sid t true reg m e k u j r =
      let r' = sym (lookup-insert t u (sid, running) m.tasks) ∙ r in
      ap handle_of (lookup-insert sid j (started t reg) m.sources)
      ∙ placed (Bool-cases (sid == j)) (Bool-cases (t == u)) r'
    where
      placed :
          ((sid == j) ≡ true) ⊎ ((sid == j) ≡ false)
          → ((t == u) ≡ true) ⊎ ((t == u) ≡ false)
          → (if t == u then some (sid, running) else lookup u m.tasks) ≡ some (j, running)
          → handle_of (if sid == j then some (started t reg) else lookup j m.sources) ≡ some u
      placed (inl a) (inl b) x = rw a (ap some (ground (arith, b)))
      placed (inl a) (inr b) x =
          let old : Runs u j m.tasks = ground (arith, b, x) in
          let at : sid ≡ j = ground (arith, a) in
          let y = sym (k u j old) ∙ ap (λ i. handle_of (lookup i m.sources)) (sym at) ∙ e in
          absurd (ground (arith, y))
      placed (inr a) (inl b) x = absurd (ground (arith, a, b, x))
      placed (inr a) (inr b) x = rw a (k u j (ground (arith, b, x)))

  pub clear_finished-handle :
      (tasks : HashMap ℕ (ℕ × Task)) (t sid : ℕ) (e : SourceEntry Spec Dir Options Sink)
      → Runs t sid tasks
      → e.handle ≡ some t
      → (clear_finished tasks e).handle ≡ some t
  unfolding clear_finished is_finished
  clear_finished-handle tasks t sid e r h = rw h (rw r refl)

  pub reap-Tracked :
      (tasks : HashMap ℕ (ℕ × Task)) (t sid : ℕ) (s : HashMap ℕ (SourceEntry Spec Dir Options Sink))
      → Runs t sid tasks
      → handle_of (lookup sid s) ≡ some t
      → handle_of (lookup sid (reap tasks s)) ≡ some t
  unfolding lookup reap
  reap-Tracked tasks t sid [] r h = h
  reap-Tracked tasks t sid ((j, e) ∷ s) r h =
      ground (arith, clear_finished-handle tasks t sid e r, reap-Tracked tasks t sid s r)

  pub insert_other :
      (sid j : ℕ) (e : SourceEntry Spec Dir Options Sink)
      (sources : HashMap ℕ (SourceEntry Spec Dir Options Sink))
      → (sid == j) ≡ false
      → lookup j (insert sid e sources) ≡ lookup j sources
  insert_other sid j e sources h = lookup-insert sid j e sources ∙ rw h refl

  pub remove_other :
      (sid j : ℕ) (sources : HashMap ℕ (SourceEntry Spec Dir Options Sink))
      → (sid == j) ≡ false
      → lookup j (remove sid sources) ≡ lookup j sources
  remove_other sid j sources h = lookup-remove sid j sources ∙ rw h refl

  pub stop-Tracked :
      (sid : ℕ) (o : Option (SourceEntry Spec Dir Options Sink))
      (m : SourceManager Spec Dir Options Sink)
      → lookup sid m.sources ≡ o
      → Tracked m
      → Tracked (stop_entry sid o m).1
  stop-Tracked sid none m e k = k
  stop-Tracked sid (some x) m e k =
      let x' = record x { handle = none; sink = none } in
      abort_handle-Tracked sid x.handle m (record m { sources = insert sid x' m.sources }) k
        (ap handle_of e) refl (λ j h. insert_other sid j x' m.sources h)

  pub remove-Tracked :
      (sid : ℕ) (m : SourceManager Spec Dir Options Sink)
      → Tracked m
      → Tracked (remove_source sid m).1
  unfolding remove_source
  remove-Tracked sid m k t j r =
      abort_handle-Tracked sid (handle_of (lookup sid m.sources)) m
        (record m { sources = remove sid m.sources }) k refl refl
        (λ i h. remove_other sid i m.sources h) t j r

  pub ends-Tracked :
      (t : ℕ) (o : Option (ℕ × Task)) (m : SourceManager Spec Dir Options Sink)
      → Tracked m
      → Tracked (ended o t m)
  ends-Tracked t none m k u j r = k u j r
  ends-Tracked t (some (sid, s)) m k u j r = k u j ((Runs-finish t u j sid m.tasks r).1)
