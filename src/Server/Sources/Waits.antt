-- ===== src/Server/Sources/Waits.antt =====
-- `wait` of source_manager.rs: when it returns, the task whose handle it took has finished.
use tracemux.Prelude.{
  ℕ, ◌≡◌, refl, sym, ap, ◌∙◌, Option, none, some, Bool, true, false, not, ◌==◌, nat_eq, arith,
}
use tracemux.Prelude.Maps.{lookup, insert}
use tracemux.Server.Sources.{
  Task, SourceEntry, SourceManager, is_some, ended, task_ends, handle_of, drop_sink, wait_done,
  take_handle, wait_entry, waited, wait_locked, wait,
}
use tracemux.Server.Sources.Held.{
  Runs, Runs-finish, other_task, Tracked, tracked_other, insert_other, remove_other,
}

-- A task that runs when another has ended is another, and ran before.
Runs-ended :
    {Spec Dir Options Sink : Type 0} (t u j : ℕ) (o : Option (ℕ × Task))
    (m : SourceManager Spec Dir Options Sink)
    → lookup t m.tasks ≡ o
    → Runs u j (ended o t m).tasks
    → ((t == u) ≡ false) × Runs u j m.tasks
Runs-ended t u j none m e r = (other_task t u j none m.tasks e (λ x. ground (arith, x)) r, r)
Runs-ended t u j (some (sid, k)) m e r = Runs-finish t u j sid m.tasks r

ended-sources :
    {Spec Dir Options Sink : Type 0} (t : ℕ) (o : Option (ℕ × Task))
    (m : SourceManager Spec Dir Options Sink)
    → (ended o t m).sources ≡ m.sources
ended-sources t none m = refl
ended-sources t (some (sid, k)) m = refl

module _ {Spec Dir Options Sink : Type 0} where
  drop_sink_other :
      (sid i : ℕ) (o : Option (SourceEntry Spec Dir Options Sink))
      (m : SourceManager Spec Dir Options Sink)
      → (sid == i) ≡ false
      → lookup i (drop_sink sid o m).sources ≡ lookup i m.sources
  drop_sink_other sid i none m h = refl
  drop_sink_other sid i (some e) m h = insert_other sid i (record e { sink = none }) m.sources h

  drop_sink-tasks :
      (sid : ℕ) (o : Option (SourceEntry Spec Dir Options Sink))
      (m : SourceManager Spec Dir Options Sink)
      → (drop_sink sid o m).tasks ≡ m.tasks
  drop_sink-tasks sid none m = refl
  drop_sink-tasks sid (some e) m = refl

  wait_done_other :
      (sid i : ℕ) (b : Bool) (m : SourceManager Spec Dir Options Sink)
      → (sid == i) ≡ false
      → lookup i (wait_done sid b m).sources ≡ lookup i m.sources
  unfolding wait_done
  wait_done_other sid i false m h = drop_sink_other sid i (lookup sid m.sources) m h
  wait_done_other sid i true m h =
      remove_other sid i (drop_sink sid (lookup sid m.sources) m).sources h
      ∙ drop_sink_other sid i (lookup sid m.sources) m h

  wait_done-tasks :
      (sid : ℕ) (b : Bool) (m : SourceManager Spec Dir Options Sink)
      → (wait_done sid b m).tasks ≡ m.tasks
  unfolding wait_done
  wait_done-tasks sid false m = drop_sink-tasks sid (lookup sid m.sources) m
  wait_done-tasks sid true m = drop_sink-tasks sid (lookup sid m.sources) m

  take_handle-Tracked :
      (sid : ℕ) (e : SourceEntry Spec Dir Options Sink) (h : Option ℕ)
      (m : SourceManager Spec Dir Options Sink)
      → handle_of (lookup sid m.sources) ≡ h
      → Tracked m
      → Tracked (waited sid (take_handle sid e h m))
  unfolding task_ends
  take_handle-Tracked sid e none m there k u j r = k u j r
  take_handle-Tracked sid e (some t) m there k u j r =
      let e' : SourceEntry Spec Dir Options Sink = record e { handle = none } in
      let b = not (is_some e.spec) in
      let m1 : SourceManager Spec Dir Options Sink = record m {
        sources = insert sid e' m.sources;
      } in
      let m2 = ended (lookup t m.tasks) t m1 in
      let (other, r') =
        Runs-ended t u j (lookup t m.tasks) m1 refl
          (ap (lookup u) (sym (wait_done-tasks sid b m2)) ∙ r) in
      tracked_other sid u j (some t) m (wait_done sid b m2).sources (k u j r') there
        (λ x. ground (arith, x, other))
        (λ i d.
          wait_done_other sid i b m2 d
          ∙ ap (lookup i) (ended-sources t (lookup t m.tasks) m1)
          ∙ insert_other sid i e' m.sources d)

  wait_entry-Tracked :
      (sid : ℕ) (o : Option (SourceEntry Spec Dir Options Sink))
      (m : SourceManager Spec Dir Options Sink)
      → lookup sid m.sources ≡ o
      → Tracked m
      → Tracked (waited sid (wait_entry sid o m))
  wait_entry-Tracked sid none m there k = k
  wait_entry-Tracked sid (some e) m there k =
      take_handle-Tracked sid e e.handle m (ap handle_of there) k

  pub wait-Tracked :
      (sid : ℕ) (m : SourceManager Spec Dir Options Sink) → Tracked m → Tracked (wait sid m)
  unfolding wait wait_locked
  wait-Tracked sid m k = wait_entry-Tracked sid (lookup sid m.sources) m refl k
