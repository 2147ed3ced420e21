-- ===== src/Tests/Manage.antt =====
-- The pins, the annotations and the sources of the server, at concrete values.
use tracemux.Prelude.{
  ◌==◌, ◌%◌, ℕ, ◌≡◌, ◌≢◌, refl, List, [], ◌∷◌, Option, none, some, true, false, if◌then◌else◌,
  arith, nat_eq,
}
use tracemux.Prelude.Bytes.{bytes_eq, bytes_key}
use tracemux.Prelude.Maps.{lookup, insert}
use tracemux.Server.Tofu
use tracemux.Server.Tofu.{
  PinFile, PinStore, done, untouched, pinned, matched, mismatch, empty_file, verify_or_pin,
  fingerprint_der, get, save,
}
use tracemux.Server.Tofu.Digest.{AreBytes, text_of}
use tracemux.Server.Tofu.Trust
use tracemux.Server.Tofu.Trust.{
  Contact, connects, forces, verify_or_pin-first, open_store-verify_or_pin,
}
use tracemux.Prelude.Text.{whitespace, trim, trim_start, trim_end, is_empty}
use tracemux.Server.Annotations
use tracemux.Server.Annotations.{
  AnnotationTargetKind, AnnotationTarget, Annotation, AnnotationStore, Io, persist_locked,
  normalize_target, normalize_text, and_then_actor, normalize_actor, upsert, open_store,
  load_annotations, load_lines,
}
use tracemux.Server.Annotations.Persist.{
  Call, upserts, deletes, after, annotation_in, open_store-after, placed, Leaves, upsert-Leaves,
}
use tracemux.Server.Prefetch.{
  Arrival, frame, pause, failure, bytes, ssh, auto, off, prefetch_for_detection, sample_loop,
  frame_bytes, recv, recv_inner, open_source,
}
use tracemux.Server.Prefetch.Order.{
  Detected, unread, receive, session_stream, session_stream-prefetch_for_detection,
}
use tracemux.Server.Auth.{v4, bearer}
use tracemux.Server.Auth.Access.{expected, first_token}
use tracemux.Server.Sources
use tracemux.Server.Sources.{
  SourceManager, SourceRegistration, Task, running, resume_locked, start_locked,
  start_source_with_sid, stop, remove_source, is_finished, clear_finished, abort, handle_of,
}
use tracemux.Server.Sources.Held.{Runs}
use tracemux.Server.Sources.Track.{Reachable, empty, starts, Reachable-handle, stop_quiet}
use tracemux.Tests.Printers.{
  to_string, from_str, from_str-to_string, to_vec, of_slice, of_slice-to_vec, to_string-StartsInk,
  to_string-EndsInk,
}

-- The digest of a certificate is here the certificate, by bytes.
abbrev digest : List ℕ → List ℕ
digest [] = []
digest (c ∷ cs) = (c % 256) ∷ digest cs

digest-AreBytes : (cert : List ℕ) → AreBytes (digest cert)
digest-AreBytes [] = tt
digest-AreBytes (c ∷ cs) = (omega arith, digest-AreBytes cs)

abbrev no_pins : PinStore
no_pins = record { disk = none; inner = empty_file }

abbrev host : List ℕ
host = 104 ∷ []

abbrev contacts : List Contact
contacts = connects done (103 ∷ []) (3 ∷ []) ∷ forces done (102 ∷ []) (9 ∷ []) ∷ []

verify_or_pin-first_example :
    let s' =
      Trust.after digest to_vec of_slice contacts
        (verify_or_pin digest to_vec of_slice untouched host (7 ∷ []) no_pins).1 in
    verify_or_pin digest to_vec of_slice done host (8 ∷ []) s' ≡ (
      (if bytes_eq (digest (7 ∷ [])) (digest (8 ∷ []))
          then Tofu.ok matched
          else Tofu.err (mismatch (text_of (digest (7 ∷ []))) (text_of (digest (8 ∷ []))))),
      s',
    )
verify_or_pin-first_example =
    verify_or_pin-first digest to_vec of_slice digest-AreBytes untouched done host (7 ∷ []) (8 ∷ [])
      contacts no_pins (unfold get lookup in refl) (tt, (unfold bytes_eq in refl, tt))

abbrev pinned_store : PinStore
pinned_store = (verify_or_pin digest to_vec of_slice done host (7 ∷ []) no_pins).1

pinned_done :
    verify_or_pin digest to_vec of_slice done host (7 ∷ []) no_pins ≡ (Tofu.ok pinned, pinned_store)
unfolding verify_or_pin save lookup
pinned_done = refl

open_store-verify_or_pin_example :
    (Tofu.open_store digest to_vec of_slice pinned_store.disk ≡ Tofu.ok pinned_store)
    × (get digest to_vec of_slice host pinned_store
        ≡ some (fingerprint_der digest to_vec of_slice (7 ∷ [])))
open_store-verify_or_pin_example =
    open_store-verify_or_pin digest to_vec of_slice of_slice-to_vec host (7 ∷ []) no_pins
      pinned_store refl pinned_done

abbrev target : AnnotationTarget
target = record { kind = Annotations.session; sid = some 4; key = none }

abbrev no_annotations : AnnotationStore
no_annotations = record { disk = none; tmp = none; annotations = [] }

abbrev calls : List Call
calls = upserts 1 target (104 ∷ []) none 10 ∷ upserts 2 target (105 ∷ []) none 11 ∷ deletes 1 ∷ []

open_nothing :
    annotation_in 2 (open_store to_string from_str none)
    ≡ Annotations.ok (lookup 2 no_annotations.annotations)
unfolding open_store load_annotations lookup
open_nothing = refl

open_store-after_example :
    annotation_in 2
      (open_store to_string from_str (after to_string from_str calls no_annotations).disk)
    ≡ Annotations.ok (lookup 2 (after to_string from_str calls no_annotations).annotations)
open_store-after_example =
    open_store-after to_string from_str to_string-StartsInk to_string-EndsInk from_str-to_string 2
      calls no_annotations (tt, tt) open_nothing

target_normal : normalize_target target ≡ Annotations.ok target
unfolding normalize_target
target_normal = refl

text_normal : normalize_text (104 ∷ []) ≡ Annotations.ok (104 ∷ [])
unfolding normalize_text
text_normal = refl

-- There is a file, and its renaming fails.
abbrev old_file : AnnotationStore
old_file = record no_annotations { disk = some [] }

abbrev unrenamed : Io
unrenamed = record Annotations.done { renames = false }

upsert-Leaves_example :
    let a = placed 1 target (104 ∷ []) (and_then_actor none) 10 in
    let r = upsert to_string from_str unrenamed 1 target (104 ∷ []) none 10 old_file in
    Leaves to_string from_str unrenamed a old_file r × (lookup 1 r.1.annotations ≡ some a)
upsert-Leaves_example =
    upsert-Leaves to_string from_str unrenamed 1 target target (104 ∷ []) (104 ∷ []) none 10
      old_file target_normal text_normal

-- No file is left then.
unrenamed_gone :
    (upsert to_string from_str unrenamed 1 target (104 ∷ []) none 10 old_file).1.disk ≡ none
unfolding upsert normalize_target normalize_text persist_locked
unrenamed_gone = refl

-- Specifications, directories, options and sinks are numbers here.
abbrev Manager : Type 0
Manager = SourceManager ℕ ℕ ℕ ℕ

abbrev registration : SourceRegistration ℕ ℕ ℕ ℕ
registration = record { spec = some 1; session_dir = none; start_options = 0; sink = none }

abbrev nothing : Manager
nothing = record { sources = []; registry = []; tasks = [] }

abbrev one : Manager
one = (start_source_with_sid 5 9 true registration nothing).1

one-Reachable : Reachable one
one-Reachable = starts 5 9 true registration nothing empty (unfold lookup in refl)

nine : Runs 9 5 one.tasks
unfolding start_source_with_sid lookup insert
nine = refl

Reachable-handle_example : handle_of (lookup 5 one.sources) ≡ some 9
Reachable-handle_example = Reachable-handle one 9 5 one-Reachable nine

stop_quiet_example :
    (lookup 9 (stop 5 one).1.tasks ≢ some (5, running))
    × (lookup 9 (remove_source 5 one).1.tasks ≢ some (5, running))
stop_quiet_example = stop_quiet one 9 5 one-Reachable

-- Two calls of `resume` that both read the entry before either starts its task: after `stop` the task
-- of the first, 1, runs on.
abbrev stopped : Manager
stopped = (stop 5 one).1

abbrev first : Sources.Answer (ℕ × Option ℕ × ℕ) × Manager
first = resume_locked 5 stopped

abbrev second : Sources.Answer (ℕ × Option ℕ × ℕ) × Manager
second = resume_locked 5 first.1

abbrev raced : Manager
raced =
    (start_locked 5 2 true none none
      (second.0, (start_locked 5 1 true none none (first.0, second.1)).1)).1

raced-Runs : Runs 1 5 (stop 5 raced).1.tasks
unfolding start_source_with_sid lookup insert resume_locked stop is_finished clear_finished abort
raced-Runs = refl

abbrev arrivals : List Arrival
arrivals = frame (bytes (1 ∷ [])) ∷ pause ∷ frame (ssh 1 (2 ∷ [])) ∷ failure ∷ []

session_stream-prefetch_for_detection_example :
    Detected arrivals false 5 (prefetch_for_detection auto (unread arrivals false))
session_stream-prefetch_for_detection_example =
    session_stream-prefetch_for_detection auto arrivals false 5 (omega arith)

-- A source like that of tcp.rs, which the detection reads to its end: the session reads an error.
ended_twice :
    session_stream 3 (prefetch_for_detection auto (unread (frame (bytes (1 ∷ [])) ∷ []) false))
    ≡ some ((bytes (1 ∷ []) ∷ [], false), 1)
unfolding prefetch_for_detection sample_loop frame_bytes receive recv recv_inner open_source
ended_twice = refl

-- Without a detection it reads the end.
ended_once :
    session_stream 3 (prefetch_for_detection off (unread (frame (bytes (1 ∷ [])) ∷ []) false))
    ≡ some ((bytes (1 ∷ []) ∷ [], true), 1)
unfolding prefetch_for_detection receive recv recv_inner open_source
ended_once = refl

-- A hash is the token itself, without a first one.
abbrev parse : List ℕ → Option (List ℕ)
parse [] = none
parse (c ∷ cs) = if c == 1 then some cs else none

abbrev offered : List ℕ
offered = 97 ∷ []

-- ` bearer.z`
abbrev with_bearer : List ℕ
with_bearer = 32 ∷ 98 ∷ 101 ∷ 97 ∷ 114 ∷ 101 ∷ 114 ∷ 46 ∷ 122 ∷ []

bearer_let_in :
    expected parse bytes_eq
      ((1 ∷ 122 ∷ []) ∷ (7 ∷ []) ∷ [])
      (v4 10 0 0 1)
      true
      (first_token (offered ∷ with_bearer ∷ []))
    ≡ bearer
unfolding trim trim_start trim_end whitespace is_empty bytes_eq
bearer_let_in = refl
