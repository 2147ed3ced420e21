-- ===== src/Tests/Printers.antt =====
-- Printers and readers of annotations and pin files, in the place of serde_json.
use tracemux.Prelude.{
  ℕ, zero, suc, ◌≡◌, refl, sym, ap, ◌∙◌, List, [], ◌∷◌, ◌++◌, Option, none, some, Bool, true, false,
  arith, length, take, drop, take-append, drop-append, nat_eq,
}
use tracemux.Prelude.Bytes.{bytes_key}
use tracemux.Prelude.Maps.{HashMap}
use tracemux.Server.Tofu.{PinFile}
use tracemux.Prelude.Text.{StartsInk, EndsInk, whitespace}
use tracemux.Server.Annotations
use tracemux.Server.Annotations.{
  AnnotationTargetKind, AnnotationTarget, Annotation, AnnotationStore, normalize_target,
  normalize_text, and_then_actor, normalize_actor, upsert, open_store, load_annotations, load_lines,
}

-- A printer of annotations as numbers between two ones, and its reader.
abbrev pub put_text : List ℕ → List ℕ → List ℕ
put_text s rest = length s ∷ (s ++ rest)

abbrev pub put_option : Option (List ℕ) → List ℕ → List ℕ
put_option none rest = 0 ∷ rest
put_option (some s) rest = 1 ∷ put_text s rest

abbrev pub put_sid : Option ℕ → List ℕ → List ℕ
put_sid none rest = 0 ∷ rest
put_sid (some n) rest = 1 ∷ n ∷ rest

abbrev pub put_kind : AnnotationTargetKind → ℕ
put_kind Annotations.session = 0
put_kind Annotations.log_type = 1

abbrev pub put_bool : Bool → ℕ
put_bool false = 0
put_bool true = 1

abbrev pub to_string : Annotation → List ℕ
to_string a =
    1
    ∷ a.id
    ∷ put_kind a.target.kind
    ∷ a.updated_at
    ∷ put_bool a.deleted
    ∷ put_sid a.target.sid
        (put_option a.target.key (put_option a.updated_by (put_text a.text (1 ∷ []))))

abbrev pub get_text : {A : Type 0} → List ℕ → (List ℕ → List ℕ → Option A) → Option A
get_text [] k = none
get_text (n ∷ r) k = k (take n r) (drop n r)

abbrev pub get_option : {A : Type 0} → List ℕ → (Option (List ℕ) → List ℕ → Option A) → Option A
get_option [] k = none
get_option (zero ∷ r) k = k none r
get_option (suc n ∷ r) k = get_text r (λ s. k (some s))

abbrev pub get_sid : {A : Type 0} → List ℕ → (Option ℕ → List ℕ → Option A) → Option A
get_sid [] k = none
get_sid (zero ∷ r) k = k none r
get_sid (suc n ∷ []) k = none
get_sid (suc n ∷ i ∷ r) k = k (some i) r

abbrev pub get_kind : ℕ → AnnotationTargetKind
get_kind zero = Annotations.session
get_kind (suc n) = Annotations.log_type

abbrev pub get_bool : ℕ → Bool
get_bool zero = false
get_bool (suc n) = true

abbrev pub from_str : List ℕ → Option Annotation
from_str (one ∷ id ∷ kind ∷ at ∷ gone ∷ r) = get_sid r (λ sid r. get_option r (λ key r.
    get_option r (λ who r. get_text r (λ text r. some (record {
      id = id;
      target = record { kind = get_kind kind; sid = sid; key = key };
      text = text;
      updated_at = at;
      updated_by = who;
      deleted = get_bool gone;
    })))))
from_str r = none

pub get_text-put_text :
    {A : Type 0} (s rest : List ℕ) (k : List ℕ → List ℕ → Option A)
    → get_text (put_text s rest) k ≡ k s rest
get_text-put_text s rest k =
    rw (take-append (length s) s rest refl) (rw (drop-append (length s) s rest refl) refl)

pub get_option-put_option :
    {A : Type 0} (o : Option (List ℕ)) (rest : List ℕ) (k : Option (List ℕ) → List ℕ → Option A)
    → get_option (put_option o rest) k ≡ k o rest
get_option-put_option none rest k = refl
get_option-put_option (some s) rest k = get_text-put_text s rest (λ t. k (some t))

pub get_sid-put_sid :
    {A : Type 0} (o : Option ℕ) (rest : List ℕ) (k : Option ℕ → List ℕ → Option A)
    → get_sid (put_sid o rest) k ≡ k o rest
get_sid-put_sid none rest k = refl
get_sid-put_sid (some n) rest k = refl

pub get_kind-put_kind : (k : AnnotationTargetKind) → get_kind (put_kind k) ≡ k
get_kind-put_kind Annotations.session = refl
get_kind-put_kind Annotations.log_type = refl

pub get_bool-put_bool : (b : Bool) → get_bool (put_bool b) ≡ b
get_bool-put_bool false = refl
get_bool-put_bool true = refl

pub from_str-to_string : (a : Annotation) → from_str (to_string a) ≡ some a
from_str-to_string a =
    let t = put_text a.text (1 ∷ []) in
    rw (get_kind-put_kind a.target.kind) (
      rw (get_bool-put_bool a.deleted) (
        get_sid-put_sid a.target.sid (put_option a.target.key (put_option a.updated_by t)) _
        ∙ get_option-put_option a.target.key (put_option a.updated_by t) _
        ∙ get_option-put_option a.updated_by t _
        ∙ get_text-put_text a.text (1 ∷ []) (λ text r. some (record a { text = text }))))

-- A printer of pin files and its reader.
abbrev pub put_pins : HashMap (List ℕ) (List ℕ) → List ℕ
put_pins [] = []
put_pins ((host, fp) ∷ pins) = put_text host (put_text fp (put_pins pins))

abbrev pub to_vec : PinFile → Option (List ℕ)
to_vec f = some (put_text f.schema (length f.pins ∷ put_pins f.pins))

abbrev pub and_pin :
    List ℕ × List ℕ → Option (HashMap (List ℕ) (List ℕ)) → Option (HashMap (List ℕ) (List ℕ))
and_pin p none = none
and_pin p (some ps) = some (p ∷ ps)

abbrev pub get_pins : ℕ → List ℕ → Option (HashMap (List ℕ) (List ℕ))
get_pins zero r = some []
get_pins (suc n) r = get_text r (λ host r. get_text r (λ fp r. and_pin (host, fp) (get_pins n r)))

abbrev pub with_schema : List ℕ → Option (HashMap (List ℕ) (List ℕ)) → Option PinFile
with_schema schema none = none
with_schema schema (some pins) = some (record { schema = schema; pins = pins })

abbrev pub after_schema : List ℕ → List ℕ → Option PinFile
after_schema schema [] = none
after_schema schema (n ∷ r) = with_schema schema (get_pins n r)

abbrev pub of_slice : List ℕ → Option PinFile
of_slice slice = get_text slice after_schema

pub get_pins-put_pins :
    (pins : HashMap (List ℕ) (List ℕ)) → get_pins (length pins) (put_pins pins) ≡ some pins
get_pins-put_pins [] = refl
get_pins-put_pins ((host, fp) ∷ pins) =
    let n = length pins in
    get_text-put_text host (put_text fp (put_pins pins))
      (λ h r. get_text r (λ f r. and_pin (h, f) (get_pins n r)))
    ∙ get_text-put_text fp (put_pins pins) (λ f r. and_pin (host, f) (get_pins n r))
    ∙ ap (and_pin (host, fp)) (get_pins-put_pins pins)

pub of_slice-to_vec :
    (f : PinFile) (slice : List ℕ) → to_vec f ≡ some slice → of_slice slice ≡ some f
of_slice-to_vec f slice h =
    ap of_slice (sym (same h))
    ∙ get_text-put_text f.schema (length f.pins ∷ put_pins f.pins) after_schema
    ∙ ap (with_schema f.schema) (get_pins-put_pins f.pins)
  where
    same : {xs ys : List ℕ} → some xs ≡ some ys → xs ≡ ys
    same e = ground (arith, e)

pub ink_cons : (c : ℕ) (s : List ℕ) → EndsInk s → EndsInk (c ∷ s)
ink_cons c [] h = elim h [ ]
ink_cons c (d ∷ s) h = h

pub ink_append : (s rest : List ℕ) → EndsInk rest → EndsInk (s ++ rest)
ink_append [] rest h = h
ink_append (c ∷ s) rest h = ink_cons c (s ++ rest) (ink_append s rest h)

pub ink_text : (s rest : List ℕ) → EndsInk rest → EndsInk (put_text s rest)
ink_text s rest h = ink_cons (length s) (s ++ rest) (ink_append s rest h)

pub ink_option : (o : Option (List ℕ)) (rest : List ℕ) → EndsInk rest → EndsInk (put_option o rest)
ink_option none rest h = ink_cons 0 rest h
ink_option (some s) rest h = ink_cons 1 (put_text s rest) (ink_text s rest h)

pub ink_sid : (o : Option ℕ) (rest : List ℕ) → EndsInk rest → EndsInk (put_sid o rest)
ink_sid none rest h = ink_cons 0 rest h
ink_sid (some n) rest h = ink_cons n rest h

pub to_string-StartsInk : (a : Annotation) → StartsInk (to_string a)
unfolding whitespace
to_string-StartsInk a = refl

pub to_string-EndsInk : (a : Annotation) → EndsInk (to_string a)
unfolding whitespace
to_string-EndsInk a =
    let t = put_text a.text (1 ∷ []) in
    let w = put_option a.updated_by t in
    let k = put_option a.target.key w in
    ink_cons (put_bool a.deleted) (put_sid a.target.sid k) (
      ink_sid a.target.sid k
        (ink_option a.target.key w (ink_option a.updated_by t (ink_text a.text (1 ∷ []) refl))))
