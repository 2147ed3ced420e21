-- ===== src/Server/Tofu/Trust.antt =====
-- The trust of fingerprint.rs: the first certificate of a host is the only one, until it is replaced
-- by hand.
use tracemux.Prelude.{
  ℕ, ◌≡◌, ◌∙◌, refl, ap, subst, List, [], ◌∷◌, Option, none, some, true, false, if◌then◌else◌,
  arith, All, Bool-cases, inl, inr,
}
use tracemux.Prelude.Bytes.{bytes_key, bytes_eq, bytes_eq_self, bytes_eq→eq}
use tracemux.Prelude.Maps.{HashMap, lookup, lookup-insert}
use tracemux.Server.Tofu.{
  PinFile, PinStore, mismatch, pinned, matched, Outcome, ok, err, Write, done, untouched, cut,
  fingerprint_der, open_store, get, write, save, then_say, insert_pin, compare_pin, verify_or_pin,
  force_pin, schema_v1,
}
use tracemux.Server.Tofu.Digest.{
  AreBytes, text_of, fingerprint_der-text_of, bytes_eq-fingerprint_der,
}

-- A connection to a host that shows a certificate, or a pin set by hand.
pub data Contact : Type 0 where
  connects : Write → List ℕ → List ℕ → Contact
  forces : Write → List ℕ → List ℕ → Contact

module _ (sha256 : List ℕ → List ℕ) (to_vec_pretty : PinFile → Option (List ℕ))
    (from_slice : List ℕ → Option PinFile) where
  abbrev pub contact : Contact → PinStore → PinStore
  contact (connects w host cert) s = (verify_or_pin sha256 to_vec_pretty from_slice w host cert s).1
  contact (forces w host fp) s = (force_pin sha256 to_vec_pretty from_slice w host fp s).1

  unfoldable pub after : List Contact → PinStore → PinStore
  after [] s = s
  after (c ∷ cs) s = after cs (contact c s)

  -- No pin is set for the host by hand.
  abbrev pub Unforced : List ℕ → Contact → Type 0
  Unforced host (connects w other cert) = Unit
  Unforced host (forces w other fp) = bytes_eq other host ≡ false

  write-inner :
      (w : Write) (bytes : Option (List ℕ)) (s : PinStore)
      → (write sha256 to_vec_pretty from_slice w bytes s).1.inner ≡ s.inner
  write-inner done none s = refl
  write-inner untouched none s = refl
  write-inner (cut k) none s = refl
  write-inner done (some bytes) s = refl
  write-inner untouched (some bytes) s = refl
  write-inner (cut k) (some bytes) s = refl

  save-inner :
      (w : Write) (s : PinStore) → (save sha256 to_vec_pretty from_slice w s).1.inner ≡ s.inner
  unfolding save
  save-inner w s = write-inner w (to_vec_pretty s.inner) s

  then_say-store :
      {A B : Type 0} (b : B) (r : Outcome A × PinStore)
      → (then_say sha256 to_vec_pretty from_slice b r).1 ≡ r.1
  then_say-store b (ok a, s) = refl
  then_say-store b (err e, s) = refl

  get-save :
      (w : Write) (host other fp : List ℕ) (s : PinStore)
      → lookup host
          (save sha256 to_vec_pretty from_slice w
            (insert_pin sha256 to_vec_pretty from_slice other fp s)).1.inner.pins
        ≡ (if bytes_eq other host then some fp else lookup host s.inner.pins)
  get-save w host other fp s =
      ap (λ (i : PinFile). lookup host i.pins)
        (save-inner w (insert_pin sha256 to_vec_pretty from_slice other fp s))
      ∙ lookup-insert other host fp s.inner.pins

  -- What a comparison does to the pin of a host.
  abbrev pin_after : List ℕ → List ℕ → List ℕ → Option (List ℕ) → Option (List ℕ) → Option (List ℕ)
  pin_after host other fp (some old) pin = pin
  pin_after host other fp none pin = if bytes_eq other host then some fp else pin

  compare_pin-pins :
      (w : Write) (host other fp : List ℕ) (o : Option (List ℕ)) (s : PinStore)
      → lookup host (compare_pin sha256 to_vec_pretty from_slice w other fp o s).1.inner.pins
        ≡ pin_after host other fp o (lookup host s.inner.pins)
  compare_pin-pins w host other fp (some old) s = refl
  compare_pin-pins w host other fp none s =
      ap (λ (t : PinStore). lookup host t.inner.pins)
        (then_say-store pinned (
          save sha256 to_vec_pretty from_slice w
            (insert_pin sha256 to_vec_pretty from_slice other fp s)))
      ∙ get-save w host other fp s

  pin_kept :
      (host other fp new : List ℕ) (o : Option (List ℕ)) (pins : HashMap (List ℕ) (List ℕ))
      → lookup other pins ≡ o
      → lookup host pins ≡ some fp
      → pin_after host other new o (lookup host pins) ≡ some fp
  pin_kept host other fp new (some old) pins h there = there
  pin_kept host other fp new none pins h there = elim (Bool-cases (bytes_eq other host)) [
    | inl same ↦ cc (h, there, ap (λ k. lookup k pins) (bytes_eq→eq other host same))
    | inr different ↦ rw different there
  ]

  get-contact :
      (host fp : List ℕ) (c : Contact) (s : PinStore)
      → lookup host s.inner.pins ≡ some fp
      → Unforced host c
      → lookup host (contact c s).inner.pins ≡ some fp
  unfolding verify_or_pin force_pin
  get-contact host fp (connects w other cert) s there u =
      let new = fingerprint_der sha256 to_vec_pretty from_slice cert in
      compare_pin-pins w host other new (lookup other s.inner.pins) s
      ∙ pin_kept host other fp new (lookup other s.inner.pins) s.inner.pins refl there
  get-contact host fp (forces w other new) s there u = get-save w host other new s ∙ rw u there

  get-after :
      (host fp : List ℕ) (cs : List Contact) (s : PinStore)
      → lookup host s.inner.pins ≡ some fp
      → All (Unforced host) cs
      → lookup host (after cs s).inner.pins ≡ some fp
  unfolding after
  get-after host fp [] s there u = there
  get-after host fp (c ∷ cs) s there u =
      get-after host fp cs (contact c s) (get-contact host fp c s there u.0) u.1

  -- Where SHA-256 gives bytes: after a host was contacted that had no pin, and any contacts in which its
  -- pin is not set by hand, a certificate that it shows is accepted if its digest is that of the first
  -- one and refused otherwise, with both digests as `sha256:` and two letters for each byte, and the
  -- store is left alone; so it is also when the first pin could not be saved.
  pub verify_or_pin-first :
      (digests : (x : List ℕ) → AreBytes (sha256 x)) (w w' : Write) (host cert cert' : List ℕ)
      (cs : List Contact) (s : PinStore)
      → get sha256 to_vec_pretty from_slice host s ≡ none
      → All (Unforced host) cs
      → let s' = after cs (verify_or_pin sha256 to_vec_pretty from_slice w host cert s).1 in
        verify_or_pin sha256 to_vec_pretty from_slice w' host cert' s' ≡ (
          (if bytes_eq (sha256 cert) (sha256 cert')
              then ok matched
              else err (mismatch (text_of (sha256 cert)) (text_of (sha256 cert')))),
          s',
        )
  unfolding get verify_or_pin
  verify_or_pin-first digests w w' host cert cert' cs s fresh u =
      let s1 = (verify_or_pin sha256 to_vec_pretty from_slice w host cert s).1 in
      let first = fingerprint_der sha256 to_vec_pretty from_slice cert in
      let there : lookup host s1.inner.pins ≡ some first =
        compare_pin-pins w host host first (lookup host s.inner.pins) s
        ∙ ap (λ o. pin_after host host first o (lookup host s.inner.pins)) fresh
        ∙ rw (bytes_eq_self host) refl in
      rw (get-after host first cs s1 there u) (
        rw (bytes_eq-fingerprint_der sha256 to_vec_pretty from_slice digests cert cert') (
          rw (fingerprint_der-text_of sha256 to_vec_pretty from_slice digests cert)
            (rw (fingerprint_der-text_of sha256 to_vec_pretty from_slice digests cert') refl)))

  module _
      (back : (f : PinFile) (bytes : List ℕ)
        → to_vec_pretty f ≡ some bytes
        → from_slice bytes ≡ some f) where
    open_store-write :
        (o : Option (List ℕ)) (t s' : PinStore)
        → to_vec_pretty t.inner ≡ o
        → t.inner.schema ≡ schema_v1
        → then_say sha256 to_vec_pretty from_slice pinned
            (write sha256 to_vec_pretty from_slice done o t)
          ≡ (ok pinned, s')
        → (open_store sha256 to_vec_pretty from_slice s'.disk ≡ ok s') × (s'.inner ≡ t.inner)
    unfolding open_store
    open_store-write none t s' p v h = ground arith
    open_store-write (some bytes) t s' p v h =
        subst
          (λ (x : PinStore).
            (open_store sha256 to_vec_pretty from_slice x.disk ≡ ok x) × (x.inner ≡ t.inner))
          (ap (λ r. r.1) h)
          (rw (back t.inner bytes p) (rw (schema_holds t.inner.schema v) refl), refl)
      where
        schema_holds : (xs : List ℕ) → xs ≡ schema_v1 → bytes_eq xs schema_v1 ≡ true
        schema_holds xs e = rw e (bytes_eq_self schema_v1)

    compare_pin-saved :
        (host fp : List ℕ) (o : Option (List ℕ)) (s s' : PinStore)
        → s.inner.schema ≡ schema_v1
        → compare_pin sha256 to_vec_pretty from_slice done host fp o s ≡ (ok pinned, s')
        → (open_store sha256 to_vec_pretty from_slice s'.disk ≡ ok s')
          × (lookup host s'.inner.pins ≡ some fp)
    unfolding save
    compare_pin-saved host fp (some old) s s' v h = ground arith
    compare_pin-saved host fp none s s' v h =
        let t = insert_pin sha256 to_vec_pretty from_slice host fp s in
        let (opened, same) = open_store-write (to_vec_pretty t.inner) t s' refl v h in
        (
          opened,
          ap (λ (f : PinFile). lookup host f.pins) same
              ∙ lookup-insert host host fp s.inner.pins
              ∙ rw (bytes_eq_self host) refl,
        )

    -- Where serde_json reads back what it prints: a store of this schema whose save of a new pin
    -- succeeds is the one that `open` makes of the file afterwards, and the pin is in it.
    pub open_store-verify_or_pin :
        (host cert : List ℕ) (s s' : PinStore)
        → s.inner.schema ≡ schema_v1
        → verify_or_pin sha256 to_vec_pretty from_slice done host cert s ≡ (ok pinned, s')
        → (open_store sha256 to_vec_pretty from_slice s'.disk ≡ ok s')
          × (get sha256 to_vec_pretty from_slice host s'
              ≡ some (fingerprint_der sha256 to_vec_pretty from_slice cert))
    unfolding verify_or_pin get
    open_store-verify_or_pin host cert s s' v h =
        compare_pin-saved host (fingerprint_der sha256 to_vec_pretty from_slice cert)
          (lookup host s.inner.pins) s s' v h
