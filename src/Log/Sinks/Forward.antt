-- ===== src/Log/Sinks/Forward.antt =====
-- What the sinks behind a fan-out of fanout.rs see.
use tracemux.Prelude.{◌≡◌, refl, List, [], ◌∷◌, ◌++◌, map, All, arith}
use tracemux.Error.{ErrorId, Result, ok, err}
use tracemux.Log.Sinks.{go_on, forward}

go_on_ok :
    {S : Type 0} (p : Result (Unit {0}) × S) (ss ts : List S) (r : Result (Unit {0}))
    → p.0 ≡ ok tt
    → go_on p ss (r, ts) ≡ (r, p.1 ∷ ts)
go_on_ok (ok u, s) ss ts r h = refl
go_on_ok (err e, s) ss ts r h = ground arith

go_on_err :
    {S : Type 0} (p : Result (Unit {0}) × S) (ss : List S) (rest : Result (Unit {0}) × List S)
    (e : ErrorId)
    → p.0 ≡ err e
    → go_on p ss rest ≡ (err e, p.1 ∷ ss)
go_on_err (ok u, s) ss rest e h = ground arith
go_on_err (err f, s) ss rest e h = ground arith

module _ {S : Type 0} (call : S → Result (Unit {0}) × S) where
  abbrev pub Succeeds : S → Type 0
  Succeeds s = (call s).0 ≡ ok tt

  forward-All :
      (ss : List S) → All Succeeds ss → forward call ss ≡ (ok tt, map (λ s. (call s).1) ss)
  unfolding forward
  forward-All [] h = refl
  forward-All (s ∷ ss) h =
      rw (forward-All ss h.1) (go_on_ok (call s) ss (map (λ t. (call t).1) ss) (ok tt) h.0)

  forward_stops :
      (before after : List S) (s : S) (e : ErrorId)
      → All Succeeds before
      → (call s).0 ≡ err e
      → forward call (before ++ (s ∷ after))
        ≡ (err e, map (λ t. (call t).1) before ++ ((call s).1 ∷ after))
  unfolding forward
  forward_stops [] after s e h fails = go_on_err (call s) after (forward call after) e fails
  forward_stops (b ∷ before) after s e h fails = rw (forward_stops before after s e h.1 fails) (
      go_on_ok (call b) (before ++ (s ∷ after))
        (map (λ t. (call t).1) before ++ ((call s).1 ∷ after)) (err e) h.0)

  -- A call that is forwarded reaches every sink in order where all succeed. Where the ones in front
  -- succeed and the next fails, those in front and the one that failed have had the call, its error
  -- is returned, and the sinks behind it are as they were.
  pub forward_lem :
      (before after : List S) (s : S) (e : ErrorId)
      → All Succeeds before
      → (call s).0 ≡ err e
      → (forward call before ≡ (ok tt, map (λ t. (call t).1) before))
        × (forward call (before ++ (s ∷ after))
            ≡ (err e, map (λ t. (call t).1) before ++ ((call s).1 ∷ after)))
  forward_lem before after s e h fails =
      (forward-All before h, forward_stops before after s e h fails)
