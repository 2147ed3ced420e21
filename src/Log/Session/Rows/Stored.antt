-- ===== src/Log/Session/Rows/Stored.antt =====
-- The rows of a session's directory name their payloads.
use tracemux.Prelude.{
  ℕ, ◌+◌, ◌-◌, ◌^◌, ◌<◌, ◌≡◌, refl, sym, ◌∙◌, List, [], ◌∷◌, ◌++◌, some, length, min, All,
  append_assoc, length-append, arith,
}
use tracemux.Log.Raw.{read_at}
use tracemux.Log.Raw.Offsets.{read_at_middle}
use tracemux.Log.Index.{from_envelope}
use tracemux.Log.Session.{Crates}
use tracemux.Log.Session.Rows.{
  Call, raws, records, commits, closes, reopens, Labels, logged, payloads, AreSmall,
}

module _ {V : Type 0} (io : Crates V) where
  payload_at :
      (off n : ℕ) (pre payload later raw : List ℕ)
      → off ≡ length pre
      → n ≡ length payload
      → raw ≡ pre ++ (payload ++ later)
      → length payload < 2 ^ 32
      → read_at off n raw ≡ some payload
  payload_at off n pre payload later raw p q e small =
      let len : n ≡ min (length payload) (2 ^ 32 - 1) = omega arith in
      rw (p, len, e) (read_at_middle pre payload later small)

  -- What was logged is found in the file, whatever stands in front of it.
  pub logged_stored :
      (cs : List (Call V)) (l : Labels) (off : ℕ) (pre raw : List ℕ)
      → off ≡ length pre
      → raw ≡ pre ++ payloads (logged io l off cs)
      → AreSmall (logged io l off cs)
      → All (λ r. read_at r.0.off r.0.len raw ≡ some r.1) (logged io l off cs)
  unfolding logged from_envelope
  logged_stored [] l off pre raw p e small = tt
  logged_stored (raws ts dir payload ∷ cs) l off pre raw p e small =
      let rest = payloads (logged io l (off + length payload) cs) in
      (
        payload_at off (length payload) pre payload rest raw p refl e small.0,
        logged_stored cs l (off + length payload) (pre ++ payload) raw
            (omega (arith, length-append pre payload)) (e ∙ sym (append_assoc pre payload rest))
            small.1,
      )
  logged_stored (records ts r ∷ cs) l off pre raw p e small =
      logged_stored cs l off pre raw p e small
  logged_stored (commits ∷ cs) l off pre raw p e small = logged_stored cs l off pre raw p e small
  logged_stored (closes ∷ cs) l off pre raw p e small = logged_stored cs l off pre raw p e small
  logged_stored (reopens sid source host decoder ∷ cs) l off pre raw p e small =
      logged_stored cs (record { sid = sid; source = source; host = host }) off pre raw p e small
