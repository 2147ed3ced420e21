-- ===== src/Exporter/Text/Replay.antt =====
-- The text of a session is what its source sent.
use tracemux.Prelude.{ℕ, ◌+◌, ◌≡◌, refl, ◌∙◌, List, [], ◌∷◌, ◌++◌, Option, length}
use tracemux.Error.{Result, ok, err, ◌>>=◌}
use tracemux.Log.Index.{IndexEntry, from_envelope}
use tracemux.Log.Session.{Crates}
use tracemux.Log.Session.Rows.{Call, raws, records, commits, closes, reopens, Labels, logged}
use tracemux.Exporter.Timestamp.{UtcOffset, format_rfc3339_in_timezone}
use tracemux.Exporter.Rows.Replay.{render}
use tracemux.Exporter.Rows.Written.{session, IsWritable, export_loop-session}
use tracemux.Exporter.Text.{text_row, run}

module _ {V : Type 0} (io : Crates V) (from_str : List ℕ → Option IndexEntry)
    (decode : List ℕ → List ℕ) (convert : UtcOffset → List ℕ → Option (List ℕ)) where
  -- The lines of the chunks that were logged, each with its instant of origin, up to the first instant
  -- that cannot be shown.
  unfoldable pub transcript : Option UtcOffset → List (Call V) → List ℕ → Result (List ℕ)
  transcript tz [] out = ok out
  transcript tz (raws ts dir payload ∷ cs) out =
      format_rfc3339_in_timezone convert tz (io.format_rfc3339_ns ts.ts_origin_ns) >>= λ t.
      transcript tz cs (out ++ (t ++ (9 ∷ (decode payload ++ (10 ∷ [])))))
  transcript tz (records ts r ∷ cs) out = transcript tz cs out
  transcript tz (commits ∷ cs) out = transcript tz cs out
  transcript tz (closes ∷ cs) out = transcript tz cs out
  transcript tz (reopens sid source host decoder ∷ cs) out = transcript tz cs out

  rendered :
      (tz : Option UtcOffset) (cs : List (Call V)) (l : Labels) (off : ℕ) (out : List ℕ)
      → render (text_row from_str decode convert tz) (logged io l off cs) out ≡ transcript tz cs out
  unfolding render logged transcript text_row from_envelope
  rendered tz [] l off out = refl
  rendered tz (raws ts dir payload ∷ cs) l off out =
      shown (format_rfc3339_in_timezone convert tz (io.format_rfc3339_ns ts.ts_origin_ns)) (λ t.
        rendered tz cs l (off + length payload) (out ++ (t ++ (9 ∷ (decode payload ++ (10 ∷ []))))))
    where
      shown :
          (r : Result (List ℕ))
          → ((t : List ℕ)
              → render
                  (text_row from_str decode convert tz)
                  (logged io l (off + length payload) cs)
                  (out ++ (t ++ (9 ∷ (decode payload ++ (10 ∷ [])))))
                ≡ transcript tz cs (out ++ (t ++ (9 ∷ (decode payload ++ (10 ∷ []))))))
          → ((r >>= λ t. ok (t ++ (9 ∷ (decode payload ++ (10 ∷ []))))) >>= λ text.
              render
                (text_row from_str decode convert tz)
                (logged io l (off + length payload) cs)
                (out ++ text))
            ≡ (r >>= λ t. transcript tz cs (out ++ (t ++ (9 ∷ (decode payload ++ (10 ∷ []))))))
      shown (ok t) later = later t
      shown (err e) later = refl
  rendered tz (records ts r ∷ cs) l off out = rendered tz cs l off out
  rendered tz (commits ∷ cs) l off out = rendered tz cs l off out
  rendered tz (closes ∷ cs) l off out = rendered tz cs l off out
  rendered tz (reopens sid source host decoder ∷ cs) l off out =
      rendered tz cs (record { sid = sid; source = source; host = host }) off out

  -- A session whose rows can be written down, logged by any calls of the file sink, dropped and opened
  -- again at will: its export as text, in any timezone, is the transcript of the chunks, in order, each
  -- with its instant of origin and its decoded bytes, and is the error of the first instant that
  -- cannot be shown in the timezone.
  pub run-session :
      (tz : Option UtcOffset) (cs : List (Call V)) (sid : ℕ) (source host : Option (List ℕ))
      (decoder : List ℕ)
      → IsWritable io from_str (logged io (record { sid = sid; source = source; host = host }) 0 cs)
      → run from_str decode convert tz (session io from_str cs sid source host decoder)
        ≡ transcript tz cs []
  unfolding run
  run-session tz cs sid source host decoder h =
      export_loop-session io from_str (text_row from_str decode convert tz) cs sid source host
        decoder [] h
      ∙ rendered tz cs (record { sid = sid; source = source; host = host }) 0 []
