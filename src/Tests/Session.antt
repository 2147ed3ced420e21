-- ===== src/Tests/Session.antt =====
-- The ring and the registry of the sessions, at concrete contents.
use tracemux.Prelude.{ℕ, ◌+◌, ◌≡◌, refl, [], ◌∷◌, ◌++◌, none, length, arith, nat_eq}
use tracemux.Session.Ring.{Ring, push}
use tracemux.Session.Ring.Window.{IsValid, total, fit, push_lem, put, get, run, run-IsValid}
use tracemux.Session.Registry.{SessionState, Registry}
use tracemux.Session.Registry.Store.{IsKeyed}
use tracemux.Prelude.Maps.{lookup}

abbrev ring : Ring
ring = record { capacity = 4; used = 3; items = (1 ∷ 2 ∷ []) ∷ (3 ∷ []) ∷ []; dropped = 0 }

ring-IsValid : IsValid ring
unfolding total
ring-IsValid = record { counted = refl; bounded = omega arith }

push_lem_example :
    let (r', evicted) = push ring (4 ∷ 5 ∷ []) in
    (r'.items ≡ fit 4 (ring.items ++ (4 ∷ 5 ∷ []) ∷ []))
    × (evicted + length r'.items ≡ 2 + 1)
    × (r'.dropped ≡ 0 + evicted)
    × (r'.capacity ≡ 4)
push_lem_example = push_lem (4 ∷ 5 ∷ []) ring-IsValid

run-IsValid_example : IsValid (run (put (4 ∷ 5 ∷ []) ∷ get ∷ put (6 ∷ []) ∷ []) ring)
run-IsValid_example = run-IsValid (put (4 ∷ 5 ∷ []) ∷ get ∷ put (6 ∷ []) ∷ []) ring-IsValid

abbrev first : SessionState ℕ
first = record { sid = 1; kind = "serial"; iface = "COM3"; label = none; fanout = 10 }

abbrev second : SessionState ℕ
second = record { sid = 1; kind = "tcp"; iface = "host"; label = none; fanout = 20 }

abbrev registry : Registry ℕ
registry = (1, first) ∷ []

registry-IsKeyed : IsKeyed registry
unfolding lookup
registry-IsKeyed = record { keys = (refl, tt); own = λ sid s h. ground arith }
