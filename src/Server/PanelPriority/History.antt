-- ===== src/Server/PanelPriority/History.antt =====
-- The hint of a panel in panel_priority.rs is the last one that it sent.
use tracemux.Prelude.{ℕ, ◌≡◌, refl, ap, ◌∙◌, List, [], ◌∷◌, ◌==◌, if◌then◌else◌, nat_eq, arith}
use tracemux.Prelude.Maps.{lookup-insert, lookup-remove}
use tracemux.Server.PanelPriority.{
  Visibility, hidden, bucket_of, PanelPriority, set, remove_panel, get, bucket,
}

pub data Message : Type 0 where
  shown : ℕ → Visibility → Message
  closed : ℕ → Message

-- The registry after the messages of a connection.
unfoldable pub run : List Message → PanelPriority → PanelPriority
run [] p = p
run (shown q v ∷ ms) p = run ms (set q v p)
run (closed q ∷ ms) p = run ms (remove_panel q p)

-- The last word on a panel, `before` if no message names it.
unfoldable pub latest : ℕ → List Message → Visibility → Visibility
latest panel [] before = before
latest panel (shown q v ∷ ms) before = latest panel ms (if q == panel then v else before)
latest panel (closed q ∷ ms) before = latest panel ms (if q == panel then hidden else before)

get-set :
    (q panel : ℕ) (v : Visibility) (p : PanelPriority)
    → get panel (set q v p) ≡ (if q == panel then v else get panel p)
unfolding get set
get-set q panel v p = ground (arith, lookup-insert q panel v p)

get-remove_panel :
    (q panel : ℕ) (p : PanelPriority)
    → get panel (remove_panel q p) ≡ (if q == panel then hidden else get panel p)
unfolding get remove_panel
get-remove_panel q panel p = ground (arith, lookup-remove q panel p)

-- After any messages the bucket of a panel is that of its last hint, and the hidden one after it
-- was closed.
pub bucket-run :
    (ms : List Message) (panel : ℕ) (p : PanelPriority)
    → bucket panel (run ms p) ≡ bucket_of (latest panel ms (get panel p))
unfolding run latest
bucket-run [] panel p = unfold bucket in refl
bucket-run (shown q v ∷ ms) panel p =
    bucket-run ms panel (set q v p) ∙ ap (λ b. bucket_of (latest panel ms b)) (get-set q panel v p)
bucket-run (closed q ∷ ms) panel p =
    bucket-run ms panel (remove_panel q p)
    ∙ ap (λ b. bucket_of (latest panel ms b)) (get-remove_panel q panel p)
