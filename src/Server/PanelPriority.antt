-- ===== src/Server/PanelPriority.antt =====
-- crates/server/src/panel_priority.rs: the visibility hints of the panels. A panel id is the number
-- of its UUID; the lock is taken not to be poisoned.
pub mod History
use tracemux.Prelude.{ℕ, Option, none, some, [], nat_eq}
use tracemux.Prelude.Maps.{HashMap, lookup, insert, remove}
use tracemux.Server.Coalesce.{Bucket}
use tracemux.Server.Coalesce

-- `Visibility`
pub data Visibility : Type 0 where
  foreground visible hidden : Visibility

-- `Visibility::bucket`
unfoldable pub bucket_of : Visibility → Bucket
bucket_of foreground = Bucket.live
bucket_of visible = Bucket.visible
bucket_of hidden = Bucket.hidden

-- `PanelPriority`
abbrev pub PanelPriority : Type 0
PanelPriority = HashMap ℕ Visibility

-- `PanelPriority::set`
unfoldable pub set : ℕ → Visibility → PanelPriority → PanelPriority
set panel vis p = insert panel vis p

-- `PanelPriority::remove`
unfoldable pub remove_panel : ℕ → PanelPriority → PanelPriority
remove_panel panel p = remove panel p

unfoldable pub or_hidden : Option Visibility → Visibility
or_hidden none = hidden
or_hidden (some v) = v

-- `PanelPriority::get`
unfoldable pub get : ℕ → PanelPriority → Visibility
unfolding or_hidden
get panel p = or_hidden (lookup panel p)

-- `PanelPriority::bucket`
unfoldable pub bucket : ℕ → PanelPriority → Bucket
unfolding bucket_of get
bucket panel p = bucket_of (get panel p)
