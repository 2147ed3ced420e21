-- ===== src/Time/NodeClockTable.antt =====
-- crates/core/src/time/node_clock_table.rs: the latest measurement of every node, and the file that
-- it is read back from. An `i32` and an `f32` are their words of 32 bits, a node id is a number of
-- 128 bits. The file is the list of its lines; reading an entry from a line is a call of serde_json,
-- which is the parameter `from_str`, and so is printing one, `to_string`.
pub mod Replay
use tracemux.Prelude.{
  ℕ, ◌+◌, List, [], ◌∷◌, ◌++◌, Option, none, some, Bool, true, false, ◌||◌, ◌&&◌, leb, ◌==◌,
  if◌then◌else◌, String, length, nat_eq,
}
use tracemux.Prelude.Maps.{HashMap, lookup, insert}

-- `ClockQuality`, crates/core/src/time/mod.rs
pub data ClockQuality : Type 0 where
  synced best_effort unknown imported : ClockQuality

-- `ClockTableEntry`
pub record ClockTableEntry : Type 0 where
  pub ts : String
  pub node_id : ℕ
  pub rtt_ms : ℕ
  pub offset_ms : ℕ
  pub drift_ppm : ℕ
  pub quality : ClockQuality

-- `NodeClockTable`
abbrev pub NodeClockTable : Type 0
NodeClockTable = HashMap ℕ ClockTableEntry

-- `NodeClockTable::upsert`
unfoldable pub upsert : ClockTableEntry → NodeClockTable → Option ClockTableEntry × NodeClockTable
upsert e t = (lookup e.node_id t, insert e.node_id e t)

-- `NodeClockTable::offset_ms`
unfoldable pub offset_ms : ℕ → NodeClockTable → ℕ
offset_ms node t = elim (lookup node t) [ some e ↦ e.offset_ms | none ↦ 0 ]

-- `NodeClockTable::len` and `NodeClockTable::is_empty`
unfoldable pub len : NodeClockTable → ℕ
len t = length t

unfoldable pub is_empty : NodeClockTable → Bool
is_empty t = length t == 0

-- `char::is_whitespace`
unfoldable pub whitespace : ℕ → Bool
whitespace c =
    ((leb 9 c && leb c 13) || (c == 32 || (c == 133 || (c == 160 || c == 5760))))
    || ((leb 8192 c && leb c 8202)
        || (c == 8232 || (c == 8233 || (c == 8239 || (c == 8287 || c == 12288)))))

-- `line.trim().is_empty()`
unfoldable pub blank : List ℕ → Bool
blank [] = true
blank (c ∷ cs) = if whitespace c then blank cs else false

module _ (from_str : List ℕ → Option ClockTableEntry) (to_string : ClockTableEntry → List ℕ) where
  -- `append_jsonl`, where the file can be written
  unfoldable pub append_jsonl : ClockTableEntry → List (List ℕ) → List (List ℕ)
  append_jsonl e lines = lines ++ (to_string e ∷ [])

  -- `match serde_json::from_str`
  abbrev pub take_line : Option ClockTableEntry → NodeClockTable × ℕ → NodeClockTable × ℕ
  take_line (some e) (t, skipped) = ((upsert e t).1, skipped)
  take_line none (t, skipped) = (t, skipped + 1)

  unfoldable pub load_loop : List (List ℕ) → NodeClockTable × ℕ → NodeClockTable × ℕ
  load_loop [] s = s
  load_loop (line ∷ lines) s =
      load_loop lines (if blank line then s else take_line (from_str line) s)

  -- `load_jsonl`, on a file that can be read
  unfoldable pub load_jsonl : List (List ℕ) → NodeClockTable × ℕ
  load_jsonl lines = load_loop lines ([], 0)
