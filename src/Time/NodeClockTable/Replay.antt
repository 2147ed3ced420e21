-- ===== src/Time/NodeClockTable/Replay.antt =====
-- What is read back from the file of node_clock_table.rs.
use tracemux.Prelude.{
  ℕ, ◌+◌, ◌≡◌, ◌∙◌, refl, List, [], ◌∷◌, ◌++◌, Option, none, some, false, ◌==◌, if◌then◌else◌,
  arith, nat_eq, ==_self,
}
use tracemux.Prelude.Maps.{lookup, insert, lookup-insert}
use tracemux.Time.NodeClockTable.{
  ClockTableEntry, NodeClockTable, upsert, blank, append_jsonl, take_line, load_loop, load_jsonl,
}

module _ (from_str : List ℕ → Option ClockTableEntry) (to_string : ClockTableEntry → List ℕ) where
  -- The lines that are not blank and are no entries.
  abbrev pub malformed : List (List ℕ) → ℕ
  malformed [] = 0
  malformed (l ∷ ls) =
      (if blank l then 0 else elim (from_str l) [ some e ↦ 0 | none ↦ 1 ]) + malformed ls

  skipped_line :
      (l : List ℕ) (s : NodeClockTable × ℕ)
      → (if blank l then s else take_line from_str to_string (from_str l) s).1
        ≡ s.1 + (if blank l then 0 else elim (from_str l) [ some e ↦ 0 | none ↦ 1 ])
  skipped_line l (t, k) = ground arith

  skipped-load_loop :
      (lines : List (List ℕ)) (s : NodeClockTable × ℕ)
      → (load_loop from_str to_string lines s).1 ≡ s.1 + malformed lines
  unfolding load_loop
  skipped-load_loop [] s = omega arith
  skipped-load_loop (l ∷ ls) s = omega (
    arith,
    skipped-load_loop ls (if blank l then s else take_line from_str to_string (from_str l) s),
    skipped_line l s,
  )

  load_loop-append :
      (xs ys : List (List ℕ)) (s : NodeClockTable × ℕ)
      → load_loop from_str to_string (xs ++ ys) s
        ≡ load_loop from_str to_string ys (load_loop from_str to_string xs s)
  unfolding load_loop
  load_loop-append [] ys s = refl
  load_loop-append (l ∷ xs) ys s =
      load_loop-append xs ys (if blank l then s else take_line from_str to_string (from_str l) s)

  load_jsonl_last :
      (e : ClockTableEntry) (lines : List (List ℕ))
      → blank (to_string e) ≡ false
      → from_str (to_string e) ≡ some e
      → load_jsonl from_str to_string (append_jsonl from_str to_string e lines) ≡ (
        insert e.node_id e (load_jsonl from_str to_string lines).0,
        (load_jsonl from_str to_string lines).1,
      )
  unfolding load_jsonl append_jsonl load_loop upsert
  load_jsonl_last e lines full back =
      load_loop-append lines (to_string e ∷ []) ([], 0) ∙ rw full (rw back refl)

  -- An entry that `to_string` prints as a line that is not blank and `from_str` reads back is, after
  -- it was appended to the file, the measurement of its node that `load_jsonl` finds; the other nodes are as they were before, and so is the number of lines skipped, which is
  -- the number of the lines that are neither blank nor entries.
  pub load_jsonl-append_jsonl :
      (e : ClockTableEntry) (lines : List (List ℕ))
      → blank (to_string e) ≡ false
      → from_str (to_string e) ≡ some e
      → let (t, skipped) = load_jsonl from_str to_string lines in
        let (t', skipped') =
          load_jsonl from_str to_string (append_jsonl from_str to_string e lines) in
        (lookup e.node_id t' ≡ some e)
        × ((j : ℕ) → lookup j t' ≡ (if e.node_id == j then some e else lookup j t))
        × (skipped' ≡ skipped)
        × (skipped ≡ malformed lines)
  unfolding load_jsonl
  load_jsonl-append_jsonl e lines full back =
      let t = (load_loop from_str to_string lines ([], 0)).0 in
      rw (load_jsonl_last e lines full back) (
        (lookup-insert e.node_id e.node_id e t ∙ rw (==_self e.node_id) refl),
        (λ j. lookup-insert e.node_id j e t),
        refl,
        omega (arith, skipped-load_loop lines ([], 0)),
      )
