-- ===== src/Export/Zip/Reader.antt =====
-- A reader of archives, written after the description of the ZIP format and not after export_api.rs:
-- it finds the end record in the last 22 bytes, walks the directory, and for each entry goes to its
-- local header and compares names, sizes and checksums. It reads stored entries only.
use tracemux.Prelude.{
  ℕ, zero, suc, ◌+◌, ◌-◌, ◌≡◌, ◌<◌, ◌^◌, refl, ap, ◌∙◌, List, [], ◌∷◌, ◌++◌, Option, none, some,
  false, ◌&&◌, length, take, drop, get_or, ltb, ◌==◌, if◌then◌else◌, All, arith, append_assoc,
  take-append, drop-append, length-append,
}
use tracemux.Prelude.Bytes.{
  to_le_bytes, from_le_bytes, bytes_eq, from_le_bytes-to_le_bytes, length-to_le_bytes,
}
use tracemux.Export.Zip.{crc32}

abbrev pub and_then : {A B : Type 0} → Option A → (A → Option B) → Option B
and_then none k = none
and_then (some a) k = k a

-- The words of the given widths at the front, and what follows them.
unfoldable pub fields : List ℕ → List ℕ → Option (List ℕ × List ℕ)
fields [] bs = some ([], bs)
fields (w ∷ ws) bs =
    if ltb (length bs) w
    then none
    else and_then (fields ws (drop w bs))
        (λ (r : List ℕ × List ℕ). some (from_le_bytes (take w bs) ∷ r.0, r.1))

abbrev pub local_layout : List ℕ
local_layout = 4 ∷ 2 ∷ 2 ∷ 2 ∷ 2 ∷ 2 ∷ 4 ∷ 4 ∷ 4 ∷ 2 ∷ 2 ∷ []

abbrev pub central_layout : List ℕ
central_layout = 4 ∷ 2 ∷ 2 ∷ 2 ∷ 2 ∷ 2 ∷ 2 ∷ 4 ∷ 4 ∷ 4 ∷ 2 ∷ 2 ∷ 2 ∷ 2 ∷ 2 ∷ 4 ∷ 4 ∷ []

abbrev pub end_layout : List ℕ
end_layout = 4 ∷ 2 ∷ 2 ∷ 2 ∷ 2 ∷ 4 ∷ 4 ∷ 2 ∷ []

-- The data behind a local header, if it is what the directory says.
unfoldable pub data_at : List ℕ → ℕ → ℕ → List ℕ × List ℕ → Option (List ℕ)
data_at name crc size (v, r) =
    let found = take size (drop (get_or v 9 0 + get_or v 10 0) r) in
    if get_or v 0 0 == 0x04034b50
      && (get_or v 3 0 == 0
          && (bytes_eq (take (get_or v 9 0) r) name
              && (length found == size && crc32 found == crc)))
    then some found
    else none

-- An entry of the directory, with its data, and the directory behind it.
unfoldable pub entry_at : List ℕ → List ℕ × List ℕ → Option ((List ℕ × List ℕ) × List ℕ)
unfolding data_at
entry_at bs (v, r) =
    let name = take (get_or v 10 0) r in
    let rest = drop (get_or v 10 0 + (get_or v 11 0 + get_or v 12 0)) r in
    if get_or v 0 0 == 0x02014b50 && get_or v 4 0 == 0
    then and_then
        (and_then (fields local_layout (drop (get_or v 16 0) bs))
          (data_at name (get_or v 7 0) (get_or v 8 0)))
        (λ found. some ((name, found), rest))
    else none

unfoldable pub entries : ℕ → List ℕ → List ℕ → Option (List (List ℕ × List ℕ))
unfolding entry_at fields
entries zero bs [] = some []
entries zero bs (b ∷ dir) = none
entries (suc n) bs dir =
    and_then (and_then (fields central_layout dir) (entry_at bs))
      (λ (p : (List ℕ × List ℕ) × List ℕ). and_then (entries n bs p.1) (λ es. some (p.0 ∷ es)))

unfoldable pub directory : List ℕ → List ℕ × List ℕ → Option (List (List ℕ × List ℕ))
directory bs (v, r) =
    if get_or v 0 0 == 0x06054b50 && (get_or v 7 0 == 0 && get_or v 3 0 == get_or v 4 0)
    then entries (get_or v 4 0) bs (take (get_or v 5 0) (drop (get_or v 6 0) bs))
    else none

-- The names and the data of the entries, in the order of the directory.
unfoldable pub unzip : List ℕ → Option (List (List ℕ × List ℕ))
unfolding directory
unzip bs = and_then (fields end_layout (drop (length bs - 22) bs)) (directory bs)

-- Words in a row, as widths and values.
abbrev pub words : List (ℕ × ℕ) → List ℕ
words [] = []
words ((w, v) ∷ []) = to_le_bytes w v
words ((w, v) ∷ p ∷ ps) = to_le_bytes w v ++ words (p ∷ ps)

abbrev pub Fits : ℕ × ℕ → Type 0
Fits (w, v) = v < 256 ^ w

abbrev pub widths : List (ℕ × ℕ) → List ℕ
widths [] = []
widths ((w, v) ∷ ps) = w ∷ widths ps

abbrev pub values : List (ℕ × ℕ) → List ℕ
values [] = []
values ((w, v) ∷ ps) = v ∷ values ps

fields-word :
    (w v : ℕ) (ws bs : List ℕ)
    → v < 256 ^ w
    → fields (w ∷ ws) (to_le_bytes w v ++ bs)
      ≡ and_then (fields ws bs) (λ (r : List ℕ × List ℕ). some (v ∷ r.0, r.1))
unfolding fields
fields-word w v ws bs h = rw (take-append w (to_le_bytes w v) bs (length-to_le_bytes w v)) (
    rw (drop-append w (to_le_bytes w v) bs (length-to_le_bytes w v)) (
      rw (from_le_bytes-to_le_bytes w v h) (
        rw
          (enough
            (length-append (to_le_bytes w v) bs ∙ ap (λ k. k + length bs) (length-to_le_bytes w v)))
          refl)))
  where
    enough : {n : ℕ} → n ≡ w + length bs → ltb n w ≡ false
    enough e = ground (arith, e)

fields_none : (bs : List ℕ) → fields [] bs ≡ some ([], bs)
unfolding fields
fields_none bs = refl

-- Words that fit are read as they were written.
pub fields-words :
    (ps : List (ℕ × ℕ)) (rest : List ℕ)
    → All Fits ps
    → fields (widths ps) (words ps ++ rest) ≡ some (values ps, rest)
fields-words [] rest h = fields_none rest
fields-words ((w, v) ∷ []) rest h = fields-word w v [] rest h.0 ∙ rw (fields-words [] rest tt) refl
fields-words ((w, v) ∷ (w', v') ∷ ps) rest h =
    rw (append_assoc (to_le_bytes w v) (words ((w', v') ∷ ps)) rest) (
      fields-word w v (w' ∷ widths ps) (words ((w', v') ∷ ps) ++ rest) h.0
      ∙ rw (fields-words ((w', v') ∷ ps) rest h.1) refl)
