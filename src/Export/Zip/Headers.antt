-- ===== src/Export/Zip/Headers.antt =====
-- The headers of export_api.rs as a reader of archives finds their fields.
use tracemux.Prelude.{
  ℕ, zero, suc, ◌+◌, ◌^◌, ◌≤◌, ◌<◌, ◌≡◌, refl, sym, ap, ◌∙◌, List, [], ◌∷◌, ◌++◌, some, length,
  drop, arith, append-nil,
}
use tracemux.Export.Zip.{
  CentralDirectoryEntry, local_header, central_header, end_of_central, write_u16, write_u32,
  u16_max, u32_max,
}
use tracemux.Export.Zip.Reader.{fields, local_layout, central_layout, end_layout, fields-words}

pub drop_nil : (n : ℕ) → ◌≡◌ {A = List ℕ} (drop n []) []
drop_nil zero = refl
drop_nil (suc n) = refl

-- Dropping twice.
pub drop-drop : (n m : ℕ) (xs : List ℕ) → drop n (drop m xs) ≡ drop (m + n) xs
drop-drop n zero xs = ap (λ k. drop k xs) (omega arith)
drop-drop n (suc m) [] = drop_nil n ∙ sym (drop_nil (suc m + n))
drop-drop n (suc m) (x ∷ xs) =
    drop-drop n m xs ∙ ap (λ k. drop k (x ∷ xs)) {x = suc (m + n)} (omega arith)

pub fields-local :
    (crc size n : ℕ) (rest : List ℕ)
    → crc < 2 ^ 32
    → size ≤ u32_max
    → n ≤ u16_max
    → fields local_layout (local_header crc size n ++ rest)
      ≡ some (0x04034b50 ∷ 20 ∷ 0x0800 ∷ 0 ∷ 0 ∷ 33 ∷ crc ∷ size ∷ size ∷ n ∷ 0 ∷ [], rest)
unfolding local_header write_u16 write_u32
fields-local crc size n rest hc hs hn =
    fields-words
      ((4, 0x04034b50)
        ∷ (2, 20)
        ∷ (2, 0x0800)
        ∷ (2, 0)
        ∷ (2, 0)
        ∷ (2, 33)
        ∷ (4, crc)
        ∷ (4, size)
        ∷ (4, size)
        ∷ (2, n)
        ∷ (2, 0)
        ∷ [])
      rest ground arith

pub fields-central :
    (e : CentralDirectoryEntry) (rest : List ℕ)
    → e.crc32 < 2 ^ 32
    → e.size ≤ u32_max
    → length e.name ≤ u16_max
    → e.local_offset ≤ u32_max
    → fields central_layout (central_header e ++ rest)
      ≡ some (
        0x02014b50
            ∷ 20
            ∷ 20
            ∷ 0x0800
            ∷ 0
            ∷ 0
            ∷ 33
            ∷ e.crc32
            ∷ e.size
            ∷ e.size
            ∷ length e.name
            ∷ 0
            ∷ 0
            ∷ 0
            ∷ 0
            ∷ 0
            ∷ e.local_offset
            ∷ [],
        rest,
      )
unfolding central_header write_u16 write_u32
fields-central e rest hc hs hn ho =
    fields-words
      ((4, 0x02014b50)
        ∷ (2, 20)
        ∷ (2, 20)
        ∷ (2, 0x0800)
        ∷ (2, 0)
        ∷ (2, 0)
        ∷ (2, 33)
        ∷ (4, e.crc32)
        ∷ (4, e.size)
        ∷ (4, e.size)
        ∷ (2, length e.name)
        ∷ (2, 0)
        ∷ (2, 0)
        ∷ (2, 0)
        ∷ (2, 0)
        ∷ (4, 0)
        ∷ (4, e.local_offset)
        ∷ [])
      rest ground arith

pub fields-end :
    (n size off : ℕ)
    → n ≤ 0xffff
    → size ≤ u32_max
    → off ≤ u32_max
    → fields end_layout (end_of_central n size off)
      ≡ some (0x06054b50 ∷ 0 ∷ 0 ∷ n ∷ n ∷ size ∷ off ∷ 0 ∷ [], [])
unfolding end_of_central write_u16 write_u32
fields-end n size off hn hs ho =
    ap (fields end_layout) (sym (append-nil (end_of_central n size off)))
    ∙ fields-words
        ((4, 0x06054b50) ∷ (2, 0) ∷ (2, 0) ∷ (2, n) ∷ (2, n) ∷ (4, size) ∷ (4, off) ∷ (2, 0) ∷ [])
        [] ground arith
