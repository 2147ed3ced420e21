-- ===== src/Export/Zip/Extract.antt =====
-- What the archive of export_api.rs contains: a reader of archives finds the files that were put in.
use tracemux.Prelude.{
  ℕ, ◌+◌, ◌-◌, ◌≤◌, ◌≡◌, refl, sym, ap, ◌∙◌, List, [], ◌∷◌, ◌++◌, some, length, take, drop, map,
  arith, append_assoc, take-append, drop-append, length-append, ==_self,
}
use tracemux.Prelude.Bytes.{bytes_eq_self}
use tracemux.Export.Zip.{local_header, central_header, end_of_central, u32_max, crc32}
use tracemux.Export.Zip.Crc.{crc32_word}
use tracemux.Export.Zip.Reader.{
  and_then, fields, local_layout, central_layout, end_layout, data_at, entry_at, entries, directory,
  unzip,
}
use tracemux.Export.Zip.Layout.{
  File, archive, stored, unzip_result, local, locals, entry, table, central_part, dir, Named,
  length-end,
}
use tracemux.Export.Zip.Written.{FitFrom, FitFrom-tail, zipped, Fit, archive_lem}
use tracemux.Export.Zip.Headers.{drop-drop, fields-local, fields-central, fields-end}

data_found :
    (n d rest : List ℕ)
    → data_at n (crc32 d) (length d) (
      0x04034b50 ∷ 20 ∷ 0x0800 ∷ 0 ∷ 0 ∷ 33 ∷ crc32 d ∷ length d ∷ length d ∷ length n ∷ 0 ∷ [],
      (n ++ d) ++ rest,
    )
      ≡ some d
unfolding data_at
data_found n d rest = rw (append_assoc n d rest) (
    rw (ap (λ (k : ℕ). drop k (n ++ (d ++ rest))) (plus_zero (length n))) (
      rw (drop-append (length n) n (d ++ rest) refl) (
        rw (take-append (length n) n (d ++ rest) refl) (
          rw (take-append (length d) d rest refl)
            (rw (bytes_eq_self n) (rw (==_self (length d)) (rw (==_self (crc32 d)) refl)))))))
  where
    plus_zero : (k : ℕ) → k + 0 ≡ k
    plus_zero k = omega arith

-- Behind the local header of a file, its data are found.
data_at-local :
    (n d rest : List ℕ)
    → Named (n, d)
    → length d ≤ u32_max
    → and_then (fields local_layout (local (n, d) ++ rest)) (data_at n (crc32 d) (length d))
      ≡ some d
data_at-local n d rest h hd =
    ap (λ bs. and_then (fields local_layout bs) (data_at n (crc32 d) (length d)))
      (append_assoc (local_header (crc32 d) (length d) (length n)) (n ++ d) rest)
    ∙ ap (λ r. and_then r (data_at n (crc32 d) (length d)))
        (fields-local (crc32 d) (length d) (length n) ((n ++ d) ++ rest) (crc32_word d h.1) hd h.0)
    ∙ data_found n d rest

entry_found :
    (off : ℕ) (n d rest bs : List ℕ)
    → and_then (fields local_layout (drop off bs)) (data_at n (crc32 d) (length d)) ≡ some d
    → entry_at bs (
      0x02014b50
          ∷ 20
          ∷ 20
          ∷ 0x0800
          ∷ 0
          ∷ 0
          ∷ 33
          ∷ crc32 d
          ∷ length d
          ∷ length d
          ∷ length n
          ∷ 0
          ∷ 0
          ∷ 0
          ∷ 0
          ∷ 0
          ∷ off
          ∷ [],
      n ++ rest,
    )
      ≡ some ((n, d), rest)
unfolding entry_at
entry_found off n d rest bs found = rw (take-append (length n) n rest refl) (
    rw (ap (λ (k : ℕ). drop k (n ++ rest)) (plus_zeros (length n)))
      (rw (drop-append (length n) n rest refl) (rw found refl)))
  where
    plus_zeros : (k : ℕ) → k + (0 + 0) ≡ k
    plus_zeros k = omega arith

entry_at-central :
    (off : ℕ) (n d rest bs tail : List ℕ)
    → Named (n, d)
    → length d ≤ u32_max
    → off ≤ u32_max
    → drop off bs ≡ local (n, d) ++ tail
    → and_then (fields central_layout (central_part (entry off (n, d)) ++ rest)) (entry_at bs)
      ≡ some ((n, d), rest)
entry_at-central off n d rest bs tail h hd ho there =
    ap (λ ds. and_then (fields central_layout ds) (entry_at bs))
      (append_assoc (central_header (entry off (n, d))) n rest)
    ∙ ap (λ r. and_then r (entry_at bs))
        (fields-central (entry off (n, d)) (n ++ rest) (crc32_word d h.1) hd h.0 ho)
    ∙ entry_found off n d rest bs (
        ap (λ ds. and_then (fields local_layout ds) (data_at n (crc32 d) (length d))) there
        ∙ data_at-local n d tail h hd)

entries-dir :
    (fs : List File) (off : ℕ) (bs tail : List ℕ)
    → FitFrom off fs
    → drop off bs ≡ locals fs ++ tail
    → entries (length fs) bs (dir (table off fs)) ≡ some fs
unfolding entries
entries-dir [] off bs tail h there = refl
entries-dir ((n, d) ∷ fs) off bs tail h there =
    let (hd, ho, h') = FitFrom-tail off n d fs h in
    let next = off + length (local (n, d)) in
    let there' : drop off bs ≡ local (n, d) ++ (locals fs ++ tail) =
      there ∙ append_assoc (local (n, d)) (locals fs) tail in
    let behind : drop next bs ≡ locals fs ++ tail =
      sym (drop-drop (length (local (n, d))) off bs)
      ∙ ap (drop (length (local (n, d)))) there'
      ∙ drop-append (length (local (n, d))) (local (n, d)) (locals fs ++ tail) refl in
    rw (entry_at-central off n d (dir (table next fs)) bs (locals fs ++ tail) h.0.0 hd ho there')
      (rw (entries-dir fs next bs tail h' behind) refl)

directory_found :
    (bs : List ℕ) (n size off : ℕ)
    → directory bs (0x06054b50 ∷ 0 ∷ 0 ∷ n ∷ n ∷ size ∷ off ∷ 0 ∷ [], [])
      ≡ entries n bs (take size (drop off bs))
unfolding directory
directory_found bs n size off = rw (==_self n) refl

unzip_end :
    (body : List ℕ) (n size off : ℕ)
    → n ≤ 0xffff
    → size ≤ u32_max
    → off ≤ u32_max
    → let bs = body ++ end_of_central n size off in
      unzip bs ≡ entries n bs (take size (drop off bs))
unfolding unzip
unzip_end body n size off hn hs ho =
    let e = end_of_central n size off in
    let bs = body ++ e in
    ap (λ ds. and_then (fields end_layout ds) (directory bs))
      (ap (λ k. drop k bs) {x = length bs - 22}
          (omega (arith, length-append body e, length-end n size off))
        ∙ drop-append (length body) body e refl)
    ∙ ap (λ r. and_then r (directory bs)) (fields-end n size off hn hs ho)
    ∙ directory_found bs n size off

unzip-zipped : (fs : List File) → Fit fs → unzip (zipped fs) ≡ some fs
unzip-zipped fs h =
    let ds = dir (table 0 fs) in
    let e = end_of_central (length fs) (length ds) (length (locals fs)) in
    let bs = zipped fs in
    let at : bs ≡ locals fs ++ (ds ++ e) = append_assoc (locals fs) ds e in
    unzip_end (locals fs ++ ds) (length fs) (length ds) (length (locals fs)) h.count h.dir_short
      h.locals_short
    ∙ ap (entries (length fs) bs) (
        ap (λ b. take (length ds) (drop (length (locals fs)) b)) at
        ∙ ap (take (length ds)) (drop-append (length (locals fs)) (locals fs) (ds ++ e) refl)
        ∙ take-append (length ds) ds e refl)
    ∙ entries-dir fs 0 bs (ds ++ e) (h.named, omega (arith, h.locals_short)) at

-- Files whose names and bytes fit into an archive of this kind are all put in, the archive is
-- finished, and a reader of archives finds in it exactly these files, in their order: the same bytes
-- under the same names, with each backslash of a name as a slash.
pub unzip-archive :
    (fs : List File) → Fit (map stored fs) → unzip_result (archive fs) ≡ some (map stored fs)
unzip-archive fs h = ap unzip_result (archive_lem fs h) ∙ unzip-zipped (map stored fs) h
