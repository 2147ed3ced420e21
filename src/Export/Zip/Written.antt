-- ===== src/Export/Zip/Written.antt =====
-- What the writer of export_api.rs writes for files that fit.
use tracemux.Prelude.{
  ℕ, suc, ◌+◌, ◌%◌, ◌^◌, ◌≤◌, ◌<◌, ◌≡◌, refl, sym, ap, ap₂, ◌∙◌, List, [], ◌∷◌, ◌++◌, some, false,
  length, ltb, map, All, arith, append_assoc, append-nil, length-append, ==_self,
}
use tracemux.Export.Zip.{
  Result, ok, StoredZipWriter, CentralDirectoryEntry, create, slashes, local_header, end_of_central,
  copy_entry, append_measured, append_file_from_path, write_central, close_central, finish, u16_max,
  u32_max, crc32_file, crc32,
}
use tracemux.Export.Zip.Layout.{
  File, next_file, append_files, finish_all, archive, stored, local, locals, entry, table,
  central_part, dir, Named, length-local, length-central_part,
}

pub le_ltb : (a b : ℕ) → a ≤ b → ltb b a ≡ false
le_ltb a b h = ground (arith, h)

pub copy_whole :
    (e : CentralDirectoryEntry) (d : List ℕ) (w : StoredZipWriter)
    → length d ≡ e.size
    → copy_entry e (some d) w ≡ (
      ok tt,
      record {
        out = w.out ++ d;
        central = w.central ++ (e ∷ []);
        offset = (w.offset + length d) % 2 ^ 64;
      },
    )
unfolding copy_entry
copy_whole e d w h = rw h (rw (==_self e.size) refl)

-- The writer with the header and the name of a file written.
abbrev pub headed : List ℕ → List ℕ → StoredZipWriter → StoredZipWriter
headed n d w = record w {
  out = w.out ++ (local_header (crc32 d) (length d) (length n) ++ n);
  offset = (w.offset + (30 + length n)) % 2 ^ 64;
}

pub measured_fits :
    (n d : List ℕ) (w : StoredZipWriter)
    → length d ≤ u32_max
    → w.offset ≤ u32_max
    → append_measured n (ok (crc32 d, length d)) (some d) w
      ≡ copy_entry (entry w.offset (n, d)) (some d) (headed n d w)
unfolding append_measured
measured_fits n d w hd ho = rw (le_ltb (length d) u32_max hd) (rw (le_ltb w.offset u32_max ho) refl)

pub append_fits :
    (n d : List ℕ) (w : StoredZipWriter)
    → length (slashes n) ≤ u16_max
    → append_file_from_path n (some d) (some d) w
      ≡ append_measured (slashes n) (ok (crc32 d, length d)) (some d) w
unfolding append_file_from_path crc32_file
append_fits n d w hn = rw (le_ltb (length (slashes n)) u16_max hn) refl

pub out_assoc :
    (n d : List ℕ) (w : StoredZipWriter) → (headed n d w).out ++ d ≡ w.out ++ local (n, d)
out_assoc n d w =
    let h = local_header (crc32 d) (length d) (length n) in
    append_assoc w.out (h ++ n) d ∙ ap (λ t. w.out ++ t) (append_assoc h n d)

pub append_one :
    (n d : List ℕ) (w : StoredZipWriter)
    → length (slashes n) ≤ u16_max
    → length d ≤ u32_max
    → w.offset ≤ u32_max
    → append_file_from_path n (some d) (some d) w ≡ (
      ok tt,
      record {
        out = w.out ++ local (slashes n, d);
        central = w.central ++ (entry w.offset (slashes n, d) ∷ []);
        offset = w.offset + length (local (slashes n, d));
      },
    )
append_one n d w hn hd ho =
    append_fits n d w hn
    ∙ measured_fits (slashes n) d w hd ho
    ∙ copy_whole (entry w.offset (slashes n, d)) d (headed (slashes n) d w) refl
    ∙ ap₂
        (λ (o : List ℕ) (k : ℕ). (
          ok tt,
          (record {
            out = o;
            central = w.central ++ (entry w.offset (slashes n, d) ∷ []);
            offset = k;
          }),
        ))
        (out_assoc (slashes n) d w) (omega (arith, length-local (slashes n) d))

-- The files fit, from the offset `off` on.
abbrev pub FitFrom : ℕ → List File → Type 0
FitFrom off fs = All Named fs × (off + length (locals fs) ≤ u32_max)

pub FitFrom-tail :
    (off : ℕ) (n d : List ℕ) (fs : List File)
    → FitFrom off ((n, d) ∷ fs)
    → (length d ≤ u32_max) × (off ≤ u32_max) × FitFrom (off + length (local (n, d))) fs
FitFrom-tail off n d fs ((_, k), h) =
    let l = length-local n d in
    let s = length-append (local (n, d)) (locals fs) in
    (omega (arith, l, s), omega (arith, l, s), (k, omega (arith, l, s)))

abbrev pub writer : List ℕ → List CentralDirectoryEntry → ℕ → StoredZipWriter
writer o c k = record { out = o; central = c; offset = k }

abbrev pub written : List ℕ → List CentralDirectoryEntry → ℕ → Result (Unit {0}) × StoredZipWriter
written o c k = (ok tt, writer o c k)

pub written_eq :
    {o o' : List ℕ} {c c' : List CentralDirectoryEntry} {k k' : ℕ}
    → o ≡ o'
    → c ≡ c'
    → k ≡ k'
    → written o c k ≡ written o' c' k'
written_eq p q r = λ i. written (p i) (q i) (r i)

pub append_files_lem :
    (fs : List File) (w : StoredZipWriter)
    → FitFrom w.offset (map stored fs)
    → append_files fs w
      ≡ written
          (w.out ++ locals (map stored fs))
          (w.central ++ table w.offset (map stored fs))
          (w.offset + length (locals (map stored fs)))
unfolding append_files
append_files_lem [] w h =
    written_eq (sym (append-nil w.out)) (sym (append-nil w.central)) (omega arith)
append_files_lem ((n, d) ∷ fs) w h =
    let (hd, ho, k) = FitFrom-tail w.offset (slashes n) d (map stored fs) h in
    let f : File = (slashes n, d) in
    ap (λ r. next_file r (append_files fs)) (append_one n d w (h.0.0.0) hd ho)
    ∙ append_files_lem fs
        (writer (w.out ++ local f) (w.central ++ (entry w.offset f ∷ []))
          (w.offset + length (local f)))
        k
    ∙ written_eq (append_assoc w.out (local f) (locals (map stored fs)))
        (append_assoc w.central (entry w.offset f ∷ [])
          (table (w.offset + length (local f)) (map stored fs)))
        (omega (arith, length-append (local f) (locals (map stored fs))))

abbrev pub directed : List ℕ → ℕ → Result (List ℕ × ℕ)
directed o k = ok (o, k)

pub ok_pair_eq : {o o' : List ℕ} {k k' : ℕ} → o ≡ o' → k ≡ k' → directed o k ≡ directed o' k'
ok_pair_eq p q = λ i. directed (p i) (q i)

pub write_central_lem :
    (fs : List File) (off size : ℕ) (out : List ℕ)
    → FitFrom off fs
    → size + length (dir (table off fs)) < 2 ^ 64
    → write_central (table off fs) out size
      ≡ ok (out ++ dir (table off fs), size + length (dir (table off fs)))
unfolding write_central
write_central_lem [] off size out h k = ok_pair_eq (sym (append-nil out)) (omega arith)
write_central_lem ((n, d) ∷ fs) off size out h k =
    let (hd, ho, h') = FitFrom-tail off n d fs h in
    let e = entry off (n, d) in
    let rest = dir (table (off + length (local (n, d))) fs) in
    let l = length-append (central_part e) rest in
    let l' = length-central_part e in
    rw (le_ltb (length d) u32_max hd) (
      rw (le_ltb off u32_max ho) (
        rw (le_ltb (length n) u16_max h.0.0.0) (
          write_central_lem fs (off + length (local (n, d))) ((size + (46 + length n)) % 2 ^ 64)
            (out ++ central_part e) h' (omega (arith, l, l'))
          ∙ ok_pair_eq (append_assoc out (central_part e) rest) (omega (arith, l, l')))))

-- The bytes of the archive.
abbrev pub zipped : List File → List ℕ
zipped fs =
    (locals fs ++ dir (table 0 fs))
    ++ end_of_central (length fs) (length (dir (table 0 fs))) (length (locals fs))

pub length-table : (off : ℕ) (fs : List File) → length (table off fs) ≡ length fs
length-table off [] = refl
length-table off (f ∷ fs) = ap suc (length-table (off + length (local f)) fs)

pub close_central_lem :
    (w : StoredZipWriter) (out : List ℕ) (size : ℕ)
    → length w.central ≤ 0xffff
    → size ≤ u32_max
    → w.offset ≤ u32_max
    → close_central w (ok (out, size)) ≡ ok (out ++ end_of_central (length w.central) size w.offset)
unfolding close_central
close_central_lem w out size hc hs ho =
    rw (le_ltb (length w.central) 0xffff hc)
      (rw (le_ltb size u32_max hs) (rw (le_ltb w.offset u32_max ho) refl))

-- The files fit into an archive.
pub record Fit (fs : List File) : Type 0 where
  pub named : All Named fs
  pub count : length fs ≤ 0xffff
  pub locals_short : length (locals fs) ≤ u32_max
  pub dir_short : length (dir (table 0 fs)) ≤ u32_max

pub length-map : (fs : List File) → length (map stored fs) ≡ length fs
length-map [] = refl
length-map (f ∷ fs) = ap suc (length-map fs)

pub archive_lem : (fs : List File) → Fit (map stored fs) → archive fs ≡ ok (zipped (map stored fs))
unfolding archive finish
archive_lem fs h =
    let gs = map stored fs in
    ap finish_all (
      append_files_lem fs create (h.named, omega (arith, h.locals_short))
      ∙ written_eq refl refl (omega arith))
    ∙ ap (close_central (writer (locals gs) (table 0 gs) (length (locals gs)))) (
        write_central_lem gs 0 0 (locals gs) (h.named, omega (arith, h.locals_short))
          (omega (arith, h.dir_short))
        ∙ ok_pair_eq refl (omega arith))
    ∙ close_central_lem (writer (locals gs) (table 0 gs) (length (locals gs)))
        (locals gs ++ dir (table 0 gs)) (length (dir (table 0 gs)))
        (omega (arith, h.count, length-table 0 gs)) h.dir_short h.locals_short
    ∙ ap
        (λ n. ok (
          (locals gs ++ dir (table 0 gs))
          ++ end_of_central n (length (dir (table 0 gs))) (length (locals gs))))
        (length-table 0 gs)
