-- ===== src/Export/Names/Bundle.antt =====
-- A bundle of export_api.rs: its entries have different names, and it has what was exported.
use tracemux.Prelude.{
  ℕ, zero, suc, ◌+◌, ◌/◌, ◌%◌, ◌≤◌, ◌≡◌, inl, inr, refl, sym, ap, ◌∙◌, List, [], ◌∷◌, ◌++◌, Option,
  none, some, Bool, true, false, length, All, if◌then◌else◌, map, arith, Bool-cases, subst, ◌==◌,
  ltb, All-append, All-take, All-drop,
}
use tracemux.Prelude.Bytes.{bytes_eq, bytes_eq_iff}
use tracemux.Export.Zip.{
  Result, ok, err, StoredZipWriter, create, slash, slashes, append_file_from_path,
}
use tracemux.Export.Zip.Layout.{
  File, stored, archive, append_files, next_file, finish_all, unzip_result,
}
use tracemux.Export.Zip.Written.{Fit}
use tracemux.Export.Zip.Extract.{unzip-archive}
use tracemux.Export.Names.{
  decimal, last_dot, split_at, contains, candidate, try_names, unique_zip_entry_name,
  BundleExportJob, put, add_jobs, finish_bundle, create_bundle_zip,
}
use tracemux.Export.Names.Fresh.{unique_zip_entry_name-Fresh}

-- No name stands twice.
abbrev pub Distinct : List (List ℕ) → Type 0
Distinct [] = Unit
Distinct (n ∷ ns) = (contains ns n ≡ false) × Distinct ns

-- What is exported under a name, as a job; the names that jobs get, and the files of the bundle.
abbrev pub job : File → BundleExportJob
job (name, bytes) = record { filename = name; exported = ok bytes }

abbrev new_name : Result (List ℕ) → List ℕ
new_name (err e) = []
new_name (ok n) = n

abbrev pub entry_names : List File → List (List ℕ) → List (List ℕ)
entry_names [] used = []
entry_names ((name, bytes) ∷ js) used =
    let r = unique_zip_entry_name name used in new_name r.0 ∷ entry_names js r.1

abbrev pub bundle_files : List ℕ → List File → List (List ℕ) → List File
bundle_files folder [] used = []
bundle_files folder ((name, bytes) ∷ js) used =
    let r = unique_zip_entry_name name used in
    (folder ++ (47 ∷ new_name r.0), bytes) ∷ bundle_files folder js r.1

put-next_file :
    (r : Result (Unit {0}) × StoredZipWriter)
    (k k' : StoredZipWriter → Result (Unit {0}) × StoredZipWriter)
    → ((w : StoredZipWriter) → k w ≡ k' w)
    → put r k ≡ next_file r k'
put-next_file (err e, w) k k' h = refl
put-next_file (ok u, w) k k' h = h w

add_jobs-append_files :
    (folder : List ℕ) (js : List File) (used : List (List ℕ)) (w : StoredZipWriter)
    → length used + length js ≤ 9998
    → add_jobs folder (map job js) used w ≡ append_files (bundle_files folder js used) w
unfolding add_jobs append_files
add_jobs-append_files folder [] used w h = refl
add_jobs-append_files folder ((name, bytes) ∷ js) used w h =
    let (new, r, f) = unique_zip_entry_name-Fresh name used (omega arith) in
    rw r (
      put-next_file (append_file_from_path (folder ++ (47 ∷ new)) (some bytes) (some bytes) w)
        (add_jobs folder (map job js) (new ∷ used))
        (append_files (bundle_files folder js (new ∷ used)))
        (λ w'. add_jobs-append_files folder js (new ∷ used) w' (omega arith)))

abbrev IsNew : List (List ℕ) → List ℕ → Type 0
IsNew used m = contains used m ≡ false

IsNew-weaken :
    (n : List ℕ) (used ms : List (List ℕ)) → All (IsNew (n ∷ used)) ms → All (IsNew used) ms
unfolding contains
IsNew-weaken n used [] h = tt
IsNew-weaken n used (m ∷ ms) h = ground (arith, h, IsNew-weaken n used ms)

IsNew-other :
    (n : List ℕ) (used ms : List (List ℕ)) → All (IsNew (n ∷ used)) ms → contains ms n ≡ false
unfolding contains
IsNew-other n used [] h = refl
IsNew-other n used (m ∷ ms) h =
    ground (arith, h, IsNew-other n used ms, bytes_eq_iff n m, bytes_eq_iff m n)

entry_names-Distinct :
    (js : List File) (used : List (List ℕ))
    → length used + length js ≤ 9998
    → All (IsNew used) (entry_names js used) × Distinct (entry_names js used)
entry_names-Distinct [] used h = (tt, tt)
entry_names-Distinct ((name, bytes) ∷ js) used h =
    let (new, r, f) = unique_zip_entry_name-Fresh name used (omega arith) in
    let (fresh, distinct) = entry_names-Distinct js (new ∷ used) (omega arith) in
    rw r (
      (f, IsNew-weaken new used (entry_names js (new ∷ used)) fresh),
      (IsNew-other new used (entry_names js (new ∷ used)) fresh, distinct),
    )

finished :
    (r : Result (Unit {0}) × StoredZipWriter)
    → unzip_result (finish_bundle r) ≡ unzip_result (finish_all r)
finished (err e, w) = refl
finished (ok u, w) = refl

archived :
    (fs : List File)
    → Fit (map stored fs)
    → unzip_result (finish_all (append_files fs create)) ≡ some (map stored fs)
unfolding archive
archived fs fit = unzip-archive fs fit

-- No backslash, which the archive would write as a slash.
abbrev Plain : List ℕ → Type 0
Plain = All (λ c. (c == 92) ≡ false)

slashes-Plain : (s : List ℕ) → Plain (slashes s)
unfolding slashes slash
slashes-Plain [] = tt
slashes-Plain (c ∷ s) = (ground arith, slashes-Plain s)

slashes_same : (s : List ℕ) → Plain s → slashes s ≡ s
unfolding slashes slash
slashes_same [] h = refl
slashes_same (c ∷ s) h = rw h.0 (ap (λ r. c ∷ r) (slashes_same s h.1))

slashes-append : (s t : List ℕ) → slashes (s ++ t) ≡ slashes s ++ slashes t
unfolding slashes
slashes-append [] t = refl
slashes-append (c ∷ s) t = ap (λ r. slash c ∷ r) (slashes-append s t)

decimal-Plain : (fuel n : ℕ) → Plain (decimal fuel n)
unfolding decimal
decimal-Plain zero n = tt
decimal-Plain (suc fuel) n = elim (Bool-cases (ltb n 10)) [
  | inl t ↦ rw t (ground (arith, t), tt)
  | inr t ↦ rw t (
      All-append (λ c. (c == 92) ≡ false) (decimal fuel (n / 10)) ((48 + n % 10) ∷ [])
        (decimal-Plain fuel (n / 10)) (ground arith, tt))
]

split_at-Plain :
    (name : List ℕ) (o : Option ℕ)
    → Plain name
    → Plain (split_at name o).0 × Plain (split_at name o).1
split_at-Plain name none h = (h, tt)
split_at-Plain name (some zero) h = (h, tt)
split_at-Plain name (some (suc i)) h = (
  All-take (λ c. (c == 92) ≡ false) (suc i) name h,
  All-drop (λ c. (c == 92) ≡ false) (suc i) name h,
)

new_name-if :
    (b : Bool) (n : List ℕ) (used : List (List ℕ)) (r : Result (List ℕ) × List (List ℕ))
    → Plain n
    → Plain (new_name r.0)
    → Plain (new_name (if b then r else (ok n, n ∷ used)).0)
new_name-if true n used r h k = k
new_name-if false n used r h k = h

try_names-Plain :
    (n index : ℕ) (stem ext : List ℕ) (used : List (List ℕ))
    → Plain stem
    → Plain ext
    → Plain (new_name (try_names n index (stem, ext) used).0)
unfolding try_names candidate
try_names-Plain zero index stem ext used h k = tt
try_names-Plain (suc n) index stem ext used h k =
    new_name-if (contains used (candidate (stem, ext) index)) (candidate (stem, ext) index) used
      (try_names n (suc index) (stem, ext) used)
      (All-append (λ c. (c == 92) ≡ false) stem (45 ∷ (decimal 4 index ++ ext)) h
        (refl, All-append (λ c. (c == 92) ≡ false) (decimal 4 index) ext (decimal-Plain 4 index) k))
      (try_names-Plain n (suc index) stem ext used h k)

unique_zip_entry_name-Plain :
    (name : List ℕ) (used : List (List ℕ)) → Plain (new_name (unique_zip_entry_name name used).0)
unfolding unique_zip_entry_name
unique_zip_entry_name-Plain name used =
    let n = slashes name in
    let parts = split_at n (last_dot n) in
    let (h, k) = split_at-Plain n (last_dot n) (slashes-Plain name) in
    new_name-if (contains used n) n used (try_names 9998 2 parts used) (slashes-Plain name)
      (try_names-Plain 9998 2 parts.0 parts.1 used h k)

-- The names of the entries that a reader of the archive finds.
abbrev pub names_of : List File → List (List ℕ)
names_of [] = []
names_of ((name, bytes) ∷ fs) = name ∷ names_of fs

abbrev under : List ℕ → List (List ℕ) → List (List ℕ)
under folder [] = []
under folder (n ∷ ns) = (folder ++ (47 ∷ n)) ∷ under folder ns

names_of-stored :
    (folder : List ℕ) (js : List File) (used : List (List ℕ))
    → names_of (map stored (bundle_files folder js used))
      ≡ under (slashes folder) (entry_names js used)
names_of-stored folder [] used = refl
names_of-stored folder ((name, bytes) ∷ js) used =
    let r = unique_zip_entry_name name used in
    let n = new_name r.0 in
    ap (λ x. x ∷ names_of (map stored (bundle_files folder js r.1)))
      (slashes-append folder (47 ∷ n)
        ∙ ap (λ x. slashes folder ++ x)
            (slashes_same (47 ∷ n) (refl, unique_zip_entry_name-Plain name used)))
    ∙ ap (λ ns. (slashes folder ++ (47 ∷ n)) ∷ ns) (names_of-stored folder js r.1)

bytes_eq-under : (p s t : List ℕ) → bytes_eq (p ++ s) (p ++ t) ≡ bytes_eq s t
unfolding bytes_eq
bytes_eq-under [] s t = refl
bytes_eq-under (c ∷ p) s t = ground (arith, bytes_eq-under p s t)

contains-under :
    (p n : List ℕ) (ns : List (List ℕ)) → contains (under p ns) (p ++ (47 ∷ n)) ≡ contains ns n
unfolding contains
contains-under p n [] = refl
contains-under p n (m ∷ ns) =
    rw (bytes_eq-under p (47 ∷ m) (47 ∷ n)) (rw (contains-under p n ns) (unfold bytes_eq in refl))

Distinct-under : (p : List ℕ) (ns : List (List ℕ)) → Distinct ns → Distinct (under p ns)
Distinct-under p [] h = tt
Distinct-under p (n ∷ ns) h = (contains-under p n ns ∙ h.0, Distinct-under p ns h.1)

-- A bundle of at most 9,998 exports, all of which succeeded, whose files fit into an archive: a reader
-- of archives finds in it what was exported, in the order of the jobs, each export under the folder
-- and a name; and the names that it finds are all different, also where the rendered ones are not, or
-- are only by a backslash in place of a slash.
pub unzip-create_bundle_zip :
    (folder : List ℕ) (js : List File)
    → length js ≤ 9998
    → Fit (map stored (bundle_files folder js []))
    → (unzip_result (create_bundle_zip folder (map job js))
        ≡ some (map stored (bundle_files folder js [])))
      × Distinct (names_of (map stored (bundle_files folder js [])))
unfolding create_bundle_zip
unzip-create_bundle_zip folder js h fit = (
  ap (λ r. unzip_result (finish_bundle r)) (add_jobs-append_files folder js [] create (omega arith))
      ∙ finished (append_files (bundle_files folder js []) create)
      ∙ archived (bundle_files folder js []) fit,
  subst Distinct (sym (names_of-stored folder js [])) (
      Distinct-under (slashes folder) (entry_names js [])
        (entry_names-Distinct js [] (omega arith)).1),
)
