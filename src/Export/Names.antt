-- ===== src/Export/Names.antt =====
-- crates/server/src/export_api.rs: the names of exported files and of the entries of a bundle, and the
-- loop that fills a bundle. `sanitize_filename` works on code points. The names of entries are the bytes of
-- their UTF-8: what `unique_zip_entry_name` looks for and puts in is ASCII, whose bytes are in no other
-- character, so that it does the same to the bytes. A set of names is the list of them.
pub mod Safe
pub mod Fresh
pub mod Bundle
use tracemux.Prelude.{
  ℕ, zero, suc, ◌+◌, ◌/◌, ◌%◌, List, [], ◌∷◌, ◌++◌, Option, none, some, Bool, true, false, not,
  ◌&&◌, ◌||◌, take, drop, ltb, leb, ◌==◌, if◌then◌else◌,
}
use tracemux.Prelude.Bytes.{bytes_eq}
use tracemux.Prelude.Text.{whitespace, is_empty, trim}
use tracemux.Export.Zip.{
  Result, ok, err, bad_request, slashes, StoredZipWriter, create, append_file_from_path, finish,
}

-- `char::is_control`
unfoldable pub is_control : ℕ → Bool
is_control c = ltb c 32 || (leb 127 c && leb c 159)

-- `invalid` of `sanitize_filename`
unfoldable pub invalid : ℕ → Bool
unfolding is_control
invalid c =
    (c == 60
      || (c == 62
          || (c == 58
              || (c == 34 || (c == 47 || (c == 92 || (c == 124 || (c == 63 || c == 42))))))))
    || is_control c

-- The loop of `sanitize_filename`, with its `previous_space`.
unfoldable pub scrub : Bool → List ℕ → List ℕ
unfolding invalid
scrub previous_space [] = []
scrub previous_space (c ∷ cs) =
    let rest = scrub (not (invalid c) && whitespace c) cs in
    if invalid c
    then 45 ∷ rest
    else if whitespace c
    then (if previous_space then rest else 32 ∷ rest)
    else c ∷ rest

-- `trim_end_matches('.')`
unfoldable pub trim_dots : List ℕ → List ℕ
unfolding is_empty
trim_dots [] = []
trim_dots (c ∷ cs) = let rest = trim_dots cs in if is_empty rest && c == 46 then [] else c ∷ rest

-- `"tracemux-export"`
abbrev pub tracemux_export : List ℕ
tracemux_export =
    116 ∷ 114 ∷ 97 ∷ 99 ∷ 101 ∷ 109 ∷ 117 ∷ 120 ∷ 45 ∷ 101 ∷ 120 ∷ 112 ∷ 111 ∷ 114 ∷ 116 ∷ []

-- `sanitize_filename`
unfoldable pub sanitize_filename : List ℕ → List ℕ
unfolding scrub trim_dots
sanitize_filename value =
    let trimmed = trim_dots (trim (scrub false value)) in
    if is_empty trimmed then tracemux_export else trimmed

-- A number in decimal, from its digits of higher value down; `fuel` digits at most.
unfoldable pub decimal : ℕ → ℕ → List ℕ
decimal zero n = []
decimal (suc fuel) n =
    let high = decimal fuel (n / 10) in
    if ltb n 10 then (48 + n) ∷ [] else high ++ ((48 + n % 10) ∷ [])

-- `rfind('.')`
abbrev pub later : Option ℕ → ℕ → Option ℕ
later none c = if c == 46 then some 0 else none
later (some i) c = some (suc i)

unfoldable pub last_dot : List ℕ → Option ℕ
last_dot [] = none
last_dot (c ∷ cs) = later (last_dot cs) c

-- `(stem, ext)` of `unique_zip_entry_name`
abbrev pub split_at : List ℕ → Option ℕ → List ℕ × List ℕ
split_at name none = (name, [])
split_at name (some zero) = (name, [])
split_at name (some (suc i)) = (take (suc i) name, drop (suc i) name)

-- `used.contains`
unfoldable pub contains : List (List ℕ) → List ℕ → Bool
contains [] name = false
contains (n ∷ ns) name = bytes_eq n name || contains ns name

-- `format!("{stem}-{index}{ext}")`; an index has four digits at most
unfoldable pub candidate : List ℕ × List ℕ → ℕ → List ℕ
unfolding decimal
candidate (stem, ext) index = stem ++ (45 ∷ (decimal 4 index ++ ext))

-- The loop of `unique_zip_entry_name`, with the number of turns left and the index.
unfoldable pub try_names : ℕ → ℕ → List ℕ × List ℕ → List (List ℕ) → Result (List ℕ) × List (List ℕ)
unfolding contains candidate
try_names zero index parts used = (err bad_request, used)
try_names (suc n) index parts used =
    let rest = try_names n (suc index) parts used in
    let name = candidate parts index in if contains used name then rest else (ok name, name ∷ used)

-- `unique_zip_entry_name`
unfoldable pub unique_zip_entry_name : List ℕ → List (List ℕ) → Result (List ℕ) × List (List ℕ)
unfolding try_names last_dot contains slashes
unique_zip_entry_name name used =
    let normalized = slashes name in
    if contains used normalized
    then try_names 9998 2 (split_at normalized (last_dot normalized)) used
    else (ok normalized, normalized ∷ used)

-- A job of a bundle: the name that was rendered for it, and what its export gave.
pub record BundleExportJob : Type 0 where
  pub filename : List ℕ
  pub exported : Result (List ℕ)

-- `create_bundle_zip`: a job that is exported gets its name, and what was written is put into the
-- archive; the first refusal ends it.
abbrev pub put :
    Result (Unit {0}) × StoredZipWriter
    → (StoredZipWriter → Result (Unit {0}) × StoredZipWriter)
    → Result (Unit {0}) × StoredZipWriter
put (err e, w) k = (err e, w)
put (ok _, w) k = k w

abbrev pub add_named :
    List ℕ
    → List ℕ
    → Result (List ℕ) × List (List ℕ)
    → (List (List ℕ) → StoredZipWriter → Result (Unit {0}) × StoredZipWriter)
    → StoredZipWriter
    → Result (Unit {0}) × StoredZipWriter
add_named folder bytes (err e, used) k w = (err e, w)
add_named folder bytes (ok name, used) k w =
    put (append_file_from_path (folder ++ (47 ∷ name)) (some bytes) (some bytes) w) (k used)

abbrev pub add_exported :
    List ℕ
    → List ℕ
    → Result (List ℕ)
    → List (List ℕ)
    → (List (List ℕ) → StoredZipWriter → Result (Unit {0}) × StoredZipWriter)
    → StoredZipWriter
    → Result (Unit {0}) × StoredZipWriter
add_exported folder filename (err e) used k w = (err e, w)
add_exported folder filename (ok bytes) used k w =
    add_named folder bytes (unique_zip_entry_name filename used) k w

unfoldable pub add_jobs :
    List ℕ
    → List BundleExportJob
    → List (List ℕ)
    → StoredZipWriter
    → Result (Unit {0}) × StoredZipWriter
add_jobs folder [] used w = (ok tt, w)
add_jobs folder (job ∷ jobs) used w =
    add_exported folder job.filename job.exported used (add_jobs folder jobs) w

abbrev pub finish_bundle : Result (Unit {0}) × StoredZipWriter → Result (List ℕ)
finish_bundle (err e, w) = err e
finish_bundle (ok _, w) = finish w

unfoldable pub create_bundle_zip : List ℕ → List BundleExportJob → Result (List ℕ)
unfolding add_jobs
create_bundle_zip folder jobs = finish_bundle (add_jobs folder jobs [] create)
