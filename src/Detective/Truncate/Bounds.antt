-- ===== src/Detective/Truncate/Bounds.antt =====
-- TruncatePRFiles (internal/detective/truncate.go): its report, and its outputs beside its inputs.
use agent_frei_igi.Prelude.{
  ℕ, zero, suc, ◌+◌, ◌-◌, ◌≤◌, ◌<◌, ◌≡◌, refl, ap, false, Text, List, [], ◌∷◌, arith, length, take,
  ℤ,
}
use agent_frei_igi.Domain.{ChangedFile}
use agent_frei_igi.Detective.Truncate.{
  or_default, Counts, limit_bytes, process_file, process_files, no_counts, truncate_pr_files,
}

take-length : (s : Text) → take (length s) s ≡ s
take-length [] = refl
take-length (c ∷ s) = ap (λ (t : Text). c ∷ t) (take-length s)

take-length-take : (n : ℕ) (s : Text) → take (length (take n s)) s ≡ take n s
take-length-take zero s = refl
take-length-take (suc n) [] = refl
take-length-take (suc n) (c ∷ s) = ap (λ (t : Text). c ∷ t) (take-length-take n s)

length-take_le : (n : ℕ) (s : Text) → n ≤ length s → length (take n s) ≡ n
length-take_le zero s h = refl
length-take_le (suc n) [] h = absurd (omega arith)
length-take_le (suc n) (c ∷ s) h = ap suc (length-take_le n s (omega arith))

-- An output file: the input's names, a beginning of its patch, all of it unless the file is omitted.
pub record Shortens (f g : ChangedFile) : Type 0 where
  pub path : g.path ≡ f.path
  pub status : g.status ≡ f.status
  pub previous_path : g.previous_path ≡ f.previous_path
  pub prefix : g.patch ≡ take (length g.patch) f.patch
  pub whole : g.omitted ≡ false → g.patch ≡ f.patch

-- What one round of the loop does to the counters.
record Within (mf mb : ℕ) (c c' : Counts) (g : ChangedFile) : Type 0 where
  kept_within : c'.bytes_kept ≤ mb
  included_within : c'.included ≤ mf
  kept_exact : c'.bytes_kept ≡ c.bytes_kept + length g.patch
  total_grows : c.bytes_total + length g.patch ≤ c'.bytes_total
  counted : c.included + c.omitted + 1 ≤ c'.included + c'.omitted

module _ (mf mb : ℕ) (c : Counts) (f : ChangedFile) where
  limit_bytes-Shortens : Shortens f (limit_bytes mb c f).0
  unfolding limit_bytes
  limit_bytes-Shortens =
      ground (arith, take-length f.patch, take-length-take (mb - c.bytes_kept) f.patch)

  process_file-Shortens : Shortens f (process_file mf mb c f).0
  unfolding process_file
  process_file-Shortens =
      ground (arith, take-length f.patch, take-length-take (mb - c.bytes_kept) f.patch)

  process_file-Within :
      c.bytes_kept ≤ mb
      → c.included ≤ mf
      → Within mf mb c (process_file mf mb c f).1 (process_file mf mb c f).0
  unfolding process_file
  process_file-Within k i = ground (arith, length-take_le (mb - c.bytes_kept) f.patch)

-- The bytes of the patches of a list of files.
abbrev pub patch_bytes : List ChangedFile → ℕ
patch_bytes [] = 0
patch_bytes (f ∷ fs) = length f.patch + patch_bytes fs

-- One output for each input, in order.
abbrev pub EachShortens : List ChangedFile → List ChangedFile → Type 0
EachShortens [] [] = Unit
EachShortens [] (g ∷ gs) = ⊥
EachShortens (f ∷ fs) [] = ⊥
EachShortens (f ∷ fs) (g ∷ gs) = Shortens f g × EachShortens fs gs

or_default-positive : (n : ℤ) (d : ℕ) → 0 < d → 0 < or_default n d
unfolding or_default
or_default-positive n d h = ground arith

-- What the loop does to the counters.
record AllWithin (mf mb : ℕ) (c c' : Counts) (n : ℕ) (gs : List ChangedFile) : Type 0 where
  kept_within : c'.bytes_kept ≤ mb
  included_within : c'.included ≤ mf
  kept_exact : c'.bytes_kept ≡ c.bytes_kept + patch_bytes gs
  total_grows : c.bytes_total + patch_bytes gs ≤ c'.bytes_total
  counted : c.included + c.omitted + n ≤ c'.included + c'.omitted

process_files-AllWithin :
    (mf mb : ℕ) (c : Counts) (fs : List ChangedFile)
    → c.bytes_kept ≤ mb
    → c.included ≤ mf
    → let (gs, c') = process_files mf mb c fs in AllWithin mf mb c c' (length fs) gs
unfolding process_files
process_files-AllWithin mf mb c [] k i = omega arith
process_files-AllWithin mf mb c (f ∷ fs) k i =
    let w = process_file-Within mf mb c f k i in
    let rest =
      process_files-AllWithin mf mb (process_file mf mb c f).1 fs w.kept_within w.included_within in
    omega (arith, w, rest)

process_files-EachShortens :
    (mf mb : ℕ) (c : Counts) (fs : List ChangedFile) → EachShortens fs (process_files mf mb c fs).0
unfolding process_files
process_files-EachShortens mf mb c [] = tt
process_files-EachShortens mf mb c (f ∷ fs) = (
  process_file-Shortens mf mb c f,
  process_files-EachShortens mf mb (process_file mf mb c f).1 fs,
)

-- The limits that are in force are positive, and the report agrees with the files: the patches that
-- are passed on have exactly `patch_bytes_kept` bytes, which is within the limit and within the total,
-- at most `max_files` files are included, and every file was counted as included or omitted.
pub truncate_within :
    (files : List ChangedFile) (max_files max_patch_bytes : ℤ)
    → let (out, info) = truncate_pr_files files max_files max_patch_bytes in
      (0 < info.max_files)
      × (0 < info.max_patch_bytes)
      × (patch_bytes out ≡ info.patch_bytes_kept)
      × (info.patch_bytes_kept ≤ info.max_patch_bytes)
      × (info.patch_bytes_kept ≤ info.patch_bytes_total)
      × (info.files_included ≤ info.max_files)
      × (info.files_total ≤ info.files_included + info.files_omitted)
unfolding truncate_pr_files
truncate_within files max_files max_patch_bytes =
    let mf = or_default max_files 40 in
    let mb = or_default max_patch_bytes 409600 in
    let w = process_files-AllWithin mf mb no_counts files (omega arith) (omega arith) in
    (
      or_default-positive max_files 40 (omega arith),
      or_default-positive max_patch_bytes 409600 (omega arith),
      omega (arith, w),
      w.kept_within,
      omega (arith, w),
      w.included_within,
      omega (arith, w),
    )

-- Every input file comes out once, in order, under its own path, with a beginning of its own patch,
-- which is the whole patch unless the file is marked as omitted.
pub truncate-EachShortens :
    (files : List ChangedFile) (max_files max_patch_bytes : ℤ)
    → EachShortens files (truncate_pr_files files max_files max_patch_bytes).0
unfolding truncate_pr_files
truncate-EachShortens files max_files max_patch_bytes =
    process_files-EachShortens (or_default max_files 40) (or_default max_patch_bytes 409600)
      no_counts files
