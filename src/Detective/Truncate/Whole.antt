-- ===== src/Detective/Truncate/Whole.antt =====
-- TruncatePRFiles (internal/detective/truncate.go) where the limits are not met, and after the cut.
use agent_frei_igi.Prelude.{
  ℕ, suc, ◌+◌, ◌≤◌, ◌≡◌, refl, ap, true, false, List, [], ◌∷◌, arith, length, map, is_empty, All,
  pos,
}
use agent_frei_igi.Domain.{ChangedFile}
use agent_frei_igi.Detective.Language.{detect_language}
use agent_frei_igi.Detective.Truncate.{
  or_default, is_skipped, Counts, process_file, process_files, no_counts, truncate_pr_files,
}
use agent_frei_igi.Detective.Truncate.Bounds.{patch_bytes}

-- A file that no rule but the limits omits.
abbrev pub IsReviewable : ChangedFile → Type 0
IsReviewable f = (is_skipped f.path ≡ false) × (is_empty f.patch ≡ false)

abbrev pub with_language : ChangedFile → ChangedFile
with_language f = record f { language = detect_language f.path }

abbrev counted : Counts → List ChangedFile → Counts
counted c fs = record c {
  included = c.included + length fs;
  bytes_total = c.bytes_total + patch_bytes fs;
  bytes_kept = c.bytes_kept + patch_bytes fs;
}

abbrev counted_one : Counts → ChangedFile → Counts
counted_one c f = record c {
  included = c.included + 1;
  bytes_total = c.bytes_total + length f.patch;
  bytes_kept = c.bytes_kept + length f.patch;
}

counted-cons :
    (c : Counts) (f : ChangedFile) (fs : List ChangedFile)
    → counted (counted_one c f) fs ≡ counted c (f ∷ fs)
counted-cons c f fs = ground arith

process_file-whole :
    (mf mb : ℕ) (c : Counts) (f : ChangedFile)
    → IsReviewable f
    → c.cut ≡ false
    → c.included + 1 ≤ mf
    → c.bytes_kept + length f.patch ≤ mb
    → process_file mf mb c f ≡ (with_language f, counted_one c f)
unfolding process_file
process_file-whole mf mb c f r e i k = ground arith

process_files-whole :
    (mf mb : ℕ) (c : Counts) (fs : List ChangedFile)
    → All IsReviewable fs
    → c.cut ≡ false
    → c.included + length fs ≤ mf
    → c.bytes_kept + patch_bytes fs ≤ mb
    → process_files mf mb c fs ≡ (map with_language fs, counted c fs)
unfolding process_files
process_files-whole mf mb c [] r e i k = ground arith
process_files-whole mf mb c (f ∷ fs) r e i k =
    rw (process_file-whole mf mb c f r.0 e (omega arith) (omega arith)) (
      rw (process_files-whole mf mb (counted_one c f) fs r.1 e (omega arith) (omega arith))
        (ap (λ (d : Counts). (with_language f ∷ map with_language fs, d)) (counted-cons c f fs)))

-- If no file is skipped or without a patch, and files and bytes are within limits that are positive, every file is
-- passed on whole, with its language, and the report says so.
pub truncate_whole :
    (files : List ChangedFile) (max_files max_patch_bytes : ℕ)
    → All IsReviewable files
    → length files ≤ suc max_files
    → patch_bytes files ≤ suc max_patch_bytes
    → let (out, info) = truncate_pr_files files (pos (suc max_files)) (pos (suc max_patch_bytes)) in
      (out ≡ map with_language files)
      × (info.files_included ≡ length files)
      × (info.files_omitted ≡ 0)
      × (info.truncated_by_files ≡ false)
      × (info.truncated_by_bytes ≡ false)
unfolding truncate_pr_files or_default
truncate_whole files mf mb r i k =
    rw (process_files-whole (suc mf) (suc mb) no_counts files r refl (omega arith) (omega arith))
      (refl, omega arith, refl, ground arith, refl)

process_file-cut :
    (mf mb : ℕ) (c : Counts) (f : ChangedFile)
    → c.cut ≡ true
    → ((process_file mf mb c f).0.patch ≡ [])
      × ((process_file mf mb c f).1.cut ≡ true)
      × ((process_file mf mb c f).1.bytes_kept ≡ c.bytes_kept)
unfolding process_file
process_file-cut mf mb c f e = ground arith

-- From the first patch that does not fit, no later file has a patch.
pub process_files-cut :
    (mf mb : ℕ) (c : Counts) (fs : List ChangedFile)
    → c.cut ≡ true
    → All (λ g. g.patch ≡ []) (process_files mf mb c fs).0
unfolding process_files
process_files-cut mf mb c [] e = tt
process_files-cut mf mb c (f ∷ fs) e =
    let (here, still, kept) = process_file-cut mf mb c f e in
    (here, process_files-cut mf mb (process_file mf mb c f).1 fs still)
