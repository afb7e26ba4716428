-- ===== src/Detective/Truncate.antt =====
-- internal/detective/truncate.go, TruncatePRFiles. The counters count files and bytes that are in
-- memory, so Go's `int` does not wrap.
pub mod Bounds
pub mod Whole
use agent_frei_igi.Prelude.{
  ℕ, zero, suc, ◌+◌, ◌-◌, ◌≡◌, refl, Bool, true, false, ◌||◌, Text, bytes, to_lower, has_prefix,
  has_suffix, is_empty, List, [], ◌∷◌, length, take, ltb, leb, ℤ, pos, negsuc, if◌then◌else◌,
}
use agent_frei_igi.Domain.{ChangedFile, TruncationInfo}
use agent_frei_igi.Detective.Language.{detect_language}

-- `if n <= 0 { n = d }`
unfoldable pub or_default : ℤ → ℕ → ℕ
or_default (pos zero) d = d
or_default (pos (suc n)) d = suc n
or_default (negsuc n) d = d

abbrev skip_prefixes : List Text
skip_prefixes = bytes "vendor/" ∷ bytes "node_modules/" ∷ []

abbrev skip_suffixes : List Text
skip_suffixes =
    bytes ".min.js"
    ∷ bytes "go.sum"
    ∷ bytes "package-lock.json"
    ∷ bytes "pnpm-lock.yaml"
    ∷ bytes "yarn.lock"
    ∷ bytes "bun.lockb"
    ∷ []

any_prefix : Text → List Text → Bool
any_prefix path [] = false
any_prefix path (p ∷ ps) = has_prefix path p || any_prefix path ps

any_suffix : Text → List Text → Bool
any_suffix path [] = false
any_suffix path (p ∷ ps) = has_suffix path p || any_suffix path ps

unfoldable pub is_skipped : Text → Bool
unfolding any_prefix any_suffix
is_skipped path =
    let lower_path = to_lower path in
    any_prefix lower_path skip_prefixes || any_suffix lower_path skip_suffixes

-- The variables that the loop changes.
pub record Counts : Type 0 where
  pub included : ℕ
  pub omitted : ℕ
  pub bytes_total : ℕ
  pub bytes_kept : ℕ
  pub cut : Bool  -- truncatedByBytes

abbrev omit : Text → ChangedFile → ChangedFile
omit reason f = record f { omitted = true; omit_reason = reason; patch = [] }

-- Step 3, for a file with a patch.
limit_bytes : ℕ → Counts → ChangedFile → ChangedFile × Counts
limit_bytes max_bytes c f =
    let patch_len = length f.patch in
    let c = record c { bytes_total = c.bytes_total + patch_len } in
    let remaining = max_bytes - c.bytes_kept in
    if c.cut
    then (omit (bytes "max patch bytes limit exceeded") f, record c { omitted = c.omitted + 1 })
    else if leb (c.bytes_kept + patch_len) max_bytes
    then (f, record c { bytes_kept = c.bytes_kept + patch_len; included = c.included + 1 })
    else if ltb 0 remaining
    then (
      record f {
        patch = take remaining f.patch;
        omitted = true;
        omit_reason = bytes "partially truncated due to patch bytes limit";
      },
      record c { cut = true; bytes_kept = c.bytes_kept + remaining; included = c.included + 1 },
    )
    else (
      omit (bytes "max patch bytes limit exceeded") f,
      record c { cut = true; omitted = c.omitted + 1 },
    )

-- Steps 2 and 3, for a file that is not skipped.
limit_files : ℕ → ℕ → Counts → ChangedFile → ChangedFile × Counts
unfolding limit_bytes
limit_files max_files max_bytes c f =
    if leb max_files c.included
    then (omit (bytes "max files limit exceeded") f, record c { omitted = c.omitted + 1 })
    else if is_empty f.patch
    then (
      record f { omitted = true; omit_reason = bytes "binary or empty patch" },
      record c { omitted = c.omitted + 1; included = c.included + 1 },
    )
    else limit_bytes max_bytes c f

-- The body of the loop.
unfoldable pub process_file : ℕ → ℕ → Counts → ChangedFile → ChangedFile × Counts
unfolding limit_files
process_file max_files max_bytes c f =
    if is_skipped f.path
    then (omit (bytes "skipped path") f, record c { omitted = c.omitted + 1 })
    else limit_files max_files max_bytes c (record f { language = detect_language f.path })

unfoldable pub process_files : ℕ → ℕ → Counts → List ChangedFile → List ChangedFile × Counts
process_files max_files max_bytes c [] = ([], c)
process_files max_files max_bytes c (f ∷ fs) =
    let (f', c') = process_file max_files max_bytes c f in
    let (fs', c'') = process_files max_files max_bytes c' fs in (f' ∷ fs', c'')

abbrev pub no_counts : Counts
no_counts = record { included = 0; omitted = 0; bytes_total = 0; bytes_kept = 0; cut = false }

-- TruncatePRFiles
unfoldable pub truncate_pr_files : List ChangedFile → ℤ → ℤ → List ChangedFile × TruncationInfo
truncate_pr_files files max_files max_patch_bytes =
    let mf = or_default max_files 40 in
    let mb = or_default max_patch_bytes 409600 in
    let (processed, c) = process_files mf mb no_counts files in
    (
      processed,
      record {
        max_files = mf;
        max_patch_bytes = mb;
        files_total = length files;
        files_included = c.included;
        files_omitted = c.omitted;
        patch_bytes_total = c.bytes_total;
        patch_bytes_kept = c.bytes_kept;
        truncated_by_files = ltb c.included (length files);
        truncated_by_bytes = c.cut;
      },
    )
