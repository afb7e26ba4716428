-- ===== src/Examples/Publishing.antt =====
-- Publishing and the stages before it at concrete inputs.
use agent_frei_igi.Prelude.{
  ◌≡◌, ◌≤◌, ◌+◌, ◌<◌, refl, take, drop, map, length, List, [], ◌∷◌, ◌++◌, pos, false, true, arith,
  leb→le, decimal, has_prefix, has_suffix, to_lower,
}
use Prim.Native.Nat.{max}
use agent_frei_igi.Diplomat.Map.{sort_findings, file_note}
use agent_frei_igi.Diplomat.Map.Laws.{sort_findings_lem, on_line, off_line, as_comment, as_overflow}
use agent_frei_igi.Detective.Truncate.{truncate_pr_files, Counts, is_skipped}
use agent_frei_igi.Detective.Truncate.Bounds.{
  truncate_within, truncate-EachShortens, EachShortens, patch_bytes,
}
use agent_frei_igi.Detective.Truncate.Whole.{truncate_whole, with_language}
use agent_frei_igi.Critic.Prompt.{build_prompt, char_budget, preamble, metadata}
use agent_frei_igi.Critic.Prompt.Budget.{build_prompt-bound, build_prompt-whole, stubs, all_shown}
use agent_frei_igi.Critic.{Finding}
use agent_frei_igi.Examples.Fixtures.{finding_on, changed, context}

abbrev some_findings : List Finding
some_findings = finding_on 3 ∷ finding_on 0 ∷ []

sort_findings_lem_example :
    let s = sort_findings 0 some_findings in
    (s.inline ≡ take 30 (map as_comment (on_line some_findings)))
    × (s.file_level ≡ map file_note (off_line some_findings))
    × (s.overflow ≡ drop 30 (map as_overflow (on_line some_findings)))
sort_findings_lem_example = sort_findings_lem some_findings

truncate_within_example :
    let (out, info) = truncate_pr_files (changed ∷ changed ∷ []) (pos 1) (pos 3) in
    (0 < info.max_files)
    × (0 < info.max_patch_bytes)
    × (patch_bytes out ≡ info.patch_bytes_kept)
    × (info.patch_bytes_kept ≤ info.max_patch_bytes)
    × (info.patch_bytes_kept ≤ info.patch_bytes_total)
    × (info.files_included ≤ info.max_files)
    × (info.files_total ≤ info.files_included + info.files_omitted)
truncate_within_example = truncate_within (changed ∷ changed ∷ []) (pos 1) (pos 3)

truncate-EachShortens_example :
    EachShortens
      (changed ∷ changed ∷ [])
      (truncate_pr_files (changed ∷ changed ∷ []) (pos 40) (pos 3)).0
truncate-EachShortens_example = truncate-EachShortens (changed ∷ changed ∷ []) (pos 40) (pos 3)

truncate_whole_example :
    let (out, info) = truncate_pr_files (changed ∷ []) (pos 3) (pos 9) in
    (out ≡ map with_language (changed ∷ []))
    × (info.files_included ≡ length (changed ∷ []))
    × (info.files_omitted ≡ 0)
    × (info.truncated_by_files ≡ false)
    × (info.truncated_by_bytes ≡ false)
unfolding is_skipped has_prefix to_lower has_suffix
truncate_whole_example =
    truncate_whole (changed ∷ []) 2 8 ((refl, refl), tt) (omega arith) (omega arith)

abbrev cut_counts : Counts
cut_counts = record { included = 1; omitted = 0; bytes_total = 2; bytes_kept = 2; cut = true }

build_prompt-bound_example :
    length (build_prompt context (pos 10))
    ≤ max (char_budget (pos 10)) (length (preamble context)) + stubs context.files
build_prompt-bound_example = build_prompt-bound context (pos 10)

fits : length (preamble context) + length (all_shown context.files) ≤ 4000
unfolding preamble metadata decimal
fits = leb→le (length (preamble context) + length (all_shown context.files)) (4000) refl

build_prompt-whole_example :
    build_prompt context (pos 1000) ≡ preamble context ++ all_shown context.files
build_prompt-whole_example = build_prompt-whole context 1000 (omega arith) (omega arith) fits
