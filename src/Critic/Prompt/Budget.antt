-- ===== src/Critic/Prompt/Budget.antt =====
-- BuildPrompt (internal/critic/prompt.go) and its budget.
use agent_frei_igi.Prelude.{
  ℕ, ◌+◌, ◌≤◌, ◌≡◌, ◌∙◌, false, Text, List, [], ◌∷◌, ◌++◌, length, length-append, arith, ltb, ℤ,
  Bool, true, sym, if◌then◌else◌, bytes, is_empty, Bool-cases, inl, inr, pos, refl, zero, suc, ◌<◌,
  ◌*◌, ◌^◌,
}
use Prim.Native.Nat.{max}
use mathlib.Core.List.{append-nil, append_assoc}
use agent_frei_igi.Domain.{ChangedFile, ReviewContext}
use agent_frei_igi.Detective.Truncate.{or_default}
use agent_frei_igi.Critic.Prompt.{
  file_header, patch_text, omit_note, write_file, write_section, write_files, preamble, char_budget,
  build_prompt,
}

-- A file that is shown without its patch.
abbrev pub stub : ChangedFile → Text
stub f = file_header f ++ omit_note f

abbrev pub stubs : List ChangedFile → ℕ
stubs [] = 0
stubs (f ∷ files) = length (stub f) + stubs files

length-append₃ : (a b c : Text) → length (a ++ b ++ c) ≡ length a + (length b + length c)
length-append₃ a b c = omega (arith, length-append (a ++ b) c, length-append a b)

write_section-bound :
    (budget : ℕ) (omitted : Bool) (header note patch sb : Text)
    → length (write_section budget omitted header note patch sb)
      ≤ max budget (length sb) + length (header ++ note)
unfolding write_section
write_section-bound budget omitted header note patch sb = ground (
  arith,
  length-append₃ sb header note,
  length-append header note,
  length-append₃ sb header patch,
)

write_file-bound :
    (budget : ℕ) (f : ChangedFile) (sb : Text)
    → length (write_file budget f sb) ≤ max budget (length sb) + length (stub f)
unfolding write_file
write_file-bound budget f sb =
    write_section-bound budget f.omitted (file_header f) (omit_note f) (patch_text f) sb

write_files-bound :
    (budget : ℕ) (files : List ChangedFile) (sb : Text)
    → length (write_files budget files sb) ≤ max budget (length sb) + stubs files
unfolding write_files
write_files-bound budget [] sb = omega arith
write_files-bound budget (f ∷ files) sb =
    omega
      (arith, write_files-bound budget files (write_file budget f sb), write_file-bound budget f sb)

-- The prompt is no longer than the budget, or than what stands before the files where that is longer,
-- and a header with a note for every file: patches are only added within the budget.
pub build_prompt-bound :
    (ctx : ReviewContext) (tokens : ℤ)
    → length (build_prompt ctx tokens)
      ≤ max (char_budget tokens) (length (preamble ctx)) + stubs ctx.files
unfolding build_prompt
build_prompt-bound ctx tokens = write_files-bound (char_budget tokens) ctx.files (preamble ctx)

-- A file with its patch, or with its note where it was omitted before.
abbrev pub section : ChangedFile → Text
section f = if f.omitted then stub f else file_header f ++ patch_text f

abbrev pub sections : List ChangedFile → Text
sections [] = []
sections (f ∷ files) = section f ++ sections files

write_section-fits :
    (budget : ℕ) (omitted : Bool) (header note patch sb : Text)
    → length sb + length (if omitted then header ++ note else header ++ patch) ≤ budget
    → write_section budget omitted header note patch sb
      ≡ sb ++ (if omitted then header ++ note else header ++ patch)
unfolding write_section
write_section-fits budget true header note patch sb h = append_assoc sb header note
write_section-fits budget false header note patch sb h =
    let fits : ltb budget (length sb + length header + length patch) ≡ false =
      ground (arith, length-append header patch) in
    rw fits (append_assoc sb header patch)

write_files-fits :
    (budget : ℕ) (files : List ChangedFile) (sb : Text)
    → length sb + length (sections files) ≤ budget
    → write_files budget files sb ≡ sb ++ sections files
unfolding write_files write_file
write_files-fits budget [] sb h = sym (append-nil sb)
write_files-fits budget (f ∷ files) sb h =
    let s = section f in
    let split = length-append s (sections files) in
    let e =
      write_section-fits budget f.omitted (file_header f) (omit_note f) (patch_text f) sb
        (omega (arith, split)) in
    let n = length-append sb s in
    rw e (
      write_files-fits budget files (sb ++ s) (omega (arith, split, n))
      ∙ append_assoc sb s (sections files))

-- How a file is shown in full: with its patch, or with the reason why it was omitted before.
abbrev shown : ChangedFile → Text
shown f =
    (bytes "\nFile: "
      ++ f.path
      ++ bytes "\nStatus: "
      ++ f.status
      ++ bytes "\n"
      ++ (if is_empty f.language then [] else bytes "Language: " ++ f.language ++ bytes "\n"))
    ++ (if f.omitted
        then bytes "Omitted reason: " ++ f.omit_reason ++ bytes "\n"
        else bytes "Patch:\n" ++ f.patch ++ bytes "\n")

abbrev pub all_shown : List ChangedFile → Text
all_shown [] = []
all_shown (f ∷ files) = shown f ++ all_shown files

section-shown : (f : ChangedFile) → section f ≡ shown f
unfolding file_header patch_text omit_note
section-shown f = elim (Bool-cases f.omitted) [ inl omitted ↦ rw omitted | inr kept ↦ rw kept ]

sections-shown : (files : List ChangedFile) → sections files ≡ all_shown files
sections-shown [] = refl
sections-shown (f ∷ files) = rw (section-shown f, sections-shown files)

char_budget-fits : (n : ℕ) → 0 < n → n * 4 < 2 ^ 63 → char_budget (pos n) ≡ n * 4
unfolding char_budget or_default
char_budget-fits zero some_tokens fits = omega arith
char_budget-fits (suc n) some_tokens fits = ground arith

-- A prompt that fits the budget as a whole, four bytes for each of the configured tokens, has every file,
-- in order, with its whole patch, or with the reason why that was omitted before; the number of tokens is
-- positive, and four times as many is an `int`.
pub build_prompt-whole :
    (ctx : ReviewContext) (n : ℕ)
    → 0 < n
    → n * 4 < 2 ^ 63
    → length (preamble ctx) + length (all_shown ctx.files) ≤ n * 4
    → build_prompt ctx (pos n) ≡ preamble ctx ++ all_shown ctx.files
unfolding build_prompt
build_prompt-whole ctx n some_tokens small h =
    let same = sections-shown ctx.files in
    let budget = char_budget-fits n some_tokens small in
    let room : length (preamble ctx) + length (sections ctx.files) ≤ char_budget (pos n) =
      rw (same, budget) h in
    rw (← same) (write_files-fits (char_budget (pos n)) ctx.files (preamble ctx) room)
