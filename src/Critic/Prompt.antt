-- ===== src/Critic/Prompt.antt =====
-- internal/critic/prompt.go: the prompt, and the budget that a patch must fit in to be part of it.
-- A budget that Go's 64-bit `int` wraps to a negative number admits no patch, as one of 0 does, since
-- every section has a header.
pub mod Budget
use agent_frei_igi.Prelude.{
  ℕ, ◌+◌, ◌*◌, ◌%◌, ◌^◌, Bool, Text, bytes, is_empty, List, [], ◌∷◌, ◌++◌, length, ltb, ℤ,
  if◌then◌else◌, decimal,
}
use agent_frei_igi.Domain.{ChangedFile, ReviewContext}
use agent_frei_igi.Detective.Truncate.{or_default}

abbrev instructions : Text
instructions =
    bytes "You are a Senior Software Engineer and Expert Code Reviewer.\n"
    ++ bytes "Analyze the following Pull Request details and changed files.\n"
    ++ bytes "You MUST return output EXACTLY matching this JSON schema. Do not include markdown "
    ++ bytes "fences like ```json, just return raw JSON text.\n\n"

abbrev schema : Text
schema =
    bytes "JSON Schema:\n{\n"
    ++ bytes "  \"verdict\": \"Overall summary review comment.\",\n"
    ++ bytes "  \"summary\": \"Optional short overall text summary.\",\n"
    ++ bytes "  \"findings\": [\n    {\n"
    ++ bytes "      \"severity\": \"error|warning|info\",\n"
    ++ bytes "      \"category\": \"bug|security|performance|style|test|docs|other\",\n"
    ++ bytes "      \"path\": \"file/path.go\",\n"
    ++ bytes "      \"start_line\": 10,\n"
    ++ bytes "      \"end_line\": 12,\n"
    ++ bytes "      \"title\": \"Short title describing the issue.\",\n"
    ++ bytes "      \"body\": \"Detailed explanation of what is wrong and how to fix it.\",\n"
    ++ bytes "      \"confidence\": 0.85\n"
    ++ bytes "    }\n  ]\n}\n"

abbrev line_unless_empty : Text → Text → Text
line_unless_empty label value = if is_empty value then [] else label ++ value ++ bytes "\n"

unfoldable pub metadata : ReviewContext → Text
metadata ctx =
    bytes "\n=== Pull Request Metadata ===\n"
    ++ bytes "Repository: "
    ++ ctx.repo_full_name
    ++ bytes "\nPull Request: #"
    ++ decimal ctx.pr_number
    ++ bytes "\nHead SHA: "
    ++ ctx.head_sha
    ++ bytes "\n"
    ++ line_unless_empty (bytes "Base SHA: ") ctx.base_sha
    ++ line_unless_empty (bytes "Publisher Login: ") ctx.publisher_login
    ++ bytes "Truncation Info: Files included: "
    ++ decimal ctx.truncation.files_included
    ++ bytes "/"
    ++ decimal ctx.truncation.files_total
    ++ bytes ", Patches kept: "
    ++ decimal ctx.truncation.patch_bytes_kept
    ++ bytes " bytes\n\n"

-- What stands before the first file.
unfoldable pub preamble : ReviewContext → Text
unfolding metadata
preamble ctx = instructions ++ schema ++ metadata ctx ++ bytes "=== Changed Files ===\n"

-- fileHeader
unfoldable pub file_header : ChangedFile → Text
file_header f =
    bytes "\nFile: "
    ++ f.path
    ++ bytes "\nStatus: "
    ++ f.status
    ++ bytes "\n"
    ++ line_unless_empty (bytes "Language: ") f.language

-- patchText
unfoldable pub patch_text : ChangedFile → Text
patch_text f = bytes "Patch:\n" ++ f.patch ++ bytes "\n"

-- The note of a file that is shown without its patch.
unfoldable pub omit_note : ChangedFile → Text
omit_note f =
    bytes "Omitted reason: "
    ++ (if f.omitted then f.omit_reason else bytes "patch omitted due to prompt budget limit")
    ++ bytes "\n"

-- The body of the loop: what follows the builder's content for a file of this header, note and patch.
unfoldable pub write_section : ℕ → Bool → Text → Text → Text → Text → Text
write_section budget omitted header note patch sb =
    if omitted
    then sb ++ header ++ note
    else if ltb budget (length sb + length header + length patch)
    then sb ++ header ++ note
    else sb ++ header ++ patch

unfoldable pub write_file : ℕ → ChangedFile → Text → Text
write_file budget f sb =
    write_section budget f.omitted (file_header f) (omit_note f) (patch_text f) sb

unfoldable pub write_files : ℕ → List ChangedFile → Text → Text
write_files budget [] sb = sb
write_files budget (f ∷ files) sb = write_files budget files (write_file budget f sb)

-- charBudget: an `int` of 64 bits, of which a negative value counts as 0.
unfoldable pub char_budget : ℤ → ℕ
unfolding or_default
char_budget tokens =
    let bits = or_default tokens 100000 * 4 % 2 ^ 64 in if ltb bits (2 ^ 63) then bits else 0

-- BuildPrompt
unfoldable pub build_prompt : ReviewContext → ℤ → Text
build_prompt ctx tokens = write_files (char_budget tokens) ctx.files (preamble ctx)
