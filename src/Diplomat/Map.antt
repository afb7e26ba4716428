-- ===== src/Diplomat/Map.antt =====
-- internal/diplomat/map.go: a review result as a request to GitHub.
pub mod Laws
use agent_frei_igi.Prelude.{
  ℕ, zero, suc, ◌+◌, Bool, true, false, Text, bytes, text_eq, is_empty, to_lower, trim_space, join,
  List, [], ◌∷◌, ◌++◌, ltb, ◌==◌, ℤ, is_positive, to_nat, if◌then◌else◌, decimal,
}
use agent_frei_igi.GithubApp.{ReviewComment, ReviewRequest}
use agent_frei_igi.Critic.{Finding, ReviewResult}

abbrev pub comment_limit : ℕ
comment_limit = 30

-- The line of a finding: its last one, or its first; 0 stands for none.
unfoldable pub line_of : Finding → ℕ
line_of f = if is_positive f.end_line then to_nat f.end_line else to_nat f.start_line

unfoldable pub file_note : Finding → Text
file_note f =
    bytes "* ["
    ++ f.severity
    ++ bytes "] **"
    ++ f.path
    ++ bytes "**: "
    ++ f.title
    ++ bytes " - "
    ++ f.body

unfoldable pub overflow_note : ℕ → Finding → Text
overflow_note line f =
    bytes "* ["
    ++ f.severity
    ++ bytes "] **"
    ++ f.path
    ++ bytes "#L"
    ++ decimal line
    ++ bytes "**: "
    ++ f.title
    ++ bytes " - "
    ++ f.body

unfoldable pub comment_body : Finding → Text
comment_body f =
    let prefix = if text_eq (to_lower f.severity) (bytes "error") then bytes "[Error] " else [] in
    bytes "**" ++ prefix ++ f.title ++ bytes "**\n\n" ++ f.body

unfoldable pub comment : ℕ → Finding → ReviewComment
comment line f = record { path = f.path; line = line; side = bytes "RIGHT"; body = comment_body f }

-- The three lists that the loop fills.
pub record Sorted : Type 0 where
  pub inline : List ReviewComment
  pub file_level : List Text
  pub overflow : List Text

abbrev nothing_sorted : Sorted
nothing_sorted = record { inline = []; file_level = []; overflow = [] }

abbrev add_file_level : Text → Sorted → Sorted
add_file_level n s = record s { file_level = n ∷ s.file_level }

abbrev add_overflow : Text → Sorted → Sorted
add_overflow n s = record s { overflow = n ∷ s.overflow }

abbrev add_inline : ReviewComment → Sorted → Sorted
add_inline c s = record s { inline = c ∷ s.inline }

-- Where a finding goes, given its line and commentCount.
unfoldable pub place : ℕ → ℕ → Finding → Sorted → Sorted
place line count f =
    if line == 0
    then add_file_level (file_note f)
    else if ltb count comment_limit
    then add_inline (comment line f)
    else add_overflow (overflow_note line f)

-- commentCount after a finding
unfoldable pub next_count : ℕ → ℕ → ℕ
next_count line count =
    if line == 0 then count else if ltb count comment_limit then suc count else count

-- The loop
unfoldable pub sort_findings : ℕ → List Finding → Sorted
unfolding line_of place next_count
sort_findings count [] = nothing_sorted
sort_findings count (f ∷ fs) =
    place (line_of f) count f (sort_findings (next_count (line_of f) count) fs)

abbrev section : Text → List Text → List Text
section title [] = []
section title (n ∷ ns) = (title ++ join (bytes "\n") (n ∷ ns)) ∷ []

abbrev opening : ReviewResult → List Text
opening r =
    if is_empty r.summary
    then (if is_empty r.verdict then [] else r.verdict ∷ [])
    else r.summary ∷ []

-- `·` is two bytes of UTF-8.
abbrev dot : Text
dot = 194 ∷ 183 ∷ []

abbrev signature : Bool → ReviewResult → Text → List Text
signature false r short_job_id = []
signature true r short_job_id =
    (bytes "\n---\nvia agent-frei "
      ++ dot
      ++ bytes " model "
      ++ r.model_used
      ++ bytes " "
      ++ dot
      ++ bytes " job "
      ++ short_job_id)
    ∷ []

-- MapResultToRequest
unfoldable pub map_result_to_request : ReviewResult → Text → Bool → Text → ReviewRequest
unfolding sort_findings
map_result_to_request r head_sha signed short_job_id =
    let s = sort_findings 0 r.findings in
    record {
      commit_id = head_sha;
      body = trim_space (
          join (bytes "\n") (
            opening r
            ++ section (bytes "\n### File-Level Notes:\n") s.file_level
            ++ section (bytes "\n### Additional Findings:\n") s.overflow
            ++ signature signed r short_job_id));
      event = bytes "COMMENT";
      comments = s.inline;
    }
