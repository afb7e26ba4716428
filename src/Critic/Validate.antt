-- ===== src/Critic/Validate.antt =====
-- internal/critic/schema.go: ParseAndValidate, GenerateFingerprint and EnrichResult. The JSON decoder,
-- SHA-256 in hexadecimal and the generator of UUIDs are arguments.
pub mod Laws
use agent_frei_igi.Prelude.{
  ℕ, zero, suc, ◌+◌, Bool, true, false, ◌&&◌, ◌||◌, not, Text, bytes, text_eq, is_empty, to_lower,
  trim_space, has_prefix, trim_prefix, trim_suffix, List, [], ◌∷◌, ◌++◌, ltb, ℤ, pos, negsuc,
  is_positive, is_negative, to_nat, if◌then◌else◌, Result, ok, err, message, wrapped, wrap, Option,
  none, some,
}
use agent_frei_igi.Domain.{ChangedFile}
use agent_frei_igi.Critic.{LlmFinding, LlmResult, Finding, DroppedStats, ReviewResult}

-- The markdown fences around the output are stripped.
unfoldable pub strip_fences : Text → Text
strip_fences raw =
    let clean = trim_space raw in
    trim_space (
      if has_prefix clean (bytes "```json")
      then trim_suffix (trim_prefix clean (bytes "```json")) (bytes "```")
      else if has_prefix clean (bytes "```")
      then trim_suffix (trim_prefix clean (bytes "```")) (bytes "```")
      else clean)

-- knownFiles[path]
unfoldable pub known_path : List ChangedFile → Text → Bool
known_path [] path = false
known_path (f ∷ fs) path = text_eq f.path path || known_path fs path

-- Negative lines are reset.
unfoldable pub reset_lines : LlmFinding → LlmFinding
reset_lines f =
    if is_negative f.start_line || is_negative f.end_line
    then record f { start_line = pos 0; end_line = pos 0 }
    else f

-- f.StartLine > 0 && f.EndLine > 0 && f.EndLine < f.StartLine
unfoldable pub reversed_lines : LlmFinding → Bool
reversed_lines f =
    is_positive f.start_line
    && is_positive f.end_line
    && ltb (to_nat f.end_line) (to_nat f.start_line)

unfoldable pub one_of : Text → List Text → Bool
one_of s [] = false
one_of s (t ∷ ts) = text_eq s t || one_of s ts

abbrev pub severities : List Text
severities = bytes "error" ∷ bytes "warning" ∷ bytes "info" ∷ []

abbrev pub categories : List Text
categories =
    bytes "bug"
    ∷ bytes "security"
    ∷ bytes "performance"
    ∷ bytes "style"
    ∷ bytes "test"
    ∷ bytes "docs"
    ∷ bytes "other"
    ∷ []

-- The normalised word if it is allowed, or the default.
unfoldable pub normalise : List Text → Text → Text → Text
normalise allowed default s =
    let word = to_lower (trim_space s) in if one_of word allowed then word else default

abbrev normalised : LlmFinding → LlmFinding
normalised f = record f {
  severity = normalise severities (bytes "warning") f.severity;
  category = normalise categories (bytes "other") f.category;
}

-- What the loop of ParseAndValidate does with a finding.
pub data Verdict : Type 0 where
  keep : LlmFinding → Verdict
  drop_bad_path drop_low_confidence drop_invalid : Verdict

unfoldable pub judge : List ChangedFile → ℕ → LlmFinding → Verdict
unfolding reset_lines reversed_lines
judge files min_confidence f =
    if is_empty f.path || not (known_path files f.path)
    then drop_bad_path
    else if ltb f.confidence min_confidence
    then drop_low_confidence
    else let g = reset_lines f in if reversed_lines g then drop_invalid else keep (normalised g)

abbrev pub add : Verdict → List LlmFinding × DroppedStats → List LlmFinding × DroppedStats
add (keep f) (fs, d) = (f ∷ fs, d)
add drop_bad_path (fs, d) = (fs, record d { bad_path = suc d.bad_path })
add drop_low_confidence (fs, d) = (fs, record d { low_confidence = suc d.low_confidence })
add drop_invalid (fs, d) = (fs, record d { invalid = suc d.invalid })

abbrev nothing_dropped : DroppedStats
nothing_dropped = record { low_confidence = 0; bad_path = 0; invalid = 0 }

-- The loop; the counters do not depend on the order.
unfoldable pub validate : List ChangedFile → ℕ → List LlmFinding → List LlmFinding × DroppedStats
unfolding judge
validate files min_confidence [] = ([], nothing_dropped)
validate files min_confidence (f ∷ fs) =
    add (judge files min_confidence f) (validate files min_confidence fs)

abbrev pub with_verdict : Text → Text
with_verdict v = if is_empty (trim_space v) then bytes "Review completed." else v

abbrev pub validated : List ChangedFile → ℕ → Result LlmResult → Result (LlmResult × DroppedStats)
validated files min_confidence (err e) = err (wrapped (bytes "failed to unmarshal LLM json") e)
validated files min_confidence (ok raw) =
    let (fs, d) = validate files min_confidence raw.findings in
    ok (record raw { findings = fs; verdict = with_verdict raw.verdict }, d)

-- ParseAndValidate
unfoldable pub parse_and_validate :
    (Text → Result LlmResult) → Text → List ChangedFile → ℕ → Result (LlmResult × DroppedStats)
unfolding validate
parse_and_validate unmarshal raw files min_confidence =
    let clean = strip_fences raw in
    if is_empty clean
    then err (message (bytes "LLM output is empty"))
    else validated files min_confidence (unmarshal clean)

-- GenerateFingerprint
unfoldable pub generate_fingerprint : (Text → Text) → Text → Text → Text → Text
generate_fingerprint sha256_hex path title category =
    sha256_hex (path ++ 0 ∷ trim_space (to_lower title) ++ 0 ∷ category)

-- The loop of EnrichResult; `ids n` is the id drawn for the n-th finding.
unfoldable pub enrich_findings : (Text → Text) → (ℕ → Text) → ℕ → List LlmFinding → List Finding
unfolding generate_fingerprint
enrich_findings sha256_hex ids n [] = []
enrich_findings sha256_hex ids n (f ∷ fs) =
    record {
      id = ids n;
      fingerprint = generate_fingerprint sha256_hex f.path f.title f.category;
      severity = f.severity;
      category = f.category;
      path = f.path;
      start_line = f.start_line;
      end_line = f.end_line;
      title = f.title;
      body = f.body;
      confidence = f.confidence;
    }
    ∷ enrich_findings sha256_hex ids (suc n) fs

-- EnrichResult
unfoldable pub enrich_result :
    (Text → Text) → (ℕ → Text) → LlmResult → Text → List Text → DroppedStats → Text → ReviewResult
unfolding enrich_findings
enrich_result sha256_hex ids raw model attempts dropped version = record {
  prompt_version = version;
  model_used = model;
  verdict = raw.verdict;
  summary = raw.summary;
  findings = enrich_findings sha256_hex ids 0 raw.findings;
  dropped = dropped;
  provider_attempts = attempts;
}
