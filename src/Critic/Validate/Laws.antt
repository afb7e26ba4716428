-- ===== src/Critic/Validate/Laws.antt =====
-- ParseAndValidate (internal/critic/schema.go): the findings that it keeps, and those that it counts.
use agent_frei_igi.Prelude.{
  ℕ, ◌+◌, ◌≤◌, ◌≡◌, trim_space, true, false, Text, is_empty, List, length, is_negative, Result, ok,
  All,
}
use agent_frei_igi.Domain.{ChangedFile}
use agent_frei_igi.Critic.{LlmFinding, LlmResult, DroppedStats}
use agent_frei_igi.Critic.Validate.{
  known_path, reversed_lines, one_of, severities, categories, Verdict, keep, strip_fences,
}

pub record IsValid (files : List ChangedFile) (min_confidence : ℕ) (f : LlmFinding) : Type 0 where
  pub known : known_path files f.path ≡ true
  pub confident : min_confidence ≤ f.confidence
  pub start_not_negative : is_negative f.start_line ≡ false
  pub end_not_negative : is_negative f.end_line ≡ false
  pub ordered : reversed_lines f ≡ false
  pub severity : one_of f.severity severities ≡ true
  pub category : one_of f.category categories ≡ true

abbrev KeepsValid : List ChangedFile → ℕ → Verdict → Type 0
KeepsValid files m (keep g) = IsValid files m g
KeepsValid files m _ = Unit

abbrev pub all_dropped : DroppedStats → ℕ
all_dropped d = d.low_confidence + d.bad_path + d.invalid

-- What a successful run passes on, of the findings that the decoder read.
pub record Accepted (unmarshal : Text → Result LlmResult) (raw : Text) (files : List ChangedFile)
    (m : ℕ) (r : LlmResult) (d : DroppedStats) : Type 0 where
  pub decoded : LlmResult
  pub was_decoded : unmarshal (strip_fences raw) ≡ ok decoded
  pub all_valid : All (IsValid files m) r.findings
  pub all_counted : length r.findings + all_dropped d ≡ length decoded.findings
  pub has_verdict : is_empty (trim_space r.verdict) ≡ false
  pub same_summary : r.summary ≡ decoded.summary
