-- ===== src/Critic.antt =====
-- internal/critic/schema.go. A float64 is represented by its rank among the float64 values, since the
-- program only compares confidences; JSON has no NaN.
pub mod Prompt
pub mod Review
pub mod Validate
use agent_frei_igi.Prelude.{ℕ, Text, List, ℤ}

-- LLMFinding
pub record LlmFinding : Type 0 where
  pub severity : Text
  pub category : Text
  pub path : Text
  pub start_line : ℤ
  pub end_line : ℤ
  pub title : Text
  pub body : Text
  pub confidence : ℕ

-- LLMResult
pub record LlmResult : Type 0 where
  pub verdict : Text
  pub summary : Text
  pub findings : List LlmFinding

-- Finding
pub record Finding : Type 0 where
  pub id : Text
  pub fingerprint : Text
  pub severity : Text
  pub category : Text
  pub path : Text
  pub start_line : ℤ
  pub end_line : ℤ
  pub title : Text
  pub body : Text
  pub confidence : ℕ

-- DroppedStats
pub record DroppedStats : Type 0 where
  pub low_confidence : ℕ
  pub bad_path : ℕ
  pub invalid : ℕ

-- Result of schema.go
pub record ReviewResult : Type 0 where
  pub prompt_version : Text
  pub model_used : Text
  pub verdict : Text
  pub summary : Text
  pub findings : List Finding
  pub dropped : DroppedStats
  pub provider_attempts : List Text
