-- ===== src/Critic/Review.antt =====
-- internal/critic/critic.go: Review. What a provider answers before the timeout is the provider's
-- field; the decoder, the hash and the generator of ids are those of Validate.
use agent_frei_igi.Prelude.{
  ℕ, suc, ◌≡◌, Text, bytes, List, [], ◌∷◌, ◌++◌, trim_space, to_lower, Result, ok, err, Error,
  wrapped, ℤ, ◌⊎◌,
}
use agent_frei_igi.Domain.{ReviewContext}
use agent_frei_igi.Llm.{Router, Provider, complete, Direct, FellBack}
use agent_frei_igi.Critic.{LlmFinding, LlmResult, Finding, DroppedStats, ReviewResult}
use agent_frei_igi.Critic.Prompt.{build_prompt}
use agent_frei_igi.Critic.Validate.{parse_and_validate, enrich_result}
use agent_frei_igi.Critic.Validate.Laws.{Accepted}

pub record Reviewer : Type 0 where
  pub router : Router
  pub prompt_budget_tokens : ℤ
  pub confidence_min : ℕ
  pub unmarshal : Text → Result LlmResult
  pub sha256_hex : Text → Text
  pub ids : ℕ → Text

abbrev enriched :
    Reviewer → Text → List Text → Result (LlmResult × DroppedStats) → Result ReviewResult
enriched c model attempts (err e) = err (wrapped (bytes "failed to parse findings") e)
enriched c model attempts (ok (raw, d)) =
    ok (enrich_result c.sha256_hex c.ids raw model attempts d (bytes "critic-v1"))

abbrev settled : Reviewer → ReviewContext → List Text → Result (Text × Text) → Result ReviewResult
settled c ctx attempts (err e) = err (wrapped (bytes "llm completion failed") e)
settled c ctx attempts (ok (out, model)) =
    enriched c model attempts (parse_and_validate c.unmarshal out ctx.files c.confidence_min)

-- Review
unfoldable pub review : Reviewer → ReviewContext → Result ReviewResult
review c ctx =
    let completion = complete c.router (build_prompt ctx c.prompt_budget_tokens) in
    settled c ctx completion.attempts completion.answer

-- A finding of the provider as it is published: every column of it, with an id and a fingerprint.
pub record IsKept (sha256_hex : Text → Text) (id : Text) (f : LlmFinding) (g : Finding)
    : Type 0 where
  pub same_severity : g.severity ≡ f.severity
  pub same_category : g.category ≡ f.category
  pub same_path : g.path ≡ f.path
  pub same_start : g.start_line ≡ f.start_line
  pub same_end : g.end_line ≡ f.end_line
  pub same_title : g.title ≡ f.title
  pub same_body : g.body ≡ f.body
  pub same_confidence : g.confidence ≡ f.confidence
  pub drawn : g.id ≡ id
  pub hashed :
      g.fingerprint ≡ sha256_hex (f.path ++ 0 ∷ trim_space (to_lower f.title) ++ 0 ∷ f.category)

-- One finding for each, in order, with the ids as they are drawn from the `n`-th on.
abbrev pub AreKept : (Text → Text) → (ℕ → Text) → ℕ → List LlmFinding → List Finding → Type 0
AreKept sha256_hex ids n [] [] = Unit
AreKept sha256_hex ids n (f ∷ fs) (g ∷ gs) =
    IsKept sha256_hex (ids n) f g × AreKept sha256_hex ids (suc n) fs gs
AreKept sha256_hex ids n [] (g ∷ gs) = ⊥
AreKept sha256_hex ids n (f ∷ fs) [] = ⊥

-- Where a result comes from.
pub record Sound (c : Reviewer) (ctx : ReviewContext) (r : ReviewResult) : Type 0 where
  pub out : Text
  pub model : Text
  pub raw : LlmResult
  pub dropped : DroppedStats
  pub from_provider :
      Direct c.router (build_prompt ctx c.prompt_budget_tokens) out model
      ⊎ ((e : Error) × (q : Provider) × FellBack c.router
            (build_prompt ctx c.prompt_budget_tokens)
            e
            q
            out
            model)
  pub accepted : Accepted c.unmarshal out ctx.files c.confidence_min raw dropped
  pub names_provider : r.model_used ≡ model
  pub names_calls :
      r.provider_attempts ≡ (complete c.router (build_prompt ctx c.prompt_budget_tokens)).attempts
  pub names_prompt : r.prompt_version ≡ bytes "critic-v1"
  pub same_verdict : r.verdict ≡ raw.verdict
  pub same_summary : r.summary ≡ raw.summary
  pub counts : r.dropped ≡ dropped
  pub kept : AreKept c.sha256_hex c.ids 0 raw.findings r.findings
