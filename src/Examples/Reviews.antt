-- ===== src/Examples/Reviews.antt =====
-- The review of a language model, and the command's output, at concrete inputs.
use agent_frei_igi.Prelude.{◌⊎◌, refl, bytes, [], ◌∷◌, Error}
use agent_frei_igi.Llm.{Provider, complete, complete_lem, Direct, FellBack}
use agent_frei_igi.Critic.{ReviewResult}
use agent_frei_igi.Critic.Validate.{enrich_result}
use agent_frei_igi.Examples.Fixtures.{router, reviewer, llm_result}

complete_lem_example :
    Direct router (bytes "q") (bytes "{}") (bytes "p")
    ⊎ ((e : Error) × (q : Provider) × FellBack router (bytes "q") e q (bytes "{}") (bytes "p"))
unfolding complete
complete_lem_example = complete_lem router (bytes "q") {out = bytes "{}"} {model = bytes "p"} refl

abbrev the_review : ReviewResult
the_review =
    enrich_result reviewer.sha256_hex reviewer.ids llm_result (bytes "p") (bytes "p:ok" ∷ [])
      (record { low_confidence = 0; bad_path = 0; invalid = 0 }) (bytes "critic-v1")
