-- ===== src/Llm.antt =====
-- internal/llm: the router, the classification of errors, and the capped output buffer. What a command
-- prints is an argument.
pub mod Buffer
pub mod Cli
use agent_frei_igi.Prelude.{
  ℕ, ◌≡◌, refl, Bool, true, false, ◌||◌, Text, bytes, contains, to_lower, Option, none, some, List,
  [], ◌∷◌, ◌++◌, Result, ok, err, Error, message, wrapped, rate_limited, session_dead, error_text,
  if◌then◌else◌, arith, ◌≢◌, ◌⊎◌, inl, inr,
}

-- Provider, with what it answers to a prompt
pub record Provider : Type 0 where
  pub name : Text
  pub complete : Text → Result Text

-- Router
pub record Router : Type 0 where
  pub primary : Provider
  pub fallback : Option Provider

-- The output and the provider that gave it, or an error; and the attempts.
pub record Completion : Type 0 where
  pub answer : Result (Text × Text)
  pub attempts : List Text

abbrev pub succeeded : Provider → Text
succeeded p = p.name ++ bytes ":ok"

abbrev pub failed_attempt : Provider → Text
failed_attempt p = p.name ++ bytes ":fail"

abbrev second : Provider → Provider → Error → Result Text → Completion
second p q e (ok out) = record {
  answer = ok (out, q.name);
  attempts = failed_attempt p ∷ succeeded q ∷ [];
}
second p q e (err f) = record {
  answer = err (
      message (
        bytes "both primary and fallback failed. primary err: "
        ++ error_text e
        ++ bytes ", fallback err: "
        ++ error_text f));
  attempts = failed_attempt p ∷ failed_attempt q ∷ [];
}

abbrev fall_back : Provider → Option Provider → Text → Error → Completion
fall_back p none prompt e = record {
  answer = err (wrapped (bytes "primary provider failed (no fallback configured)") e);
  attempts = failed_attempt p ∷ [];
}
fall_back p (some q) prompt e = second p q e (q.complete prompt)

abbrev first : Provider → Option Provider → Text → Result Text → Completion
first p q prompt (ok out) = record { answer = ok (out, p.name); attempts = succeeded p ∷ [] }
first p q prompt (err e) = fall_back p q prompt e

-- Complete
unfoldable pub complete : Router → Text → Completion
complete r prompt = first r.primary r.fallback prompt (r.primary.complete prompt)

-- One of the two texts has one of the words.
abbrev mentions : Text → Text → List Text → Bool
mentions s t [] = false
mentions s t (p ∷ ps) = contains s p || contains t p || mentions s t ps

-- classifyError, for an error; `ctx` is `ctx.Err()`
unfoldable pub classify_error : Text → Option Error → Error → Text → Error
classify_error name (some c) e stderr = c
classify_error name none e stderr =
    let s = to_lower stderr in
    let t = to_lower (error_text e) in
    if mentions s t (bytes "rate limit" ∷ bytes "429" ∷ bytes "quota" ∷ [])
    then rate_limited
    else if mentions s t (bytes "login" ∷ bytes "unauthorized" ∷ bytes "auth" ∷ [])
    then session_dead
    else wrapped (bytes "CLI provider error (" ++ name ++ bytes ")") e

second_lem :
    (p q : Provider) (e : Error) (x : Result Text) {out model : Text}
    → (second p q e x).answer ≡ ok (out, model)
    → (x ≡ ok out)
      × (model ≡ q.name)
      × ((second p q e x).attempts ≡ failed_attempt p ∷ succeeded q ∷ [])
second_lem p q e (ok o) h = (ground arith, ground arith, refl)
second_lem p q e (err f) h = cc

-- The fallback answered, after the primary failed with `e`.
pub record FellBack (r : Router) (prompt : Text) (e : Error) (q : Provider) (out model : Text)
    : Type 0 where
  pub primary_failed : r.primary.complete prompt ≡ err e
  pub configured : r.fallback ≡ some q
  pub answered : q.complete prompt ≡ ok out
  pub named : model ≡ q.name
  pub recorded : (complete r prompt).attempts ≡ failed_attempt r.primary ∷ succeeded q ∷ []

-- The primary answered.
pub record Direct (r : Router) (prompt out model : Text) : Type 0 where
  pub answered : r.primary.complete prompt ≡ ok out
  pub named : model ≡ r.primary.name
  pub recorded : (complete r prompt).attempts ≡ succeeded r.primary ∷ []

fall_back_lem :
    (r : Router) (prompt : Text) (e : Error) (f : Option Provider) {out model : Text}
    → r.primary.complete prompt ≡ err e
    → r.fallback ≡ f
    → (fall_back r.primary f prompt e).answer ≡ ok (out, model)
    → (q : Provider) × FellBack r prompt e q out model
unfolding complete
fall_back_lem r prompt e none failed configured h = cc
fall_back_lem r prompt e (some q) failed configured h =
    let (answered, named, recorded) = second_lem r.primary q e (q.complete prompt) h in
    (
      q,
      record {
        primary_failed = failed;
        configured = configured;
        answered = answered;
        named = named;
        recorded = rw (failed, configured) recorded;
      },
    )

first_lem :
    (r : Router) (prompt : Text) (x : Result Text) {out model : Text}
    → r.primary.complete prompt ≡ x
    → (first r.primary r.fallback prompt x).answer ≡ ok (out, model)
    → Direct r prompt out model ⊎ ((e : Error) × (q : Provider) × FellBack r prompt e q out model)
unfolding complete
first_lem r prompt (ok o) e h =
    inl (record { answered = ground arith; named = ground arith; recorded = rw e })
first_lem r prompt (err f) e h =
    let (q, fell) = fall_back_lem r prompt f r.fallback e refl h in inr (f, q, fell)

-- An output that the router returns is the one of the provider that it names, to the same prompt; that
-- is the fallback only after the primary failed, and the attempts record exactly the calls made.
pub complete_lem :
    (r : Router) (prompt : Text) {out model : Text}
    → (complete r prompt).answer ≡ ok (out, model)
    → Direct r prompt out model ⊎ ((e : Error) × (q : Provider) × FellBack r prompt e q out model)
unfolding complete
complete_lem r prompt h = first_lem r prompt (r.primary.complete prompt) refl h
