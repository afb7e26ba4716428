-- ===== src/Worker/Success.antt =====
-- What a run of the pipeline that succeeds has done.
use agent_frei_igi.Prelude.{
  ◌≡◌, refl, ◌∙◌, ap, Text, bytes, some, Result, ok, err, Action, continue, ◌>>=◌, ◌>>◌, wrap,
  wrapping, pure, arith, subst,
}
use agent_frei_igi.Domain.{ReviewJob, ReviewContext}
use agent_frei_igi.Store.Db
use agent_frei_igi.Store.Db.{Db}
use agent_frei_igi.Critic.{ReviewResult}
use agent_frei_igi.Critic.Review.{review}
use agent_frei_igi.Detective.Build.{build}
use agent_frei_igi.Diplomat.Publish.{publish}
use agent_frei_igi.World.{World, on_db}
use agent_frei_igi.Worker.Held.{HeldIn, guard-HeldIn}
use agent_frei_igi.Worker.{
  WorkerConfig, guard, lift, detective_stage, memory_stage, critic_stage, diplomat_stage,
  run_pipeline,
}

wrap-ok : {A : Type 0} (m : Text) (r : Result A) {a : A} → wrap m r ≡ ok a → r ≡ ok a
wrap-ok m (ok x) h = h
wrap-ok m (err e) h = cc

ok-inj : {A : Type 0} {a b : A} → ok a ≡ ok b → a ≡ b
ok-inj h = ground arith

whole : {A : Type 0} (p : Result A × World) {a : A} → p.0 ≡ ok a → p ≡ (ok a, p.1)
whole p e = ap (λ r. (r, p.1)) e

module _ {A B : Type 0} where
  continue-ok :
      (r : Result A) (f : A → Action World B) (w : World) {b : B} {final : World}
      → continue r f w ≡ (ok b, final)
      → (a : A) × (r ≡ ok a) × (f a w ≡ (ok b, final))
  continue-ok (ok a) f w h = (a, refl, h)
  continue-ok (err e) f w h = cc

  -- What an action that ends well did first, and what it did then.
  bind-ok :
      (m : Action World A) (f : A → Action World B) (w : World) {b : B} {final : World}
      → (m >>= f) w ≡ (ok b, final)
      → (a : A) × ((m w).0 ≡ ok a) × (f a (m w).1 ≡ (ok b, final))
  bind-ok m f w h = continue-ok (m w).0 f (m w).1 h

  -- The same, for an action whose errors are wrapped.
  wrapped-ok :
      (m : Text) (act : Action World A) (f : A → Action World B) (w : World) {b : B} {final : World}
      → (wrapping m act >>= f) w ≡ (ok b, final)
      → (a : A) × (act w ≡ (ok a, (act w).1)) × (f a (act w).1 ≡ (ok b, final))
  wrapped-ok m act f w h =
      let (a, done, rest) = bind-ok (wrapping m act) f w h in
      (a, whole (act w) (wrap-ok m (act w).0 done), rest)

  -- And for a result that takes no step.
  lifted-ok :
      (m : Text) (r : Result A) (f : A → Action World B) (w : World) {b : B} {final : World}
      → (lift (wrap m r) >>= f) w ≡ (ok b, final)
      → (a : A) × (r ≡ ok a) × (f a w ≡ (ok b, final))
  lifted-ok m r f w h =
      let (a, done, rest) = bind-ok (lift (wrap m r)) f w h in (a, wrap-ok m r done, rest)

  step-ok :
      (act : Action World A) (f : A → Action World B) (w : World) {b : B} {final : World}
      → (act >>= f) w ≡ (ok b, final)
      → (a : A) × (act w ≡ (ok a, (act w).1)) × (f a (act w).1 ≡ (ok b, final))
  step-ok act f w h = let (a, done, rest) = bind-ok act f w h in (a, whole (act w) done, rest)

module _ (cfg : WorkerConfig) (job : ReviewJob) where
  abbrev save_context : Text → Action World (Unit {0})
  save_context blob =
      on_db (Db.update_job_context job.id job.lock_generation cfg.worker_id (some blob))

  abbrev save_result : ReviewResult → Text → Action World (Unit {0})
  save_result result blob = on_db (
      Db.update_job_result job.id job.lock_generation cfg.worker_id (some blob)
        result.prompt_version)

  -- Detective's stage, as the steps that lead from `w` to `final`.
  pub record Built (w : World) (ctx : ReviewContext) (final : World) : Type 0 where
    pub admitted : World
    pub gathered : World
    pub context_blob : Text
    pub guarded : guard cfg job w ≡ (ok tt, admitted)
    pub held : HeldIn cfg job admitted.db.jobs
    pub built : build cfg.detective job admitted ≡ (ok ctx, gathered)
    pub marshalled : cfg.marshal_context ctx ≡ ok context_blob
    pub saved :
        Db.update_job_context job.id job.lock_generation cfg.worker_id
          (some context_blob)
          gathered.db
        ≡ (ok tt, final.db)
    pub only_db : final ≡ record gathered { db = final.db }

  -- Critic's stage.
  pub record Reviewed (w : World) (ctx : ReviewContext) (result : ReviewResult) (blob : Text)
      (final : World) : Type 0 where
    pub admitted : World
    pub guarded : guard cfg job w ≡ (ok tt, admitted)
    pub held : HeldIn cfg job admitted.db.jobs
    pub reviewed : review cfg.critic ctx ≡ ok result
    pub marshalled : cfg.marshal_result result ≡ ok blob
    pub saved :
        Db.update_job_result job.id job.lock_generation cfg.worker_id
          (some blob)
          result.prompt_version
          admitted.db
        ≡ (ok tt, final.db)
    pub only_db : final ≡ record admitted { db = final.db }

  -- Diplomat's stage.
  pub record Published (w : World) (result : ReviewResult) (final : World) : Type 0 where
    pub admitted : World
    pub guarded : guard cfg job w ≡ (ok tt, admitted)
    pub held : HeldIn cfg job admitted.db.jobs
    pub published : publish cfg.diplomat job result admitted ≡ (ok tt, final)

  -- A whole run from `w` to `final` that gave `blob`.
  pub record Ran (w : World) (blob : Text) (final : World) : Type 0 where
    pub ctx : ReviewContext
    pub result : ReviewResult
    pub with_context : World
    pub waited : World
    pub with_result : World
    pub sent : World
    pub built : Built w ctx with_context
    pub remembered : memory_stage cfg job with_context ≡ (ok tt, waited)
    pub reviewed : Reviewed waited ctx result blob with_result
    pub published : Published with_result result sent
    pub guarded : guard cfg job sent ≡ (ok tt, final)
    pub held : HeldIn cfg job final.db.jobs

  detective_stage-Built :
      (w : World) {ctx : ReviewContext} {final : World}
      → detective_stage cfg job w ≡ (ok ctx, final)
      → Built w ctx final
  unfolding detective_stage
  detective_stage-Built w {ctx} {final} h =
      let w₁ = (guard cfg job w).1 in
      let w₂ = (build cfg.detective job w₁).1 in
      let (u, guarded, h₁) = step-ok (guard cfg job) _ w h in
      let (c, built, h₂) =
        wrapped-ok (bytes "detective stage failed") (build cfg.detective job) _ w₁ h₁ in
      let (blob, marshalled, h₃) =
        lifted-ok (bytes "failed to marshal review context") (cfg.marshal_context c)
          (λ b. wrapping (bytes "failed to save review context") (save_context b) >> pure c) w₂
          h₂ in
      let (v, saved, h₄) =
        wrapped-ok (bytes "failed to save review context") (save_context blob) (λ _. pure c) w₂
          h₃ in
      let same : c ≡ ctx = ok-inj (ap (λ p. p.0) h₄) in
      let last : (save_context blob w₂).1 ≡ final = ap (λ p. p.1) h₄ in
      subst (Built w ctx) last (
        subst (λ (x : ReviewContext). Built w x (save_context blob w₂).1) same
          (record {
            admitted = w₁;
            gathered = w₂;
            context_blob = blob;
            guarded = guarded;
            held = guard-HeldIn cfg job w guarded;
            built = built;
            marshalled = marshalled;
            saved = ap (λ p. (p.0, p.1.db)) saved;
            only_db = refl;
          }))

  critic_stage-Reviewed :
      (ctx : ReviewContext) (w : World) {reviewed : ReviewResult × Text} {final : World}
      → critic_stage cfg job ctx w ≡ (ok reviewed, final)
      → Reviewed w ctx reviewed.0 reviewed.1 final
  unfolding critic_stage
  critic_stage-Reviewed ctx w {reviewed} {final} h =
      let w₁ = (guard cfg job w).1 in
      let (u, guarded, h₁) = step-ok (guard cfg job) _ w h in
      let (r, made, h₂) =
        lifted-ok (bytes "critic stage failed") (review cfg.critic ctx)
          (λ r. do
            b ← lift (wrap (bytes "failed to marshal critic result") (cfg.marshal_result r))
            wrapping (bytes "failed to save critic result") (save_result r b)
            pure (r, b))
          w₁ h₁ in
      let (b, marshalled, h₃) =
        lifted-ok (bytes "failed to marshal critic result") (cfg.marshal_result r)
          (λ b. wrapping (bytes "failed to save critic result") (save_result r b) >> pure (r, b)) w₁
          h₂ in
      let (v, saved, h₄) =
        wrapped-ok (bytes "failed to save critic result") (save_result r b) (λ _. pure (r, b)) w₁
          h₃ in
      let same : (r, b) ≡ reviewed = ok-inj (ap (λ p. p.0) h₄) in
      let last : (save_result r b w₁).1 ≡ final = ap (λ p. p.1) h₄ in
      subst (Reviewed w ctx reviewed.0 reviewed.1) last (
        subst (λ (p : ReviewResult × Text). Reviewed w ctx p.0 p.1 (save_result r b w₁).1) same
          (record {
            admitted = w₁;
            guarded = guarded;
            held = guard-HeldIn cfg job w guarded;
            reviewed = made;
            marshalled = marshalled;
            saved = ap (λ p. (p.0, p.1.db)) saved;
            only_db = refl;
          }))

  diplomat_stage-Published :
      (result : ReviewResult) (w : World) {u : Unit {0}} {final : World}
      → diplomat_stage cfg job result w ≡ (ok u, final)
      → Published w result final
  unfolding diplomat_stage
  diplomat_stage-Published result w {u} {final} h =
      let w₁ = (guard cfg job w).1 in
      let (v, guarded, h₁) = step-ok (guard cfg job) _ w h in
      let done =
        wrap-ok (bytes "diplomat stage failed") (publish cfg.diplomat job result w₁).0
          (ap (λ p. p.0) h₁) in
      let last : (publish cfg.diplomat job result w₁).1 ≡ final = ap (λ p. p.1) h₁ in
      record {
        admitted = w₁;
        guarded = guarded;
        held = guard-HeldIn cfg job w guarded;
        published = whole (publish cfg.diplomat job result w₁) done ∙ ap (λ v. (ok tt, v)) last;
      }

  -- A run of the pipeline gives a blob only if all these steps succeeded, each from where the one before
  -- ended, and no other step was taken: with the job held, the context was built, encoded and saved under
  -- this claim; Memory's stage passed; with the job held, the result was Critic's for that context, and the
  -- blob, its encoding, was saved under this claim; with the job held, that result was published; and the
  -- job was still held after that. Held means that the table has it as running, under this worker and the
  -- generation of its claim.
  pub run_pipeline-Ran :
      (w : World) {blob : Text} {final : World}
      → run_pipeline cfg job w ≡ (ok blob, final)
      → Ran w blob final
  unfolding run_pipeline
  run_pipeline-Ran w {blob} {final} h =
      let w₁ = (detective_stage cfg job w).1 in
      let w₂ = (memory_stage cfg job w₁).1 in
      let (ctx, built, h₁) = step-ok (detective_stage cfg job) _ w h in
      let (u, waited, h₂) = step-ok (memory_stage cfg job) _ w₁ h₁ in
      let (reviewed, made, h₃) =
        step-ok (critic_stage cfg job ctx)
          (λ r. do diplomat_stage cfg job r.0; guard cfg job; pure r.1) w₂ h₂ in
      let w₃ = (critic_stage cfg job ctx w₂).1 in
      let (v, sent, h₄) =
        step-ok (diplomat_stage cfg job reviewed.0) (λ _. guard cfg job >> pure reviewed.1) w₃ h₃ in
      let w₄ = (diplomat_stage cfg job reviewed.0 w₃).1 in
      let (x, held, h₅) = step-ok (guard cfg job) (λ _. pure reviewed.1) w₄ h₄ in
      let same : reviewed.1 ≡ blob = ok-inj (ap (λ p. p.0) h₅) in
      let last_look : guard cfg job w₄ ≡ (ok tt, final) =
        held ∙ ap (λ (p : Result Text × World). (ok tt, p.1)) h₅ in
      record {
        ctx = ctx;
        result = reviewed.0;
        with_context = w₁;
        waited = w₂;
        with_result = w₃;
        sent = w₄;
        built = detective_stage-Built w built;
        remembered = waited;
        reviewed =
            subst (λ (b : Text). Reviewed w₂ ctx reviewed.0 b w₃) same
              (critic_stage-Reviewed ctx w₂ made);
        published = diplomat_stage-Published reviewed.0 w₃ sent;
        guarded = last_look;
        held = guard-HeldIn cfg job w₄ last_look;
      }
