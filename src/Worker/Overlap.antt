-- ===== src/Worker/Overlap.antt =====
-- Workers (internal/worker) whose attempts to publish one job (internal/diplomat/publish.go) overlap. An
-- attempt stops between the reply to its BeginPublication and what it does with the reply; meanwhile
-- others reserve, go on with the replies that they have, or run the job as a whole.
use agent_frei_igi.Prelude.{
  ℕ, zero, suc, ◌+◌, ◌≤◌, ◌≡◌, refl, sym, subst, inl, inr, Option, none, some, List, [], ◌∷◌, arith,
  Result, ok, err, Error, Bool-cases, All, ltb, ltb→lt, not_ltb→le, Option-cases,
  is_publication_exists,
}
use agent_frei_igi.Domain.{ReviewJob, ReviewPublication}
use agent_frei_igi.Store.Db.Rules.{IsReserved}
use agent_frei_igi.Store.Publishing
use agent_frei_igi.Critic.{ReviewResult}
use agent_frei_igi.World.{World}
use agent_frei_igi.Detective.Build.{owner_and_repo}
use agent_frei_igi.Diplomat.Publish.{PublisherConfig, Credentials, begun, reserve_and_post}
use agent_frei_igi.Diplomat.Publish.Quiet.{posts, Quiet, fail-Quiet}
use agent_frei_igi.Diplomat.Publish.Grant.{Granted, Refused, begin-Granted, begin-Refused}
use agent_frei_igi.Diplomat.Publish.Steps.{begin-Quiet}
use agent_frei_igi.Diplomat.Publish.Parts.{existing-Quiet, if-Quiet}
use agent_frei_igi.Diplomat.Publish.Once.{Fenced, post_review-sends}
use agent_frei_igi.Worker.{process}
use agent_frei_igi.Worker.Once.{Run, process-Fenced}

-- One worker at the point where it reserves the slot.
pub record Attempt : Type 0 where
  pub config : PublisherConfig
  pub job : ReviewJob
  pub result : ReviewResult
  pub credentials : Credentials

-- What happens next: a whole run of the job, a worker's BeginPublication, or that the worker with the
-- n-th outstanding reply goes on.
pub data Event : Type 0 where
  whole : Run → Event
  reserve : Attempt → Event
  go_on : ℕ → Event

abbrev pub Replied : Type 0
Replied = Attempt × Result ReviewPublication

module _ {A : Type 0} where
  abbrev behind : A → Option (A × List A) → Option (A × List A)
  behind x none = none
  behind x (some (y, ys)) = some (y, x ∷ ys)

  abbrev pick : ℕ → List A → Option (A × List A)
  pick n [] = none
  pick zero (x ∷ xs) = some (x, xs)
  pick (suc n) (x ∷ xs) = behind x (pick n xs)

abbrev proceed : List Replied → Option (Replied × List Replied) → World → World × List Replied
proceed waiting none w = (w, waiting)
proceed waiting (some ((a, reply), rest)) w =
    ((begun a.config a.job a.result a.credentials reply w).1, rest)

abbrev pub step : Event → World → List Replied → World × List Replied
step (whole r) w waiting = ((process r.config r.job r.parent w).1, waiting)
step (reserve a) w waiting =
    let (reply, db) =
      Publishing.begin_publication a.job.id a.credentials.account a.credentials.kind w.db in
    (record w { db = db }, (a, reply) ∷ waiting)
step (go_on n) w waiting = proceed waiting (pick n waiting) w

unfoldable pub schedule : List Event → World → List Replied → World
schedule [] w waiting = w
schedule (e ∷ es) w waiting = let (w', waiting') = step e w waiting in schedule es w' waiting'

-- A worker that is not interrupted does what Publish does from there.
uninterrupted :
    (a : Attempt) (w : World) (waiting : List Replied)
    → schedule (reserve a ∷ go_on 0 ∷ []) w waiting
      ≡ (reserve_and_post a.config a.job a.result a.credentials w).1
unfolding schedule reserve_and_post
uninterrupted a w waiting = refl

-- The slots that were granted to workers that have not gone on yet.
abbrev granted_one : Result ReviewPublication → ℕ
granted_one (ok p) = 1
granted_one (err e) = 0

abbrev granted : List Replied → ℕ
granted [] = 0
granted ((a, reply) ∷ waiting) = granted_one reply + granted waiting

abbrev IsOn : ℕ → Event → Type 0
IsOn job (whole r) = r.job.id ≡ job
IsOn job (reserve a) = a.job.id ≡ job
IsOn job (go_on n) = Unit

abbrev AreOn : ℕ → List Replied → Type 0
AreOn job = All (λ x. x.0.job.id ≡ job)

-- At most `most` reviews were sent or can be: none can yet, or the slot is taken.
data Safe (job most : ℕ) (w : World) (waiting : List Replied) : Type 0 where
  free : granted waiting ≡ 0 → posts w + 1 ≤ most → Safe job most w waiting
  taken : IsReserved job w.db → posts w + granted waiting ≤ most → Safe job most w waiting

Safe-posts :
    {job most : ℕ} {w : World} {waiting : List Replied} → Safe job most w waiting → posts w ≤ most
Safe-posts (free none_out few) = omega (arith, few)
Safe-posts (taken held few) = omega (arith, few)

some-inj : {A : Type 0} {x y : A} → some x ≡ some y → x ≡ y
some-inj e = ground arith

record Picked (job : ℕ) (waiting : List Replied) (a : Attempt) (reply : Result ReviewPublication)
    (rest : List Replied) : Type 0 where
  counted : granted waiting ≡ granted_one reply + granted rest
  on_job : a.job.id ≡ job
  rest_on_job : AreOn job rest

pick-Picked :
    (job n : ℕ) (waiting : List Replied) {a : Attempt} {reply : Result ReviewPublication}
    {rest : List Replied}
    → AreOn job waiting
    → pick n waiting ≡ some ((a, reply), rest)
    → Picked job waiting a reply rest
pick-Picked job n [] on e = cc
pick-Picked job zero ((b, r) ∷ waiting) {a} {reply} {rest} on e =
    let same : ((b, r), waiting) ≡ ((a, reply), rest) = some-inj e in
    subst (λ (x : Replied × List Replied). Picked job ((b, r) ∷ waiting) x.0.0 x.0.1 x.1) same
      (record { counted = refl; on_job = on.0; rest_on_job = on.1 })
pick-Picked job (suc n) ((b, r) ∷ waiting) {a} {reply} {rest} on e =
    elim (Option-cases (pick n waiting)) [
      | inl nothing ↦ absurd (cc (rw nothing at e))
      | inr (((c, q), left), found) ↦
          let p = pick-Picked job n waiting on.1 found in
          let same : ((c, q), (b, r) ∷ left) ≡ ((a, reply), rest) = some-inj (rw found at e) in
          subst (λ (x : Replied × List Replied). Picked job ((b, r) ∷ waiting) x.0.0 x.0.1 x.1) same
            (record {
              counted = omega (arith, p.counted);
              on_job = p.on_job;
              rest_on_job = (on.0, p.rest_on_job);
            })
    ]

module _ (job most : ℕ) where
  whole-Safe :
      (w w' : World) (waiting : List Replied)
      → Fenced job w w'
      → Safe job most w waiting
      → Safe job most w' waiting
  whole-Safe w w' waiting f (free none_out few) = elim (Bool-cases (ltb (posts w) (posts w'))) [
    | inl sent ↦
        taken (f.reserved_if_sent (ltb→lt (posts w) (posts w') sent))
          (omega (arith, f.one_at_most, few, none_out))
    | inr quiet ↦ free none_out (omega (arith, not_ltb→le (posts w) (posts w') quiet, few))
  ]
  whole-Safe w w' waiting f (taken held few) =
      taken (f.stays_reserved held) (omega (arith, f.none_if_reserved held, few))

  reserve-Safe :
      (a : Attempt) (w w' : World) (reply : Result ReviewPublication) (waiting : List Replied)
      → Granted job (reply, w'.db)
      → (IsReserved job w.db → Refused job (reply, w'.db))
      → posts w' ≡ posts w
      → Safe job most w waiting
      → Safe job most w' ((a, reply) ∷ waiting)
  reserve-Safe a w w' (ok row) waiting grants refuses same (free none_out few) =
      taken grants (omega (arith, none_out, few, same))
  reserve-Safe a w w' (err e) waiting grants refuses same (free none_out few) =
      free (omega (arith, none_out)) (omega (arith, few, same))
  reserve-Safe a w w' (ok row) waiting grants refuses same (taken held few) = absurd (refuses held)
  reserve-Safe a w w' (err e) waiting grants refuses same (taken held few) =
      taken (refuses held) (omega (arith, few, same))

  refused-Quiet :
      (a : Attempt) (e : Error)
      → Quiet a.job.id (begun a.config a.job a.result a.credentials (err e))
  refused-Quiet a e =
      if-Quiet a.job.id (is_publication_exists e) _ _ (existing-Quiet a.job e)
        (fail-Quiet a.job.id _)

  go_on-Safe :
      (a : Attempt) (reply : Result ReviewPublication) (w : World) (waiting rest : List Replied)
      → Picked job waiting a reply rest
      → Safe job most w waiting
      → Safe job most (begun a.config a.job a.result a.credentials reply w).1 rest
  go_on-Safe a (ok row) w waiting rest p (free none_out few) =
      absurd (omega (arith, p.counted, none_out))
  go_on-Safe a (ok row) w waiting rest p (taken held few) =
      let (sends, held') =
        post_review-sends a.config a.job a.result a.credentials
          (owner_and_repo a.job.repo_full_name) w
          (subst (λ (i : ℕ). IsReserved i w.db) (sym p.on_job) held) in
      let w' = (begun a.config a.job a.result a.credentials (ok row) w).1 in
      taken (subst (λ (i : ℕ). IsReserved i w'.db) p.on_job held')
        (omega (arith, sends, few, p.counted))
  go_on-Safe a (err e) w waiting rest p (free none_out few) =
      let (same, kept) = (refused-Quiet a e).at w in
      free (omega (arith, p.counted, none_out)) (omega (arith, same, few))
  go_on-Safe a (err e) w waiting rest p (taken held few) =
      let (same, kept) = (refused-Quiet a e).at w in
      let w' = (begun a.config a.job a.result a.credentials (err e) w).1 in
      let held' = kept (subst (λ (i : ℕ). IsReserved i w.db) (sym p.on_job) held) in
      taken (subst (λ (i : ℕ). IsReserved i w'.db) p.on_job held')
        (omega (arith, same, few, p.counted))

  step-Safe :
      (e : Event) (w : World) (waiting : List Replied)
      → IsOn job e
      → AreOn job waiting
      → Safe job most w waiting
      → AreOn job (step e w waiting).1 × Safe job most (step e w waiting).0 (step e w waiting).1
  step-Safe (whole r) w waiting on all s =
      let w' = (process r.config r.job r.parent w).1 in
      let f : Fenced job w w' =
        subst (λ (i : ℕ). Fenced i w w') on (process-Fenced r.config r.job r.parent w) in
      (all, whole-Safe w w' waiting f s)
  step-Safe (reserve a) w waiting on all s =
      let c = a.credentials in
      let b = Publishing.begin_publication a.job.id c.account c.kind w.db in
      let w' = record w { db = b.1 } in
      let grants : Granted job (b.0, b.1) =
        subst (λ (i : ℕ). Granted i (b.0, b.1)) on (begin-Granted a.job.id c.account c.kind w.db) in
      let refuses : IsReserved job w.db → Refused job (b.0, b.1) =
        subst (λ (i : ℕ). IsReserved i w.db → Refused i (b.0, b.1)) on
          (begin-Refused a.job.id c.account c.kind w.db) in
      let q = (begin-Quiet a.job.id c.account c.kind).at w in
      ((on, all), reserve-Safe a w w' b.0 waiting grants refuses q.0 s)
  step-Safe (go_on n) w waiting on all s = elim (Option-cases (pick n waiting)) [
    | inl nothing ↦ rw nothing (all, s)
    | inr (((a, reply), rest), found) ↦
        let p = pick-Picked job n waiting all found in
        rw found (p.rest_on_job, go_on-Safe a reply w waiting rest p s)
  ]

  schedule-Safe :
      (es : List Event) (w : World) (waiting : List Replied)
      → All (IsOn job) es
      → AreOn job waiting
      → Safe job most w waiting
      → posts (schedule es w waiting) ≤ most
  unfolding schedule
  schedule-Safe [] w waiting on all s = Safe-posts s
  schedule-Safe (e ∷ es) w waiting on all s =
      let (all', s') = step-Safe e w waiting on.0 all s in
      schedule-Safe es (step e w waiting).0 (step e w waiting).1 on.1 all' s'

-- However many workers process a job, as whole runs, with heartbeats, shutdowns, failures and statements
-- of others anywhere, or in attempts to publish that overlap, each reserving and going on with its reply
-- in any order with what the others do, one review at most is sent to GitHub for it, and none if its
-- publication was reserved before.
pub overlapping_once :
    (job : ℕ) (es : List Event) (w : World)
    → All (IsOn job) es
    → (posts (schedule es w []) ≤ posts w + 1)
      × (IsReserved job w.db → posts (schedule es w []) ≤ posts w)
overlapping_once job es w on = (
  schedule-Safe job (posts w + 1) es w [] on tt (free refl (omega arith)),
  λ held. schedule-Safe job (posts w) es w [] on tt (taken held (omega arith)),
)
