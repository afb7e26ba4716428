-- ===== src/Diplomat/Publish/Grant.antt =====
-- BeginPublication (internal/store/postgres/store.go): the slot of a job before and after.
use agent_frei_igi.Prelude.{
  ℕ, ◌≡◌, refl, inl, inr, Bool, true, false, Option, [], ◌∷◌, ◌++◌, arith, Result, ok, err,
  Bool-cases, publication_exists,
}
use agent_frei_igi.Domain.{ReviewPublication, PublisherKind}
use agent_frei_igi.Store.Publications
use agent_frei_igi.Store.Rows.{any_row}
use agent_frei_igi.Store.Publications.{
  reserved, of_job, reserved-update, publish_row, fail_publication_row,
}
use agent_frei_igi.Store.Db.{Db, query}
use agent_frei_igi.Store.Db.Rules.{query_rule, IsReserved, IsReserved-survives}
use agent_frei_igi.Store.Publishing
use agent_frei_igi.Store.Publishing.{insert_publication, publication_references, unique_or_wrapped}

-- Whether BeginPublication grants the slot, it is taken afterwards.
abbrev pub Granted : ℕ → Result ReviewPublication × Db → Type 0
Granted job (ok row, db) = IsReserved job db
Granted job (err e, db) = Unit

-- Where the slot was taken before, BeginPublication refuses.
abbrev pub Refused : ℕ → Result ReviewPublication × Db → Type 0
Refused job (ok row, db) = ⊥
Refused job (err e, db) = IsReserved job db

pub reserved-snoc :
    (job : ℕ) (pubs : Publications.Publications) (row : ReviewPublication)
    → row.job_id ≡ job
    → reserved job (pubs ++ row ∷ []) ≡ true
unfolding reserved
reserved-snoc job [] row e = ground arith
reserved-snoc job (p ∷ pubs) row e = ground (arith, reserved-snoc job pubs row)

module _ (job : ℕ) (account : Option ℕ) (kind : PublisherKind) where
  abbrev pub begin_statement : Db → Result ReviewPublication × Db
  begin_statement d =
      insert_publication (publication_references job account d)
        (Publications.begin_publication d.serial d.now job account kind d.publications) d

  -- After the insertion, or its refusal, the slot is taken.
  pub begin_publication-reserved :
      (fresh now : ℕ) (pubs : Publications.Publications)
      → reserved job (Publications.begin_publication fresh now job account kind pubs).1 ≡ true
  unfolding Publications.begin_publication reserved
  begin_publication-reserved fresh now pubs = elim (Bool-cases (any_row (of_job job) pubs)) [
    | inl held ↦ rw (held, held)
    | inr free ↦ rw free (reserved-snoc job pubs _ refl)
  ]

  pub insert-Granted :
      (refs : Bool) (r : Result ReviewPublication × Publications.Publications) (db : Db)
      → reserved job r.1 ≡ true
      → Granted job (insert_publication refs r db)
  insert-Granted true (ok row, pubs) db h = h
  insert-Granted false (ok row, pubs) db h = tt
  insert-Granted refs (err e, pubs) db h = tt

  pub begin_statement-Granted : (db : Db) → Granted job (begin_statement db)
  begin_statement-Granted db =
      insert-Granted (publication_references job account db)
        (Publications.begin_publication db.serial db.now job account kind db.publications) db
        (begin_publication-reserved db.serial db.now db.publications)

  pub begin_statement-Refused : (db : Db) → IsReserved job db → Refused job (begin_statement db)
  unfolding Publications.begin_publication reserved
  begin_statement-Refused db h = rw h h

pub begin_statement-kept :
    (job : ℕ) (account : Option ℕ) (kind : PublisherKind) (db : Db)
    → IsReserved job db
    → IsReserved job (begin_statement job account kind db).1
unfolding Publications.begin_publication reserved
begin_statement-kept job account kind db h = rw h h

pub translate-Granted :
    (job : ℕ) (r : Result ReviewPublication) (db : Db)
    → Granted job (r, db)
    → Granted job (unique_or_wrapped r, db)
translate-Granted job (ok row) db h = h
translate-Granted job (err publication_exists) db h = tt
translate-Granted job (err _) db h = tt

pub translate-Refused :
    (job : ℕ) (r : Result ReviewPublication) (db : Db)
    → Refused job (r, db)
    → Refused job (unique_or_wrapped r, db)
translate-Refused job (ok row) db h = h
translate-Refused job (err publication_exists) db h = h
translate-Refused job (err _) db h = h

module _ (job : ℕ) (account : Option ℕ) (kind : PublisherKind) where
  pub begin-Granted : (db : Db) → Granted job (Publishing.begin_publication job account kind db)
  unfolding Publishing.begin_publication
  begin-Granted db =
      let q = query (begin_statement job account kind) db in
      translate-Granted job q.0 q.1 (
        query_rule (λ d. Unit {0}) (Granted job) (begin_statement job account kind) (λ m ms d h. tt)
          (λ d h. begin_statement-Granted job account kind d) (λ d e h. tt) (λ d e h. tt) db tt)

  pub begin-Refused :
      (db : Db) → IsReserved job db → Refused job (Publishing.begin_publication job account kind db)
  unfolding Publishing.begin_publication
  begin-Refused db h =
      let q = query (begin_statement job account kind) db in
      translate-Refused job q.0 q.1 (
        query_rule (IsReserved job) (Refused job) (begin_statement job account kind)
          (IsReserved-survives job) (λ d p. begin_statement-Refused job account kind d p)
          (λ d e p. p) (λ d e p. begin_statement-kept job account kind d p) db h)
