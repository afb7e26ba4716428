-- ===== src/Store/Migrate/Replay.antt =====
-- Migrate (internal/store/postgres/store.go): the tables are what the recorded scripts make of them.
use agent_frei_igi.Prelude.{
  ◌≡◌, refl, sym, ap, ◌⊎◌, inl, inr, Bool, true, false, Text, bytes, List, [], ◌∷◌, ◌++◌, Result,
  ok, err, message, if◌then◌else◌, Error, wrap, wrapping, Action, continue, ◌>>=◌, ◌>>◌, All,
  All-map, Bool-cases, subst,
}
use agent_frei_igi.Store.Db.{Link, up, down, unacknowledged}
use agent_frei_igi.Store.Migrate.{
  Entry, Schema, has_version, link_of, next, answered, touch, settled, create_tracking, is_applied,
  insert_version, commit, transaction, apply, apply_unless, migrate_entry, migrate_all, migrate,
}

abbrev pub In : Entry → List Entry → Type 0
In e [] = ⊥
In e (x ∷ xs) = (x ≡ e) ⊎ In e xs

-- What a list of versions makes of the first tables: each is recorded once, and its script was run on
-- what those before it have left.
pub data Replayed {S : Type 0} (exec : Text → S → Result S) (entries : List Entry) (base : S)
    : List Text → S → Type 0 where
  nothing : {vs : List Text} {t : S} → vs ≡ [] → t ≡ base → Replayed exec entries base vs t
  and_then :
      {vs ws : List Text} {t u : S} (e : Entry) (content : Text)
      → Replayed exec entries base ws u
      → In e entries
      → e.content ≡ ok content
      → exec content u ≡ ok t
      → has_version e.name ws ≡ false
      → vs ≡ ws ++ e.name ∷ []
      → Replayed exec entries base vs t

module _ {S : Type 0} where
  -- A statement that changes nothing for good is answered or fails.
  touch-rule :
      (P : Result (Unit {0}) × Schema S → Type 0) (s : Schema S)
      → ((e : Error) → P (err e, next s))
      → P (ok tt, next s)
      → P (touch s)
  unfolding touch
  touch-rule P s fails goes = by_link (link_of s.links)
    where
      by_link : (l : Link) → P (answered l (next s))
      by_link up = goes
      by_link (down e) = fails e
      by_link (unacknowledged e) = fails e

module _ {S : Type 0} (exec : Text → S → Result S) (e : Entry) where
  -- The entry needs no script.
  abbrev pub Settled : Schema S → Type 0
  Settled s = (e.is_dir ≡ true) ⊎ (has_version e.name s.versions ≡ true)

  -- The tables and versions stay, which is a success only where nothing was to be done, or the entry is
  -- applied and recorded.
  pub data Change (s : Schema S) (out : Result (Unit {0}) × Schema S) : Type 0 where
    unchanged :
        (out.0 ≡ ok tt → Settled s)
        → out.1.versions ≡ s.versions
        → out.1.tables ≡ s.tables
        → Change s out
    applied :
        (content : Text)
        → e.content ≡ ok content
        → exec content s.tables ≡ ok out.1.tables
        → has_version e.name s.versions ≡ false
        → out.1.versions ≡ s.versions ++ e.name ∷ []
        → Change s out

  failed :
      (x : Error) (s s' : Schema S)
      → s'.versions ≡ s.versions
      → s'.tables ≡ s.tables
      → Change s (err x, s')
  failed x s s' v t = unchanged (λ h. cc) v t

  commit-Change :
      (content : Text) (tables : S) (s s' : Schema S)
      → e.content ≡ ok content
      → exec content s.tables ≡ ok tables
      → has_version e.name s.versions ≡ false
      → s'.versions ≡ s.versions
      → s'.tables ≡ s.tables
      → Change s (wrapping (bytes "failed to commit transaction") (commit e.name tables) s')
  unfolding commit
  commit-Change content tables s s' c x new v t = by_link (link_of s'.links)
    where
      by_link :
          (l : Link)
          → Change s (
              wrapping
                (bytes "failed to commit transaction")
                (settled l
                  (λ r. record r { versions = r.versions ++ e.name ∷ []; tables = tables }))
                (next s'))
      by_link up = applied content c x new (ap (λ (r : List Text). r ++ e.name ∷ []) v)
      by_link (down x') = failed _ s (next s') v t
      by_link (unacknowledged x') =
          applied content c x new (ap (λ (r : List Text). r ++ e.name ∷ []) v)

  script-Change :
      (content : Text) (r : Result S) (s s' : Schema S)
      → e.content ≡ ok content
      → exec content s.tables ≡ r
      → has_version e.name s.versions ≡ false
      → s'.versions ≡ s.versions
      → s'.tables ≡ s.tables
      → Change s (
          continue
            (wrap (bytes "failed to execute migration script") r)
            (λ tables.
              wrapping (bytes "failed to insert migration version record") (insert_version e.name)
              >> wrapping (bytes "failed to commit transaction") (commit e.name tables))
            s')
  unfolding insert_version
  script-Change content (err x) s s' c run new v t = failed _ s s' v t
  script-Change content (ok tables) s s' c run new v t =
      touch-rule
        (λ r.
          let inserted =
            continue r.0
              (λ u q. (
                if has_version e.name q.versions
                    then err (message (bytes "duplicate key value"))
                    else ok tt,
                q,
              ))
              r.1 in
          Change s (
            continue (wrap (bytes "failed to insert migration version record") inserted.0)
              (λ u. wrapping (bytes "failed to commit transaction") (commit e.name tables))
              inserted.1))
        s' (λ x. failed _ s _ v t)
        (let fresh : has_version e.name s'.versions ≡ false = rw v new in
          rw fresh (commit-Change content tables s (next s') c run new v t))

  transaction-Change :
      (content : Text) (s s' : Schema S)
      → e.content ≡ ok content
      → has_version e.name s.versions ≡ false
      → s'.versions ≡ s.versions
      → s'.tables ≡ s.tables
      → Change s (transaction exec e.name content s')
  unfolding transaction
  transaction-Change content s s' c new v t =
      touch-rule
        (λ r. Change s (
          continue (wrap (bytes "failed to begin transaction") r.0)
            (λ u.
              wrapping (bytes "failed to execute migration script") touch
              >> ((λ q.
                    (wrap (bytes "failed to execute migration script") (exec content q.tables), q))
                  >>= λ tables.
                      wrapping (bytes "failed to insert migration version record")
                        (insert_version e.name)
                      >> wrapping (bytes "failed to commit transaction") (commit e.name tables)))
            r.1))
        s' (λ x. failed _ s _ v t)
        (touch-rule
          (λ r. Change s (
            continue (wrap (bytes "failed to execute migration script") r.0)
              (λ u.
                (λ q.
                  (wrap (bytes "failed to execute migration script") (exec content q.tables), q))
                >>= λ tables.
                    wrapping (bytes "failed to insert migration version record")
                      (insert_version e.name)
                    >> wrapping (bytes "failed to commit transaction") (commit e.name tables))
              r.1))
          (next s') (λ x. failed _ s _ v t)
          (script-Change content (exec content s'.tables) s (next (next s')) c
            (ap (λ (x : S). exec content x) (sym t)) new v t))

  content-Change :
      (r : Result Text) (s s' : Schema S)
      → e.content ≡ r
      → has_version e.name s.versions ≡ false
      → s'.versions ≡ s.versions
      → s'.tables ≡ s.tables
      → Change s (
          continue (wrap (bytes "failed to read migration content") r) (transaction exec e.name) s')
  content-Change (err x) s s' c new v t = failed _ s s' v t
  content-Change (ok content) s s' c new v t = transaction-Change content s s' c new v t

  apply-Change :
      (known : Bool) (s s' : Schema S)
      → known ≡ has_version e.name s.versions
      → s'.versions ≡ s.versions
      → s'.tables ≡ s.tables
      → Change s (apply_unless exec known e s')
  unfolding apply
  apply-Change true s s' k v t = unchanged (λ h. inr (sym k)) v t
  apply-Change false s s' k v t = content-Change e.content s s' refl (sym k) v t

  -- One round of the loop
  pub migrate_entry-Change : (s : Schema S) → Change s (migrate_entry exec e s)
  unfolding migrate_entry is_applied
  migrate_entry-Change s = elim (Bool-cases e.is_dir) [
    | inl directory ↦ simp directory (unchanged (λ h. inl directory) refl refl)
    | inr file ↦ simp file (
        touch-rule
          (λ r.
            let known = continue r.0 (λ u q. (ok (has_version e.name q.versions), q)) r.1 in
            Change s (
              continue (wrap (bytes "failed to check migration history") known.0)
                (λ b. apply_unless exec b e) known.1))
          s (λ x. failed _ s _ refl refl)
          (apply-Change (has_version e.name s.versions) s (next s) refl refl refl))
  ]

module _ {S : Type 0} (exec : Text → S → Result S) (entries : List Entry) (base : S) where
  abbrev pub IsReplayed : Schema S → Type 0
  IsReplayed s = Replayed exec entries base s.versions s.tables

  Change-IsReplayed :
      (e : Entry) (s : Schema S) (out : Result (Unit {0}) × Schema S)
      → In e entries
      → Change exec e s out
      → IsReplayed s
      → IsReplayed out.1
  Change-IsReplayed e s out here (unchanged d v t) h =
      subst (λ x. Replayed exec entries base x out.1.tables) (sym v)
        (subst (λ x. Replayed exec entries base s.versions x) (sym t) h)
  Change-IsReplayed e s out here (applied content c x new v) h = and_then e content h here c x new v

  continue-IsReplayed :
      (r : Result (Unit {0})) (act : Action (Schema S) (Unit {0})) (s : Schema S)
      → ((s' : Schema S) → IsReplayed s' → IsReplayed (act s').1)
      → IsReplayed s
      → IsReplayed (continue r (λ u. act) s).1
  continue-IsReplayed (ok u) act s keeps h = keeps s h
  continue-IsReplayed (err x) act s keeps h = h

  migrate_all-IsReplayed :
      (es : List Entry)
      → All (λ e. In e entries) es
      → (s : Schema S) → IsReplayed s
      → IsReplayed (migrate_all exec es s).1
  unfolding migrate_all
  migrate_all-IsReplayed [] here s h = h
  migrate_all-IsReplayed (e ∷ es) here s h =
      let first = migrate_entry exec e s in
      continue-IsReplayed first.0 (migrate_all exec es) first.1 (migrate_all-IsReplayed es here.1)
        (Change-IsReplayed e s first here.0 (migrate_entry-Change exec e s) h)

  tracking-IsReplayed : (s : Schema S) → IsReplayed s → IsReplayed (create_tracking s).1
  unfolding create_tracking
  tracking-IsReplayed s h = by_link (link_of s.links)
    where
      by_link : (l : Link) → IsReplayed (settled l (λ t. record t { tracked = true }) (next s)).1
      by_link up = h
      by_link (down e) = h
      by_link (unacknowledged e) = h

In-cons : (x : Entry) (es : List Entry) → All (λ e. In e es) es → All (λ e. In e (x ∷ es)) es
In-cons x es h = All-map es (λ e here. inr here) h

In-all : (es : List Entry) → All (λ e. In e es) es
In-all [] = tt
In-all (e ∷ es) = (inl refl, In-cons e es (In-all es))

module _ {S : Type 0} (exec : Text → S → Result S) (entries : List Entry) (base : S) where
  wrapped-IsReplayed :
      (r : Result (Unit {0})) (s : Schema S)
      → IsReplayed exec entries base s
      → IsReplayed exec entries base
          (continue
            (wrap (bytes "failed to initialize schema_migrations table") r)
            (λ u. migrate_all exec entries)
            s).1
  wrapped-IsReplayed (ok u) s h =
      migrate_all-IsReplayed exec entries base entries (In-all entries) s h
  wrapped-IsReplayed (err x) s h = h

  -- However a migration ends, the tables are what the recorded scripts make of the first ones, each run
  -- once and whole, in the order of their record: a script that fails, or whose transaction does not
  -- commit, leaves neither a record nor a trace.
  pub migrate-IsReplayed :
      (s : Schema S)
      → IsReplayed exec entries base s
      → IsReplayed exec entries base (migrate exec (ok entries) s).1
  unfolding migrate
  migrate-IsReplayed s h =
      wrapped-IsReplayed (create_tracking s).0 (create_tracking s).1
        (tracking-IsReplayed exec entries base s h)
