-- ===== src/Store/Migrate/Twice.antt =====
-- Migrate (internal/store/postgres/store.go) after a success.
use agent_frei_igi.Prelude.{
  ◌≡◌, refl, sym, subst, ◌∙◌, ◌⊎◌, inl, inr, true, Text, bytes, text_eq_refl, List, [], ◌∷◌, ◌++◌,
  Result, ok, err, wrap, continue, All, arith,
}
use agent_frei_igi.Store.Db.{Link, up, down, unacknowledged}
use agent_frei_igi.Store.Migrate.{
  Entry, Schema, has_version, link_of, next, settled, create_tracking, migrate_entry, migrate_all,
  migrate,
}
use agent_frei_igi.Store.Migrate.Replay.{Change, unchanged, applied, migrate_entry-Change}

has_version-front :
    (v : Text) (vs ws : List Text) → has_version v vs ≡ true → has_version v (vs ++ ws) ≡ true
unfolding has_version
has_version-front v [] ws h = cc
has_version-front v (x ∷ vs) ws h = ground (arith, has_version-front v vs ws)

has_version-last : (v : Text) (vs : List Text) → has_version v (vs ++ v ∷ []) ≡ true
unfolding has_version
has_version-last v [] = rw (text_eq_refl v) refl
has_version-last v (x ∷ vs) = ground (arith, has_version-last v vs)

-- A directory, or a file whose script was recorded.
abbrev pub Recorded : List Text → Entry → Type 0
Recorded vs e = (e.is_dir ≡ true) ⊎ (has_version e.name vs ≡ true)

module _ {S : Type 0} (exec : Text → S → Result S) where
  Change-keeps :
      (e : Entry) (s : Schema S) (out : Result (Unit {0}) × Schema S)
      → Change exec e s out
      → (d : Entry) → Recorded s.versions d
      → Recorded out.1.versions d
  Change-keeps e s out (unchanged d' v t) d (inl directory) = inl directory
  Change-keeps e s out (unchanged d' v t) d (inr here) = inr (rw v here)
  Change-keeps e s out (applied content c x new v) d (inl directory) = inl directory
  Change-keeps e s out (applied content c x new v) d (inr here) =
      inr (rw v (has_version-front d.name s.versions (e.name ∷ []) here))

  Change-records :
      (e : Entry) (s : Schema S) (out : Result (Unit {0}) × Schema S)
      → Change exec e s out
      → out.0 ≡ ok tt
      → Recorded out.1.versions e
  Change-records e s out (unchanged d v t) h = rw v (d h)
  Change-records e s out (applied content c x new v) h =
      inr (rw v (has_version-last e.name s.versions))

  continue-keeps :
      (act : Schema S → Result (Unit {0}) × Schema S) (d : Entry)
      → ((t : Schema S) → Recorded t.versions d → Recorded (act t).1.versions d)
      → (out : Result (Unit {0}) × Schema S) → Recorded out.1.versions d
      → Recorded (continue out.0 (λ u. act) out.1).1.versions d
  continue-keeps act d keeps (ok u, t) k = keeps t k
  continue-keeps act d keeps (err x, t) k = k

  continue-ok :
      (r : Result (Unit {0})) (act : Schema S → Result (Unit {0}) × Schema S) (s : Schema S)
      → (continue r (λ u. act) s).0 ≡ ok tt
      → (r ≡ ok tt) × ((act s).0 ≡ ok tt) × ((continue r (λ u. act) s).1 ≡ (act s).1)
  continue-ok (ok u) act s h = (refl, h, refl)
  continue-ok (err x) act s h = cc

  migrate_all-keeps :
      (es : List Entry) (d : Entry) (s : Schema S)
      → Recorded s.versions d
      → Recorded (migrate_all exec es s).1.versions d
  unfolding migrate_all
  migrate_all-keeps [] d s h = h
  migrate_all-keeps (e ∷ es) d s h =
      continue-keeps (migrate_all exec es) d (migrate_all-keeps es d) (migrate_entry exec e s)
        (Change-keeps e s (migrate_entry exec e s) (migrate_entry-Change exec e s) d h)

  -- A run of the loop that succeeds has recorded every file.
  migrate_all-records :
      (es : List Entry) (s : Schema S)
      → (migrate_all exec es s).0 ≡ ok tt
      → All (Recorded (migrate_all exec es s).1.versions) es
  unfolding migrate_all
  migrate_all-records [] s h = tt
  migrate_all-records (e ∷ es) s h =
      let first = migrate_entry exec e s in
      let (done, rest, same) = continue-ok first.0 (migrate_all exec es) first.1 h in
      let here = Change-records e s first (migrate_entry-Change exec e s) done in
      (
        continue-keeps (migrate_all exec es) e (migrate_all-keeps es e) first here,
        subst (λ (t : Schema S). All (Recorded t.versions) es) (sym same)
            (migrate_all-records es first.1 rest),
      )

  -- An entry that was recorded changes nothing, whatever becomes of the statements.
  Recorded-stays :
      (e : Entry) (s : Schema S)
      → Recorded s.versions e
      → ((migrate_entry exec e s).1.versions ≡ s.versions)
        × ((migrate_entry exec e s).1.tables ≡ s.tables)
  unfolding migrate_entry
  Recorded-stays e s (inl directory) = simp directory (refl, refl)
  Recorded-stays e s (inr here) = by_change (migrate_entry exec e s) (migrate_entry-Change exec e s)
    where
      by_change :
          (out : Result (Unit {0}) × Schema S)
          → Change exec e s out
          → (out.1.versions ≡ s.versions) × (out.1.tables ≡ s.tables)
      by_change out (unchanged d v t) = (v, t)
      by_change out (applied content c x new v) = absurd (cc (new, here))

  -- The same versions and tables.
  abbrev pub Same : Schema S → Schema S → Type 0
  Same s t = (t.versions ≡ s.versions) × (t.tables ≡ s.tables)

  continue-Same :
      (r : Result (Unit {0})) (act : Schema S → Result (Unit {0}) × Schema S) (s t : Schema S)
      → Same s t
      → Same t (act t).1
      → Same s (continue r (λ u. act) t).1
  continue-Same (ok u) act s t first rest = (rest.0 ∙ first.0, rest.1 ∙ first.1)
  continue-Same (err x) act s t first rest = first

  all-stay :
      (es : List Entry) (s : Schema S)
      → All (Recorded s.versions) es
      → Same s (migrate_all exec es s).1
  unfolding migrate_all
  all-stay [] s h = (refl, refl)
  all-stay (e ∷ es) s h =
      let first = migrate_entry exec e s in
      let kept = Recorded-stays e s h.0 in
      let later : All (Recorded first.1.versions) es = rw (kept.0) h.1 in
      continue-Same first.0 (migrate_all exec es) s first.1 kept (all-stay es first.1 later)

  tracking-Same : (s : Schema S) → Same s (create_tracking s).1
  unfolding create_tracking
  tracking-Same s = by_link (link_of s.links)
    where
      by_link : (l : Link) → Same s (settled l (λ t. record t { tracked = true }) (next s)).1
      by_link up = (refl, refl)
      by_link (down e) = (refl, refl)
      by_link (unacknowledged e) = (refl, refl)

  wrap-ok : (m : Text) (r : Result (Unit {0})) → wrap m r ≡ ok tt → r ≡ ok tt
  wrap-ok m (ok u) h = refl
  wrap-ok m (err x) h = cc

  -- A migration that succeeded has recorded every file of the directory.
  migrate-records :
      (es : List Entry) (s : Schema S)
      → (migrate exec (ok es) s).0 ≡ ok tt
      → All (Recorded (migrate exec (ok es) s).1.versions) es
  unfolding migrate
  migrate-records es s h =
      let first = create_tracking s in
      let (done, rest, same) =
        continue-ok (wrap (bytes "failed to initialize schema_migrations table") first.0)
          (migrate_all exec es) first.1 h in
      rw same (migrate_all-records es first.1 rest)

  Recorded-migrate :
      (es : List Entry) (s : Schema S)
      → All (Recorded s.versions) es
      → Same s (migrate exec (ok es) s).1
  unfolding migrate
  Recorded-migrate es s h =
      let first = create_tracking s in
      let kept = tracking-Same s in
      let later : All (Recorded first.1.versions) es = rw (kept.0) h in
      continue-Same (wrap (bytes "failed to initialize schema_migrations table") first.0)
        (migrate_all exec es) s first.1 kept (all-stay es first.1 later)

  -- After a migration that succeeded, another one changes neither the tables nor the versions, whatever
  -- becomes of its statements; every file of the directory has its version by then.
  pub migrate_twice :
      (es : List Entry) (s : Schema S) (links : List Link)
      → (migrate exec (ok es) s).0 ≡ ok tt
      → All (Recorded (migrate exec (ok es) s).1.versions) es
        × Same
            (migrate exec (ok es) s).1
            (migrate exec (ok es) (record (migrate exec (ok es) s).1 { links = links })).1
  migrate_twice es s links h =
      let recorded = migrate-records es s h in
      let s' : Schema S = record (migrate exec (ok es) s).1 { links = links } in
      (recorded, Recorded-migrate es s' recorded)
