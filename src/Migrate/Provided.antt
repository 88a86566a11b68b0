-- ===== src/Migrate/Provided.antt =====
-- internal/migrate/migrate.go: the runner over a provider that keeps goose's contract.
use go_clipboard.Base.{
  ◌≡◌, refl, sym, ap, ◌∙◌, Bool, true, false, List, [], ◌∷◌, ◌++◌, map, none, ℤ, pos, Result, ok,
  err, String, arith,
}
use go_clipboard.Migrate.{
  Source, MigrationState, applied, pending, MigrationStatus, Provider, Log,
  current_migration_version, applied_logs, status_logs, Outcome, up, up_outcome, print_status,
  status_outcome, version_outcome, check_pending, Status, status_of,
}

-- The version of the last migration, and 0 before any.
unfoldable pub version_after : List Source → ℤ
version_after [] = pos 0
version_after (source ∷ []) = source.version
version_after (source ∷ next ∷ sources) = version_after (next ∷ sources)

abbrev pub is_some_left : List Source → Bool
is_some_left [] = false
is_some_left (source ∷ sources) = true

abbrev pub marked : MigrationState → Source → MigrationStatus
marked state source = record { source = source; state = state }

-- What goose documents: `done s` are the migrations that were applied, in the order of their versions, and
-- `left s` those that remain. Each method may fail. What one returns without an error is so: Up has then
-- applied all that remained.
pub record IsProvider {S : Type 0} (p : Provider S) (done left : S → List Source) : Type 0 where
  pub has_pending_lem : (s : S) (b : Bool) → p.has_pending s ≡ ok b → b ≡ is_some_left (left s)
  pub version_lem : (s : S) (v : ℤ) → p.get_db_version s ≡ ok v → v ≡ version_after (done s)
  pub status_lem :
      (s : S) (statuses : List MigrationStatus)
      → p.status s ≡ ok statuses
      → statuses ≡ map (marked applied) (done s) ++ map (marked pending) (left s)
  pub up_lem :
      (s : S) (sources : List Source)
      → (p.up s).0 ≡ ok sources
      → (sources ≡ left s) × (done (p.up s).1 ≡ done s ++ left s) × (left (p.up s).1 ≡ [])

up_outcome-none :
    (result : Result String (List Source)) (logs : List Log)
    → up_outcome result ≡ (none, logs)
    → (sources : List Source) × (result ≡ ok sources) × (logs ≡ applied_logs sources)
unfolding up_outcome
up_outcome-none (ok sources) logs h = (sources, refl, sym (ap (λ (o : Outcome). o.1) h))
up_outcome-none (err e) logs h = absurd (ground (arith, ap (λ (o : Outcome). o.0) h))

status_of-ok :
    (has : Result String Bool) (version : Result String ℤ) (status : Status)
    → status_of has version ≡ ok status
    → (has ≡ ok status.pending) × (version ≡ ok status.current_version)
unfolding status_of
status_of-ok (ok has) (ok version) status h = (ground (arith, h), ground (arith, h))
status_of-ok (ok has) (err e) status h = absurd (ground (arith, h))
status_of-ok (err e) version status h = absurd (ground (arith, h))

status_outcome-none :
    (statuses : Result String (List MigrationStatus)) (version : Result String ℤ) (logs : List Log)
    → status_outcome statuses version ≡ (none, logs)
    → (l : List MigrationStatus) × (v : ℤ) × (statuses ≡ ok l)
      × (version ≡ ok v)
      × (logs ≡ status_logs l ++ (current_migration_version v ∷ []))
unfolding status_outcome version_outcome
status_outcome-none (ok l) (ok v) logs h = (l, v, refl, refl, sym (ap (λ (o : Outcome). o.1) h))
status_outcome-none (ok l) (err e) logs h = absurd (ground (arith, ap (λ (o : Outcome). o.0) h))
status_outcome-none (err e) version logs h = absurd (ground (arith, ap (λ (o : Outcome). o.0) h))

module _ {S : Type 0} (p : Provider S) (done left : S → List Source)
    (law : IsProvider p done left) where
  -- What CheckPending returns without an error.
  pub check_pending-ok :
      (s : S) (status : Status)
      → check_pending p s ≡ ok status
      → (status.pending ≡ is_some_left (left s)) × (status.current_version ≡ version_after (done s))
  unfolding check_pending
  check_pending-ok s status h =
      let (has, version) = status_of-ok (p.has_pending s) (p.get_db_version s) status h in
      (law.has_pending_lem s status.pending has, law.version_lem s status.current_version version)

  pub left-up : (s : S) (logs : List Log) → (up p s).0 ≡ (none, logs) → left (up p s).1 ≡ []
  unfolding up
  left-up s logs h =
      let (sources, applied_all, logged) = up_outcome-none (p.up s).0 logs h in
      let (order, all, nothing) = law.up_lem s sources applied_all in nothing

  -- Over a provider that keeps goose's contract, after an Up without an error all migrations are applied,
  -- in the order in which they remained, and that order is logged: a CheckPending that succeeds finds
  -- nothing left, and the version of the last one.
  pub up-check_pending :
      (s : S) (logs : List Log) (status : Status)
      → (up p s).0 ≡ (none, logs)
      → check_pending p (up p s).1 ≡ ok status
      → (logs ≡ applied_logs (left s))
        × (status.pending ≡ false)
        × (status.current_version ≡ version_after (done s ++ left s))
  unfolding up
  up-check_pending s logs status h checked =
      let (sources, applied_all, logged) = up_outcome-none (p.up s).0 logs h in
      let (order, all, nothing) = law.up_lem s sources applied_all in
      let (has, version) = check_pending-ok (p.up s).1 status checked in
      (
        logged ∙ ap applied_logs order,
        has ∙ ap is_some_left nothing,
        version ∙ ap version_after all,
      )

  -- The status that is printed without an error: each applied migration as "applied" and each that
  -- remains as "pending", in their order, and the version of the last applied one.
  pub print_status_lem :
      (s : S) (logs : List Log)
      → print_status p s ≡ (none, logs)
      → logs
        ≡ status_logs (map (marked applied) (done s) ++ map (marked pending) (left s))
          ++ (current_migration_version (version_after (done s)) ∷ [])
  unfolding print_status
  print_status_lem s logs h =
      let (l, v, listed, read, logged) =
        status_outcome-none (p.status s) (p.get_db_version s) logs h in
      rw (logged, law.status_lem s l listed, law.version_lem s v read) refl
