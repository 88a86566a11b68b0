-- ===== src/Migrate/Tests.antt =====
-- Runs of internal/migrate/migrate.go and instances of its theorems, over two migrations.
use go_clipboard.Base.{
  ◌≡◌, refl, ◌↔◌, ◌⊎◌, true, false, List, [], ◌∷◌, ◌++◌, map, Option, none, some, ok, err, pos,
  ascii, Result, String, arith,
}
use go_clipboard.Db.{Timestamptz, QueryError}
use go_clipboard.Database.{Ping}
use go_clipboard.Http.Health.{handle_health}
use go_clipboard.Migrate.{
  Source, applied, pending, Provider, migration_applied, migration_rolled_back, up, up_outcome,
  down, down_outcome, applied_logs, new_runner, migrations_dir_exists, provided, missing, found,
  no_directory, no_provider, not_found, opened, closed,
}
use go_clipboard.Migrate.Provided.{IsProvider, is_some_left, marked, version_after}
use go_clipboard.Migrate.Reported.{wired, IsOk, wired_iff}

program : Unit {0}
unfolding up up_outcome down down_outcome applied_logs version_after new_runner
    migrations_dir_exists provided
program = tt

abbrev first : Source
first = record { path = ascii "1.sql"; version = pos 1 }

abbrev second : Source
second = record { path = ascii "2.sql"; version = pos 2 }

data Level : Type 0 where
  fresh halfway current : Level

abbrev done : Level → List Source
done fresh = []
done halfway = first ∷ []
done current = first ∷ second ∷ []

abbrev left : Level → List Source
left fresh = first ∷ second ∷ []
left halfway = second ∷ []
left current = []

abbrev before : Level → Result String (Option Source) × Level
before fresh = (ok none, fresh)
before halfway = (ok (some first), fresh)
before current = (ok (some second), halfway)

abbrev provider : Provider Level
provider = record {
  up = λ s. (ok (left s), current);
  down = before;
  status = λ s. ok (map (marked applied) (done s) ++ map (marked pending) (left s));
  has_pending = λ s. ok (is_some_left (left s));
  get_db_version = λ s. ok (version_after (done s));
}

done-current : (s : Level) → done current ≡ done s ++ left s
done-current fresh = refl
done-current halfway = refl
done-current current = refl

same_ok : {A : Type 0} (a b : A) → ◌≡◌ {A = Result String A} (ok a) (ok b) → b ≡ a
same_ok a b h = cc

provider-IsProvider : IsProvider provider done left
provider-IsProvider = record {
  has_pending_lem = λ s b h. same_ok _ b h;
  version_lem = λ s v h. same_ok _ v h;
  status_lem = λ s statuses h. same_ok _ statuses h;
  up_lem = λ s sources h. (ground (arith, h), done-current s, refl);
}

no_folder :
    new_runner (ascii "db") missing (ok provider)
    ≡ (err (no_directory (not_found (ascii "db"))), [])
unfolding program
no_folder = refl

abbrev bad : Result String (Provider Level)
bad = err "bad"

refused : new_runner (ascii "db") (found true) bad ≡ (err (no_provider "bad"), opened ∷ closed ∷ [])
unfolding program
refused = refl

ups : (up provider fresh).0 ≡ (none, migration_applied first ∷ migration_applied second ∷ [])
unfolding program
ups = refl

downs : (down provider halfway).0 ≡ (none, migration_rolled_back first ∷ [])
unfolding program
downs = refl

again :
    (up provider (down provider halfway).1).0
    ≡ (none, migration_applied first ∷ migration_applied second ∷ [])
unfolding program
again = refl

abbrev reached : Ping
reached = record { error = none; latency = pos 5 }

-- A time that is NULL.
abbrev not_valid : Result QueryError Timestamptz
not_valid = ok (record { time = 0; valid = false })

wired_iff_example :
    let resp = handle_health (wired provider reached not_valid halfway) in
    ((resp.status ≡ 200) ↔ (
      (reached.error ≡ none)
      × IsOk (provider.has_pending halfway)
      × IsOk (provider.get_db_version halfway)
      × (second ∷ [] ≡ [])))
    × ((resp.status ≡ 200) ⊎ (resp.status ≡ 503))
wired_iff_example = wired_iff provider done left provider-IsProvider reached not_valid halfway
