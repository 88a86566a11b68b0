-- ===== src/Migrate.antt =====
-- internal/migrate/migrate.go: the runner of migrations. A goose provider is a record of what its methods
-- return, over states `S` of the database; what is logged is an output.
pub mod Provided
pub mod Reported
mod Tests
use go_clipboard.Base.{
  Bool, true, false, List, [], ◌∷◌, ◌++◌, Option, none, some, ℤ, Result, ok, err, String, Bytes,
  if◌then◌else◌,
}

pub record Status : Type 0 where
  pub pending : Bool
  pub current_version : ℤ

-- goose.Source
pub record Source : Type 0 where
  pub path : Bytes
  pub version : ℤ

-- goose.State
pub data MigrationState : Type 0 where
  applied pending : MigrationState

-- goose.MigrationStatus
pub record MigrationStatus : Type 0 where
  pub source : Source
  pub state : MigrationState

-- goose.Provider
pub record Provider (S : Type 0) : Type 0 where
  pub up : S → Result String (List Source) × S
  pub down : S → Result String (Option Source) × S
  pub status : S → Result String (List MigrationStatus)
  pub has_pending : S → Result String Bool
  pub get_db_version : S → Result String ℤ

pub data Log : Type 0 where
  migration_applied migration_rolled_back : Source → Log
  migration_status : Source → String → Log
  current_migration_version : ℤ → Log

unfoldable pub applied_logs : List Source → List Log
applied_logs [] = []
applied_logs (source ∷ sources) = migration_applied source ∷ applied_logs sources

unfoldable pub state_text : MigrationState → String
state_text applied = "applied"
state_text pending = "pending"

unfoldable pub status_logs : List MigrationStatus → List Log
unfolding state_text
status_logs [] = []
status_logs (status ∷ statuses) =
    migration_status status.source (state_text status.state) ∷ status_logs statuses

-- The error that a method returns, with what it logs.
abbrev pub Outcome : Type 0
Outcome = Option String × List Log

unfoldable pub up_outcome : Result String (List Source) → Outcome
unfolding applied_logs
up_outcome (ok sources) = (none, applied_logs sources)
up_outcome (err e) = (some e, [])

unfoldable pub down_outcome : Result String (Option Source) → Outcome
down_outcome (ok (some source)) = (none, migration_rolled_back source ∷ [])
down_outcome (ok none) = (none, [])
down_outcome (err e) = (some e, [])

-- The statuses have been logged when the version is read.
unfoldable pub version_outcome : List Log → Result String ℤ → Outcome
version_outcome logs (ok version) = (none, logs ++ (current_migration_version version ∷ []))
version_outcome logs (err e) = (some e, logs)

unfoldable pub status_outcome : Result String (List MigrationStatus) → Result String ℤ → Outcome
unfolding status_logs version_outcome
status_outcome (ok statuses) version = version_outcome (status_logs statuses) version
status_outcome (err e) version = (some e, [])

unfoldable pub status_of : Result String Bool → Result String ℤ → Result String Status
status_of (ok has) (ok version) = ok (record { pending = has; current_version = version })
status_of (ok has) (err e) = err e
status_of (err e) version = err e

module _ {S : Type 0} (p : Provider S) where
  unfoldable pub up : S → Outcome × S
  unfolding up_outcome
  up s = let (result, s') = p.up s in (up_outcome result, s')

  unfoldable pub down : S → Outcome × S
  unfolding down_outcome
  down s = let (result, s') = p.down s in (down_outcome result, s')

  unfoldable pub print_status : S → Outcome
  unfolding status_outcome
  print_status s = status_outcome (p.status s) (p.get_db_version s)

  unfoldable pub check_pending : S → Result String Status
  unfolding status_of
  check_pending s = status_of (p.has_pending s) (p.get_db_version s)

-- What os.Stat returns of the migrations directory.
pub data Stat : Type 0 where
  missing : Stat
  unreadable : String → Stat
  found : Bool → Stat

pub data DirError : Type 0 where
  not_found : Bytes → DirError
  not_read : Bytes → String → DirError
  not_a_directory : Bytes → DirError

unfoldable pub migrations_dir_exists : Bytes → Stat → Option DirError
migrations_dir_exists dir missing = some (not_found dir)
migrations_dir_exists dir (unreadable e) = some (not_read dir e)
migrations_dir_exists dir (found is_dir) = if is_dir then none else some (not_a_directory dir)

pub data RunnerError : Type 0 where
  no_directory : DirError → RunnerError
  no_provider : String → RunnerError

-- What NewRunner does with the database/sql handle that it adapts from the pool.
pub data HandleAct : Type 0 where
  opened closed : HandleAct

unfoldable pub provided : {P : Type 0} → Result String P → Result RunnerError P × List HandleAct
provided (ok p) = (ok p, opened ∷ [])
provided (err e) = (err (no_provider e), opened ∷ closed ∷ [])

-- `provider` is what goose.NewProvider returns.
unfoldable pub new_runner :
    {P : Type 0} → Bytes → Stat → Result String P → Result RunnerError P × List HandleAct
unfolding migrations_dir_exists provided
new_runner dir stat provider = elim (migrations_dir_exists dir stat) [
  | some e ↦ (err (no_directory e), [])
  | none ↦ provided provider
]
