-- ===== src/Migrations.antt =====
-- The migrations of backend/internal/db/db.go: Migrate and applyOne, run at every start of the
-- server. What the SQL of a file does to the schema is PostgreSQL's: `exec` is an argument. The
-- files are embedded in the binary. An instance that migrates holds the advisory lock, so its
-- boot is one run; a process that dies leaves its boot where a fault would.
pub mod Names
pub mod Boots
pub mod History
pub mod Recovery
mod Tests
use Prim.Native.String.{len, slice, compare}
use text.Mathlib.Text.{is_lt}
use geo_querry.Prelude.{
  String, Bool, true, false, not, ◌&&◌, Option, none, some, List, [], ◌∷◌, ◌++◌, str_eq,
  if◌then◌else◌, any, filter, leb, ◌-◌, map,
}
use geo_querry.Sync.Pull.{order_by}

-- strings.HasSuffix
abbrev pub has_suffix : String → String → Bool
has_suffix s t = leb (len t) (len s) && str_eq (slice s (len s - len t) (len s)) t

-- An entry of the embedded directory.
pub record Entry : Type 0 where
  pub name : String
  pub is_dir : Bool
  pub sql : String

-- `entry.IsDir() || !strings.HasSuffix(…, ".sql") || strings.HasSuffix(…, ".down.sql")`, negated
unfoldable pub is_migration : Entry → Bool
is_migration e = not e.is_dir && has_suffix e.name ".sql" && not (has_suffix e.name ".down.sql")

-- The order of sort.Slice: the names, byte by byte.
abbrev pub by_name : Entry → Entry → Bool
by_name a b = is_lt (compare a.name b.name)

-- The schema, and the rows of schema_migrations once that table exists.
pub record Database (S : Type 0) : Type 0 where
  pub schema : S
  pub versions : Option (List String)

-- Where an attempt to migrate stopped.
pub data MigrateError : Type 0 where
  no_connection : MigrateError
  no_lock : MigrateError
  no_bookkeeping : MigrateError
  check_failed : String → MigrateError
  begin_failed : String → MigrateError
  apply_failed : String → MigrateError
  record_failed : String → MigrateError
  commit_failed : String → MigrateError

-- Which statements of one file the environment makes fail; where `commit_reply` fails, COMMIT has
-- happened and its reply is lost.
pub record FileFaults : Type 0 where
  pub check : Bool
  pub begin : Bool
  pub apply : Bool
  pub record_version : Bool
  pub commit : Bool
  pub commit_reply : Bool

pub record BootFaults : Type 0 where
  pub acquire : Bool
  pub lock : Bool
  pub bookkeeping : Bool
  pub file : String → FileFaults

abbrev pub is_applied : String → List String → Bool
is_applied name versions = any (λ v. str_eq v name) versions

module _ {S : Type 0} (exec : String → S → Option S) where
  -- the transaction of one file: its SQL and its row in schema_migrations, or neither
  abbrev pub commit_file :
      FileFaults → String → Option S → List String → Database S → Option MigrateError × Database S
  commit_file f name none versions db = (some (apply_failed name), db)
  commit_file f name (some s) versions db =
      let db' : Database S = record { schema = s; versions = some (versions ++ name ∷ []) } in
      if f.record_version
      then (some (record_failed name), db)
      else if f.commit
      then (some (commit_failed name), db)
      else if f.commit_reply
      then (some (commit_failed name), db')
      else (none, db')

  -- applyOne, on the rows of schema_migrations
  unfoldable pub apply_to :
      FileFaults → Entry → List String → Database S → Option MigrateError × Database S
  apply_to f e versions db =
      if is_applied e.name versions
      then (none, db)
      else if f.begin
      then (some (begin_failed e.name), db)
      else commit_file f e.name (if f.apply then none else exec e.sql db.schema) versions db

  -- applyOne; the check fails where schema_migrations does not exist. An embedded file can be read.
  unfoldable pub apply_one : FileFaults → Entry → Database S → Option MigrateError × Database S
  unfolding apply_to
  apply_one f e db = if f.check then (some (check_failed e.name), db) else elim db.versions [
    | none ↦ (some (check_failed e.name), db)
    | some vs ↦ apply_to f e vs db
  ]

  -- The loop of Migrate: it stops at the first error.
  unfoldable pub apply_all :
      (String → FileFaults) → List Entry → Database S → Option MigrateError × Database S
  unfolding apply_one
  apply_all faults [] db = (none, db)
  apply_all faults (e ∷ es) db =
      let (error, db') = apply_one (faults e.name) e db in
      let rest = apply_all faults es db' in elim error [ some x ↦ (some x, db') | none ↦ rest ]

  -- CREATE TABLE IF NOT EXISTS schema_migrations
  abbrev pub with_bookkeeping : Database S → Database S
  with_bookkeeping db = elim db.versions [
    | none ↦ record { schema = db.schema; versions = some [] }
    | some vs ↦ db
  ]

  -- Migrate, on the files in the order of their names.
  unfoldable pub migrate : List Entry → BootFaults → Database S → Option MigrateError × Database S
  unfolding apply_all is_migration order_by
  migrate entries faults db =
      if faults.acquire
      then (some no_connection, db)
      else if faults.lock
      then (some no_lock, db)
      else if faults.bookkeeping
      then (some no_bookkeeping, db)
      else apply_all faults.file (filter is_migration (order_by by_name entries))
          (with_bookkeeping db)
