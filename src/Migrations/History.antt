-- ===== src/Migrations/History.antt =====
-- The databases that boots of backend/internal/db/db.go Migrate reach, whatever fails in them.
use geo_querry.Prelude.{
  String, ◌≡◌, inl, inr, refl, sym, ap, subst, ◌∙◌, false, Option, none, some, List, [], ◌++◌,
  filter, Bool-cases,
}
use mathlib.Core.List.{append-nil}
use geo_querry.Sync.Pull.{order_by}
use geo_querry.Migrations.{
  Entry, by_name, Database, MigrateError, FileFaults, BootFaults, is_migration, apply_all,
  with_bookkeeping, migrate,
}
use geo_querry.Migrations.Boots.{Progress, replay, Booted, halted, complete, pass}
use geo_querry.Migrations.Names.{names, Distinct, Known, Known-self}

-- The files that Migrate applies, in order.
abbrev pub migration_files : List Entry → List Entry
migration_files entries = filter is_migration (order_by by_name entries)

abbrev pub no_file_faults : FileFaults
no_file_faults = record {
  check = false;
  begin = false;
  apply = false;
  record_version = false;
  commit = false;
  commit_reply = false;
}

abbrev pub no_faults : BootFaults
no_faults = record {
  acquire = false;
  lock = false;
  bookkeeping = false;
  file = λ name. no_file_faults;
}

module _ {S : Type 0} (exec : String → S → Option S) (entries : List Entry) (start : S) where
  abbrev files : List Entry
  files = migration_files entries

  -- What any number of boots, each with faults of its own, makes of a database without tables.
  pub data Reached : Database S → Type 0 where
    fresh : Reached (record { schema = start; versions = none })
    boot :
        (db : Database S) (faults : BootFaults)
        → Reached db
        → Reached ((migrate exec entries faults db).1)

  -- No migration has run, or the first ones have, each once and recorded.
  pub data Ordered : Database S → Type 0 where
    untouched : Ordered (record { schema = start; versions = none })
    partway :
        (done rest : List Entry) (db : Database S)
        → done ++ rest ≡ files
        → Progress exec start done db
        → Ordered db

  Booted-Ordered :
      (r : Option MigrateError × Database S) → Booted exec start files r → Ordered (r.1)
  Booted-Ordered _ (halted x done rest db split p) = partway done rest db split p
  Booted-Ordered _ (complete db p) = partway files [] db (append-nil files) p

  with_bookkeeping_self :
      (db : Database S) (vs : List String) → db.versions ≡ some vs → with_bookkeeping exec db ≡ db
  with_bookkeeping_self db vs = kept db.versions
    where
      kept :
          (o : Option (List String))
          → o ≡ some vs
          → elim o [ none ↦ record { schema = db.schema; versions = some [] } | some _ ↦ db ] ≡ db
      kept none h = absurd (cc)
      kept (some _) h = refl

  pub as_recorded :
      (db : Database S) (vs : List String)
      → db.versions ≡ some vs
      → with_bookkeeping exec db ≡ record { schema = db.schema; versions = some vs }
  as_recorded db vs e =
      with_bookkeeping_self db vs e
      ∙ ap {B = Database S} (λ o. record { schema = db.schema; versions = o }) e

  -- a boot that gets as far as the files
  migrate_files :
      (faults : String → FileFaults) (db : Database S)
      → Distinct files
      → Ordered db
      → Booted exec start files (apply_all exec faults files (with_bookkeeping exec db))
  unfolding Known replay
  migrate_files faults _ d untouched =
      pass exec start files faults [] files [] _ tt refl d
        (record { versions = refl; schema = refl })
  migrate_files faults _ d (partway done rest db split p) =
      subst (λ (db' : Database S). Booted exec start files (apply_all exec faults files db'))
        (sym (with_bookkeeping_self db (names done) p.versions))
        (subst (λ (fs : List Entry). Booted exec start files (apply_all exec faults fs db)) split
          (pass exec start files faults done rest done db (Known-self done) split
            (subst Distinct (sym split) d) p))

  migrate-Ordered :
      (faults : BootFaults) (db : Database S)
      → Distinct files
      → Ordered db
      → Ordered ((migrate exec entries faults db).1)
  unfolding migrate
  migrate-Ordered faults db d o = elim (Bool-cases faults.acquire) [
    | inl a ↦ rw a o
    | inr a ↦ elim (Bool-cases faults.lock) [
      | inl b ↦ rw (a, b) o
      | inr b ↦ elim (Bool-cases faults.bookkeeping) [
        | inl c ↦ rw (a, b, c) o
        | inr c ↦ rw (a, b, c) (Booted-Ordered _ (migrate_files faults.file db d o))
      ]
    ]
  ]

  -- Where no two files have one name, any number of boots, each failing where it may, leaves the
  -- database without tables or with a first part of the migrations applied: in order, each once,
  -- each recorded, and nothing of the others.
  pub Reached-Ordered : (db : Database S) → Distinct files → Reached db → Ordered db
  Reached-Ordered _ d fresh = untouched
  Reached-Ordered _ d (boot db faults r) = migrate-Ordered faults db d (Reached-Ordered db d r)
