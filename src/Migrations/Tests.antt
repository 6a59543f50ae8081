-- ===== src/Migrations/Tests.antt =====
-- Runs of the migrations on three files, the second of which fails to commit at first.
use geo_querry.Prelude.{String, ◌≡◌, refl, false, Option, none, some, List, [], ◌∷◌, ◌++◌, str_eq}
use geo_querry.Sync.Pull.{order_by}
use geo_querry.Migrations.{
  Entry, Database, MigrateError, commit_failed, BootFaults, is_migration, apply_to, apply_one,
  apply_all, migrate,
}
use geo_querry.Migrations.Boots.{replay}
use geo_querry.Migrations.Names.{Distinct}
use geo_querry.Migrations.History.{
  migration_files, no_file_faults, no_faults, fresh, boot, Ordered, Reached-Ordered,
}
use geo_querry.Migrations.Recovery.{migrate-Reached}

abbrev entry : String → Entry
entry name = record { name = name; is_dir = false; sql = name }

abbrev entries : List Entry
entries = entry "2_photos.up.sql" ∷ entry "1_init.up.sql" ∷ entry "1_init.down.sql" ∷ []

abbrev log_sql : String → List String → Option (List String)
log_sql sql log = some (log ++ sql ∷ [])

abbrev commit_fails : BootFaults
commit_fails = record {
  acquire = false;
  lock = false;
  bookkeeping = false;
  file = λ name. record no_file_faults { commit = str_eq name "2_photos.up.sql" };
}

abbrev first_boot : Option MigrateError × Database (List String)
first_boot = migrate log_sql entries commit_fails (record { schema = []; versions = none })

first_boot_fails : first_boot ≡ (
  some (commit_failed "2_photos.up.sql"),
  record { schema = "1_init.up.sql" ∷ []; versions = some ("1_init.up.sql" ∷ []) },
)
unfolding migrate apply_all apply_one apply_to order_by is_migration
first_boot_fails = refl

entries-Distinct : Distinct (migration_files entries)
unfolding order_by is_migration
entries-Distinct = (refl, (refl, tt))

Reached-Ordered_example : Ordered log_sql entries [] (first_boot.1)
Reached-Ordered_example =
    Reached-Ordered log_sql entries [] (first_boot.1) entries-Distinct (boot _ commit_fails fresh)

migrate-Reached_example : migrate log_sql entries no_faults (first_boot.1) ≡ (
  none,
  record {
    schema = "1_init.up.sql" ∷ "2_photos.up.sql" ∷ [];
    versions = some ("1_init.up.sql" ∷ "2_photos.up.sql" ∷ []);
  },
)
unfolding replay order_by is_migration
migrate-Reached_example =
    migrate-Reached log_sql entries [] (first_boot.1) ("1_init.up.sql" ∷ "2_photos.up.sql" ∷ [])
      entries-Distinct (boot _ commit_fails fresh) refl
