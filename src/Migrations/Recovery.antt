-- ===== src/Migrations/Recovery.antt =====
-- A boot of backend/internal/db/db.go Migrate in which nothing fails, after any others.
use geo_querry.Prelude.{
  String, ◌≡◌, refl, sym, ap, subst, ◌∙◌, true, false, Option, none, some, List, [], ◌∷◌, ◌++◌,
}
use mathlib.Core.List.{append-nil, append_assoc}
use geo_querry.Migrations.{
  Entry, Database, MigrateError, is_applied, apply_to, apply_one, apply_all, migrate,
}
use geo_querry.Migrations.Boots.{replay, replay-append, then_replay-cases, names-append}
use geo_querry.Migrations.Names.{
  names, Distinct, Distinct-append, Known, Known-self, some_injective,
}
use geo_querry.Migrations.History.{
  migration_files, no_file_faults, no_faults, Reached, Ordered, untouched, partway, as_recorded,
  Reached-Ordered,
}

module _ {S : Type 0} (exec : String → S → Option S) (entries : List Entry) (start : S) where
  abbrev files : List Entry
  files = migration_files entries

  after :
      (e : Entry) (rest : List Entry) (db db' : Database S)
      → apply_one exec no_file_faults e db ≡ (none, db')
      → apply_all exec (λ name. no_file_faults) (e ∷ rest) db
        ≡ apply_all exec (λ name. no_file_faults) rest db'
  unfolding apply_all
  after e rest db db' = ap {A = Option MigrateError × Database S} (λ r.
      let (error, d) = r in
      let rest' = apply_all exec (λ name. no_file_faults) rest d in
      elim error [ some x ↦ (some x, d) | none ↦ rest' ])

  apply_one_old :
      (e : Entry) (s : S) (vs : List String)
      → is_applied e.name vs ≡ true
      → apply_one exec no_file_faults e (record { schema = s; versions = some vs })
        ≡ (none, record { schema = s; versions = some vs })
  unfolding apply_one apply_to
  apply_one_old e s vs h = rw (apply_to, h) refl

  apply_one_new :
      (e : Entry) (s t : S) (vs : List String)
      → is_applied e.name vs ≡ false
      → exec e.sql s ≡ some t
      → apply_one exec no_file_faults e (record { schema = s; versions = some vs })
        ≡ (none, record { schema = t; versions = some (vs ++ e.name ∷ []) })
  unfolding apply_one apply_to
  apply_one_new e s t vs h x = rw (apply_to, h, x) refl

  finish_old :
      (old rest : List Entry) (s : S) (vs : List String)
      → Known vs old
      → apply_all exec
          (λ name. no_file_faults)
          (old ++ rest)
          (record { schema = s; versions = some vs })
        ≡ apply_all exec (λ name. no_file_faults) rest (record { schema = s; versions = some vs })
  unfolding Known
  finish_old [] rest s vs k = refl
  finish_old (e ∷ old) rest s vs (k, ks) =
      after e (old ++ rest) _ _ (apply_one_old e s vs k) ∙ finish_old old rest s vs ks

  finish_new :
      (rest done : List Entry) (s t : S)
      → Distinct (done ++ rest)
      → replay exec rest s ≡ some t
      → apply_all exec
          (λ name. no_file_faults)
          rest
          (record { schema = s; versions = some (names done) })
        ≡ (none, record { schema = t; versions = some (names (done ++ rest)) })
  unfolding apply_all replay
  finish_new [] done s t d h = rw (append-nil done, some_injective h) refl
  finish_new (e ∷ rest) done s t d h =
      let (u, x, h') = then_replay-cases exec (exec e.sql s) (replay exec rest) t h in
      after e rest (record { schema = s; versions = some (names done) })
        (record { schema = u; versions = some (names done ++ e.name ∷ []) })
        (apply_one_new e s u (names done) (Distinct-append done e rest d) x)
      ∙ rw (← names-append exec done e, ← append_assoc done (e ∷ []) rest)
          (finish_new rest (done ++ e ∷ []) u t
            (subst Distinct (sym (append_assoc done (e ∷ []) rest)) d) h')

  migrate_completes :
      (db : Database S) (t : S)
      → Distinct files
      → Ordered exec entries start db
      → replay exec files start ≡ some t
      → migrate exec entries no_faults db
        ≡ (none, record { schema = t; versions = some (names files) })
  unfolding migrate
  migrate_completes _ t d untouched h = finish_new files [] start t d h
  migrate_completes _ t d (partway done rest db split p) h =
      ap (apply_all exec (λ name. no_file_faults) files)
        (as_recorded exec entries start db (names done) p.versions)
      ∙ rw (← split) (
          finish_old done rest db.schema (names done) (Known-self done)
          ∙ finish_new rest done db.schema t (subst Distinct (sym split) d)
              (sym (replay-append exec done rest start db.schema p.schema) ∙ rw split h))

  -- Where no two files have one name and the SQL of the files, run in order, succeeds, a boot
  -- without faults after any number of failing ones reports no error and leaves the schema that
  -- all files make, each recorded once.
  pub migrate-Reached :
      (db : Database S) (t : S)
      → Distinct files
      → Reached exec entries start db
      → replay exec files start ≡ some t
      → migrate exec entries no_faults db
        ≡ (none, record { schema = t; versions = some (names files) })
  migrate-Reached db t d r = migrate_completes db t d (Reached-Ordered exec entries start db d r)
