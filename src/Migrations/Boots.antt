-- ===== src/Migrations/Boots.antt =====
-- Any sequence of boots, with any faults, applies the migrations in order, each once.
use geo_querry.Prelude.{
  String, ◌≡◌, refl, sym, ap, subst, ◌∙◌, ◌⊎◌, inl, inr, Bool, true, false, Option, none, some,
  List, [], ◌∷◌, ◌++◌, if◌then◌else◌, Bool-cases,
}
use mathlib.Core.List.{append-nil, append_assoc}
use geo_querry.Migrations.{
  Entry, Database, MigrateError, FileFaults, is_applied, commit_file, apply_to, check_failed,
  apply_one, apply_all,
}
use geo_querry.Migrations.Names.{names, Distinct, Distinct-append, Known, some_injective}

module _ {S : Type 0} (exec : String → S → Option S) where
  -- the effect of the files, one after another
  abbrev then_replay : Option S → (S → Option S) → Option S
  then_replay none next = none
  then_replay (some s) next = next s

  unfoldable pub replay : List Entry → S → Option S
  replay [] s = some s
  replay (e ∷ es) s = then_replay (exec e.sql s) (replay es)

  pub names-append : (es : List Entry) (e : Entry) → names (es ++ e ∷ []) ≡ names es ++ e.name ∷ []
  names-append [] e = refl
  names-append (x ∷ es) e = ap (λ (ns : List String). x.name ∷ ns) (names-append es e)

  -- The first files are applied, in order, and recorded; the rest has left no trace.
  pub record Progress (start : S) (done : List Entry) (db : Database S) : Type 0 where
    pub versions : db.versions ≡ some (names done)
    pub schema : replay done start ≡ some db.schema

  pub then_replay-cases :
      (o : Option S) (next : S → Option S) (t : S)
      → then_replay o next ≡ some t
      → (s : S) × (o ≡ some s) × (next s ≡ some t)
  then_replay-cases none next t h = absurd (cc)
  then_replay-cases (some s) next t h = (s, refl, h)

  pub replay-append :
      (es fs : List Entry) (s s' : S) → replay es s ≡ some s' → replay (es ++ fs) s ≡ replay fs s'
  unfolding replay
  replay-append [] fs s s' h = ap (replay fs) (some_injective h)
  replay-append (x ∷ es) fs s s' h =
      let (t, e, h') = then_replay-cases (exec x.sql s) (replay es) s' h in
      rw e (replay-append es fs t s' h')

  -- What one file comes to, where the files `done` are applied.
  data Step (start : S) (done : List Entry) (e : Entry) (db : Database S)
      : Option MigrateError × Database S → Type 0 where
    stuck : (x : MigrateError) → Step start done e db (some x, db)
    skipped : is_applied e.name (names done) ≡ true → Step start done e db (none, db)
    applied :
        (db' : Database S)
        → is_applied e.name (names done) ≡ false
        → Progress start (done ++ e ∷ []) db'
        → Step start done e db (none, db')
    lost :
        (x : MigrateError) (db' : Database S)
        → is_applied e.name (names done) ≡ false
        → Progress start (done ++ e ∷ []) db'
        → Step start done e db (some x, db')

  commit_file-Step :
      (start : S) (done : List Entry) (e : Entry) (db : Database S) (f : FileFaults) (o : Option S)
      → is_applied e.name (names done) ≡ false
      → Progress start done db
      → (o ≡ none) ⊎ (o ≡ exec e.sql db.schema)
      → Step start done e db (commit_file exec f e.name o (names done) db)
  unfolding replay
  commit_file-Step start done e db f none new p how = stuck _
  commit_file-Step start done e db f (some s) new p how = elim (Bool-cases f.record_version) [
    | inl a ↦ rw a (stuck _)
    | inr a ↦ elim (Bool-cases f.commit) [
      | inl b ↦ rw (a, b) (stuck _)
      | inr b ↦ elim (Bool-cases f.commit_reply) [
        | inl c ↦ rw (a, b, c) (lost _ _ new progress)
        | inr c ↦ rw (a, b, c) (applied _ new progress)
      ]
    ]
  ]
    where
      replayed :
          (some s ≡ none) ⊎ (some s ≡ exec e.sql db.schema) → replay (e ∷ []) db.schema ≡ some s
      replayed (inl h) = absurd (cc)
      replayed (inr h) = rw (← h, replay) refl

      progress :
          Progress start
            (done ++ e ∷ [])
            (record { schema = s; versions = some (names done ++ e.name ∷ []) })
      progress = record {
        versions = ap (λ (ns : List String). some ns) (sym (names-append done e));
        schema = replay-append done (e ∷ []) start db.schema p.schema ∙ replayed how;
      }

  apply_to-Step :
      (start : S) (done : List Entry) (e : Entry) (db : Database S) (f : FileFaults)
      → Progress start done db
      → Step start done e db (apply_to exec f e (names done) db)
  unfolding apply_to
  apply_to-Step start done e db f p = elim (Bool-cases (is_applied e.name (names done))) [
    | inl old ↦ rw old (skipped old)
    | inr new ↦ elim (Bool-cases f.begin) [
      | inl b ↦ rw (new, b) (stuck _)
      | inr b ↦
          rw (new, b)
            (commit_file-Step start done e db f (if f.apply then none else exec e.sql db.schema) new
              p (effect f.apply))
    ]
  ]
    where
      effect :
          (fault : Bool)
          → ((if fault then none else exec e.sql db.schema) ≡ none)
            ⊎ ((if fault then none else exec e.sql db.schema) ≡ exec e.sql db.schema)
      effect true = inl refl
      effect false = inr refl

  apply_one-Step :
      (start : S) (done : List Entry) (e : Entry) (db : Database S) (f : FileFaults)
      → Progress start done db
      → Step start done e db (apply_one exec f e db)
  unfolding apply_one
  apply_one-Step start done e db f p = elim (Bool-cases f.check) [
    | inl a ↦ rw a (stuck _)
    | inr a ↦ rw a (looked_up db.versions p.versions)
  ]
    where
      looked_up :
          (o : Option (List String))
          → o ≡ some (names done)
          → Step start done e db (elim o [
            | none ↦ (some (check_failed e.name), db)
            | some vs ↦ apply_to exec f e vs db
          ])
      looked_up none h = absurd (cc)
      looked_up (some vs) h =
          subst (λ (ns : List String). Step start done e db (apply_to exec f e ns db))
            (sym (some_injective h)) (apply_to-Step start done e db f p)

  -- The end of a boot: an error with some files applied, or none with all of them.
  pub data Booted (start : S) (files : List Entry) : Option MigrateError × Database S → Type 0 where
    halted :
        (x : MigrateError) (done rest : List Entry) (db : Database S)
        → done ++ rest ≡ files
        → Progress start done db
        → Booted start files (some x, db)
    complete : (db : Database S) → Progress start files db → Booted start files (none, db)

  module _ (start : S) (files : List Entry) (faults : String → FileFaults) where
    -- one turn of the loop, whose two ways to go on are given
    turn :
        (done : List Entry) (e : Entry) (rest left : List Entry) (db : Database S)
        → done ++ left ≡ files
        → Progress start done db
        → (is_applied e.name (names done) ≡ true
            → Booted start files (apply_all exec faults rest db))
        → ((db' : Database S)
            → is_applied e.name (names done) ≡ false
            → Progress start (done ++ e ∷ []) db'
            → Booted start files (apply_all exec faults rest db'))
        → (is_applied e.name (names done) ≡ false
            → (left' : List Entry) × ((done ++ e ∷ []) ++ left' ≡ files))
        → Booted start files (apply_all exec faults (e ∷ rest) db)
    unfolding apply_all
    turn done e rest left db split p skip next after =
        stepped _ (apply_one-Step start done e db (faults e.name) p)
      where
        stepped :
            (r : Option MigrateError × Database S)
            → Step start done e db r
            → Booted start files (
                let (error, db') = r in
                let rest' = apply_all exec faults rest db' in
                elim error [ some x ↦ (some x, db') | none ↦ rest' ])
        stepped _ (stuck x) = halted x done left db split p
        stepped _ (skipped old) = skip old
        stepped _ (applied db' new p') = next db' new p'
        stepped _ (lost x db' new p') =
            let (left', split') = after new in halted x (done ++ e ∷ []) left' db' split' p'

    -- the files that are still to be applied
    advance :
        (rest done : List Entry) (db : Database S)
        → done ++ rest ≡ files
        → Distinct (done ++ rest)
        → Progress start done db
        → Booted start files (apply_all exec faults rest db)
    unfolding apply_all
    advance [] done db split d p =
        complete db
          (subst (λ (fs : List Entry). Progress start fs db) (sym (append-nil done) ∙ split) p)
    advance (e ∷ rest) done db split d p =
        turn done e rest (e ∷ rest) db split p
          (λ old. absurd (let new = Distinct-append done e rest d in cc))
          (λ db' new p'.
            advance rest (done ++ e ∷ []) db' (append_assoc done (e ∷ []) rest ∙ split)
              (subst Distinct (sym (append_assoc done (e ∷ []) rest)) d) p')
          (λ new. (rest, append_assoc done (e ∷ []) rest ∙ split))

    -- the files that are applied already
    pub pass :
        (old rest done : List Entry) (db : Database S)
        → Known (names done) old
        → done ++ rest ≡ files
        → Distinct (done ++ rest)
        → Progress start done db
        → Booted start files (apply_all exec faults (old ++ rest) db)
    unfolding Known
    pass [] rest done db k split d p = advance rest done db split d p
    pass (e ∷ old) rest done db (k, ks) split d p =
        turn done e (old ++ rest) rest db split p (λ _. pass old rest done db ks split d p)
          (λ db' new p'. absurd (cc)) (λ new. absurd (cc))
