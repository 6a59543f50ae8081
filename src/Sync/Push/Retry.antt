-- ===== src/Sync/Push/Retry.antt =====
-- A batch of stations that is sent again, as a device does that never saw the answer.
use geo_querry.Prelude.{
  String, ◌≡◌, refl, ap, subst, ◌∙◌, inl, inr, Bool, none, some, Option, List, [], ◌∷◌, arith,
  Option-cases, All,
}
use geo_querry.Sync.Messages.{Station}
use geo_querry.Sync.Conflict.{DbError}
use geo_querry.Sync.Database.{Ids, Db, StationRow, station_clock}
use geo_querry.Sync.Table.{insert_on_conflict}
use geo_querry.Sync.Table.Laws.{returned-insert_on_conflict, insert_on_conflict-none}
use geo_querry.Sync.Table.Merge.{KeptAtLeast, pushed-KeptAtLeast}
use geo_querry.Sync.Store.{
  guarded_upsert, same_station_code, has_project, cast_both, finish_lww, station_row,
  station_statement, upsert_station,
}
use geo_querry.Sync.Store.Move.{Reach}
use geo_querry.Sync.Store.Growth.{Grows, Reach-Grows}
use geo_querry.Sync.Validate.{validate_station}
use geo_querry.Sync.Push.{push_station, push_each}
use geo_querry.Sync.Push.Reach.{push_station-Move, push_each-Reach}
use geo_querry.Sync.Push.Results.{Accepted}
use geo_querry.Sync.Push.Converge.{Applied, push_station-Applied, push_stations}

module _ (ids : Ids) (batch : String) where
  -- The station is stored, in this version or a later one.
  pub record IsStored (st : Station) (db : Db) : Type 0 where
    pub id : String
    pub project_id : String
    pub cast : cast_both ids st.id st.project_id ≡ some (id, project_id)
    pub kept : KeptAtLeast station_clock (station_row (id, project_id) st) id db.stations

  Applied-IsStored : {st : Station} {db db' : Db} → Applied ids batch st db db' → IsStored st db'
  Applied-IsStored {st} {db} a = record {
    id = a.id;
    project_id = a.project_id;
    cast = a.cast;
    kept =
        rw (a.effect)
          (pushed-KeptAtLeast station_clock (station_row (a.id, a.project_id) st) db.stations);
  }

  IsStored-Grows : {st : Station} {db db' : Db} → Grows db db' → IsStored st db → IsStored st db'
  IsStored-Grows {st} g s = record {
    id = s.id;
    project_id = s.project_id;
    cast = s.cast;
    kept = g.stations (station_row (s.id, s.project_id) st) s.id s.kept;
  }

  guarded_upsert-stored :
      (r : StationRow) (parent : Bool) (rows : List StationRow)
      → KeptAtLeast station_clock r r.id rows
      → (guarded_upsert station_clock same_station_code parent r rows).1 ≡ rows
  unfolding guarded_upsert
  guarded_upsert-stored r parent rows (x, e, le) =
      let skip : (insert_on_conflict station_clock r rows).0 ≡ none =
        returned-insert_on_conflict station_clock r rows ∙ ground arith in
      rw (skip, guarded_upsert) (insert_on_conflict-none station_clock r rows skip)

  -- A station that is stored in this version or a later one is not written again.
  push_station-stored :
      (st : Station) (fault : Option DbError) (db : Db)
      → IsStored st db
      → (push_station ids batch (st, fault) db).1 ≡ db
  unfolding push_station upsert_station station_statement finish_lww
  push_station-stored st fault db s = elim (Option-cases (validate_station ids batch st)) [
    | inr (e, v) ↦ rw (v, push_station) refl
    | inl v ↦ elim (Option-cases fault) [
      | inr (e, f) ↦ rw (v, f, push_station) refl
      | inl f ↦
          rw (v, f, s.cast, push_station, station_statement)
            (ap (λ (rs : List StationRow). record db { stations = rs })
              (guarded_upsert-stored (station_row (s.id, s.project_id) st)
                (has_project s.project_id db) db.stations s.kept))
    ]
  ]

  All-map :
      {A : Type 0} {P Q : A → Type 0} (xs : List A) → ((x : A) → P x → Q x) → All P xs → All Q xs
  All-map [] f h = tt
  All-map (x ∷ xs) f h = (f x h.0, All-map xs f h.1)

  push_stations-IsStored :
      (xs : List (Station × Option DbError)) (db : Db)
      → All Accepted (push_stations ids batch xs db).0
      → All (λ x. IsStored x.0 (push_stations ids batch xs db).1) xs
  unfolding push_each
  push_stations-IsStored [] db ok = tt
  push_stations-IsStored ((st, fault) ∷ xs) db ok =
      let d = (push_station ids batch (st, fault) db).1 in
      (
        IsStored-Grows
            (Reach-Grows
              (push_each-Reach (push_station ids batch) (push_station-Move ids batch) xs d))
            (Applied-IsStored (push_station-Applied ids batch fault st db ok.0)),
        push_stations-IsStored xs d ok.1,
      )

  resend :
      (xs : List (Station × Option DbError)) (db : Db)
      → All (λ x. IsStored x.0 db) xs
      → (push_stations ids batch xs db).1 ≡ db
  unfolding push_each
  resend [] db h = refl
  resend ((st, fault) ∷ xs) db h =
      let e = push_station-stored st fault db h.0 in
      ap (λ (d : Db). (push_stations ids batch xs d).1) e ∙ resend xs db h.1

  -- the same stations, whatever happens to their statements this time
  abbrev pub SameStations :
      List (Station × Option DbError) → List (Station × Option DbError) → Type 0
  SameStations [] [] = Unit {0}
  SameStations (x ∷ xs) (y ∷ ys) = (x.0 ≡ y.0) × SameStations xs ys
  SameStations _ _ = ⊥

  SameStations-All :
      (P : Station → Type 0) (xs ys : List (Station × Option DbError))
      → SameStations xs ys
      → All (λ x. P x.0) xs
      → All (λ x. P x.0) ys
  SameStations-All P [] [] s h = tt
  SameStations-All P [] (y ∷ ys) s h = absurd s
  SameStations-All P (x ∷ xs) [] s h = absurd s
  SameStations-All P (x ∷ xs) (y ∷ ys) s h = (subst P s.0 h.0, SameStations-All P xs ys s.1 h.1)

  -- After a batch of stations of which none was rejected, and any later activity of the store, the
  -- same stations sent again change nothing, whatever happens to their statements this time.
  pub push_stations-again :
      (xs ys : List (Station × Option DbError)) (db d : Db)
      → All Accepted (push_stations ids batch xs db).0
      → Reach (push_stations ids batch xs db).1 d
      → SameStations xs ys
      → (push_stations ids batch ys d).1 ≡ d
  push_stations-again xs ys db d ok later same = resend ys d (
      SameStations-All (λ st. IsStored st d) xs ys same
        (All-map xs (λ x s. IsStored-Grows (Reach-Grows later) s)
          (push_stations-IsStored xs db ok)))
