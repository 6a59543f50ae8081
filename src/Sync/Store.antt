-- ===== src/Sync/Store.antt =====
-- The push half of store.go: one guarded upsert for each kind of entity. `fault` is what the
-- environment does to a statement: it fails with an error before it writes, or it runs.
pub mod Upsert
pub mod Intervals
pub mod Boreholes
pub mod Move
pub mod Growth
use geo_querry.Prelude.{
  String, Bool, true, false, not, ◌&&◌, Option, none, some, List, [], ◌∷◌, ◌++◌, str_eq, any,
  filter, if◌then◌else◌,
}
use geo_querry.Sync.Messages.{Station, Measurement, Sample, Vegetation, Interval, Borehole}
use geo_querry.Sync.Conflict.{
  DbError, pg_error, Upshot, conflict_stale, no_message, finish_upshot, resolve_upshot,
}
use geo_querry.Sync.Database.{
  Ids, StationRow, MeasurementRow, SampleRow, VegetationRow, BoreholeRow, IntervalRow, Db, QueryRow,
  row, no_rows, query_error, Result, ok, err, ◌>>=◌, ◌>>◌, station_clock, measurement_clock,
  sample_clock, vegetation_clock, borehole_clock,
}
use geo_querry.Sync.Table.{Clocked, insert_on_conflict, clashes}
pub use geo_querry.Sync.Rows.{
  str_slice_or_empty, cast_both, station_row, measurement_row, sample_row, vegetation_row,
  borehole_row, interval_row,
}

abbrev pub unique_violation : DbError
unique_violation = pg_error "23505" "duplicate key value violates unique constraint"

abbrev pub foreign_key_violation : DbError
foreign_key_violation = pg_error "23503" "violates foreign key constraint"

abbrev pub invalid_text : DbError
invalid_text = pg_error "22P02" "invalid input syntax for type uuid"

-- The guarded upsert under the table's UNIQUE constraint `same` and its REFERENCES constraint.
-- A violation undoes the statement; a row that the guard skips is not checked.
unfoldable pub guarded_upsert :
    {R : Type 0} (c : Clocked R) → (R → R → Bool) → (parent : Bool) → R → List R → QueryRow × List R
guarded_upsert c same parent r rows =
    let (returned, rows') = insert_on_conflict c r rows in
    elim returned [
      | none ↦ (no_rows, rows')
      | some was_insert ↦
          if clashes c same r rows
          then (query_error unique_violation, rows)
          else if parent
          then (row was_insert, rows')
          else (query_error foreign_key_violation, rows)
    ]

-- The columns of each UNIQUE constraint beside the primary key.
abbrev pub same_station_code : StationRow → StationRow → Bool
same_station_code x r = str_eq x.project_id r.project_id && str_eq x.code r.code

abbrev pub same_sample_tag : SampleRow → SampleRow → Bool
same_sample_tag x r = str_eq x.station_id r.station_id && str_eq x.sample_tag r.sample_tag

abbrev pub same_borehole_code : BoreholeRow → BoreholeRow → Bool
same_borehole_code x r = str_eq x.project_id r.project_id && str_eq x.borehole_code r.borehole_code

abbrev pub no_constraint : {R : Type 0} → R → R → Bool
no_constraint x r = false

abbrev pub has_project : String → Db → Bool
has_project p db = any (λ q. str_eq q p) db.projects

abbrev pub has_station : String → Db → Bool
has_station s db = any (λ x. str_eq x.id s) db.stations

-- What a statement reports, and the tables after it, if `fault` comes first.
abbrev pub with_fault : {A : Type 0} → Option DbError → Db → Result A × Db → Result A × Db
with_fault (some e) db r = (err e, db)
with_fault none db r = r

-- `Scan(&wasInsert)` after a statement.
abbrev pub query_with_fault : Option DbError → Db → QueryRow × Db → QueryRow × Db
query_with_fault (some e) db r = (query_error e, db)
query_with_fault none db r = r

-- execLWW: (applied, wasInsert, err)
unfoldable pub exec_lww : QueryRow → Bool × Bool × Option DbError
exec_lww no_rows = (false, false, none)
exec_lww (query_error e) = (false, false, some e)
exec_lww (row was_insert) = (true, was_insert, none)

unfoldable pub finish_lww : QueryRow × Db → Upshot × Db
unfolding exec_lww finish_upshot
finish_lww (q, db) =
    let (applied, was_insert, e) = exec_lww q in (finish_upshot applied was_insert e, db)

-- UpsertStation
unfoldable pub station_statement : Ids → Db → Station → QueryRow × Db
station_statement ids db st = elim (cast_both ids st.id st.project_id) [
  | none ↦ (query_error invalid_text, db)
  | some (id, project_id) ↦
      let (q, rows) =
        guarded_upsert station_clock same_station_code (has_project project_id db)
          (station_row (id, project_id) st) db.stations in
      (q, record db { stations = rows })
]

unfoldable pub upsert_station : Ids → Option DbError → Station → Db → Upshot × Db
unfolding finish_lww station_statement
upsert_station ids fault st db =
    finish_lww (query_with_fault fault db (station_statement ids db st))

-- UpsertMeasurement
unfoldable pub measurement_statement : Ids → Db → Measurement → QueryRow × Db
measurement_statement ids db m = elim (cast_both ids m.id m.station_id) [
  | none ↦ (query_error invalid_text, db)
  | some (id, station_id) ↦
      let (q, rows) =
        guarded_upsert measurement_clock no_constraint (has_station station_id db)
          (measurement_row (id, station_id) m) db.measurements in
      (q, record db { measurements = rows })
]

unfoldable pub upsert_measurement : Ids → Option DbError → Measurement → Db → Upshot × Db
unfolding finish_lww measurement_statement
upsert_measurement ids fault m db =
    finish_lww (query_with_fault fault db (measurement_statement ids db m))

-- UpsertSample
unfoldable pub sample_statement : Ids → Db → Sample → QueryRow × Db
sample_statement ids db r = elim (cast_both ids r.id r.station_id) [
  | none ↦ (query_error invalid_text, db)
  | some (id, station_id) ↦
      let (q, rows) =
        guarded_upsert sample_clock same_sample_tag (has_station station_id db)
          (sample_row (id, station_id) r) db.samples in
      (q, record db { samples = rows })
]

unfoldable pub upsert_sample : Ids → Option DbError → Sample → Db → Upshot × Db
unfolding finish_lww sample_statement
upsert_sample ids fault r db = finish_lww (query_with_fault fault db (sample_statement ids db r))

-- UpsertVegetation
unfoldable pub vegetation_statement : Ids → Db → Vegetation → QueryRow × Db
vegetation_statement ids db veg = elim (cast_both ids veg.id veg.station_id) [
  | none ↦ (query_error invalid_text, db)
  | some (id, station_id) ↦
      let (q, rows) =
        guarded_upsert vegetation_clock no_constraint (has_station station_id db)
          (vegetation_row (id, station_id) veg) db.vegetation in
      (q, record db { vegetation = rows })
]

unfoldable pub upsert_vegetation : Ids → Option DbError → Vegetation → Db → Upshot × Db
unfolding finish_lww vegetation_statement
upsert_vegetation ids fault veg db =
    finish_lww (query_with_fault fault db (vegetation_statement ids db veg))

-- What the environment does to the five round trips of UpsertBorehole: `commits` is a COMMIT that
-- the server refuses, `commit_reply` one that it carries out and whose reply is lost.
pub record TxFaults : Type 0 where
  pub begins : Option DbError
  pub query : Option DbError
  pub deletes : Option DbError
  pub batch : Option DbError
  pub commits : Option DbError
  pub commit_reply : Option DbError

unfoldable pub borehole_statement : Ids → Db → Borehole → QueryRow × Db
borehole_statement ids db b = elim (cast_both ids b.id b.project_id) [
  | none ↦ (query_error invalid_text, db)
  | some (id, project_id) ↦
      let (q, rows) =
        guarded_upsert borehole_clock same_borehole_code (has_project project_id db)
          (borehole_row (id, project_id) b) db.boreholes in
      (q, record db { boreholes = rows })
]

-- DELETE FROM borehole_intervals WHERE borehole_id = $1::uuid
unfoldable pub delete_intervals : Ids → String → Db → Result Unit × Db
delete_intervals ids borehole_id db = elim (ids.cast borehole_id) [
  | none ↦ (err invalid_text, db)
  | some id ↦
      (ok tt, record db { intervals = filter (λ iv. not (str_eq iv.borehole_id id)) db.intervals })
]

-- The queued INSERTs of the batch, in order; the first error ends it.
unfoldable pub insert_intervals :
    Ids → String → List Interval → List IntervalRow → Result (List IntervalRow)
insert_intervals ids borehole_id [] rows = ok rows
insert_intervals ids borehole_id (iv ∷ ivs) rows =
    let rest = λ (id : String × String).
      insert_intervals ids borehole_id ivs (rows ++ interval_row id iv ∷ []) in
    elim (cast_both ids iv.id borehole_id) [
      | none ↦ err invalid_text
      | some id ↦ if any (λ x. str_eq x.id id.0) rows then err unique_violation else rest id
    ]

unfoldable pub insert_batch : Ids → Borehole → Db → Result Unit × Db
unfolding insert_intervals
insert_batch ids b db = elim (insert_intervals ids b.id b.intervals db.intervals) [
  | err e ↦ (err e, db)
  | ok rows ↦ (ok tt, record db { intervals = rows })
]

-- An empty list of intervals sends no batch.
unfoldable pub send_batch : Ids → Option DbError → Borehole → Db → Result Unit × Db
unfolding insert_batch
send_batch ids fault b db = elim b.intervals [
  | [] ↦ (ok tt, db)
  | _ ∷ _ ↦ with_fault fault db (insert_batch ids b db)
]

-- The transaction after an accepted borehole: its intervals are replaced, and it commits.
unfoldable pub replace_intervals : Ids → TxFaults → Borehole → Db → Result Db
unfolding delete_intervals send_batch
replace_intervals ids faults b db =
    let (deleted, db₁) = with_fault faults.deletes db (delete_intervals ids b.id db) in
    let (inserted, db₂) = send_batch ids faults.batch b db₁ in
    do deleted; inserted; elim faults.commits [ some e ↦ err e | none ↦ ok db₂ ]

-- What UpsertBorehole answers once the server has committed.
abbrev pub committed : TxFaults → Bool → Upshot
committed faults was_insert = elim faults.commit_reply [
  | some e ↦ finish_upshot false false (some e)
  | none ↦ record { status = resolve_upshot true was_insert; msg = no_message }
]

-- UpsertBorehole after its query: unless the server has committed, the transaction is rolled back.
unfoldable pub after_query : Ids → TxFaults → Borehole → Db → QueryRow × Db → Upshot × Db
unfolding finish_upshot replace_intervals resolve_upshot
after_query ids faults b db (no_rows, db₁) =
    (record { status = conflict_stale; msg = no_message }, db)
after_query ids faults b db (query_error e, db₁) = (finish_upshot false false (some e), db)
after_query ids faults b db (row was_insert, db₁) = elim (replace_intervals ids faults b db₁) [
  | err e ↦ (finish_upshot false false (some e), db)
  | ok db₂ ↦ (committed faults was_insert, db₂)
]

-- UpsertBorehole
unfoldable pub upsert_borehole : Ids → TxFaults → Borehole → Db → Upshot × Db
unfolding after_query borehole_statement
upsert_borehole ids faults b db = elim faults.begins [
  | some e ↦ (finish_upshot false false (some e), db)
  | none ↦
      after_query ids faults b db (query_with_fault faults.query db (borehole_statement ids db b))
]
