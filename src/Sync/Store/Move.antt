-- ===== src/Sync/Store/Move.antt =====
-- The push half of the store as a step relation on the database: whatever the entity and whatever
-- the environment does, a push writes one row under the constraints of its table, or nothing.
use geo_querry.Prelude.{
  ◌≡◌, refl, ap, inl, inr, Bool, true, false, Option, none, some, List, ◌++◌, Option-cases, All,
}
use geo_querry.Sync.Messages.{Station, Measurement, Sample, Vegetation, Borehole}
use geo_querry.Sync.Conflict.{DbError}
use geo_querry.Sync.Database.{
  Ids, StationRow, MeasurementRow, SampleRow, VegetationRow, BoreholeRow, IntervalRow, Db, QueryRow,
  station_clock, measurement_clock, sample_clock, vegetation_clock, borehole_clock,
}
use geo_querry.Sync.Table.{Clocked, insert_on_conflict, clashes}
use geo_querry.Sync.Store.{
  guarded_upsert, same_station_code, same_sample_tag, same_borehole_code, no_constraint,
  has_project, has_station, cast_both, query_with_fault, finish_lww, station_row, station_statement,
  upsert_station, measurement_row, measurement_statement, upsert_measurement, sample_row,
  sample_statement, upsert_sample, vegetation_row, vegetation_statement, upsert_vegetation,
  TxFaults, upsert_borehole,
}
use geo_querry.Sync.Store.Intervals.{AllFresh, other_intervals}
use geo_querry.Sync.Store.Boreholes.{kept, accepted, upsert_borehole-Outcome}
use geo_querry.Sync.Store.Upsert.{skipped, refused, written, guarded_upsert-Outcome}

pub data Move (db db' : Db) : Type 0 where
  nothing : db' ≡ db → Move db db'
  station :
      (r : StationRow)
      → clashes station_clock same_station_code r db.stations ≡ false
      → has_project r.project_id db ≡ true
      → db' ≡ record db { stations = (insert_on_conflict station_clock r db.stations).1 }
      → Move db db'
  measurement :
      (r : MeasurementRow)
      → has_station r.station_id db ≡ true
      → db'
        ≡ record db { measurements = (insert_on_conflict measurement_clock r db.measurements).1 }
      → Move db db'
  sample :
      (r : SampleRow)
      → clashes sample_clock same_sample_tag r db.samples ≡ false
      → has_station r.station_id db ≡ true
      → db' ≡ record db { samples = (insert_on_conflict sample_clock r db.samples).1 }
      → Move db db'
  vegetation :
      (r : VegetationRow)
      → has_station r.station_id db ≡ true
      → db' ≡ record db { vegetation = (insert_on_conflict vegetation_clock r db.vegetation).1 }
      → Move db db'
  borehole :
      (r : BoreholeRow) (ivs : List IntervalRow)
      → clashes borehole_clock same_borehole_code r db.boreholes ≡ false
      → has_project r.project_id db ≡ true
      → All (λ iv. iv.borehole_id ≡ r.id) ivs
      → AllFresh (other_intervals r.id db.intervals) ivs
      → db' ≡ record db {
        boreholes = (insert_on_conflict borehole_clock r db.boreholes).1;
        intervals = other_intervals r.id db.intervals ++ ivs;
      }
      → Move db db'

pub data Reach (db : Db) : Db → Type 0 where
  here : Reach db db
  next : {d e : Db} → Reach db d → Move d e → Reach db e

pub Reach-trans : {a b d : Db} → Reach a b → Reach b d → Reach a d
Reach-trans r here = r
Reach-trans r (next s m) = next (Reach-trans r s) m

-- A statement that fails first, or that writes `rows'` into its table.
with_fault-Move :
    (fault : Option DbError) (db : Db) (s : QueryRow × Db)
    → Move db s.1
    → Move db (finish_lww (query_with_fault fault db s)).1
unfolding finish_lww
with_fault-Move none db s m = m
with_fault-Move (some e) db s m = nothing refl

-- `put` writes a table back into the database.
module _ {R : Type 0} (c : Clocked R) (same : R → R → Bool) (parent : Bool) (r : R) (rows : List R)
    (put : List R → Db) where
  pub guarded_upsert-Move :
      (clashes c same r rows ≡ false
        → parent ≡ true
        → Move (put rows) (put (insert_on_conflict c r rows).1))
      → Move (put rows) (put (guarded_upsert c same parent r rows).1)
  guarded_upsert-Move wrote = elim (guarded_upsert-Outcome c same parent r rows) [
    | skipped x g le q e ↦ nothing (ap put e)
    | refused d q e why newer ↦ nothing (ap put e)
    | written b q e free there v ↦ rw e (wrote free there)
  ]

module _ (ids : Ids) (db : Db) where
  station_statement-Move : (st : Station) → Move db (station_statement ids db st).1
  unfolding station_statement
  station_statement-Move st = elim (Option-cases (cast_both ids st.id st.project_id)) [
    | inl e ↦ rw (e, station_statement) (nothing refl)
    | inr ((id, p), e) ↦
        rw (e, station_statement)
          (guarded_upsert-Move station_clock same_station_code (has_project p db)
            (station_row (id, p) st) db.stations (λ rows. record db { stations = rows })
            λ free there. station (station_row (id, p) st) free there refl)
  ]

  measurement_statement-Move : (m : Measurement) → Move db (measurement_statement ids db m).1
  unfolding measurement_statement
  measurement_statement-Move m = elim (Option-cases (cast_both ids m.id m.station_id)) [
    | inl e ↦ rw (e, measurement_statement) (nothing refl)
    | inr ((id, s), e) ↦
        rw (e, measurement_statement)
          (guarded_upsert-Move measurement_clock no_constraint (has_station s db)
            (measurement_row (id, s) m) db.measurements (λ rows. record db { measurements = rows })
            λ free there. measurement (measurement_row (id, s) m) there refl)
  ]

  sample_statement-Move : (r : Sample) → Move db (sample_statement ids db r).1
  unfolding sample_statement
  sample_statement-Move r = elim (Option-cases (cast_both ids r.id r.station_id)) [
    | inl e ↦ rw (e, sample_statement) (nothing refl)
    | inr ((id, s), e) ↦
        rw (e, sample_statement)
          (guarded_upsert-Move sample_clock same_sample_tag (has_station s db)
            (sample_row (id, s) r) db.samples (λ rows. record db { samples = rows })
            λ free there. sample (sample_row (id, s) r) free there refl)
  ]

  vegetation_statement-Move : (veg : Vegetation) → Move db (vegetation_statement ids db veg).1
  unfolding vegetation_statement
  vegetation_statement-Move veg = elim (Option-cases (cast_both ids veg.id veg.station_id)) [
    | inl e ↦ rw (e, vegetation_statement) (nothing refl)
    | inr ((id, s), e) ↦
        rw (e, vegetation_statement)
          (guarded_upsert-Move vegetation_clock no_constraint (has_station s db)
            (vegetation_row (id, s) veg) db.vegetation (λ rows. record db { vegetation = rows })
            λ free there. vegetation (vegetation_row (id, s) veg) there refl)
  ]

  pub upsert_station-Move :
      (fault : Option DbError) (st : Station) → Move db (upsert_station ids fault st db).1
  unfolding upsert_station
  upsert_station-Move fault st =
      with_fault-Move fault db (station_statement ids db st) (station_statement-Move st)

  pub upsert_measurement-Move :
      (fault : Option DbError) (m : Measurement) → Move db (upsert_measurement ids fault m db).1
  unfolding upsert_measurement
  upsert_measurement-Move fault m =
      with_fault-Move fault db (measurement_statement ids db m) (measurement_statement-Move m)

  pub upsert_sample-Move :
      (fault : Option DbError) (r : Sample) → Move db (upsert_sample ids fault r db).1
  unfolding upsert_sample
  upsert_sample-Move fault r =
      with_fault-Move fault db (sample_statement ids db r) (sample_statement-Move r)

  pub upsert_vegetation-Move :
      (fault : Option DbError) (veg : Vegetation) → Move db (upsert_vegetation ids fault veg db).1
  unfolding upsert_vegetation
  upsert_vegetation-Move fault veg =
      with_fault-Move fault db (vegetation_statement ids db veg) (vegetation_statement-Move veg)

  pub upsert_borehole-Move :
      (faults : TxFaults) (b : Borehole) → Move db (upsert_borehole ids faults b db).1
  upsert_borehole-Move faults b = elim (upsert_borehole-Outcome ids faults b db) [
    | kept e status ↦ nothing e
    | accepted id p new w cast free there v log fresh ours status e ↦
        borehole _ new free there ours fresh e
  ]
