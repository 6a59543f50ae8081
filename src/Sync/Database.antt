-- ===== src/Sync/Database.antt =====
-- The tables of backend/internal/db/migrations/000001_init.sql that the sync engine reads and
-- writes, with the outcomes of a statement. A nullable column that the code scans through a
-- pointer is an `Option`; identifiers are in the form in which Postgres prints them.
use geo_querry.Prelude.{String, Bool, Option, List}
use geo_querry.Prelude.Int.{ℤ}
use geo_querry.Prelude.Double.{Double}
use geo_querry.Sync.Conflict.{DbError}
use geo_querry.Sync.Table.{Clocked}

-- The two readers of identifiers that the code relies on: `uuid.Parse` of github.com/google/uuid,
-- and the cast `::uuid` of Postgres, which gives the printed form of what it accepts.
pub record Ids : Type 0 where
  pub parses : String → Bool
  pub cast : String → Option String

pub record StationRow : Type 0 where
  pub id : String
  pub project_id : String
  pub code : String
  pub name : Option String
  pub latitude : Double
  pub longitude : Double
  pub elevation : Double
  pub gps_accuracy : Option Double
  pub outcrop_exposure : Option String
  pub lithology : Option String
  pub notes : Option String
  pub updated_at : ℤ
  pub is_deleted : Bool

pub record MeasurementRow : Type 0 where
  pub id : String
  pub station_id : String
  pub measurement_type : String
  pub strike : Double
  pub dip : Double
  pub dip_direction : Option Double
  pub auto_captured : Bool
  pub trend : Option Double
  pub plunge : Option Double
  pub notes : Option String
  pub updated_at : ℤ
  pub is_deleted : Bool

pub record SampleRow : Type 0 where
  pub id : String
  pub station_id : String
  pub sample_tag : String
  pub lithology_class : Option String
  pub mineralization_notes : Option String
  pub photo_r2_keys : List String
  pub assays_status : String
  pub updated_at : ℤ
  pub is_deleted : Bool

pub record VegetationRow : Type 0 where
  pub id : String
  pub station_id : String
  pub description : Option String
  pub photo_r2_keys : List String
  pub updated_at : ℤ
  pub is_deleted : Bool

pub record BoreholeRow : Type 0 where
  pub id : String
  pub project_id : String
  pub borehole_code : String
  pub name : Option String
  pub latitude : Double
  pub longitude : Double
  pub collar_elevation : Double
  pub total_depth_meters : Option Double
  pub water_strike_depth : Option Double
  pub yield_liters_per_hour : Option Double
  pub updated_at : ℤ
  pub is_deleted : Bool

pub record IntervalRow : Type 0 where
  pub id : String
  pub borehole_id : String
  pub depth_from : Double
  pub depth_to : Double
  pub lithology : Option String
  pub description : Option String
  pub recovery_percentage : Option Double

-- `geojson_geometry` is ST_AsGeoJSON(geom), and `valid_until` counts milliseconds.
pub record ConcessionRow : Type 0 where
  pub id : String
  pub project_id : String
  pub code : String
  pub name : String
  pub license_type : String
  pub geojson_geometry : Option String
  pub status : String
  pub valid_until : Option ℤ
  pub updated_at : ℤ

pub record Db : Type 0 where
  pub projects : List String
  pub stations : List StationRow
  pub measurements : List MeasurementRow
  pub samples : List SampleRow
  pub vegetation : List VegetationRow
  pub boreholes : List BoreholeRow
  pub intervals : List IntervalRow
  pub concessions : List ConcessionRow

abbrev pub station_clock : Clocked StationRow
station_clock = record { key = λ r. r.id; stamp = λ r. r.updated_at }

abbrev pub measurement_clock : Clocked MeasurementRow
measurement_clock = record { key = λ r. r.id; stamp = λ r. r.updated_at }

abbrev pub sample_clock : Clocked SampleRow
sample_clock = record { key = λ r. r.id; stamp = λ r. r.updated_at }

abbrev pub vegetation_clock : Clocked VegetationRow
vegetation_clock = record { key = λ r. r.id; stamp = λ r. r.updated_at }

abbrev pub borehole_clock : Clocked BoreholeRow
borehole_clock = record { key = λ r. r.id; stamp = λ r. r.updated_at }

-- What `QueryRow(…).Scan(&wasInsert)` reports: a row, pgx.ErrNoRows, or another error.
pub data QueryRow : Type 0 where
  row : Bool → QueryRow
  no_rows : QueryRow
  query_error : DbError → QueryRow

-- The outcome of a statement, or of a function, that may fail.
pub data Result (A : Type 0) : Type 0 where
  ok : A → Result A
  err : DbError → Result A

infixl 5 ◌>>=◌ ◌>>◌
abbrev pub ◌>>=◌ : {A B : Type 0} → Result A → (A → Result B) → Result B
ok a >>= f = f a
err e >>= f = err e

abbrev pub ◌>>◌ : {B : Type 0} → Result Unit → Result B → Result B
m >> k = m >>= λ _. k
