-- ===== src/Sync/Pull.antt =====
-- The pull half of store.go: delta selects, and the scan of rows into messages.
-- ORDER BY leaves the order of equal keys open; here such rows keep the order of the table.
pub mod Order
pub mod Delivery
use geo_querry.Prelude.{
  ℕ, zero, suc, String, Bool, ◌&&◌, ◌||◌, not, Option, none, some, List, [], ◌∷◌, ◌++◌, map, str_eq,
  if◌then◌else◌, any, filter, find,
}
use geo_querry.Prelude.Int.{ℤ, leb_ℤ, pos}
use geo_querry.Prelude.Double.{Double, ltb_double, finite, is_nan}
use geo_querry.Sync.Messages.{
  Station, Measurement, Sample, Vegetation, Interval, Borehole, Concession,
}
use geo_querry.Sync.Conflict.{DbError}
use geo_querry.Sync.Database.{
  Ids, StationRow, MeasurementRow, SampleRow, VegetationRow, BoreholeRow, IntervalRow,
  ConcessionRow, Db, Result, ok, err, ◌>>=◌, ◌>>◌,
}
use geo_querry.Sync.Store.{invalid_text}
use geo_querry.Sync.Nest.{index_by, attach}

-- deref: a NULL leaves the zero value of the field.
abbrev pub deref {ℓ} : {A : Type ℓ} → A → Option A → A
deref zero_value none = zero_value
deref zero_value (some v) = v

abbrev pub zero_double : Double
zero_double = finite (pos 0)

abbrev pub scan_station : StationRow → Station
scan_station r = record {
  id = r.id;
  project_id = r.project_id;
  code = r.code;
  name = deref "" r.name;
  latitude = r.latitude;
  longitude = r.longitude;
  elevation = r.elevation;
  gps_accuracy = deref zero_double r.gps_accuracy;
  outcrop_exposure = deref "" r.outcrop_exposure;
  lithology = deref "" r.lithology;
  notes = deref "" r.notes;
  updated_at = r.updated_at;
  is_deleted = r.is_deleted;
}

abbrev pub scan_measurement : MeasurementRow → Measurement
scan_measurement r = record {
  id = r.id;
  station_id = r.station_id;
  measurement_type = r.measurement_type;
  strike = r.strike;
  dip = r.dip;
  dip_direction = deref zero_double r.dip_direction;
  autocaptured = r.auto_captured;
  trend = deref zero_double r.trend;
  plunge = deref zero_double r.plunge;
  notes = deref "" r.notes;
  updated_at = r.updated_at;
  is_deleted = r.is_deleted;
}

abbrev pub scan_sample : SampleRow → Sample
scan_sample r = record {
  id = r.id;
  station_id = r.station_id;
  sample_tag = r.sample_tag;
  lithology_class = deref "" r.lithology_class;
  mineralization_notes = deref "" r.mineralization_notes;
  photo_r2_keys = r.photo_r2_keys;
  assays_status = r.assays_status;
  updated_at = r.updated_at;
  is_deleted = r.is_deleted;
}

abbrev pub scan_vegetation : VegetationRow → Vegetation
scan_vegetation r = record {
  id = r.id;
  station_id = r.station_id;
  description = deref "" r.description;
  photo_r2_keys = r.photo_r2_keys;
  updated_at = r.updated_at;
  is_deleted = r.is_deleted;
}

abbrev pub scan_borehole : BoreholeRow → Borehole
scan_borehole r = record {
  id = r.id;
  project_id = r.project_id;
  borehole_code = r.borehole_code;
  name = deref "" r.name;
  latitude = r.latitude;
  longitude = r.longitude;
  collar_elevation = r.collar_elevation;
  total_depth_meters = deref zero_double r.total_depth_meters;
  water_strike_depth = deref zero_double r.water_strike_depth;
  yield_liters_per_hour = deref zero_double r.yield_liters_per_hour;
  intervals = [];
  updated_at = r.updated_at;
  is_deleted = r.is_deleted;
}

abbrev pub scan_interval : IntervalRow → Interval
scan_interval r = record {
  id = r.id;
  depth_from = r.depth_from;
  depth_to = r.depth_to;
  lithology = deref "" r.lithology;
  description = deref "" r.description;
  recovery_percentage = deref zero_double r.recovery_percentage;
}

-- ORDER BY, by a test that a row may stand before another.
module _ {R : Type 0} (before : R → R → Bool) where
  unfoldable pub insert_sorted : R → List R → List R
  insert_sorted r [] = r ∷ []
  insert_sorted r (x ∷ xs) =
      let rest = insert_sorted r xs in if before r x then r ∷ x ∷ xs else x ∷ rest

  unfoldable pub order_by : List R → List R
  unfolding insert_sorted
  order_by [] = []
  order_by (x ∷ xs) = insert_sorted x (order_by xs)

abbrev pub by_stamp : {R : Type 0} → (R → ℤ) → R → R → Bool
by_stamp stamp a b = leb_ℤ (stamp a) (stamp b)

-- The order of a DOUBLE PRECISION column: NaN stands last.
abbrev pub by_depth : IntervalRow → IntervalRow → Bool
by_depth a b =
    is_nan b.depth_from || not (is_nan a.depth_from) && not (ltb_double b.depth_from a.depth_from)

-- A query with an identifier parameter, after what the environment does to it.
abbrev pub select :
    {A : Type 0} → Ids → Option DbError → String → (String → List A) → Result (List A)
select ids (some e) project_id rows = err e
select ids none project_id rows = elim (ids.cast project_id) [
  | none ↦ err invalid_text
  | some p ↦ ok (rows p)
]

-- s.project_id, where `stations s` is joined on its primary key
abbrev pub in_project : Db → String → String → Bool
in_project db station_id p = any (λ s. str_eq s.id station_id && str_eq s.project_id p) db.stations

unfoldable pub station_delta : Db → ℤ → String → List StationRow
unfolding order_by
station_delta db since p =
    order_by (by_stamp (λ r. r.updated_at))
      (filter (λ r. str_eq r.project_id p && leb_ℤ since r.updated_at) db.stations)

unfoldable pub measurement_delta : Db → ℤ → String → List MeasurementRow
unfolding order_by
measurement_delta db since p =
    order_by (by_stamp (λ r. r.updated_at))
      (filter (λ r. in_project db r.station_id p && leb_ℤ since r.updated_at) db.measurements)

unfoldable pub sample_delta : Db → ℤ → String → List SampleRow
unfolding order_by
sample_delta db since p =
    order_by (by_stamp (λ r. r.updated_at))
      (filter (λ r. in_project db r.station_id p && leb_ℤ since r.updated_at) db.samples)

unfoldable pub vegetation_delta : Db → ℤ → String → List VegetationRow
unfolding order_by
vegetation_delta db since p =
    order_by (by_stamp (λ r. r.updated_at))
      (filter (λ r. in_project db r.station_id p && leb_ℤ since r.updated_at) db.vegetation)

unfoldable pub borehole_delta : Db → ℤ → String → List BoreholeRow
unfolding order_by
borehole_delta db since p =
    order_by (by_stamp (λ r. r.updated_at))
      (filter (λ r. str_eq r.project_id p && leb_ℤ since r.updated_at) db.boreholes)

-- PullStations, PullMeasurements, PullSamples, PullVegetation
unfoldable pub pull_stations : Ids → Option DbError → Db → String → ℤ → Result (List Station)
unfolding station_delta
pull_stations ids fault db project_id since =
    select ids fault project_id (λ p. map scan_station (station_delta db since p))

unfoldable pub pull_measurements :
    Ids → Option DbError → Db → String → ℤ → Result (List Measurement)
unfolding measurement_delta
pull_measurements ids fault db project_id since =
    select ids fault project_id (λ p. map scan_measurement (measurement_delta db since p))

unfoldable pub pull_samples : Ids → Option DbError → Db → String → ℤ → Result (List Sample)
unfolding sample_delta
pull_samples ids fault db project_id since =
    select ids fault project_id (λ p. map scan_sample (sample_delta db since p))

unfoldable pub pull_vegetation : Ids → Option DbError → Db → String → ℤ → Result (List Vegetation)
unfolding vegetation_delta
pull_vegetation ids fault db project_id since =
    select ids fault project_id (λ p. map scan_vegetation (vegetation_delta db since p))

-- the intervals of the boreholes of the delta
unfoldable pub interval_delta : Db → ℤ → String → List IntervalRow
unfolding order_by
interval_delta db since p = order_by by_depth (
    filter
      (λ iv.
        any (λ b. str_eq b.id iv.borehole_id && str_eq b.project_id p && leb_ℤ since b.updated_at)
          db.boreholes)
      db.intervals)

abbrev pub add_interval : IntervalRow → Borehole → Borehole
add_interval iv b = record b { intervals = b.intervals ++ scan_interval iv ∷ [] }

nest_intervals : Ids → Option DbError → Db → String → ℤ → List Borehole → Result (List Borehole)
unfolding interval_delta index_by attach
nest_intervals ids fault db project_id since [] = ok []
nest_intervals ids fault db project_id since (b ∷ bs) = do
  rows ← select ids fault project_id (interval_delta db since)
  ok (attach (λ iv. iv.borehole_id) add_interval (index_by (λ x. x.id) (b ∷ bs)) rows (b ∷ bs))

-- PullBoreholes; the two faults are those of its two queries.
unfoldable pub pull_boreholes :
    Ids → Option DbError → Option DbError → Db → String → ℤ → Result (List Borehole)
unfolding borehole_delta nest_intervals
pull_boreholes ids fault fault' db project_id since = do
  out ← select ids fault project_id (λ p. map scan_borehole (borehole_delta db since p))
  nest_intervals ids fault' db project_id since out

abbrev pub scan_concession : ConcessionRow → Concession
scan_concession r = record {
  id = r.id;
  project_id = r.project_id;
  code = r.code;
  name = r.name;
  license_type = r.license_type;
  geojson_geometry = deref "" r.geojson_geometry;
  status = r.status;
  valid_until = deref (pos 0) r.valid_until;
  updated_at = r.updated_at;
}

unfoldable pub concession_delta : Db → ℤ → String → List ConcessionRow
unfolding order_by
concession_delta db since p =
    order_by (by_stamp (λ r. r.updated_at))
      (filter (λ r. str_eq r.project_id p && leb_ℤ since r.updated_at) db.concessions)

-- PullConcessions
unfoldable pub pull_concessions : Ids → Option DbError → Db → String → ℤ → Result (List Concession)
unfolding concession_delta
pull_concessions ids fault db project_id since =
    select ids fault project_id (λ p. map scan_concession (concession_delta db since p))
