-- ===== src/Sync/Rows.antt =====
-- The parameters that the upserts of backend/internal/sync/store.go pass: the row for a message,
-- under the identifiers that Postgres makes of its texts.
use geo_querry.Prelude.{String, Option, none, some, List}
use geo_querry.Sync.Messages.{Station, Measurement, Sample, Vegetation, Interval, Borehole}
use geo_querry.Sync.Database.{
  Ids, StationRow, MeasurementRow, SampleRow, VegetationRow, BoreholeRow, IntervalRow,
}

-- strSliceOrEmpty: a proto list is never nil here, so this is the list itself.
abbrev pub str_slice_or_empty : List String → List String
str_slice_or_empty keys = keys

abbrev pub cast_both : Ids → String → String → Option (String × String)
cast_both ids a b = elim (ids.cast a) [
  | none ↦ none
  | some a' ↦ elim (ids.cast b) [ none ↦ none | some b' ↦ some (a', b') ]
]

abbrev pub station_row : String × String → Station → StationRow
station_row (id, project_id) st = record {
  id = id;
  project_id = project_id;
  code = st.code;
  name = some st.name;
  latitude = st.latitude;
  longitude = st.longitude;
  elevation = st.elevation;
  gps_accuracy = some st.gps_accuracy;
  outcrop_exposure = some st.outcrop_exposure;
  lithology = some st.lithology;
  notes = some st.notes;
  updated_at = st.updated_at;
  is_deleted = st.is_deleted;
}

abbrev pub measurement_row : String × String → Measurement → MeasurementRow
measurement_row (id, station_id) m = record {
  id = id;
  station_id = station_id;
  measurement_type = m.measurement_type;
  strike = m.strike;
  dip = m.dip;
  dip_direction = some m.dip_direction;
  auto_captured = m.autocaptured;
  trend = some m.trend;
  plunge = some m.plunge;
  notes = some m.notes;
  updated_at = m.updated_at;
  is_deleted = m.is_deleted;
}

abbrev pub sample_row : String × String → Sample → SampleRow
sample_row (id, station_id) r = record {
  id = id;
  station_id = station_id;
  sample_tag = r.sample_tag;
  lithology_class = some r.lithology_class;
  mineralization_notes = some r.mineralization_notes;
  photo_r2_keys = str_slice_or_empty r.photo_r2_keys;
  assays_status = r.assays_status;
  updated_at = r.updated_at;
  is_deleted = r.is_deleted;
}

abbrev pub vegetation_row : String × String → Vegetation → VegetationRow
vegetation_row (id, station_id) veg = record {
  id = id;
  station_id = station_id;
  description = some veg.description;
  photo_r2_keys = str_slice_or_empty veg.photo_r2_keys;
  updated_at = veg.updated_at;
  is_deleted = veg.is_deleted;
}

abbrev pub borehole_row : String × String → Borehole → BoreholeRow
borehole_row (id, project_id) b = record {
  id = id;
  project_id = project_id;
  borehole_code = b.borehole_code;
  name = some b.name;
  latitude = b.latitude;
  longitude = b.longitude;
  collar_elevation = b.collar_elevation;
  total_depth_meters = some b.total_depth_meters;
  water_strike_depth = some b.water_strike_depth;
  yield_liters_per_hour = some b.yield_liters_per_hour;
  updated_at = b.updated_at;
  is_deleted = b.is_deleted;
}

abbrev pub interval_row : String × String → Interval → IntervalRow
interval_row (id, borehole_id) iv = record {
  id = id;
  borehole_id = borehole_id;
  depth_from = iv.depth_from;
  depth_to = iv.depth_to;
  lithology = some iv.lithology;
  description = some iv.description;
  recovery_percentage = some iv.recovery_percentage;
}
