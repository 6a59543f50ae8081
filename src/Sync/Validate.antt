-- ===== src/Sync/Validate.antt =====
-- The validation helpers of backend/internal/sync/service.go: `none` is a nil error.
use geo_querry.Prelude.{
  String, Bool, ◌||◌, not, Option, none, some, List, [], ◌∷◌, str_eq, if◌then◌else◌,
}
use geo_querry.Prelude.Double.{Double, is_nan, is_inf, ltb_double, whole, minus_whole}
use geo_querry.Sync.Messages.{
  Station, Measurement, Sample, Vegetation, Interval, Borehole, ValidationError, id_required,
  not_a_uuid, station_project_mismatch, station_code_required, borehole_project_mismatch,
  borehole_code_required, measurement_type_required, sample_tag_required, coordinates_not_finite,
  latitude_out_of_range, longitude_out_of_range, interval_inverted,
}
use geo_querry.Sync.Database.{Ids}

-- `if err := …; err != nil { return err }`: the first error of the two.
infixr 20 ◌or_else◌
abbrev pub ◌or_else◌ : Option ValidationError → Option ValidationError → Option ValidationError
some e or_else rest = some e
none or_else rest = rest

abbrev pub fail_if : Bool → ValidationError → Option ValidationError
fail_if b e = if b then some e else none

-- requireUUID
unfoldable pub require_uuid : Ids → String → String → Option ValidationError
require_uuid ids value field =
    fail_if (str_eq value "") (id_required field)
    or_else fail_if (not (ids.parses value)) (not_a_uuid field value)

-- validateLatLng
unfoldable pub validate_lat_lng : Double → Double → Option ValidationError
validate_lat_lng lat lon =
    fail_if (is_nan lat || is_inf lat || is_nan lon || is_inf lon) coordinates_not_finite
    or_else fail_if (ltb_double lat (minus_whole 90) || ltb_double (whole 90) lat)
        (latitude_out_of_range lat)
    or_else fail_if (ltb_double lon (minus_whole 180) || ltb_double (whole 180) lon)
        (longitude_out_of_range lon)

-- validateStation
unfoldable pub validate_station : Ids → String → Station → Option ValidationError
validate_station ids batch_project_id st =
    require_uuid ids st.id "id"
    or_else fail_if (not (str_eq st.project_id batch_project_id))
        (station_project_mismatch st.project_id batch_project_id)
    or_else fail_if (str_eq st.code "") station_code_required
    or_else validate_lat_lng st.latitude st.longitude

-- the loop of validateBorehole
unfoldable pub validate_intervals : Ids → List Interval → Option ValidationError
validate_intervals ids [] = none
validate_intervals ids (iv ∷ ivs) =
    require_uuid ids iv.id "interval id"
    or_else fail_if (ltb_double iv.depth_to iv.depth_from)
        (interval_inverted iv.id iv.depth_to iv.depth_from)
    or_else validate_intervals ids ivs

-- validateBorehole
unfoldable pub validate_borehole : Ids → String → Borehole → Option ValidationError
unfolding validate_intervals
validate_borehole ids batch_project_id b =
    require_uuid ids b.id "id"
    or_else fail_if (not (str_eq b.project_id batch_project_id))
        (borehole_project_mismatch b.project_id batch_project_id)
    or_else fail_if (str_eq b.borehole_code "") borehole_code_required
    or_else validate_lat_lng b.latitude b.longitude
    or_else validate_intervals ids b.intervals

-- the checks of pushMeasurement, pushSample and pushVegetation
unfoldable pub validate_measurement : Ids → Measurement → Option ValidationError
validate_measurement ids m =
    require_uuid ids m.id "id"
    or_else require_uuid ids m.station_id "station_id"
    or_else fail_if (str_eq m.measurement_type "") measurement_type_required

unfoldable pub validate_sample : Ids → Sample → Option ValidationError
validate_sample ids r =
    require_uuid ids r.id "id"
    or_else require_uuid ids r.station_id "station_id"
    or_else fail_if (str_eq r.sample_tag "") sample_tag_required

unfoldable pub validate_vegetation : Ids → Vegetation → Option ValidationError
validate_vegetation ids veg =
    require_uuid ids veg.id "id" or_else require_uuid ids veg.station_id "station_id"
