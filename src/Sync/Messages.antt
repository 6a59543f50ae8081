-- ===== src/Sync/Messages.antt =====
-- The messages of backend/internal/sync/service.go: the fields that a device sends and receives
-- (packages/contracts, geology.proto), less the nested children that a push ignores.
use geo_querry.Prelude.{String, Bool, List}
use geo_querry.Prelude.Int.{ℤ}
use geo_querry.Prelude.Double.{Double}

pub record Station : Type 0 where
  pub id : String
  pub project_id : String
  pub code : String
  pub name : String
  pub latitude : Double
  pub longitude : Double
  pub elevation : Double
  pub gps_accuracy : Double
  pub outcrop_exposure : String
  pub lithology : String
  pub notes : String
  pub updated_at : ℤ
  pub is_deleted : Bool

pub record Measurement : Type 0 where
  pub id : String
  pub station_id : String
  pub measurement_type : String
  pub strike : Double
  pub dip : Double
  pub dip_direction : Double
  pub autocaptured : Bool
  pub trend : Double
  pub plunge : Double
  pub notes : String
  pub updated_at : ℤ
  pub is_deleted : Bool

pub record Sample : Type 0 where
  pub id : String
  pub station_id : String
  pub sample_tag : String
  pub lithology_class : String
  pub mineralization_notes : String
  pub photo_r2_keys : List String
  pub assays_status : String
  pub updated_at : ℤ
  pub is_deleted : Bool

pub record Vegetation : Type 0 where
  pub id : String
  pub station_id : String
  pub description : String
  pub photo_r2_keys : List String
  pub updated_at : ℤ
  pub is_deleted : Bool

pub record Interval : Type 0 where
  pub id : String
  pub depth_from : Double
  pub depth_to : Double
  pub lithology : String
  pub description : String
  pub recovery_percentage : Double

pub record Borehole : Type 0 where
  pub id : String
  pub project_id : String
  pub borehole_code : String
  pub name : String
  pub latitude : Double
  pub longitude : Double
  pub collar_elevation : Double
  pub total_depth_meters : Double
  pub water_strike_depth : Double
  pub yield_liters_per_hour : Double
  pub intervals : List Interval
  pub updated_at : ℤ
  pub is_deleted : Bool

pub record Concession : Type 0 where
  pub id : String
  pub project_id : String
  pub code : String
  pub name : String
  pub license_type : String
  pub geojson_geometry : String
  pub status : String
  pub valid_until : ℤ
  pub updated_at : ℤ

-- The errors of the validation helpers, one constructor for each text.
pub data ValidationError : Type 0 where
  id_required : String → ValidationError
  not_a_uuid : String → String → ValidationError
  station_project_mismatch : String → String → ValidationError
  station_code_required : ValidationError
  borehole_project_mismatch : String → String → ValidationError
  borehole_code_required : ValidationError
  measurement_type_required : ValidationError
  sample_tag_required : ValidationError
  coordinates_not_finite : ValidationError
  latitude_out_of_range : Double → ValidationError
  longitude_out_of_range : Double → ValidationError
  interval_inverted : String → Double → Double → ValidationError
