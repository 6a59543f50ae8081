-- ===== src/Gis.antt =====
-- The GIS service of backend/internal/gis/service.go, over gis_datasets of
-- backend/internal/db/migrations/000005 and the jobs of River, on a pool that is not nil. The
-- timestamps of a row are left out. strings.TrimSpace, path.Base, the fresh UUID and the clock are
-- arguments.
pub mod Upload
pub mod Ingestion
mod Tests
use Prim.Native.String.{◌++◌ as str_append}
use geo_querry.Prelude.{
  ℕ, ◌*◌, ◌^◌, ◌-◌, String, Bool, true, false, not, ◌&&◌, ◌||◌, Option, none, some, List, [], ◌∷◌,
  ◌++◌, str_eq, if◌then◌else◌, any,
}
use geo_querry.Prelude.Int.{ℤ, pos, ◌+ℤ◌, ltb_ℤ, leb_ℤ}
use geo_querry.Prelude.Outcome.{Outcome, failure, success}
use geo_querry.Sync.Database.{Ids}
use geo_querry.Sync.Store.{cast_both}

pub data DatasetKind : Type 0 where
  unspecified shapefile_archive geotiff cwls_las asprs_las survey_csv : DatasetKind

-- String of the protocol
abbrev pub kind_name : DatasetKind → String
kind_name unspecified = "DATASET_KIND_UNSPECIFIED"
kind_name shapefile_archive = "DATASET_KIND_SHAPEFILE_ARCHIVE"
kind_name geotiff = "DATASET_KIND_GEOTIFF"
kind_name cwls_las = "DATASET_KIND_CWLS_LAS"
kind_name asprs_las = "DATASET_KIND_ASPRS_LAS"
kind_name survey_csv = "DATASET_KIND_SURVEY_CSV"

pub record DatasetRow : Type 0 where
  pub id : String
  pub organization_id : String
  pub project_id : String
  pub kind : String
  pub display_name : String
  pub byte_size : ℤ
  pub status : String
  pub r2_quarantine_key : String

-- GisIngestionArgs
pub record Job : Type 0 where
  pub dataset_id : String
  pub organization_id : String
  pub project_id : String
  pub quarantine_key : String

pub record GisDb : Type 0 where
  pub datasets : List DatasetRow
  pub jobs : List Job

pub data GisError : Type 0 where
  invalid_organization : GisError
  invalid_project : GisError
  invalid_upload : GisError
  bad_byte_size : GisError
  display_name_required : GisError

-- strings.TrimSpace and path.Base.
pub record Paths : Type 0 where
  pub trim : String → String
  pub base : String → String

pub record InitiateRequest : Type 0 where
  pub organization_id : String
  pub project_id : String
  pub kind : DatasetKind
  pub display_name : String
  pub byte_size : ℤ

-- `expires_at` is in milliseconds; the required headers are always the same.
pub record InitiateResponse : Type 0 where
  pub upload_id : String
  pub presigned_upload_url : String
  pub expires_at : ℤ
  pub required_headers : List (String × String)

pub record CompleteRequest : Type 0 where
  pub organization_id : String
  pub project_id : String
  pub upload_id : String

pub data IngestionStatus : Type 0 where
  status_unspecified quarantined scanning processing ready failed : IngestionStatus

pub record CompleteResponse : Type 0 where
  pub dataset_id : String
  pub status : IngestionStatus

abbrev pub max_dataset_bytes : ℤ
max_dataset_bytes = pos (2 ^ 30)

-- "quarantine/%s/%s/%s"
abbrev pub job_key : String → String → String → String
job_key org_id project_id dataset_id =
    str_append "quarantine/"
      (str_append org_id (str_append "/" (str_append project_id (str_append "/" dataset_id))))

-- "quarantine/%s/%s/%s/%s"
abbrev pub quarantine_key : String → String → String → String → String
quarantine_key org_id project_id dataset_id file = str_append "quarantine/" (
    str_append org_id (
      str_append "/"
        (str_append project_id (str_append "/" (str_append dataset_id (str_append "/" file))))))
