-- ===== src/Gis/Upload.antt =====
-- InitiateDatasetUpload and CompleteDatasetUpload of backend/internal/gis/service.go.
use Prim.Native.String.{◌++◌ as str_append}
use geo_querry.Prelude.{
  String, Bool, not, ◌&&◌, ◌||◌, Option, none, some, List, [], ◌∷◌, ◌++◌, str_eq, if◌then◌else◌,
  any,
}
use geo_querry.Prelude.Int.{ℤ, pos, ◌+ℤ◌, ltb_ℤ, leb_ℤ}
use geo_querry.Prelude.Outcome.{Outcome, failure, success}
use geo_querry.Sync.Database.{Ids}
use geo_querry.Sync.Store.{cast_both}
use geo_querry.Gis.{
  DatasetRow, Job, GisDb, GisError, Paths, InitiateRequest, InitiateResponse, CompleteRequest,
  CompleteResponse, max_dataset_bytes, job_key, quarantine_key, kind_name, invalid_organization,
  invalid_project, invalid_upload, bad_byte_size, display_name_required, processing,
}

-- INSERT INTO gis_datasets … ON CONFLICT (id) DO NOTHING
abbrev pub insert_dataset : DatasetRow → List DatasetRow → List DatasetRow
insert_dataset row rows = if any (λ r. str_eq r.id row.id) rows then rows else rows ++ row ∷ []

-- What fails in the three transactions, each of which starts with `SET LOCAL … = $1`
-- (db/tenant_tx.go): PostgreSQL takes that only in the simple protocol, the exec mode that
-- DATABASE_URL can choose. The errors are dropped, so that a COMMIT whose reply alone is lost is no
-- fault here.
pub record GisFaults : Type 0 where
  pub simple_protocol : Bool
  pub store : Bool
  pub update : Bool
  pub insert_job : Bool

abbrev pub tx_fails : GisFaults → Bool → Bool
tx_fails faults fault = not faults.simple_protocol || fault

-- The transaction of the insert, whose error is dropped; `fault` is any failure in it.
abbrev pub store_dataset : Option (String × String) → Bool → DatasetRow → GisDb → GisDb
store_dataset none fault row db = db
store_dataset (some (org_id, project_id)) fault row db = if fault then db else record db {
  datasets =
      insert_dataset (record row { organization_id = org_id; project_id = project_id }) db.datasets;
}

abbrev pub dataset_row : Paths → String → InitiateRequest → String → String → String → DatasetRow
dataset_row paths uuid req org_id project_id display_name = record {
  id = uuid;
  organization_id = org_id;
  project_id = project_id;
  kind = kind_name req.kind;
  display_name = display_name;
  byte_size = req.byte_size;
  status = "QUARANTINED";
  r2_quarantine_key = quarantine_key org_id project_id uuid (paths.base display_name);
}

-- InitiateDatasetUpload, on the trimmed fields
abbrev pub initiate_trimmed :
    Ids
    → Paths
    → GisFaults
    → String
    → ℤ
    → InitiateRequest
    → String
    → String
    → String
    → GisDb
    → Outcome GisError InitiateResponse × GisDb
initiate_trimmed ids paths faults uuid now req org_id project_id display_name db =
    if not (ids.parses org_id)
    then (failure invalid_organization, db)
    else if not (ids.parses project_id)
    then (failure invalid_project, db)
    else if leb_ℤ req.byte_size (pos 0) || ltb_ℤ max_dataset_bytes req.byte_size
    then (failure bad_byte_size, db)
    else if str_eq display_name ""
    then (failure display_name_required, db)
    else (
      success (record {
        upload_id = uuid;
        presigned_upload_url =
            str_append "https://r2.geoquerry.internal/"
              (quarantine_key org_id project_id uuid (paths.base display_name));
        expires_at = now +ℤ pos 900000;
        required_headers = ("x-amz-server-side-encryption", "AES256") ∷ [];
      }),
      store_dataset (cast_both ids org_id project_id) (tx_fails faults faults.store)
          (dataset_row paths uuid req org_id project_id display_name) db,
    )

-- InitiateDatasetUpload
unfoldable pub initiate_dataset_upload :
    Ids
    → Paths
    → GisFaults
    → String
    → ℤ
    → InitiateRequest
    → GisDb
    → Outcome GisError InitiateResponse × GisDb
initiate_dataset_upload ids paths faults uuid now req db =
    initiate_trimmed ids paths faults uuid now req (paths.trim req.organization_id)
      (paths.trim req.project_id) (paths.trim req.display_name) db

-- UPDATE gis_datasets SET status = 'PROCESSING' WHERE id = … AND organization_id = … AND project_id = …
abbrev pub is_dataset : String → String → String → DatasetRow → Bool
is_dataset id org_id project_id r =
    str_eq r.id id && str_eq r.organization_id org_id && str_eq r.project_id project_id

abbrev pub set_processing : String → String → String → List DatasetRow → List DatasetRow
set_processing id org_id project_id [] = []
set_processing id org_id project_id (r ∷ rs) =
    (if is_dataset id org_id project_id r then record r { status = "PROCESSING" } else r)
    ∷ set_processing id org_id project_id rs

-- the transaction of the update, whose error is dropped
abbrev pub update_dataset : Option (String × String) → Option String → Bool → GisDb → GisDb
update_dataset none dataset fault db = db
update_dataset (some (org_id, project_id)) none fault db = db
update_dataset (some (org_id, project_id)) (some id) fault db =
    if fault then db else record db { datasets = set_processing id org_id project_id db.datasets }

-- the transaction of the job; `queue` says whether River runs
abbrev pub enqueue : Bool → Bool → Job → GisDb → GisDb
enqueue queue fault job db =
    if queue && not fault then record db { jobs = db.jobs ++ job ∷ [] } else db

-- CompleteDatasetUpload, on the trimmed fields
abbrev pub complete_trimmed :
    Ids
    → Bool
    → GisFaults
    → String
    → String
    → String
    → GisDb
    → Outcome GisError CompleteResponse × GisDb
complete_trimmed ids queue faults org_id project_id dataset_id db =
    if not (ids.parses org_id)
    then (failure invalid_organization, db)
    else if not (ids.parses project_id)
    then (failure invalid_project, db)
    else if not (ids.parses dataset_id)
    then (failure invalid_upload, db)
    else (
      success (record { dataset_id = dataset_id; status = processing }),
      enqueue queue (tx_fails faults faults.insert_job)
          (record {
            dataset_id = dataset_id;
            organization_id = org_id;
            project_id = project_id;
            quarantine_key = job_key org_id project_id dataset_id;
          })
          (update_dataset (cast_both ids org_id project_id) (ids.cast dataset_id)
            (tx_fails faults faults.update) db),
    )

-- CompleteDatasetUpload
unfoldable pub complete_dataset_upload :
    Ids
    → Paths
    → Bool
    → GisFaults
    → CompleteRequest
    → GisDb
    → Outcome GisError CompleteResponse × GisDb
complete_dataset_upload ids paths queue faults req db =
    complete_trimmed ids queue faults (paths.trim req.organization_id) (paths.trim req.project_id)
      (paths.trim req.upload_id) db
