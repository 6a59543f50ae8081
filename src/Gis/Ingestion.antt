-- ===== src/Gis/Ingestion.antt =====
-- A dataset from its upload to its job.
use Prim.Native.String.{◌++◌ as str_append}
use geo_querry.Prelude.{String, ◌≡◌, ◌≢◌, Bool, true, false, some, [], ◌∷◌, ◌++◌, str_eq, any}
use geo_querry.Prelude.Int.{ℤ, pos, ◌≤ℤ◌, ◌<ℤ◌}
use geo_querry.Sync.Database.{Ids}
use geo_querry.Gis.{
  DatasetRow, Job, GisDb, Paths, InitiateRequest, CompleteRequest, max_dataset_bytes,
  quarantine_key,
}
use geo_querry.Gis.Upload.{GisFaults, dataset_row}

-- A request that the service takes, whose identifiers PostgreSQL reads.
pub record IsAcceptable (ids : Ids) (paths : Paths) (uuid : String) (req : InitiateRequest)
    (db : GisDb) : Type 0 where
  pub organization : ids.parses (paths.trim req.organization_id) ≡ true
  pub project : ids.parses (paths.trim req.project_id) ≡ true
  pub upload : ids.parses uuid ≡ true
  pub org_id : String
  pub org_cast : ids.cast (paths.trim req.organization_id) ≡ some org_id
  pub project_id : String
  pub project_cast : ids.cast (paths.trim req.project_id) ≡ some project_id
  pub upload_cast : ids.cast uuid ≡ some uuid
  pub upload_trimmed : paths.trim uuid ≡ uuid
  pub size_low : pos 0 <ℤ req.byte_size
  pub size_high : req.byte_size ≤ℤ max_dataset_bytes
  pub named : paths.trim req.display_name ≢ ""
  pub unused : any (λ r. str_eq r.id uuid) db.datasets ≡ false

-- One dataset more, in processing, and one job for it, whose key is the row's without the file.
pub record IsIngested (uuid file : String) (db db' : GisDb) : Type 0 where
  pub row : DatasetRow
  pub job : Job
  pub datasets : db'.datasets ≡ db.datasets ++ row ∷ []
  pub jobs : db'.jobs ≡ db.jobs ++ job ∷ []
  pub row_id : row.id ≡ uuid
  pub job_id : job.dataset_id ≡ uuid
  pub status : row.status ≡ "PROCESSING"
  pub keys : row.r2_quarantine_key ≡ str_append job.quarantine_key (str_append "/" file)

-- nothing fails but what the exec mode makes fail
abbrev pub no_faults : Bool → GisFaults
no_faults simple = record {
  simple_protocol = simple;
  store = false;
  update = false;
  insert_job = false;
}

-- What a completed upload has come to: a dataset and its job, or, where the exec mode is not the
-- simple protocol, nothing.
pub data Ingestion (uuid file : String) (simple : Bool) (db db' : GisDb) : Type 0 where
  ingested : simple ≡ true → IsIngested uuid file db db' → Ingestion uuid file simple db db'
  dropped : simple ≡ false → db' ≡ db → Ingestion uuid file simple db db'

module _ (ids : Ids) (paths : Paths) (uuid : String) (now : ℤ) (req : InitiateRequest) (db : GisDb)
    (k : IsAcceptable ids paths uuid req db) where
  abbrev stored : DatasetRow
  stored =
      record (dataset_row paths uuid req (paths.trim req.organization_id)
        (paths.trim req.project_id) (paths.trim req.display_name)) {
          organization_id = k.org_id;
          project_id = k.project_id;
        }

  abbrev completion : CompleteRequest
  completion = record {
    organization_id = req.organization_id;
    project_id = req.project_id;
    upload_id = uuid;
  }
