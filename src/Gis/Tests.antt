-- ===== src/Gis/Tests.antt =====
-- One GeoTIFF of 1000 bytes.
use geo_querry.Prelude.{true, some, []}
use geo_querry.Prelude.Int.{pos}
use geo_querry.Prelude.Outcome.{Outcome}
use geo_querry.Sync.Database.{Ids}
use geo_querry.Gis.{GisDb, GisError, CompleteResponse, Paths, InitiateRequest, geotiff}
use geo_querry.Gis.Upload.{initiate_dataset_upload, complete_dataset_upload}
use geo_querry.Gis.Ingestion.{Ingestion, no_faults}

abbrev ids : Ids
ids = record { parses = λ s. true; cast = λ s. some s }

abbrev paths : Paths
paths = record { trim = λ s. s; base = λ s. s }

abbrev request : InitiateRequest
request = record {
  organization_id = "o";
  project_id = "p";
  kind = geotiff;
  display_name = "grid.tif";
  byte_size = pos 1000;
}

abbrev empty : GisDb
empty = record { datasets = []; jobs = [] }

abbrev completed : Outcome GisError CompleteResponse × GisDb
completed =
    complete_dataset_upload ids paths true (no_faults true)
      (record { organization_id = "o"; project_id = "p"; upload_id = "u" })
      ((initiate_dataset_upload ids paths (no_faults true) "u" (pos 0) request empty).1)
