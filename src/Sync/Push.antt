-- ===== src/Sync/Push.antt =====
-- The push half of service.go: PushSyncQueue. A request carries, beside each entity, what the environment does to
-- the statements that store it.
pub mod Reach
pub mod Results
pub mod Verdict
pub mod Converge
pub mod Retry
use geo_querry.Prelude.{
  String, Bool, true, false, Option, none, some, List, [], ◌∷◌, ◌++◌, ◌*◌, map, if◌then◌else◌,
}
use geo_querry.Prelude.Int.{ℤ, pos, negsuc, ◌-ℤ◌, ltb_ℤ, wrap64}
use geo_querry.Sync.Messages.{
  Station, Measurement, Sample, Vegetation, Interval, Borehole, Concession, ValidationError,
}
use geo_querry.Sync.Conflict.{
  SyncStatus, rejected, DbError, Upshot, EntityResult, invalid, entity_result,
}
use geo_querry.Sync.Database.{Ids, Db, Result, ok, err}
use geo_querry.Sync.Store.{
  TxFaults, upsert_station, upsert_measurement, upsert_sample, upsert_vegetation, upsert_borehole,
}
use geo_querry.Sync.Validate.{
  require_uuid, validate_station, validate_measurement, validate_sample, validate_vegetation,
  validate_borehole,
}
use geo_querry.Sync.Nest.{index_by, attach}
use geo_querry.Sync.Pull.{
  pull_stations, pull_measurements, pull_samples, pull_vegetation, pull_boreholes, pull_concessions,
}

-- The shape of the five push functions: a validation error is the verdict, and stores nothing.
abbrev pub push_valid :
    String → Option ValidationError → (Db → Upshot × Db) → Db → EntityResult × Db
push_valid id (some e) upsert db = (entity_result id rejected (invalid e), db)
push_valid id none upsert db =
    let (out, db') = upsert db in (entity_result id out.status out.msg, db')

module _ (ids : Ids) where
  unfoldable pub push_station : String → Station × Option DbError → Db → EntityResult × Db
  unfolding validate_station upsert_station
  push_station project_id (st, fault) =
      push_valid st.id (validate_station ids project_id st) (upsert_station ids fault st)

  unfoldable pub push_measurement : Measurement × Option DbError → Db → EntityResult × Db
  unfolding validate_measurement upsert_measurement
  push_measurement (m, fault) =
      push_valid m.id (validate_measurement ids m) (upsert_measurement ids fault m)

  unfoldable pub push_sample : Sample × Option DbError → Db → EntityResult × Db
  unfolding validate_sample upsert_sample
  push_sample (r, fault) = push_valid r.id (validate_sample ids r) (upsert_sample ids fault r)

  unfoldable pub push_vegetation : Vegetation × Option DbError → Db → EntityResult × Db
  unfolding validate_vegetation upsert_vegetation
  push_vegetation (veg, fault) =
      push_valid veg.id (validate_vegetation ids veg) (upsert_vegetation ids fault veg)

  unfoldable pub push_borehole : String → Borehole × TxFaults → Db → EntityResult × Db
  unfolding validate_borehole upsert_borehole
  push_borehole project_id (b, faults) =
      push_valid b.id (validate_borehole ids project_id b) (upsert_borehole ids faults b)

-- The loops of PushSyncQueue: one result for each entity, in order.
unfoldable pub push_each :
    {A : Type 0} → (A → Db → EntityResult × Db) → List A → Db → List EntityResult × Db
push_each push [] db = ([], db)
push_each push (x ∷ xs) db =
    let (r, db₁) = push x db in let (rs, db₂) = push_each push xs db₁ in (r ∷ rs, db₂)

pub record PushRequest : Type 0 where
  pub project_id : String
  pub stations : List (Station × Option DbError)
  pub measurements : List (Measurement × Option DbError)
  pub samples : List (Sample × Option DbError)
  pub vegetation : List (Vegetation × Option DbError)
  pub boreholes : List (Borehole × TxFaults)

pub record PushResponse : Type 0 where
  pub server_timestamp : ℤ
  pub station_results : List EntityResult
  pub measurements_results : List EntityResult
  pub samples_results : List EntityResult
  pub vegetation_results : List EntityResult
  pub boreholes_results : List EntityResult
  pub success : Bool

-- The connect error codes of the two RPCs, or the response.
pub data Reply (A : Type 0) : Type 0 where
  response : A → Reply A
  invalid_argument : ValidationError → Reply A
  internal : String → Reply A

abbrev pub is_rejected : SyncStatus → Bool
is_rejected rejected = true
is_rejected _ = false

-- `resp.Success = false` at each rejected result
unfoldable pub success_after : Bool → List EntityResult → Bool
success_after success [] = success
success_after success (r ∷ rs) = success_after (if is_rejected r.status then false else success) rs

-- PushSyncQueue
unfoldable pub push_sync_queue : Ids → ℤ → PushRequest → Db → Reply PushResponse × Db
unfolding push_station push_measurement push_sample push_vegetation push_borehole push_each
    success_after require_uuid
push_sync_queue ids now req db = elim (require_uuid ids req.project_id "project_id") [
  | some e ↦ (invalid_argument e, db)
  | none ↦
      let (stations, db₁) = push_each (push_station ids req.project_id) req.stations db in
      let (measurements, db₂) = push_each (push_measurement ids) req.measurements db₁ in
      let (samples, db₃) = push_each (push_sample ids) req.samples db₂ in
      let (vegetation, db₄) = push_each (push_vegetation ids) req.vegetation db₃ in
      let (boreholes, db₅) = push_each (push_borehole ids req.project_id) req.boreholes db₄ in
      (
        response (record {
          server_timestamp = now;
          station_results = stations;
          measurements_results = measurements;
          samples_results = samples;
          vegetation_results = vegetation;
          boreholes_results = boreholes;
          success =
              success_after
                (success_after
                  (success_after (success_after (success_after true stations) measurements) samples)
                  vegetation)
                boreholes;
        }),
        db₅,
      )
]
