-- ===== src/Sync/Snapshot.antt =====
-- The pull half of service.go: PullProjectData.
pub mod Cursor
use geo_querry.Prelude.{String, Option, none, some, List, [], ◌∷◌, ◌++◌, ◌*◌, if◌then◌else◌}
use geo_querry.Prelude.Int.{ℤ, pos, ◌-ℤ◌, ltb_ℤ, wrap64}
use geo_querry.Sync.Messages.{Station, Measurement, Sample, Vegetation, Borehole, Concession}
use geo_querry.Sync.Conflict.{DbError}
use geo_querry.Sync.Database.{Ids, Db, Result, ok, err}
use geo_querry.Sync.Validate.{require_uuid}
use geo_querry.Sync.Nest.{index_by, attach}
use geo_querry.Sync.Pull.{
  pull_stations, pull_measurements, pull_samples, pull_vegetation, pull_boreholes, pull_concessions,
}
use geo_querry.Sync.Push.{Reply, response, invalid_argument, internal}

-- pullOverlapMs
abbrev pub pull_overlap_ms : ℤ
pull_overlap_ms = pos (2 * 60 * 1000)

unfoldable pub pull_since : ℤ → ℤ
unfolding wrap64
pull_since since_timestamp =
    let since = wrap64 (since_timestamp -ℤ pull_overlap_ms) in
    if ltb_ℤ since (pos 0) then pos 0 else since

-- A station with the changed children that the response nests in it.
pub record StationView : Type 0 where
  pub station : Station
  pub measurements : List Measurement
  pub samples : List Sample
  pub vegetation : List Vegetation

abbrev pub bare : Station → StationView
bare st = record { station = st; measurements = []; samples = []; vegetation = [] }

abbrev pub bare_all : List Station → List StationView
bare_all [] = []
bare_all (st ∷ sts) = bare st ∷ bare_all sts

abbrev pub add_measurement : Measurement → StationView → StationView
add_measurement m v = record v { measurements = v.measurements ++ m ∷ [] }

abbrev pub add_sample : Sample → StationView → StationView
add_sample r v = record v { samples = v.samples ++ r ∷ [] }

abbrev pub add_vegetation : Vegetation → StationView → StationView
add_vegetation veg v = record v { vegetation = v.vegetation ++ veg ∷ [] }

-- The nested station view.
unfoldable pub nest_stations :
    List Station → List Measurement → List Sample → List Vegetation → List StationView
unfolding index_by attach
nest_stations stations measurements samples vegetation =
    let by_id = index_by (λ st. st.id) stations in
    attach (λ veg. veg.station_id) add_vegetation by_id vegetation
      (attach (λ r. r.station_id) add_sample by_id samples
        (attach (λ m. m.station_id) add_measurement by_id measurements (bare_all stations)))

-- What the environment does to the seven queries.
pub record PullFaults : Type 0 where
  pub stations : Option DbError
  pub measurements : Option DbError
  pub samples : Option DbError
  pub vegetation : Option DbError
  pub boreholes : Option DbError
  pub intervals : Option DbError
  pub concessions : Option DbError

pub record PullResponse : Type 0 where
  pub server_timestamp : ℤ
  pub stations : List StationView
  pub measurements : List Measurement
  pub samples : List Sample
  pub boreholes : List Borehole
  pub vegetation : List Vegetation
  pub concessions : List Concession

-- `if err != nil { return nil, internal(what, err) }`
abbrev or_internal : {A B : Type 0} → Result A → String → (A → Reply B) → Reply B
or_internal (ok a) what f = f a
or_internal (err e) what f = internal what

-- PullProjectData
unfoldable pub pull_project_data : Ids → PullFaults → ℤ → String → ℤ → Db → Reply PullResponse
unfolding require_uuid pull_since pull_stations pull_measurements pull_samples pull_vegetation
    pull_boreholes pull_concessions nest_stations
pull_project_data ids faults now project_id since_timestamp db =
    elim (require_uuid ids project_id "project_id") [
      | some e ↦ invalid_argument e
      | none ↦
          let since = pull_since since_timestamp in
          or_internal (pull_stations ids faults.stations db project_id since) "load stations" λ sts.
            or_internal (pull_measurements ids faults.measurements db project_id since)
              "load measurements"
              λ ms.
                or_internal (pull_samples ids faults.samples db project_id since) "load samples"
                  λ rs.
                    or_internal (pull_vegetation ids faults.vegetation db project_id since)
                      "load vegetation"
                      λ vegs.
                        or_internal
                          (pull_boreholes ids faults.boreholes faults.intervals db project_id since)
                          "load boreholes"
                          λ bs.
                            or_internal
                              (pull_concessions ids faults.concessions db project_id since)
                              "load concessions"
                              λ cs. response (record {
                                server_timestamp = now;
                                stations = nest_stations sts ms rs vegs;
                                measurements = ms;
                                samples = rs;
                                boreholes = bs;
                                vegetation = vegs;
                                concessions = cs;
                              })
    ]
