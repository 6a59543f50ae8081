-- ===== src/Sync/Tests.antt =====
-- A small project, and the sync engine's theorems at runs on it.
use mathlib.Core.List.{Permᴰ}
use mathlib.Core.List.Memᴰ
use mathlib.Core.List.{Memᴰ}
use geo_querry.Prelude.{
  String, ◌≡◌, refl, false, not, none, some, Option, List, [], ◌∷◌, str_eq, All, sym, ◌∙◌, inl, inr,
  ◌⊎◌, filter, map, ◌≢◌,
}
use geo_querry.Prelude.{arith, ◌^◌, ◌-◌}
use geo_querry.Prelude.Int.{ℤ, pos, IsInt64, ◌≤ℤ◌, ◌<ℤ◌, ◌+ℤ◌}
use geo_querry.Sync.Snapshot.{pull_since, pull_overlap_ms}
use geo_querry.Sync.Snapshot.Cursor.{least_safe, pull_since-cases}
use geo_querry.Prelude.Double.{Double, finite, whole, minus_whole}
use geo_querry.Sync.Messages.{Station, Borehole, Interval}
use geo_querry.Sync.Conflict.{
  DbError, SyncStatus, entity_result, rejected, conflict_overwrote, conflict_stale,
}
use geo_querry.Sync.Database.{Ids, Db, StationRow, station_clock, ok}
use geo_querry.Sync.Table.{get, insert_on_conflict}
use geo_querry.Sync.Table.Merge.{IsConsistent}
use geo_querry.Sync.Store.{TxFaults, guarded_upsert, station_row, upsert_borehole}
use geo_querry.Sync.Store.Boreholes.{BoreholeOutcome, upsert_borehole-Outcome}
use geo_querry.Sync.Store.Growth.{Grows}
use geo_querry.Sync.Store.Move.{here}
use geo_querry.Sync.Validate.{validate_station, require_uuid, validate_lat_lng}
use geo_querry.Sync.Push.{
  push_station, push_each, PushRequest, PushResponse, response, push_sync_queue,
}
use geo_querry.Sync.Push.Verdict.{StationVerdict, push_station-StationVerdict}
use geo_querry.Sync.Push.Reach.{push_sync_queue-Grows}
use geo_querry.Sync.Push.Results.{Answers, Accepted, push_sync_queue-Answers}
use geo_querry.Sync.Push.Converge.{push_stations, rows_of, push_stations-perm}
use geo_querry.Sync.Push.Retry.{push_stations-again}
use geo_querry.Sync.Pull.{pull_stations, scan_station, by_stamp}
use geo_querry.Sync.Pull.Order.{IsOrdered}
use geo_querry.Sync.Pull.Delivery.{pull_stations-exact, pull_stations-accepted, wanted, IsDelivered}

abbrev ids : Ids
ids = record { parses = λ s. not (str_eq s ""); cast = λ s. some s }

abbrev zero_double : Double
zero_double = finite (pos 0)

abbrev outcrop : String → ℤ → Station
outcrop notes stamp = record {
  id = "a";
  project_id = "p";
  code = "ST-1";
  name = "outcrop";
  latitude = zero_double;
  longitude = zero_double;
  elevation = zero_double;
  gps_accuracy = zero_double;
  outcrop_exposure = "";
  lithology = "";
  notes = notes;
  updated_at = stamp;
  is_deleted = false;
}

-- a version of the station before the one that is stored, and one after it
abbrev old_version : Station
old_version = outcrop "old" (pos 3)

abbrev new_version : Station
new_version = outcrop "new" (pos 9)

abbrev stored_row : StationRow
stored_row = station_row ("a", "p") (outcrop "stored" (pos 5))

abbrev db : Db
db = record {
  projects = "p" ∷ [];
  stations = stored_row ∷ [];
  measurements = [];
  samples = [];
  vegetation = [];
  boreholes = [];
  intervals = [];
  concessions = [];
}

abbrev calm : TxFaults
calm = record {
  begins = none;
  query = none;
  deletes = none;
  batch = none;
  commits = none;
  commit_reply = none;
}

abbrev interval : Interval
interval = record {
  id = "i";
  depth_from = zero_double;
  depth_to = zero_double;
  lithology = "";
  description = "";
  recovery_percentage = zero_double;
}

abbrev hole : Borehole
hole = record {
  id = "b";
  project_id = "p";
  borehole_code = "BH-1";
  name = "";
  latitude = zero_double;
  longitude = zero_double;
  collar_elevation = zero_double;
  total_depth_meters = zero_double;
  water_strike_depth = zero_double;
  yield_liters_per_hour = zero_double;
  intervals = interval ∷ [];
  updated_at = pos 4;
  is_deleted = false;
}

abbrev request : PushRequest
request = record {
  project_id = "p";
  stations = (old_version, none) ∷ (new_version, none) ∷ [];
  measurements = [];
  samples = [];
  vegetation = [];
  boreholes = (hole, calm) ∷ [];
}

new_version-valid : validate_station ids "p" new_version ≡ none
unfolding validate_station require_uuid validate_lat_lng minus_whole whole
new_version-valid = refl

push_station-StationVerdict_example :
    StationVerdict
      (station_row ("a", "p") new_version)
      db
      (push_station ids "p" (new_version, none) db)
push_station-StationVerdict_example =
    push_station-StationVerdict ids "p" new_version db "a" "p" refl new_version-valid

push_sync_queue-Grows_example : Grows db (push_sync_queue ids (pos 100) request db).1
push_sync_queue-Grows_example = push_sync_queue-Grows ids (pos 100) request db

upsert_borehole-Outcome_example :
    BoreholeOutcome ids none hole db (upsert_borehole ids calm hole db)
upsert_borehole-Outcome_example = upsert_borehole-Outcome ids calm hole db

request-id : require_uuid ids "p" "project_id" ≡ none
unfolding require_uuid
request-id = refl

push_sync_queue-Answers_example :
    (r : PushResponse) × ((push_sync_queue ids (pos 100) request db).0 ≡ response r)
    × Answers request (pos 100) r
push_sync_queue-Answers_example = push_sync_queue-Answers ids (pos 100) request db request-id

abbrev forth : List (Station × Option DbError)
forth = (old_version, none) ∷ (new_version, none) ∷ []

abbrev back : List (Station × Option DbError)
back = (new_version, none) ∷ (old_version, none) ∷ []

stale_not_rejected : {s : SyncStatus} → s ≡ conflict_stale → s ≢ rejected
stale_not_rejected e h = absurd (cc)

overwrote_not_rejected : {s : SyncStatus} → s ≡ conflict_overwrote → s ≢ rejected
overwrote_not_rejected e h = absurd (cc)

forth-Accepted : All Accepted (push_stations ids "p" forth db).0
unfolding push_each push_station require_uuid validate_lat_lng minus_whole whole entity_result
    guarded_upsert insert_on_conflict
forth-Accepted = (stale_not_rejected refl, (overwrote_not_rejected refl, tt))

back-Accepted : All Accepted (push_stations ids "p" back db).0
unfolding push_each push_station require_uuid validate_lat_lng minus_whole whole entity_result
    guarded_upsert insert_on_conflict
back-Accepted = (overwrote_not_rejected refl, (stale_not_rejected refl, tt))

push_stations-again_example :
    (push_stations ids "p" forth (push_stations ids "p" forth db).1).1
    ≡ (push_stations ids "p" forth db).1
push_stations-again_example =
    push_stations-again ids "p" forth forth db (push_stations ids "p" forth db).1 forth-Accepted
      here (refl, (refl, tt))

pull_stations-exact_example :
    (rows : List StationRow) × (pull_stations ids none db "p" (pos 2) ≡ ok (map scan_station rows))
    × Permᴰ rows (filter (wanted ids db "p" "p" refl (pos 2)) db.stations)
    × IsOrdered (by_stamp (λ (r : StationRow). r.updated_at)) rows
pull_stations-exact_example = pull_stations-exact ids db "p" "p" refl (pos 2)

new_version-status : (push_station ids "p" (new_version, none) db).0.status ≡ conflict_overwrote
unfolding push_station require_uuid validate_lat_lng minus_whole whole entity_result guarded_upsert
    insert_on_conflict
new_version-status = refl

new_version-not_rejected : (push_station ids "p" (new_version, none) db).0.status ≢ rejected
new_version-not_rejected h = absurd (let e = new_version-status in cc)

new_version-not_stale : (push_station ids "p" (new_version, none) db).0.status ≢ conflict_stale
new_version-not_stale h = absurd (let e = new_version-status in cc)

pull_stations-accepted_example :
    (out : List Station) × (pull_stations ids none
        (push_station ids "p" (new_version, none) db).1
        "p"
        (pos 7)
      ≡ ok out)
    × (found : Station) × Memᴰ found out
    × IsDelivered new_version "a" "p" found
pull_stations-accepted_example =
    pull_stations-accepted ids "p" new_version db "a" "p" refl refl new_version-valid
      new_version-not_rejected new_version-not_stale (pos 7) refl

abbrev old_row : StationRow
old_row = station_row ("a", "p") old_version

abbrev new_row : StationRow
new_row = station_row ("a", "p") new_version

-- the rows of the two versions, whose clocks differ
forth-IsConsistent : IsConsistent station_clock (rows_of ids "p" forth)
unfolding rows_of
forth-IsConsistent a b ma mb same_key same_stamp = meet (Memᴰ.cases_cons ma) (Memᴰ.cases_cons mb)
  where
    only : {x : StationRow} → Memᴰ x (new_row ∷ []) → x ≡ new_row
    only m = elim (Memᴰ.cases_cons m) [ inl e ↦ e | inr m' ↦ absurd (Memᴰ.not-nil m') ]

    meet : (a ≡ old_row) ⊎ Memᴰ a (new_row ∷ []) → (b ≡ old_row) ⊎ Memᴰ b (new_row ∷ []) → a ≡ b
    meet (inl e) (inl e') = e ∙ sym e'
    meet (inl e) (inr m) = absurd (let e' = only m in cc)
    meet (inr m) (inl e') = absurd (let e = only m in cc)
    meet (inr m) (inr m') = only m ∙ sym (only m')

push_stations-perm_example :
    get station_clock "a" (push_stations ids "p" forth db).1.stations
    ≡ get station_clock "a" (push_stations ids "p" back db).1.stations
push_stations-perm_example =
    push_stations-perm ids "p" forth back db (Permᴰ.swap refl refl) forth-IsConsistent
      forth-Accepted back-Accepted "a"

since-IsInt64 : IsInt64 (pos 1000000)
since-IsInt64 = (omega arith, omega arith)

pull_since-cases_example :
    ((least_safe ≤ℤ pos 1000000)
      × (pos 0 ≤ℤ pull_since (pos 1000000))
      × (pos 1000000 ≤ℤ pull_since (pos 1000000) +ℤ pull_overlap_ms)
      × ((pull_since (pos 1000000) ≡ pos 0)
          ⊎ (pull_since (pos 1000000) +ℤ pull_overlap_ms ≡ pos 1000000)))
    ⊎ ((pos 1000000 <ℤ least_safe) × (pos (2 ^ 63 - 120000) ≤ℤ pull_since (pos 1000000)))
pull_since-cases_example = pull_since-cases (pos 1000000) since-IsInt64
