-- ===== src/Telemetry/Tests.antt =====
-- One device on one project, and a subscriber.
use mathlib.Core.List.{Memᴰ}
use geo_querry.Prelude.{
  arith, map, filter, ◌&&◌, true, ◌⊎◌, false, ◌≡◌, refl, not, none, some, List, [], ◌∷◌, str_eq,
}
use geo_querry.Prelude.Int.{pos, leb_ℤ, ◌-ℤ◌}
use geo_querry.Prelude.Double.{finite}
use geo_querry.Sync.Database.{Ids}
use geo_querry.Telemetry.Hub.{
  Point, Member, sweep_people, Channel, Room, Hub, new_hub, publish, member_of,
}
use geo_querry.Telemetry.Hub.Run.{
  Action, publishes, subscribes, cancels, sweeps, receives, run, IsHub, run-IsHub,
}
use geo_querry.Telemetry.Hub.Sweep.{sweep_people_exact, sweep_people-again}
use geo_querry.Telemetry.Hub.Publish.{who, who-publish, Notified, publish-Notified}
use geo_querry.Telemetry.Stream.{
  received, update_ready, end_of_file, first_point, stream_live_telemetry, validate_point,
}
use geo_querry.Telemetry.Stream.Ends.{Settled, stream_live_telemetry-Settled}

abbrev ids : Ids
ids = record { parses = λ s. not (str_eq s ""); cast = λ s. some s }

abbrev point : Point
point = record {
  user_id = "u";
  user_name = "Ann";
  project_id = "p";
  latitude = finite (pos 1);
  longitude = finite (pos 2);
  elevation = finite (pos 3);
  heading = finite (pos 4);
  battery_percentage = pos 80;
}

abbrev session : List Action
session =
    subscribes "p" ∷ publishes point (pos 10) ∷ receives 0 ∷ sweeps (pos 100) ∷ cancels "p" 0 ∷ []

run-IsHub_example : IsHub (run session (new_hub (pos 20)))
run-IsHub_example = run-IsHub session (pos 20)

abbrev room : Room
room = record { project = "p"; channels = record { number = 0; buffer = [] } ∷ [] }

abbrev hub : Hub
hub = record { members = []; subs = room ∷ []; ttl = pos 20; next = 1 }

who-publish_example : who "p" "u" (publish point (pos 10) hub) ≡ some (member_of point (pos 10))
who-publish_example = who-publish "p" "u" point (pos 10) hub

publish-Notified_example :
    (r' : Room) × (ch' : Channel) × Memᴰ r' (publish point (pos 10) hub).subs
    × Memᴰ ch' r'.channels
    × (r'.project ≡ "p")
    × (ch'.number ≡ 0)
    × Notified point (pos 10) room (record { number = 0; buffer = [] }) ch'
publish-Notified_example =
    publish-Notified point (pos 10) hub room (record { number = 0; buffer = [] }) (Memᴰ.head refl)
      (Memᴰ.head refl)

point-valid : validate_point ids point ≡ none
unfolding validate_point
point-valid = refl

stream_live_telemetry-Settled_example : Settled "p" 1 (
    stream_live_telemetry ids
      (first_point point (pos 10))
      (update_ready ∷ received point (pos 11) ∷ end_of_file ∷ [])
      hub)
stream_live_telemetry-Settled_example =
    stream_live_telemetry-Settled ids point (pos 10)
      (update_ready ∷ received point (pos 11) ∷ end_of_file ∷ []) hub point-valid

abbrev members : List Member
members =
    member_of point (pos 10)
    ∷ member_of (record point { user_id = "v" }) (pos 35)
    ∷ member_of (record point { user_id = "w" }) (pos 90)
    ∷ []

sweep_people_exact_example :
    (sweep_people (pos 20) (pos 100) members).1
    ≡ map
        (λ (m : Member). record m { active = m.active && leb_ℤ (pos 100 -ℤ m.last_seen) (pos 20) })
        (filter (λ m. leb_ℤ (pos 100 -ℤ m.last_seen) (pos 80)) members)
sweep_people_exact_example = sweep_people_exact 20 (pos 100) members (omega arith)

sweep_people-again_example :
    (((sweep_people (pos 20) (pos 100) members).0 ≡ true)
      ⊎ ((sweep_people (pos 20) (pos 100) members).1 ≡ members))
    × ((sweep_people (pos 20) (pos 100) (sweep_people (pos 20) (pos 100) members).1)
        ≡ (false, (sweep_people (pos 20) (pos 100) members).1))
sweep_people-again_example = sweep_people-again (pos 20) (pos 100) members
