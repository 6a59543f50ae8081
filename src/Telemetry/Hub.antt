-- ===== src/Telemetry/Hub.antt =====
-- The hub of hub.go. Its mutex makes each operation one step; a Go map is a list of entries, whose
-- order stands for the order of iteration; times and durations are in nanoseconds.
pub mod Run
pub mod Publish
pub mod Sweep
use Prim.Native.Nat.{◌/◌}
use geo_querry.Prelude.{
  ℕ, suc, String, Bool, true, false, not, ◌&&◌, ◌||◌, Option, none, some, List, [], ◌∷◌, ◌++◌, map,
  str_eq, if◌then◌else◌, length, ltb, ◌==◌, filter, ◌+◌,
}
use geo_querry.Prelude.Int.{ℤ, pos, negsuc, ◌+ℤ◌, ◌-ℤ◌, ltb_ℤ, wrap64, clamp64}
use geo_querry.Prelude.Double.{Double}

-- StreamLiveTelemetryRequest, the fields that are read
pub record Point : Type 0 where
  pub user_id : String
  pub user_name : String
  pub project_id : String
  pub latitude : Double
  pub longitude : Double
  pub elevation : Double
  pub heading : Double
  pub battery_percentage : ℤ

pub record Member : Type 0 where
  pub user_id : String
  pub user_name : String
  pub lat : Double
  pub lon : Double
  pub elevation : Double
  pub heading : Double
  pub battery : ℤ
  pub last_seen : ℤ
  pub active : Bool

-- TeamMemberLocation
pub record Location : Type 0 where
  pub user_id : String
  pub user_name : String
  pub latitude : Double
  pub longitude : Double
  pub elevation : Double
  pub heading : Double
  pub battery_percentage : ℤ
  pub last_seen_at : ℤ
  pub is_active : Bool

-- StreamLiveTelemetryResponse
pub record Snapshot : Type 0 where
  pub project_id : String
  pub members : List Location

-- One entry of the map `members`, and one of the map `subs`.
pub record Bucket : Type 0 where
  pub project : String
  pub people : List Member

-- A channel is known by a number that no other channel has.
pub record Channel : Type 0 where
  pub number : ℕ
  pub buffer : List Snapshot

pub record Room : Type 0 where
  pub project : String
  pub channels : List Channel

-- `next` is the number of the next channel that is made.
pub record Hub : Type 0 where
  pub members : List Bucket
  pub subs : List Room
  pub ttl : ℤ
  pub next : ℕ

-- NewHub, without the reaper goroutine
abbrev pub new_hub : ℤ → Hub
new_hub ttl = record { members = []; subs = []; ttl = ttl; next = 0 }

-- UnixMilli
abbrev pub unix_milli : ℤ → ℤ
unix_milli (pos n) = pos (n / 1000000)
unix_milli (negsuc n) = negsuc (n / 1000000)

abbrev pub location_of : Member → Location
location_of m = record {
  user_id = m.user_id;
  user_name = m.user_name;
  latitude = m.lat;
  longitude = m.lon;
  elevation = m.elevation;
  heading = m.heading;
  battery_percentage = m.battery;
  last_seen_at = unix_milli m.last_seen;
  is_active = m.active;
}

-- h.members[projectID]; a missing bucket reads as an empty one.
abbrev pub people_of : String → List Bucket → List Member
people_of project_id [] = []
people_of project_id (b ∷ bs) =
    let rest = people_of project_id bs in if str_eq b.project project_id then b.people else rest

abbrev pub buffer_size : ℕ
buffer_size = 64

-- deliverLocked
abbrev pub deliver : Snapshot → Channel → Channel
deliver snap ch =
    if ltb (length ch.buffer) buffer_size then record ch { buffer = ch.buffer ++ snap ∷ [] } else ch

abbrev pub snapshot : String → List Member → Snapshot
snapshot project_id people = record { project_id = project_id; members = map location_of people }

abbrev pub deliver_room : Snapshot → Room → Room
deliver_room snap r =
    if str_eq r.project snap.project_id
    then record r { channels = map (deliver snap) r.channels }
    else r

-- broadcastLocked
unfoldable pub broadcast : String → Hub → Hub
broadcast project_id h = record h {
  subs = map (deliver_room (snapshot project_id (people_of project_id h.members))) h.subs;
}

abbrev pub member_of : Point → ℤ → Member
member_of p now = record {
  user_id = p.user_id;
  user_name = p.user_name;
  lat = p.latitude;
  lon = p.longitude;
  elevation = p.elevation;
  heading = p.heading;
  battery = p.battery_percentage;
  last_seen = now;
  active = true;
}

-- proj[m.userID] = m
unfoldable pub put_member : Member → List Member → List Member
put_member m [] = m ∷ []
put_member m (x ∷ xs) =
    let rest = put_member m xs in if str_eq x.user_id m.user_id then m ∷ xs else x ∷ rest

-- the member of a project's bucket, which is made when it is missing
unfoldable pub put_bucket : String → Member → List Bucket → List Bucket
unfolding put_member
put_bucket project_id m [] = record { project = project_id; people = m ∷ [] } ∷ []
put_bucket project_id m (b ∷ bs) =
    let rest = put_bucket project_id m bs in
    if str_eq b.project project_id
    then record b { people = put_member m b.people } ∷ bs
    else b ∷ rest

-- Publish
unfoldable pub publish : Point → ℤ → Hub → Hub
unfolding put_bucket broadcast
publish p now h =
    broadcast p.project_id
      (record h { members = put_bucket p.project_id (member_of p now) h.members })

-- h.subs[projectID][ch] = struct{}{}
unfoldable pub join_room : String → Channel → List Room → List Room
join_room project_id ch [] = record { project = project_id; channels = ch ∷ [] } ∷ []
join_room project_id ch (r ∷ rs) =
    let rest = join_room project_id ch rs in
    if str_eq r.project project_id
    then record r { channels = r.channels ++ ch ∷ [] } ∷ rs
    else r ∷ rest

-- Subscribe; the channel is known by the number `next` before the call.
unfoldable pub subscribe : String → Hub → Hub
unfolding join_room
subscribe project_id h = record h {
  subs = join_room project_id (record { number = h.next; buffer = [] }) h.subs;
  next = suc h.next;
}

-- the entry of a set that cancel leaves: none when it is empty
abbrev pub keep_room : Room → List Room → List Room
keep_room r rest = elim r.channels [ [] ↦ rest | ch ∷ chs ↦ r ∷ rest ]

abbrev pub without : ℕ → List Channel → List Channel
without n chs = filter (λ ch. not (ch.number == n)) chs

unfoldable pub leave_room : String → ℕ → List Room → List Room
leave_room project_id n [] = []
leave_room project_id n (r ∷ rs) =
    let rest = leave_room project_id n rs in
    if str_eq r.project project_id
    then keep_room (record r { channels = without n r.channels }) rest
    else r ∷ rest

-- the cancel function of a subscription
unfoldable pub cancel : String → ℕ → Hub → Hub
unfolding leave_room
cancel project_id n h = record h { subs = leave_room project_id n h.subs }

-- now.Sub(lastSeen), which saturates
abbrev pub silence : ℤ → Member → ℤ
silence now m = clamp64 (now -ℤ m.last_seen)

-- 4*h.ttl
abbrev pub four_times : ℤ → ℤ
four_times ttl = let twice = wrap64 (ttl +ℤ ttl) in wrap64 (twice +ℤ twice)

-- The pass of sweepOnce over the members of one project, and if one changed.
unfoldable pub sweep_people : ℤ → ℤ → List Member → Bool × List Member
unfolding wrap64 clamp64
sweep_people ttl now [] = (false, [])
sweep_people ttl now (m ∷ ms) =
    let (changed, rest) = sweep_people ttl now ms in
    if ltb_ℤ (four_times ttl) (silence now m)
    then (true, rest)
    else if ltb_ℤ ttl (silence now m) && m.active
    then (true, record m { active = false } ∷ rest)
    else (changed, m ∷ rest)

-- the bucket of a project after its pass: dropped when it is empty
unfoldable pub set_bucket : String → List Member → List Bucket → List Bucket
set_bucket project_id people [] = []
set_bucket project_id people (b ∷ bs) =
    let rest = set_bucket project_id people bs in
    if str_eq b.project project_id
    then elim people [ [] ↦ bs | m ∷ ms ↦ record b { people = m ∷ ms } ∷ bs ]
    else b ∷ rest

-- sweepOnce, the body for one project
unfoldable pub sweep_bucket : ℤ → Bucket → Hub → Hub
unfolding sweep_people set_bucket broadcast
sweep_bucket now b h =
    let (changed, people) = sweep_people h.ttl now b.people in
    let h' = record h { members = set_bucket b.project people h.members } in
    if changed then broadcast b.project h' else h'

unfoldable pub sweep_buckets : ℤ → List Bucket → Hub → Hub
unfolding sweep_bucket
sweep_buckets now [] h = h
sweep_buckets now (b ∷ bs) h = sweep_buckets now bs (sweep_bucket now b h)

-- sweepOnce
unfoldable pub sweep_once : ℤ → Hub → Hub
unfolding sweep_buckets
sweep_once now h = sweep_buckets now h.members h

-- A receive from a channel: its oldest snapshot, taken off.
abbrev pub pop : Channel → Channel
pop ch = elim ch.buffer [ [] ↦ ch | s ∷ rest ↦ record ch { buffer = rest } ]

abbrev pub pop_in : ℕ → Room → Room
pop_in n r = record r { channels = map (λ ch. if ch.number == n then pop ch else ch) r.channels }

unfoldable pub receive : ℕ → Hub → Hub
receive n h = record h { subs = map (pop_in n) h.subs }
