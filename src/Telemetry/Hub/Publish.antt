-- ===== src/Telemetry/Hub/Publish.antt =====
-- What a breadcrumb does: to the members that the hub knows, and to the subscribers.
use mathlib.Core.List.Memᴰ
use mathlib.Core.List.{Memᴰ}
use geo_querry.Prelude.{
  String, ◌≡◌, refl, true, ap, ◌∙◌, subst, inl, inr, Option, some, List, [], ◌∷◌, ◌++◌, map, str_eq,
  arith, length, ◌<◌, ◌≤◌, ◌≢◌, Bool-cases, eq_iff, eq_refl, find, if◌then◌else◌, ◌&&◌, ltb,
}
use geo_querry.Prelude.Int.{ℤ}
use geo_querry.Telemetry.Hub.{
  Point, Member, Location, unix_milli, Snapshot, Bucket, Channel, Room, Hub, broadcast, publish,
  deliver, deliver_room, snapshot, people_of, location_of, buffer_size, put_member, put_bucket,
  member_of,
}

abbrev pub find_member : String → List Member → Option Member
find_member user_id people = find (λ m. str_eq m.user_id user_id) people

-- what the hub knows of a user in a project
abbrev pub who : String → String → Hub → Option Member
who project_id user_id h = find_member user_id (people_of project_id h.members)

find_member-put_member :
    (u : String) (m : Member) (people : List Member)
    → find_member u (put_member m people)
      ≡ (if str_eq m.user_id u then some m else find_member u people)
unfolding put_member
find_member-put_member u m [] = refl
find_member-put_member u m (x ∷ xs) = ground (
  arith,
  find_member-put_member u m xs,
  eq_iff x.user_id m.user_id,
  eq_iff x.user_id u,
  eq_iff m.user_id u,
)

people_of-put_bucket :
    (q project_id : String) (m : Member) (bs : List Bucket)
    → people_of q (put_bucket project_id m bs)
      ≡ (if str_eq project_id q then put_member m (people_of project_id bs) else people_of q bs)
unfolding put_bucket put_member
people_of-put_bucket q project_id m [] = refl
people_of-put_bucket q project_id m (b ∷ bs) = ground (
  arith,
  people_of-put_bucket q project_id m bs,
  eq_iff b.project project_id,
  eq_iff b.project q,
  eq_iff project_id q,
)

-- A breadcrumb sets what the hub knows of its user in its project to its own position, active and
-- seen now, and changes nothing that the hub knows of another user or in another project.
pub who-publish :
    (q u : String) (p : Point) (now : ℤ) (h : Hub)
    → who q u (publish p now h)
      ≡ (if str_eq p.project_id q && str_eq p.user_id u then some (member_of p now) else who q u h)
unfolding publish broadcast
who-publish q u p now h = ground (
  arith,
  people_of-put_bucket q p.project_id (member_of p now) h.members,
  find_member-put_member u (member_of p now) (people_of p.project_id h.members),
  eq_iff p.project_id q,
)

find_member-Memᴰ :
    (u : String) (people : List Member) (m : Member) → find_member u people ≡ some m → Memᴰ m people
find_member-Memᴰ u [] m e = absurd (cc)
find_member-Memᴰ u (x ∷ xs) m e = elim (Bool-cases (str_eq x.user_id u)) [
  | inl h ↦ Memᴰ.head (ground arith)
  | inr h ↦ Memᴰ.tail (find_member-Memᴰ u xs m (ground arith))
]

pub Memᴰ-map : {A B : Type 0} (f : A → B) (x : A) (xs : List A) → Memᴰ x xs → Memᴰ (f x) (map f xs)
Memᴰ-map f x [] m = absurd (Memᴰ.not-nil m)
Memᴰ-map f x (y ∷ xs) m = elim (Memᴰ.cases_cons m) [
  | inl e ↦ Memᴰ.head (ap f e)
  | inr m' ↦ Memᴰ.tail (Memᴰ-map f x xs m')
]

-- A location that shows a breadcrumb: its user, at its position, active and last seen when it came.
pub record IsShown (p : Point) (now : ℤ) (loc : Location) : Type 0 where
  pub user : loc.user_id ≡ p.user_id
  pub name : loc.user_name ≡ p.user_name
  pub at_latitude : loc.latitude ≡ p.latitude
  pub at_longitude : loc.longitude ≡ p.longitude
  pub at_elevation : loc.elevation ≡ p.elevation
  pub towards : loc.heading ≡ p.heading
  pub battery : loc.battery_percentage ≡ p.battery_percentage
  pub seen : loc.last_seen_at ≡ unix_milli now
  pub active : loc.is_active ≡ true

-- Every subscriber of the breadcrumb's project whose buffer is not full gets one snapshot, after
-- those it has: it is of that project and shows the user at the new position. A subscriber whose
-- buffer is full, and one of another project, keeps what it has.
pub data Notified (p : Point) (now : ℤ) (r : Room) (ch : Channel) : Channel → Type 0 where
  got :
      (snap : Snapshot) (loc : Location)
      → r.project ≡ p.project_id
      → length ch.buffer < buffer_size
      → snap.project_id ≡ p.project_id
      → Memᴰ loc snap.members
      → IsShown p now loc
      → Notified p now r ch (record ch { buffer = ch.buffer ++ snap ∷ [] })
  dropped : r.project ≡ p.project_id → buffer_size ≤ length ch.buffer → Notified p now r ch ch
  elsewhere : r.project ≢ p.project_id → Notified p now r ch ch

deliver-number : (snap : Snapshot) (ch : Channel) → (deliver snap ch).number ≡ ch.number
deliver-number snap ch = elim (Bool-cases (ltb (length ch.buffer) buffer_size)) [
  | inl e ↦ rw e refl
  | inr e ↦ rw e refl
]

module _ (p : Point) (now : ℤ) (h : Hub) where
  abbrev snap_of : Snapshot
  snap_of =
      snapshot p.project_id
        (people_of p.project_id (put_bucket p.project_id (member_of p now) h.members))

  shows_publisher : Memᴰ (location_of (member_of p now)) snap_of.members
  unfolding publish broadcast
  shows_publisher = Memᴰ-map location_of (member_of p now) _ (
      find_member-Memᴰ p.user_id _ (member_of p now) (
        who-publish p.project_id p.user_id p now h
        ∙ rw (eq_refl p.project_id, eq_refl p.user_id) refl))

  publisher-IsShown : IsShown p now (location_of (member_of p now))
  publisher-IsShown = record {
    user = refl;
    name = refl;
    at_latitude = refl;
    at_longitude = refl;
    at_elevation = refl;
    towards = refl;
    battery = refl;
    seen = refl;
    active = refl;
  }

  deliver-Notified :
      (r : Room) (ch : Channel)
      → r.project ≡ p.project_id
      → Notified p now r ch (deliver snap_of ch)
  deliver-Notified r ch same = elim (Bool-cases (ltb (length ch.buffer) buffer_size)) [
    | inl e ↦ rw e (
        got snap_of (location_of (member_of p now)) same (ground arith) refl shows_publisher
          publisher-IsShown)
    | inr e ↦ rw e (dropped same (ground arith))
  ]

  -- Every subscriber of the hub is still there after a breadcrumb, notified as its project and its
  -- buffer say.
  pub publish-Notified :
      (r : Room) (ch : Channel)
      → Memᴰ r h.subs
      → Memᴰ ch r.channels
      → (r' : Room) × (ch' : Channel) × Memᴰ r' (publish p now h).subs
        × Memᴰ ch' r'.channels
        × (r'.project ≡ r.project)
        × (ch'.number ≡ ch.number)
        × Notified p now r ch ch'
  unfolding publish broadcast
  publish-Notified r ch in_hub in_room = elim (Bool-cases (str_eq r.project p.project_id)) [
    | inl e ↦ (
      record { project = r.project; channels = map (deliver snap_of) r.channels },
      deliver snap_of ch,
      subst (λ (r' : Room). Memᴰ r' (map (deliver_room snap_of) h.subs)) (rw e refl)
          (Memᴰ-map (deliver_room snap_of) r h.subs in_hub),
      Memᴰ-map (deliver snap_of) ch r.channels in_room,
      refl,
      deliver-number snap_of ch,
      deliver-Notified r ch ((eq_iff r.project p.project_id).0 e),
    )
    | inr e ↦ (
      r,
      ch,
      subst (λ (r' : Room). Memᴰ r' (map (deliver_room snap_of) h.subs)) (rw e refl)
          (Memᴰ-map (deliver_room snap_of) r h.subs in_hub),
      in_room,
      refl,
      refl,
      elsewhere (λ same. ground (arith, eq_iff r.project p.project_id)),
    )
  ]
