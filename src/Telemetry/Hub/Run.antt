-- ===== src/Telemetry/Hub/Run.antt =====
-- The hub through any sequence of operations.
use geo_querry.Prelude.{
  ℕ, String, refl, inl, inr, Bool, true, false, List, [], ◌∷◌, ◌++◌, map, str_eq, arith, All,
  length, ◌≤◌, Bool-cases, filter, ◌==◌, length-append, All-append, if◌then◌else◌, ◌≢◌,
}
use geo_querry.Prelude.Int.{ℤ}
use geo_querry.Telemetry.Hub.{
  Point, Member, Snapshot, Bucket, Channel, Room, Hub, new_hub, broadcast, publish, subscribe,
  cancel, sweep_once, sweep_buckets, sweep_bucket, sweep_people, set_bucket, receive, deliver,
  deliver_room, snapshot, people_of, buffer_size, put_member, put_bucket, member_of, join_room,
  leave_room, keep_room, without, pop, pop_in,
}

-- What the streams and the reaper do to the hub, in the order in which they take its mutex.
pub data Action : Type 0 where
  publishes : Point → ℤ → Action
  subscribes : String → Action
  cancels : String → ℕ → Action
  sweeps : ℤ → Action
  receives : ℕ → Action

unfoldable pub act : Action → Hub → Hub
act (publishes p now) h = publish p now h
act (subscribes project_id) h = subscribe project_id h
act (cancels project_id n) h = cancel project_id n h
act (sweeps now) h = sweep_once now h
act (receives n) h = receive n h

-- the hub after some actions
unfoldable pub run : List Action → Hub → Hub
unfolding act
run [] h = h
run (a ∷ rest) h = run rest (act a h)

abbrev pub NonEmpty : {A : Type 0} → List A → Type 0
NonEmpty xs = xs ≢ []

abbrev pub HasSpace : Channel → Type 0
HasSpace ch = length ch.buffer ≤ buffer_size

abbrev pub IsRoom : Room → Type 0
IsRoom r = NonEmpty r.channels × All HasSpace r.channels

-- No bucket and no set of subscribers is kept empty, and no channel holds more than its buffer.
pub record IsHub (h : Hub) : Type 0 where
  pub buckets : All (λ b. NonEmpty b.people) h.members
  pub rooms : All IsRoom h.subs

pub All-map :
    {A B : Type 0} (P : A → Type 0) (Q : B → Type 0) (f : A → B)
    → ((a : A) → P a → Q (f a))
    → (xs : List A) → All P xs
    → All Q (map f xs)
All-map P Q f step [] h = tt
All-map P Q f step (x ∷ xs) h = (step x h.0, All-map P Q f step xs h.1)

map-NonEmpty : {A B : Type 0} (f : A → B) (xs : List A) → NonEmpty xs → NonEmpty (map f xs)
map-NonEmpty f [] h e = h refl
map-NonEmpty f (x ∷ xs) h e = cc

deliver-HasSpace : (snap : Snapshot) (ch : Channel) → HasSpace ch → HasSpace (deliver snap ch)
deliver-HasSpace snap ch h = ground (arith, length-append ch.buffer (snap ∷ []))

deliver_room-IsRoom : (snap : Snapshot) (r : Room) → IsRoom r → IsRoom (deliver_room snap r)
deliver_room-IsRoom snap r h = elim (Bool-cases (str_eq r.project snap.project_id)) [
  | inl e ↦ rw e (
    map-NonEmpty (deliver snap) r.channels h.0,
    All-map HasSpace HasSpace (deliver snap) (deliver-HasSpace snap) r.channels h.1,
  )
  | inr e ↦ rw e h
]

broadcast-IsHub : (project_id : String) (h : Hub) → IsHub h → IsHub (broadcast project_id h)
unfolding broadcast
broadcast-IsHub project_id h i = record {
  buckets = i.buckets;
  rooms =
      All-map IsRoom IsRoom _
        (deliver_room-IsRoom (snapshot project_id (people_of project_id h.members))) h.subs i.rooms;
}

put_member-NonEmpty : (m : Member) (xs : List Member) → NonEmpty (put_member m xs)
unfolding put_member
put_member-NonEmpty m [] e = cc
put_member-NonEmpty m (x ∷ xs) e = elim (Bool-cases (str_eq x.user_id m.user_id)) [
  | inl b ↦ absurd (let e' = rw b at e in cc)
  | inr b ↦ absurd (let e' = rw b at e in cc)
]

put_bucket-NonEmpty :
    (project_id : String) (m : Member) (bs : List Bucket)
    → All (λ b. NonEmpty b.people) bs
    → All (λ b. NonEmpty b.people) (put_bucket project_id m bs)
unfolding put_bucket
put_bucket-NonEmpty project_id m [] h = (λ e. absurd (cc), tt)
put_bucket-NonEmpty project_id m (b ∷ bs) h = elim (Bool-cases (str_eq b.project project_id)) [
  | inl e ↦ rw e (put_member-NonEmpty m b.people, h.1)
  | inr e ↦ rw e (h.0, put_bucket-NonEmpty project_id m bs h.1)
]

append-NonEmpty : {A : Type 0} (xs : List A) (y : A) → NonEmpty (xs ++ y ∷ [])
append-NonEmpty [] y e = cc
append-NonEmpty (x ∷ xs) y e = cc

join_room-IsRoom :
    (project_id : String) (ch : Channel) (rs : List Room)
    → HasSpace ch
    → All IsRoom rs
    → All IsRoom (join_room project_id ch rs)
unfolding join_room
join_room-IsRoom project_id ch [] c h = ((λ e. absurd (cc), (c, tt)), tt)
join_room-IsRoom project_id ch (r ∷ rs) c h = elim (Bool-cases (str_eq r.project project_id)) [
  | inl e ↦
      rw e (
        (append-NonEmpty r.channels ch, All-append HasSpace r.channels (ch ∷ []) h.0.1 (c, tt)),
        h.1,
      )
  | inr e ↦ rw e (h.0, join_room-IsRoom project_id ch rs c h.1)
]

filter-HasSpace :
    (p : Channel → Bool) (chs : List Channel) → All HasSpace chs → All HasSpace (filter p chs)
filter-HasSpace p [] h = tt
filter-HasSpace p (ch ∷ chs) h = elim (Bool-cases (p ch)) [
  | inl e ↦ rw e (h.0, filter-HasSpace p chs h.1)
  | inr e ↦ rw e (filter-HasSpace p chs h.1)
]

keep_room-IsRoom :
    (project_id : String) (chs : List Channel) (rs : List Room)
    → All HasSpace chs
    → All IsRoom rs
    → All IsRoom (keep_room (record { project = project_id; channels = chs }) rs)
keep_room-IsRoom project_id [] rs c h = h
keep_room-IsRoom project_id (ch ∷ chs) rs c h = ((λ e. absurd (cc), c), h)

leave_room-IsRoom :
    (project_id : String) (n : ℕ) (rs : List Room)
    → All IsRoom rs
    → All IsRoom (leave_room project_id n rs)
unfolding leave_room
leave_room-IsRoom project_id n [] h = tt
leave_room-IsRoom project_id n (r ∷ rs) h = elim (Bool-cases (str_eq r.project project_id)) [
  | inl e ↦ rw e (
      keep_room-IsRoom r.project (without n r.channels) (leave_room project_id n rs)
        (filter-HasSpace _ r.channels h.0.1) (leave_room-IsRoom project_id n rs h.1))
  | inr e ↦ rw e (h.0, leave_room-IsRoom project_id n rs h.1)
]

set_bucket-NonEmpty :
    (project_id : String) (people : List Member) (bs : List Bucket)
    → All (λ b. NonEmpty b.people) bs
    → All (λ b. NonEmpty b.people) (set_bucket project_id people bs)
unfolding set_bucket
set_bucket-NonEmpty project_id people [] h = tt
set_bucket-NonEmpty project_id [] (b ∷ bs) h = elim (Bool-cases (str_eq b.project project_id)) [
  | inl e ↦ rw e h.1
  | inr e ↦ rw e (h.0, set_bucket-NonEmpty project_id [] bs h.1)
]
set_bucket-NonEmpty project_id (m ∷ ms) (b ∷ bs) h =
    elim (Bool-cases (str_eq b.project project_id)) [
      | inl e ↦ rw e ((λ e'. absurd (cc)), h.1)
      | inr e ↦ rw e (h.0, set_bucket-NonEmpty project_id (m ∷ ms) bs h.1)
    ]

sweep_bucket-IsHub : (now : ℤ) (b : Bucket) (h : Hub) → IsHub h → IsHub (sweep_bucket now b h)
unfolding sweep_bucket
sweep_bucket-IsHub now b h i = announce (sweep_people h.ttl now b.people).0
  where
    swept : Hub
    swept = record h {
      members = set_bucket b.project (sweep_people h.ttl now b.people).1 h.members;
    }

    swept-IsHub : IsHub swept
    swept-IsHub = record {
      buckets = set_bucket-NonEmpty b.project _ h.members i.buckets;
      rooms = i.rooms;
    }

    announce : (changed : Bool) → IsHub (if changed then broadcast b.project swept else swept)
    announce true = broadcast-IsHub b.project swept swept-IsHub
    announce false = swept-IsHub

sweep_buckets-IsHub :
    (now : ℤ) (bs : List Bucket) (h : Hub) → IsHub h → IsHub (sweep_buckets now bs h)
unfolding sweep_buckets
sweep_buckets-IsHub now [] h i = i
sweep_buckets-IsHub now (b ∷ bs) h i =
    sweep_buckets-IsHub now bs (sweep_bucket now b h) (sweep_bucket-IsHub now b h i)

pop-HasSpace :
    (n : ℕ) (buffer : List Snapshot)
    → length buffer ≤ buffer_size
    → HasSpace (pop (record { number = n; buffer = buffer }))
pop-HasSpace n [] h = h
pop-HasSpace n (s ∷ rest) h = omega arith

pop_in-HasSpace :
    (n : ℕ) (ch : Channel) → HasSpace ch → HasSpace (if ch.number == n then pop ch else ch)
pop_in-HasSpace n ch h = elim (Bool-cases (ch.number == n)) [
  | inl e ↦ rw e (pop-HasSpace ch.number ch.buffer h)
  | inr e ↦ rw e h
]

receive-IsHub : (n : ℕ) (h : Hub) → IsHub h → IsHub (receive n h)
unfolding receive
receive-IsHub n h i = record {
  buckets = i.buckets;
  rooms =
      All-map IsRoom IsRoom (pop_in n)
        (λ r k. (
          map-NonEmpty _ r.channels k.0,
          All-map HasSpace HasSpace _ (pop_in-HasSpace n) r.channels k.1,
        ))
        h.subs i.rooms;
}

act-IsHub : (a : Action) (h : Hub) → IsHub h → IsHub (act a h)
unfolding act publish subscribe cancel sweep_once
act-IsHub (publishes p now) h i = broadcast-IsHub p.project_id _ (record {
  buckets = put_bucket-NonEmpty p.project_id (member_of p now) h.members i.buckets;
  rooms = i.rooms;
})
act-IsHub (subscribes project_id) h i = record {
  buckets = i.buckets;
  rooms = join_room-IsRoom project_id _ h.subs (omega arith) i.rooms;
}
act-IsHub (cancels project_id n) h i = record {
  buckets = i.buckets;
  rooms = leave_room-IsRoom project_id n h.subs i.rooms;
}
act-IsHub (sweeps now) h i = sweep_buckets-IsHub now h.members h i
act-IsHub (receives n) h i = receive-IsHub n h i

-- However streams publish, subscribe, cancel and receive, and whenever the reaper sweeps, a hub that
-- starts empty keeps no empty bucket, no empty set of subscribers, and no channel with more than 64
-- snapshots.
pub run-IsHub : (actions : List Action) (ttl : ℤ) → IsHub (run actions (new_hub ttl))
unfolding run
run-IsHub actions ttl = from actions (new_hub ttl) (record { buckets = tt; rooms = tt })
  where
    from : (actions : List Action) (h : Hub) → IsHub h → IsHub (run actions h)
    from [] h i = i
    from (a ∷ rest) h i = from rest (act a h) (act-IsHub a h i)
