-- ===== src/Telemetry/Stream/Ends.antt =====
-- What a stream leaves in the hub.
use geo_querry.Prelude.{
  ℕ, String, ◌≡◌, refl, Bool, false, ◌||◌, ◌&&◌, Option, none, some, List, [], ◌∷◌, str_eq, arith,
  any, ◌==◌, Bool-cases, inl, inr,
}
use geo_querry.Prelude.Int.{ℤ}
use geo_querry.Sync.Database.{Ids}
use geo_querry.Telemetry.Hub.{
  Point, Channel, Room, Hub, publish, subscribe, cancel, receive, leave_room, without, keep_room,
}
use geo_querry.Telemetry.Hub.Run.{act}
use geo_querry.Telemetry.Stream.{
  Event, received, end_of_file, receive_error, update_ready, send_error, context_done, of_others,
  StreamError, transport, validate_point, Ending, running, returned, pump, stream_live_telemetry,
  first_point,
}

-- a channel is among the subscribers of a project
abbrev pub listens : String → ℕ → List Room → Bool
listens project_id n [] = false
listens project_id n (r ∷ rs) =
    str_eq r.project project_id && any (λ ch. ch.number == n) r.channels || listens project_id n rs

without-number : (n : ℕ) (chs : List Channel) → any (λ ch. ch.number == n) (without n chs) ≡ false
without-number n [] = refl
without-number n (ch ∷ chs) = ground (arith, without-number n chs)

keep_room-listens :
    (q project_id : String) (n : ℕ) (chs : List Channel) (rs : List Room)
    → any (λ ch. ch.number == n) chs ≡ false
    → listens q n rs ≡ false
    → listens q n (keep_room (record { project = project_id; channels = chs }) rs) ≡ false
keep_room-listens q project_id n [] rs c h = h
keep_room-listens q project_id n (ch ∷ chs) rs c h = ground arith

leave_room-listens :
    (project_id : String) (n : ℕ) (rs : List Room)
    → listens project_id n (leave_room project_id n rs) ≡ false
unfolding leave_room
leave_room-listens project_id n [] = refl
leave_room-listens project_id n (r ∷ rs) = elim (Bool-cases (str_eq r.project project_id)) [
  | inl e ↦ rw e (
      keep_room-listens project_id r.project n (without n r.channels) (leave_room project_id n rs)
        (without-number n r.channels) (leave_room-listens project_id n rs))
  | inr e ↦ rw (e, leave_room-listens project_id n rs, e) refl
]

-- The call is still running, or has returned and left no subscription.
pub data Settled (project_id : String) (n : ℕ) : Ending × Hub → Type 0 where
  still_running : (h : Hub) → Settled project_id n (running, h)
  no_subscription :
      (e : Option StreamError) (h : Hub)
      → listens project_id n h.subs ≡ false
      → Settled project_id n (returned e, h)

module _ (ids : Ids) (project_id : String) (n : ℕ) where
  cancelled :
      (e : Option StreamError) (h : Hub) → Settled project_id n (returned e, cancel project_id n h)
  unfolding cancel
  cancelled e h = no_subscription e _ (leave_room-listens project_id n h.subs)

  pump-Settled : (es : List Event) (h : Hub) → Settled project_id n (pump ids project_id n es h)
  unfolding pump
  pump-Settled [] h = still_running h
  pump-Settled (received p now ∷ es) h = pump-Settled es _
  pump-Settled (end_of_file ∷ es) h = cancelled none h
  pump-Settled (receive_error e ∷ es) h = cancelled (some (transport e)) h
  pump-Settled (update_ready ∷ es) h = pump-Settled es (receive n h)
  pump-Settled (send_error e ∷ es) h = cancelled (some (transport e)) (receive n h)
  pump-Settled (context_done e ∷ es) h = cancelled (some (transport e)) h
  pump-Settled (of_others a ∷ es) h = pump-Settled es (act a h)

-- Whatever a stream with a valid first point meets, other streams and sweeps in between, when its
-- call has returned, its channel is no longer a subscriber of its project.
pub stream_live_telemetry-Settled :
    (ids : Ids) (p : Point) (now : ℤ) (es : List Event) (h : Hub)
    → validate_point ids p ≡ none
    → Settled p.project_id h.next (stream_live_telemetry ids (first_point p now) es h)
unfolding stream_live_telemetry
stream_live_telemetry-Settled ids p now es h valid =
    rw valid (pump-Settled ids p.project_id h.next es (publish p now (subscribe p.project_id h)))
