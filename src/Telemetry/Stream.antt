-- ===== src/Telemetry/Stream.antt =====
-- The two calls of backend/internal/telemetry/service.go. `trim` is strings.TrimSpace and `ids.parses`
-- is whether uuid.Parse accepts a text; the 256 random bits are an argument, as text.
pub mod Ends
use geo_querry.Prelude.{
  ℕ, String, Bool, not, Option, none, some, List, [], ◌∷◌, ◌++◌, str_eq, if◌then◌else◌, ◌==◌, find,
}
use geo_querry.Prelude.Int.{ℤ, pos, ◌+ℤ◌}
use geo_querry.Sync.Database.{Ids}
use geo_querry.Telemetry.Hub.{
  Point, Snapshot, Channel, Room, Hub, publish, subscribe, cancel, receive, unix_milli,
}
use geo_querry.Telemetry.Hub.Run.{Action, act}

pub data StreamError : Type 0 where
  user_id_required : StreamError
  project_id_not_a_uuid : StreamError
  invalid_organization_id : StreamError
  invalid_project_id : StreamError
  transport : String → StreamError

pub record Ticket : Type 0 where
  pub ticket : String
  pub expires_at : ℤ
  pub stream_url : String

pub data TicketReply : Type 0 where
  issued : Ticket → TicketReply
  refused : StreamError → TicketReply

-- AcquireStreamTicket
unfoldable pub acquire_stream_ticket :
    Ids → (String → String) → String → ℤ → String → String → TicketReply
acquire_stream_ticket ids trim random_hex now organization_id project_id =
    if not (ids.parses (trim organization_id))
    then refused invalid_organization_id
    else if not (ids.parses (trim project_id))
    then refused invalid_project_id
    else issued (record {
      ticket = random_hex;
      expires_at = unix_milli (now +ℤ pos 30000000000);
      stream_url = "/geoquerry.v1.TelemetryService/StreamLiveTelemetry";
    })

-- validatePoint; no error is none.
unfoldable pub validate_point : Ids → Point → Option StreamError
validate_point ids p =
    if str_eq p.user_id ""
    then some user_id_required
    else if not (ids.parses p.project_id)
    then some project_id_not_a_uuid
    else none

-- What the loop of StreamLiveTelemetry meets, in order. The clock stands with each point; between
-- two of its own steps the hub may see any action of the others.
pub data Event : Type 0 where
  received : Point → ℤ → Event
  end_of_file : Event
  receive_error : String → Event
  update_ready : Event
  send_error : String → Event
  context_done : String → Event
  of_others : Action → Event

-- How the call stands after the events so far.
pub data Ending : Type 0 where
  running : Ending
  returned : Option StreamError → Ending

-- The loop, and the deferred cancel that runs on every return.
unfoldable pub pump : Ids → String → ℕ → List Event → Hub → Ending × Hub
unfolding validate_point publish receive cancel act
pump ids project_id n [] h = (running, h)
pump ids project_id n (received p now ∷ es) h =
    pump ids project_id n es (elim (validate_point ids p) [ none ↦ publish p now h | some e ↦ h ])
pump ids project_id n (end_of_file ∷ es) h = (returned none, cancel project_id n h)
pump ids project_id n (receive_error e ∷ es) h =
    (returned (some (transport e)), cancel project_id n h)
pump ids project_id n (update_ready ∷ es) h = pump ids project_id n es (receive n h)
pump ids project_id n (send_error e ∷ es) h =
    (returned (some (transport e)), cancel project_id n (receive n h))
pump ids project_id n (context_done e ∷ es) h =
    (returned (some (transport e)), cancel project_id n h)
pump ids project_id n (of_others a ∷ es) h = pump ids project_id n es (act a h)

-- What the first Receive gives.
pub data First : Type 0 where
  first_point : Point → ℤ → First
  first_error : String → First

abbrev pub start_stream : Ids → Point → ℤ → Option StreamError → List Event → Hub → Ending × Hub
start_stream ids p now (some e) es h = (returned (some e), h)
start_stream ids p now none es h =
    pump ids p.project_id h.next es (publish p now (subscribe p.project_id h))

-- StreamLiveTelemetry
unfoldable pub stream_live_telemetry : Ids → First → List Event → Hub → Ending × Hub
unfolding validate_point subscribe publish pump
stream_live_telemetry ids (first_error e) es h = (returned (some (transport e)), h)
stream_live_telemetry ids (first_point p now) es h =
    start_stream ids p now (validate_point ids p) es h
