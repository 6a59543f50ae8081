-- ===== src/Sync/Conflict.antt =====
-- conflict.go, and `finishUpshot` and `entityResult`: the verdict on one pushed entity.
use geo_querry.Prelude.{String, Bool, true, false, Option, none, some, str_eq, if◌then◌else◌}
use geo_querry.Sync.Messages.{ValidationError}
use Prim.Native.String.{◌++◌}

pub data SyncStatus : Type 0 where
  unspecified synced conflict_overwrote conflict_stale rejected : SyncStatus

-- What a statement fails with: a Postgres error with its code and message, or any other error.
pub data DbError : Type 0 where
  pg_error : String → String → DbError
  other_error : String → DbError

-- `error_message`; the texts of validation errors are kept as data. The empty text is no message.
pub data Message : Type 0 where
  text : String → Message
  invalid : ValidationError → Message

pub record Upshot : Type 0 where
  pub status : SyncStatus
  pub msg : Message

pub record EntityResult : Type 0 where
  pub id : String
  pub status : SyncStatus
  pub error_message : Message

-- ResolveUpshot
unfoldable pub resolve_upshot : Bool → Bool → SyncStatus
resolve_upshot false was_insert = conflict_stale
resolve_upshot true true = synced
resolve_upshot true false = conflict_overwrote

-- classifyError
unfoldable pub classify_error : DbError → SyncStatus × Message
classify_error (other_error e) = (rejected, text ("storage error: " ++ e))
classify_error (pg_error code message) =
    if str_eq code "23505"
    then (
      rejected,
      text "a record with this code already exists under a different id (rename one of them)",
    )
    else if str_eq code "23503"
    then (rejected, text "parent record not found on server (push its parent first)")
    else if str_eq code "22P02"
    then (rejected, text "malformed identifier")
    else (rejected, text ("database error: " ++ message))

abbrev pub no_message : Message
no_message = text ""

abbrev pub rejection : SyncStatus × Message → Upshot
rejection (status, msg) = record { status = status; msg = msg }

-- finishUpshot
unfoldable pub finish_upshot : Bool → Bool → Option DbError → Upshot
unfolding resolve_upshot classify_error
finish_upshot applied was_insert (some e) = rejection (classify_error e)
finish_upshot applied was_insert none = record {
  status = resolve_upshot applied was_insert;
  msg = no_message;
}

is_empty : Message → Bool
is_empty (text s) = str_eq s ""
is_empty (invalid e) = false

-- entityResult
unfoldable pub entity_result : String → SyncStatus → Message → EntityResult
unfolding is_empty
entity_result id status msg = record {
  id = id;
  status = status;
  error_message = if is_empty msg then no_message else msg;
}
