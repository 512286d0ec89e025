-- ===== src/Operation/Event.antt =====
-- backend/app/operations/core/domain.py: actors, events, checksums and the check of an event chain.
-- A time is a number of microseconds; every time is aware, so `_as_utc` changes nothing. `json.dumps`,
-- `hashlib.sha256` and `datetime.isoformat` are parameters, from Python's library.
pub mod Tamper
use Prim.Native.String.{◌++◌ as str_append}
use gjallar.Prelude.{
  ℕ, ◌+◌, String, Bool, true, false, not, ◌||◌, Option, none, some, List, [], ◌∷◌, nat_eq, ◌==◌,
  if◌then◌else◌,
}
use gjallar.Json.{Json, null, number, text, object, Fields, empty, field}
use gjallar.Redaction.{Patterns}
use gjallar.Operation.Status.{OperationStatus, status_text}

pub record OperationActor : Type 0 where
  pub user_id : String
  pub username : String
  pub role : String

-- `OperationActor.to_dict`
abbrev pub to_dict : OperationActor → Fields
to_dict actor =
    field "user_id" (text actor.user_id)
      (field "username" (text actor.username) (field "role" (text actor.role) empty))

-- The arguments of `event_checksum_payload`.
pub record ChecksumPayload : Type 0 where
  pub operation_id : String
  pub sequence : ℕ
  pub event_type : String
  pub from_status : Option OperationStatus
  pub to_status : OperationStatus
  pub stage : String
  pub actor : OperationActor
  pub payload : Fields
  pub previous_checksum : String
  pub created_at : ℕ

pub record OperationEvent : Type 0 where
  pub event_id : String
  pub operation_id : String
  pub sequence : ℕ
  pub event_type : String
  pub from_status : Option OperationStatus
  pub to_status : OperationStatus
  pub stage : String
  pub actor : OperationActor
  pub payload : Fields
  pub previous_checksum : String
  pub checksum : String
  pub created_at : ℕ

-- What the program takes from Python's library.
pub record Platform : Type 0 where
  pub patterns : Patterns
  -- json.dumps(value, ensure_ascii=False, sort_keys=True, separators=(",", ":"), default=str)
  pub json_dumps : Json → String
  -- time.isoformat()
  pub iso_of_time : ℕ → String
  -- sha256(text.encode()).hexdigest()
  pub sha256_of_text : String → String
  -- str() of a list or a dict
  pub str_of_container : Json → String
  -- int(text): none where it raises, some none for a negative number
  pub int_of_text : String → Option (Option ℕ)
  -- text.isdigit()
  pub is_digit_text : String → Bool

-- `canonical_json`
abbrev pub canonical_json : Platform → Json → String
canonical_json p payload = p.json_dumps payload

-- `operation_digest`
unfoldable pub operation_digest : Platform → Fields → String
operation_digest p payload =
    str_append "sha256:" (p.sha256_of_text (canonical_json p (object payload)))

-- `from_status` in the dict: a null where there is none
abbrev pub status_value : Option OperationStatus → Json
status_value none = null
status_value (some status) = text (status_text status)

-- `event_checksum_payload`
abbrev pub event_checksum_payload : Platform → ChecksumPayload → Fields
event_checksum_payload p c = field "operation_id" (text c.operation_id) (
    field "sequence" (number c.sequence) (
      field "event_type" (text c.event_type) (
        field "from_status" (status_value c.from_status) (
          field "to_status" (text (status_text c.to_status)) (
            field "stage" (text c.stage) (
              field "actor" (object (to_dict c.actor)) (
                field "payload" (object c.payload) (
                  field "previous_checksum" (text c.previous_checksum)
                    (field "created_at" (text (p.iso_of_time c.created_at)) empty)))))))))

-- The arguments that `verify_event_chain` takes from an event.
abbrev pub checksum_arguments : OperationEvent → ChecksumPayload
checksum_arguments e = record {
  operation_id = e.operation_id;
  sequence = e.sequence;
  event_type = e.event_type;
  from_status = e.from_status;
  to_status = e.to_status;
  stage = e.stage;
  actor = e.actor;
  payload = e.payload;
  previous_checksum = e.previous_checksum;
  created_at = e.created_at;
}

-- The loop of `verify_event_chain`, over its two variables.
unfoldable pub verify_from : Platform → String → ℕ → List OperationEvent → Bool
verify_from p previous_checksum expected_sequence [] = true
verify_from p previous_checksum expected_sequence (event ∷ events) =
    let rest = verify_from p event.checksum (expected_sequence + 1) events in
    if not (nat_eq event.sequence expected_sequence)
      || not (event.previous_checksum == previous_checksum)
    then false
    else if not
        (event.checksum == operation_digest p (event_checksum_payload p (checksum_arguments event)))
    then false
    else rest

unfoldable pub verify_event_chain : Platform → List OperationEvent → Bool
unfolding verify_from
verify_event_chain p events = verify_from p "" 1 events
