-- ===== src/Operation/Store.antt =====
-- backend/app/operations/core/infrastructure/repository.py: SqlAlchemyOperationStore, the
-- projection and its append-only events, written in one transaction.
-- `now` is the clock's value, and `event_id` the id from `uuid.uuid4`, at the call.
pub mod Listing
pub mod Chain
pub mod Append
use gjallar.Prelude.{
  ℕ, ◌+◌, String, Bool, true, false, not, ◌&&◌, ◌||◌, Option, none, some, List, [], ◌∷◌, ◌++◌, any,
  leb, nat_eq, ◌==◌, if◌then◌else◌,
}
use gjallar.Prelude.Text.{is_blank}
use gjallar.Json.{Json, Fields, object, empty, merge}
use gjallar.Redaction.{redact_fields}
use gjallar.Operation.Status.{
  OperationStatus, unsupported, transition_allowed, status_in, is_operation_status,
}
use gjallar.Operation.Event.{
  OperationActor, OperationEvent, ChecksumPayload, Platform, operation_digest,
  event_checksum_payload,
}
use gjallar.Result.{
  Result, ok, err, ◌>>=◌, ◌>>◌, raise_if, Failure, value_error, integrity_error,
  invalid_operation_transition, operation_intent_conflict, operation_not_found,
  operation_state_conflict,
}
use gjallar.Database.{OperationRecord, Database, find_operation, replace_operation}

-- `ensure_operation_transition` of domain.py
unfoldable pub ensure_operation_transition : OperationStatus → OperationStatus → Result (Unit {0})
ensure_operation_transition current next =
    raise_if (not (transition_allowed current next)) (invalid_operation_transition current next)

-- `_sanitized_mapping`: `redact_secrets` of a mapping is a mapping
unfoldable pub sanitized_mapping : Platform → Fields → Fields
sanitized_mapping p payload = redact_fields p.patterns payload

-- `list_events`: the rows of the operation by ascending sequence
unfoldable pub insert_by_sequence : OperationEvent → List OperationEvent → List OperationEvent
insert_by_sequence e [] = e ∷ []
insert_by_sequence e (x ∷ xs) =
    if leb e.sequence x.sequence then e ∷ x ∷ xs else x ∷ insert_by_sequence e xs

unfoldable pub list_events : String → List OperationEvent → List OperationEvent
list_events id [] = []
list_events id (e ∷ es) =
    let rest = list_events id es in if e.operation_id == id then insert_by_sequence e rest else rest

-- uq_operation_events_operation_sequence
unfoldable pub has_event : String → ℕ → List OperationEvent → Bool
has_event id sequence events =
    any (λ (e : OperationEvent). (e.operation_id == id) && nat_eq e.sequence sequence) events

-- the primary key of operation_events
unfoldable pub has_event_id : String → List OperationEvent → Bool
has_event_id event_id events = any (λ (e : OperationEvent). e.event_id == event_id) events

-- `session.add(event_row); session.flush()`
unfoldable pub insert_event : OperationEvent → List OperationEvent → Result (List OperationEvent)
unfolding has_event has_event_id
insert_event e events =
    if has_event_id e.event_id events || has_event e.operation_id e.sequence events
    then err integrity_error
    else ok (events ++ e ∷ [])

-- `_new_event_row` with the checksum from `_event_checksum`
unfoldable pub new_event_row : Platform → String → ChecksumPayload → OperationEvent
new_event_row p event_id c = record {
  event_id = event_id;
  operation_id = c.operation_id;
  sequence = c.sequence;
  event_type = c.event_type;
  from_status = c.from_status;
  to_status = c.to_status;
  stage = c.stage;
  actor = c.actor;
  payload = c.payload;
  previous_checksum = c.previous_checksum;
  checksum = operation_digest p (event_checksum_payload p c);
  created_at = c.created_at;
}

-- The keyword arguments of `append_in_session`.
pub record AppendRequest : Type 0 where
  pub next_status : Option OperationStatus
  pub event_type : String
  pub stage : String
  pub payload : Fields
  pub details_patch : Fields
  pub actor : Option OperationActor
  pub expected_statuses : Option (List OperationStatus)
  pub is_transition : Bool

-- `next_status if is_transition else row.status`; str(None) is no status
abbrev pub target_status : OperationRecord → AppendRequest → OperationStatus
target_status row req =
    if req.is_transition
    then elim req.next_status [ none ↦ unsupported | some s ↦ s ]
    else row.status

-- `expected_statuses is not None and row.status not in set(expected_statuses)`
abbrev pub is_unexpected : OperationStatus → Option (List OperationStatus) → Bool
is_unexpected status none = false
is_unexpected status (some expected) = not (status_in status expected)

-- The arguments of `_event_checksum` in `append_in_session`.
unfoldable pub append_payload : Platform → ℕ → OperationRecord → AppendRequest → ChecksumPayload
append_payload p now row req = record {
  operation_id = row.operation_id;
  sequence = row.version + 1;
  event_type = req.event_type;
  from_status = some row.status;
  to_status = target_status row req;
  stage = req.stage;
  actor = elim req.actor [ none ↦ row.actor | some actor ↦ actor ];
  payload = sanitized_mapping p req.payload;
  previous_checksum = row.last_event_checksum;
  created_at = now;
}

-- `_apply_projection`
unfoldable pub apply_projection :
    OperationRecord → OperationStatus → String → Fields → ℕ → String → ℕ → OperationRecord
apply_projection row status stage details_patch version checksum updated_at = record row {
  status = status;
  current_stage = stage;
  details = merge row.details details_patch;
  version = version;
  last_event_checksum = checksum;
  updated_at = updated_at;
}

unfoldable pub require_operation : String → Database → Result OperationRecord
require_operation id db = elim (find_operation id db.operations) [
  | none ↦ err (operation_not_found id)
  | some row ↦ ok row
]

-- The projection after the event of `req`.
unfoldable pub projected : Platform → ℕ → OperationRecord → AppendRequest → OperationRecord
unfolding apply_projection append_payload
projected p now row req =
    apply_projection row (target_status row req) req.stage (sanitized_mapping p req.details_patch)
      (row.version + 1)
      (operation_digest p (event_checksum_payload p (append_payload p now row req))) now

-- The tests of `append_in_session`, in order: the row that they let through.
unfoldable pub checked_row : Database → String → AppendRequest → Result OperationRecord
unfolding require_operation ensure_operation_transition
checked_row db operation_id req = do
  raise_if (is_blank req.event_type || is_blank req.stage) value_error
  row ← require_operation operation_id db
  raise_if (is_unexpected row.status req.expected_statuses)
      (operation_state_conflict operation_id row.status)
  if req.is_transition
      then ensure_operation_transition row.status (target_status row req)
      else ok tt
  ok row

-- The writes of `append_in_session`: the event, then the projection.
unfoldable pub write_event :
    Platform
    → ℕ
    → String
    → Database
    → AppendRequest
    → OperationRecord
    → Result (OperationRecord × Database)
write_event p now event_id db req row = do
  events ← insert_event (new_event_row p event_id (append_payload p now row req)) db.events
  let row' = projected p now row req
  ok (row', record db { operations = replace_operation row' db.operations; events = events })

-- `append_in_session`
unfoldable pub append_in_session :
    Platform → ℕ → String → Database → String → AppendRequest → Result (OperationRecord × Database)
unfolding checked_row write_event
append_in_session p now event_id db operation_id req = do
  row ← checked_row db operation_id req
  write_event p now event_id db req row
