-- ===== src/Operation/Create.antt =====
-- `OperationSpec` of backend/app/operations/core/domain.py, and `create` of
-- backend/app/operations/core/infrastructure/repository.py.
pub mod Idempotent
pub mod Scopes
use gjallar.Prelude.{
  ℕ, String, Bool, true, false, not, ◌&&◌, ◌||◌, Option, none, some, List, [], ◌∷◌, ◌++◌, any, ◌==◌,
  if◌then◌else◌,
}
use gjallar.Prelude.Text.{is_blank}
use gjallar.Json.{Fields}
use gjallar.Operation.Status.{OperationStatus, is_operation_status}
use gjallar.Operation.Event.{
  OperationActor, ChecksumPayload, Platform, operation_digest, event_checksum_payload,
}
use gjallar.Operation.Store.{new_event_row, insert_event, sanitized_mapping}
use gjallar.Result.{
  Result, ok, err, ◌>>=◌, ◌>>◌, raise_if, value_error, integrity_error, operation_intent_conflict,
}
use gjallar.Database.{OperationRecord, Database, find_operation}

pub record OperationSpec : Type 0 where
  pub operation_id : String
  pub operation_type : String
  pub execution_mode : String
  pub target_type : String
  pub target_id : String
  pub idempotency_key : String
  pub intent_digest : String
  pub plan_digest : String
  pub actor : OperationActor
  pub initial_status : OperationStatus
  pub initial_stage : String
  pub expires_at : Option ℕ
  pub details : Fields

abbrev pub execution_modes : List String
execution_modes = "managed_api" ∷ "guided_manual" ∷ "observe_only" ∷ []

-- `OperationSpec.__post_init__`; an aware `expires_at` passes its last test
unfoldable pub check_spec : OperationSpec → Result OperationSpec
check_spec spec = do
  raise_if
      (any is_blank (
        spec.operation_id ∷ spec.operation_type ∷ spec.target_type ∷ spec.target_id
        ∷ spec.idempotency_key ∷ spec.intent_digest ∷ spec.plan_digest ∷ []))
      value_error
  raise_if (not (any (λ mode. spec.execution_mode == mode) execution_modes)) value_error
  raise_if (not (is_operation_status spec.initial_status)) value_error
  ok spec

-- The columns of uq_operations_scoped_idempotency.
abbrev pub same_scope : OperationSpec → OperationRecord → Bool
same_scope spec row =
    (row.operation_type == spec.operation_type)
    && (row.target_type == spec.target_type)
    && (row.target_id == spec.target_id)
    && (row.idempotency_key == spec.idempotency_key)

-- `_get_by_scope`
unfoldable pub get_by_scope : OperationSpec → List OperationRecord → Option OperationRecord
get_by_scope spec [] = none
get_by_scope spec (row ∷ rows) = if same_scope spec row then some row else get_by_scope spec rows

-- `same_identity` of `_resolve_existing`
abbrev pub same_identity : OperationSpec → OperationRecord → Bool
same_identity spec existing =
    same_scope spec existing
    && (existing.execution_mode == spec.execution_mode)
    && (existing.intent_digest == spec.intent_digest)
    && (existing.plan_digest == spec.plan_digest)

-- OperationCreateResult
pub record OperationCreateResult : Type 0 where
  pub operation : OperationRecord
  pub created : Bool

-- `_resolve_existing`
unfoldable pub resolve_existing : OperationRecord → OperationSpec → Result OperationCreateResult
resolve_existing existing spec =
    if same_identity spec existing
    then ok (record { operation = existing; created = false })
    else err (operation_intent_conflict existing.operation_id)

-- The arguments of `_event_checksum` in `create`.
unfoldable pub created_payload : Platform → ℕ → OperationSpec → Fields → ChecksumPayload
created_payload p now spec event_payload = record {
  operation_id = spec.operation_id;
  sequence = 1;
  event_type = "operation_created";
  from_status = none;
  to_status = spec.initial_status;
  stage = spec.initial_stage;
  actor = spec.actor;
  payload = sanitized_mapping p event_payload;
  previous_checksum = "";
  created_at = now;
}

-- The new `OperationRecord` of `create`.
unfoldable pub created_row : Platform → ℕ → OperationSpec → Fields → OperationRecord
created_row p now spec event_payload = record {
  operation_id = spec.operation_id;
  operation_type = spec.operation_type;
  execution_mode = spec.execution_mode;
  status = spec.initial_status;
  target_type = spec.target_type;
  target_id = spec.target_id;
  idempotency_key = spec.idempotency_key;
  intent_digest = spec.intent_digest;
  plan_digest = spec.plan_digest;
  current_stage = spec.initial_stage;
  actor = spec.actor;
  details = sanitized_mapping p spec.details;
  expires_at = spec.expires_at;
  version = 1;
  last_event_checksum =
      operation_digest p (event_checksum_payload p (created_payload p now spec event_payload));
  created_at = now;
  updated_at = now;
}

-- The insertions of `create`: the row, under its primary key and its scope, then its first event.
unfoldable pub insert_operation :
    Platform → ℕ → String → OperationSpec → Fields → Database → Result Database
insert_operation p now event_id spec event_payload db =
    elim (find_operation spec.operation_id db.operations) [
      | some taken ↦ err integrity_error
      | none ↦ elim (get_by_scope spec db.operations) [
        | some taken ↦ err integrity_error
        | none ↦ do
          events ←
              insert_event (new_event_row p event_id (created_payload p now spec event_payload))
                db.events
          ok (record db {
            operations = db.operations ++ created_row p now spec event_payload ∷ [];
            events = events;
          })
      ]
    ]

-- `except IntegrityError`: the scope is read again, then the id
unfoldable pub resolve_conflict : OperationSpec → Database → Result OperationCreateResult
resolve_conflict spec db = elim (get_by_scope spec db.operations) [
  | some existing ↦ resolve_existing existing spec
  | none ↦ elim (find_operation spec.operation_id db.operations) [
    | some existing ↦ resolve_existing existing spec
    | none ↦ err integrity_error
  ]
]

-- `create`. Other transactions can commit between its first read and its insertion: it reads the
-- scope in `before` and inserts into `db`.
unfoldable pub create :
    Platform
    → ℕ
    → String
    → OperationSpec
    → Fields
    → Database
    → Database
    → Result (OperationCreateResult × Database)
create p now event_id spec event_payload before db = elim (get_by_scope spec before.operations) [
  | some existing ↦ do r ← resolve_existing existing spec; ok (r, db)
  | none ↦ elim (insert_operation p now event_id spec event_payload db) [
    | err e ↦ do r ← resolve_conflict spec db; ok (r, db)
    | ok db' ↦ ok (record { operation = created_row p now spec event_payload; created = true }, db')
  ]
]
