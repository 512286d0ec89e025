-- ===== src/Recovery/Commit/Admission.antt =====
-- The tests of `commit_observation` in backend/app/operations/recovery/infrastructure/repository.py, in
-- order: the lease, the Operation, its locks, the projector and the lock binding.
use Prim.Native.String.{◌++◌ as str_append}
use gjallar.Prelude.{
  ℕ, String, Bool, true, false, not, ◌&&◌, ◌||◌, Option, none, some, List, [], length, ltb, nat_eq,
  ◌==◌, if◌then◌else◌,
}
use gjallar.Json.{Fields, empty, merge}
use gjallar.Operation.Status.{OperationStatus, needs_reconciliation, status_eq}
use gjallar.Operation.Event.{OperationActor, Platform}
use gjallar.Operation.Store.{sanitized_mapping, ensure_operation_transition, is_unexpected}
use gjallar.Result.{
  Result, ok, err, ◌>>=◌, ◌>>◌, raise_if, value_error, operation_state_conflict,
  recovery_operation_conflict,
}
use gjallar.Database.{
  OperationRecord, OperationLockRecord, Database, OperationRecoveryItemRecord, RecoveryStatus,
  paused, find_operation,
}
use gjallar.Lock.Binding.{expected_lock_count}
use gjallar.HostConfig.{is_host_type, preserves_lock_binding}
use gjallar.Recovery.{RecoveryLease, differs, locked_owned_row}
use gjallar.Recovery.Targets.{exact_target_locks, assert_binding_checkpoint}

-- What a projector returns; an absent part is empty.
pub record Projection : Type 0 where
  pub event_payload : Fields
  pub operation_details_patch : Fields
  pub recovery_details_patch : Fields

-- The keyword arguments of `commit_observation`. The projector reads and writes tables of its own,
-- and returns its projection or raises.
pub record Observation : Type 0 where
  pub event_type : String
  pub stage : String
  pub payload : Fields
  pub details_patch : Fields
  pub next_status : Option OperationStatus
  pub expected_statuses : Option (List OperationStatus)
  pub actor : Option OperationActor
  pub recovery_status : RecoveryStatus
  pub retry_delay : ℕ
  pub error_code : String
  pub recovery_details_patch : Fields
  pub release_target_lock : Bool
  pub require_exact_reconciliation_lock : Bool
  pub bind_target_lock : Bool
  pub expected_operation_version : Option ℕ
  pub expected_operation_checksum : Option String
  pub projector : Option (Database → Result Projection)

-- The Operation row, or RecoveryOperationConflict.
unfoldable pub observed_operation : String → Observation → Database → Result OperationRecord
observed_operation id o db = elim (find_operation id db.operations) [
  | none ↦ err (recovery_operation_conflict id)
  | some row ↦ do
    raise_if
        (differs nat_eq row.version o.expected_operation_version
          || differs ◌==◌ row.last_event_checksum o.expected_operation_checksum)
        (recovery_operation_conflict id)
    raise_if (is_unexpected row.status o.expected_statuses) (operation_state_conflict id row.status)
    ok row
]

abbrev pub transition_test : OperationRecord → Observation → Result (Unit {0})
transition_test operation o = elim o.next_status [
  | none ↦ ok tt
  | some next ↦ ensure_operation_transition operation.status next
]

-- next_status == "needs_reconciliation"
abbrev pub reconciles : Observation → Bool
reconciles o = elim o.next_status [ none ↦ false | some s ↦ status_eq s needs_reconciliation ]

abbrev pub is_paused : RecoveryStatus → Bool
is_paused paused = true
is_paused _ = false

abbrev pub is_given : {A : Type 0} → Option A → Bool
is_given none = false
is_given (some a) = true

-- effective_recovery_details
abbrev pub effective_details : Platform → Observation → OperationRecoveryItemRecord → Fields
effective_details p o row =
    if o.bind_target_lock
    then merge row.details (sanitized_mapping p o.recovery_details_patch)
    else row.details

-- is_host_configuration and row.recovery_kind != operation_row.operation_type + "_observation"
abbrev pub is_other_kind : OperationRecord → OperationRecoveryItemRecord → Bool
is_other_kind operation row =
    is_host_type operation.operation_type
    && not (row.recovery_kind == str_append operation.operation_type "_observation")

-- `locks`: the exact ones, or none for a host item of another kind
unfoldable pub observed_locks :
    Platform
    → Observation
    → OperationRecord
    → OperationRecoveryItemRecord
    → List OperationLockRecord
    → List OperationLockRecord
observed_locks p o operation row locks =
    let exact = exact_target_locks p operation (effective_details p o row) locks in
    if is_other_kind operation row then [] else exact

-- The checkpoint, where the observation binds its lock.
unfoldable pub checkpoint_test :
    Platform
    → Observation
    → OperationRecord
    → OperationRecoveryItemRecord
    → List OperationLockRecord
    → Result (Unit {0})
checkpoint_test p o operation row locks =
    if o.bind_target_lock
    then assert_binding_checkpoint p operation row.details (effective_details p o row)
        (sanitized_mapping p o.details_patch) locks
    else ok tt

-- The tests on the locks, in order.
unfoldable pub lock_tests :
    Platform
    → Observation
    → OperationRecord
    → OperationRecoveryItemRecord
    → List OperationLockRecord
    → Result (Unit {0})
unfolding checkpoint_test
lock_tests p o operation row locks = do
  checkpoint_test p o operation row locks
  raise_if (is_given o.projector && not (nat_eq (length locks) 1)) value_error
  let required = expected_lock_count operation.operation_type
  raise_if
      ((nat_eq required 2 || is_host_type operation.operation_type)
        && not (nat_eq (length locks) required)
        && not (
            is_paused o.recovery_status
            && not (is_given o.next_status)
            && not o.release_target_lock))
      (recovery_operation_conflict operation.operation_id)
  raise_if (o.release_target_lock && not (nat_eq (length locks) required)) value_error
  raise_if
      (reconciles o
        && (ltb required (length locks)
            || (o.require_exact_reconciliation_lock && not (nat_eq (length locks) required))))
      value_error

-- The projection, sanitized.
unfoldable pub projection_of : Platform → Observation → Database → Result Projection
projection_of p o db = elim o.projector [
  | none ↦ ok (record {
    event_payload = empty;
    operation_details_patch = empty;
    recovery_details_patch = empty;
  })
  | some run ↦ do
    raw ← run db
    ok (record {
      event_payload = sanitized_mapping p raw.event_payload;
      operation_details_patch = sanitized_mapping p raw.operation_details_patch;
      recovery_details_patch = sanitized_mapping p raw.recovery_details_patch;
    })
]

-- {**sanitized_details_patch, **projected_details}
abbrev pub operation_patch : Platform → Observation → Projection → Fields
operation_patch p o r = merge (sanitized_mapping p o.details_patch) r.operation_details_patch

-- {**sanitized_recovery_patch, **projected_recovery_details}
abbrev pub recovery_patch : Platform → Observation → Projection → Fields
recovery_patch p o r = merge (sanitized_mapping p o.recovery_details_patch) r.recovery_details_patch

-- The last test: a host operation keeps its lock binding.
unfoldable pub binding_test :
    Platform
    → Observation
    → OperationRecord
    → OperationRecoveryItemRecord
    → Projection
    → Result (Unit {0})
binding_test p o operation row r =
    raise_if
      (is_host_type operation.operation_type
        && (not (preserves_lock_binding operation.details (operation_patch p o r))
            || not (preserves_lock_binding row.details (recovery_patch p o r))))
      (recovery_operation_conflict operation.operation_id)

-- What the tests of a commit let through.
pub record Admitted : Type 0 where
  pub row : OperationRecoveryItemRecord
  pub operation : OperationRecord
  pub projection : Projection

-- The tests of `commit_observation`, in order, with the call of the projector.
unfoldable pub admit_observation :
    Platform → ℕ → RecoveryLease → Observation → Database → Result Admitted
unfolding observed_operation observed_locks lock_tests projection_of binding_test
admit_observation p now lease o db = do
  row ← locked_owned_row lease now db
  operation ← observed_operation lease.item.operation_id o db
  transition_test operation o
  lock_tests p o operation row (observed_locks p o operation row db.locks)
  projection ← projection_of p o db
  binding_test p o operation row projection
  ok (record { row = row; operation = operation; projection = projection })
