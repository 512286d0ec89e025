-- ===== src/Recovery/Commit.antt =====
-- `commit_observation` of backend/app/operations/recovery/infrastructure/repository.py: one transaction
-- that tests the lease, the Operation and its locks, and writes all four tables.
use Prim.Native.String.{[] as no_text, ◌∷◌ as text_cons, ◌++◌ as str_append}
pub mod Admission
pub mod Outcome
pub mod Locks
pub mod Exact
pub mod Effects
unfoldable pub use Admission.*
use gjallar.Prelude.{
  ℕ, zero, suc, ◌+◌, String, Bool, true, false, not, ◌&&◌, ◌||◌, Option, none, some, List, [], ◌∷◌,
  length, ltb, nat_eq, ◌==◌, if◌then◌else◌,
}
use gjallar.Prelude.Text.{strip}
use gjallar.Json.{Fields, text, field, empty, merge}
use gjallar.Operation.Status.{OperationStatus, needs_reconciliation, status_eq}
use gjallar.Operation.Event.{OperationActor, Platform}
use gjallar.Operation.Store.{
  AppendRequest, sanitized_mapping, ensure_operation_transition, is_unexpected, append_in_session,
}
use gjallar.Result.{
  Result, ok, err, ◌>>=◌, ◌>>◌, raise_if, value_error, operation_state_conflict,
  recovery_operation_conflict,
}
use gjallar.Database.{
  OperationRecord, OperationLockRecord, LockStatus, released, reconciliation_required, Database,
  OperationRecoveryItemRecord, RecoveryStatus, paused, find_operation, store_lock,
}
use gjallar.Lock.Binding.{expected_lock_count}
use gjallar.HostConfig.{is_host_type, preserves_lock_binding}
use gjallar.Recovery.{
  RecoveryItem, RecoveryLease, recovery_item, update_recovery, is_leased, is_completed, differs,
  locked_owned_row,
}
use gjallar.Recovery.Targets.{exact_target_locks, assert_binding_checkpoint}

-- The arguments of `append_in_session`.
abbrev pub observation_request : Platform → Observation → Projection → AppendRequest
observation_request p o r = record {
  next_status = o.next_status;
  event_type = o.event_type;
  stage = o.stage;
  payload = merge (sanitized_mapping p o.payload) r.event_payload;
  details_patch = operation_patch p o r;
  actor = o.actor;
  expected_statuses = o.expected_statuses;
  is_transition = is_given o.next_status;
}

-- s[:n]
unfoldable pub take_text : ℕ → String → String
take_text zero s = ""
take_text (suc n) String.[] = ""
take_text (suc n) (String.◌∷◌ c s) = text_cons c (take_text n s)

-- The columns of the recovery item that the commit writes.
unfoldable pub committed_row :
    Platform
    → ℕ
    → Observation
    → Projection
    → OperationRecoveryItemRecord
    → OperationRecoveryItemRecord
unfolding take_text
committed_row p now o r row = record row {
  status = o.recovery_status;
  available_at = now + o.retry_delay;
  lease_owner = if is_leased o.recovery_status then row.lease_owner else none;
  lease_token = if is_leased o.recovery_status then row.lease_token else none;
  lease_expires_at = if is_leased o.recovery_status then row.lease_expires_at else none;
  last_error_code = if o.error_code == "" then none else some (take_text 120 (strip o.error_code));
  details =
      merge (merge row.details (sanitized_mapping p o.recovery_details_patch))
        r.recovery_details_patch;
  updated_at = now;
  completed_at = if is_completed o.recovery_status then some now else none;
}

-- {**lock.evidence, "recovery_operation_id": ..., "recovery_event_type": ...}
abbrev pub lock_evidence : String → Observation → OperationLockRecord → Fields
lock_evidence operation_id o lock = merge lock.evidence (
    field "recovery_operation_id" (text operation_id)
      (field "recovery_event_type" (text o.event_type) empty))

abbrev pub verified_lock : ℕ → String → Observation → OperationLockRecord → OperationLockRecord
verified_lock now operation_id o lock = record lock {
  status = released;
  reason = "verified_recovery_completed";
  evidence = lock_evidence operation_id o lock;
  released_at = some now;
  updated_at = now;
}

abbrev pub doubted_lock : ℕ → String → Observation → OperationLockRecord → OperationLockRecord
doubted_lock now operation_id o lock = record lock {
  status = reconciliation_required;
  reason = "recovery_result_requires_reconciliation";
  evidence = lock_evidence operation_id o lock;
  updated_at = now;
}

unfoldable pub write_locks :
    (OperationLockRecord → OperationLockRecord)
    → List OperationLockRecord
    → List OperationLockRecord
    → List OperationLockRecord
write_locks f [] table = table
write_locks f (lock ∷ locks) table = write_locks f locks (store_lock (f lock) table)

-- The lock table after the commit.
unfoldable pub committed_locks :
    ℕ
    → String
    → Observation
    → List OperationLockRecord
    → List OperationLockRecord
    → List OperationLockRecord
unfolding write_locks
committed_locks now operation_id o locks table =
    if o.release_target_lock
    then write_locks (verified_lock now operation_id o) locks table
    else if reconciles o
    then write_locks (doubted_lock now operation_id o) locks table
    else table

-- The writes after `append_in_session`.
unfoldable pub write_observation :
    Platform → ℕ → Observation → Admitted → Database → Database → Database
unfolding committed_row committed_locks observed_locks
write_observation p now o a before db = record db {
  locks =
      committed_locks now a.operation.operation_id o
        (observed_locks p o a.operation a.row before.locks) db.locks;
  recovery_items =
      update_recovery a.row.operation_id (committed_row p now o a.projection) db.recovery_items;
}

-- `commit_observation`; a RecoveryStatus is one of those that its first test allows
unfoldable pub commit_observation :
    Platform
    → ℕ
    → String
    → RecoveryLease
    → Observation
    → Database
    → Result (OperationRecord × RecoveryItem × Database)
unfolding admit_observation write_observation
commit_observation p now event_id lease o db = do
  a ← admit_observation p now lease o db
  appended ←
      append_in_session p now event_id db lease.item.operation_id
        (observation_request p o a.projection)
  ok (
    appended.0,
    recovery_item (committed_row p now o a.projection a.row),
    write_observation p now o a db appended.1,
  )
