-- ===== src/Database.antt =====
-- The tables that the operations components share, as one value: backend/app/db/models.py,
-- backend/app/operations/core/infrastructure/models.py and
-- backend/app/operations/recovery/infrastructure/models.py.
-- A transaction is a function from the database to a `Result`: where it raises, `session_scope`
-- rolls back, and the database is the one before. A nullable text column of an actor holds "" here
-- where the source reads `value or ""`.
use gjallar.Prelude.{
  ℕ, String, Bool, true, false, Option, none, some, List, [], ◌∷◌, ◌==◌, if◌then◌else◌,
}
use gjallar.Json.{Fields}
use gjallar.Operation.Status.{OperationStatus}
use gjallar.Operation.Event.{OperationActor, OperationEvent}

-- `OperationRecord`, and the `OperationSnapshot` that copies its columns
pub record OperationRecord : Type 0 where
  pub operation_id : String
  pub operation_type : String
  pub execution_mode : String
  pub status : OperationStatus
  pub target_type : String
  pub target_id : String
  pub idempotency_key : String
  pub intent_digest : String
  pub plan_digest : String
  pub current_stage : String
  pub actor : OperationActor
  pub details : Fields
  pub expires_at : Option ℕ
  pub version : ℕ
  pub last_event_checksum : String
  pub created_at : ℕ
  pub updated_at : ℕ

-- the `status` column of OperationLockRecord
pub data LockStatus : Type 0 where
  active released stale reconciliation_required : LockStatus

-- the `scope_type` column of OperationLockRecord
pub data ScopeType : Type 0 where
  proxmox_locator proxmox_configuration : ScopeType

pub record OperationLockRecord : Type 0 where
  pub operation_lock_id : String
  pub operation_type : String
  pub scope_type : ScopeType
  pub scope_key : String
  pub status : LockStatus
  pub cluster_id : String
  pub vmid : Option ℕ
  pub owner_id : String
  pub reason : String
  pub evidence : Fields
  pub created_at : ℕ
  pub updated_at : ℕ
  pub released_at : Option ℕ

-- RECOVERY_STATUSES
pub data RecoveryStatus : Type 0 where
  pending leased retry_wait paused completed : RecoveryStatus

pub record OperationRecoveryItemRecord : Type 0 where
  pub operation_id : String
  pub recovery_kind : String
  pub status : RecoveryStatus
  pub available_at : ℕ
  pub lease_owner : Option String
  pub lease_token : Option String
  pub lease_generation : ℕ
  pub lease_expires_at : Option ℕ
  pub attempt_count : ℕ
  pub last_error_code : Option String
  pub details : Fields
  pub created_at : ℕ
  pub updated_at : ℕ
  pub completed_at : Option ℕ

pub record Database : Type 0 where
  pub operations : List OperationRecord
  pub events : List OperationEvent
  pub locks : List OperationLockRecord
  pub recovery_items : List OperationRecoveryItemRecord

-- `status in OPEN_TARGET_LOCK_STATUSES`
abbrev pub is_open : LockStatus → Bool
is_open released = false
is_open _ = true

abbrev pub is_locator : ScopeType → Bool
is_locator proxmox_locator = true
is_locator proxmox_configuration = false

-- session.get(OperationRecord, operation_id)
unfoldable pub find_operation : String → List OperationRecord → Option OperationRecord
find_operation id [] = none
find_operation id (row ∷ rows) = if row.operation_id == id then some row else find_operation id rows

-- Writes the columns of the row with the same primary key.
unfoldable pub replace_operation : OperationRecord → List OperationRecord → List OperationRecord
replace_operation new [] = []
replace_operation new (row ∷ rows) =
    (if row.operation_id == new.operation_id then new else row) ∷ replace_operation new rows

-- session.get(OperationRecoveryItemRecord, operation_id)
unfoldable pub find_recovery :
    String → List OperationRecoveryItemRecord → Option OperationRecoveryItemRecord
find_recovery id [] = none
find_recovery id (row ∷ rows) = if row.operation_id == id then some row else find_recovery id rows

unfoldable pub replace_recovery :
    OperationRecoveryItemRecord
    → List OperationRecoveryItemRecord
    → List OperationRecoveryItemRecord
replace_recovery new [] = []
replace_recovery new (row ∷ rows) =
    (if row.operation_id == new.operation_id then new else row) ∷ replace_recovery new rows

unfoldable pub find_lock : String → List OperationLockRecord → Option OperationLockRecord
find_lock id [] = none
find_lock id (row ∷ rows) = if row.operation_lock_id == id then some row else find_lock id rows

unfoldable pub replace_lock :
    OperationLockRecord → List OperationLockRecord → List OperationLockRecord
replace_lock new [] = []
replace_lock new (row ∷ rows) =
    (if row.operation_lock_id == new.operation_lock_id then new else row) ∷ replace_lock new rows

-- Writes the columns of the row that `find_lock` reads by the id.
unfoldable pub store_lock :
    OperationLockRecord → List OperationLockRecord → List OperationLockRecord
store_lock new [] = []
store_lock new (row ∷ rows) =
    let rest = store_lock new rows in
    if row.operation_lock_id == new.operation_lock_id then new ∷ rows else row ∷ rest
