-- ===== src/Operation/Guarded.antt =====
-- The callers of `append_in_session` in backend/app/operations/core/infrastructure/repository.py:
-- plain appends, and transitions that are guarded by the target lock and the recovery item.
pub mod Closure
use Prim.Native.String.{◌++◌ as str_append}
use gjallar.Prelude.{
  ℕ, String, Bool, true, false, not, ◌&&◌, ◌||◌, Option, none, some, List, [], ◌∷◌, any, ◌==◌,
  if◌then◌else◌,
}
use gjallar.Prelude.Text.{is_blank}
use gjallar.Json.{Fields}
use gjallar.Operation.Status.{
  OperationStatus, planned, failed, status_eq, status_in, terminal_operation_statuses,
}
use gjallar.Operation.Event.{OperationActor, Platform}
use gjallar.Operation.Store.{AppendRequest, append_in_session, require_operation}
use gjallar.Result.{Result, ok, err, ◌>>=◌, ◌>>◌, raise_if, value_error}
use gjallar.Database.{
  OperationRecord, OperationLockRecord, OperationRecoveryItemRecord, Database, is_open, is_locator,
  find_lock, find_recovery,
}
use gjallar.Lock.{decimal}
use gjallar.Recovery.{is_completed}

-- `_append`
unfoldable pub append :
    Platform → ℕ → String → Database → String → AppendRequest → Result (OperationRecord × Database)
append p now event_id db operation_id req = do
  raise_if (is_blank req.event_type || is_blank req.stage) value_error
  append_in_session p now event_id db operation_id req

-- The keyword arguments that `transition` and `append_event` share.
pub record EventRequest : Type 0 where
  pub event_type : String
  pub stage : String
  pub payload : Fields
  pub details_patch : Fields
  pub actor : Option OperationActor
  pub expected_statuses : Option (List OperationStatus)

abbrev pub as_append : EventRequest → Option OperationStatus → Bool → AppendRequest
as_append req next_status is_transition = record {
  next_status = next_status;
  event_type = req.event_type;
  stage = req.stage;
  payload = req.payload;
  details_patch = req.details_patch;
  actor = req.actor;
  expected_statuses = req.expected_statuses;
  is_transition = is_transition;
}

-- `transition`
unfoldable pub transition :
    Platform
    → ℕ
    → String
    → Database
    → String
    → OperationStatus
    → EventRequest
    → Result (OperationRecord × Database)
unfolding append
transition p now event_id db operation_id next_status req =
    append p now event_id db operation_id (as_append req (some next_status) true)

-- `append_event`
unfoldable pub append_event :
    Platform → ℕ → String → Database → String → EventRequest → Result (OperationRecord × Database)
unfolding append
append_event p now event_id db operation_id req =
    append p now event_id db operation_id (as_append req none false)

-- f"vmid:{lock.vmid}"
abbrev pub lock_target : OperationLockRecord → String
lock_target lock = elim lock.vmid [
  | none ↦ "vmid:None"
  | some vmid ↦ str_append "vmid:" (decimal vmid)
]

-- an open locator lock on the Operation's target
abbrev pub holds_target : OperationRecord → OperationLockRecord → Bool
holds_target operation lock =
    is_open lock.status
    && is_locator lock.scope_type
    && (operation.target_type == "proxmox_vm")
    && (operation.target_id == lock_target lock)

-- The arguments of `append_in_session` in the two guarded transitions.
abbrev pub from_planned : EventRequest → OperationStatus → AppendRequest
from_planned req next_status =
    as_append (record req { actor = none; expected_statuses = some (planned ∷ []) })
      (some next_status) true

-- The tests of `transition_for_target_lock_conflict` on the lock.
abbrev pub excludes_dispatch : OperationRecord → String → String → OperationLockRecord → Bool
excludes_dispatch operation operation_id owner_id lock =
    (lock.owner_id == owner_id)
    && not (lock.owner_id == operation_id)
    && holds_target operation lock

-- `transition_for_target_lock_conflict`
unfoldable pub transition_for_target_lock_conflict :
    Platform
    → ℕ
    → String
    → Database
    → String
    → String
    → String
    → OperationStatus
    → EventRequest
    → Result (OperationRecord × Database)
transition_for_target_lock_conflict p now event_id db operation_id lock_id owner_id next_status
      req =
    do
      operation ← require_operation operation_id db
      if not (status_eq operation.status planned)
          then ok (operation, db)
          else elim (find_lock lock_id db.locks) [
            | none ↦ ok (operation, db)
            | some lock ↦
                if not (excludes_dispatch operation operation_id owner_id lock)
                then ok (operation, db)
                else append_in_session p now event_id db operation_id (from_planned req next_status)
          ]

-- The outcome of the last append of `transition_pre_dispatch_failure`.
abbrev pub as_permission : Result (OperationRecord × Database) → Result (Bool × Database)
as_permission (ok r) = ok (true, r.1)
as_permission (err e) = err e

-- `transition_pre_dispatch_failure`
unfoldable pub transition_pre_dispatch_failure :
    Platform → ℕ → String → Database → String → String → EventRequest → Result (Bool × Database)
transition_pre_dispatch_failure p now event_id db operation_id lock_id req = do
  operation ← require_operation operation_id db
  if not (status_eq operation.status planned)
      then ok (false, db)
      else elim (find_recovery operation_id db.recovery_items) [
        | some item ↦ ok (false, db)
        | none ↦ elim (find_lock lock_id db.locks) [
          | none ↦ ok (false, db)
          | some lock ↦
              if not ((lock.owner_id == operation_id) && holds_target operation lock)
              then ok (false, db)
              else as_permission
                  (append_in_session p now event_id db operation_id (from_planned req failed))
        ]
      ]

-- `has_unfinished_coordination`
unfoldable pub has_unfinished_coordination : String → Database → Bool
has_unfinished_coordination excluded db =
    any
      (λ (row : OperationRecord).
        not (row.operation_id == excluded)
        && not (status_in row.status terminal_operation_statuses))
      db.operations
    || any (λ (row : OperationLockRecord). is_open row.status) db.locks
    || any (λ (row : OperationRecoveryItemRecord). not (is_completed row.status)) db.recovery_items
