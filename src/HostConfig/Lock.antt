-- ===== src/HostConfig/Lock.antt =====
-- backend/app/operations/host_config/infrastructure.py: the configuration lock of a cluster.
pub mod Outcome
pub mod Isolation
pub mod Runs
use Prim.Native.String.{compare as compare_text}
use Prim.Native.Nat.{Ordering}
use gjallar.Prelude.{
  ℕ, String, Bool, true, false, not, ◌&&◌, ◌||◌, Option, none, some, List, [], ◌∷◌, ◌++◌, any, ◌==◌,
  if◌then◌else◌,
}
use gjallar.Prelude.Text.{strip, is_blank}
use gjallar.Json.{Json, Fields, text, object, empty, field}
use gjallar.Operation.Event.{Platform}
use gjallar.Result.{
  Result, ok, err, ◌>>=◌, ◌>>◌, raise_if, value_error, durable_target_lock_busy,
  host_configuration_target_busy,
}
use gjallar.Database.{
  OperationLockRecord, LockStatus, active, ScopeType, proxmox_configuration, is_open, is_locator,
  Database, find_lock,
}
use gjallar.Setup.{SetupState}
use gjallar.Setup.Host.{admit_host_mutation}
use gjallar.Lock.{as_busy, has_lock}
use gjallar.HostConfig.{target_identity, configuration_scope_key}

-- ConfigurationLock
pub record ConfigurationLock : Type 0 where
  pub lock_id : String
  pub operation_type : String
  pub cluster_id : String
  pub owner_id : String
  pub scope_key : String
  pub status : LockStatus
  pub target_type : String
  pub target_id : String
  pub target : Fields

-- an open lock of any kind in the cluster
abbrev pub is_open_in : String → OperationLockRecord → Bool
is_open_in cluster_id row = (row.cluster_id == cluster_id) && is_open row.status

-- order by operation_lock_id
abbrev pub comes_first : OperationLockRecord → OperationLockRecord → Bool
comes_first a b = elim (compare_text a.operation_lock_id b.operation_lock_id) [
  | Ordering.lt ↦ true
  | _ ↦ false
]

-- `existing` of `acquire`
unfoldable pub open_lock_in : String → List OperationLockRecord → Option OperationLockRecord
open_lock_in cluster_id [] = none
open_lock_in cluster_id (row ∷ rows) =
    let rest = open_lock_in cluster_id rows in
    if is_open_in cluster_id row
    then elim rest [
      | none ↦ some row
      | some other ↦ if comes_first other row then some other else some row
    ]
    else rest

-- an open row on the configuration scope
abbrev pub holds_scope : String → OperationLockRecord → Bool
holds_scope scope_key row =
    not (is_locator row.scope_type) && (row.scope_key == scope_key) && is_open row.status

-- The first open row on the scope.
unfoldable pub scope_holder : String → List OperationLockRecord → Option OperationLockRecord
scope_holder scope_key [] = none
scope_holder scope_key (row ∷ rows) =
    if holds_scope scope_key row then some row else scope_holder scope_key rows

-- `current`, by its row
unfoldable pub current_configuration :
    Platform → String → List OperationLockRecord → Result (Option OperationLockRecord)
unfolding scope_holder
current_configuration p cluster_id locks = elim (configuration_scope_key p cluster_id) [
  | none ↦ err value_error
  | some scope_key ↦ ok (scope_holder scope_key locks)
]

-- The row that `acquire` inserts.
unfoldable pub configuration_row :
    String → ℕ → String → String → String → String → String × String → Fields → OperationLockRecord
configuration_row lock_id now operation_type scope_key cluster_id owner_id identity target =
    record {
      operation_lock_id = lock_id;
      operation_type = operation_type;
      scope_type = proxmox_configuration;
      scope_key = scope_key;
      status = active;
      cluster_id = cluster_id;
      vmid = none;
      owner_id = owner_id;
      reason = "host_configuration_dispatch";
      evidence = field "operation_id" (text owner_id) (
          field "target_type" (text identity.0)
            (field "target_id" (text identity.1) (field "target" (object target) empty)));
      created_at = now;
      updated_at = now;
      released_at = none;
    }

-- `_lock` of the row that `acquire` inserts
unfoldable pub configuration_lock :
    OperationLockRecord → String × String → Fields → ConfigurationLock
configuration_lock row identity target = record {
  lock_id = row.operation_lock_id;
  operation_type = row.operation_type;
  cluster_id = row.cluster_id;
  owner_id = row.owner_id;
  scope_key = row.scope_key;
  status = row.status;
  target_type = identity.0;
  target_id = identity.1;
  target = target;
}

-- The flush: uq_operation_locks_open_configuration and the primary key.
unfoldable pub insert_configuration : OperationLockRecord → Database → Result Database
insert_configuration row db =
    if any (holds_scope row.scope_key) db.locks || has_lock row.operation_lock_id db.locks
    then err (durable_target_lock_busy row.scope_key (host_configuration_target_busy none))
    else ok (record db { locks = db.locks ++ row ∷ [] })

-- The transaction of `acquire`: admission, any open lock of the cluster, the insertion.
unfoldable pub hold_configuration :
    SetupState → OperationLockRecord → Fields → Database → Result Database
unfolding insert_configuration open_lock_in
hold_configuration state row target db = do
  as_busy row.scope_key (admit_host_mutation state row.cluster_id row.operation_type target)
  elim (open_lock_in row.cluster_id db.locks) [
    | some other ↦ err (
        durable_target_lock_busy row.scope_key
          (host_configuration_target_busy (some other.owner_id)))
    | none ↦ insert_configuration row db
  ]

-- `acquire`. `lock_id` is the id from `uuid.uuid4`.
unfoldable pub acquire_configuration :
    Platform
    → SetupState
    → String
    → ℕ
    → String
    → String
    → String
    → Fields
    → Database
    → Result (ConfigurationLock × Database)
unfolding hold_configuration configuration_row configuration_lock
acquire_configuration p state lock_id now operation_type cluster_id owner_id target db =
    elim (target_identity operation_type target) [
      | none ↦ err value_error
      | some identity ↦ elim (configuration_scope_key p cluster_id) [
        | none ↦ err value_error
        | some scope_key ↦ do
          raise_if (is_blank owner_id) value_error
          let row =
              configuration_row lock_id now operation_type scope_key (strip cluster_id)
                (strip owner_id) identity target
          after ← hold_configuration state row target db
          ok (configuration_lock row identity target, after)
      ]
    ]
