-- ===== src/Lock.antt =====
-- backend/app/operations/locks/domain.py and
-- backend/app/operations/locks/infrastructure/repository.py: durable locks on Proxmox VM locators.
pub mod Locator
pub mod Exclusion
pub mod Release
pub mod Refines
pub mod Digits
pub mod Binding
use Prim.Native.String.{
  [] as no_text, ◌∷◌ as text_cons, ◌++◌ as str_append, compare as compare_text,
}
use Prim.Native.Char.{code}
use Prim.Native.Nat.{Ordering}
unfoldable pub use Locator.*
use gjallar.Prelude.{
  ℕ, zero, suc, ◌/◌, ◌%◌, ◌+◌, String, Bool, true, false, not, ◌&&◌, ◌||◌, Option, none, some, List,
  [], ◌∷◌, ◌++◌, any, ltb, nat_eq, ◌==◌, if◌then◌else◌,
}
use gjallar.Prelude.Text.{strip, is_blank}
use gjallar.Json.{Json, Fields, text, empty, field}
use gjallar.Result.{
  Result, ok, err, ◌>>=◌, ◌>>◌, raise_if, Failure, value_error, durable_target_lock_busy,
  setup_error, BusyReason, held, setup, host_configuration_in_progress, unknown,
}
use gjallar.Database.{
  OperationLockRecord, LockStatus, active, released, ScopeType, proxmox_locator, is_open,
  is_locator, Database, find_lock, replace_lock,
}
use gjallar.Setup.{SetupState, admit_mutation}

-- an open row on the locator with this key
abbrev pub holds_locator : String → OperationLockRecord → Bool
holds_locator scope_key row =
    is_locator row.scope_type && (row.scope_key == scope_key) && is_open row.status

-- order by created_at, operation_lock_id
abbrev pub comes_before : OperationLockRecord → OperationLockRecord → Bool
comes_before a b =
    ltb a.created_at b.created_at
    || (nat_eq a.created_at b.created_at
        && elim (compare_text a.operation_lock_id b.operation_lock_id) [
          | Ordering.lt ↦ true
          | _ ↦ false
        ])

-- The first row of the query in `current`.
unfoldable pub first_holder : String → List OperationLockRecord → Option OperationLockRecord
first_holder scope_key [] = none
first_holder scope_key (row ∷ rows) =
    let rest = first_holder scope_key rows in
    if holds_locator scope_key row
    then elim rest [
      | none ↦ some row
      | some other ↦ if comes_before other row then some other else some row
    ]
    else rest

-- `current`
unfoldable pub current : String → ℕ → List OperationLockRecord → Option OperationLockRecord
current cluster_id vmid locks = first_holder (locator_scope_key cluster_id vmid) locks

-- str(value).strip() or default
abbrev pub strip_or : String → String → String
strip_or value default = if is_blank value then default else strip value

-- an open configuration lock of the cluster
abbrev pub holds_configuration : String → OperationLockRecord → Bool
holds_configuration cluster_id row =
    (row.cluster_id == cluster_id) && not (is_locator row.scope_type) && is_open row.status

unfoldable pub configuration_holder : String → List OperationLockRecord → Option OperationLockRecord
configuration_holder cluster_id [] = none
configuration_holder cluster_id (row ∷ rows) =
    if holds_configuration cluster_id row then some row else configuration_holder cluster_id rows

-- uq_operation_locks_open_locator
abbrev pub locator_taken : String → List OperationLockRecord → Bool
locator_taken scope_key = any (holds_locator scope_key)

-- the primary key
abbrev pub has_lock : String → List OperationLockRecord → Bool
has_lock lock_id locks = elim (find_lock lock_id locks) [ none ↦ false | some row ↦ true ]

-- The row that `acquire` inserts. `lock_id` is the id from `uuid.uuid4`.
unfoldable pub acquired_row :
    String → ℕ → String → String → ℕ → String → String → OperationLockRecord
acquired_row lock_id now operation_type cluster_id vmid owner_id reason = record {
  operation_lock_id = lock_id;
  operation_type = operation_type;
  scope_type = proxmox_locator;
  scope_key = locator_scope_key cluster_id vmid;
  status = active;
  cluster_id = cluster_id;
  vmid = some vmid;
  owner_id = owner_id;
  reason = strip_or reason (str_append operation_type "_target_lock");
  evidence = field "operation_id" (text owner_id) (
      field "target_type" (text "proxmox_vm")
        (field "target_id" (text (str_append "vmid:" (decimal vmid))) empty));
  created_at = now;
  updated_at = now;
  released_at = none;
}

-- `except SetupError` around `admit_mutation`
abbrev pub as_busy : String → Result (Unit {0}) → Result (Unit {0})
as_busy scope_key (ok u) = ok u
as_busy scope_key (err (setup_error code)) = err (durable_target_lock_busy scope_key (setup code))
as_busy scope_key (err e) = err e

-- The transaction of `acquire`: admission, the host configuration lock, the insertion.
unfoldable pub insert_lock :
    SetupState → Database → OperationLockRecord → ℕ → Result (DurableTargetLock × Database)
insert_lock state db row vmid = do
  as_busy row.scope_key (admit_mutation state row.cluster_id vmid row.operation_type)
  elim (configuration_holder row.cluster_id db.locks) [
    | some host ↦
        err (durable_target_lock_busy row.scope_key (host_configuration_in_progress host.owner_id))
    | none ↦
        if locator_taken row.scope_key db.locks || has_lock row.operation_lock_id db.locks
        then err (
            durable_target_lock_busy row.scope_key (elim (first_holder row.scope_key db.locks) [
              | some other ↦ held other.operation_lock_id
              | none ↦ unknown
            ]))
        else ok (durable_lock row, record db { locks = db.locks ++ row ∷ [] })
  ]

-- `acquire`. It reads the current holder in `before` and inserts into `db`: other transactions can
-- commit in between.
unfoldable pub acquire :
    SetupState
    → Database
    → Database
    → String
    → ℕ
    → String
    → String
    → ℕ
    → String
    → String
    → Result (DurableTargetLock × Database)
unfolding acquired_row
acquire state before db lock_id now operation_type cluster_id vmid owner_id reason = do
  raise_if (not (is_supported operation_type)) value_error
  let normalized_cluster = strip_or cluster_id "gjallar-mvp"
  raise_if (is_blank owner_id) value_error
  let scope_key = locator_scope_key normalized_cluster vmid
  elim (current normalized_cluster vmid before.locks) [
    | some existing ↦ err (durable_target_lock_busy scope_key (held existing.operation_lock_id))
    | none ↦
        insert_lock state db
          (acquired_row lock_id now operation_type normalized_cluster vmid (strip owner_id) reason)
          vmid
  ]

-- The columns that a release writes.
abbrev pub released_row : ℕ → String → OperationLockRecord → OperationLockRecord
released_row now reason row = record row {
  status = released;
  reason = strip_or reason "verified_operation_completed";
  released_at = some now;
  updated_at = now;
}

-- `release`
unfoldable pub release : ℕ → DurableTargetLock → String → Database → Bool × Database
release now lock reason db = elim (find_lock lock.lock_id db.locks) [
  | none ↦ (false, db)
  | some row ↦
      if not (is_open row.status)
        || not (row.owner_id == lock.owner_id)
        || not (row.scope_key == lock.scope_key)
      then (false, db)
      else (true, record db { locks = replace_lock (released_row now reason row) db.locks })
]

-- an open row of the owner on the locator
abbrev pub owned_by : String → String → OperationLockRecord → Bool
owned_by scope_key owner_id row = holds_locator scope_key row && (row.owner_id == owner_id)

unfoldable pub find_owned : String → String → List OperationLockRecord → Option OperationLockRecord
find_owned scope_key owner_id [] = none
find_owned scope_key owner_id (row ∷ rows) =
    if owned_by scope_key owner_id row then some row else find_owned scope_key owner_id rows

-- `release_owned`
unfoldable pub release_owned : ℕ → String → ℕ → String → String → Database → Bool × Database
release_owned now cluster_id vmid owner_id reason db =
    elim (find_owned (locator_scope_key cluster_id vmid) owner_id db.locks) [
      | none ↦ (false, db)
      | some row ↦ (true, record db { locks = replace_lock (released_row now reason row) db.locks })
    ]
