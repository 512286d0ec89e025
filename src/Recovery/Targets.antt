-- ===== src/Recovery/Targets.antt =====
-- `_exact_target_locks` and `_assert_target_lock_binding_checkpoint` of
-- backend/app/operations/recovery/infrastructure/repository.py: the open locks that an Operation and
-- its recovery item name exactly.
-- A lock's id is its primary key, so a query by the id and other columns reads the row of the id.
use gjallar.Prelude.{
  ℕ, String, Bool, true, false, not, ◌&&◌, ◌||◌, Option, none, some, List, [], ◌∷◌, leb, nat_eq,
  ◌==◌, if◌then◌else◌,
}
use gjallar.Prelude.Text.{strip}
use gjallar.Json.{Json, Fields, null, bool, number, text, get}
use gjallar.Json.Compare.{json_eq, or_null, is_truthy, mapping, bit}
use gjallar.Operation.Event.{Platform}
use gjallar.Result.{Result, ◌>>◌, raise_if, value_error}
use gjallar.Database.{OperationRecord, OperationLockRecord, active, is_open, is_locator, find_lock}
use gjallar.Lock.{decimal}
use gjallar.Lock.Binding.{LockReference, lock_references, target_vmid}
use gjallar.HostConfig.{LockBinding, is_host_type, lock_binding}

-- str(v) of a JSON value
abbrev pub str_of : Platform → Json → String
str_of p null = "None"
str_of p (bool true) = "True"
str_of p (bool false) = "False"
str_of p (number n) = decimal n
str_of p (text s) = s
str_of p v = p.str_of_container v

-- str(d.get(k) or "")
abbrev pub str_or_empty : Platform → String → Fields → String
str_or_empty p k fs = if is_truthy (or_null (get k fs)) then str_of p (or_null (get k fs)) else ""

-- str(d.get(k) or "").strip()
abbrev pub stripped_at : Platform → String → Fields → String
stripped_at p k fs = strip (str_or_empty p k fs)

-- The columns that the query for a reference compares, all but the id.
abbrev pub is_locator_lock : OperationRecord → String → LockReference → OperationLockRecord → Bool
is_locator_lock operation cluster_id reference row =
    (row.owner_id == operation.operation_id)
    && (row.operation_type == operation.operation_type)
    && is_locator row.scope_type
    && elim row.vmid [ none ↦ false | some vmid ↦ nat_eq vmid reference.vmid ]
    && is_open row.status
    && (row.cluster_id == cluster_id)

-- The row of the id, where it passes the test.
unfoldable pub lock_where :
    String → (OperationLockRecord → Bool) → List OperationLockRecord → Option OperationLockRecord
lock_where id test locks = elim (find_lock id locks) [
  | none ↦ none
  | some row ↦ if test row then some row else none
]

-- The loop over the references.
unfoldable pub locator_locks :
    OperationRecord
    → String
    → List LockReference
    → List OperationLockRecord
    → Option (List OperationLockRecord)
unfolding lock_where
locator_locks operation cluster_id [] locks = some []
locator_locks operation cluster_id (reference ∷ references) locks =
    let rest = locator_locks operation cluster_id references locks in
    elim (lock_where reference.lock_id (is_locator_lock operation cluster_id reference) locks) [
      | none ↦ none
      | some row ↦ elim rest [ none ↦ none | some rows ↦ some (row ∷ rows) ]
    ]

-- sorted(references, key=lambda row: row["vmid"]) of at most two rows
abbrev pub by_vmid : List LockReference → List LockReference
by_vmid (a ∷ b ∷ []) = if leb a.vmid b.vmid then a ∷ b ∷ [] else b ∷ a ∷ []
by_vmid references = references

-- The columns that the query for a configuration lock compares, all but the id, and its evidence.
abbrev pub is_configuration_lock : OperationRecord → LockBinding → OperationLockRecord → Bool
is_configuration_lock operation binding row =
    (row.owner_id == operation.operation_id)
    && (row.operation_type == operation.operation_type)
    && not (is_locator row.scope_type)
    && (row.scope_key == binding.scope_key)
    && (row.cluster_id == binding.cluster_id)
    && elim row.vmid [ none ↦ true | some vmid ↦ false ]
    && is_open row.status
    && json_eq (or_null (get "operation_id" row.evidence)) (text operation.operation_id)
    && json_eq (or_null (get "target_type" row.evidence)) (text operation.target_type)
    && json_eq (or_null (get "target_id" row.evidence)) (text operation.target_id)
    && json_eq (or_null (get "target" row.evidence)) binding.target

-- `_exact_target_locks` of a host operation
unfoldable pub configuration_locks :
    Platform → OperationRecord → Fields → List OperationLockRecord → List OperationLockRecord
unfolding lock_where
configuration_locks p operation recovery_details locks =
    elim (lock_binding p operation.operation_type operation.target_type operation.target_id
      operation.details recovery_details) [
        | none ↦ []
        | some binding ↦
            if not (operation.execution_mode == binding.execution_mode)
            then []
            else elim (lock_where binding.target_lock_id (is_configuration_lock operation binding)
                locks) [ none ↦ [] | some row ↦ row ∷ [] ]
      ]

-- `_exact_target_locks`
unfoldable pub exact_target_locks :
    Platform → OperationRecord → Fields → List OperationLockRecord → List OperationLockRecord
unfolding configuration_locks locator_locks
exact_target_locks p operation recovery_details locks =
    let references =
      lock_references operation.operation_type operation.target_id operation.details
        recovery_details in
    let cluster_id = stripped_at p "cluster_id" recovery_details in
    if is_host_type operation.operation_type
    then configuration_locks p operation recovery_details locks
    else if not (operation.target_type == "proxmox_vm") || (cluster_id == "")
    then []
    else elim (locator_locks operation cluster_id (by_vmid references) locks) [
      | none ↦ []
      | some rows ↦ rows
    ]

-- x in {"", y}
abbrev pub blank_or : String → String → Bool
blank_or x y = (x == "") || (x == y)

-- int(durable.get("vmid") or 0), or 0 where it raises; none for a negative number
abbrev pub int_or_zero : Platform → Json → Option ℕ
int_or_zero p (number n) = some n
int_or_zero p (bool b) = some (bit b)
int_or_zero p (text s) =
    if s == "" then some 0 else elim (p.int_of_text s) [ none ↦ some 0 | some n ↦ n ]
int_or_zero p v = some 0

abbrev pub is_active_lock : OperationLockRecord → Bool
is_active_lock row = elim row.status [ active ↦ true | _ ↦ false ]

-- len(locks) != 1 or locks[0].status != "active", negated
abbrev pub is_one_active : List OperationLockRecord → Bool
is_one_active (row ∷ []) = is_active_lock row
is_one_active _ = false

-- str(d.get(k) or "") == s
abbrev pub str_is : Platform → String → String → Fields → Bool
str_is p k s fs = str_or_empty p k fs == s

-- `exact_projection`; its pattern has ASCII digits, since `locks` is empty for any other target id
unfoldable pub exact_projection : Platform → OperationRecord → String → String → Fields → Bool
unfolding target_vmid get
exact_projection p operation lock_id cluster_id binding =
    let durable = mapping (get "durable" binding) in
    elim (target_vmid operation.target_id) [
      | none ↦ false
      | some vmid ↦
          str_is p "target_type" operation.target_type binding
          && str_is p "target_id" operation.target_id binding
          && str_is p "owner_id" operation.operation_id binding
          && str_is p "operation_lock_id" lock_id durable
          && str_is p "cluster_id" cluster_id durable
          && str_is p "owner_id" operation.operation_id durable
          && str_is p "operation_type" operation.operation_type durable
          && str_is p "scope_type" "proxmox_locator" durable
          && elim (int_or_zero p (or_null (get "vmid" durable))) [
            | none ↦ false
            | some n ↦ nat_eq n vmid
          ]
    ]

-- str(durable.get("operation_lock_id") or recorded.get("lock_id") or "").strip()
abbrev pub recorded_lock_id : Platform → Fields → String
recorded_lock_id p recorded =
    let durable = mapping (get "durable" recorded) in
    if is_truthy (or_null (get "operation_lock_id" durable))
    then stripped_at p "operation_lock_id" durable
    else stripped_at p "lock_id" recorded

-- `_assert_target_lock_binding_checkpoint`
unfoldable pub assert_binding_checkpoint :
    Platform
    → OperationRecord
    → Fields
    → Fields
    → Fields
    → List OperationLockRecord
    → Result (Unit {0})
unfolding exact_projection get
assert_binding_checkpoint p operation current effective patch locks = do
  let lock_id = stripped_at p "target_lock_id" effective
  let cluster_id = stripped_at p "cluster_id" effective
  raise_if
      ((lock_id == "")
        || (cluster_id == "")
        || not (blank_or (stripped_at p "target_lock_id" current) lock_id)
        || not (blank_or (stripped_at p "cluster_id" current) cluster_id)
        || not (is_one_active locks))
      value_error
  let recorded = mapping (get "target_operation_lock" operation.details)
  raise_if
      (not (
          exact_projection p operation lock_id cluster_id
            (mapping (get "target_operation_lock" patch)))
        || not (blank_or (recorded_lock_id p recorded) lock_id)
        || not
            (blank_or (stripped_at p "cluster_id" (mapping (get "durable" recorded))) cluster_id))
      value_error
