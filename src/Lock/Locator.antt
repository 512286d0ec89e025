-- ===== src/Lock/Locator.antt =====
-- backend/app/operations/locks/domain.py: the supported operations, locator keys and the lock value.
use Prim.Native.String.{◌∷◌ as text_cons, ◌++◌ as str_append}
use Prim.Native.Char.{code}
use gjallar.Prelude.{
  ℕ, zero, suc, ◌/◌, ◌%◌, String, Bool, none, some, List, [], ◌∷◌, any, ltb, nat_eq, ◌==◌,
  if◌then◌else◌,
}
use gjallar.Prelude.Text.{strip}
use gjallar.Database.{OperationLockRecord, LockStatus}

abbrev pub supported_target_operation_types : List String
supported_target_operation_types =
    "vm_start" ∷ "vm_create" ∷ "guided_qm_vm_unlock" ∷ "vm_shutdown" ∷ "vm_compute"
    ∷ "vm_disk_resize" ∷ "vm_network" ∷ "vm_clone" ∷ "vm_delete" ∷ "vm_template" ∷ "vm_image_build"
    ∷ "vm_image_cleanup" ∷ "vm_backup" ∷ "vm_restore" ∷ "vm_migrate" ∷ []

-- operation_type in SUPPORTED_TARGET_OPERATION_TYPES
unfoldable pub is_supported : String → Bool
is_supported operation_type = any (λ t. t == operation_type) supported_target_operation_types

-- str(n) of an int
abbrev pub digit : ℕ → String
digit n =
    if nat_eq n 0
    then "0"
    else if nat_eq n 1
    then "1"
    else if nat_eq n 2
    then "2"
    else if nat_eq n 3
    then "3"
    else if nat_eq n 4
    then "4"
    else if nat_eq n 5
    then "5"
    else if nat_eq n 6
    then "6"
    else if nat_eq n 7
    then "7"
    else if nat_eq n 8
    then "8"
    else "9"

unfoldable pub decimal_from : ℕ → ℕ → String
decimal_from zero n = digit n
decimal_from (suc fuel) n =
    let rest = decimal_from fuel (n / 10) in
    if ltb n 10 then digit n else str_append rest (digit (n % 10))

-- A number has no more digits than its value.
unfoldable pub decimal : ℕ → String
unfolding decimal_from
decimal n = decimal_from n n

-- s.replace("|", "-")
unfoldable pub replace_bars : String → String
replace_bars String.[] = String.[]
replace_bars (String.◌∷◌ c s) =
    if nat_eq (code c) b'|' then text_cons "-" (replace_bars s) else text_cons c (replace_bars s)

-- `locator_scope_key`
unfoldable pub locator_scope_key : String → ℕ → String
unfolding replace_bars
locator_scope_key cluster_id vmid =
    let replaced = replace_bars (strip cluster_id) in
    let normalized_cluster = if replaced == "" then "gjallar-mvp" else replaced in
    str_append normalized_cluster (str_append "|proxmox_locator|" (decimal vmid))

-- DurableTargetLock
pub record DurableTargetLock : Type 0 where
  pub lock_id : String
  pub operation_type : String
  pub cluster_id : String
  pub vmid : ℕ
  pub owner_id : String
  pub scope_key : String
  pub status : LockStatus
  pub created_at : ℕ

-- `_lock`
abbrev pub durable_lock : OperationLockRecord → DurableTargetLock
durable_lock row = record {
  lock_id = row.operation_lock_id;
  operation_type = row.operation_type;
  cluster_id = row.cluster_id;
  vmid = elim row.vmid [ none ↦ 0 | some vmid ↦ vmid ];
  owner_id = row.owner_id;
  scope_key = row.scope_key;
  status = row.status;
  created_at = row.created_at;
}
