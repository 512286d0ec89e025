-- ===== src/Recovery/Item.antt =====
-- The items, leases and specs of backend/app/operations/recovery/domain.py, and the tests and writes
-- that the methods of backend/app/operations/recovery/infrastructure/repository.py share.
use gjallar.Prelude.{
  ℕ, ◌+◌, max, String, Bool, true, false, not, ◌&&◌, ◌||◌, Option, none, some, List, [], ◌∷◌, any,
  ltb, nat_eq, ◌==◌, if◌then◌else◌,
}
use gjallar.Prelude.Text.{is_blank}
use gjallar.Json.{Fields}
use gjallar.Result.{Result, err, ◌>>◌, raise_if, value_error, recovery_operation_conflict}
use gjallar.Database.{
  Database, OperationRecoveryItemRecord, RecoveryStatus, leased, completed, find_operation,
}

abbrev pub recovery_kinds : List String
recovery_kinds =
    "host_storage_observation" ∷ "host_network_observation" ∷ "vm_start_observation"
    ∷ "vm_shutdown_observation" ∷ "vm_compute_observation" ∷ "vm_disk_observation"
    ∷ "vm_network_observation" ∷ "vm_clone_observation" ∷ "vm_delete_observation"
    ∷ "vm_template_observation" ∷ "vm_image_build_observation" ∷ "vm_image_cleanup_observation"
    ∷ "vm_backup_observation" ∷ "vm_restore_observation" ∷ "vm_migrate_observation"
    ∷ "vm_create_observation" ∷ "guided_qm_unlock_observation" ∷ []

pub record RecoverySpec : Type 0 where
  pub operation_id : String
  pub recovery_kind : String
  pub details : Fields

-- `RecoverySpec.__post_init__`
unfoldable pub check_recovery_spec : RecoverySpec → Result (Unit {0})
check_recovery_spec spec = do
  raise_if (is_blank spec.operation_id) value_error
  raise_if (not (any (λ kind. kind == spec.recovery_kind) recovery_kinds)) value_error

pub record RecoveryItem : Type 0 where
  pub operation_id : String
  pub recovery_kind : String
  pub status : RecoveryStatus
  pub available_at : ℕ
  pub lease_owner : Option String
  pub lease_generation : ℕ
  pub lease_expires_at : Option ℕ
  pub attempt_count : ℕ
  pub last_error_code : Option String
  pub details : Fields
  pub created_at : ℕ
  pub updated_at : ℕ
  pub completed_at : Option ℕ

pub record RecoveryLease : Type 0 where
  pub item : RecoveryItem
  pub token : String

-- `_item`: every column but the token
abbrev pub recovery_item : OperationRecoveryItemRecord → RecoveryItem
recovery_item row = record {
  operation_id = row.operation_id;
  recovery_kind = row.recovery_kind;
  status = row.status;
  available_at = row.available_at;
  lease_owner = row.lease_owner;
  lease_generation = row.lease_generation;
  lease_expires_at = row.lease_expires_at;
  attempt_count = row.attempt_count;
  last_error_code = row.last_error_code;
  details = row.details;
  created_at = row.created_at;
  updated_at = row.updated_at;
  completed_at = row.completed_at;
}

-- Assigns columns of the row with this primary key, in place.
unfoldable pub update_recovery :
    String
    → (OperationRecoveryItemRecord → OperationRecoveryItemRecord)
    → List OperationRecoveryItemRecord
    → List OperationRecoveryItemRecord
update_recovery id f [] = []
update_recovery id f (row ∷ rows) =
    (if row.operation_id == id then f row else row) ∷ update_recovery id f rows

abbrev pub is_leased : RecoveryStatus → Bool
is_leased leased = true
is_leased _ = false

abbrev pub is_completed : RecoveryStatus → Bool
is_completed completed = true
is_completed _ = false

-- now + timedelta(seconds=max(lease_seconds, 1.0))
abbrev pub lease_expiry : ℕ → ℕ → ℕ
lease_expiry now lease_time = now + max lease_time 1000000

-- row.status == "leased" and lease_expires_at is not None and lease_expires_at > now
abbrev pub live_lease : ℕ → OperationRecoveryItemRecord → Bool
live_lease now row =
    is_leased row.status && elim row.lease_expires_at [ none ↦ false | some t ↦ ltb now t ]

abbrev pub differs : {A : Type 0} → (A → A → Bool) → A → Option A → Bool
differs same actual none = false
differs same actual (some expected) = not (same actual expected)

-- `_assert_operation_identity`
unfoldable pub assert_operation_identity :
    String → Option ℕ → Option String → Database → Result (Unit {0})
assert_operation_identity id expected_version expected_checksum db =
    elim (find_operation id db.operations) [
      | none ↦ err (recovery_operation_conflict id)
      | some row ↦
          raise_if
            (differs nat_eq row.version expected_version
              || differs ◌==◌ row.last_event_checksum expected_checksum)
            (recovery_operation_conflict id)
    ]

-- The columns that every claim of a row writes.
abbrev pub claimed_row :
    ℕ → String → String → ℕ → OperationRecoveryItemRecord → OperationRecoveryItemRecord
claimed_row now owner token lease_time row = record row {
  status = leased;
  lease_owner = some owner;
  lease_token = some token;
  lease_generation = row.lease_generation + 1;
  lease_expires_at = some (lease_expiry now lease_time);
  attempt_count = row.attempt_count + 1;
  updated_at = now;
}
