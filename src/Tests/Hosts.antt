-- ===== src/Tests/Hosts.antt =====
-- The theorems of the HostConfig modules at concrete inputs.
use gjallar.Prelude.{
  ℕ, ◌+◌, ◌≡◌, ◌<◌, ◌≤◌, refl, String, Bool, true, false, not, ◌&&◌, Option, none, some, List, [],
  ◌∷◌, ◌++◌, arith, ◌==◌, if◌then◌else◌,
}
use gjallar.Prelude.Text.{strip}
use gjallar.Json.{Fields, text, object, empty, field}
use gjallar.Operation.Status.{planned}
use gjallar.Operation.Create.{OperationSpec, created_row}
use gjallar.Operation.Store.{list_events}
use gjallar.Operation.Store.Chain.{IsChained}
use gjallar.Result.{ok}
use gjallar.Database.{
  Database, OperationRecord, OperationRecoveryItemRecord, OperationLockRecord, find_operation,
  is_open,
}
use gjallar.Setup.{SetupState}
use gjallar.Lock.Exclusion.{IsExclusive, open_count}
use gjallar.Recovery.{RecoveryLease, recovery_item, first_row, locked_owned_row}
use gjallar.HostConfig.Lock.{ConfigurationLock, acquire_configuration, open_lock_in}
use gjallar.HostConfig.Lock.Isolation.{IsIsolated, count}
use gjallar.HostConfig.Lock.Runs.{none_yet, then_call, locks_cluster, Calls-IsIsolated}
use gjallar.HostConfig.Admission.{Draws, prepare}
use gjallar.HostConfig.Admission.Effects.{prepare-keeps, prepare-owns, prepare_again}
use gjallar.Tests.Data.{platform, no_rows, alice, value}

-- No connection is registered.
abbrev unregistered : SetupState
unregistered = record { connection = none; credentials = []; pinned = none }

abbrev target1 : Fields
target1 = field "node_id" (text "pve1") (field "storage_id" (text "nfs1") empty)

abbrev spec1 : OperationSpec
spec1 = record {
  operation_id = "op-7";
  operation_type = "host_storage";
  execution_mode = "managed_api";
  target_type = "proxmox_storage";
  target_id = "storage:nfs1";
  idempotency_key = "key-7";
  intent_digest = "intent";
  plan_digest = "plan";
  actor = alice;
  initial_status = planned;
  initial_stage = "plan";
  expires_at = none;
  details = field "target" (object target1) empty;
}

abbrev draws1 : Draws
draws1 = record {
  lock_time = 1;
  create_time = 2;
  claim_time = 3;
  event_id = "evt-1";
  lock_id = "lock-1";
  token = "t1";
  nonce = "n1";
}

abbrev draws2 : Draws
draws2 = record {
  lock_time = 4;
  create_time = 5;
  claim_time = 6;
  event_id = "evt-2";
  lock_id = "lock-2";
  token = "t2";
  nonce = "n2";
}

abbrev prepared1 : OperationRecord × Option RecoveryLease × Database
prepared1 =
    value (created_row platform 1 spec1 empty, none, no_rows)
      (prepare platform unregistered draws1 spec1 "lab" no_rows)

abbrev lease1 : RecoveryLease
lease1 = elim prepared1.1 [
  | some lease ↦ lease
  | none ↦ record {
    item = recovery_item (
        first_row platform 1 (record { operation_id = ""; recovery_kind = ""; details = empty }) ""
          "" 1);
    token = "";
  }
]

done1 :
    prepare platform unregistered draws1 spec1 "lab" no_rows
    ≡ ok (prepared1.0, some lease1, prepared1.2)
unfolding prepare gjallar.HostConfig.target_identity gjallar.HostConfig.is_identifier
    gjallar.HostConfig.storage_identity gjallar.Json.Compare.has_keys find_operation
    acquire_configuration gjallar.HostConfig.configuration_scope_key gjallar.Prelude.Text.is_blank
    gjallar.Setup.Host.admit_host_mutation gjallar.Setup.pin_selection gjallar.Database.find_lock
    gjallar.Operation.Create.create gjallar.Operation.Create.get_by_scope
    gjallar.Operation.Create.insert_operation gjallar.Operation.Store.insert_event
    gjallar.Recovery.prepare_and_claim gjallar.Database.find_recovery created_row
    gjallar.Recovery.assert_operation_identity
done1 = refl

rows-IsChained : IsChained platform no_rows
unfolding list_events
rows-IsChained = record { rows = tt; owned = λ id h. refl }

rows-IsExclusive : IsExclusive no_rows.locks
unfolding open_count
rows-IsExclusive = record { at_most_one = λ key. omega arith }

rows-IsIsolated : IsIsolated no_rows.locks
unfolding count
rows-IsIsolated = record { alone = λ c h. omega arith }

prepare-keeps_example :
    IsChained platform prepared1.2 × IsExclusive prepared1.2.locks × IsIsolated prepared1.2.locks
prepare-keeps_example =
    prepare-keeps platform unregistered draws1 spec1 "lab" no_rows prepared1.0 lease1 prepared1.2
      rows-IsChained rows-IsExclusive rows-IsIsolated done1

prepare-owns_example :
    (find_operation "op-7" no_rows.operations ≡ none)
    × (open_lock_in (strip "lab") no_rows.locks ≡ none)
    × (find_operation "op-7" prepared1.2.operations ≡ some prepared1.0)
    × ((lock : OperationLockRecord) × (prepared1.2.locks ≡ no_rows.locks ++ lock ∷ [])
        × (lock.owner_id ≡ strip "op-7")
        × (lock.cluster_id ≡ strip "lab")
        × (is_open lock.status ≡ true))
    × ((row : OperationRecoveryItemRecord) × (locked_owned_row lease1 30 prepared1.2 ≡ ok row))
prepare-owns_example =
    prepare-owns platform unregistered draws1 spec1 "lab" no_rows prepared1.0 lease1 prepared1.2 30
      (omega arith) done1

prepare_again_example :
    prepare platform unregistered draws2 spec1 "other" prepared1.2
    ≡ ok (prepared1.0, none, prepared1.2)
prepare_again_example =
    prepare_again platform unregistered draws1 spec1 "lab" no_rows prepared1.0 lease1 prepared1.2
      unregistered draws2 "other" done1

abbrev held1 : ConfigurationLock × Database
held1 =
    value
      (
        record {
          lock_id = "";
          operation_type = "";
          cluster_id = "";
          owner_id = "";
          scope_key = "";
          status = gjallar.Database.active;
          target_type = "";
          target_id = "";
          target = empty;
        },
        no_rows,
      )
      (acquire_configuration platform unregistered "lock-1" 1 "host_storage" "lab" "op-7" target1
        no_rows)

taken1 :
    acquire_configuration platform unregistered "lock-1" 1 "host_storage" "lab" "op-7" target1
      no_rows
    ≡ ok (held1.0, held1.1)
unfolding acquire_configuration gjallar.HostConfig.target_identity gjallar.HostConfig.is_identifier
    gjallar.HostConfig.storage_identity gjallar.Json.Compare.has_keys
    gjallar.HostConfig.configuration_scope_key gjallar.Prelude.Text.is_blank
    gjallar.Setup.Host.admit_host_mutation gjallar.Setup.pin_selection gjallar.Database.find_lock
taken1 = refl

Calls-IsIsolated_example : IsIsolated held1.1.locks
Calls-IsIsolated_example = Calls-IsIsolated {p = platform} rows-IsIsolated (
    then_call none_yet
      (locks_cluster unregistered "lock-1" 1 "host_storage" "lab" "op-7" target1 held1.0 taken1))
