-- ===== src/Tests/Commits.antt =====
-- The theorems of the Recovery/Commit modules at concrete inputs.
use gjallar.Prelude.{
  ℕ, ◌≡◌, ◌≢◌, ◌≤◌, refl, String, Bool, true, false, Option, none, some, List, [], ◌∷◌, All, length,
  max, arith, not, ◌==◌, str_eq_iff, Bool-cases, subst, ap, inl, inr, if◌then◌else◌,
}
use gjallar.Json.{text, empty, field}
use gjallar.Result.{ok, err, recovery_lease_lost}
use gjallar.Database.{
  find_operation, Database, OperationRecord, OperationLockRecord, OperationRecoveryItemRecord,
  find_lock,
}
use gjallar.Operation.Create.{created_row}
use gjallar.Operation.Store.Chain.{IsChained}
use gjallar.Lock.{acquired_row}
use gjallar.Lock.Binding.{expected_lock_count}
use gjallar.Lock.Exclusion.{IsExclusive, open_count}
use gjallar.Recovery.{
  RecoveryItem, RecoveryLease, RecoverySpec, recovery_item, first_row, locked_owned_row, is_leased,
}
use gjallar.Recovery.Commit.{commit_observation, observed_locks}
use gjallar.Recovery.Commit.Locks.{is_closed}
use gjallar.Recovery.Commit.Effects.{
  commit_observation-keeps, commit_observation_own_locks, commit_observation_ends_lease,
  commit_observation_releases,
}
use gjallar.Tests.Data.{platform, start_spec, value, verified}
use gjallar.Tests.Operations.{db1, chained1}

abbrev item1 : OperationRecoveryItemRecord
item1 =
    first_row platform 10
      (record {
        operation_id = "op-1";
        recovery_kind = "vm_start_observation";
        details = field "target_lock_id" (text "lock-1") (field "cluster_id" (text "lab") empty);
      })
      "worker-1" "t1" 5000000

abbrev lease1 : RecoveryLease
lease1 = record { item = recovery_item item1; token = "t1" }

abbrev own1 : OperationLockRecord
own1 = acquired_row "lock-1" 1 "vm_start" "lab" 101 "op-1" ""

abbrev foreign1 : OperationLockRecord
foreign1 = acquired_row "lock-2" 1 "vm_start" "lab" 102 "op-2" ""

abbrev db2 : Database
db2 = record db1 { locks = own1 ∷ foreign1 ∷ []; recovery_items = item1 ∷ [] }

abbrev commit1 : OperationRecord × RecoveryItem × Database
commit1 =
    value (created_row platform 1 start_spec empty, recovery_item item1, db2)
      (commit_observation platform 20 "evt-2" lease1 verified db2)

committed1 :
    commit_observation platform 20 "evt-2" lease1 verified db2
    ≡ ok (commit1.0, commit1.1, commit1.2)
unfolding commit_observation locked_owned_row gjallar.Database.find_recovery first_row
    gjallar.Database.find_operation gjallar.Operation.Create.create
    gjallar.Operation.Create.get_by_scope gjallar.Operation.Create.insert_operation
    gjallar.Operation.Store.insert_event created_row gjallar.Recovery.Targets.exact_target_locks
    gjallar.Operation.Store.sanitized_mapping gjallar.Redaction.redact_fields
    gjallar.Redaction.is_secret_key find_lock gjallar.Lock.Binding.lock_references
    gjallar.Operation.Create.created_payload gjallar.Operation.Store.append_in_session
    gjallar.Operation.Store.new_event_row gjallar.Operation.Store.projected
    gjallar.Prelude.Text.is_blank gjallar.Redaction.redact_string acquired_row
committed1 = refl

chained2 : IsChained platform db2
chained2 = record { rows = chained1.rows; owned = chained1.owned }

exclusive2 : IsExclusive db2.locks
unfolding open_count acquired_row gjallar.Lock.locator_scope_key gjallar.Prelude.Text.strip
    gjallar.Lock.decimal
exclusive2 = record {
  at_most_one = λ key. elim (Bool-cases (own1.scope_key == key)) [
    | inl same ↦
        subst (λ k. open_count k db2.locks ≤ 1) ((str_eq_iff own1.scope_key key).0 same)
          (omega arith)
    | inr differs ↦ ground (arith, differs)
  ];
}

commit_observation-keeps_example : IsChained platform commit1.2 × IsExclusive commit1.2.locks
commit_observation-keeps_example =
    commit_observation-keeps platform 20 "evt-2" lease1 verified db2 commit1.0 commit1.1 commit1.2
      chained2 exclusive2 committed1

stored2 : find_lock "lock-2" db2.locks ≡ some foreign1
unfolding find_lock acquired_row
stored2 = refl

not_own : foreign1.owner_id ≢ lease1.item.operation_id
unfolding acquired_row first_row
not_own h = let x : true ≡ false = ap (λ s. s == "op-2") h in cc x

commit_observation_own_locks_example : find_lock "lock-2" commit1.2.locks ≡ some foreign1
commit_observation_own_locks_example =
    commit_observation_own_locks platform 20 "evt-2" lease1 verified db2 commit1.0 commit1.1
      commit1.2 "lock-2" foreign1 stored2 not_own committed1

commit_observation_ends_lease_example :
    locked_owned_row lease1 30 commit1.2 ≡ err (recovery_lease_lost lease1.item.operation_id)
commit_observation_ends_lease_example =
    commit_observation_ends_lease platform 20 "evt-2" lease1 verified db2 commit1.0 commit1.1
      commit1.2 lease1 30 refl refl committed1

commit_observation_releases_example :
    (row : OperationRecoveryItemRecord) × (op : OperationRecord) × (find_operation
        lease1.item.operation_id db2.operations
      ≡ some op)
    × (locked_owned_row lease1 20 db2 ≡ ok row)
    × (length (observed_locks platform verified op row db2.locks)
        ≡ expected_lock_count op.operation_type)
    × All
        (λ (l : OperationLockRecord). is_closed l.operation_lock_id commit1.2.locks ≡ true)
        (observed_locks platform verified op row db2.locks)
commit_observation_releases_example =
    commit_observation_releases platform 20 "evt-2" lease1 verified db2 commit1.0 commit1.1
      commit1.2 refl committed1
