-- ===== src/Tests/Leases.antt =====
-- The theorems of the Recovery modules at concrete inputs.
use gjallar.Prelude.{
  ℕ, ◌+◌, ◌≡◌, ◌≢◌, ◌≤◌, ◌<◌, refl, String, Bool, true, false, Option, none, some, List, [], ◌∷◌,
  length, All, max, arith, ◌==◌, if◌then◌else◌,
}
use gjallar.Prelude.Text.{strip}
use gjallar.Json.{empty}
use gjallar.Result.{ok, err, recovery_lease_lost}
use gjallar.Database.{Database, OperationRecoveryItemRecord, find_recovery}
use gjallar.Operation.Create.{created_row}
use gjallar.Recovery.{
  RecoverySpec, RecoveryLease, recovery_item, first_row, prepare_and_claim, claim_operation,
  claim_due, heartbeat, locked_owned_row,
}
use gjallar.Recovery.Generation.{claims, generation_in}
use gjallar.Recovery.Steps.{Claim, here, observed}
use gjallar.Recovery.Fencing.{older_lease_lost}
use gjallar.Recovery.Exclusive.{owned_excludes}
use gjallar.Recovery.Poll.{IsHeldBack, live_lease, claim_due-bounded, claim_due_only_due}
use gjallar.Tests.Data.{platform, no_rows, start_spec, value, verified}
use gjallar.Recovery.Commit.{commit_observation}

abbrev db0 : Database
db0 = record no_rows { operations = created_row platform 1 start_spec empty ∷ [] }

abbrev spec : RecoverySpec
spec = record { operation_id = "op-1"; recovery_kind = "vm_start_observation"; details = empty }

abbrev row1 : OperationRecoveryItemRecord
row1 = first_row platform 10 spec "worker-1" "t1" 5000000

abbrev claim1 : RecoveryLease × Database
claim1 =
    value (record { item = recovery_item row1; token = "" }, db0)
      (prepare_and_claim platform 10 "t1" spec "worker-1" 5000000 none none db0)

claimed1 :
    prepare_and_claim platform 10 "t1" spec "worker-1" 5000000 none none db0
    ≡ ok (claim1.0, claim1.1)
unfolding prepare_and_claim gjallar.Prelude.Text.is_blank gjallar.Recovery.assert_operation_identity
    gjallar.Database.find_operation created_row find_recovery
claimed1 = refl

owned1 : locked_owned_row claim1.0 4000000 claim1.1 ≡ ok row1
unfolding locked_owned_row find_recovery prepare_and_claim gjallar.Prelude.Text.is_blank
    gjallar.Recovery.assert_operation_identity gjallar.Database.find_operation created_row first_row
owned1 = refl

same1 : spec.operation_id ≡ claim1.0.item.operation_id
unfolding prepare_and_claim gjallar.Prelude.Text.is_blank gjallar.Recovery.assert_operation_identity
    gjallar.Database.find_operation created_row find_recovery first_row
same1 = refl

same2 : strip "op-1" ≡ claim1.0.item.operation_id
unfolding prepare_and_claim strip gjallar.Prelude.Text.is_blank
    gjallar.Recovery.assert_operation_identity gjallar.Database.find_operation created_row
    find_recovery first_row
same2 = refl

owned_excludes_example :
    (prepare_and_claim platform 4000000 "t2" spec "worker-2" 5000000 none none claim1.1
      ≢ ok (claim1.0, db0))
    × (claim_operation 4000000 "t2" "op-1" "worker-2" 5000000 none none claim1.1
        ≢ ok (claim1.0, db0))
owned_excludes_example =
    owned_excludes platform claim1.0 4000000 claim1.1 row1 "t2" "worker-2" 5000000 none none spec
      "op-1" claim1.0 db0 owned1 same1 same2

abbrev beat1 : RecoveryLease × Database
beat1 = value claim1 (heartbeat 3000000 claim1.0 5000000 claim1.1)

beaten1 : heartbeat 3000000 claim1.0 5000000 claim1.1 ≡ ok (beat1.0, beat1.1)
unfolding heartbeat locked_owned_row find_recovery prepare_and_claim gjallar.Prelude.Text.is_blank
    gjallar.Recovery.assert_operation_identity gjallar.Database.find_operation created_row first_row
beaten1 = refl

abbrev claim2 : RecoveryLease × Database
claim2 = value claim1 (claim_operation 9000000 "t2" "op-1" "worker-2" 5000000 none none claim1.1)

claimed2 :
    claim_operation 9000000 "t2" "op-1" "worker-2" 5000000 none none claim1.1
    ≡ ok (claim2.0, claim2.1)
unfolding claim_operation gjallar.Prelude.Text.is_blank find_recovery prepare_and_claim
    gjallar.Recovery.assert_operation_identity gjallar.Database.find_operation created_row first_row
claimed2 = refl

claimed_later : Claim platform claim1.0.item.operation_id claim1.1 claim2.1
claimed_later = observed 9000000 "t2" "op-1" "worker-2" 5000000 none none claim2.0 claimed2 same2

generation1 :
    claim1.0.item.lease_generation
    ≤ generation_in claim1.0.item.operation_id claim1.1.recovery_items
unfolding prepare_and_claim find_recovery gjallar.Prelude.Text.is_blank
    gjallar.Recovery.assert_operation_identity gjallar.Database.find_operation created_row first_row
generation1 = omega arith

older_lease_lost_example :
    (locked_owned_row claim1.0 9100000 claim2.1
      ≡ err (recovery_lease_lost claim1.0.item.operation_id))
    × (heartbeat 9100000 claim1.0 5000000 claim2.1
        ≡ err (recovery_lease_lost claim1.0.item.operation_id))
    × (commit_observation platform 9100000 "evt-9" claim1.0 verified claim2.1
        ≡ err (recovery_lease_lost claim1.0.item.operation_id))
older_lease_lost_example =
    older_lease_lost platform claim1.0 claim1.1 claim2.1 claim2.1 9100000 5000000 "evt-9" verified
      generation1 claimed_later here

abbrev poll1 : List RecoveryLease × Database
poll1 = value ([], db0) (claim_due 9000000 (λ n. "t3") (λ id. false) "worker-3" 5000000 50 claim1.1)

polled1 :
    claim_due 9000000 (λ n. "t3") (λ id. false) "worker-3" 5000000 50 claim1.1
    ≡ ok (poll1.0, poll1.1)
unfolding claim_due gjallar.Prelude.Text.is_blank
polled1 = refl

claim_due-bounded_example : (length poll1.0 ≤ 10) × (length poll1.0 ≤ max 1 50)
claim_due-bounded_example =
    claim_due-bounded 9000000 (λ n. "t3") (λ id. false) "worker-3" 5000000 50 claim1.1 poll1.0
      poll1.1 polled1

abbrev poll2 : List RecoveryLease × Database
poll2 = value ([], db0) (claim_due 4000000 (λ n. "t3") (λ id. false) "worker-3" 5000000 50 claim1.1)

polled2 :
    claim_due 4000000 (λ n. "t3") (λ id. false) "worker-3" 5000000 50 claim1.1
    ≡ ok (poll2.0, poll2.1)
unfolding claim_due gjallar.Prelude.Text.is_blank
polled2 = refl

held_back :
    All
      (λ (row : OperationRecoveryItemRecord).
        row.operation_id ≡ "op-1" → IsHeldBack 4000000 (λ (id : String). false) row)
      claim1.1.recovery_items
unfolding first_row prepare_and_claim gjallar.Prelude.Text.is_blank
    gjallar.Recovery.assert_operation_identity gjallar.Database.find_operation created_row
    find_recovery
held_back = (λ h. live_lease 5000010 refl refl (omega arith), tt)

claim_due_only_due_example :
    (find_recovery "op-1" poll2.1.recovery_items ≡ find_recovery "op-1" claim1.1.recovery_items)
    × (claims "op-1" poll2.0 ≡ false)
claim_due_only_due_example =
    claim_due_only_due 4000000 (λ n. "t3") (λ id. false) "worker-3" 5000000 50 claim1.1 poll2.0
      poll2.1 "op-1" held_back polled2
