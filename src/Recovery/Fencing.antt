-- ===== src/Recovery/Fencing.antt =====
-- The lease generation of backend/app/operations/recovery/infrastructure/repository.py as a fence:
-- no call lowers it, each claim raises it, and a lease of an older generation is lost.
use gjallar.Prelude.{
  ℕ, ◌+◌, ◌≤◌, ◌<◌, ◌≡◌, refl, sym, subst, ap, String, true, inl, inr, some, take, arith,
  Option-cases,
}
use gjallar.Prelude.Text.{strip}
use gjallar.Operation.Event.{Platform}
use gjallar.Result.{err, recovery_lease_lost}
use gjallar.Database.{Database, OperationRecoveryItemRecord, find_recovery}
use gjallar.Recovery.Due.{taken-is_stored}
use gjallar.Recovery.{
  RecoveryLease, first_row, prepared_row, observed_row, claim_with, claim_due, locked_owned_row,
  beaten_row, heartbeat, due_rows, bounded_limit,
}
use gjallar.Recovery.Generation.{
  generation_in, claims, IsFenced, find_recovery-append, find_recovery-new, find_recovery-id,
  claim_with-grows, claim_with-raises, claim_rows-grows, claim_rows-raises,
}
use gjallar.Recovery.Generation.{update_recovery-grows}
use gjallar.Recovery.Commit.{Observation, admit_observation, commit_observation, committed_row}
use gjallar.Recovery.Commit.Outcome.{commit_observation-eq-ok}
use gjallar.Recovery.Commit.Effects.{items_after}
use gjallar.Recovery.Steps.{
  commits, Claim, prepared, observed, due, Step, prepares, observes, polls, beats, Reach, here,
  next, prepare_and_claim-eq-ok, claim_operation-eq-ok, claim_due-eq-ok, heartbeat-eq-ok,
}

claim-raises :
    (token : String) (row : OperationRecoveryItemRecord)
    (f : OperationRecoveryItemRecord → OperationRecoveryItemRecord) (db db' : Database)
    (id : String) (lease : RecoveryLease)
    → ((r : OperationRecoveryItemRecord) → (f r).operation_id ≡ r.operation_id)
    → ((r : OperationRecoveryItemRecord) → (f r).lease_generation ≡ r.lease_generation + 1)
    → find_recovery id db.recovery_items ≡ some row
    → (lease, db') ≡ claim_with token row f db
    → generation_in id db.recovery_items < generation_in id db'.recovery_items
claim-raises token row f db db' id lease key raises found claim =
    subst (λ (d : Database). generation_in id db.recovery_items < generation_in id d.recovery_items)
      (sym (ap (λ c. c.1) claim))
      (claim_with-raises token row f db id key raises
        (find_recovery-id id db.recovery_items row found) row found)

-- Each call that gives out a lease of an item raises the item's generation.
pub Claim-raises :
    {p : Platform} {id : String} {db db' : Database}
    → Claim p id db db'
    → generation_in id db.recovery_items < generation_in id db'.recovery_items
unfolding prepared_row observed_row first_row claim_due
Claim-raises {p} {id} {db} {db'}
      (prepared now token spec owner lease_time version checksum lease h e) =
    elim (prepare_and_claim-eq-ok p now token owner lease_time version checksum db spec lease db'
      h) [
        | inl (absent, l, stored) ↦
            let new = first_row p now spec (strip owner) token lease_time in
            let found = find_recovery-new db.recovery_items new absent in
            subst
              (λ (i : String).
                generation_in i db.recovery_items < generation_in i db'.recovery_items)
              e
              (subst
                (λ (d : Database).
                  generation_in spec.operation_id db.recovery_items
                  < generation_in spec.operation_id d.recovery_items)
                (sym stored) (ground (arith, absent, found)))
        | inr (row, found, live, unfinished, claim) ↦
            claim-raises token row (prepared_row p now spec (strip owner) token lease_time) db db'
              id lease (λ r. refl) (λ r. refl) (rw e at found) claim
      ]
Claim-raises {p} {id} {db} {db'}
      (observed now token operation_id owner lease_time version checksum lease h e) =
    let (row, found, live, unfinished, claim) =
      claim_operation-eq-ok now token owner lease_time version checksum db operation_id lease db'
        h in
    claim-raises token row (observed_row now (strip owner) token lease_time) db db' id lease
      (λ r. refl) (λ r. refl) (rw e at found) claim
Claim-raises {p} {id} {db} {db'} (due now tokens locked owner lease_time limit leases h c) =
    let (l, stored) = claim_due-eq-ok now tokens locked owner lease_time limit db leases db' h in
    let rows = take (bounded_limit limit) (due_rows now locked db.recovery_items) in
    subst (λ (d : Database). generation_in id db.recovery_items < generation_in id d.recovery_items)
      (sym stored)
      (claim_rows-raises now (strip owner) lease_time tokens rows db id
        (taken-is_stored now (bounded_limit limit) locked db.recovery_items)
        (subst (λ ls. claims id ls ≡ true) l c))

claim-grows :
    (id token : String) (row : OperationRecoveryItemRecord)
    (f : OperationRecoveryItemRecord → OperationRecoveryItemRecord) (db db' : Database)
    (lease : RecoveryLease)
    → IsFenced f
    → (lease, db') ≡ claim_with token row f db
    → generation_in id db.recovery_items ≤ generation_in id db'.recovery_items
claim-grows id token row f db db' lease fenced claim =
    subst (λ (d : Database). generation_in id db.recovery_items ≤ generation_in id d.recovery_items)
      (sym (ap (λ c. c.1) claim)) (claim_with-grows id token row f db fenced)

Step-grows :
    {p : Platform} {db db' : Database} (id : String)
    → Step p db db'
    → generation_in id db.recovery_items ≤ generation_in id db'.recovery_items
unfolding prepared_row observed_row beaten_row committed_row
Step-grows {p} {db} {db'} id (prepares now token spec owner lease_time version checksum lease h) =
    elim (prepare_and_claim-eq-ok p now token owner lease_time version checksum db spec lease db'
      h) [
        | inl (absent, l, stored) ↦
            subst
              (λ (d : Database).
                generation_in id db.recovery_items ≤ generation_in id d.recovery_items)
              (sym stored)
              (find_recovery-append id db.recovery_items
                (first_row p now spec (strip owner) token lease_time))
        | inr (row, found, live, unfinished, claim) ↦
            claim-grows id token row (prepared_row p now spec (strip owner) token lease_time) db db'
              lease (record { key = λ r. refl; grows = λ r. omega arith }) claim
      ]
Step-grows {p} {db} {db'} id
      (observes now token operation_id owner lease_time version checksum lease h) =
    let (row, found, live, unfinished, claim) =
      claim_operation-eq-ok now token owner lease_time version checksum db operation_id lease db'
        h in
    claim-grows id token row (observed_row now (strip owner) token lease_time) db db' lease
      (record { key = λ r. refl; grows = λ r. omega arith }) claim
Step-grows {p} {db} {db'} id (polls now tokens locked owner lease_time limit leases h) =
    let (l, stored) = claim_due-eq-ok now tokens locked owner lease_time limit db leases db' h in
    let rows = take (bounded_limit limit) (due_rows now locked db.recovery_items) in
    subst (λ (d : Database). generation_in id db.recovery_items ≤ generation_in id d.recovery_items)
      (sym stored) (claim_rows-grows now (strip owner) lease_time tokens rows db id)
Step-grows {p} {db} {db'} id (beats now lease lease_time lease' h) =
    let (row, owned, claim) = heartbeat-eq-ok now lease lease_time db lease' db' h in
    claim-grows id lease.token row (beaten_row now lease_time) db db' lease'
      (record { key = λ r. refl; grows = λ r. omega arith }) claim
Step-grows {p} {db} {db'} id (commits now event_id lease o operation item h) =
    let c = commit_observation-eq-ok p now event_id lease o db operation item db' h in
    subst (λ items. generation_in id db.recovery_items ≤ generation_in id items)
      (sym (items_after p now event_id lease o db operation item db' c))
      (update_recovery-grows id c.admitted.row.operation_id
        (committed_row p now o c.admitted.projection) db.recovery_items
        (record { key = λ r. refl; grows = λ r. omega arith }))

Reach-grows :
    {p : Platform} {db db' : Database} (id : String)
    → Reach p db db'
    → generation_in id db.recovery_items ≤ generation_in id db'.recovery_items
Reach-grows id here = omega arith
Reach-grows id (next r s) = omega (arith, Reach-grows id r, Step-grows id s)

lease_lost_by_generation :
    (lease : RecoveryLease) (now : ℕ) (db : Database)
    → lease.item.lease_generation < generation_in lease.item.operation_id db.recovery_items
    → locked_owned_row lease now db ≡ err (recovery_lease_lost lease.item.operation_id)
unfolding locked_owned_row
lease_lost_by_generation lease now db h =
    elim (Option-cases (find_recovery lease.item.operation_id db.recovery_items)) [
      | inl absent ↦ ground (arith, absent)
      | inr (row, found) ↦ ground (arith, found)
    ]

-- A lease whose generation is at most the one of its item is lost, at every time, once a later call
-- has given out another lease of the item: after any sequence of further claims, polls, heartbeats and
-- commits, `_locked_owned_row`, `heartbeat` and `commit_observation` raise RecoveryLeaseLost for it.
pub older_lease_lost :
    (p : Platform) (lease : RecoveryLease) (db db1 db2 : Database) (now lease_time : ℕ)
    (event_id : String) (o : Observation)
    → lease.item.lease_generation ≤ generation_in lease.item.operation_id db.recovery_items
    → Claim p lease.item.operation_id db db1
    → Reach p db1 db2
    → (locked_owned_row lease now db2 ≡ err (recovery_lease_lost lease.item.operation_id))
      × (heartbeat now lease lease_time db2 ≡ err (recovery_lease_lost lease.item.operation_id))
      × (commit_observation p now event_id lease o db2
          ≡ err (recovery_lease_lost lease.item.operation_id))
unfolding heartbeat commit_observation admit_observation
older_lease_lost p lease db db1 db2 now lease_time event_id o old claim reach =
    let raised = Claim-raises claim in
    let grown = Reach-grows lease.item.operation_id reach in
    let lost = lease_lost_by_generation lease now db2 (omega (arith, raised, grown)) in
    (lost, rw lost refl, rw lost refl)
