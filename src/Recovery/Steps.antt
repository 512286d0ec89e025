-- ===== src/Recovery/Steps.antt =====
-- The calls of backend/app/operations/recovery/infrastructure/repository.py as steps on the tables, and
-- what each has found and written where it returns.
use gjallar.Prelude.{
  ℕ, ◌≡◌, String, Bool, true, false, inl, inr, ◌⊎◌, Option, none, some, List, [], ◌∷◌, ◌++◌, take,
  arith, Option-cases,
}
use gjallar.Prelude.Text.{strip}
use gjallar.Operation.Event.{Platform}
use gjallar.Result.{ok, Result-cases}
use gjallar.Database.{OperationRecord, Database, OperationRecoveryItemRecord, find_recovery}
use gjallar.Recovery.{
  RecoverySpec, RecoveryItem, RecoveryLease, recovery_item, live_lease, first_row, prepared_row,
  observed_row, claim_with, prepare_and_claim, claim_operation, claim_rows, claim_due,
  locked_owned_row, beaten_row, heartbeat, is_completed, due_rows, bounded_limit,
}
use gjallar.Recovery.Generation.{claims}
use gjallar.Recovery.Commit.{Observation, commit_observation}

-- A call that gives out a new lease of the item.
pub data Claim (p : Platform) (id : String) (db db' : Database) : Type 0 where
  prepared :
      (now : ℕ) (token : String) (spec : RecoverySpec) (owner : String) (lease_time : ℕ)
      (version : Option ℕ) (checksum : Option String) (lease : RecoveryLease)
      → prepare_and_claim p now token spec owner lease_time version checksum db ≡ ok (lease, db')
      → spec.operation_id ≡ id
      → Claim p id db db'
  observed :
      (now : ℕ) (token operation_id owner : String) (lease_time : ℕ) (version : Option ℕ)
      (checksum : Option String) (lease : RecoveryLease)
      → claim_operation now token operation_id owner lease_time version checksum db
        ≡ ok (lease, db')
      → strip operation_id ≡ id
      → Claim p id db db'
  due :
      (now : ℕ) (tokens : ℕ → String) (locked : String → Bool) (owner : String)
      (lease_time limit : ℕ) (leases : List RecoveryLease)
      → claim_due now tokens locked owner lease_time limit db ≡ ok (leases, db')
      → claims id leases ≡ true
      → Claim p id db db'

pub data Step (p : Platform) (db db' : Database) : Type 0 where
  prepares :
      (now : ℕ) (token : String) (spec : RecoverySpec) (owner : String) (lease_time : ℕ)
      (version : Option ℕ) (checksum : Option String) (lease : RecoveryLease)
      → prepare_and_claim p now token spec owner lease_time version checksum db ≡ ok (lease, db')
      → Step p db db'
  observes :
      (now : ℕ) (token operation_id owner : String) (lease_time : ℕ) (version : Option ℕ)
      (checksum : Option String) (lease : RecoveryLease)
      → claim_operation now token operation_id owner lease_time version checksum db
        ≡ ok (lease, db')
      → Step p db db'
  polls :
      (now : ℕ) (tokens : ℕ → String) (locked : String → Bool) (owner : String)
      (lease_time limit : ℕ) (leases : List RecoveryLease)
      → claim_due now tokens locked owner lease_time limit db ≡ ok (leases, db')
      → Step p db db'
  beats :
      (now : ℕ) (lease : RecoveryLease) (lease_time : ℕ) (lease' : RecoveryLease)
      → heartbeat now lease lease_time db ≡ ok (lease', db')
      → Step p db db'
  commits :
      (now : ℕ) (event_id : String) (lease : RecoveryLease) (o : Observation)
      (operation : OperationRecord) (item : RecoveryItem)
      → commit_observation p now event_id lease o db ≡ ok (operation, item, db')
      → Step p db db'

pub data Reach (p : Platform) (db : Database) : Database → Type 0 where
  here : Reach p db db
  next : {db' db'' : Database} → Reach p db db' → Step p db' db'' → Reach p db db''

module _ (p : Platform) (now : ℕ) (token owner : String) (lease_time : ℕ) (version : Option ℕ)
    (checksum : Option String) (db : Database) where
  -- Where a preparation that returns has found no row, it inserts one; else it claims a row without
  -- a live lease.
  pub prepare_and_claim-eq-ok :
      (spec : RecoverySpec) (lease : RecoveryLease) (db' : Database)
      → prepare_and_claim p now token spec owner lease_time version checksum db ≡ ok (lease, db')
      → let new = first_row p now spec (strip owner) token lease_time in
        ((find_recovery spec.operation_id db.recovery_items ≡ none)
          × (lease ≡ record { item = recovery_item new; token = token })
          × (db' ≡ record db { recovery_items = db.recovery_items ++ new ∷ [] }))
        ⊎ ((row : OperationRecoveryItemRecord) × (find_recovery spec.operation_id db.recovery_items
              ≡ some row)
            × (live_lease now row ≡ false)
            × (is_completed row.status ≡ false)
            × ((lease, db')
                ≡ claim_with token row (prepared_row p now spec (strip owner) token lease_time) db))
  unfolding prepare_and_claim
  prepare_and_claim-eq-ok spec lease db' h =
      elim (Option-cases (find_recovery spec.operation_id db.recovery_items)) [
        | inl absent ↦ inl (absent, ground (arith, absent), ground (arith, absent))
        | inr (row, found) ↦
            inr (row, found, ground (arith, found), ground (arith, found), ground (arith, found))
      ]

pub claim_operation-eq-ok :
    (now : ℕ) (token owner : String) (lease_time : ℕ) (version : Option ℕ)
    (checksum : Option String) (db : Database) (operation_id : String) (lease : RecoveryLease)
    (db' : Database)
    → claim_operation now token operation_id owner lease_time version checksum db ≡ ok (lease, db')
    → (row : OperationRecoveryItemRecord) × (find_recovery (strip operation_id) db.recovery_items
        ≡ some row)
      × (live_lease now row ≡ false)
      × (is_completed row.status ≡ false)
      × ((lease, db') ≡ claim_with token row (observed_row now (strip owner) token lease_time) db)
unfolding claim_operation
claim_operation-eq-ok now token owner lease_time version checksum db operation_id lease db' h =
    elim (Option-cases (find_recovery (strip operation_id) db.recovery_items)) [
      | inl absent ↦ ground (arith, absent)
      | inr (row, found) ↦
          (row, found, ground (arith, found), ground (arith, found), ground (arith, found))
    ]

pub claim_due-eq-ok :
    (now : ℕ) (tokens : ℕ → String) (locked : String → Bool) (owner : String) (lease_time limit : ℕ)
    (db : Database) (leases : List RecoveryLease) (db' : Database)
    → claim_due now tokens locked owner lease_time limit db ≡ ok (leases, db')
    → let claim =
        claim_rows now
          (strip owner)
          lease_time
          tokens
          (take (bounded_limit limit) (due_rows now locked db.recovery_items))
          db in
      (leases ≡ claim.0) × (db' ≡ claim.1)
unfolding claim_due
claim_due-eq-ok now tokens locked owner lease_time limit db leases db' h =
    (ground arith, ground arith)

pub heartbeat-eq-ok :
    (now : ℕ) (lease : RecoveryLease) (lease_time : ℕ) (db : Database) (lease' : RecoveryLease)
    (db' : Database)
    → heartbeat now lease lease_time db ≡ ok (lease', db')
    → (row : OperationRecoveryItemRecord) × (locked_owned_row lease now db ≡ ok row)
      × ((lease', db') ≡ claim_with lease.token row (beaten_row now lease_time) db)
unfolding heartbeat
heartbeat-eq-ok now lease lease_time db lease' db' h =
    elim (Result-cases (locked_owned_row lease now db)) [
      | inl (row, owned) ↦ (row, owned, ground (arith, owned))
      | inr (e, lost) ↦ ground (arith, lost)
    ]
