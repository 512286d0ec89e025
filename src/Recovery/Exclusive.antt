-- ===== src/Recovery/Exclusive.antt =====
-- One owner of an item at a time: the leases of
-- backend/app/operations/recovery/infrastructure/repository.py.
use gjallar.Prelude.{
  ℕ, ◌+◌, ◌<◌, ◌≡◌, ◌≢◌, refl, sym, subst, String, true, inl, inr, Option, some, arith, str_eq_refl,
  Option-cases, max,
}
use gjallar.Prelude.Text.{strip}
use gjallar.Operation.Event.{Platform}
use gjallar.Result.{ok}
use gjallar.Database.{Database, OperationRecoveryItemRecord, find_recovery, leased}
use gjallar.Recovery.{
  RecoverySpec, RecoveryLease, recovery_item, first_row, prepared_row, observed_row, claim_with,
  prepare_and_claim, claim_operation, owns, locked_owned_row, beaten_row, heartbeat, lease_expiry,
}
use gjallar.Recovery.Generation.{find-update_recovery, find_recovery-id, find_recovery-new}
use gjallar.Recovery.Steps.{prepare_and_claim-eq-ok, claim_operation-eq-ok, heartbeat-eq-ok}

pub locked_owned_row-eq-ok :
    (lease : RecoveryLease) (now : ℕ) (db : Database) (row : OperationRecoveryItemRecord)
    → locked_owned_row lease now db ≡ ok row
    → (find_recovery lease.item.operation_id db.recovery_items ≡ some row)
      × (owns lease now row ≡ true)
unfolding locked_owned_row
locked_owned_row-eq-ok lease now db row h =
    elim (Option-cases (find_recovery lease.item.operation_id db.recovery_items)) [
      | inl absent ↦ ground (arith, absent)
      | inr (stored, found) ↦ (ground (arith, found), ground (arith, found))
    ]

-- While a lease is owned, no claim of the item by `prepare_and_claim` or `claim_operation` returns.
pub owned_excludes :
    (p : Platform) (lease : RecoveryLease) (now : ℕ) (db : Database)
    (row : OperationRecoveryItemRecord) (token owner : String) (lease_time : ℕ) (version : Option ℕ)
    (checksum : Option String) (spec : RecoverySpec) (operation_id : String) (other : RecoveryLease)
    (db' : Database)
    → locked_owned_row lease now db ≡ ok row
    → spec.operation_id ≡ lease.item.operation_id
    → strip operation_id ≡ lease.item.operation_id
    → (prepare_and_claim p now token spec owner lease_time version checksum db ≢ ok (other, db'))
      × (claim_operation now token operation_id owner lease_time version checksum db
          ≢ ok (other, db'))
owned_excludes p lease now db row token owner lease_time version checksum spec operation_id other
      db' owned same1 same2 =
    let (found, own) = locked_owned_row-eq-ok lease now db row owned in
    (
      λ h.
          elim (prepare_and_claim-eq-ok p now token owner lease_time version checksum db spec other
            db' h) [
              | inl (absent, l, stored) ↦ ground (arith, same1, found, absent)
              | inr (row', found', live, unfinished, claim) ↦
                  ground (arith, same1, found, found', live, own)
            ],
      λ h.
          let (row', found', live, unfinished, claim) =
            claim_operation-eq-ok now token owner lease_time version checksum db operation_id other
              db' h in
          ground (arith, same2, found, found', live, own),
    )

-- The lease that a write returns is owned until it expires.
claim-owned :
    (id token : String) (row : OperationRecoveryItemRecord)
    (f : OperationRecoveryItemRecord → OperationRecoveryItemRecord) (db db' : Database)
    (lease : RecoveryLease) (later : ℕ)
    → ((r : OperationRecoveryItemRecord) → (f r).operation_id ≡ r.operation_id)
    → find_recovery id db.recovery_items ≡ some row
    → (lease, db') ≡ claim_with token row f db
    → owns (record { item = recovery_item (f row); token = token }) later (f row) ≡ true
    → locked_owned_row lease later db' ≡ ok (f row)
unfolding claim_with locked_owned_row
claim-owned id token row f db db' lease later key found claim own =
    let same = find_recovery-id id db.recovery_items row found in
    subst (λ (c : RecoveryLease × Database). locked_owned_row c.0 later c.1 ≡ ok (f row))
      (sym claim)
      (ground (arith, same, key row, found, own, find-update_recovery id f db.recovery_items key))

owns-live :
    (row : OperationRecoveryItemRecord) (token : String) (later expiry : ℕ)
    → row.status ≡ leased
    → row.lease_token ≡ some token
    → row.lease_expires_at ≡ some expiry
    → later < expiry
    → owns (record { item = recovery_item row; token = token }) later row ≡ true
owns-live row token later expiry s t e h = ground (arith, s, t, e, str_eq_refl token)

-- A lease that `claim_operation` returns is owned at every time before its expiry, which is at least
-- one second after the claim.
pub claim_operation-owned :
    (now : ℕ) (token operation_id owner : String) (lease_time : ℕ) (version : Option ℕ)
    (checksum : Option String) (db : Database) (lease : RecoveryLease) (db' : Database) (later : ℕ)
    → claim_operation now token operation_id owner lease_time version checksum db ≡ ok (lease, db')
    → later < now + max lease_time 1000000
    → (row : OperationRecoveryItemRecord) × (locked_owned_row lease later db' ≡ ok row)
unfolding observed_row
claim_operation-owned now token operation_id owner lease_time version checksum db lease db' later h
      before =
    let (row, found, live, unfinished, claim) =
      claim_operation-eq-ok now token owner lease_time version checksum db operation_id lease db'
        h in
    let f = observed_row now (strip owner) token lease_time in
    (
      f row,
      claim-owned (strip operation_id) token row f db db' lease later (λ r. refl) found claim
          (owns-live (f row) token later (lease_expiry now lease_time) refl refl refl before),
    )

-- A lease that `prepare_and_claim` returns is owned at every time before its expiry, which is at
-- least one second after the claim.
pub prepare_and_claim-owned :
    (p : Platform) (now : ℕ) (token : String) (spec : RecoverySpec) (owner : String)
    (lease_time : ℕ) (version : Option ℕ) (checksum : Option String) (db : Database)
    (lease : RecoveryLease) (db' : Database) (later : ℕ)
    → prepare_and_claim p now token spec owner lease_time version checksum db ≡ ok (lease, db')
    → later < now + max lease_time 1000000
    → (row : OperationRecoveryItemRecord) × (locked_owned_row lease later db' ≡ ok row)
unfolding prepared_row first_row locked_owned_row
prepare_and_claim-owned p now token spec owner lease_time version checksum db lease db' later h
      before =
    elim (prepare_and_claim-eq-ok p now token owner lease_time version checksum db spec lease db'
      h) [
        | inl (absent, l, stored) ↦
            let new = first_row p now spec (strip owner) token lease_time in
            let own =
              owns-live new token later (lease_expiry now lease_time) refl refl refl before in
            (new, ground (arith, l, stored, own, find_recovery-new db.recovery_items new absent))
        | inr (row, found, live, unfinished, claim) ↦
            let f = prepared_row p now spec (strip owner) token lease_time in
            (
              f row,
              claim-owned spec.operation_id token row f db db' lease later (λ r. refl) found claim
                  (owns-live (f row) token later (lease_expiry now lease_time) refl refl refl
                    before),
            )
      ]

-- A heartbeat that returns keeps the lease's generation and token, and its owner keeps the item until
-- the new expiry.
pub heartbeat-owned :
    (now : ℕ) (lease : RecoveryLease) (lease_time : ℕ) (db : Database) (lease' : RecoveryLease)
    (db' : Database) (later : ℕ)
    → heartbeat now lease lease_time db ≡ ok (lease', db')
    → later < now + max lease_time 1000000
    → (lease'.token ≡ lease.token)
      × (lease'.item.lease_generation ≡ lease.item.lease_generation)
      × ((row : OperationRecoveryItemRecord) × (locked_owned_row lease' later db' ≡ ok row))
unfolding beaten_row claim_with
heartbeat-owned now lease lease_time db lease' db' later h before =
    let (row, owned, claim) = heartbeat-eq-ok now lease lease_time db lease' db' h in
    let (found, own) = locked_owned_row-eq-ok lease now db row owned in
    let f = beaten_row now lease_time in
    (
      ground (arith, claim),
      ground (arith, claim, own),
      (
        f row,
        claim-owned lease.item.operation_id lease.token row f db db' lease' later (λ r. refl) found
            claim (ground (arith, own)),
      ),
    )
