-- ===== src/Recovery/Generation.antt =====
-- The lease generation of an item's row in
-- backend/app/operations/recovery/infrastructure/repository.py, under the writes of the operations.
use gjallar.Prelude.{
  ℕ, ◌+◌, ◌≤◌, ◌<◌, ◌≡◌, refl, String, Bool, true, false, inl, inr, none, some, List, [], ◌∷◌, ◌++◌,
  any, length, All, All-map, arith, ◌==◌, str_eq_iff, str_eq_refl, Bool-cases, Option-cases,
}
use gjallar.Database.{Database, OperationRecoveryItemRecord, find_recovery}
use gjallar.Recovery.Due.{is_stored}
use gjallar.Recovery.{RecoveryLease, update_recovery, claimed_row, claim_with, claim_rows}

-- The generation of an item's row; 0 without a row.
abbrev pub generation_in : String → List OperationRecoveryItemRecord → ℕ
generation_in id rows = elim (find_recovery id rows) [ none ↦ 0 | some row ↦ row.lease_generation ]

-- Writes that keep the primary key and never lower the generation.
pub record IsFenced (f : OperationRecoveryItemRecord → OperationRecoveryItemRecord) : Type 0 where
  pub key : (row : OperationRecoveryItemRecord) → (f row).operation_id ≡ row.operation_id
  pub grows : (row : OperationRecoveryItemRecord) → row.lease_generation ≤ (f row).lease_generation

pub find-update_recovery :
    (id : String) (f : OperationRecoveryItemRecord → OperationRecoveryItemRecord)
    (rows : List OperationRecoveryItemRecord)
    → ((row : OperationRecoveryItemRecord) → (f row).operation_id ≡ row.operation_id)
    → find_recovery id (update_recovery id f rows)
      ≡ elim (find_recovery id rows) [ none ↦ none | some row ↦ some (f row) ]
unfolding find_recovery update_recovery
find-update_recovery id f [] key = refl
find-update_recovery id f (x ∷ rows) key = ground (arith, key x, find-update_recovery id f rows key)

pub find-update_recovery_ne :
    (id other : String) (f : OperationRecoveryItemRecord → OperationRecoveryItemRecord)
    (rows : List OperationRecoveryItemRecord)
    → ((row : OperationRecoveryItemRecord) → (f row).operation_id ≡ row.operation_id)
    → (other == id) ≡ false
    → find_recovery id (update_recovery other f rows) ≡ find_recovery id rows
unfolding find_recovery update_recovery
find-update_recovery_ne id other f [] key ne = refl
find-update_recovery_ne id other f (x ∷ rows) key ne = ground (
  arith,
  key x,
  str_eq_iff x.operation_id other,
  str_eq_iff x.operation_id id,
  str_eq_iff other id,
  find-update_recovery_ne id other f rows key ne,
)

pub update_recovery-grows :
    (id other : String) (f : OperationRecoveryItemRecord → OperationRecoveryItemRecord)
    (rows : List OperationRecoveryItemRecord)
    → IsFenced f
    → generation_in id rows ≤ generation_in id (update_recovery other f rows)
update_recovery-grows id other f rows fenced = elim (Bool-cases (other == id)) [
  | inr ne ↦ ground (arith, find-update_recovery_ne id other f rows fenced.key ne)
  | inl eq ↦ elim (Option-cases (find_recovery id rows)) [
    | inl absent ↦ ground (arith, absent)
    | inr (row, found) ↦ ground (
      arith,
      found,
      str_eq_iff other id,
      fenced.grows row,
      find-update_recovery id f rows fenced.key,
    )
  ]
]

pub find_recovery-id :
    (id : String) (rows : List OperationRecoveryItemRecord) (row : OperationRecoveryItemRecord)
    → find_recovery id rows ≡ some row
    → row.operation_id ≡ id
unfolding find_recovery
find_recovery-id id [] row h = cc
find_recovery-id id (x ∷ rows) row h =
    ground (arith, str_eq_iff x.operation_id id, find_recovery-id id rows row)

pub find_recovery-append :
    (id : String) (rows : List OperationRecoveryItemRecord) (new : OperationRecoveryItemRecord)
    → generation_in id rows ≤ generation_in id (rows ++ new ∷ [])
unfolding find_recovery
find_recovery-append id [] new = omega arith
find_recovery-append id (x ∷ rows) new = ground (arith, find_recovery-append id rows new)

pub find_recovery-new :
    (rows : List OperationRecoveryItemRecord) (new : OperationRecoveryItemRecord)
    → find_recovery new.operation_id rows ≡ none
    → find_recovery new.operation_id (rows ++ new ∷ []) ≡ some new
unfolding find_recovery
find_recovery-new [] new h = ground (arith, str_eq_refl new.operation_id)
find_recovery-new (x ∷ rows) new h = ground (arith, find_recovery-new rows new)

-- `any(lease.operation_id == id for lease in leases)`
abbrev pub claims : String → List RecoveryLease → Bool
claims id = any (λ (lease : RecoveryLease). lease.item.operation_id == id)

pub claim_with-grows :
    (id token : String) (row : OperationRecoveryItemRecord)
    (f : OperationRecoveryItemRecord → OperationRecoveryItemRecord) (db : Database)
    → IsFenced f
    → generation_in id db.recovery_items
      ≤ generation_in id (claim_with token row f db).1.recovery_items
unfolding claim_with
claim_with-grows id token row f db fenced =
    update_recovery-grows id row.operation_id f db.recovery_items fenced

-- The write of a claim on the found row raises its generation.
pub claim_with-raises :
    (token : String) (row : OperationRecoveryItemRecord)
    (f : OperationRecoveryItemRecord → OperationRecoveryItemRecord) (db : Database) (id : String)
    → ((r : OperationRecoveryItemRecord) → (f r).operation_id ≡ r.operation_id)
    → ((r : OperationRecoveryItemRecord) → (f r).lease_generation ≡ r.lease_generation + 1)
    → row.operation_id ≡ id
    → (stored : OperationRecoveryItemRecord) → find_recovery id db.recovery_items ≡ some stored
    → generation_in id db.recovery_items
      < generation_in id (claim_with token row f db).1.recovery_items
unfolding claim_with
claim_with-raises token row f db id key raises same stored found =
    ground (arith, same, found, raises stored, find-update_recovery id f db.recovery_items key)

claimed_row-IsFenced :
    (now : ℕ) (owner token : String) (lease_time : ℕ)
    → IsFenced (claimed_row now owner token lease_time)
claimed_row-IsFenced now owner token lease_time = record {
  key = λ row. refl;
  grows = λ row. omega arith;
}

pub claim_rows-grows :
    (now : ℕ) (owner : String) (lease_time : ℕ) (tokens : ℕ → String)
    (rows : List OperationRecoveryItemRecord) (db : Database) (id : String)
    → generation_in id db.recovery_items
      ≤ generation_in id (claim_rows now owner lease_time tokens rows db).1.recovery_items
unfolding claim_rows
claim_rows-grows now owner lease_time tokens [] db id = omega arith
claim_rows-grows now owner lease_time tokens (row ∷ rows) db id =
    let token = tokens (length rows) in
    let f = claimed_row now owner token lease_time in
    let first =
      claim_with-grows id token row f db (claimed_row-IsFenced now owner token lease_time) in
    let rest = claim_rows-grows now owner lease_time tokens rows (claim_with token row f db).1 id in
    omega (arith, first, rest)

is_stored-found :
    (id : String) (rows : List OperationRecoveryItemRecord)
    → is_stored id rows ≡ true
    → (row : OperationRecoveryItemRecord) × (find_recovery id rows ≡ some row)
unfolding find_recovery
is_stored-found id [] h = cc
is_stored-found id (x ∷ rows) h = elim (Bool-cases (x.operation_id == id)) [
  | inl first ↦ rw first (x, refl)
  | inr later ↦ rw later (is_stored-found id rows (rw later at h))
]

is_stored-update_recovery :
    (id other : String) (f : OperationRecoveryItemRecord → OperationRecoveryItemRecord)
    (rows : List OperationRecoveryItemRecord)
    → ((row : OperationRecoveryItemRecord) → (f row).operation_id ≡ row.operation_id)
    → is_stored id rows ≡ true
    → is_stored id (update_recovery other f rows) ≡ true
unfolding update_recovery
is_stored-update_recovery id other f [] key h = h
is_stored-update_recovery id other f (x ∷ rows) key h =
    ground (arith, key x, is_stored-update_recovery id other f rows key)

-- Each item that the loop of `claim_due` leases has its generation raised.
pub claim_rows-raises :
    (now : ℕ) (owner : String) (lease_time : ℕ) (tokens : ℕ → String)
    (rows : List OperationRecoveryItemRecord) (db : Database) (id : String)
    → All
        (λ (row : OperationRecoveryItemRecord). is_stored row.operation_id db.recovery_items ≡ true)
        rows
    → claims id (claim_rows now owner lease_time tokens rows db).0 ≡ true
    → generation_in id db.recovery_items
      < generation_in id (claim_rows now owner lease_time tokens rows db).1.recovery_items
unfolding claim_rows claim_with
claim_rows-raises now owner lease_time tokens [] db id a c = cc
claim_rows-raises now owner lease_time tokens (row ∷ rows) db id a c =
    let token = tokens (length rows) in
    let f = claimed_row now owner token lease_time in
    let db1 = (claim_with token row f db).1 in
    let first =
      claim_with-grows id token row f db (claimed_row-IsFenced now owner token lease_time) in
    let rest = claim_rows-grows now owner lease_time tokens rows db1 id in
    elim (Bool-cases (row.operation_id == id)) [
      | inl mine ↦
          let same = (str_eq_iff row.operation_id id).0 mine in
          let (stored, found) = is_stored-found id db.recovery_items (rw same at a.0) in
          let raised =
            claim_with-raises token row f db id (λ r. refl) (λ r. refl) same stored found in
          omega (arith, raised, rest)
      | inr other ↦
          let raised =
            claim_rows-raises now owner lease_time tokens rows db1 id
              (All-map _ _ rows
                (λ r.
                  is_stored-update_recovery r.operation_id row.operation_id f db.recovery_items
                    (λ x. refl))
                a.1)
              (rw other at c) in
          omega (arith, raised, first)
    ]
