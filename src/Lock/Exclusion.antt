-- ===== src/Lock/Exclusion.antt =====
-- One open lock for a locator: what backend/app/operations/locks/infrastructure/repository.py keeps.
use gjallar.Prelude.{
  ℕ, ◌+◌, ◌≤◌, ◌≡◌, ◌≢◌, refl, sym, subst, String, true, false, inl, inr, none, List, [], ◌∷◌, ◌++◌,
  arith, str_eq_iff, str_eq_refl, Bool-cases, Option-cases, if◌then◌else◌,
}
use gjallar.Prelude.Text.{strip}
use gjallar.Result.{ok, Result-cases}
use gjallar.Database.{OperationLockRecord, Database, find_lock, is_open, is_locator}
use gjallar.Setup.{SetupState, admit_mutation}
use gjallar.Lock.{
  DurableTargetLock, locator_scope_key, durable_lock, holds_locator, current, strip_or,
  configuration_holder, locator_taken, acquired_row, insert_lock, acquire,
}

-- How many open locks are on the locator with this key.
unfoldable pub open_count : String → List OperationLockRecord → ℕ
open_count key [] = 0
open_count key (row ∷ rows) =
    let rest = open_count key rows in if holds_locator key row then rest + 1 else rest

-- uq_operation_locks_open_locator, as a property of the table
pub record IsExclusive (locks : List OperationLockRecord) : Type 0 where
  pub at_most_one : (key : String) → open_count key locks ≤ 1

pub open_count-append :
    (key : String) (rows : List OperationLockRecord) (row : OperationLockRecord)
    → open_count key (rows ++ row ∷ [])
      ≡ open_count key rows + (if holds_locator key row then 1 else 0)
unfolding open_count
open_count-append key [] row = ground arith
open_count-append key (x ∷ rows) row = ground (arith, open_count-append key rows row)

pub open_count-free :
    (key : String) (rows : List OperationLockRecord)
    → locator_taken key rows ≡ false
    → open_count key rows ≡ 0
unfolding open_count
open_count-free key [] h = refl
open_count-free key (x ∷ rows) h = ground (arith, open_count-free key rows)

locator_taken-append :
    (key : String) (rows : List OperationLockRecord) (row : OperationLockRecord)
    → holds_locator key row ≡ true
    → locator_taken key (rows ++ row ∷ []) ≡ true
locator_taken-append key [] row h = ground arith
locator_taken-append key (x ∷ rows) row h = ground (arith, locator_taken-append key rows row h)

holds_locator-key :
    (key : String) (row : OperationLockRecord) → holds_locator key row ≡ true → row.scope_key ≡ key
holds_locator-key key row h = ground (arith, str_eq_iff row.scope_key key)

holds_own :
    (row : OperationLockRecord)
    → is_locator row.scope_type ≡ true
    → is_open row.status ≡ true
    → holds_locator row.scope_key row ≡ true
holds_own row l o = ground (arith, l, o, str_eq_refl row.scope_key)

-- What an insertion that went through has tested and written.
pub insert_lock-eq-ok :
    (state : SetupState) (db : Database) (row : OperationLockRecord) (vmid : ℕ)
    (lock : DurableTargetLock) (db' : Database)
    → insert_lock state db row vmid ≡ ok (lock, db')
    → (admit_mutation state row.cluster_id vmid row.operation_type ≡ ok tt)
      × (configuration_holder row.cluster_id db.locks ≡ none)
      × (locator_taken row.scope_key db.locks ≡ false)
      × (find_lock row.operation_lock_id db.locks ≡ none)
      × (lock ≡ durable_lock row)
      × (db' ≡ record db { locks = db.locks ++ row ∷ [] })
unfolding insert_lock
insert_lock-eq-ok state db row vmid lock db' h =
    elim (Result-cases (admit_mutation state row.cluster_id vmid row.operation_type)) [
      | inl (u, admitted) ↦ elim (Option-cases (configuration_holder row.cluster_id db.locks)) [
        | inl free ↦ elim (Option-cases (find_lock row.operation_lock_id db.locks)) [
          | inl fresh ↦ ground (arith, admitted, free, fresh)
          | inr (other, stored) ↦ ground (arith, admitted, free, stored)
        ]
        | inr (host, busy) ↦ ground (arith, admitted, busy)
      ]
      | inr (e, refused) ↦ ground (arith, refused)
    ]

module _ (state : SetupState) (before db : Database) (lock_id : String) (now : ℕ)
    (operation_type cluster_id : String) (vmid : ℕ) (owner_id reason : String) where
  abbrev pub new_row : OperationLockRecord
  new_row =
      acquired_row lock_id now operation_type (strip_or cluster_id "gjallar-mvp") vmid
        (strip owner_id) reason

  -- A call that returns has inserted its row.
  pub acquire-eq-ok :
      (lock : DurableTargetLock) (db' : Database)
      → acquire state before db lock_id now operation_type cluster_id vmid owner_id reason
        ≡ ok (lock, db')
      → insert_lock state db new_row vmid ≡ ok (lock, db')
  unfolding acquire
  acquire-eq-ok lock db' h =
      elim (Option-cases (current (strip_or cluster_id "gjallar-mvp") vmid before.locks)) [
        | inl free ↦ ground (arith, free)
        | inr (existing, busy) ↦ ground (arith, busy)
      ]

insert_lock-IsExclusive :
    (state : SetupState) (db : Database) (row : OperationLockRecord) (vmid : ℕ)
    (lock : DurableTargetLock) (db' : Database)
    → IsExclusive db.locks
    → insert_lock state db row vmid ≡ ok (lock, db')
    → IsExclusive db'.locks
insert_lock-IsExclusive state db row vmid lock db' x h =
    let (admitted, free, untaken, fresh, given, stored) =
      insert_lock-eq-ok state db row vmid lock db' h in
    let bound : (key : String) → open_count key (db.locks ++ row ∷ []) ≤ 1 = λ key.
      elim (Bool-cases (holds_locator key row)) [
        | inl holds ↦
            let same : row.scope_key ≡ key = holds_locator-key key row holds in
            let empty = open_count-free key db.locks (rw same at untaken) in
            rw (open_count-append, holds) (omega arith)
        | inr other ↦ let old = x.at_most_one key in rw (open_count-append, other) (omega arith)
      ] in
    subst (λ (d : Database). IsExclusive d.locks) (sym stored) (record { at_most_one = bound })

-- A lock that was acquired keeps at most one open lock on each locator, also where another
-- transaction took a lock after the first read.
pub acquire-IsExclusive :
    (state : SetupState) (before db : Database) (lock_id : String) (now : ℕ)
    (operation_type cluster_id : String) (vmid : ℕ) (owner_id reason : String)
    (lock : DurableTargetLock) (db' : Database)
    → IsExclusive db.locks
    → acquire state before db lock_id now operation_type cluster_id vmid owner_id reason
      ≡ ok (lock, db')
    → IsExclusive db'.locks
acquire-IsExclusive state before db lock_id now operation_type cluster_id vmid owner_id reason lock
      db' x h =
    insert_lock-IsExclusive state db
      (new_row state before db lock_id now operation_type cluster_id vmid owner_id reason) vmid lock
      db' x
      (acquire-eq-ok state before db lock_id now operation_type cluster_id vmid owner_id reason lock
        db' h)

-- A locator that an open lock holds in the table is not acquired, whatever was read before.
pub acquire_taken :
    (state : SetupState) (before db : Database) (lock_id : String) (now : ℕ)
    (operation_type cluster_id : String) (vmid : ℕ) (owner_id reason : String)
    (lock : DurableTargetLock) (db' : Database)
    → locator_taken (locator_scope_key (strip_or cluster_id "gjallar-mvp") vmid) db.locks ≡ true
    → acquire state before db lock_id now operation_type cluster_id vmid owner_id reason
      ≢ ok (lock, db')
unfolding acquired_row
acquire_taken state before db lock_id now operation_type cluster_id vmid owner_id reason lock db'
      taken h =
    let (admitted, free, untaken, fresh, given, stored) =
      insert_lock-eq-ok state db
        (new_row state before db lock_id now operation_type cluster_id vmid owner_id reason) vmid
        lock db'
        (acquire-eq-ok state before db lock_id now operation_type cluster_id vmid owner_id reason
          lock db' h) in
    cc (taken, untaken)

acquire-takes :
    (state : SetupState) (before db : Database) (lock_id : String) (now : ℕ)
    (operation_type cluster_id : String) (vmid : ℕ) (owner_id reason : String)
    (lock : DurableTargetLock) (db' : Database)
    → acquire state before db lock_id now operation_type cluster_id vmid owner_id reason
      ≡ ok (lock, db')
    → locator_taken (locator_scope_key (strip_or cluster_id "gjallar-mvp") vmid) db'.locks ≡ true
unfolding acquired_row
acquire-takes state before db lock_id now operation_type cluster_id vmid owner_id reason lock db'
      h =
    let row = new_row state before db lock_id now operation_type cluster_id vmid owner_id reason in
    let (admitted, free, untaken, fresh, given, stored) =
      insert_lock-eq-ok state db row vmid lock db' (
        acquire-eq-ok state before db lock_id now operation_type cluster_id vmid owner_id reason
          lock db' h) in
    rw stored (locator_taken-append row.scope_key db.locks row (holds_own row refl refl))

-- Once one call has acquired a VM, no other call acquires it in the same table: not another owner,
-- not another operation type, not the same owner again, and not one that read before.
pub acquire_excludes :
    (state state' : SetupState) (before before' db db' db'' : Database) (lock_id lock_id' : String)
    (now now' : ℕ) (type type' cluster_id : String) (vmid : ℕ) (owner_id owner_id' : String)
    (reason reason' : String) (lock lock' : DurableTargetLock)
    → acquire state before db lock_id now type cluster_id vmid owner_id reason ≡ ok (lock, db')
    → acquire state' before' db' lock_id' now' type' cluster_id vmid owner_id' reason'
      ≢ ok (lock', db'')
acquire_excludes state state' before before' db db' db'' lock_id lock_id' now now' type type'
      cluster_id vmid owner_id owner_id' reason reason' lock lock' h =
    acquire_taken state' before' db' lock_id' now' type' cluster_id vmid owner_id' reason' lock'
      db''
      (acquire-takes state before db lock_id now type cluster_id vmid owner_id reason lock db' h)

-- A VM lock is granted only with the connection's admission and while no host configuration lock of
-- the cluster is open.
pub acquire_admitted :
    (state : SetupState) (before db : Database) (lock_id : String) (now : ℕ)
    (operation_type cluster_id : String) (vmid : ℕ) (owner_id reason : String)
    (lock : DurableTargetLock) (db' : Database)
    → acquire state before db lock_id now operation_type cluster_id vmid owner_id reason
      ≡ ok (lock, db')
    → (admit_mutation state (strip_or cluster_id "gjallar-mvp") vmid operation_type ≡ ok tt)
      × (configuration_holder (strip_or cluster_id "gjallar-mvp") db.locks ≡ none)
unfolding acquired_row
acquire_admitted state before db lock_id now operation_type cluster_id vmid owner_id reason lock db'
      h =
    let (admitted, free, untaken, fresh, given, stored) =
      insert_lock-eq-ok state db
        (new_row state before db lock_id now operation_type cluster_id vmid owner_id reason) vmid
        lock db'
        (acquire-eq-ok state before db lock_id now operation_type cluster_id vmid owner_id reason
          lock db' h) in
    (admitted, free)
