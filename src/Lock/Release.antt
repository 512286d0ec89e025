-- ===== src/Lock/Release.antt =====
-- `release` and `release_owned` of backend/app/operations/locks/infrastructure/repository.py, and
-- every table that the lock operations reach.
use gjallar.Prelude.{
  ℕ, ◌+◌, ◌≤◌, ◌≡◌, refl, sym, subst, ap, ◌∙◌, String, Bool, true, false, not, ◌||◌, ◌⊎◌, inl, inr,
  some, List, [], ◌∷◌, arith, ◌==◌, str_eq_iff, str_eq_refl, Bool-cases, Option-cases,
}
use mathlib.Core.Bool.{false≢true}
use gjallar.Result.{ok}
use gjallar.Database.{OperationLockRecord, Database, find_lock, replace_lock, is_open, is_locator}
use gjallar.Setup.{SetupState}
use gjallar.Lock.{
  DurableTargetLock, locator_scope_key, holds_locator, acquire, released_row, release, find_owned,
  release_owned, locator_taken,
}
use gjallar.Lock.Exclusion.{open_count, IsExclusive, acquire-IsExclusive}

-- A write of a row that holds nothing opens no lock.
open_count-replace :
    (key : String) (new : OperationLockRecord) (rows : List OperationLockRecord)
    → holds_locator key new ≡ false
    → open_count key (replace_lock new rows) ≤ open_count key rows
unfolding open_count replace_lock
open_count-replace key new [] h = omega arith
open_count-replace key new (x ∷ rows) h = ground (arith, open_count-replace key new rows h)

pub released_holds_none :
    (key : String) (now : ℕ) (reason : String) (row : OperationLockRecord)
    → holds_locator key (released_row now reason row) ≡ false
released_holds_none key now reason row = ground arith

replace_released-IsExclusive :
    (now : ℕ) (reason : String) (row : OperationLockRecord) (rows : List OperationLockRecord)
    → IsExclusive rows
    → IsExclusive (replace_lock (released_row now reason row) rows)
replace_released-IsExclusive now reason row rows x = record {
  at_most_one = λ key.
      let old = x.at_most_one key in
      omega (
        arith,
        open_count-replace key (released_row now reason row) rows
            (released_holds_none key now reason row),
      );
}

-- What a release does: nothing, or the write to the open row of the lock's id, owner and locator.
pub record Released (now : ℕ) (lock : DurableTargetLock) (reason : String) (db : Database)
    : Type 0 where
  pub row : OperationLockRecord
  pub found : find_lock lock.lock_id db.locks ≡ some row
  pub open_row : is_open row.status ≡ true
  pub owner : row.owner_id ≡ lock.owner_id
  pub scope : row.scope_key ≡ lock.scope_key
  pub written :
      release now lock reason db
      ≡ (true, record db { locks = replace_lock (released_row now reason row) db.locks })

abbrev mismatch : DurableTargetLock → OperationLockRecord → Bool
mismatch lock row =
    not (is_open row.status)
    || not (row.owner_id == lock.owner_id)
    || not (row.scope_key == lock.scope_key)

pub release-cases :
    (now : ℕ) (lock : DurableTargetLock) (reason : String) (db : Database)
    → (release now lock reason db ≡ (false, db)) ⊎ Released now lock reason db
unfolding release
release-cases now lock reason db = elim (Option-cases (find_lock lock.lock_id db.locks)) [
  | inl missing ↦ inl (ground (arith, missing))
  | inr (row, found) ↦ elim (Bool-cases (mismatch lock row)) [
    | inl differs ↦ inl (ground (arith, found, differs))
    | inr same ↦ inr (record {
      row = row;
      found = found;
      open_row = ground (arith, same);
      owner = ground (arith, same, str_eq_iff row.owner_id lock.owner_id);
      scope = ground (arith, same, str_eq_iff row.scope_key lock.scope_key);
      written = ground (arith, found, same);
    })
  ]
]

-- A release keeps at most one open lock on each locator.
pub release-IsExclusive :
    (now : ℕ) (lock : DurableTargetLock) (reason : String) (db : Database)
    → IsExclusive db.locks
    → IsExclusive (release now lock reason db).1.locks
release-IsExclusive now lock reason db x = elim (release-cases now lock reason db) [
  | inl same ↦ rw same x
  | inr r ↦ rw r.written (replace_released-IsExclusive now reason r.row db.locks x)
]

pub release_owned-IsExclusive :
    (now : ℕ) (cluster_id : String) (vmid : ℕ) (owner_id reason : String) (db : Database)
    → IsExclusive db.locks
    → IsExclusive (release_owned now cluster_id vmid owner_id reason db).1.locks
unfolding release_owned
release_owned-IsExclusive now cluster_id vmid owner_id reason db x =
    elim (Option-cases (find_owned (locator_scope_key cluster_id vmid) owner_id db.locks)) [
      | inl missing ↦ rw (missing, release_owned) x
      | inr (row, found) ↦
          rw (found, release_owned) (replace_released-IsExclusive now reason row db.locks x)
    ]

-- One committed call of the lock repository, with what it read and when.
pub data Step (db db' : Database) : Type 0 where
  acquired :
      (state : SetupState) (before : Database) (lock_id : String) (now : ℕ)
      (operation_type cluster_id : String) (vmid : ℕ) (owner_id reason : String)
      (lock : DurableTargetLock)
      → acquire state before db lock_id now operation_type cluster_id vmid owner_id reason
        ≡ ok (lock, db')
      → Step db db'
  released_lock :
      (now : ℕ) (lock : DurableTargetLock) (reason : String)
      → (release now lock reason db).1 ≡ db'
      → Step db db'
  released_for_owner :
      (now : ℕ) (cluster_id : String) (vmid : ℕ) (owner_id reason : String)
      → (release_owned now cluster_id vmid owner_id reason db).1 ≡ db'
      → Step db db'

pub data Reach (db : Database) : Database → Type 0 where
  here : Reach db db
  next : {db' db'' : Database} → Reach db db' → Step db' db'' → Reach db db''

pub Step-IsExclusive :
    {db db' : Database} → Step db db' → IsExclusive db.locks → IsExclusive db'.locks
Step-IsExclusive {db} {db'}
      (acquired state before lock_id now operation_type cluster_id vmid owner_id reason lock h) x =
    acquire-IsExclusive state before db lock_id now operation_type cluster_id vmid owner_id reason
      lock db' x h
Step-IsExclusive {db} (released_lock now lock reason e) x =
    subst (λ (d : Database). IsExclusive d.locks) e (release-IsExclusive now lock reason db x)
Step-IsExclusive {db} (released_for_owner now cluster_id vmid owner_id reason e) x =
    subst (λ (d : Database). IsExclusive d.locks) e
      (release_owned-IsExclusive now cluster_id vmid owner_id reason db x)

-- From a table with at most one open lock on each locator, whatever calls commit, in whatever order,
-- at most one lock is open on each locator.
pub Reach-IsExclusive :
    {db db' : Database} → IsExclusive db.locks → Reach db db' → IsExclusive db'.locks
Reach-IsExclusive x here = x
Reach-IsExclusive x (next r s) = Step-IsExclusive s (Reach-IsExclusive x r)

pub open_count-found :
    (key id : String) (rows : List OperationLockRecord) (row : OperationLockRecord)
    → find_lock id rows ≡ some row
    → holds_locator key row ≡ true
    → 1 ≤ open_count key rows
unfolding open_count find_lock
open_count-found key id [] row h o = cc
open_count-found key id (x ∷ rows) row h o = ground (arith, open_count-found key id rows row)

-- Releasing the one open lock of a locator leaves it with none.
pub open_count-released :
    (key id : String) (new : OperationLockRecord) (rows : List OperationLockRecord)
    (row : OperationLockRecord)
    → find_lock id rows ≡ some row
    → new.operation_lock_id ≡ id
    → holds_locator key row ≡ true
    → holds_locator key new ≡ false
    → open_count key rows ≤ 1
    → open_count key (replace_lock new rows) ≡ 0
unfolding open_count find_lock replace_lock
open_count-released key id new [] row h i o n b = cc
open_count-released key id new (x ∷ rows) row h i o n b =
    elim (Bool-cases (x.operation_lock_id == id)) [
      | inl mine ↦
          let e : x ≡ row = cc (rw mine at h) in
          let holds : holds_locator key x ≡ true = rw e o in
          let same : (x.operation_lock_id == new.operation_lock_id) ≡ true = rw i mine in
          rw (same, n)
            (let le = open_count-replace key new rows n in
              let first : open_count key rows + 1 ≤ 1 = rw holds at b in omega arith)
      | inr other ↦
          let differs : (x.operation_lock_id == new.operation_lock_id) ≡ false = rw i other in
          let later = rw other at h in
          let some_left = open_count-found key id rows row later o in
          elim (Bool-cases (holds_locator key x)) [
            | inl holds ↦
                let two : open_count key rows + 1 ≤ 1 = rw holds at b in absurd (omega arith)
            | inr free ↦
                rw (differs, free)
                  (open_count-released key id new rows row later i o n (rw free at b))
          ]
    ]

pub locator_taken-none :
    (key : String) (rows : List OperationLockRecord)
    → open_count key rows ≡ 0
    → locator_taken key rows ≡ false
unfolding open_count
locator_taken-none key [] h = refl
locator_taken-none key (x ∷ rows) h = ground (arith, locator_taken-none key rows)

pub find_lock-id :
    (id : String) (rows : List OperationLockRecord) (row : OperationLockRecord)
    → find_lock id rows ≡ some row
    → row.operation_lock_id ≡ id
unfolding find_lock
find_lock-id id [] row h = cc
find_lock-id id (x ∷ rows) row h =
    ground (arith, str_eq_iff x.operation_lock_id id, find_lock-id id rows row)

-- Where at most one lock was open on each locator and a release of a VM lock says that it released,
-- its locator is free.
pub release_frees :
    (now : ℕ) (lock : DurableTargetLock) (reason : String) (db db' : Database)
    (row : OperationLockRecord)
    → IsExclusive db.locks
    → find_lock lock.lock_id db.locks ≡ some row
    → is_locator row.scope_type ≡ true
    → release now lock reason db ≡ (true, db')
    → locator_taken lock.scope_key db'.locks ≡ false
release_frees now lock reason db db' row x found vm h = elim (release-cases now lock reason db) [
  | inl same ↦ absurd (false≢true (ap (λ (r : Bool × Database). r.0) (sym same ∙ h)))
  | inr r ↦
      let e : r.row ≡ row = cc (r.found, found) in
      let new = released_row now reason r.row in
      let holds : holds_locator lock.scope_key r.row ≡ true =
        ground (arith, r.open_row, r.scope, rw (← e) at vm, str_eq_refl lock.scope_key) in
      let empty =
        open_count-released lock.scope_key lock.lock_id new db.locks r.row r.found
          (find_lock-id lock.lock_id db.locks r.row r.found) holds
          (released_holds_none lock.scope_key now reason r.row) (x.at_most_one lock.scope_key) in
      subst (λ (d : Database). locator_taken lock.scope_key d.locks ≡ false)
        (ap (λ (p : Bool × Database). p.1) (sym r.written ∙ h))
        (locator_taken-none lock.scope_key (replace_lock new db.locks) empty)
]
