-- ===== src/Lock/Refines/Runs.antt =====
-- The lock operations of backend/app/operations/locks/infrastructure/repository.py as
-- runs of the abstract map from locator keys to owners.
use gjallar.Prelude.{
  ℕ, ◌≡◌, ◌≢◌, refl, sym, subst, ap, ◌∙◌, String, true, false, ◌&&◌, inl, inr, none, some, List, [],
  ◌∷◌, ◌++◌, arith, ◌==◌, str_eq_iff, str_eq_refl, Bool-cases, Option-cases,
}
use gjallar.Database.{OperationLockRecord, Database, find_lock, replace_lock, is_locator}
use gjallar.Lock.{
  DurableTargetLock, locator_scope_key, released_row, release, find_owned, owned_by, holds_locator,
  acquired_row, release_owned,
}
use gjallar.Lock.Exclusion.{IsExclusive, acquire-eq-ok, insert_lock-eq-ok, new_row}
use gjallar.Lock.Release.{
  Reach-IsExclusive, Step, acquired, released_lock, released_for_owner, Reach, here, next,
  release-cases,
}
use gjallar.Lock.Refines.{
  Call, take, give_back, give_back_owned, Performs, is_vm_lock, call_of, calls_of, CallRuns, done,
  then_call, holders, IsKeyed,
}
use gjallar.Lock.Refines.Writes.{holders-free, holders-append, replace-frees, replace-Stays}

find_lock-append :
    (key : String) (new : OperationLockRecord) (rows : List OperationLockRecord)
    → find_lock key rows ≡ none
    → (new.operation_lock_id == key) ≡ false
    → find_lock key (rows ++ new ∷ []) ≡ none
unfolding find_lock
find_lock-append key new [] h n = ground (arith, n)
find_lock-append key new (x ∷ rows) h n = ground (arith, h, n, find_lock-append key new rows)

append-IsKeyed :
    (new : OperationLockRecord) (rows : List OperationLockRecord)
    → IsKeyed rows
    → find_lock new.operation_lock_id rows ≡ none
    → IsKeyed (rows ++ new ∷ [])
unfolding IsKeyed find_lock
append-IsKeyed new [] u h = (refl, tt)
append-IsKeyed new (x ∷ rows) u h =
    let differs : (x.operation_lock_id == new.operation_lock_id) ≡ false = ground (arith, h) in
    let apart : (new.operation_lock_id == x.operation_lock_id) ≡ false = ground (
      arith,
      differs,
      str_eq_iff x.operation_lock_id new.operation_lock_id,
      str_eq_iff new.operation_lock_id x.operation_lock_id,
    ) in
    (
      find_lock-append x.operation_lock_id new rows u.0 apart,
      append-IsKeyed new rows u.1 (ground (arith, h, differs)),
    )

find_lock-replace :
    (key : String) (new : OperationLockRecord) (rows : List OperationLockRecord)
    → find_lock key rows ≡ none
    → find_lock key (replace_lock new rows) ≡ none
unfolding find_lock replace_lock
find_lock-replace key new [] h = refl
find_lock-replace key new (x ∷ rows) h =
    ground (
      arith,
      h,
      find_lock-replace key new rows,
      str_eq_iff x.operation_lock_id new.operation_lock_id,
    )

replace-IsKeyed :
    (new : OperationLockRecord) (rows : List OperationLockRecord)
    → IsKeyed rows
    → IsKeyed (replace_lock new rows)
unfolding IsKeyed replace_lock
replace-IsKeyed new [] u = tt
replace-IsKeyed new (x ∷ rows) u =
    elim (Bool-cases (x.operation_lock_id == new.operation_lock_id)) [
      | inl mine ↦ rw mine (
        subst (λ k. find_lock k (replace_lock new rows) ≡ none)
            ((str_eq_iff x.operation_lock_id new.operation_lock_id).0 mine)
            (find_lock-replace x.operation_lock_id new rows u.0),
        replace-IsKeyed new rows u.1,
      )
      | inr other ↦
          rw other
            (find_lock-replace x.operation_lock_id new rows u.0, replace-IsKeyed new rows u.1)
    ]

-- The row that `release_owned` reads is the row of its id.
find_owned-keyed :
    (key owner_id : String) (rows : List OperationLockRecord) (row : OperationLockRecord)
    → IsKeyed rows
    → find_owned key owner_id rows ≡ some row
    → find_lock row.operation_lock_id rows ≡ some row
unfolding IsKeyed find_lock find_owned
find_owned-keyed key owner_id [] row u h = cc
find_owned-keyed key owner_id (x ∷ rows) row u h = elim (Bool-cases (owned_by key owner_id x)) [
  | inl mine ↦
      let e : x ≡ row = cc (rw mine at h) in
      subst (λ (r : OperationLockRecord). find_lock r.operation_lock_id (x ∷ rows) ≡ some r) e
        (rw (str_eq_refl x.operation_lock_id) refl)
  | inr other ↦
      let rest = find_owned-keyed key owner_id rows row u.1 (rw other at h) in
      elim (Bool-cases (x.operation_lock_id == row.operation_lock_id)) [
        | inl same ↦
            let gone =
              subst (λ k. find_lock k rows ≡ none)
                ((str_eq_iff x.operation_lock_id row.operation_lock_id).0 same) u.0 in
            cc (rest, gone)
        | inr apart ↦ rw apart rest
      ]
]

find_owned-holds :
    (key owner_id : String) (rows : List OperationLockRecord) (row : OperationLockRecord)
    → find_owned key owner_id rows ≡ some row
    → owned_by key owner_id row ≡ true
unfolding find_owned
find_owned-holds key owner_id [] row h = cc
find_owned-holds key owner_id (x ∷ rows) row h = elim (Bool-cases (owned_by key owner_id x)) [
  | inl mine ↦
      let e : x ≡ row = cc (rw mine at h) in
      subst (λ (r : OperationLockRecord). owned_by key owner_id r ≡ true) e mine
  | inr other ↦ find_owned-holds key owner_id rows row (rw other at h)
]

-- Where `release_owned` reads no row, the owner does not hold the locator.
find_owned-holders :
    (key owner_id : String) (rows : List OperationLockRecord)
    → find_owned key owner_id rows ≡ none
    → holders rows key ≢ some owner_id
unfolding find_owned holders
find_owned-holders key owner_id [] h = λ e. cc e
find_owned-holders key owner_id (x ∷ rows) h = λ e. elim (Bool-cases (owned_by key owner_id x)) [
  | inl mine ↦ ground (arith, h, mine)
  | inr other ↦ elim (Bool-cases (holds_locator key x)) [
    | inl holds ↦ ground (arith, e, holds, other, str_eq_iff x.owner_id owner_id)
    | inr shut ↦ find_owned-holders key owner_id rows (rw other at h) (rw shut at e)
  ]
]

-- What a committed call of the lock repository keeps and does to the abstract map.
record Refined (call : Call) (db db' : Database) : Type 0 where
  keyed : IsKeyed db'.locks
  performs : Performs call (holders db.locks) (holders db'.locks)

release-Refined :
    (now : ℕ) (lock : DurableTargetLock) (reason : String) (db : Database)
    → IsKeyed db.locks
    → IsExclusive db.locks
    → Refined
        (give_back lock.scope_key lock.owner_id
          ((release now lock reason db).0 && is_vm_lock lock.lock_id db.locks))
        db
        (release now lock reason db).1
release-Refined now lock reason db u x = elim (release-cases now lock reason db) [
  | inl same ↦ rw same (record { keyed = u; performs = λ k. refl })
  | inr r ↦
      let kept = replace-IsKeyed (released_row now reason r.row) db.locks u in
      elim (Bool-cases (is_locator r.row.scope_type)) [
        | inl locator ↦
            let freed =
              replace-frees lock.scope_key lock.lock_id now reason db.locks r.row u x r.found (
                let s = r.scope in
                let o = r.open_row in
                ground (arith, locator, o, str_eq_iff r.row.scope_key lock.scope_key)) in
            rw (r.written, r.found, locator, is_vm_lock)
              (record { keyed = kept; performs = (freed.0 ∙ ap some r.owner, freed.1) })
        | inr other ↦
            rw (r.written, r.found, other, is_vm_lock)
              (record {
                keyed = kept;
                performs = replace-Stays lock.lock_id now reason db.locks r.row u r.found other;
              })
      ]
]

release_owned-Refined :
    (now : ℕ) (cluster_id : String) (vmid : ℕ) (owner_id reason : String) (db : Database)
    → IsKeyed db.locks
    → IsExclusive db.locks
    → Refined
        (give_back_owned (locator_scope_key cluster_id vmid) owner_id)
        db
        (release_owned now cluster_id vmid owner_id reason db).1
unfolding release_owned
release_owned-Refined now cluster_id vmid owner_id reason db u x =
    let key = locator_scope_key cluster_id vmid in
    elim (Option-cases (find_owned key owner_id db.locks)) [
      | inl missing ↦
          rw (missing, release_owned)
            (record {
              keyed = u;
              performs = inr (find_owned-holders key owner_id db.locks missing, λ k. refl);
            })
      | inr (row, found) ↦
          let holds = find_owned-holds key owner_id db.locks row found in
          let mine : row.owner_id ≡ owner_id =
            ground (arith, holds, str_eq_iff row.owner_id owner_id) in
          let freed =
            replace-frees key row.operation_lock_id now reason db.locks row u x
              (find_owned-keyed key owner_id db.locks row u found) (ground (arith, holds)) in
          rw (found, release_owned)
            (record {
              keyed = replace-IsKeyed (released_row now reason row) db.locks u;
              performs = inl (freed.0 ∙ ap some mine, freed.1);
            })
    ]

Step-Refined :
    {db db' : Database}
    → IsKeyed db.locks
    → IsExclusive db.locks
    → (s : Step db db') → Refined (call_of s) db db'
unfolding acquired_row
Step-Refined {db} {db'} u x
      (acquired state before lock_id now operation_type cluster_id vmid owner_id reason lock h) =
    let row = new_row state before db lock_id now operation_type cluster_id vmid owner_id reason in
    let (admitted, free, untaken, fresh, given, stored) =
      insert_lock-eq-ok state db row vmid lock db' (
        acquire-eq-ok state before db lock_id now operation_type cluster_id vmid owner_id reason
          lock db' h) in
    subst (Refined (take row.scope_key row.owner_id) db) (sym stored) (record {
      keyed = append-IsKeyed row db.locks u fresh;
      performs = (
        holders-free row.scope_key db.locks untaken,
        λ k. holders-append k db.locks row untaken refl refl,
      );
    })
Step-Refined {db} u x (released_lock now lock reason e) =
    subst
      (Refined
        (give_back lock.scope_key lock.owner_id
          ((release now lock reason db).0 && is_vm_lock lock.lock_id db.locks))
        db)
      e (release-Refined now lock reason db u x)
Step-Refined {db} u x (released_for_owner now cluster_id vmid owner_id reason e) =
    subst (Refined (give_back_owned (locator_scope_key cluster_id vmid) owner_id) db) e
      (release_owned-Refined now cluster_id vmid owner_id reason db u x)

Reach-IsKeyed :
    {db db' : Database} → IsKeyed db.locks → IsExclusive db.locks → Reach db db' → IsKeyed db'.locks
Reach-IsKeyed u x here = u
Reach-IsKeyed u x (next r s) = (Step-Refined (Reach-IsKeyed u x r) (Reach-IsExclusive x r) s).keyed

-- From a table whose ids are keys and with at most one open lock on each locator, every run of
-- `acquire`, `release` and `release_owned` is the run of the same calls on the map from locators to
-- their owners: an acquisition takes the locator of its arguments, free until then, for its owner; an
-- accepted release of a VM's lock frees the lock's locator, held by the lock's owner, and any other
-- changes nothing; a release for an owner frees the locator of its arguments exactly where that owner
-- holds it.
pub Reach-refines :
    {db db' : Database}
    → IsKeyed db.locks
    → IsExclusive db.locks
    → (r : Reach db db') → CallRuns (holders db.locks) (calls_of r) (holders db'.locks)
Reach-refines u x here = done
Reach-refines u x (next r s) =
    then_call (calls_of r) (call_of s) (Reach-refines u x r)
      (Step-Refined (Reach-IsKeyed u x r) (Reach-IsExclusive x r) s).performs
