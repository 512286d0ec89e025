-- ===== src/Recovery/Commit/Locks.antt =====
-- The lock table under the writes of `commit_observation` in
-- backend/app/operations/recovery/infrastructure/repository.py.
use gjallar.Prelude.{
  ℕ, ◌+◌, ◌≤◌, ◌≡◌, refl, sym, subst, ap, ◌∙◌, String, Bool, true, false, not, inl, inr, none, some,
  List, [], ◌∷◌, All, All-map, arith, ◌==◌, str_eq_iff, str_eq_refl, Bool-cases, if◌then◌else◌,
}
use gjallar.Database.{OperationLockRecord, find_lock, store_lock, is_open}
use gjallar.Lock.{holds_locator}
use gjallar.Lock.Exclusion.{open_count}
use gjallar.Recovery.Commit.{write_locks}

pub store_lock_self :
    (new : OperationLockRecord) (table : List OperationLockRecord) (x : OperationLockRecord)
    → find_lock new.operation_lock_id table ≡ some x
    → find_lock new.operation_lock_id (store_lock new table) ≡ some new
unfolding find_lock store_lock
store_lock_self new [] x h = cc
store_lock_self new (y ∷ table) x h =
    ground (arith, str_eq_refl new.operation_lock_id, store_lock_self new table x)

pub store_lock-ne :
    (id : String) (new : OperationLockRecord) (table : List OperationLockRecord)
    → (new.operation_lock_id == id) ≡ false
    → find_lock id (store_lock new table) ≡ find_lock id table
unfolding find_lock store_lock
store_lock-ne id new [] h = refl
store_lock-ne id new (y ∷ table) h = ground (
  arith,
  str_eq_iff y.operation_lock_id id,
  str_eq_iff y.operation_lock_id new.operation_lock_id,
  str_eq_iff new.operation_lock_id id,
  store_lock-ne id new table h,
)

abbrev pub held_by : String → OperationLockRecord → ℕ
held_by key row = if holds_locator key row then 1 else 0

open_count-store :
    (key : String) (new : OperationLockRecord) (table : List OperationLockRecord)
    (x : OperationLockRecord)
    → find_lock new.operation_lock_id table ≡ some x
    → open_count key (store_lock new table) + held_by key x ≡ open_count key table + held_by key new
unfolding find_lock store_lock open_count
open_count-store key new [] x h = cc
open_count-store key new (y ∷ table) x h =
    elim (Bool-cases (y.operation_lock_id == new.operation_lock_id)) [
      | inl mine ↦ let e : y ≡ x = cc (rw mine at h) in ground (arith, mine, e)
      | inr other ↦ ground (arith, other, open_count-store key new table x (rw other at h))
    ]

open_count-close :
    (key : String) (new : OperationLockRecord) (table : List OperationLockRecord)
    → holds_locator key new ≡ false
    → open_count key (store_lock new table) ≤ open_count key table
unfolding store_lock open_count
open_count-close key new [] h = omega arith
open_count-close key new (y ∷ table) h = ground (arith, open_count-close key new table h)

pub open_count-closed :
    (key : String) (f : OperationLockRecord → OperationLockRecord)
    (locks table : List OperationLockRecord)
    → ((l : OperationLockRecord) → holds_locator key (f l) ≡ false)
    → open_count key (write_locks f locks table) ≤ open_count key table
unfolding write_locks
open_count-closed key f [] table h = omega arith
open_count-closed key f (l ∷ locks) table h = omega (
  arith,
  open_count-closed key f locks (store_lock (f l) table) h,
  open_count-close key (f l) table (h l),
)

-- The row of the lock's id holds a locator exactly where the written row does.
abbrev pub IsKept :
    String
    → (OperationLockRecord → OperationLockRecord)
    → List OperationLockRecord
    → OperationLockRecord
    → Type 0
IsKept key f table l =
    (x : OperationLockRecord) × (find_lock (f l).operation_lock_id table ≡ some x)
    × (held_by key x ≡ held_by key (f l))

IsKept-store :
    (key : String) (f : OperationLockRecord → OperationLockRecord)
    (table : List OperationLockRecord) (l m : OperationLockRecord)
    → IsKept key f table l
    → IsKept key f table m
    → IsKept key f (store_lock (f l) table) m
IsKept-store key f table l m (x, found, same) (y, found', same') =
    elim (Bool-cases ((f l).operation_lock_id == (f m).operation_lock_id)) [
      | inr other ↦ (y, store_lock-ne (f m).operation_lock_id (f l) table other ∙ found', same')
      | inl mine ↦
          let e = (str_eq_iff (f l).operation_lock_id (f m).operation_lock_id).0 mine in
          let xy : x ≡ y = cc (found, found', e) in
          (
            f l,
            subst (λ i. find_lock i (store_lock (f l) table) ≡ some (f l)) e
                (store_lock_self (f l) table x found),
            sym same ∙ ap (held_by key) xy ∙ same',
          )
    ]

pub open_count-kept :
    (key : String) (f : OperationLockRecord → OperationLockRecord)
    (locks table : List OperationLockRecord)
    → All (IsKept key f table) locks
    → open_count key (write_locks f locks table) ≡ open_count key table
unfolding write_locks
open_count-kept key f [] table a = refl
open_count-kept key f (l ∷ locks) table a =
    let (x, found, same) = a.0 in
    let once = open_count-store key (f l) table x found in
    let rest = open_count-kept key f locks (store_lock (f l) table) (
      All-map (IsKept key f table) (IsKept key f (store_lock (f l) table)) locks
        (λ m k. IsKept-store key f table l m a.0 k) a.1) in
    omega (arith, once, rest, same)

-- A row whose id no written row has stays as it was.
pub write_locks-other :
    (id : String) (f : OperationLockRecord → OperationLockRecord)
    (locks table : List OperationLockRecord)
    → All (λ (l : OperationLockRecord). ((f l).operation_lock_id == id) ≡ false) locks
    → find_lock id (write_locks f locks table) ≡ find_lock id table
unfolding write_locks
write_locks-other id f [] table a = refl
write_locks-other id f (l ∷ locks) table a =
    write_locks-other id f locks (store_lock (f l) table) a.1 ∙ store_lock-ne id (f l) table a.0

-- No open row has the id.
abbrev pub is_closed : String → List OperationLockRecord → Bool
is_closed id table = elim (find_lock id table) [ none ↦ true | some x ↦ not (is_open x.status) ]

is_closed-store_self :
    (new : OperationLockRecord) (table : List OperationLockRecord)
    → is_open new.status ≡ false
    → is_closed new.operation_lock_id (store_lock new table) ≡ true
unfolding find_lock store_lock
is_closed-store_self new [] h = refl
is_closed-store_self new (y ∷ table) h =
    ground (arith, h, str_eq_refl new.operation_lock_id, is_closed-store_self new table h)

is_closed-store :
    (id : String) (new : OperationLockRecord) (table : List OperationLockRecord)
    → is_open new.status ≡ false
    → is_closed id table ≡ true
    → is_closed id (store_lock new table) ≡ true
is_closed-store id new table h c = elim (Bool-cases (new.operation_lock_id == id)) [
  | inl mine ↦
      subst (λ i. is_closed i (store_lock new table) ≡ true)
        ((str_eq_iff new.operation_lock_id id).0 mine) (is_closed-store_self new table h)
  | inr other ↦ ground (arith, c, store_lock-ne id new table other)
]

is_closed-write :
    (id : String) (f : OperationLockRecord → OperationLockRecord)
    (locks table : List OperationLockRecord)
    → ((l : OperationLockRecord) → is_open (f l).status ≡ false)
    → is_closed id table ≡ true
    → is_closed id (write_locks f locks table) ≡ true
unfolding write_locks
is_closed-write id f [] table h c = c
is_closed-write id f (l ∷ locks) table h c =
    is_closed-write id f locks (store_lock (f l) table) h (is_closed-store id (f l) table (h l) c)

-- Where the written rows are closed, so is each of their ids.
pub write_locks-closed :
    (f : OperationLockRecord → OperationLockRecord) (locks table : List OperationLockRecord)
    → ((l : OperationLockRecord) → is_open (f l).status ≡ false)
    → All
        (λ (l : OperationLockRecord).
          is_closed (f l).operation_lock_id (write_locks f locks table) ≡ true)
        locks
unfolding write_locks
write_locks-closed f [] table h = tt
write_locks-closed f (l ∷ locks) table h = (
  is_closed-write (f l).operation_lock_id f locks (store_lock (f l) table) h
      (is_closed-store_self (f l) table (h l)),
  write_locks-closed f locks (store_lock (f l) table) h,
)
