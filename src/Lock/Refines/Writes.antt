-- ===== src/Lock/Refines/Writes.antt =====
-- The lock operations of backend/app/operations/locks/infrastructure/repository.py write
-- the table: what each write does to the holders of the locators.
use gjallar.Prelude.{
  ℕ, ◌+◌, ◌≤◌, ◌≡◌, refl, subst, ap, String, true, false, inl, inr, none, some, List, [], ◌∷◌, ◌++◌,
  arith, ◌==◌, str_eq_iff, Bool-cases, if◌then◌else◌,
}
use gjallar.Database.{OperationLockRecord, find_lock, replace_lock, is_open, is_locator}
use gjallar.Lock.{holds_locator, released_row, locator_taken}
use gjallar.Lock.Exclusion.{open_count, IsExclusive}
use gjallar.Lock.Release.{
  open_count-released, released_holds_none, locator_taken-none, find_lock-id, open_count-found,
}
use gjallar.Lock.Refines.{Sets, Stays, holders, IsKeyed}

pub holders-free :
    (key : String) (rows : List OperationLockRecord)
    → locator_taken key rows ≡ false
    → holders rows key ≡ none
unfolding holders
holders-free key [] h = refl
holders-free key (x ∷ rows) h = ground (arith, holders-free key rows)

pub holders-append :
    (key : String) (rows : List OperationLockRecord) (row : OperationLockRecord)
    → locator_taken row.scope_key rows ≡ false
    → is_locator row.scope_type ≡ true
    → is_open row.status ≡ true
    → holders (rows ++ row ∷ []) key
      ≡ (if row.scope_key == key then some row.owner_id else holders rows key)
unfolding holders
holders-append key [] row h l o = ground (arith, l, o)
holders-append key (x ∷ rows) row h l o = ground (
  arith,
  holders-append key rows row,
  l,
  o,
  h,
  str_eq_iff row.scope_key key,
  str_eq_iff x.scope_key key,
  str_eq_iff x.scope_key row.scope_key,
)

replace_lock-absent :
    (new : OperationLockRecord) (rows : List OperationLockRecord)
    → find_lock new.operation_lock_id rows ≡ none
    → replace_lock new rows ≡ rows
unfolding find_lock replace_lock
replace_lock-absent new [] h = refl
replace_lock-absent new (x ∷ rows) h = ground (arith, replace_lock-absent new rows)

-- A write leaves a locator alone that neither the old nor the new row holds.
pub holders-replace :
    (key id : String) (new row : OperationLockRecord) (rows : List OperationLockRecord)
    → IsKeyed rows
    → find_lock id rows ≡ some row
    → new.operation_lock_id ≡ id
    → holds_locator key row ≡ false
    → holds_locator key new ≡ false
    → holders (replace_lock new rows) key ≡ holders rows key
unfolding holders find_lock replace_lock IsKeyed
holders-replace key id new row [] u f i o n = refl
holders-replace key id new row (x ∷ rows) u f i o n =
    elim (Bool-cases (x.operation_lock_id == id)) [
      | inl mine ↦
          let e : x ≡ row = cc (rw mine at f) in
          let same : (x.operation_lock_id == new.operation_lock_id) ≡ true = rw i mine in
          let absent : find_lock new.operation_lock_id rows ≡ none =
            subst (λ k. find_lock k rows ≡ none)
              ((str_eq_iff x.operation_lock_id new.operation_lock_id).0 same) u.0 in
          let shut : holds_locator key x ≡ false = rw e o in
          rw (same, n, shut) (ap (λ r. holders r key) (replace_lock-absent new rows absent))
      | inr other ↦
          let differs : (x.operation_lock_id == new.operation_lock_id) ≡ false = rw i other in
          let rest = holders-replace key id new row rows u.1 (rw other at f) i o n in
          rw (differs, rest) refl
    ]

-- The one open row of a locator is its holder.
pub holders-found :
    (key id : String) (rows : List OperationLockRecord) (row : OperationLockRecord)
    → find_lock id rows ≡ some row
    → holds_locator key row ≡ true
    → open_count key rows ≤ 1
    → holders rows key ≡ some row.owner_id
unfolding holders find_lock open_count
holders-found key id [] row f h b = cc
holders-found key id (x ∷ rows) row f h b = elim (Bool-cases (x.operation_lock_id == id)) [
  | inl mine ↦
      let e : x ≡ row = cc (rw mine at f) in
      let holds : holds_locator key x ≡ true = rw e h in
      rw holds (ap (λ (r : OperationLockRecord). some r.owner_id) e)
  | inr other ↦
      let later = rw other at f in
      let left = open_count-found key id rows row later h in
      elim (Bool-cases (holds_locator key x)) [
        | inl holds ↦ let two : open_count key rows + 1 ≤ 1 = rw holds at b in absurd (omega arith)
        | inr shut ↦ rw shut (holders-found key id rows row later h (rw shut at b))
      ]
]

-- A release of an open row on a locator frees that locator and no other.
pub replace-frees :
    (key id : String) (now : ℕ) (reason : String) (rows : List OperationLockRecord)
    (row : OperationLockRecord)
    → IsKeyed rows
    → IsExclusive rows
    → find_lock id rows ≡ some row
    → holds_locator key row ≡ true
    → (holders rows key ≡ some row.owner_id)
      × Sets key none (holders rows) (holders (replace_lock (released_row now reason row) rows))
replace-frees key id now reason rows row u x f h =
    let new = released_row now reason row in
    let i = find_lock-id id rows row f in
    let once = x.at_most_one key in
    (
      holders-found key id rows row f h once,
      λ k. elim (Bool-cases (key == k)) [
        | inl same ↦
            let zero =
              open_count-released key id new rows row f i h (released_holds_none key now reason row)
                once in
            let free =
              holders-free key (replace_lock new rows)
                (locator_taken-none key (replace_lock new rows) zero) in
            rw same (
              subst (λ t. holders (replace_lock new rows) t ≡ none) ((str_eq_iff key k).0 same)
                free)
        | inr other ↦ rw other (
            holders-replace k id new row rows u f i
              (ground (arith, h, other, str_eq_iff row.scope_key key))
              (released_holds_none k now reason row))
      ],
    )

-- A release of a row that is no VM's changes no locator.
pub replace-Stays :
    (id : String) (now : ℕ) (reason : String) (rows : List OperationLockRecord)
    (row : OperationLockRecord)
    → IsKeyed rows
    → find_lock id rows ≡ some row
    → is_locator row.scope_type ≡ false
    → Stays (holders rows) (holders (replace_lock (released_row now reason row) rows))
replace-Stays id now reason rows row u f other = λ k.
    holders-replace k id (released_row now reason row) row rows u f (find_lock-id id rows row f)
      (ground (arith, other)) (released_holds_none k now reason row)
