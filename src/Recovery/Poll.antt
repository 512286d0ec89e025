-- ===== src/Recovery/Poll.antt =====
-- `claim_due` of backend/app/operations/recovery/infrastructure/repository.py: its bound, and the items it leaves alone.
use gjallar.Prelude.{
  ℕ, suc, ◌≤◌, ◌≡◌, refl, String, Bool, true, false, List, [], ◌∷◌, take, length, All, All-take,
  length-take, arith, ◌==◌, ◌&&◌, not, ap, ◌∙◌, max, ◌<◌, none, some, inl, inr, All-map, Bool-cases,
  str_eq_iff,
}
use gjallar.Prelude.Text.{strip}
use gjallar.Result.{ok}
use gjallar.Database.{
  Database, OperationRecoveryItemRecord, find_recovery, leased, paused, completed,
}
use gjallar.Recovery.{
  RecoveryLease, is_due, due_rows, claim_with, claim_rows, claim_due, claimed_row, bounded_limit,
}
use gjallar.Recovery.Due.{All-due_rows}
use gjallar.Recovery.Generation.{claims, find-update_recovery_ne}
use gjallar.Recovery.Steps.{claim_due-eq-ok}

length-claim_rows :
    (now : ℕ) (owner : String) (lease_time : ℕ) (tokens : ℕ → String)
    (rows : List OperationRecoveryItemRecord) (db : Database)
    → length (claim_rows now owner lease_time tokens rows db).0 ≡ length rows
unfolding claim_rows
length-claim_rows now owner lease_time tokens [] db = refl
length-claim_rows now owner lease_time tokens (row ∷ rows) db =
    ap suc (length-claim_rows now owner lease_time tokens rows _)

-- The row is of another item.
abbrev pub IsOther : String → OperationRecoveryItemRecord → Type 0
IsOther id row = (row.operation_id == id) ≡ false

-- The loop leaves an item alone that none of its rows is of.
claim_rows-other :
    (now : ℕ) (owner : String) (lease_time : ℕ) (tokens : ℕ → String) (id : String)
    (rows : List OperationRecoveryItemRecord) (db : Database)
    → All (IsOther id) rows
    → (find_recovery id (claim_rows now owner lease_time tokens rows db).1.recovery_items
        ≡ find_recovery id db.recovery_items)
      × (claims id (claim_rows now owner lease_time tokens rows db).0 ≡ false)
unfolding claim_rows claim_with
claim_rows-other now owner lease_time tokens id [] db a = (refl, refl)
claim_rows-other now owner lease_time tokens id (row ∷ rows) db a =
    let f = claimed_row now owner (tokens (length rows)) lease_time in
    let (kept, none_of) =
      claim_rows-other now owner lease_time tokens id rows
        (claim_with (tokens (length rows)) row f db).1 a.1 in
    (
      kept ∙ find-update_recovery_ne id row.operation_id f db.recovery_items (λ r. refl) a.0,
      ground (arith, none_of, a.0),
    )

-- A poll leases at most ten items, and at most the limit where that is 1 or more.
pub claim_due-bounded :
    (now : ℕ) (tokens : ℕ → String) (locked : String → Bool) (owner : String) (lease_time limit : ℕ)
    (db : Database) (leases : List RecoveryLease) (db' : Database)
    → claim_due now tokens locked owner lease_time limit db ≡ ok (leases, db')
    → (length leases ≤ 10) × (length leases ≤ max 1 limit)
claim_due-bounded now tokens locked owner lease_time limit db leases db' h =
    let (l, stored) = claim_due-eq-ok now tokens locked owner lease_time limit db leases db' h in
    let rows = take (bounded_limit limit) (due_rows now locked db.recovery_items) in
    let n = length-claim_rows now (strip owner) lease_time tokens rows db in
    let m = length-take (bounded_limit limit) (due_rows now locked db.recovery_items) in
    let e = ap length l in ground (arith, n, m, e)

-- Why a poll at that time passes a row over.
pub data IsHeldBack (now : ℕ) (locked : String → Bool) (row : OperationRecoveryItemRecord)
    : Type 0 where
  not_yet : now < row.available_at → IsHeldBack now locked row
  live_lease :
      (t : ℕ)
      → row.status ≡ leased
      → row.lease_expires_at ≡ some t
      → now < t
      → IsHeldBack now locked row
  endless_lease : row.status ≡ leased → row.lease_expires_at ≡ none → IsHeldBack now locked row
  is_paused : row.status ≡ paused → IsHeldBack now locked row
  is_complete : row.status ≡ completed → IsHeldBack now locked row
  in_use : locked row.operation_id ≡ true → IsHeldBack now locked row

held_back-eq-false :
    (now : ℕ) (locked : String → Bool) (row : OperationRecoveryItemRecord)
    → IsHeldBack now locked row
    → (is_due now row && not (locked row.operation_id)) ≡ false
unfolding is_due
held_back-eq-false now locked row (not_yet late) = ground (arith, late)
held_back-eq-false now locked row (live_lease t status ends live) =
    rw (status, ends) (ground (arith, live))
held_back-eq-false now locked row (endless_lease status ends) = rw (status, ends) (ground arith)
held_back-eq-false now locked row (is_paused status) = rw status (ground arith)
held_back-eq-false now locked row (is_complete status) = rw status (ground arith)
held_back-eq-false now locked row (in_use held) = ground (arith, held)

held_back-IsOther :
    (now : ℕ) (locked : String → Bool) (id : String) (row : OperationRecoveryItemRecord)
    → (row.operation_id ≡ id → IsHeldBack now locked row)
    → (is_due now row && not (locked row.operation_id)) ≡ true
    → IsOther id row
held_back-IsOther now locked id row held due = elim (Bool-cases (row.operation_id == id)) [
  | inr other ↦ other
  | inl same ↦
      let passed =
        held_back-eq-false now locked row (held ((str_eq_iff row.operation_id id).0 same)) in
      cc (passed, due)
]

-- A poll leaves an item alone where each row of the item has its next attempt after that time, is
-- leased until after that time or without an end, is paused or completed, or is held by another
-- transaction: the item's row stays as it was, and no lease of the item is given out.
pub claim_due_only_due :
    (now : ℕ) (tokens : ℕ → String) (locked : String → Bool) (owner : String) (lease_time limit : ℕ)
    (db : Database) (leases : List RecoveryLease) (db' : Database) (id : String)
    → All
        (λ (row : OperationRecoveryItemRecord). row.operation_id ≡ id → IsHeldBack now locked row)
        db.recovery_items
    → claim_due now tokens locked owner lease_time limit db ≡ ok (leases, db')
    → (find_recovery id db'.recovery_items ≡ find_recovery id db.recovery_items)
      × (claims id leases ≡ false)
claim_due_only_due now tokens locked owner lease_time limit db leases db' id a h =
    let (l, stored) = claim_due-eq-ok now tokens locked owner lease_time limit db leases db' h in
    let rows = take (bounded_limit limit) (due_rows now locked db.recovery_items) in
    let others =
      All-map
        (λ (row : OperationRecoveryItemRecord). row.operation_id ≡ id → IsHeldBack now locked row)
        (λ row. (is_due now row && not (locked row.operation_id)) ≡ true → IsOther id row)
        db.recovery_items (held_back-IsOther now locked id) a in
    let (kept, none_of) = claim_rows-other now (strip owner) lease_time tokens id rows db (
      All-take (IsOther id) (bounded_limit limit) (due_rows now locked db.recovery_items)
        (All-due_rows (IsOther id) now locked db.recovery_items others)) in
    (
      ap (λ (d : Database). find_recovery id d.recovery_items) stored ∙ kept,
      ap (claims id) l ∙ none_of,
    )
