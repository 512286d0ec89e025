-- ===== src/Recovery/Due.antt =====
-- `claim_due` of backend/app/operations/recovery/infrastructure/repository.py: which rows it takes.
use gjallar.Prelude.{
  ℕ, ◌≡◌, String, Bool, true, inl, inr, List, [], ◌∷◌, any, take, All, All-map, All-take, arith,
  ◌==◌, str_eq_refl, Bool-cases, ◌&&◌, not,
}
use gjallar.Database.{OperationRecoveryItemRecord}
use gjallar.Recovery.{is_due, insert_due, due_rows, due_before}

-- `find_recovery id rows is not None`
abbrev pub is_stored : String → List OperationRecoveryItemRecord → Bool
is_stored id rows = any (λ (row : OperationRecoveryItemRecord). row.operation_id == id) rows

All-insert_due {ℓ} :
    (P : OperationRecoveryItemRecord → Type ℓ) (row : OperationRecoveryItemRecord)
    (rows : List OperationRecoveryItemRecord)
    → P row
    → All P rows
    → All P (insert_due row rows)
unfolding insert_due
All-insert_due P row [] h a = (h, tt)
All-insert_due P row (x ∷ rows) h a = elim (Bool-cases (due_before row x)) [
  | inl first ↦ rw first (h, a)
  | inr later ↦ rw later (a.0, All-insert_due P row rows h a.1)
]

-- What holds of every row that is due and not locked, holds of every row of the query.
pub All-due_rows {ℓ} :
    (P : OperationRecoveryItemRecord → Type ℓ) (now : ℕ) (locked : String → Bool)
    (rows : List OperationRecoveryItemRecord)
    → All (λ row. (is_due now row && not (locked row.operation_id)) ≡ true → P row) rows
    → All P (due_rows now locked rows)
unfolding due_rows
All-due_rows P now locked [] a = tt
All-due_rows P now locked (row ∷ rows) a =
    elim (Bool-cases (is_due now row && not (locked row.operation_id))) [
      | inl taken ↦ rw taken (
          All-insert_due P row (due_rows now locked rows) (a.0 taken)
            (All-due_rows P now locked rows a.1))
      | inr passed ↦ rw passed (All-due_rows P now locked rows a.1)
    ]

pub All-is_stored :
    (rows : List OperationRecoveryItemRecord)
    → All (λ (row : OperationRecoveryItemRecord). is_stored row.operation_id rows ≡ true) rows
All-is_stored [] = tt
All-is_stored (x ∷ rows) = (
  ground (arith, str_eq_refl x.operation_id),
  All-map (λ (row : OperationRecoveryItemRecord). is_stored row.operation_id rows ≡ true)
      (λ (row : OperationRecoveryItemRecord). is_stored row.operation_id (x ∷ rows) ≡ true) rows
      (λ row h. ground arith) (All-is_stored rows),
)

-- Every row that `claim_due` takes is stored.
pub taken-is_stored :
    (now limit : ℕ) (locked : String → Bool) (rows : List OperationRecoveryItemRecord)
    → All
        (λ (row : OperationRecoveryItemRecord). is_stored row.operation_id rows ≡ true)
        (take limit (due_rows now locked rows))
taken-is_stored now limit locked rows =
    let P = λ (row : OperationRecoveryItemRecord). is_stored row.operation_id rows ≡ true in
    All-take P limit (due_rows now locked rows) (
      All-due_rows P now locked rows (
        All-map P (λ row. (is_due now row && not (locked row.operation_id)) ≡ true → P row) rows
          (λ row h d. h) (All-is_stored rows)))
