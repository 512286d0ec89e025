-- ===== src/Recovery.antt =====
-- backend/app/operations/recovery/domain.py and
-- backend/app/operations/recovery/infrastructure/repository.py: durable recovery items, the leases
-- on them, and the tests that fence a stale lease.
-- Times and durations are counted in microseconds. `now` is the clock's value and `token` the text
-- from `uuid.uuid4` at the call.
pub mod Item
pub mod Targets
pub mod Generation
pub mod Steps
pub mod Commit
pub mod Fencing
pub mod Exclusive
pub mod Poll
pub mod Due
use Prim.Native.String.{compare as compare_text}
use Prim.Native.Nat.{Ordering}
unfoldable pub use Item.*
use gjallar.Prelude.{
  ℕ, zero, suc, ◌+◌, min, max, String, Bool, true, false, not, ◌&&◌, ◌||◌, Option, none, some, List,
  [], ◌∷◌, ◌++◌, map, any, length, take, ltb, leb, nat_eq, ◌==◌, if◌then◌else◌,
}
use gjallar.Prelude.Text.{strip, is_blank}
use gjallar.Json.{Fields, merge}
use gjallar.Operation.Event.{Platform}
use gjallar.Operation.Store.{sanitized_mapping}
use gjallar.Result.{
  Result, ok, err, ◌>>=◌, ◌>>◌, raise_if, value_error, recovery_not_found, recovery_lease_lost,
  recovery_lease_busy, recovery_operation_conflict,
}
use gjallar.Database.{
  OperationRecord, Database, OperationRecoveryItemRecord, RecoveryStatus, pending, leased,
  retry_wait, completed, find_operation, find_recovery,
}

-- The row that `prepare_and_claim` inserts.
unfoldable pub first_row :
    Platform → ℕ → RecoverySpec → String → String → ℕ → OperationRecoveryItemRecord
first_row p now spec owner token lease_time = record {
  operation_id = spec.operation_id;
  recovery_kind = spec.recovery_kind;
  status = leased;
  available_at = now;
  lease_owner = some owner;
  lease_token = some token;
  lease_generation = 1;
  lease_expires_at = some (lease_expiry now lease_time);
  attempt_count = 1;
  last_error_code = none;
  details = sanitized_mapping p spec.details;
  created_at = now;
  updated_at = now;
  completed_at = none;
}

-- An existing row, claimed by `prepare_and_claim`.
unfoldable pub prepared_row :
    Platform
    → ℕ
    → RecoverySpec
    → String
    → String
    → ℕ
    → OperationRecoveryItemRecord
    → OperationRecoveryItemRecord
prepared_row p now spec owner token lease_time row =
    record (claimed_row now owner token lease_time row) {
      available_at = now;
      details = merge row.details (sanitized_mapping p spec.details);
    }

-- An existing row, claimed by `claim_operation`.
unfoldable pub observed_row :
    ℕ → String → String → ℕ → OperationRecoveryItemRecord → OperationRecoveryItemRecord
observed_row now owner token lease_time row = record (claimed_row now owner token lease_time row) {
  available_at = now;
}

-- The row after the write, as a lease on it and the database.
unfoldable pub claim_with :
    String
    → OperationRecoveryItemRecord
    → (OperationRecoveryItemRecord → OperationRecoveryItemRecord)
    → Database
    → RecoveryLease × Database
claim_with token row f db = (
  record { item = recovery_item (f row); token = token },
  record db { recovery_items = update_recovery row.operation_id f db.recovery_items },
)

-- `prepare_and_claim`. The Operation row's lock serialises creation, so the two reads of the item
-- agree.
unfoldable pub prepare_and_claim :
    Platform
    → ℕ
    → String
    → RecoverySpec
    → String
    → ℕ
    → Option ℕ
    → Option String
    → Database
    → Result (RecoveryLease × Database)
prepare_and_claim p now token spec lease_owner lease_time expected_version expected_checksum db = do
  raise_if (is_blank lease_owner) value_error
  assert_operation_identity spec.operation_id expected_version expected_checksum db
  elim (find_recovery spec.operation_id db.recovery_items) [
    | none ↦
        let row = first_row p now spec (strip lease_owner) token lease_time in
        ok (
          record { item = recovery_item row; token = token },
          record db { recovery_items = db.recovery_items ++ row ∷ [] },
        )
    | some row ↦ do
      raise_if (not (row.recovery_kind == spec.recovery_kind)) value_error
      raise_if (live_lease now row) (recovery_lease_busy spec.operation_id)
      raise_if (is_completed row.status) (recovery_lease_busy spec.operation_id)
      ok (claim_with token row (prepared_row p now spec (strip lease_owner) token lease_time) db)
  ]

-- `claim_operation`
unfoldable pub claim_operation :
    ℕ
    → String
    → String
    → String
    → ℕ
    → Option ℕ
    → Option String
    → Database
    → Result (RecoveryLease × Database)
claim_operation now token operation_id lease_owner lease_time expected_version expected_checksum
      db =
    do
      raise_if (is_blank lease_owner) value_error
      raise_if (is_blank operation_id) value_error
      let id = strip operation_id
      elim (find_recovery id db.recovery_items) [
        | none ↦ err (recovery_not_found id)
        | some row ↦ do
          assert_operation_identity id expected_version expected_checksum db
          raise_if (live_lease now row || is_completed row.status) (recovery_lease_busy id)
          ok (claim_with token row (observed_row now (strip lease_owner) token lease_time) db)
      ]

-- The `where` of `claim_due`; a null `lease_expires_at` compares as not due.
unfoldable pub is_due : ℕ → OperationRecoveryItemRecord → Bool
is_due now row = leb row.available_at now && elim row.status [
  | pending ↦ true
  | retry_wait ↦ true
  | leased ↦ elim row.lease_expires_at [ none ↦ false | some t ↦ leb t now ]
  | _ ↦ false
]

-- order by available_at, operation_id
abbrev pub due_before : OperationRecoveryItemRecord → OperationRecoveryItemRecord → Bool
due_before a b =
    ltb a.available_at b.available_at
    || (nat_eq a.available_at b.available_at
        && elim (compare_text a.operation_id b.operation_id) [ Ordering.gt ↦ false | _ ↦ true ])

unfoldable pub insert_due :
    OperationRecoveryItemRecord
    → List OperationRecoveryItemRecord
    → List OperationRecoveryItemRecord
insert_due row [] = row ∷ []
insert_due row (x ∷ xs) =
    let rest = insert_due row xs in if due_before row x then row ∷ x ∷ xs else x ∷ rest

-- The rows of the query, before its limit. `locked` are those that another transaction holds:
-- `skip_locked` passes over them.
unfoldable pub due_rows :
    ℕ → (String → Bool) → List OperationRecoveryItemRecord → List OperationRecoveryItemRecord
due_rows now locked [] = []
due_rows now locked (row ∷ rows) =
    let rest = due_rows now locked rows in
    if is_due now row && not (locked row.operation_id) then insert_due row rest else rest

-- The loop of `claim_due`; `tokens` are the texts from its calls of `uuid.uuid4`, by the position of
-- the call counted from the end.
unfoldable pub claim_rows :
    ℕ
    → String
    → ℕ
    → (ℕ → String)
    → List OperationRecoveryItemRecord
    → Database
    → List RecoveryLease × Database
claim_rows now owner lease_time tokens [] db = ([], db)
claim_rows now owner lease_time tokens (row ∷ rows) db =
    let token = tokens (length rows) in
    let (lease, db1) = claim_with token row (claimed_row now owner token lease_time) db in
    let (leases, db2) = claim_rows now owner lease_time tokens rows db1 in (lease ∷ leases, db2)

-- max(1, min(limit, 10)), where a negative limit counts as 0
abbrev pub bounded_limit : ℕ → ℕ
bounded_limit limit = max 1 (min limit 10)

-- `claim_due`
unfoldable pub claim_due :
    ℕ
    → (ℕ → String)
    → (String → Bool)
    → String
    → ℕ
    → ℕ
    → Database
    → Result (List RecoveryLease × Database)
claim_due now tokens locked lease_owner lease_time limit db = do
  raise_if (is_blank lease_owner) value_error
  ok (
      claim_rows now (strip lease_owner) lease_time tokens
        (take (bounded_limit limit) (due_rows now locked db.recovery_items)) db)

-- `row.status != "leased" or row.lease_token != lease.token or ...`, negated
abbrev pub owns : RecoveryLease → ℕ → OperationRecoveryItemRecord → Bool
owns lease now row =
    live_lease now row
    && elim row.lease_token [ none ↦ false | some token ↦ token == lease.token ]
    && nat_eq row.lease_generation lease.item.lease_generation

-- `_locked_owned_row`
unfoldable pub locked_owned_row : RecoveryLease → ℕ → Database → Result OperationRecoveryItemRecord
locked_owned_row lease now db = elim (find_recovery lease.item.operation_id db.recovery_items) [
  | none ↦ err (recovery_lease_lost lease.item.operation_id)
  | some row ↦
      if owns lease now row then ok row else err (recovery_lease_lost lease.item.operation_id)
]

-- The columns that `heartbeat` writes.
unfoldable pub beaten_row : ℕ → ℕ → OperationRecoveryItemRecord → OperationRecoveryItemRecord
beaten_row now lease_time row = record row {
  lease_expires_at = some (lease_expiry now lease_time);
  updated_at = now;
}

-- `heartbeat`
unfoldable pub heartbeat : ℕ → RecoveryLease → ℕ → Database → Result (RecoveryLease × Database)
heartbeat now lease lease_time db = do
  row ← locked_owned_row lease now db
  ok (claim_with lease.token row (beaten_row now lease_time) db)
