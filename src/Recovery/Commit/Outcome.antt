-- ===== src/Recovery/Commit/Outcome.antt =====
-- What a commit of `commit_observation` in
-- backend/app/operations/recovery/infrastructure/repository.py has tested and written where it returns.
use gjallar.Prelude.{ℕ, ◌≡◌, subst, ap, sym, ◌∙◌, String, inl, inr, some, arith, Option-cases}
use gjallar.Operation.Event.{Platform}
use gjallar.Operation.Store.{append_in_session}
use gjallar.Result.{ok, >>=-eq-ok, result_value}
use gjallar.Database.{OperationRecord, Database, find_operation}
use gjallar.Recovery.{RecoveryItem, RecoveryLease, recovery_item, locked_owned_row}
use gjallar.Recovery.Commit.{
  Observation, Admitted, observed_operation, transition_test, lock_tests, observed_locks,
  projection_of, binding_test, admit_observation, write_observation, commit_observation,
  observation_request, committed_row,
}

pub record IsAdmitted (p : Platform) (now : ℕ) (lease : RecoveryLease) (o : Observation)
    (db : Database) (a : Admitted) : Type 0 where
  pub owned : locked_owned_row lease now db ≡ ok a.row
  pub observed : observed_operation lease.item.operation_id o db ≡ ok a.operation
  pub locked :
      lock_tests p o a.operation a.row (observed_locks p o a.operation a.row db.locks) ≡ ok tt

pub observed_operation-eq-ok :
    (id : String) (o : Observation) (db : Database) (row : OperationRecord)
    → observed_operation id o db ≡ ok row
    → find_operation id db.operations ≡ some row
unfolding observed_operation
observed_operation-eq-ok id o db row h = elim (Option-cases (find_operation id db.operations)) [
  | inl absent ↦ ground (arith, absent)
  | inr (stored, found) ↦ ground (arith, found)
]

pub admit_observation-eq-ok :
    (p : Platform) (now : ℕ) (lease : RecoveryLease) (o : Observation) (db : Database)
    (a : Admitted)
    → admit_observation p now lease o db ≡ ok a
    → IsAdmitted p now lease o db a
unfolding admit_observation
admit_observation-eq-ok p now lease o db a h =
    let (row, owned, rest) = >>=-eq-ok (locked_owned_row lease now db) _ h in
    let (operation, observed, rest1) =
      >>=-eq-ok (observed_operation lease.item.operation_id o db) _ rest in
    let (u, moved, rest2) = >>=-eq-ok (transition_test operation o) _ rest1 in
    let (v, locked, rest3) =
      >>=-eq-ok (lock_tests p o operation row (observed_locks p o operation row db.locks)) _
        rest2 in
    let (projection, run, rest4) = >>=-eq-ok (projection_of p o db) _ rest3 in
    let (w, bound, done) = >>=-eq-ok (binding_test p o operation row projection) _ rest4 in
    subst (IsAdmitted p now lease o db) (result_value done)
      (record { owned = owned; observed = observed; locked = locked })

-- What a commit that returns has done.
pub record Committed (p : Platform) (now : ℕ) (event_id : String) (lease : RecoveryLease)
    (o : Observation) (db : Database) (operation : OperationRecord) (item : RecoveryItem)
    (db' : Database) : Type 0 where
  pub admitted : Admitted
  pub tested : IsAdmitted p now lease o db admitted
  pub between : Database
  pub appended :
      append_in_session p now event_id db lease.item.operation_id
        (observation_request p o admitted.projection)
      ≡ ok (operation, between)
  pub returned : item ≡ recovery_item (committed_row p now o admitted.projection admitted.row)
  pub written : db' ≡ write_observation p now o admitted db between

pub commit_observation-eq-ok :
    (p : Platform) (now : ℕ) (event_id : String) (lease : RecoveryLease) (o : Observation)
    (db : Database) (operation : OperationRecord) (item : RecoveryItem) (db' : Database)
    → commit_observation p now event_id lease o db ≡ ok (operation, item, db')
    → Committed p now event_id lease o db operation item db'
unfolding commit_observation
commit_observation-eq-ok p now event_id lease o db operation item db' h =
    let (a, passed, rest) = >>=-eq-ok (admit_observation p now lease o db) _ h in
    let ((row, mid), wrote, done) =
      >>=-eq-ok
        (append_in_session p now event_id db lease.item.operation_id
          (observation_request p o a.projection))
        _ rest in
    let e = result_value done in
    record {
      admitted = a;
      tested = admit_observation-eq-ok p now lease o db a passed;
      between = mid;
      appended = wrote ∙ ap (λ r. ok (r, mid)) (ap (λ t. t.0) e);
      returned = sym (ap (λ t. t.1) e);
      written = sym (ap (λ t. t.2) e);
    }
