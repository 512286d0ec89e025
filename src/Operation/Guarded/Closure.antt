-- ===== src/Operation/Guarded/Closure.antt =====
-- What the guarded transitions of backend/app/operations/core/infrastructure/repository.py promise to
-- the lock holder and to recovery.
use gjallar.Prelude.{
  ℕ, ◌≡◌, ◌≢◌, ◌⊎◌, ◌↔◌, refl, ap, ◌∙◌, String, Bool, true, false, not, ◌&&◌, inl, inr, none, some,
  List, [], ◌∷◌, any, All, arith, ◌==◌, str_eq_iff, Bool-cases, Option-cases,
}
use gjallar.Operation.Status.{
  OperationStatus, planned, failed, status_eq, status_eq_sound, status_in,
  terminal_operation_statuses,
}
use gjallar.Operation.Event.{Platform}
use gjallar.Operation.Store.{append_in_session, require_operation}
use gjallar.Operation.Guarded.{
  EventRequest, from_planned, holds_target, excludes_dispatch, as_permission,
  transition_for_target_lock_conflict, transition_pre_dispatch_failure, has_unfinished_coordination,
}
use gjallar.Result.{ok, Result-cases, >>=-eq-ok}
use gjallar.Database.{
  OperationRecord, OperationLockRecord, OperationRecoveryItemRecord, Database, is_open,
  find_operation, find_lock, find_recovery,
}
use gjallar.Recovery.{is_completed}

require_operation-eq-ok :
    (id : String) (db : Database) (row : OperationRecord)
    → require_operation id db ≡ ok row
    → find_operation id db.operations ≡ some row
unfolding require_operation
require_operation-eq-ok id db row h = ground arith

closure_done :
    {permitted : Bool} {db' : Database} (r : OperationRecord × Database)
    → as_permission (ok r) ≡ ok (permitted, db')
    → (permitted ≡ true) × (r.1 ≡ db')
closure_done r h = (cc h, cc h)

-- The lock that makes a conflict: open, on the Operation's VM, and of the named other owner.
pub record IsConflict (db : Database) (operation_id lock_id owner_id : String) : Type 0 where
  pub operation : OperationRecord
  pub lock : OperationLockRecord
  pub found : find_operation operation_id db.operations ≡ some operation
  pub was_planned : operation.status ≡ planned
  pub stored : find_lock lock_id db.locks ≡ some lock
  pub foreign : (lock.owner_id ≡ owner_id) × (owner_id ≢ operation_id)
  pub on_target : holds_target operation lock ≡ true

module _ (p : Platform) (now : ℕ) (event_id : String) (db : Database)
    (operation_id lock_id : String) (req : EventRequest) where
  -- Where `transition_for_target_lock_conflict` returns, it has changed nothing, or the foreign lock
  -- still excluded the planned Operation and the transition to the next status was appended.
  pub transition_for_target_lock_conflict-cases :
      (owner_id : String) (next_status : OperationStatus) (row' : OperationRecord) (db' : Database)
      → transition_for_target_lock_conflict p now event_id db operation_id lock_id owner_id
          next_status req
        ≡ ok (row', db')
      → (db' ≡ db)
        ⊎ (IsConflict db operation_id lock_id owner_id
            × (append_in_session p now event_id db operation_id (from_planned req next_status)
                ≡ ok (row', db')))
  unfolding transition_for_target_lock_conflict
  transition_for_target_lock_conflict-cases owner_id next_status row' db' h =
      let (row, required, rest) = >>=-eq-ok (require_operation operation_id db) _ h in
      elim (Bool-cases (status_eq row.status planned)) [
        | inr moved ↦ inl (ground (arith, moved, rest))
        | inl still ↦ elim (Option-cases (find_lock lock_id db.locks)) [
          | inl gone ↦ inl (ground (arith, still, gone, rest))
          | inr (lock, stored) ↦
              elim (Bool-cases (excludes_dispatch row operation_id owner_id lock)) [
                | inr other ↦ inl (ground (arith, still, stored, other, rest))
                | inl excludes ↦ inr (
                  record {
                    operation = row;
                    lock = lock;
                    found = require_operation-eq-ok operation_id db row required;
                    was_planned = status_eq_sound row.status planned still;
                    stored = stored;
                    foreign = ground (
                      arith,
                      excludes,
                      str_eq_iff lock.owner_id owner_id,
                      str_eq_iff lock.owner_id operation_id,
                    );
                    on_target = ground (arith, excludes);
                  },
                  ground (arith, still, stored, excludes, rest),
                )
              ]
        ]
      ]

  -- What the pre-dispatch closure has tested where it gives permission to release.
  pub record IsClosable : Type 0 where
    pub operation : OperationRecord
    pub lock : OperationLockRecord
    pub found : find_operation operation_id db.operations ≡ some operation
    pub was_planned : operation.status ≡ planned
    pub no_recovery : find_recovery operation_id db.recovery_items ≡ none
    pub stored : find_lock lock_id db.locks ≡ some lock
    pub own : lock.owner_id ≡ operation_id
    pub on_target : holds_target operation lock ≡ true

  -- `transition_pre_dispatch_failure` refuses permission to release without any change, and gives it
  -- only where the planned Operation has no recovery item and holds the open lock on its VM itself;
  -- then the failure is appended.
  pub transition_pre_dispatch_failure-cases :
      (permitted : Bool) (db' : Database)
      → transition_pre_dispatch_failure p now event_id db operation_id lock_id req
        ≡ ok (permitted, db')
      → ((permitted ≡ false) × (db' ≡ db))
        ⊎ ((permitted ≡ true)
            × IsClosable
            × (row' : OperationRecord) × (append_in_session p now event_id db operation_id
                  (from_planned req failed)
                ≡ ok (row', db')))
  unfolding transition_pre_dispatch_failure
  transition_pre_dispatch_failure-cases permitted db' h =
      let (row, required, rest) = >>=-eq-ok (require_operation operation_id db) _ h in
      elim (Bool-cases (status_eq row.status planned)) [
        | inr moved ↦ inl (ground (arith, moved, rest), ground (arith, moved, rest))
        | inl still ↦ elim (Option-cases (find_recovery operation_id db.recovery_items)) [
          | inr (item, taken) ↦
              inl (ground (arith, still, taken, rest), ground (arith, still, taken, rest))
          | inl free ↦ elim (Option-cases (find_lock lock_id db.locks)) [
            | inl gone ↦
                inl
                  (ground (arith, still, free, gone, rest), ground (arith, still, free, gone, rest))
            | inr (lock, stored) ↦
                elim (Bool-cases ((lock.owner_id == operation_id) && holds_target row lock)) [
                  | inr other ↦ inl (
                    ground (arith, still, free, stored, other, rest),
                    ground (arith, still, free, stored, other, rest),
                  )
                  | inl own ↦
                      elim (Result-cases (
                        append_in_session p now event_id db operation_id
                          (from_planned req failed))) [
                            | inr (e, raised) ↦
                                ground (arith, still, free, stored, own, rest, raised)
                            | inl (r, appended) ↦
                                let done : (permitted ≡ true) × (r.1 ≡ db') =
                                  closure_done r
                                    (ground (arith, still, free, stored, own, rest, appended)) in
                                inr (
                                  done.0,
                                  record {
                                    operation = row;
                                    lock = lock;
                                    found = require_operation-eq-ok operation_id db row required;
                                    was_planned = status_eq_sound row.status planned still;
                                    no_recovery = free;
                                    stored = stored;
                                    own =
                                        ground (arith, own, str_eq_iff lock.owner_id operation_id);
                                    on_target = ground (arith, own);
                                  },
                                  r.0,
                                  appended ∙ ap (λ d. ok (r.0, d)) done.1,
                                )
                          ]
                ]
          ]
        ]
      ]

any-All :
    {A : Type 0} (test : A → Bool) (xs : List A)
    → (any test xs ≡ false → All (λ x. test x ≡ false) xs)
      × (All (λ x. test x ≡ false) xs → any test xs ≡ false)
any-All test [] = (λ h. tt, λ a. refl)
any-All test (x ∷ xs) =
    let (from, to) = any-All test xs in
    (
      λ h. elim (Bool-cases (test x)) [
        | inl found ↦ ground (arith, found, h)
        | inr passed ↦ (passed, from (rw passed at h))
      ],
      λ a. rw (a.0) (to a.1),
    )

-- No coordination is unfinished exactly where every Operation but the excluded one is terminal, no
-- target lock is open and every recovery item is completed.
pub has_unfinished_coordination-eq-false :
    (excluded : String) (db : Database)
    → (has_unfinished_coordination excluded db ≡ false) ↔ (
        All
          (λ (row : OperationRecord).
            (not (row.operation_id == excluded)
              && not (status_in row.status terminal_operation_statuses))
            ≡ false)
          db.operations
        × All (λ (row : OperationLockRecord). is_open row.status ≡ false) db.locks
        × All
            (λ (row : OperationRecoveryItemRecord). not (is_completed row.status) ≡ false)
            db.recovery_items)
unfolding has_unfinished_coordination
has_unfinished_coordination-eq-false excluded db =
    let a =
      any-All
        (λ (row : OperationRecord).
          not (row.operation_id == excluded)
          && not (status_in row.status terminal_operation_statuses))
        db.operations in
    let b = any-All (λ (row : OperationLockRecord). is_open row.status) db.locks in
    let c =
      any-All (λ (row : OperationRecoveryItemRecord). not (is_completed row.status))
        db.recovery_items in
    (
      λ h. (a.0 (ground (arith, h)), b.0 (ground (arith, h)), c.0 (ground (arith, h))),
      λ h. let x = a.1 h.0 in let y = b.1 h.1 in let z = c.1 h.2 in ground (arith, x, y, z),
    )
