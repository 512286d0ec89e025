-- ===== src/Recovery/Commit/Effects.antt =====
-- What a commit of `commit_observation` in
-- backend/app/operations/recovery/infrastructure/repository.py keeps and changes.
use gjallar.Prelude.{
  ℕ, ◌≤◌, ◌≡◌, ◌≢◌, refl, sym, subst, ap, ◌∙◌, String, true, false, inl, inr, some, List, length,
  All, All-map, arith, ◌==◌, str_eq_iff, Bool-cases, nat_eq, nat_eq_iff,
}
use gjallar.Operation.Event.{Platform}
use gjallar.Operation.Store.{append_in_session, projected}
use gjallar.Operation.Store.Chain.{IsChained, find_operation-id}
use gjallar.Operation.Store.Append.{append_in_session-IsChained, append_in_session-eq-ok}
use gjallar.Result.{ok, err, >>=-eq-ok, recovery_lease_lost}
use gjallar.Database.{
  find_operation, OperationRecord, OperationLockRecord, Database, OperationRecoveryItemRecord,
  find_lock,
}
use gjallar.Lock.Binding.{expected_lock_count}
use gjallar.Lock.Exclusion.{open_count, IsExclusive}
use gjallar.Recovery.{RecoveryItem, RecoveryLease, update_recovery, is_leased, locked_owned_row}
use gjallar.Recovery.Generation.{find-update_recovery, find_recovery-id}
use gjallar.Recovery.Exclusive.{locked_owned_row-eq-ok}
use gjallar.Recovery.Commit.{
  Observation, committed_row, committed_locks, verified_lock, doubted_lock, reconciles,
  observed_locks, lock_tests, checkpoint_test, write_observation, commit_observation,
  observation_request,
}
use gjallar.Recovery.Commit.Outcome.{Committed, commit_observation-eq-ok, observed_operation-eq-ok}
use gjallar.Recovery.Commit.Locks.{
  open_count-closed, open_count-kept, write_locks-other, write_locks-closed, is_closed, IsKept,
}
use gjallar.Recovery.Commit.Exact.{IsTarget, observed_locks-IsTarget}

-- The append writes operations and events only.
pub append-keeps_rows :
    (p : Platform) (now : ℕ) (event_id : String) (db : Database) (id : String)
    (req : gjallar.Operation.Store.AppendRequest) (row : OperationRecord) (db' : Database)
    → append_in_session p now event_id db id req ≡ ok (row, db')
    → (db'.locks ≡ db.locks) × (db'.recovery_items ≡ db.recovery_items)
append-keeps_rows p now event_id db id req row db' h =
    let (old, found, expected, allowed, proj, stored) =
      append_in_session-eq-ok p now event_id db id req row db' h in
    (ap (λ (d : Database). d.locks) stored, ap (λ (d : Database). d.recovery_items) stored)

doubted-IsKept :
    (key : String) (now : ℕ) (id : String) (o : Observation) (table : List OperationLockRecord)
    (lock : OperationLockRecord)
    → IsTarget id table lock
    → IsKept key (doubted_lock now id o) table lock
doubted-IsKept key now id o table lock t =
    let opened = t.opened in (lock, t.stored, ground (arith, opened))

-- The commit opens no lock on any locator.
committed_locks-count :
    (key : String) (now : ℕ) (id : String) (o : Observation)
    (locks table : List OperationLockRecord)
    → All (IsTarget id table) locks
    → open_count key (committed_locks now id o locks table) ≤ open_count key table
unfolding committed_locks
committed_locks-count key now id o locks table a = elim (Bool-cases o.release_target_lock) [
  | inl releases ↦
      rw (releases, committed_locks)
        (open_count-closed key (verified_lock now id o) locks table (λ l. ground arith))
  | inr keeps ↦ elim (Bool-cases (reconciles o)) [
    | inl doubts ↦
        let same = open_count-kept key (doubted_lock now id o) locks table (
          All-map (IsTarget id table) (IsKept key (doubted_lock now id o) table) locks
            (λ l t. doubted-IsKept key now id o table l t) a) in
        ground (arith, keeps, doubts, same)
    | inr leaves ↦ ground (arith, keeps, leaves)
  ]
]

committed_locks-other :
    (id : String) (now : ℕ) (op : String) (o : Observation) (locks table : List OperationLockRecord)
    → All (λ (l : OperationLockRecord). (l.operation_lock_id == id) ≡ false) locks
    → find_lock id (committed_locks now op o locks table) ≡ find_lock id table
unfolding committed_locks
committed_locks-other id now op o locks table others = elim (Bool-cases o.release_target_lock) [
  | inl releases ↦
      rw (releases, committed_locks)
        (write_locks-other id (verified_lock now op o) locks table others)
  | inr keeps ↦ elim (Bool-cases (reconciles o)) [
    | inl doubts ↦
        rw (keeps, doubts, committed_locks)
          (write_locks-other id (doubted_lock now op o) locks table others)
    | inr leaves ↦ rw (keeps, leaves, committed_locks) refl
  ]
]

committed_locks-closed :
    (now : ℕ) (op : String) (o : Observation) (locks table : List OperationLockRecord)
    → o.release_target_lock ≡ true
    → All
        (λ (l : OperationLockRecord).
          is_closed l.operation_lock_id (committed_locks now op o locks table) ≡ true)
        locks
unfolding committed_locks
committed_locks-closed now op o locks table releases =
    rw (releases, committed_locks)
      (write_locks-closed (verified_lock now op o) locks table (λ l. refl))

-- Locks that pass the tests of a release are as many as the operation type asks for.
lock_tests-count :
    (p : Platform) (o : Observation) (op : OperationRecord) (row : OperationRecoveryItemRecord)
    (locks : List OperationLockRecord)
    → o.release_target_lock ≡ true
    → lock_tests p o op row locks ≡ ok tt
    → length locks ≡ expected_lock_count op.operation_type
unfolding lock_tests
lock_tests-count p o op row locks releases h =
    elim (Bool-cases (nat_eq (length locks) (expected_lock_count op.operation_type))) [
      | inl same ↦ (nat_eq_iff (length locks) (expected_lock_count op.operation_type)).0 same
      | inr differs ↦
          let (u, bound, rest) = >>=-eq-ok (checkpoint_test p o op row locks) _ h in
          ground (arith, releases, differs, rest)
    ]

-- A target lock is not the lock of another owner.
is_other_lock :
    (id : String) (lock l : OperationLockRecord) (owner_id : String)
    (table : List OperationLockRecord)
    → IsTarget owner_id table l
    → find_lock id table ≡ some lock
    → lock.owner_id ≢ owner_id
    → (l.operation_lock_id == id) ≡ false
is_other_lock id lock l owner_id table t found foreign =
    elim (Bool-cases (l.operation_lock_id == id)) [
      | inr other ↦ other
      | inl same ↦
          let e = (str_eq_iff l.operation_lock_id id).0 same in
          let stored = t.stored in
          let own = t.own in
          let x : l ≡ lock = cc (stored, found, e) in
          absurd (foreign (ap (λ (r : OperationLockRecord). r.owner_id) (sym x) ∙ own))
    ]

module _ (p : Platform) (now : ℕ) (event_id : String) (lease : RecoveryLease) (o : Observation)
    (db : Database) (operation : OperationRecord) (item : RecoveryItem) (db' : Database) where
  abbrev Commits : Type 0
  Commits = commit_observation p now event_id lease o db ≡ ok (operation, item, db')

  -- The lock table that a commit leaves.
  locks_after :
      (c : Committed p now event_id lease o db operation item db')
      → db'.locks
        ≡ committed_locks now c.admitted.operation.operation_id o
            (observed_locks p o c.admitted.operation c.admitted.row db.locks)
            db.locks
  unfolding write_observation
  locks_after c =
      let (locks, items) =
        append-keeps_rows p now event_id db lease.item.operation_id _ operation c.between
          c.appended in
      ap (λ (d : Database). d.locks) c.written
      ∙ ap
          (committed_locks now c.admitted.operation.operation_id o
            (observed_locks p o c.admitted.operation c.admitted.row db.locks))
          locks

  pub items_after :
      (c : Committed p now event_id lease o db operation item db')
      → db'.recovery_items
        ≡ update_recovery c.admitted.row.operation_id
            (committed_row p now o c.admitted.projection)
            db.recovery_items
  unfolding write_observation
  items_after c =
      let (locks, items) =
        append-keeps_rows p now event_id db lease.item.operation_id _ operation c.between
          c.appended in
      ap (λ (d : Database). d.recovery_items) c.written
      ∙ ap
          (update_recovery c.admitted.row.operation_id
            (committed_row p now o c.admitted.projection))
          items

  own_id :
      (c : Committed p now event_id lease o db operation item db')
      → c.admitted.operation.operation_id ≡ lease.item.operation_id
  own_id c =
      find_operation-id lease.item.operation_id db.operations c.admitted.operation (
        observed_operation-eq-ok lease.item.operation_id o db c.admitted.operation
          c.tested.observed)

  -- Where each projection is the end of its verified event chain and each locator has at most one open
  -- lock, a commit that returns leaves both so.
  pub commit_observation-keeps :
      IsChained p db → IsExclusive db.locks → Commits → IsChained p db' × IsExclusive db'.locks
  unfolding write_observation
  commit_observation-keeps chained exclusive h =
      let c = commit_observation-eq-ok p now event_id lease o db operation item db' h in
      let mid =
        append_in_session-IsChained p now event_id db lease.item.operation_id
          (observation_request p o c.admitted.projection) operation c.between chained c.appended in
      (
        subst (IsChained p) (sym c.written) (record { rows = mid.rows; owned = mid.owned }),
        subst IsExclusive (sym (locks_after c)) (record {
          at_most_one = λ key.
              let once = exclusive.at_most_one key in
              let fewer =
                committed_locks-count key now c.admitted.operation.operation_id o
                  (observed_locks p o c.admitted.operation c.admitted.row db.locks) db.locks
                  (observed_locks-IsTarget p o c.admitted.operation c.admitted.row db.locks) in
              omega (arith, once, fewer);
        }),
      )

  -- A commit that returns changes no lock of another owner.
  pub commit_observation_own_locks :
      (id : String) (lock : OperationLockRecord)
      → find_lock id db.locks ≡ some lock
      → lock.owner_id ≢ lease.item.operation_id
      → Commits
      → find_lock id db'.locks ≡ some lock
  unfolding committed_locks
  commit_observation_own_locks id lock found foreign h =
      let c = commit_observation-eq-ok p now event_id lease o db operation item db' h in
      let locks = observed_locks p o c.admitted.operation c.admitted.row db.locks in
      let others =
        All-map (IsTarget c.admitted.operation.operation_id db.locks)
          (λ (l : OperationLockRecord). (l.operation_lock_id == id) ≡ false) locks
          (λ l t.
            is_other_lock id lock l c.admitted.operation.operation_id db.locks t found
              (λ e. foreign (e ∙ own_id c)))
          (observed_locks-IsTarget p o c.admitted.operation c.admitted.row db.locks) in
      subst (λ t. find_lock id t ≡ some lock) (sym (locks_after c))
        (committed_locks-other id now c.admitted.operation.operation_id o locks db.locks others
          ∙ found)

  -- A commit that returns with a recovery status other than leased ends every lease of the item: no
  -- lease of it is owned afterwards, at any time.
  pub commit_observation_ends_lease :
      (other : RecoveryLease) (later : ℕ)
      → other.item.operation_id ≡ lease.item.operation_id
      → is_leased o.recovery_status ≡ false
      → Commits
      → locked_owned_row other later db' ≡ err (recovery_lease_lost lease.item.operation_id)
  unfolding locked_owned_row committed_row
  commit_observation_ends_lease other later same ends h =
      let c = commit_observation-eq-ok p now event_id lease o db operation item db' h in
      let (found, own) = locked_owned_row-eq-ok lease now db c.admitted.row c.tested.owned in
      let id = find_recovery-id lease.item.operation_id db.recovery_items c.admitted.row found in
      let items = items_after c in
      let after =
        find-update_recovery lease.item.operation_id (committed_row p now o c.admitted.projection)
          db.recovery_items (λ row. refl) in
      ground (arith, same, ends, items, id, found, after)

  -- A commit that returns and releases the target lock has read the lease's Operation and recovery row,
  -- has found as many exact locks for them as the Operation's type asks for, and no lock with the id of
  -- one of these locks is open afterwards.
  pub commit_observation_releases :
      o.release_target_lock ≡ true
      → Commits
      → (row : OperationRecoveryItemRecord) × (op : OperationRecord) × (find_operation
            lease.item.operation_id db.operations
          ≡ some op)
        × (locked_owned_row lease now db ≡ ok row)
        × (length (observed_locks p o op row db.locks) ≡ expected_lock_count op.operation_type)
        × All
            (λ (l : OperationLockRecord). is_closed l.operation_lock_id db'.locks ≡ true)
            (observed_locks p o op row db.locks)
  unfolding committed_locks
  commit_observation_releases releases h =
      let c = commit_observation-eq-ok p now event_id lease o db operation item db' h in
      let locks = observed_locks p o c.admitted.operation c.admitted.row db.locks in
      (
        c.admitted.row,
        c.admitted.operation,
        observed_operation-eq-ok lease.item.operation_id o db c.admitted.operation
            c.tested.observed,
        c.tested.owned,
        lock_tests-count p o c.admitted.operation c.admitted.row locks releases c.tested.locked,
        subst (λ t. All (λ (l : OperationLockRecord). is_closed l.operation_lock_id t ≡ true) locks)
            (sym (locks_after c))
            (committed_locks-closed now c.admitted.operation.operation_id o locks db.locks
              releases),
      )
