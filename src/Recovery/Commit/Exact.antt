-- ===== src/Recovery/Commit/Exact.antt =====
-- The locks of `_exact_target_locks` of backend/app/operations/recovery/infrastructure/repository.py, and
-- their owner and status.
use gjallar.Prelude.{
  ◌≡◌, subst, sym, String, Bool, true, inl, inr, some, List, [], ◌∷◌, All, arith, ◌==◌, some_value,
  str_eq_iff, Bool-cases, Option-cases, not, ◌||◌,
}
use gjallar.Json.{Fields}
use gjallar.Operation.Event.{Platform}
use gjallar.Database.{
  OperationRecord, OperationLockRecord, OperationRecoveryItemRecord, find_lock, is_open,
}
use gjallar.Lock.Binding.{LockReference, lock_references}
use gjallar.Lock.Release.{find_lock-id}
use gjallar.HostConfig.{is_host_type, lock_binding}
use gjallar.Recovery.Targets.{
  lock_where, locator_locks, is_locator_lock, is_configuration_lock, configuration_locks,
  exact_target_locks, by_vmid, stripped_at,
}
use gjallar.Recovery.Commit.{Observation, is_other_kind, observed_locks, effective_details}

-- The row of its id, open, and owned by the Operation.
pub record IsTarget (operation_id : String) (table : List OperationLockRecord)
    (lock : OperationLockRecord) : Type 0 where
  pub stored : find_lock lock.operation_lock_id table ≡ some lock
  pub own : lock.owner_id ≡ operation_id
  pub opened : is_open lock.status ≡ true

lock_where-eq-some :
    (id : String) (test : OperationLockRecord → Bool) (table : List OperationLockRecord)
    (row : OperationLockRecord)
    → lock_where id test table ≡ some row
    → (find_lock row.operation_lock_id table ≡ some row) × (test row ≡ true)
unfolding lock_where
lock_where-eq-some id test table row h = elim (Option-cases (find_lock id table)) [
  | inl absent ↦ ground (arith, absent)
  | inr (x, found) ↦ elim (Bool-cases (test x)) [
    | inr fails ↦ ground (arith, found, fails)
    | inl passes ↦
        let e : x ≡ row = ground (arith, found, passes) in
        subst
          (λ (r : OperationLockRecord).
            (find_lock r.operation_lock_id table ≡ some r) × (test r ≡ true))
          e
          (
            subst (λ i. find_lock i table ≡ some x) (sym (find_lock-id id table x found)) found,
            passes,
          )
  ]
]

locator_locks-IsTarget :
    (operation : OperationRecord) (cluster_id : String) (references : List LockReference)
    (table rows : List OperationLockRecord)
    → locator_locks operation cluster_id references table ≡ some rows
    → All (IsTarget operation.operation_id table) rows
unfolding locator_locks
locator_locks-IsTarget operation cluster_id [] table rows h =
    subst (All (IsTarget operation.operation_id table)) (some_value h) tt
locator_locks-IsTarget operation cluster_id (reference ∷ references) table rows h =
    elim (Option-cases
      (lock_where reference.lock_id (is_locator_lock operation cluster_id reference) table)) [
        | inl absent ↦ ground (arith, absent)
        | inr (row, found) ↦
            elim (Option-cases (locator_locks operation cluster_id references table)) [
              | inl absent ↦ ground (arith, found, absent)
              | inr (rest, others) ↦
                  let e : row ∷ rest ≡ rows = ground (arith, found, others) in
                  let (stored, test) =
                    lock_where-eq-some reference.lock_id
                      (is_locator_lock operation cluster_id reference) table row found in
                  subst (All (IsTarget operation.operation_id table)) e (
                    record {
                      stored = stored;
                      own = ground (arith, test, str_eq_iff row.owner_id operation.operation_id);
                      opened = ground (arith, test);
                    },
                    locator_locks-IsTarget operation cluster_id references table rest others,
                  )
            ]
      ]

configuration_locks-IsTarget :
    (p : Platform) (operation : OperationRecord) (details : Fields)
    (table : List OperationLockRecord)
    → All (IsTarget operation.operation_id table) (configuration_locks p operation details table)
unfolding configuration_locks
configuration_locks-IsTarget p operation details table =
    elim (Option-cases (
      lock_binding p operation.operation_type operation.target_type operation.target_id
        operation.details details)) [
          | inl absent ↦ rw (absent, configuration_locks) tt
          | inr (binding, bound) ↦
              elim (Bool-cases (operation.execution_mode == binding.execution_mode)) [
                | inr other ↦ rw (bound, other, configuration_locks) tt
                | inl same ↦
                    elim (Option-cases (
                      lock_where binding.target_lock_id (is_configuration_lock operation binding)
                        table)) [
                          | inl absent ↦ rw (bound, same, absent, configuration_locks) tt
                          | inr (row, found) ↦
                              let (stored, test) =
                                lock_where-eq-some binding.target_lock_id
                                  (is_configuration_lock operation binding) table row found in
                              rw (bound, same, found, configuration_locks)
                                (
                                  record {
                                    stored = stored;
                                    own = ground (
                                      arith,
                                      test,
                                      str_eq_iff row.owner_id operation.operation_id,
                                    );
                                    opened = ground (arith, test);
                                  },
                                  tt,
                                )
                        ]
              ]
        ]

pub exact_target_locks-IsTarget :
    (p : Platform) (operation : OperationRecord) (details : Fields)
    (table : List OperationLockRecord)
    → All (IsTarget operation.operation_id table) (exact_target_locks p operation details table)
unfolding exact_target_locks
exact_target_locks-IsTarget p operation details table =
    let references =
      lock_references operation.operation_type operation.target_id operation.details details in
    let cluster_id = stripped_at p "cluster_id" details in
    elim (Bool-cases (is_host_type operation.operation_type)) [
      | inl host ↦
          rw (host, exact_target_locks) (configuration_locks-IsTarget p operation details table)
      | inr vm ↦
          elim (Bool-cases (not (operation.target_type == "proxmox_vm") || (cluster_id == ""))) [
            | inl none_bound ↦ rw (vm, none_bound, exact_target_locks) tt
            | inr bound ↦
                elim (Option-cases
                  (locator_locks operation cluster_id (by_vmid references) table)) [
                    | inl absent ↦ rw (vm, bound, absent, exact_target_locks) tt
                    | inr (rows, found) ↦
                        rw (vm, bound, found, exact_target_locks)
                          (locator_locks-IsTarget operation cluster_id (by_vmid references) table
                            rows found)
                  ]
          ]
    ]

pub observed_locks-IsTarget :
    (p : Platform) (o : Observation) (operation : OperationRecord)
    (row : OperationRecoveryItemRecord) (table : List OperationLockRecord)
    → All (IsTarget operation.operation_id table) (observed_locks p o operation row table)
unfolding observed_locks
observed_locks-IsTarget p o operation row table = elim (Bool-cases (is_other_kind operation row)) [
  | inl other ↦ rw (other, observed_locks) tt
  | inr fits ↦
      rw (fits, observed_locks)
        (exact_target_locks-IsTarget p operation (effective_details p o row) table)
]
