-- ===== src/HostConfig/Admission/Effects.antt =====
-- What a call of `prepare` of backend/app/operations/host_config/admission.py leaves, and what a second
-- call does.
use gjallar.Prelude.{
  ℕ, ◌+◌, ◌≡◌, ◌<◌, refl, sym, subst, ap, ◌∙◌, String, true, none, some, List, [], ◌∷◌, ◌++◌, arith,
  ◌==◌, str_eq_refl,
}
use gjallar.Prelude.Text.{strip}
use gjallar.Json.{Fields, empty}
use gjallar.Operation.Event.{Platform}
use gjallar.Operation.Create.{OperationSpec, OperationCreateResult, create, created_row}
use gjallar.Operation.Create.Idempotent.{insert_operation-eq-ok}
use gjallar.Operation.Create.Scopes.{create-IsChained}
use gjallar.Operation.Store.Chain.{IsChained}
use gjallar.Result.{ok}
use gjallar.Database.{
  OperationRecord, OperationRecoveryItemRecord, OperationLockRecord, Database, find_operation,
  is_open,
}
use gjallar.Setup.{SetupState}
use gjallar.Lock.Exclusion.{open_count-append, IsExclusive}
use gjallar.Recovery.{RecoveryLease, prepare_and_claim, locked_owned_row}
use gjallar.Recovery.Exclusive.{prepare_and_claim-owned}
use gjallar.HostConfig.Lock.{configuration_row, open_lock_in}
use gjallar.HostConfig.Lock.Outcome.{acquire_configuration-eq-ok, hold_configuration-eq-ok}
use gjallar.HostConfig.Lock.Isolation.{IsIsolated, configuration-IsIsolated}
use gjallar.HostConfig.Admission.{
  Draws, spec_target, binding_of, bound_spec, observation_spec, lease_owner_of, prepare,
}
use gjallar.HostConfig.Admission.Outcome.{
  prepare-eq-ok, prepare_and_claim-keeps_rows, find_operation-new, Prepared-created,
}

-- A configuration lock is on no locator.
configuration-IsExclusive :
    (lock_id : String) (now : ℕ) (operation_type scope_key cluster_id owner_id : String)
    (identity : String × String) (target : Fields) (rows : List OperationLockRecord)
    → IsExclusive rows
    → IsExclusive (
        rows
        ++ configuration_row lock_id now operation_type scope_key cluster_id owner_id identity
            target
          ∷ [])
unfolding configuration_row
configuration-IsExclusive lock_id now operation_type scope_key cluster_id owner_id identity target
      rows x =
    record {
      at_most_one = λ key.
          let old = x.at_most_one key in
          let row =
            configuration_row lock_id now operation_type scope_key cluster_id owner_id identity
              target in
          let same = open_count-append key rows row in ground (arith, old, same);
    }

module _ (p : Platform) (state : SetupState) (d : Draws) (spec : OperationSpec)
    (cluster_id : String) (db : Database) (operation : OperationRecord) (lease : RecoveryLease)
    (db' : Database) where
  -- The row of the lock.
  abbrev lock_row : String → String × String → OperationLockRecord
  lock_row scope_key identity =
      configuration_row d.lock_id d.lock_time spec.operation_type scope_key (strip cluster_id)
        (strip spec.operation_id) identity (spec_target spec)

  -- The tables after each of the three calls.
  record Tables : Type 0 where
    scope_key : String
    identity : String × String
    binding : Fields
    locked : Database
    between : Database
    items : List OperationRecoveryItemRecord
    absent : find_operation spec.operation_id db.operations ≡ none
    free : open_lock_in (strip cluster_id) db.locks ≡ none
    added : locked ≡ record db { locks = db.locks ++ lock_row scope_key identity ∷ [] }
    made :
        (result : OperationCreateResult) × (create p d.create_time d.event_id
            (bound_spec spec binding)
            empty
            locked
            locked
          ≡ ok (result, between))
    operations : between.operations ≡ db.operations ++ operation ∷ []
    named : operation.operation_id ≡ spec.operation_id
    digest : operation.intent_digest ≡ spec.intent_digest
    locks : between.locks ≡ db.locks ++ lock_row scope_key identity ∷ []
    claimed :
        prepare_and_claim p d.claim_time d.token
          (observation_spec spec binding)
          (lease_owner_of spec d)
          60000000
          none
          none
          between
        ≡ ok (lease, db')
    left : db' ≡ record between { recovery_items = items }

  tables_of : prepare p state d spec cluster_id db ≡ ok (operation, some lease, db') → Tables
  unfolding created_row configuration_row
  tables_of h =
      let m = prepare-eq-ok p state d spec cluster_id db operation lease db' h in
      let held =
        acquire_configuration-eq-ok p state d.lock_id d.lock_time spec.operation_type cluster_id
          spec.operation_id (spec_target spec) db m.lock m.locked m.held in
      let row = lock_row held.scope_key held.identity in
      let (admitted, free, alone, fresh, stored) =
        hold_configuration-eq-ok state row (spec_target spec) db m.locked held.inserted in
      let binding = binding_of spec m.lock in
      let same = ap (λ (x : Database). x.operations) stored in
      let (returned, inserted) =
        Prepared-created p state d spec cluster_id db operation lease db' m
          (ap (find_operation spec.operation_id) same ∙ m.absent) in
      let (u, v, written) =
        insert_operation-eq-ok p d.create_time d.event_id (bound_spec spec binding) empty m.locked
          m.between inserted in
      let (items, left) =
        prepare_and_claim-keeps_rows p d.claim_time d.token (observation_spec spec binding)
          (lease_owner_of spec d) 60000000 none none m.between lease db' m.claimed in
      record {
        scope_key = held.scope_key;
        identity = held.identity;
        binding = binding;
        locked = m.locked;
        between = m.between;
        items = items;
        absent = m.absent;
        free = free;
        added = stored;
        made = (m.result, m.made);
        operations =
            ap (λ (x : Database). x.operations) written ∙ (λ i. same i ++ (sym returned) i ∷ []);
        named = ap (λ (r : OperationRecord). r.operation_id) returned;
        digest = ap (λ (r : OperationRecord). r.intent_digest) returned;
        locks = ap (λ (x : Database). x.locks) written ∙ ap (λ (x : Database). x.locks) stored;
        claimed = m.claimed;
        left = left;
      }

  -- Where each projection is the end of its verified event chain, each locator has at most one open
  -- lock, and an open configuration lock is the only open lock of its cluster, a call of `prepare` that
  -- returns a lease leaves all three so.
  pub prepare-keeps :
      IsChained p db
      → IsExclusive db.locks
      → IsIsolated db.locks
      → prepare p state d spec cluster_id db ≡ ok (operation, some lease, db')
      → IsChained p db' × IsExclusive db'.locks × IsIsolated db'.locks
  unfolding configuration_row
  prepare-keeps chained exclusive isolated h =
      let t = tables_of h in
      let locks = ap (λ (x : Database). x.locks) t.left ∙ t.locks in
      let chained1 =
        subst (IsChained p) (sym t.added) (record { rows = chained.rows; owned = chained.owned }) in
      let chained2 =
        create-IsChained p d.create_time d.event_id (bound_spec spec t.binding) empty t.locked
          t.locked t.between t.made.0 chained1 t.made.1 in
      (
        subst (IsChained p) (sym t.left) (record { rows = chained2.rows; owned = chained2.owned }),
        subst IsExclusive (sym locks) (
            configuration-IsExclusive d.lock_id d.lock_time spec.operation_type t.scope_key
              (strip cluster_id) (strip spec.operation_id) t.identity (spec_target spec) db.locks
              exclusive),
        subst IsIsolated (sym locks)
            (configuration-IsIsolated (lock_row t.scope_key t.identity) db.locks t.free isolated),
      )

  operation_after : (t : Tables) → find_operation spec.operation_id db'.operations ≡ some operation
  operation_after t =
      ap (λ (x : Database). find_operation spec.operation_id x.operations) t.left
      ∙ ap (find_operation spec.operation_id) t.operations
      ∙ find_operation-new spec.operation_id db.operations operation t.absent t.named

  -- A call of `prepare` that returns a lease has found no Operation with the id and no open lock in the
  -- cluster. It leaves the Operation, an open lock that the Operation owns as the last row of the lock
  -- table, and a lease that is owned for the following minute.
  pub prepare-owns :
      (later : ℕ)
      → later < d.claim_time + 60000000
      → prepare p state d spec cluster_id db ≡ ok (operation, some lease, db')
      → (find_operation spec.operation_id db.operations ≡ none)
        × (open_lock_in (strip cluster_id) db.locks ≡ none)
        × (find_operation spec.operation_id db'.operations ≡ some operation)
        × ((lock : OperationLockRecord) × (db'.locks ≡ db.locks ++ lock ∷ [])
            × (lock.owner_id ≡ strip spec.operation_id)
            × (lock.cluster_id ≡ strip cluster_id)
            × (is_open lock.status ≡ true))
        × ((row : OperationRecoveryItemRecord) × (locked_owned_row lease later db' ≡ ok row))
  unfolding configuration_row
  prepare-owns later before h =
      let t = tables_of h in
      (
        t.absent,
        t.free,
        operation_after t,
        (
          lock_row t.scope_key t.identity,
          ap (λ (x : Database). x.locks) t.left ∙ t.locks,
          refl,
          refl,
          refl,
        ),
        prepare_and_claim-owned p d.claim_time d.token (observation_spec spec t.binding)
            (lease_owner_of spec d) 60000000 none none t.between lease db' later t.claimed
            (omega (arith, before)),
      )

  -- After a call of `prepare` that returned a lease, a further call with the same spec returns the same
  -- Operation without a lease and changes nothing, whatever it draws, and whatever the connection and
  -- the cluster are.
  pub prepare_again :
      (state' : SetupState) (d' : Draws) (cluster_id' : String)
      → prepare p state d spec cluster_id db ≡ ok (operation, some lease, db')
      → prepare p state' d' spec cluster_id' db' ≡ ok (operation, none, db')
  unfolding prepare
  prepare_again state' d' cluster_id' h =
      let m = prepare-eq-ok p state d spec cluster_id db operation lease db' h in
      let t = tables_of h in
      let found = operation_after t in
      let exact = m.exact in
      let matches = m.matches in
      let digest = t.digest in
      let same : (operation.intent_digest == spec.intent_digest) ≡ true =
        rw digest (str_eq_refl spec.intent_digest) in
      rw (exact, matches, found, same, prepare) refl
