-- ===== src/HostConfig/Admission/Outcome.antt =====
-- What `prepare` of backend/app/operations/host_config/admission.py has done where it returns a lease.
use gjallar.Prelude.{
  ℕ, ◌≡◌, refl, sym, subst, ap, ◌∙◌, String, true, inl, inr, Option, none, some, List, [], ◌∷◌,
  ◌++◌, arith, some_value, str_eq_iff, Bool-cases, Option-cases,
}
use gjallar.Prelude.Text.{strip}
use gjallar.Json.{empty}
use gjallar.Operation.Event.{Platform}
use gjallar.Operation.Create.{
  OperationSpec, OperationCreateResult, create, created_row, insert_operation,
}
use gjallar.Operation.Create.Idempotent.{create-inserted, create-unchanged}
use gjallar.Result.{ok, >>=-eq-ok, result_value}
use gjallar.Database.{OperationRecord, OperationRecoveryItemRecord, Database, find_operation}
use gjallar.Setup.{SetupState}
use gjallar.Recovery.{
  RecoverySpec, RecoveryLease, prepare_and_claim, claim_with, prepared_row, update_recovery,
  assert_operation_identity, first_row,
}
use gjallar.Recovery.Steps.{prepare_and_claim-eq-ok}
use gjallar.HostConfig.{target_identity}
use gjallar.HostConfig.Lock.{ConfigurationLock, acquire_configuration}
use gjallar.HostConfig.Admission.{
  Draws, spec_target, binding_of, bound_spec, observation_spec, lease_owner_of, prepare_new,
  prepare, is_exact_target,
}

-- The parts of an equation between answers.
some_pair :
    (answer answer' : OperationRecord × Option RecoveryLease × Database)
    (lease lease' : RecoveryLease)
    → answer' ≡ answer
    → answer.1 ≡ some lease
    → answer'.1 ≡ some lease'
    → lease' ≡ lease
some_pair answer answer' lease lease' e a b =
    some_value (sym b ∙ ap (λ (t : OperationRecord × Option RecoveryLease × Database). t.1) e ∙ a)

-- A preparation reads the Operation.
pub prepare_and_claim-found :
    (p : Platform) (now : ℕ) (token : String) (spec : RecoverySpec) (owner : String)
    (lease_time : ℕ) (version : Option ℕ) (checksum : Option String) (db : Database)
    (lease : RecoveryLease) (db' : Database)
    → prepare_and_claim p now token spec owner lease_time version checksum db ≡ ok (lease, db')
    → (row : OperationRecord) × (find_operation spec.operation_id db.operations ≡ some row)
unfolding prepare_and_claim assert_operation_identity
prepare_and_claim-found p now token spec owner lease_time version checksum db lease db' h =
    elim (Option-cases (find_operation spec.operation_id db.operations)) [
      | inl absent ↦ ground (arith, absent)
      | inr found ↦ found
    ]

pub prepare_and_claim-keeps_rows :
    (p : Platform) (now : ℕ) (token : String) (spec : RecoverySpec) (owner : String)
    (lease_time : ℕ) (version : Option ℕ) (checksum : Option String) (db : Database)
    (lease : RecoveryLease) (db' : Database)
    → prepare_and_claim p now token spec owner lease_time version checksum db ≡ ok (lease, db')
    → (items : List OperationRecoveryItemRecord) × (db' ≡ record db { recovery_items = items })
unfolding claim_with
prepare_and_claim-keeps_rows p now token spec owner lease_time version checksum db lease db' h =
    elim (prepare_and_claim-eq-ok p now token owner lease_time version checksum db spec lease db'
      h) [
        | inl (absent, l, stored) ↦
            (db.recovery_items ++ first_row p now spec (strip owner) token lease_time ∷ [], stored)
        | inr (row, found, live, unfinished, claim) ↦ (
          update_recovery row.operation_id (prepared_row p now spec (strip owner) token lease_time)
              db.recovery_items,
          ap (λ t. t.1) claim,
        )
      ]

pub find_operation-new :
    (id : String) (rows : List OperationRecord) (row : OperationRecord)
    → find_operation id rows ≡ none
    → row.operation_id ≡ id
    → find_operation id (rows ++ row ∷ []) ≡ some row
unfolding find_operation
find_operation-new id [] row h e = ground (arith, e, str_eq_iff row.operation_id id)
find_operation-new id (x ∷ rows) row h e = ground (arith, h, e, find_operation-new id rows row)

module _ (p : Platform) (state : SetupState) (d : Draws) (spec : OperationSpec)
    (cluster_id : String) (db : Database) where
  -- The three calls of a preparation that gives a lease.
  pub record Prepared (operation : OperationRecord) (lease : RecoveryLease) (db' : Database)
      : Type 0 where
    pub identity : String × String
    pub exact : target_identity spec.operation_type (spec_target spec) ≡ some identity
    pub matches : is_exact_target spec identity ≡ true
    pub absent : find_operation spec.operation_id db.operations ≡ none
    pub lock : ConfigurationLock
    pub locked : Database
    pub held :
        acquire_configuration p state d.lock_id d.lock_time spec.operation_type cluster_id
          spec.operation_id
          (spec_target spec)
          db
        ≡ ok (lock, locked)
    pub result : OperationCreateResult
    pub between : Database
    pub made :
        create p d.create_time d.event_id
          (bound_spec spec (binding_of spec lock))
          empty
          locked
          locked
        ≡ ok (result, between)
    pub claimed :
        prepare_and_claim p d.claim_time d.token
          (observation_spec spec (binding_of spec lock))
          (lease_owner_of spec d)
          60000000
          none
          none
          between
        ≡ ok (lease, db')
    pub returned : operation ≡ result.operation

  pub prepare-eq-ok :
      (operation : OperationRecord) (lease : RecoveryLease) (db' : Database)
      → prepare p state d spec cluster_id db ≡ ok (operation, some lease, db')
      → Prepared operation lease db'
  unfolding prepare prepare_new
  prepare-eq-ok operation lease db' h =
      elim (Option-cases (target_identity spec.operation_type (spec_target spec))) [
        | inl unknown ↦ ground (arith, unknown)
        | inr (identity, exact) ↦ elim (Bool-cases (is_exact_target spec identity)) [
          | inr other ↦ ground (arith, exact, other)
          | inl same ↦ elim (Option-cases (find_operation spec.operation_id db.operations)) [
            | inr (existing, found) ↦ ground (arith, exact, same, found)
            | inl absent ↦
                let run = rw (exact, same, absent, prepare) at h in
                let ((lock, locked), held, rest) =
                  >>=-eq-ok
                    (acquire_configuration p state d.lock_id d.lock_time spec.operation_type
                      cluster_id spec.operation_id (spec_target spec) db)
                    _ run in
                let ((result, between), made, rest1) =
                  >>=-eq-ok
                    (create p d.create_time d.event_id (bound_spec spec (binding_of spec lock))
                      empty locked locked)
                    _ rest in
                let ((lease', after), claimed, done) =
                  >>=-eq-ok
                    (prepare_and_claim p d.claim_time d.token
                      (observation_spec spec (binding_of spec lock)) (lease_owner_of spec d)
                      60000000 none none between)
                    _ rest1 in
                let e = result_value done in
                record {
                  identity = identity;
                  exact = exact;
                  matches = same;
                  absent = absent;
                  lock = lock;
                  locked = locked;
                  held = held;
                  result = result;
                  between = between;
                  made = made;
                  claimed = claimed ∙ (λ i. ok (
                    some_pair (operation, some lease, db') (result.operation, some lease', after)
                        lease lease' e refl refl i,
                    (e i).2,
                  ));
                  returned = sym (ap (λ t. t.0) e);
                }
          ]
        ]
      ]

  -- The Operation of a preparation is new.
  pub Prepared-created :
      (operation : OperationRecord) (lease : RecoveryLease) (db' : Database)
      (m : Prepared operation lease db')
      → find_operation spec.operation_id m.locked.operations ≡ none
      → (operation ≡ created_row p d.create_time (bound_spec spec (binding_of spec m.lock)) empty)
        × (insert_operation p d.create_time d.event_id
              (bound_spec spec (binding_of spec m.lock))
              empty
              m.locked
            ≡ ok m.between)
  Prepared-created operation lease db' m absent = elim (Bool-cases m.result.created) [
    | inl new ↦
        let (row, inserted) =
          create-inserted p d.create_time d.event_id (bound_spec spec (binding_of spec m.lock))
            empty m.locked m.locked m.between m.result m.made new in
        (m.returned ∙ row, inserted)
    | inr old ↦
        let same =
          create-unchanged p d.create_time d.event_id (bound_spec spec (binding_of spec m.lock))
            empty m.locked m.locked m.between m.result m.made old in
        let (row, found) =
          prepare_and_claim-found p d.claim_time d.token
            (observation_spec spec (binding_of spec m.lock)) (lease_owner_of spec d) 60000000 none
            none m.between lease db' m.claimed in
        let gone =
          subst (λ (x : Database). find_operation spec.operation_id x.operations ≡ none) (sym same)
            absent in
        cc (found, gone)
  ]
