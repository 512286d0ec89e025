-- ===== src/HostConfig/Admission.antt =====
-- `HostConfigurationAdmission.prepare` of backend/app/operations/host_config/admission.py: one
-- transaction that takes the configuration lock, creates the Operation and claims its recovery item.
pub mod Outcome
pub mod Effects
use Prim.Native.String.{◌++◌ as str_append}
use gjallar.Prelude.{
  ℕ, String, Bool, true, false, not, ◌&&◌, Option, none, some, ◌==◌, if◌then◌else◌,
}
use gjallar.Json.{Json, Fields, text, object, empty, field, merge, get}
use gjallar.Json.Compare.{mapping}
use gjallar.Operation.Event.{Platform}
use gjallar.Operation.Create.{OperationSpec, OperationCreateResult, create}
use gjallar.Result.{Result, ok, err, ◌>>=◌, ◌>>◌, raise_if, value_error, operation_intent_conflict}
use gjallar.Database.{OperationRecord, Database, find_operation}
use gjallar.Setup.{SetupState}
use gjallar.Recovery.{RecoverySpec, RecoveryLease, prepare_and_claim}
use gjallar.HostConfig.{target_identity}
use gjallar.HostConfig.Lock.{ConfigurationLock, acquire_configuration}

-- What the clock reads in the three steps, and the ids and the token that the call draws.
pub record Draws : Type 0 where
  pub lock_time : ℕ
  pub create_time : ℕ
  pub claim_time : ℕ
  pub event_id : String
  pub lock_id : String
  pub token : String
  pub nonce : String

-- `target`
abbrev pub spec_target : OperationSpec → Fields
spec_target spec = mapping (get "target" spec.details)

-- `binding`
unfoldable pub binding_of : OperationSpec → ConfigurationLock → Fields
unfolding get
binding_of spec lock = field "target_lock_id" (text lock.lock_id) (
    field "cluster_id" (text lock.cluster_id) (
      field "scope_key" (text lock.scope_key) (
        field "target_type" (text spec.target_type) (
          field "target_id" (text spec.target_id) (
            field "target" (object (spec_target spec)) (
              field "operation_type" (text spec.operation_type)
                (field "execution_mode" (text spec.execution_mode) empty)))))))

-- replace(spec, details={**spec.details, **binding})
abbrev pub bound_spec : OperationSpec → Fields → OperationSpec
bound_spec spec binding = record spec { details = merge spec.details binding }

-- RecoverySpec(spec.operation_id, spec.operation_type + "_observation", binding)
abbrev pub observation_spec : OperationSpec → Fields → RecoverySpec
observation_spec spec binding = record {
  operation_id = spec.operation_id;
  recovery_kind = str_append spec.operation_type "_observation";
  details = binding;
}

-- spec.operation_type + ":" + uuid.uuid4().hex
abbrev pub lease_owner_of : OperationSpec → Draws → String
lease_owner_of spec d = str_append spec.operation_type (str_append ":" d.nonce)

-- `prepare`, where no Operation has the id
unfoldable pub prepare_new :
    Platform
    → SetupState
    → Draws
    → OperationSpec
    → String
    → Database
    → Result (OperationRecord × Option RecoveryLease × Database)
unfolding binding_of get
prepare_new p state d spec cluster_id db = do
  held ←
      acquire_configuration p state d.lock_id d.lock_time spec.operation_type cluster_id
        spec.operation_id (spec_target spec) db
  let binding = binding_of spec held.0
  created ← create p d.create_time d.event_id (bound_spec spec binding) empty held.1 held.1
  claimed ←
      prepare_and_claim p d.claim_time d.token (observation_spec spec binding)
        (lease_owner_of spec d) 60000000 none none created.1
  ok (created.0.operation, some claimed.0, claimed.1)

-- (spec.target_type, spec.target_id, spec.execution_mode) == (expected_type, expected_id, 'managed_api')
abbrev pub is_exact_target : OperationSpec → String × String → Bool
is_exact_target spec identity =
    (spec.target_type == identity.0)
    && (spec.target_id == identity.1)
    && (spec.execution_mode == "managed_api")

-- `prepare`
unfoldable pub prepare :
    Platform
    → SetupState
    → Draws
    → OperationSpec
    → String
    → Database
    → Result (OperationRecord × Option RecoveryLease × Database)
unfolding prepare_new get
prepare p state d spec cluster_id db =
    elim (target_identity spec.operation_type (spec_target spec)) [
      | none ↦ err value_error
      | some identity ↦ do
        raise_if (not (is_exact_target spec identity)) value_error
        elim (find_operation spec.operation_id db.operations) [
          | some existing ↦ do
            raise_if (not (existing.intent_digest == spec.intent_digest))
                (operation_intent_conflict spec.operation_id)
            ok (existing, none, db)
          | none ↦ prepare_new p state d spec cluster_id db
        ]
    ]
