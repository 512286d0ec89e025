-- ===== src/Result.antt =====
-- Exceptions as values. One type lists the exceptions of the modelled components, with the fields
-- that a caller reads: backend/app/operations/core/domain.py, backend/app/operations/locks/domain.py,
-- backend/app/operations/recovery/domain.py and backend/app/auth.
use gjallar.Prelude.{String, Option, ◌≡◌, refl, ap, ◌⊎◌, inl, inr, Bool, true, false}
use gjallar.Operation.Status.{OperationStatus}

-- the codes of `SetupError` that admission raises, backend/app/setup_integration/runtime.py
pub data SetupError : Type 0 where
  setup_restart_required setup_admission_closed setup_credential_unavailable : SetupError
  setup_feature_not_selected setup_target_not_selected : SetupError

-- the `existing` dict of DurableTargetLockBusy: the lock that is held, by its id, or a reason
pub data BusyReason : Type 0 where
  held : String → BusyReason
  setup : SetupError → BusyReason
  host_configuration_in_progress : String → BusyReason
  host_configuration_target_busy : Option String → BusyReason
  unknown : BusyReason

-- the codes of `BridgeError` that the pending diff raises,
-- backend/app/operations/host_network/domain.py
pub data BridgeCode : Type 0 where
  host_network_diff_unverified host_network_foreign_changes : BridgeCode

-- the codes of `NetworkError` that the net0 rules raise,
-- backend/app/operations/vm_network/domain.py
pub data NetworkCode : Type 0 where
  vm_network_config_unsupported : NetworkCode

pub data Failure : Type 0 where
  value_error integrity_error : Failure
  invalid_operation_transition : OperationStatus → OperationStatus → Failure
  operation_intent_conflict operation_not_found : String → Failure
  operation_state_conflict : String → OperationStatus → Failure
  durable_target_lock_busy : String → BusyReason → Failure
  setup_error : SetupError → Failure
  bridge_error : BridgeCode → Failure
  network_error : NetworkCode → Failure
  recovery_not_found recovery_lease_lost recovery_lease_busy : String → Failure
  recovery_operation_conflict : String → Failure
  invalid_role current_password_invalid session_not_found : Failure
  duplicate_user user_not_found last_enabled_admin : String → Failure

pub data Result {ℓ} (Value : Type ℓ) : Type ℓ where
  ok : Value → Result Value
  err : Failure → Result Value

-- The statements after one that may raise; they run where it returned.
infixl 10 ◌>>=◌ ◌>>◌
abbrev pub ◌>>=◌ {ℓ μ} :
    {X : Type ℓ} {Y : Type μ} (first : Result X) (rest : X → Result Y) → Result Y
ok x >>= rest = rest x
err raised >>= rest = err raised

abbrev pub ◌>>◌ {μ} : {Y : Type μ} (first : Result (Unit {0})) (rest : Result Y) → Result Y
first >> rest = first >>= λ done. rest

-- `if test: raise e`
abbrev pub raise_if : Bool → Failure → Result (Unit {0})
raise_if true e = err e
raise_if false e = ok tt

-- Where the whole returned, its first part did.
pub >>=-eq-ok {ℓ μ} :
    {X : Type ℓ} {Y : Type μ} (first : Result X) (rest : X → Result Y) {y : Y}
    (returned : (first >>= rest) ≡ ok y)
    → (x : X) × (first ≡ ok x) × (rest x ≡ ok y)
>>=-eq-ok (ok x) rest returned = (x, refl, returned)
>>=-eq-ok (err raised) rest returned = cc

pub raise_if-eq-ok {ℓ} :
    {B : Type ℓ} (t : Bool) (e : Failure) (k : Result B) {b : B}
    → (raise_if t e >> k) ≡ ok b
    → (t ≡ false) × (k ≡ ok b)
raise_if-eq-ok true e k h = cc
raise_if-eq-ok false e k h = (refl, h)

pub Result-cases {ℓ} :
    {A : Type ℓ} (m : Result A) → ((a : A) × (m ≡ ok a)) ⊎ ((e : Failure) × (m ≡ err e))
Result-cases (ok a) = inl (a, refl)
Result-cases (err e) = inr (e, refl)

-- A returned value is determined.
pub result_value {ℓ} : {X : Type ℓ} {x y : X} → ok x ≡ ok y → x ≡ y
result_value {X} {x} {y} h = ap (λ (r : Result X). elim r [ ok z ↦ z | err raised ↦ x ]) h
