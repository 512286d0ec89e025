-- ===== src/Setup.antt =====
-- backend/app/setup_integration/runtime.py: the admission of a VM change by the connection that the
-- operator selected, and the tables of backend/app/setup_integration/models.py that it reads.
pub mod Scope
pub mod Host
use gjallar.Prelude.{
  ℕ, String, Bool, true, false, not, ◌&&◌, ◌||◌, Option, none, some, List, [], ◌∷◌, ◌++◌, any,
  nat_eq, ◌==◌, if◌then◌else◌,
}
use gjallar.Result.{
  Result, ok, err, ◌>>=◌, ◌>>◌, raise_if, setup_error, setup_restart_required,
  setup_admission_closed, setup_credential_unavailable, setup_feature_not_selected,
  setup_target_not_selected,
}

pub data ConnectionSource : Type 0 where
  legacy_env managed : ConnectionSource

pub data CredentialState : Type 0 where
  pending active retiring revoked : CredentialState

-- ProxmoxConnectionRecord
pub record Connection : Type 0 where
  pub cluster_id : String
  pub source : ConnectionSource
  pub active_revision_id : Option String
  pub admission_open : Bool

-- config["scope"]; a list that is absent is empty
pub record TargetScope : Type 0 where
  pub vmids : List ℕ
  pub create_vmids : List ℕ
  pub restore_vmids : List ℕ
  pub clone_vmids : List ℕ
  pub image_vmids : List ℕ
  pub nodes : List String
  pub host_storages : List String
  pub host_bridges : List String

-- credential.configuration; `cluster_wide` is `access_mode == "cluster"`
pub record Configuration : Type 0 where
  pub features : List String
  pub scope : TargetScope
  pub cluster_wide : Bool

-- ProxmoxCredentialRecord; `decrypts` says whether `decrypt_credential` returns, a question to the
-- AES-GCM cipher of the `cryptography` package
pub record Credential : Type 0 where
  pub revision_id : String
  pub state : CredentialState
  pub configuration : Configuration
  pub decrypts : Bool

-- What admission reads: the connection in slot 1, the credentials, and the selection that this
-- process pinned before, if it did.
pub record SetupState : Type 0 where
  pub connection : Option Connection
  pub credentials : List Credential
  pub pinned : Option (ConnectionSource × Option String)

abbrev pub is_legacy : ConnectionSource → Bool
is_legacy legacy_env = true
is_legacy managed = false

abbrev pub is_active : CredentialState → Bool
is_active active = true
is_active _ = false

abbrev pub contains : ℕ → List ℕ → Bool
contains vmid = any (nat_eq vmid)

abbrev pub has_feature : String → Configuration → Bool
has_feature feature config = any (λ f. f == feature) config.features

abbrev same_selection : ConnectionSource × Option String → ConnectionSource × Option String → Bool
same_selection (legacy_env, none) (legacy_env, none) = true
same_selection (managed, none) (managed, none) = true
same_selection (legacy_env, some r) (legacy_env, some s) = r == s
same_selection (managed, some r) (managed, some s) = r == s
same_selection _ _ = false

-- `pin_selection`: `_pins.setdefault`, then the comparison
unfoldable pub pin_selection : SetupState → Result (Unit {0})
pin_selection state =
    let selection : ConnectionSource × Option String = elim state.connection [
      | none ↦ (legacy_env, none)
      | some c ↦ (c.source, c.active_revision_id)
    ] in
    elim state.pinned [
      | none ↦ ok tt
      | some previous ↦
          raise_if (not (same_selection previous selection)) (setup_error setup_restart_required)
    ]

-- session.get(ProxmoxCredentialRecord, revision_id)
unfoldable pub find_credential : Option String → List Credential → Option Credential
find_credential none credentials = none
find_credential (some id) [] = none
find_credential (some id) (c ∷ credentials) =
    if c.revision_id == id then some c else find_credential (some id) credentials

-- the table from operation types to features
unfoldable pub required_feature : String → Option String
required_feature operation_type =
    if (operation_type == "vm_start") || (operation_type == "vm_shutdown")
    then some "power"
    else if operation_type == "vm_compute"
    then some "compute"
    else if operation_type == "vm_create"
    then some "create"
    else if operation_type == "vm_disk_resize"
    then some "disk"
    else if operation_type == "vm_network"
    then some "network"
    else if operation_type == "vm_clone"
    then some "clone"
    else if operation_type == "vm_delete"
    then some "delete"
    else if operation_type == "vm_template"
    then some "template"
    else if operation_type == "vm_image_build"
    then some "image_build"
    else if operation_type == "vm_image_cleanup"
    then some "image_cleanup"
    else if operation_type == "vm_backup"
    then some "backup"
    else if operation_type == "vm_restore"
    then some "restore"
    else if operation_type == "vm_migrate"
    then some "migrate"
    else none

-- The assignments to `targets`, in order: a later one replaces or extends an earlier one.
unfoldable pub feature_targets : String → Bool → TargetScope → List ℕ
feature_targets feature restored_target scope =
    let t0 =
      if feature == "create" then scope.create_vmids else scope.vmids ++ scope.create_vmids in
    let t1 = if feature == "image_build" then scope.image_vmids else t0 in
    let t2 =
      if (feature == "template")
        || (feature == "image_cleanup")
        || (feature == "backup")
        || (feature == "migrate")
      then scope.vmids
      else t1 in
    let t3 = if (feature == "power") && restored_target then t2 ++ scope.restore_vmids else t2 in
    let t4 = if feature == "restore" then scope.vmids ++ scope.restore_vmids else t3 in
    if feature == "clone" then scope.vmids ++ scope.clone_vmids else t4

-- The tests of `admit_mutation` on the active credential.
unfoldable pub admit_credential : Credential → ℕ → String → Result (Unit {0})
admit_credential credential vmid operation_type =
    let config = credential.configuration in
    let created_target = has_feature "create" config && contains vmid config.scope.create_vmids in
    let restored_target =
      has_feature "restore" config && contains vmid config.scope.restore_vmids in
    elim (required_feature operation_type) [
      | none ↦ err (setup_error setup_feature_not_selected)
      | some feature ↦ do
        raise_if
            (not (has_feature feature config)
              && not ((created_target || restored_target) && (feature == "power")))
            (setup_error setup_feature_not_selected)
        raise_if
            (not config.cluster_wide
              && not (contains vmid (feature_targets feature restored_target config.scope)))
            (setup_error setup_target_not_selected)
        raise_if (not credential.decrypts) (setup_error setup_credential_unavailable)
    ]

-- `admit_mutation`
unfoldable pub admit_mutation : SetupState → String → ℕ → String → Result (Unit {0})
admit_mutation state cluster_id vmid operation_type = do
  pin_selection state
  elim state.connection [
    | none ↦ ok tt
    | some connection ↦ do
      raise_if (not (connection.cluster_id == cluster_id) || not connection.admission_open)
          (setup_error setup_admission_closed)
      if is_legacy connection.source
          then ok tt
          else elim (find_credential connection.active_revision_id state.credentials) [
            | none ↦ err (setup_error setup_credential_unavailable)
            | some credential ↦ do
              raise_if (not (is_active credential.state)) (setup_error setup_credential_unavailable)
              admit_credential credential vmid operation_type
          ]
  ]
