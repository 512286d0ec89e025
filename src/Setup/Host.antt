-- ===== src/Setup/Host.antt =====
-- `admit_host_mutation` of backend/app/setup_integration/runtime.py: the admission of a host
-- configuration change.
use gjallar.Prelude.{String, Bool, not, ◌&&◌, ◌||◌, none, some, List, any, ◌==◌, if◌then◌else◌}
use gjallar.Json.{Fields, get}
use gjallar.Result.{
  Result, ok, err, ◌>>◌, raise_if, value_error, setup_error, setup_admission_closed,
  setup_credential_unavailable, setup_feature_not_selected, setup_target_not_selected,
}
use gjallar.HostConfig.{target_identity, text_value}
use gjallar.Setup.{
  Credential, SetupState, TargetScope, is_active, is_legacy, has_feature, pin_selection,
  find_credential,
}

-- target[k], a text once `target_identity` has returned
abbrev pub target_text : String → Fields → String
target_text k target = elim (text_value (get k target)) [ none ↦ "" | some s ↦ s ]

abbrev pub has_text : String → List String → Bool
has_text s = any (λ t. t == s)

-- resource_id in scope.get(resource_key, [])
unfoldable pub selects_resource : String → Fields → TargetScope → Bool
unfolding get
selects_resource operation_type target scope =
    if operation_type == "host_storage"
    then has_text (target_text "storage_id" target) scope.host_storages
    else has_text (target_text "bridge_id" target) scope.host_bridges

-- The tests on the active credential.
unfoldable pub admit_host_credential : Credential → String → Fields → Result (Unit {0})
unfolding get selects_resource
admit_host_credential credential operation_type target = do
  let config = credential.configuration
  raise_if (not (has_feature operation_type config)) (setup_error setup_feature_not_selected)
  raise_if
      (not config.cluster_wide
        && (not (has_text (target_text "node_id" target) config.scope.nodes)
            || not (selects_resource operation_type target config.scope)))
      (setup_error setup_target_not_selected)
  raise_if (not credential.decrypts) (setup_error setup_credential_unavailable)

-- The tests after the selection is pinned.
unfoldable pub admit_host_connection : SetupState → String → String → Fields → Result (Unit {0})
unfolding admit_host_credential
admit_host_connection state cluster_id operation_type target = elim state.connection [
  | none ↦ ok tt
  | some connection ↦ do
    raise_if (not (connection.cluster_id == cluster_id) || not connection.admission_open)
        (setup_error setup_admission_closed)
    if is_legacy connection.source
        then ok tt
        else elim (find_credential connection.active_revision_id state.credentials) [
          | none ↦ err (setup_error setup_credential_unavailable)
          | some credential ↦ do
            raise_if (not (is_active credential.state)) (setup_error setup_credential_unavailable)
            admit_host_credential credential operation_type target
        ]
]

-- `admit_host_mutation`
unfoldable pub admit_host_mutation : SetupState → String → String → Fields → Result (Unit {0})
unfolding admit_host_connection
admit_host_mutation state cluster_id operation_type target =
    elim (target_identity operation_type target) [
      | none ↦ err value_error
      | some identity ↦ do
        pin_selection state
        admit_host_connection state cluster_id operation_type target
    ]
