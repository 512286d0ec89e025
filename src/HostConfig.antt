-- ===== src/HostConfig.antt =====
-- backend/app/operations/host_config/domain.py: the exact target of a host configuration operation
-- and the binding of its lock.
pub mod Lock
pub mod Admission
use Prim.Native.String.{◌++◌ as str_append}
use gjallar.Prelude.{
  String, Bool, true, false, not, ◌&&◌, ◌||◌, Option, none, some, List, [], ◌∷◌, any, length, leb,
  nat_eq, ltb, ◌==◌, if◌then◌else◌,
}
use gjallar.Prelude.Text.{strip, is_blank, codes, is_alnum, is_digit, all_codes, after_prefix}
use gjallar.Json.{Json, Fields, null, text, get}
use gjallar.Json.Compare.{json_eq, or_null, is_truthy, has_keys, mapping}
use gjallar.Operation.Event.{Platform}

-- operation_type in HOST_OPERATION_TYPES
abbrev pub is_host_type : String → Bool
is_host_type operation_type =
    (operation_type == "host_storage") || (operation_type == "host_network")

abbrev pub host_binding_fields : List String
host_binding_fields =
    "target_lock_id" ∷ "cluster_id" ∷ "scope_key" ∷ "target_type" ∷ "target_id" ∷ "target"
    ∷ "operation_type" ∷ "execution_mode" ∷ "related_target_locks" ∷ "vmid" ∷ []

-- re.fullmatch(IDENTIFIER, s)
unfoldable pub is_identifier : String → Bool
is_identifier s = elim (codes s) [
  | [] ↦ false
  | c ∷ cs ↦
      is_alnum c
      && leb (length cs) 63
      && all_codes (λ d. is_alnum d || nat_eq d b'_' || nat_eq d b'.' || nat_eq d b'-') cs
]

-- re.fullmatch("vmbr[0-9]{1,4}", s)
unfoldable pub is_bridge : String → Bool
is_bridge s = elim (after_prefix "vmbr" s) [
  | none ↦ false
  | some rest ↦
      leb 1 (length (codes rest)) && leb (length (codes rest)) 4 && all_codes is_digit (codes rest)
]

-- `configuration_scope_key` of a text; none where it raises
unfoldable pub configuration_scope_key : Platform → String → Option String
configuration_scope_key p cluster_id =
    if is_blank cluster_id || ltb 120 (length (codes (strip cluster_id)))
    then none
    else some (str_append "proxmox_configuration:" (p.sha256_of_text (strip cluster_id)))

-- target[k] where it is a text that passes the test
abbrev pub text_at : (String → Bool) → String → Fields → Option String
text_at test k fs = elim (get k fs) [ some (text s) ↦ if test s then some s else none | _ ↦ none ]

-- The branch of `target_identity` for a storage.
unfoldable pub storage_identity : Fields → Option (String × String)
unfolding get
storage_identity target =
    if has_keys "node_id" "storage_id" target
    then elim (text_at is_identifier "storage_id" target) [
      | some storage ↦ some ("proxmox_storage", str_append "storage:" storage)
      | none ↦ none
    ]
    else none

-- The branch of `target_identity` for a bridge.
unfoldable pub bridge_identity : String → Fields → Option (String × String)
unfolding get
bridge_identity node target =
    if has_keys "node_id" "bridge_id" target
    then elim (text_at is_bridge "bridge_id" target) [
      | some bridge ↦
          some
            ("proxmox_network", str_append "node:" (str_append node (str_append "/bridge:" bridge)))
      | none ↦ none
    ]
    else none

-- `target_identity` of a mapping; none where it raises
unfoldable pub target_identity : String → Fields → Option (String × String)
unfolding get
target_identity operation_type target = elim (text_at is_identifier "node_id" target) [
  | none ↦ none
  | some node ↦
      if operation_type == "host_storage"
      then storage_identity target
      else if operation_type == "host_network"
      then bridge_identity node target
      else none
]

-- The fields that both ledgers must hold alike.
abbrev pub bound_fields : List String
bound_fields =
    "target_lock_id" ∷ "cluster_id" ∷ "scope_key" ∷ "target_type" ∷ "target_id" ∷ "target"
    ∷ "operation_type" ∷ "execution_mode" ∷ []

-- field not in operation_details or operation_details[field] != recovery_details.get(field)
unfoldable pub field_differs : Fields → Fields → String → Bool
field_differs operation_details recovery_details k = elim (get k operation_details) [
  | none ↦ true
  | some v ↦ not (json_eq v (or_null (get k recovery_details)))
]

-- The dict that `lock_binding` returns, by the fields that its callers read.
pub record LockBinding : Type 0 where
  pub target_lock_id : String
  pub cluster_id : String
  pub scope_key : String
  pub target : Json
  pub execution_mode : String

-- d.get(k) == s
abbrev pub holds_text : String → String → Fields → Bool
holds_text k s fs = json_eq (or_null (get k fs)) (text s)

-- A text's value; any other value fails the tests of `lock_binding`.
abbrev pub text_value : Option Json → Option String
text_value (some (text s)) = some s
text_value _ = none

-- bool(d.get(k))
abbrev pub is_set : String → Fields → Bool
is_set k fs = is_truthy (or_null (get k fs))

-- The tests of `lock_binding` after both identities are computed.
unfoldable pub is_bound :
    String → String → String → Fields → Fields → String → String → String × String → Bool
unfolding get
is_bound operation_type target_type target_id operation_details recovery_details lock_id scope
      exact =
    not (is_blank lock_id)
    && holds_text "scope_key" scope operation_details
    && holds_text "target_type" target_type operation_details
    && holds_text "target_id" target_id operation_details
    && (exact.0 == target_type)
    && (exact.1 == target_id)
    && holds_text "operation_type" operation_type operation_details
    && holds_text "execution_mode" "managed_api" operation_details
    && not (is_set "related_target_locks" operation_details)
    && not (is_set "related_target_locks" recovery_details)
    && json_eq (or_null (get "vmid" operation_details)) null
    && json_eq (or_null (get "vmid" recovery_details)) null

-- `lock_binding`
unfoldable pub lock_binding :
    Platform → String → String → String → Fields → Fields → Option LockBinding
unfolding get field_differs
lock_binding p operation_type target_type target_id operation_details recovery_details =
    if not (is_host_type operation_type)
      || any (field_differs operation_details recovery_details) bound_fields
    then none
    else elim (target_identity operation_type (mapping (get "target" operation_details))) [
      | none ↦ none
      | some exact ↦ elim (text_value (get "cluster_id" operation_details)) [
        | none ↦ none
        | some cluster_id ↦ elim (configuration_scope_key p cluster_id) [
          | none ↦ none
          | some scope ↦ elim (text_value (get "target_lock_id" operation_details)) [
            | none ↦ none
            | some lock_id ↦
                if is_bound operation_type target_type target_id operation_details recovery_details
                  lock_id scope exact
                then some (record {
                  target_lock_id = lock_id;
                  cluster_id = cluster_id;
                  scope_key = scope;
                  target = or_null (get "target" operation_details);
                  execution_mode = "managed_api";
                })
                else none
          ]
        ]
      ]
    ]

-- `preserves_lock_binding`
unfoldable pub preserves_lock_binding : Fields → Fields → Bool
unfolding get
preserves_lock_binding current patch = not (
    any
      (λ k. elim (get k patch) [
        | none ↦ false
        | some v ↦ not (json_eq v (or_null (get k current)))
      ])
      host_binding_fields)
