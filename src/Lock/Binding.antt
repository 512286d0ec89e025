-- ===== src/Lock/Binding.antt =====
-- backend/app/operations/locks/binding.py: the locks that an Operation's two ledgers bind.
use gjallar.Prelude.{
  ℕ, String, Bool, not, ◌&&◌, ◌||◌, Option, none, some, List, [], ◌∷◌, leb, nat_eq, ◌==◌,
  if◌then◌else◌,
}
use gjallar.Prelude.Text.{is_blank, after_prefix, number_of}
use gjallar.Json.{Json, Fields, nil, cons, number, text, array, object, get}
use gjallar.Json.Compare.{json_eq, or_null, is_truthy, has_keys}

-- `expected_lock_count`
unfoldable pub expected_lock_count : String → ℕ
expected_lock_count operation_type =
    if (operation_type == "vm_clone") || (operation_type == "vm_restore") then 2 else 1

-- {'lock_id': ..., 'vmid': ...}
pub record LockReference : Type 0 where
  pub lock_id : String
  pub vmid : ℕ

-- int(m[1]) of re.fullmatch("vmid:([0-9]+)", target_id)
unfoldable pub target_vmid : String → Option ℕ
unfolding number_of
target_vmid target_id = elim (after_prefix "vmid:" target_id) [
  | none ↦ none
  | some digits ↦ number_of digits
]

-- A row of `related_target_locks` with exactly a text `lock_id` and an int `vmid`.
unfoldable pub reference_of : Fields → Option LockReference
unfolding get has_keys
reference_of row = if not (has_keys "lock_id" "vmid" row) then none else elim (get "lock_id" row) [
  | some (text lock_id) ↦ elim (get "vmid" row) [
    | some (number vmid) ↦ some (record { lock_id = lock_id; vmid = vmid })
    | _ ↦ none
  ]
  | _ ↦ none
]

-- The last tests of `lock_references` on the related row.
unfoldable pub is_distinct_source : Fields → LockReference → LockReference → Bool
unfolding get
is_distinct_source source primary row =
    leb 100 row.vmid
    && leb row.vmid 999999999
    && json_eq (number row.vmid) (or_null (get "vmid" source))
    && not (nat_eq row.vmid primary.vmid)
    && not (is_blank row.lock_id)
    && not (row.lock_id == primary.lock_id)

-- `lock_references` of an Operation that binds two locks, after its primary
unfoldable pub related_references : LockReference → Json → Fields → List LockReference
unfolding get reference_of is_distinct_source
related_references primary extra operation_details = elim extra [
  | array (cons (object row) nil) ↦
      if not (json_eq (or_null (get "target_lock_id" operation_details)) (text primary.lock_id))
        || not (
            json_eq (or_null (get "related_target_locks" operation_details))
              (array (cons (object row) nil)))
      then []
      else elim (get "source" operation_details) [
        | some (object source) ↦ elim (reference_of row) [
          | none ↦ []
          | some related ↦
              if is_distinct_source source primary related then primary ∷ related ∷ [] else []
        ]
        | _ ↦ []
      ]
  | _ ↦ []
]

-- `recovery_details.get("related_target_locks", [])`
abbrev pub or_no_items : Option Json → Json
or_no_items none = array nil
or_no_items (some v) = v

-- `lock_references`
unfoldable pub lock_references : String → String → Fields → Fields → List LockReference
unfolding get target_vmid related_references expected_lock_count
lock_references operation_type target_id operation_details recovery_details =
    elim (target_vmid target_id) [
      | none ↦ []
      | some vmid ↦ elim (get "target_lock_id" recovery_details) [
        | some (text lock_id) ↦
            let primary : LockReference = record { lock_id = lock_id; vmid = vmid } in
            let extra = or_no_items (get "related_target_locks" recovery_details) in
            let related = related_references primary extra operation_details in
            if is_blank lock_id
            then []
            else if nat_eq (expected_lock_count operation_type) 1
            then (if is_truthy extra then [] else primary ∷ [])
            else related
        | _ ↦ []
      ]
    ]
