-- ===== src/Tests/Guards.antt =====
-- The theorems of the Guarded and Query modules at concrete inputs.
use gjallar.Prelude.{
  ℕ, ◌≡◌, ◌⊎◌, ◌↔◌, ◌&&◌, refl, String, Bool, true, false, not, none, some, List, [], ◌∷◌, ◌==◌,
}
use gjallar.Json.{empty}
use gjallar.Result.{ok}
use gjallar.Database.{
  OperationRecord, OperationLockRecord, OperationRecoveryItemRecord, Database, is_open,
}
use gjallar.Operation.Status.{planned, blocked, failed, status_in, terminal_operation_statuses}
use gjallar.Operation.Store.{append_in_session}
use gjallar.Operation.Store.Chain.{IsChained}
use gjallar.Operation.Create.{OperationSpec, create, created_row}
use gjallar.Operation.Create.Scopes.{create-IsChained}
use gjallar.Operation.Guarded.{
  EventRequest, from_planned, transition_for_target_lock_conflict, transition_pre_dispatch_failure,
}
use gjallar.Operation.Guarded.Closure.{
  IsConflict, IsClosable, transition_for_target_lock_conflict-cases,
  transition_pre_dispatch_failure-cases,
}
use gjallar.Operation.Query.{ListFilter}
use gjallar.Lock.{acquired_row}
use gjallar.Tests.Data.{platform, no_rows, start_spec, value}

abbrev planned_spec : OperationSpec
planned_spec = record start_spec { initial_status = planned }

abbrev planned_row : OperationRecord
planned_row = created_row platform 1 planned_spec empty

abbrev created_db : Database
created_db =
    (value (record { operation = planned_row; created = false }, no_rows)
      (create platform 1 "evt-1" planned_spec empty no_rows no_rows)).1

created_planned :
    create platform 1 "evt-1" planned_spec empty no_rows no_rows
    ≡ ok (record { operation = planned_row; created = true }, created_db)
unfolding create gjallar.Operation.Create.get_by_scope gjallar.Operation.Create.insert_operation
    gjallar.Database.find_operation gjallar.Operation.Store.insert_event
created_planned = refl

empty_tables-IsChained : IsChained platform no_rows
unfolding gjallar.Operation.Store.list_events
empty_tables-IsChained = record { rows = tt; owned = λ id h. refl }

created_db-IsChained : IsChained platform created_db
created_db-IsChained =
    create-IsChained platform 1 "evt-1" planned_spec empty no_rows no_rows created_db
      (record { operation = planned_row; created = true }) empty_tables-IsChained created_planned

-- The Operation's VM, locked by another Operation, and by itself.
abbrev foreign_db : Database
foreign_db = record created_db {
  locks = acquired_row "lock-9" 1 "vm_shutdown" "lab" 101 "op-9" "" ∷ [];
}

abbrev own_db : Database
own_db = record created_db { locks = acquired_row "lock-1" 1 "vm_start" "lab" 101 "op-1" "" ∷ [] }

foreign_db-IsChained : IsChained platform foreign_db
foreign_db-IsChained = record {
  rows = created_db-IsChained.rows;
  owned = created_db-IsChained.owned;
}

abbrev conflict_event : EventRequest
conflict_event = record {
  event_type = "target_locked";
  stage = "admission";
  payload = empty;
  details_patch = empty;
  actor = none;
  expected_statuses = none;
}

abbrev conflict1 : OperationRecord × Database
conflict1 =
    value (planned_row, no_rows)
      (transition_for_target_lock_conflict platform 2 "evt-2" foreign_db "op-1" "lock-9" "op-9"
        blocked conflict_event)

conflicts1 :
    transition_for_target_lock_conflict platform 2 "evt-2" foreign_db "op-1" "lock-9" "op-9" blocked
      conflict_event
    ≡ ok (conflict1.0, conflict1.1)
unfolding transition_for_target_lock_conflict gjallar.Operation.Store.require_operation
    gjallar.Database.find_operation create gjallar.Operation.Create.get_by_scope
    gjallar.Operation.Create.insert_operation gjallar.Operation.Store.insert_event created_row
    gjallar.Operation.Status.status_eq gjallar.Database.find_lock gjallar.Database.find_recovery
    acquired_row gjallar.Lock.decimal append_in_session gjallar.Prelude.Text.is_blank status_in
    gjallar.Operation.Status.transition_allowed gjallar.Operation.Store.new_event_row
    gjallar.Database.replace_operation gjallar.Operation.Create.created_payload
    gjallar.Operation.Store.append_payload gjallar.Operation.Store.checked_row
    gjallar.Operation.Store.write_event gjallar.Operation.Store.has_event
    gjallar.Operation.Store.projected
conflicts1 = refl

transition_for_target_lock_conflict-cases_example :
    (conflict1.1 ≡ foreign_db)
    ⊎ (IsConflict foreign_db "op-1" "lock-9" "op-9"
        × (append_in_session platform 2 "evt-2" foreign_db "op-1"
              (from_planned conflict_event blocked)
            ≡ ok (conflict1.0, conflict1.1)))
transition_for_target_lock_conflict-cases_example =
    transition_for_target_lock_conflict-cases platform 2 "evt-2" foreign_db "op-1" "lock-9"
      conflict_event "op-9" blocked conflict1.0 conflict1.1 conflicts1

abbrev closure1 : Bool × Database
closure1 =
    value (false, no_rows)
      (transition_pre_dispatch_failure platform 2 "evt-2" own_db "op-1" "lock-1" conflict_event)

closed1 :
    transition_pre_dispatch_failure platform 2 "evt-2" own_db "op-1" "lock-1" conflict_event
    ≡ ok (true, closure1.1)
unfolding transition_pre_dispatch_failure gjallar.Operation.Store.require_operation
    gjallar.Database.find_operation create gjallar.Operation.Create.get_by_scope
    gjallar.Operation.Create.insert_operation gjallar.Operation.Store.insert_event created_row
    gjallar.Operation.Status.status_eq gjallar.Database.find_lock gjallar.Database.find_recovery
    acquired_row gjallar.Lock.decimal append_in_session gjallar.Prelude.Text.is_blank status_in
    gjallar.Operation.Status.transition_allowed gjallar.Operation.Store.new_event_row
    gjallar.Database.replace_operation gjallar.Operation.Create.created_payload
    gjallar.Operation.Store.append_payload gjallar.Operation.Store.checked_row
    gjallar.Operation.Store.write_event gjallar.Operation.Store.has_event
    gjallar.Operation.Store.projected
closed1 = refl

transition_pre_dispatch_failure-cases_example :
    ((true ≡ false) × (closure1.1 ≡ own_db))
    ⊎ ((true ≡ true)
        × IsClosable platform 2 "evt-2" own_db "op-1" "lock-1" conflict_event
        × (row' : OperationRecord) × (append_in_session platform 2 "evt-2" own_db "op-1"
              (from_planned conflict_event failed)
            ≡ ok (row', closure1.1)))
transition_pre_dispatch_failure-cases_example =
    transition_pre_dispatch_failure-cases platform 2 "evt-2" own_db "op-1" "lock-1" conflict_event
      true closure1.1 closed1

abbrev vm_filter : ListFilter
vm_filter = record {
  status = some planned;
  operation_type = "vm_start";
  target_type = "";
  target_id = "";
}
