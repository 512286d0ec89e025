-- ===== src/Tests/Operations.antt =====
-- The theorems of the Operation modules at concrete inputs.
use gjallar.Prelude.{
  ◌≡◌, ◌≢◌, ◌⊎◌, ◌&&◌, refl, String, true, false, none, some, List, [], ◌∷◌, ◌++◌, map, arith,
}
use gjallar.Json.{Fields, get, text, empty, field}
use gjallar.Result.{ok, ◌>>=◌}
use gjallar.Database.{OperationRecord, Database, find_operation, replace_operation}
use gjallar.Operation.Status.{
  OperationStatus, draft, planned, awaiting_approval, approved, dispatching, needs_reconciliation,
  verifying, succeeded, running, unsupported, status_in, transition_allowed,
  terminal_operation_statuses,
}
use gjallar.Operation.Status.Paths.{
  Step, step, Reach, here, next, Visits, terminal_reachable, approval_before_dispatch,
  success_is_observed,
}
use gjallar.Operation.Event.{OperationEvent, verify_event_chain}
use gjallar.Operation.Event.Tamper.{digested, hashed_text, event_texts, verify_event_chain_unique}
use gjallar.Operation.Store.{
  new_event_row, has_event_id, append_in_session, checked_row, projected, list_events,
}
use gjallar.Operation.Store.Chain.{IsChained, next_event}
use gjallar.Operation.Store.Append.{append_in_session-IsChained, append_in_session-eq-checked}
use gjallar.Operation.Create.{create, created_payload, created_row, OperationCreateResult}
use gjallar.Operation.Create.Idempotent.{create_again}
use gjallar.Operation.Create.Scopes.{HasUniqueScopes, create-HasUniqueScopes, create-IsChained}
use gjallar.Tests.Data.{platform, no_rows, start_spec, to_planned, value}

abbrev row1 : OperationRecord
row1 = created_row platform 1 start_spec empty

abbrev pub db1 : Database
db1 =
    (value (record { operation = row1; created = false }, no_rows)
      (create platform 1 "evt-1" start_spec empty no_rows no_rows)).1

created1 :
    create platform 1 "evt-1" start_spec empty no_rows no_rows
    ≡ ok (record { operation = row1; created = true }, db1)
unfolding create gjallar.Operation.Create.get_by_scope gjallar.Operation.Create.insert_operation
    find_operation gjallar.Operation.Store.insert_event
created1 = refl

create_again_example :
    create platform 2 "evt-2" start_spec empty db1 db1
    ≡ ok (record { operation = row1; created = false }, db1)
create_again_example =
    create_again platform 1 2 "evt-1" "evt-2" start_spec empty empty no_rows no_rows db1 row1
      created1

no_rows-IsChained : IsChained platform no_rows
unfolding list_events
no_rows-IsChained = record { rows = tt; owned = λ id h. refl }

create-IsChained_example : IsChained platform db1
create-IsChained_example =
    create-IsChained platform 1 "evt-1" start_spec empty no_rows no_rows db1
      (record { operation = row1; created = true }) no_rows-IsChained created1

pub chained1 : IsChained platform db1
chained1 =
    create-IsChained platform 1 "evt-1" start_spec empty no_rows no_rows db1
      (record { operation = row1; created = true }) no_rows-IsChained created1

no_rows_unique : HasUniqueScopes no_rows.operations
unfolding gjallar.Operation.Create.Scopes.scope_count
no_rows_unique = record { at_most_one = λ spec. omega arith }

create-HasUniqueScopes_example : HasUniqueScopes db1.operations
create-HasUniqueScopes_example =
    create-HasUniqueScopes platform 1 "evt-1" start_spec empty no_rows no_rows db1
      (record { operation = row1; created = true }) no_rows_unique created1

abbrev row2 : OperationRecord
row2 = projected platform 2 row1 to_planned

abbrev db2 : Database
db2 = (value (row1, no_rows) (append_in_session platform 2 "evt-2" db1 "op-1" to_planned)).1

appended2 : append_in_session platform 2 "evt-2" db1 "op-1" to_planned ≡ ok (row2, db2)
unfolding append_in_session gjallar.Prelude.Text.is_blank find_operation create
    gjallar.Operation.Create.get_by_scope gjallar.Operation.Create.insert_operation
    gjallar.Operation.Store.insert_event created_row status_in transition_allowed
    gjallar.Operation.Store.new_event_row gjallar.Operation.Create.created_payload
    gjallar.Operation.Store.append_payload
appended2 = refl

append_in_session-IsChained_example : IsChained platform db2
append_in_session-IsChained_example =
    append_in_session-IsChained platform 2 "evt-2" db1 "op-1" to_planned row2 db2 chained1 appended2

new_id : has_event_id "evt-2" db1.events ≡ false
unfolding has_event_id create gjallar.Operation.Create.get_by_scope
    gjallar.Operation.Create.insert_operation gjallar.Operation.Store.insert_event
    gjallar.Operation.Store.new_event_row find_operation
new_id = refl

append_in_session-eq-checked_example :
    append_in_session platform 2 "evt-2" db1 "op-1" to_planned ≡ (
      checked_row db1 "op-1" to_planned >>= λ row. ok (
        projected platform 2 row to_planned,
        record db1 {
          operations = replace_operation (projected platform 2 row to_planned) db1.operations;
          events = db1.events ++ next_event platform 2 "evt-2" to_planned row ∷ [];
        },
      ))
append_in_session-eq-checked_example =
    append_in_session-eq-checked platform 2 "evt-2" db1 "op-1" to_planned chained1 new_id

verified2 : verify_event_chain platform db2.events ≡ true
unfolding verify_event_chain append_in_session gjallar.Prelude.Text.is_blank find_operation create
    gjallar.Operation.Create.get_by_scope gjallar.Operation.Create.insert_operation
    gjallar.Operation.Store.insert_event created_row status_in transition_allowed
    gjallar.Operation.Store.new_event_row gjallar.Operation.Create.created_payload
    gjallar.Operation.Store.append_payload gjallar.Operation.Event.operation_digest
verified2 = refl

-- The same events under other ids, the first with another payload.
abbrev renamed : Fields → String → OperationEvent → OperationEvent
renamed payload event_id e = record e { event_id = event_id; payload = payload }

abbrev other_note : Fields
other_note = field "note" (text "x") empty

abbrev first_event : OperationEvent
first_event = new_event_row platform "evt-1" (created_payload platform 1 start_spec empty)

abbrev other_events : List OperationEvent
other_events = elim db2.events [
  | [] ↦ []
  | e ∷ es ↦
      renamed other_note "evt-7" e ∷ map (λ (f : OperationEvent). renamed f.payload "evt-8" f) es
]

-- The dicts differ in the payload, which is no text.
other_payload :
    (e : OperationEvent) (payload : Fields) (event_id k s : String)
    → get k (digested platform e) ≡ some (text s)
    → get k (digested platform (renamed payload event_id e)) ≡ some (text s)
unfolding get
other_payload e payload event_id k s found = ground (arith, found)

other_verified : verify_event_chain platform other_events ≡ true
unfolding verify_event_chain gjallar.Operation.Event.operation_digest append_in_session
    gjallar.Prelude.Text.is_blank find_operation create gjallar.Operation.Create.get_by_scope
    gjallar.Operation.Create.insert_operation gjallar.Operation.Store.insert_event created_row
    status_in transition_allowed gjallar.Operation.Store.new_event_row
    gjallar.Operation.Create.created_payload gjallar.Operation.Store.append_payload
other_verified = refl

verify_event_chain_unique_example :
    (map (hashed_text platform) db2.events ≡ map (hashed_text platform) other_events)
    × (map event_texts db2.events ≡ map event_texts other_events)
unfolding append_in_session gjallar.Prelude.Text.is_blank find_operation create
    gjallar.Operation.Create.get_by_scope gjallar.Operation.Create.insert_operation
    gjallar.Operation.Store.insert_event created_row status_in transition_allowed
    gjallar.Operation.Store.new_event_row gjallar.Operation.Create.created_payload
    gjallar.Operation.Store.append_payload
verify_event_chain_unique_example =
    verify_event_chain_unique platform db2.events other_events verified2 other_verified refl refl
      (λ h. refl, (λ h. refl, tt))
      (λ h k s e. other_payload first_event other_note "evt-7" k s e, (λ h k s e. e, tt))

draft_supported : draft ≢ unsupported
draft_supported e = cc e

terminal_reachable_example :
    (t : OperationStatus) × Reach draft t × (status_in t terminal_operation_statuses ≡ true)
terminal_reachable_example = terminal_reachable draft draft_supported

abbrev step1 : Step awaiting_approval approved
unfolding transition_allowed
step1 = step refl

abbrev step2 : Step approved dispatching
unfolding transition_allowed
step2 = step refl

approval_before_dispatch_example : Visits approved (next (next here step1) step2)
approval_before_dispatch_example = approval_before_dispatch (next (next here step1) step2)

abbrev move1 : Step draft planned
unfolding transition_allowed
move1 = step refl

abbrev move2 : Step planned approved
unfolding transition_allowed
move2 = step refl

abbrev move3 : Step approved dispatching
unfolding transition_allowed
move3 = step refl

abbrev move4 : Step dispatching running
unfolding transition_allowed
move4 = step refl

abbrev move5 : Step running verifying
unfolding transition_allowed
move5 = step refl

abbrev move6 : Step verifying succeeded
unfolding transition_allowed
move6 = step refl

abbrev history : Reach draft succeeded
history = next (next (next (next (next (next here move1) move2) move3) move4) move5) move6

success_is_observed_example : Visits verifying history ⊎ Visits needs_reconciliation history
success_is_observed_example = success_is_observed history
