-- ===== src/Operation/Store/Append.antt =====
-- `append_in_session` of backend/app/operations/core/infrastructure/repository.py: what it returns,
-- what it writes, and the invariant that it keeps.
use gjallar.Prelude.{
  inl, inr, ℕ, ◌≡◌, subst, sym, ◌∙◌, String, true, false, none, some, [], ◌∷◌, ◌++◌,
}
use gjallar.Operation.Status.{transition_allowed}
use gjallar.Operation.Event.{Platform}
use gjallar.Operation.Store.{
  list_events, has_event_id, AppendRequest, projected, append_in_session, checked_row, write_event,
  target_status, is_unexpected, append_payload, new_event_row,
}
use gjallar.Operation.Store.Listing.{list_events-append_ne}
use gjallar.Operation.Store.Chain.{
  HasChain, IsChained, next_event, rows-replace, find_operation-id, insert_next_event,
  find_operation-All, find-replace_operation, checked_row-eq-ok, write_event-eq-ok,
}
use gjallar.Result.{◌>>=◌, Result-cases, ok, >>=-eq-ok}
use gjallar.Database.{OperationRecord, Database, find_operation, replace_operation}

module _ (p : Platform) (now : ℕ) (event_id : String) (db : Database) where
  -- A call that returns has found its row, met the expectation of its caller and the transition
  -- table, and has written the projection and one event after the events that were there.
  pub append_in_session-eq-ok :
      (id : String) (req : AppendRequest) (row' : OperationRecord) (db' : Database)
      → append_in_session p now event_id db id req ≡ ok (row', db')
      → (row : OperationRecord) × (find_operation id db.operations ≡ some row)
        × (is_unexpected row.status req.expected_statuses ≡ false)
        × (req.is_transition ≡ true → transition_allowed row.status (target_status row req) ≡ true)
        × (row' ≡ projected p now row req)
        × (db' ≡ record db {
          operations = replace_operation row' db.operations;
          events = db.events ++ next_event p now event_id req row ∷ [];
        })
  unfolding append_in_session
  append_in_session-eq-ok id req row' db' h =
      let (row, checked, wrote) =
        >>=-eq-ok (checked_row db id req) (λ row. write_event p now event_id db req row) h in
      let (found, expected, allowed) = checked_row-eq-ok db id req row checked in
      let (proj, stored) = write_event-eq-ok p now event_id db req row row' db' wrote in
      (row, found, expected, allowed, proj, stored)

  -- The events of an Operation that is not in the table stay none.
  owned-append :
      (row : OperationRecord) (req : AppendRequest)
      → IsChained p db
      → find_operation row.operation_id db.operations ≡ some row
      → (id : String)
      → find_operation id (replace_operation (projected p now row req) db.operations) ≡ none
      → list_events id (db.events ++ next_event p now event_id req row ∷ []) ≡ []
  unfolding new_event_row append_payload
  owned-append row req c found id absent =
      let was = find-replace_operation (projected p now row req) id db.operations absent in
      list_events-append_ne id db.events (next_event p now event_id req row)
        (λ e. cc (found, was, e))
      ∙ c.owned id was

  -- Where each projection is the end of its verified event chain, a call that returns keeps it so.
  pub append_in_session-IsChained :
      (id : String) (req : AppendRequest) (row' : OperationRecord) (db' : Database)
      → IsChained p db
      → append_in_session p now event_id db id req ≡ ok (row', db')
      → IsChained p db'
  append_in_session-IsChained id req row' db' c h =
      let (row, found, expected, allowed, proj, stored) =
        append_in_session-eq-ok id req row' db' h in
      let chain = find_operation-All (HasChain p db.events) id db.operations row found c.rows in
      let same = find_operation-id id db.operations row found in
      subst (IsChained p) (sym stored) (
        subst
          (λ (r : OperationRecord). IsChained p (record db {
            operations = replace_operation r db.operations;
            events = db.events ++ next_event p now event_id req row ∷ [];
          }))
          (sym proj)
          (record {
            rows = rows-replace p now event_id req db.events row db.operations chain c.rows;
            owned = owned-append row req c (rw same found);
          }))

  -- On a chained database, with an event id that is not in the table, neither constraint of the events
  -- is broken: the call returns exactly where its tests let a row through, and raises only what they
  -- raise.
  pub append_in_session-eq-checked :
      (id : String) (req : AppendRequest)
      → IsChained p db
      → has_event_id event_id db.events ≡ false
      → append_in_session p now event_id db id req ≡ (
          checked_row db id req >>= λ row. ok (
            projected p now row req,
            record db {
              operations = replace_operation (projected p now row req) db.operations;
              events = db.events ++ next_event p now event_id req row ∷ [];
            },
          ))
  unfolding append_in_session
  append_in_session-eq-checked id req c fresh = elim (Result-cases (checked_row db id req)) [
    | inr (e, raised) ↦ rw raised
    | inl (row, checked) ↦
        let (found, expected, allowed) = checked_row-eq-ok db id req row checked in
        let chain = find_operation-All (HasChain p db.events) id db.operations row found c.rows in
        rw (checked, insert_next_event p now event_id req db.events row chain fresh)
  ]
