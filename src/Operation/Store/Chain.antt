-- ===== src/Operation/Store/Chain.antt =====
-- The invariant of backend/app/operations/core/infrastructure/repository.py: each projection is the
-- end of a verified event chain, and `append_in_session` keeps it so.
use gjallar.Prelude.{
  ℕ, ◌+◌, ◌<◌, ◌≡◌, ◌≢◌, refl, subst, sym, String, true, false, Option, none, some, List, [], ◌∷◌,
  ◌++◌, All, arith, ◌==◌, str_eq_iff, str_ne, Bool-cases, length, length-append, inl, inr,
}
use gjallar.Operation.Status.{OperationStatus, transition_allowed}
use gjallar.Operation.Event.{OperationEvent, Platform, verify_event_chain}
use gjallar.Operation.Event.Tamper.{
  Link-verify_from, verify_from-append, verify_from-bound, last_checksum,
}
use gjallar.Operation.Store.{
  list_events, has_event_id, insert_event, new_event_row, AppendRequest, append_payload, projected,
  checked_row, write_event, target_status, is_unexpected,
}
use gjallar.Operation.Store.Listing.{list_events-append_ne, list_events-append_self, has_event-next}
use gjallar.Result.{ok}
use gjallar.Database.{OperationRecord, Database, find_operation, replace_operation}

abbrev pub last_status : Option OperationStatus → List OperationEvent → Option OperationStatus
last_status s [] = s
last_status s (e ∷ es) = last_status (some e.to_status) es

-- The events verify, and the row repeats what they end in.
pub record IsChainOf (p : Platform) (row : OperationRecord) (es : List OperationEvent)
    : Type 0 where
  pub verified : verify_event_chain p es ≡ true
  pub counted : row.version ≡ length es
  pub checksum : row.last_event_checksum ≡ last_checksum "" es
  pub status : last_status none es ≡ some row.status

-- The events that are listed for a row are its chain.
abbrev pub HasChain : Platform → List OperationEvent → OperationRecord → Type 0
HasChain p events row = IsChainOf p row (list_events row.operation_id events)

-- Every row has its chain, and no event is without its row (the foreign key).
pub record IsChained (p : Platform) (db : Database) : Type 0 where
  pub rows : All (HasChain p db.events) db.operations
  pub owned : (id : String) → find_operation id db.operations ≡ none → list_events id db.events ≡ []

last_checksum-append :
    (c : String) (es : List OperationEvent) (e : OperationEvent)
    → last_checksum c (es ++ e ∷ []) ≡ e.checksum
last_checksum-append c [] e = refl
last_checksum-append c (x ∷ es) e = last_checksum-append x.checksum es e

last_status-append :
    (s : Option OperationStatus) (es : List OperationEvent) (e : OperationEvent)
    → last_status s (es ++ e ∷ []) ≡ some e.to_status
last_status-append s [] e = refl
last_status-append s (x ∷ es) e = last_status-append (some x.to_status) es e

IsChainOf-bound :
    {p : Platform} {row : OperationRecord} {es : List OperationEvent}
    → IsChainOf p row es
    → All (λ (e : OperationEvent). e.sequence < row.version + 1) es
unfolding verify_event_chain
IsChainOf-bound {p} {row} {es} c =
    let n = c.counted in verify_from-bound p "" 1 (row.version + 1) es (omega arith) c.verified

module _ (p : Platform) (now : ℕ) (event_id : String) (req : AppendRequest) where
  abbrev pub next_event : OperationRecord → OperationEvent
  next_event row = new_event_row p event_id (append_payload p now row req)

  -- The new event continues the chain of its row.
  projected-IsChainOf :
      (row : OperationRecord) (es : List OperationEvent)
      → IsChainOf p row es
      → IsChainOf p (projected p now row req) (es ++ next_event row ∷ [])
  unfolding projected new_event_row append_payload verify_event_chain
  projected-IsChainOf row es c =
      let n = c.counted in
      record {
        verified =
            verify_from-append p "" 1 (row.version + 1) es (next_event row) (omega arith) c.verified
              (Link-verify_from p (last_checksum "" es) (row.version + 1) (next_event row) []
                (record { sequence = refl; linked = c.checksum; digested = refl; rest = refl }));
        counted = omega (arith, length-append es (next_event row ∷ []));
        checksum = sym (last_checksum-append "" es (next_event row));
        status = last_status-append none es (next_event row);
      }

  -- The projection after the event has the chain with the event.
  pub projected-HasChain :
      (events : List OperationEvent) (row : OperationRecord)
      → HasChain p events row
      → HasChain p (events ++ next_event row ∷ []) (projected p now row req)
  unfolding projected new_event_row append_payload
  projected-HasChain events row c =
      subst (IsChainOf p (projected p now row req))
        (sym (
          list_events-append_self row.operation_id events (next_event row) refl
            (IsChainOf-bound c)))
        (projected-IsChainOf row (list_events row.operation_id events) c)

  -- A row of another Operation keeps its chain.
  HasChain-append_ne :
      (events : List OperationEvent) (row other : OperationRecord)
      → row.operation_id ≢ other.operation_id
      → HasChain p events other
      → HasChain p (events ++ next_event row ∷ []) other
  unfolding new_event_row append_payload
  HasChain-append_ne events row other ne c =
      subst (IsChainOf p other)
        (sym (list_events-append_ne other.operation_id events (next_event row) ne)) c

  pub rows-replace :
      (events : List OperationEvent) (row : OperationRecord) (rows : List OperationRecord)
      → HasChain p events row
      → All (HasChain p events) rows
      → All
          (HasChain p (events ++ next_event row ∷ []))
          (replace_operation (projected p now row req) rows)
  unfolding replace_operation
  rows-replace events row [] c h = tt
  rows-replace events row (x ∷ rows) c h =
      elim (Bool-cases (x.operation_id == (projected p now row req).operation_id)) [
        | inl same ↦ rw same (projected-HasChain events row c, rows-replace events row rows c h.1)
        | inr other ↦ rw other (
          HasChain-append_ne events row x (unfold projected in str_ne _ _ other) h.0,
          rows-replace events row rows c h.1,
        )
      ]

  -- The next event, with an id that is new, breaks neither constraint.
  pub insert_next_event :
      (events : List OperationEvent) (row : OperationRecord)
      → HasChain p events row
      → has_event_id event_id events ≡ false
      → insert_event (next_event row) events ≡ ok (events ++ next_event row ∷ [])
  unfolding insert_event new_event_row append_payload
  insert_next_event events row c fresh =
      rw (fresh, has_event-next row.operation_id (row.version + 1) events (IsChainOf-bound c))

pub find_operation-id :
    (id : String) (rows : List OperationRecord) (row : OperationRecord)
    → find_operation id rows ≡ some row
    → row.operation_id ≡ id
unfolding find_operation
find_operation-id id [] row h = cc
find_operation-id id (x ∷ rows) row h =
    ground (arith, str_eq_iff x.operation_id id, find_operation-id id rows row)

pub find_operation-All {ℓ} :
    (P : OperationRecord → Type ℓ) (id : String) (rows : List OperationRecord)
    (row : OperationRecord)
    → find_operation id rows ≡ some row
    → All P rows
    → P row
unfolding find_operation
find_operation-All P id [] row h a = cc
find_operation-All P id (x ∷ rows) row h a = elim (Bool-cases (x.operation_id == id)) [
  | inl here ↦ let e : x ≡ row = cc (rw here at h) in subst P e a.0
  | inr later ↦ find_operation-All P id rows row (rw later at h) a.1
]

-- A replaced row is absent exactly when it was.
pub find-replace_operation :
    (new : OperationRecord) (id : String) (rows : List OperationRecord)
    → find_operation id (replace_operation new rows) ≡ none
    → find_operation id rows ≡ none
unfolding find_operation replace_operation
find-replace_operation new id [] h = refl
find-replace_operation new id (x ∷ rows) h = ground (
  arith,
  str_eq_iff x.operation_id id,
  str_eq_iff new.operation_id id,
  str_eq_iff x.operation_id new.operation_id,
  find-replace_operation new id rows,
)

pub checked_row-eq-ok :
    (db : Database) (id : String) (req : AppendRequest) (row : OperationRecord)
    → checked_row db id req ≡ ok row
    → (find_operation id db.operations ≡ some row)
      × (is_unexpected row.status req.expected_statuses ≡ false)
      × (req.is_transition ≡ true → transition_allowed row.status (target_status row req) ≡ true)
unfolding checked_row
checked_row-eq-ok db id req row h = ground arith

pub write_event-eq-ok :
    (p : Platform) (now : ℕ) (event_id : String) (db : Database) (req : AppendRequest)
    (row row' : OperationRecord) (db' : Database)
    → write_event p now event_id db req row ≡ ok (row', db')
    → (row' ≡ projected p now row req)
      × (db' ≡ record db {
        operations = replace_operation row' db.operations;
        events = db.events ++ next_event p now event_id req row ∷ [];
      })
unfolding write_event insert_event
write_event-eq-ok p now event_id db req row row' db' h = ground arith
