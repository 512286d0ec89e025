-- ===== src/Operation/Create/Idempotent.antt =====
-- `create` of backend/app/operations/core/infrastructure/repository.py runs once for a scope.
use gjallar.Prelude.{
  ℕ, ◌≡◌, refl, String, true, false, none, some, List, [], ◌∷◌, ◌++◌, arith, str_eq_refl,
  Option-cases, Bool-cases, inl, inr,
}
use gjallar.Json.{Fields}
use gjallar.Operation.Event.{Platform}
use gjallar.Operation.Store.{insert_event, new_event_row}
use gjallar.Operation.Create.{
  OperationSpec, OperationCreateResult, same_scope, same_identity, get_by_scope, resolve_existing,
  created_row, created_payload, insert_operation, resolve_conflict, create,
}
use gjallar.Result.{ok, Result-cases}
use gjallar.Database.{OperationRecord, Database, find_operation}

get_by_scope-append :
    (spec : OperationSpec) (rows : List OperationRecord) (row : OperationRecord)
    → get_by_scope spec rows ≡ none
    → same_scope spec row ≡ true
    → get_by_scope spec (rows ++ row ∷ []) ≡ some row
unfolding get_by_scope
get_by_scope-append spec [] row h s = rw s
get_by_scope-append spec (x ∷ rows) row h s = elim (Bool-cases (same_scope spec x)) [
  | inl here ↦ cc (rw here at h)
  | inr later ↦ rw later (get_by_scope-append spec rows row (rw later at h) s)
]

created_row-same_identity :
    (p : Platform) (now : ℕ) (spec : OperationSpec) (event_payload : Fields)
    → same_identity spec (created_row p now spec event_payload) ≡ true
unfolding created_row
created_row-same_identity p now spec event_payload = simp str_eq_refl

same_identity-scope :
    (spec : OperationSpec) (row : OperationRecord)
    → same_identity spec row ≡ true
    → same_scope spec row ≡ true
same_identity-scope spec row h = ground arith

resolve_existing-same :
    (existing : OperationRecord) (spec : OperationSpec)
    → same_identity spec existing ≡ true
    → resolve_existing existing spec ≡ ok (record { operation = existing; created = false })
unfolding resolve_existing
resolve_existing-same existing spec h = rw h

-- What an insertion that went through has found and written.
pub insert_operation-eq-ok :
    (p : Platform) (now : ℕ) (event_id : String) (spec : OperationSpec) (event_payload : Fields)
    (db db' : Database)
    → insert_operation p now event_id spec event_payload db ≡ ok db'
    → (find_operation spec.operation_id db.operations ≡ none)
      × (get_by_scope spec db.operations ≡ none)
      × (db' ≡ record db {
        operations = db.operations ++ created_row p now spec event_payload ∷ [];
        events =
            db.events ++ new_event_row p event_id (created_payload p now spec event_payload) ∷ [];
      })
unfolding insert_operation insert_event
insert_operation-eq-ok p now event_id spec event_payload db db' h = ground arith

resolve_existing-created :
    (existing : OperationRecord) (spec : OperationSpec) (r : OperationCreateResult)
    → resolve_existing existing spec ≡ ok r
    → r.created ≡ false
unfolding resolve_existing
resolve_existing-created existing spec r h = ground arith

resolve_conflict-created :
    (spec : OperationSpec) (db : Database) (r : OperationCreateResult)
    → resolve_conflict spec db ≡ ok r
    → r.created ≡ false
unfolding resolve_conflict resolve_existing
resolve_conflict-created spec db r h = ground arith

-- A result that says `created` comes from an insertion.
pub create-inserted :
    (p : Platform) (now : ℕ) (event_id : String) (spec : OperationSpec) (event_payload : Fields)
    (before db db' : Database) (r : OperationCreateResult)
    → create p now event_id spec event_payload before db ≡ ok (r, db')
    → r.created ≡ true
    → (r.operation ≡ created_row p now spec event_payload)
      × (insert_operation p now event_id spec event_payload db ≡ ok db')
unfolding create
create-inserted p now event_id spec event_payload before db db' r h c =
    elim (Option-cases (get_by_scope spec before.operations)) [
      | inr (existing, found) ↦ elim (Result-cases (resolve_existing existing spec)) [
        | inl (r', e) ↦ ground (arith, found, e, resolve_existing-created existing spec r')
        | inr (f, e) ↦ ground (arith, found, e)
      ]
      | inl free ↦ elim (Result-cases (insert_operation p now event_id spec event_payload db)) [
        | inl (db'', inserted) ↦ ground (arith, free, inserted)
        | inr (e, refused) ↦ elim (Result-cases (resolve_conflict spec db)) [
          | inl (r', e') ↦ ground (arith, free, refused, e', resolve_conflict-created spec db r')
          | inr (f, e') ↦ ground (arith, free, refused, e')
        ]
      ]
    ]

-- Where `create` inserted the row, a second call with the same spec returns that row, creates
-- nothing and changes nothing, whatever its clock, event id and event payload.
pub create_again :
    (p : Platform) (now later : ℕ) (event_id event_id' : String) (spec : OperationSpec)
    (event_payload event_payload' : Fields) (before db db' : Database) (row : OperationRecord)
    → create p now event_id spec event_payload before db
      ≡ ok (record { operation = row; created = true }, db')
    → create p later event_id' spec event_payload' db' db'
      ≡ ok (record { operation = row; created = false }, db')
unfolding create
create_again p now later event_id event_id' spec event_payload event_payload' before db db' row h =
    let (wrote, inserted) =
      create-inserted p now event_id spec event_payload before db db'
        (record { operation = row; created = true }) h refl in
    let (fresh, unscoped, stored) =
      insert_operation-eq-ok p now event_id spec event_payload db db' inserted in
    let identical = created_row-same_identity p now spec event_payload in
    let found : get_by_scope spec db'.operations ≡ some row =
      rw (stored, wrote)
        (get_by_scope-append spec db.operations (created_row p now spec event_payload) unscoped
          (same_identity-scope spec (created_row p now spec event_payload) identical)) in
    ground (arith, found, resolve_existing-same row spec (rw wrote identical))

-- A result that does not say `created` leaves the database alone.
pub create-unchanged :
    (p : Platform) (now : ℕ) (event_id : String) (spec : OperationSpec) (event_payload : Fields)
    (before db db' : Database) (r : OperationCreateResult)
    → create p now event_id spec event_payload before db ≡ ok (r, db')
    → r.created ≡ false
    → db' ≡ db
unfolding create
create-unchanged p now event_id spec event_payload before db db' r h c =
    elim (Option-cases (get_by_scope spec before.operations)) [
      | inr (existing, found) ↦ elim (Result-cases (resolve_existing existing spec)) [
        | inl (r', e) ↦ ground (arith, found, e)
        | inr (f, e) ↦ ground (arith, found, e)
      ]
      | inl free ↦ elim (Result-cases (insert_operation p now event_id spec event_payload db)) [
        | inl (db'', inserted) ↦ ground (arith, free, inserted)
        | inr (e, refused) ↦ elim (Result-cases (resolve_conflict spec db)) [
          | inl (r', e') ↦ ground (arith, free, refused, e')
          | inr (f, e') ↦ ground (arith, free, refused, e')
        ]
      ]
    ]

pub created_row-same_scope :
    (p : Platform) (now : ℕ) (spec : OperationSpec) (event_payload : Fields)
    → same_scope spec (created_row p now spec event_payload) ≡ true
created_row-same_scope p now spec event_payload =
    same_identity-scope spec (created_row p now spec event_payload)
      (created_row-same_identity p now spec event_payload)
