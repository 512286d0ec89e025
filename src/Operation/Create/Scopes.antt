-- ===== src/Operation/Create/Scopes.antt =====
-- The table that `create` of backend/app/operations/core/infrastructure/repository.py leaves: one
-- row for a scope, each with its event chain.
use gjallar.Prelude.{
  ℕ, ◌+◌, ◌≤◌, ◌≡◌, ◌≢◌, refl, sym, subst, ap, ◌∙◌, String, true, none, List, [], ◌∷◌, ◌++◌, All,
  All-append, arith, ◌==◌, str_eq_iff, str_ne, Bool-cases, inl, inr, if◌then◌else◌,
}
use gjallar.Json.{Fields}
use gjallar.Operation.Event.{Platform, OperationEvent, verify_event_chain}
use gjallar.Operation.Store.{list_events, new_event_row}
use gjallar.Operation.Store.Listing.{list_events-append_ne, list_events-append_self}
use gjallar.Operation.Event.Tamper.{Link-verify_from}
use gjallar.Operation.Store.Chain.{IsChainOf, HasChain, IsChained}
use gjallar.Operation.Create.{
  OperationSpec, OperationCreateResult, same_scope, get_by_scope, created_row, created_payload,
  insert_operation, create,
}
use gjallar.Operation.Create.Idempotent.{
  insert_operation-eq-ok, create-unchanged, create-inserted, created_row-same_scope,
}
use gjallar.Result.{ok}
use gjallar.Database.{OperationRecord, Database, find_operation}

-- How many rows have the scope of a spec.
unfoldable pub scope_count : OperationSpec → List OperationRecord → ℕ
scope_count spec [] = 0
scope_count spec (row ∷ rows) =
    let rest = scope_count spec rows in if same_scope spec row then rest + 1 else rest

-- uq_operations_scoped_idempotency, as a property of the table
pub record HasUniqueScopes (rows : List OperationRecord) : Type 0 where
  pub at_most_one : (spec : OperationSpec) → scope_count spec rows ≤ 1

scope_count-append :
    (spec : OperationSpec) (rows : List OperationRecord) (row : OperationRecord)
    → scope_count spec (rows ++ row ∷ [])
      ≡ scope_count spec rows + (if same_scope spec row then 1 else 0)
unfolding scope_count
scope_count-append spec [] row = ground arith
scope_count-append spec (x ∷ rows) row = ground (arith, scope_count-append spec rows row)

scope_count-free :
    (spec : OperationSpec) (rows : List OperationRecord)
    → get_by_scope spec rows ≡ none
    → scope_count spec rows ≡ 0
unfolding scope_count get_by_scope
scope_count-free spec [] h = refl
scope_count-free spec (x ∷ rows) h = ground (arith, scope_count-free spec rows)

-- Two specs that one row fits have one scope.
get_by_scope-shared :
    (a b : OperationSpec) (row : OperationRecord) (rows : List OperationRecord)
    → same_scope a row ≡ true
    → same_scope b row ≡ true
    → get_by_scope a rows ≡ get_by_scope b rows
unfolding get_by_scope
get_by_scope-shared a b row [] ha hb = refl
get_by_scope-shared a b row (x ∷ rows) ha hb = ground (
  arith,
  get_by_scope-shared a b row rows ha hb,
  str_eq_iff row.operation_type a.operation_type,
  str_eq_iff row.operation_type b.operation_type,
  str_eq_iff row.target_type a.target_type,
  str_eq_iff row.target_type b.target_type,
  str_eq_iff row.target_id a.target_id,
  str_eq_iff row.target_id b.target_id,
  str_eq_iff row.idempotency_key a.idempotency_key,
  str_eq_iff row.idempotency_key b.idempotency_key,
)

insert_operation-HasUniqueScopes :
    (p : Platform) (now : ℕ) (event_id : String) (spec : OperationSpec) (event_payload : Fields)
    (db db' : Database)
    → insert_operation p now event_id spec event_payload db ≡ ok db'
    → HasUniqueScopes db.operations
    → HasUniqueScopes db'.operations
insert_operation-HasUniqueScopes p now event_id spec event_payload db db' h u =
    let (fresh, free, stored) = insert_operation-eq-ok p now event_id spec event_payload db db' h in
    let row = created_row p now spec event_payload in
    let own = created_row-same_scope p now spec event_payload in
    let bound : (other : OperationSpec) → scope_count other (db.operations ++ row ∷ []) ≤ 1 =
      λ other. elim (Bool-cases (same_scope other row)) [
        | inl same ↦
            let none_yet =
              scope_count-free other db.operations
                (get_by_scope-shared other spec row db.operations same own ∙ free) in
            rw (scope_count-append, same) (omega arith)
        | inr differs ↦
            let before = u.at_most_one other in rw (scope_count-append, differs) (omega arith)
      ] in
    subst (λ (d : Database). HasUniqueScopes d.operations) (sym stored)
      (record { at_most_one = bound })

-- Where there is at most one row for each idempotency scope, `create` leaves it so, also where another
-- transaction inserted the scope after its first read.
pub create-HasUniqueScopes :
    (p : Platform) (now : ℕ) (event_id : String) (spec : OperationSpec) (event_payload : Fields)
    (before db db' : Database) (r : OperationCreateResult)
    → HasUniqueScopes db.operations
    → create p now event_id spec event_payload before db ≡ ok (r, db')
    → HasUniqueScopes db'.operations
create-HasUniqueScopes p now event_id spec event_payload before db db' r u h =
    elim (Bool-cases r.created) [
      | inl new ↦
          insert_operation-HasUniqueScopes p now event_id spec event_payload db db'
            (create-inserted p now event_id spec event_payload before db db' r h new).1 u
      | inr old ↦
          subst (λ (d : Database). HasUniqueScopes d.operations)
            (sym (create-unchanged p now event_id spec event_payload before db db' r h old)) u
    ]

-- The one event of a new row is its chain.
created-IsChainOf :
    (p : Platform) (now : ℕ) (event_id : String) (spec : OperationSpec) (event_payload : Fields)
    → IsChainOf p
        (created_row p now spec event_payload)
        (new_event_row p event_id (created_payload p now spec event_payload) ∷ [])
unfolding created_row created_payload new_event_row verify_event_chain
created-IsChainOf p now event_id spec event_payload = record {
  verified =
      let e = new_event_row p event_id (created_payload p now spec event_payload) in
      Link-verify_from p "" 1 e []
        (record { sequence = refl; linked = refl; digested = refl; rest = refl });
  counted = refl;
  checksum = refl;
  status = refl;
}

-- The rows that were there have other ids, so their chains stay.
kept-rows :
    (p : Platform) (events : List OperationEvent) (e : OperationEvent) (rows : List OperationRecord)
    → find_operation e.operation_id rows ≡ none
    → All (HasChain p events) rows
    → All (HasChain p (events ++ e ∷ [])) rows
unfolding find_operation
kept-rows p events e [] h a = tt
kept-rows p events e (x ∷ rows) h a = elim (Bool-cases (x.operation_id == e.operation_id)) [
  | inl taken ↦ cc (rw taken at h)
  | inr other ↦ (
    subst (IsChainOf p x) (sym (list_events-append_ne x.operation_id events e (str_ne _ _ other)))
        a.0,
    kept-rows p events e rows (rw other at h) a.1,
  )
]

-- An id that is absent with the new row was absent before, and is not the new row's.
find_operation-append :
    (id : String) (rows : List OperationRecord) (row : OperationRecord)
    → find_operation id (rows ++ row ∷ []) ≡ none
    → (find_operation id rows ≡ none) × (row.operation_id ≢ id)
unfolding find_operation
find_operation-append id [] row h = ground (arith, str_eq_iff row.operation_id id)
find_operation-append id (x ∷ rows) row h = ground (arith, find_operation-append id rows row)

insert_operation-IsChained :
    (p : Platform) (now : ℕ) (event_id : String) (spec : OperationSpec) (event_payload : Fields)
    (db db' : Database)
    → insert_operation p now event_id spec event_payload db ≡ ok db'
    → IsChained p db
    → IsChained p db'
unfolding created_row created_payload new_event_row
insert_operation-IsChained p now event_id spec event_payload db db' h c =
    let (fresh, free, stored) = insert_operation-eq-ok p now event_id spec event_payload db db' h in
    let row = created_row p now spec event_payload in
    let e = new_event_row p event_id (created_payload p now spec event_payload) in
    let no_events = c.owned spec.operation_id fresh in
    let listed : list_events spec.operation_id (db.events ++ e ∷ []) ≡ e ∷ [] =
      list_events-append_self spec.operation_id db.events e refl (rw no_events tt)
      ∙ ap (λ (l : List OperationEvent). l ++ e ∷ []) no_events in
    subst (IsChained p) (sym stored) (record {
      rows =
          All-append (HasChain p (db.events ++ e ∷ [])) db.operations (row ∷ [])
            (kept-rows p db.events e db.operations fresh c.rows)
            (
              subst (IsChainOf p row) (sym listed)
                  (created-IsChainOf p now event_id spec event_payload),
              tt,
            );
      owned = λ id absent.
          let (was, differs) = find_operation-append id db.operations row absent in
          list_events-append_ne id db.events e differs ∙ c.owned id was;
    })

-- Where each projection is the end of its verified event chain, `create` leaves it so.
pub create-IsChained :
    (p : Platform) (now : ℕ) (event_id : String) (spec : OperationSpec) (event_payload : Fields)
    (before db db' : Database) (r : OperationCreateResult)
    → IsChained p db
    → create p now event_id spec event_payload before db ≡ ok (r, db')
    → IsChained p db'
create-IsChained p now event_id spec event_payload before db db' r c h =
    elim (Bool-cases r.created) [
      | inl new ↦
          insert_operation-IsChained p now event_id spec event_payload db db'
            (create-inserted p now event_id spec event_payload before db db' r h new).1 c
      | inr old ↦
          subst (IsChained p)
            (sym (create-unchanged p now event_id spec event_payload before db db' r h old)) c
    ]
