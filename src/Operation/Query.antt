-- ===== src/Operation/Query.antt =====
-- `list` of backend/app/operations/core/infrastructure/repository.py: the filtered query.
pub mod Filter
use Prim.Native.String.{compare as compare_text}
use Prim.Native.Nat.{Ordering}
use gjallar.Prelude.{
  ℕ, min, max, String, Bool, true, false, ◌&&◌, ◌||◌, Option, none, some, List, [], ◌∷◌, take, ltb,
  nat_eq, ◌==◌, if◌then◌else◌,
}
use gjallar.Operation.Status.{OperationStatus, status_eq}
use gjallar.Database.{OperationRecord}

-- The keyword arguments of `list`; an empty text is no filter.
pub record ListFilter : Type 0 where
  pub status : Option OperationStatus
  pub operation_type : String
  pub target_type : String
  pub target_id : String

abbrev pub text_matches : String → String → Bool
text_matches wanted actual = (wanted == "") || (actual == wanted)

-- The `where` clauses of the statement.
unfoldable pub matches : ListFilter → OperationRecord → Bool
matches filter row =
    elim filter.status [ none ↦ true | some status ↦ status_eq row.status status ]
    && text_matches filter.operation_type row.operation_type
    && text_matches filter.target_type row.target_type
    && text_matches filter.target_id row.target_id

-- order by updated_at desc, operation_id desc
abbrev pub newer : OperationRecord → OperationRecord → Bool
newer a b =
    ltb b.updated_at a.updated_at
    || (nat_eq a.updated_at b.updated_at
        && elim (compare_text a.operation_id b.operation_id) [ Ordering.lt ↦ false | _ ↦ true ])

unfoldable pub insert_newest : OperationRecord → List OperationRecord → List OperationRecord
insert_newest row [] = row ∷ []
insert_newest row (x ∷ xs) =
    let rest = insert_newest row xs in if newer row x then row ∷ x ∷ xs else x ∷ rest

unfoldable pub matching : ListFilter → List OperationRecord → List OperationRecord
matching filter [] = []
matching filter (row ∷ rows) =
    let rest = matching filter rows in if matches filter row then insert_newest row rest else rest

-- `list`; a negative limit counts as 0
unfoldable pub list_operations : ListFilter → ℕ → List OperationRecord → List OperationRecord
list_operations filter limit rows = take (max 1 (min limit 200)) (matching filter rows)
