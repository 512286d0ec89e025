-- ===== src/Operation/Query/Filter.antt =====
-- Which rows `list` of backend/app/operations/core/infrastructure/repository.py returns.
use gjallar.Prelude.{ℕ, ◌+◌, List, [], ◌∷◌, if◌then◌else◌}
use gjallar.Database.{OperationRecord}
use gjallar.Operation.Query.{ListFilter, matches}

-- How many rows pass the filter.
unfoldable pub match_count : ListFilter → List OperationRecord → ℕ
match_count filter [] = 0
match_count filter (row ∷ rows) =
    let rest = match_count filter rows in if matches filter row then rest + 1 else rest
