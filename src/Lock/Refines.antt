-- ===== src/Lock/Refines.antt =====
-- The lock operations of backend/app/operations/locks/infrastructure/repository.py against an abstract
-- map from locator keys to owners.
pub mod Writes
pub mod Runs
use gjallar.Prelude.{
  ◌≡◌, ◌≢◌, ◌⊎◌, String, Bool, true, false, ◌&&◌, Option, none, some, List, [], ◌∷◌, ◌++◌, ◌==◌,
  if◌then◌else◌,
}
use gjallar.Prelude.Text.{strip}
use gjallar.Database.{OperationLockRecord, Database, find_lock, is_locator}
use gjallar.Lock.{DurableTargetLock, locator_scope_key, holds_locator, release, strip_or}
use gjallar.Lock.Release.{Step, acquired, released_lock, released_for_owner, Reach, here, next}

-- The abstract state: who holds a locator.
abbrev pub Holders : Type 0
Holders = String → Option String

-- Writes one locator of a map, or none.
abbrev pub Sets : String → Option String → Holders → Holders → Type 0
Sets key value m m' = (k : String) → m' k ≡ (if key == k then value else m k)

abbrev pub Stays : Holders → Holders → Type 0
Stays m m' = (k : String) → m' k ≡ m k

-- The owner of the first open row on the locator.
unfoldable pub holders : List OperationLockRecord → Holders
holders [] key = none
holders (row ∷ rows) key = if holds_locator key row then some row.owner_id else holders rows key

-- The primary key.
unfoldable pub IsKeyed : List OperationLockRecord → Type 0
unfolding find_lock
IsKeyed [] = Unit
IsKeyed (row ∷ rows) = (find_lock row.operation_lock_id rows ≡ none) × IsKeyed rows

-- The calls of the abstract map: an owner takes a locator, gives back a lock of the locator, which is
-- accepted or not, or gives back whatever it holds on the locator.
pub data Call : Type 0 where
  take : String → String → Call
  give_back : String → String → Bool → Call
  give_back_owned : String → String → Call

-- What each call does: only a free locator is taken, and only its holder frees it.
abbrev pub Performs : Call → Holders → Holders → Type 0
Performs (take key owner) m m' = (m key ≡ none) × Sets key (some owner) m m'
Performs (give_back key owner true) m m' = (m key ≡ some owner) × Sets key none m m'
Performs (give_back key owner false) m m' = Stays m m'
Performs (give_back_owned key owner) m m' =
    ((m key ≡ some owner) × Sets key none m m') ⊎ ((m key ≢ some owner) × Stays m m')

-- The row of an id is the lock of a VM.
abbrev pub is_vm_lock : String → List OperationLockRecord → Bool
is_vm_lock id rows = elim (find_lock id rows) [
  | none ↦ false
  | some row ↦ is_locator row.scope_type
]

-- The abstract call for each call of the repository, by its arguments; a release is accepted where it
-- answers that it released, and the row was a VM's.
abbrev pub call_of : {db db' : Database} → Step db db' → Call
call_of (acquired state before lock_id now operation_type cluster_id vmid owner_id reason lock h) =
    take (locator_scope_key (strip_or cluster_id "gjallar-mvp") vmid) (strip owner_id)
call_of {db} (released_lock now lock reason e) =
    give_back lock.scope_key lock.owner_id
      ((release now lock reason db).0 && is_vm_lock lock.lock_id db.locks)
call_of (released_for_owner now cluster_id vmid owner_id reason e) =
    give_back_owned (locator_scope_key cluster_id vmid) owner_id

abbrev pub calls_of : {db db' : Database} → Reach db db' → List Call
calls_of here = []
calls_of (next r s) = calls_of r ++ call_of s ∷ []

-- A run of the abstract map through a list of calls.
pub data CallRuns (m : Holders) : List Call → Holders → Type 0 where
  done : CallRuns m [] m
  then_call :
      (calls : List Call) (call : Call) {m' m'' : Holders}
      → CallRuns m calls m'
      → Performs call m' m''
      → CallRuns m (calls ++ call ∷ []) m''
