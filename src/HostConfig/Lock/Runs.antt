-- ===== src/HostConfig/Lock/Runs.antt =====
-- VM locks and host configuration locks on one table: sequences of calls of
-- backend/app/operations/host_config/infrastructure.py and of
-- backend/app/operations/locks/infrastructure/repository.py.
use gjallar.Prelude.{ℕ, ◌≡◌, refl, sym, subst, String, inl, inr, Option-cases}
use gjallar.Prelude.Text.{strip}
use gjallar.Json.{Fields}
use gjallar.Operation.Event.{Platform}
use gjallar.Result.{ok}
use gjallar.Database.{Database}
use gjallar.Setup.{SetupState}
use gjallar.Lock.{
  DurableTargetLock, locator_scope_key, acquired_row, release, find_owned, release_owned,
}
use gjallar.Lock.Exclusion.{acquire-eq-ok, insert_lock-eq-ok, new_row}
use gjallar.Lock.Release.{Step, acquired, released_lock, released_for_owner, release-cases}
use gjallar.HostConfig.Lock.Outcome.{acquire_configuration-eq-ok, hold_configuration-eq-ok}
use gjallar.HostConfig.Lock.Isolation.{
  IsIsolated, released-IsIsolated, locator-IsIsolated, configuration-IsIsolated,
}
use gjallar.HostConfig.Lock.{ConfigurationLock, configuration_row, acquire_configuration}

release-IsIsolated :
    (now : ℕ) (lock : DurableTargetLock) (reason : String) (db : Database)
    → IsIsolated db.locks
    → IsIsolated (release now lock reason db).1.locks
release-IsIsolated now lock reason db x = elim (release-cases now lock reason db) [
  | inl same ↦ rw same x
  | inr r ↦ rw r.written (released-IsIsolated now reason r.row db.locks x)
]

release_owned-IsIsolated :
    (now : ℕ) (cluster_id : String) (vmid : ℕ) (owner_id reason : String) (db : Database)
    → IsIsolated db.locks
    → IsIsolated (release_owned now cluster_id vmid owner_id reason db).1.locks
unfolding release_owned
release_owned-IsIsolated now cluster_id vmid owner_id reason db x =
    elim (Option-cases (find_owned (locator_scope_key cluster_id vmid) owner_id db.locks)) [
      | inl missing ↦ rw (missing, release_owned) x
      | inr (row, found) ↦ rw (found, release_owned) (released-IsIsolated now reason row db.locks x)
    ]

Step-IsIsolated : {db db' : Database} → Step db db' → IsIsolated db.locks → IsIsolated db'.locks
unfolding acquired_row
Step-IsIsolated {db} {db'}
      (acquired state before lock_id now operation_type cluster_id vmid owner_id reason lock h) x =
    let row = new_row state before db lock_id now operation_type cluster_id vmid owner_id reason in
    let (admitted, free, untaken, fresh, given, stored) =
      insert_lock-eq-ok state db row vmid lock db' (
        acquire-eq-ok state before db lock_id now operation_type cluster_id vmid owner_id reason
          lock db' h) in
    subst (λ (d : Database). IsIsolated d.locks) (sym stored)
      (locator-IsIsolated row db.locks refl free x)
Step-IsIsolated {db} (released_lock now lock reason e) x =
    subst (λ (d : Database). IsIsolated d.locks) e (release-IsIsolated now lock reason db x)
Step-IsIsolated {db} (released_for_owner now cluster_id vmid owner_id reason e) x =
    subst (λ (d : Database). IsIsolated d.locks) e
      (release_owned-IsIsolated now cluster_id vmid owner_id reason db x)

-- One committed call on the lock table, of a VM lock or of a configuration lock.
pub data Call (p : Platform) (db db' : Database) : Type 0 where
  locks_vm : Step db db' → Call p db db'
  locks_cluster :
      (state : SetupState) (lock_id : String) (now : ℕ)
      (operation_type cluster_id owner_id : String) (target : Fields) (lock : ConfigurationLock)
      → acquire_configuration p state lock_id now operation_type cluster_id owner_id target db
        ≡ ok (lock, db')
      → Call p db db'

pub data Calls (p : Platform) (db : Database) : Database → Type 0 where
  none_yet : Calls p db db
  then_call : {db' db'' : Database} → Calls p db db' → Call p db' db'' → Calls p db db''

Call-IsIsolated :
    {p : Platform} {db db' : Database} → Call p db db' → IsIsolated db.locks → IsIsolated db'.locks
Call-IsIsolated (locks_vm s) x = Step-IsIsolated s x
Call-IsIsolated {p} {db} {db'}
      (locks_cluster state lock_id now operation_type cluster_id owner_id target lock h) x =
    let held =
      acquire_configuration-eq-ok p state lock_id now operation_type cluster_id owner_id target db
        lock db' h in
    let row =
      configuration_row lock_id now operation_type held.scope_key (strip cluster_id)
        (strip owner_id) held.identity target in
    let (admitted, free, alone, fresh, stored) =
      hold_configuration-eq-ok state row target db db' held.inserted in
    subst (λ (d : Database). IsIsolated d.locks) (sym stored)
      (configuration-IsIsolated row db.locks free x)

-- From a lock table in which an open configuration lock is the only open lock of its cluster, every
-- sequence of calls of the VM and the configuration lock repositories ends in such a table.
pub Calls-IsIsolated :
    {p : Platform} {db db' : Database} → IsIsolated db.locks → Calls p db db' → IsIsolated db'.locks
Calls-IsIsolated x none_yet = x
Calls-IsIsolated x (then_call r s) = Call-IsIsolated s (Calls-IsIsolated x r)
