-- ===== src/Tests/Locks.antt =====
-- The theorems of the Lock, Setup and Redaction modules at concrete inputs.
use gjallar.Prelude.{
  ℕ, ◌≡◌, ◌≢◌, ◌⊎◌, refl, String, Bool, true, false, none, some, List, [], ◌∷◌, ◌++◌, arith,
}
use gjallar.Prelude.Text.{is_blank}
use gjallar.Json.{Fields, object, text, number, field, empty}
use gjallar.Redaction.{redact_secrets}
use gjallar.Redaction.Safety.{IsClean, redact_secrets-IsClean}
use gjallar.Result.{ok}
use gjallar.Database.{Database, OperationLockRecord, find_lock}
use gjallar.Setup.{
  Connection, Credential, SetupState, TargetScope, Configuration, legacy_env, managed,
  CredentialState, find_credential, admit_mutation,
}
use gjallar.Setup.Scope.{Permitted, admit_mutation-Permitted}
use gjallar.Lock.{
  DurableTargetLock, acquire, acquired_row, durable_lock, release, current, locator_scope_key,
  locator_taken, strip_or, configuration_holder, is_supported,
}
use gjallar.Lock.Exclusion.{IsExclusive, acquire_excludes, acquire_taken, acquire_admitted, new_row}
use gjallar.Lock.Refines.{CallRuns, calls_of, holders, IsKeyed}
use gjallar.Lock.Refines.Runs.{Reach-refines}
use gjallar.Lock.Release.{acquired, released_lock, Reach, here, next, Reach-IsExclusive}
use gjallar.Tests.Data.{platform, no_rows, value}

-- One managed connection with the power feature on VM 101.
abbrev connection : Connection
connection = record {
  cluster_id = "lab";
  source = managed;
  active_revision_id = some "rev-1";
  admission_open = true;
}

abbrev credential : Credential
credential = record {
  revision_id = "rev-1";
  state = CredentialState.active;
  configuration = record {
    features = "power" ∷ [];
    scope = record {
      vmids = 101 ∷ [];
      create_vmids = [];
      restore_vmids = [];
      clone_vmids = [];
      image_vmids = [];
      nodes = "pve1" ∷ [];
      host_storages = [];
      host_bridges = "vmbr1" ∷ [];
    };
    cluster_wide = false;
  };
  decrypts = true;
}

abbrev setup : SetupState
setup = record { connection = some connection; credentials = credential ∷ []; pinned = none }

admitted : admit_mutation setup "lab" 101 "vm_start" ≡ ok tt
unfolding admit_mutation gjallar.Setup.pin_selection find_credential gjallar.Setup.admit_credential
    gjallar.Setup.required_feature gjallar.Setup.feature_targets
admitted = refl

admit_mutation-Permitted_example :
    (connection.cluster_id ≡ "lab")
    × (connection.admission_open ≡ true)
    × (c : Credential) × (find_credential (some "rev-1") (credential ∷ []) ≡ some c)
    × Permitted c 101 "vm_start"
admit_mutation-Permitted_example =
    admit_mutation-Permitted setup connection "lab" 101 "vm_start" refl refl admitted

abbrev row1 : OperationLockRecord
row1 = acquired_row "lock-1" 1 "vm_start" "lab" 101 "op-1" ""

abbrev held1 : DurableTargetLock × Database
held1 =
    value (durable_lock row1, no_rows)
      (acquire setup no_rows no_rows "lock-1" 1 "vm_start" "lab" 101 "op-1" "")

acquired1 :
    acquire setup no_rows no_rows "lock-1" 1 "vm_start" "lab" 101 "op-1" "" ≡ ok (held1.0, held1.1)
unfolding acquire is_supported is_blank current gjallar.Lock.first_holder gjallar.Lock.insert_lock
    admit_mutation gjallar.Setup.pin_selection find_credential gjallar.Setup.admit_credential
    gjallar.Setup.required_feature gjallar.Setup.feature_targets configuration_holder find_lock
acquired1 = refl

acquire_excludes_example :
    acquire setup no_rows held1.1 "lock-2" 2 "vm_shutdown" "lab" 101 "op-2" ""
    ≢ ok (held1.0, held1.1)
acquire_excludes_example =
    acquire_excludes setup setup no_rows no_rows no_rows held1.1 held1.1 "lock-1" "lock-2" 1 2
      "vm_start" "vm_shutdown" "lab" 101 "op-1" "op-2" "" "" held1.0 held1.0 acquired1

no_rows-IsExclusive : IsExclusive no_rows.locks
unfolding gjallar.Lock.Exclusion.open_count
no_rows-IsExclusive = record { at_most_one = λ key. omega arith }

history : Reach no_rows held1.1
history =
    next here (acquired setup no_rows "lock-1" 1 "vm_start" "lab" 101 "op-1" "" held1.0 acquired1)

held1-IsExclusive : IsExclusive held1.1.locks
held1-IsExclusive = Reach-IsExclusive no_rows-IsExclusive history

Reach-IsExclusive_example : IsExclusive held1.1.locks
Reach-IsExclusive_example = Reach-IsExclusive no_rows-IsExclusive history

abbrev freed : Database
freed = (release 5 held1.0 "done" held1.1).1

stored1 : find_lock held1.0.lock_id held1.1.locks ≡ some row1
unfolding find_lock acquire is_supported is_blank current gjallar.Lock.first_holder
    gjallar.Lock.insert_lock admit_mutation gjallar.Setup.pin_selection find_credential
    gjallar.Setup.admit_credential gjallar.Setup.required_feature gjallar.Setup.feature_targets
    configuration_holder
stored1 = refl

released1 : release 5 held1.0 "done" held1.1 ≡ (true, freed)
unfolding release find_lock acquire is_supported is_blank current gjallar.Lock.first_holder
    gjallar.Lock.insert_lock admit_mutation gjallar.Setup.pin_selection find_credential
    gjallar.Setup.admit_credential gjallar.Setup.required_feature gjallar.Setup.feature_targets
    configuration_holder locator_scope_key gjallar.Lock.decimal acquired_row
    gjallar.Lock.replace_bars gjallar.Prelude.Text.strip gjallar.Database.replace_lock
released1 = refl

Reach-refines_example :
    CallRuns
      (holders no_rows.locks)
      (calls_of (next history (released_lock 5 held1.0 "done" refl)))
      (holders freed.locks)
unfolding IsKeyed
Reach-refines_example =
    Reach-refines tt no_rows-IsExclusive (next history (released_lock 5 held1.0 "done" refl))

abbrev secrets : Fields
secrets = field "api_token" (text "abc") (field "vmid" (number 101) empty)

redact_secrets-IsClean_example :
    IsClean platform.patterns (redact_secrets platform.patterns (object secrets))
redact_secrets-IsClean_example = redact_secrets-IsClean platform.patterns (object secrets)
