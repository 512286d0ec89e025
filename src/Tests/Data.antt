-- ===== src/Tests/Data.antt =====
-- Values that the tests share.
use gjallar.Prelude.{String, true, false, none, some, [], ◌∷◌}
use gjallar.Prelude.Text.{number_of}
use gjallar.Json.{Json, text, object, empty, field}
use gjallar.Operation.Status.{draft, planned}
use gjallar.Operation.Event.{OperationActor, Platform}
use gjallar.Operation.Store.{AppendRequest}
use gjallar.Operation.Create.{OperationSpec}
use gjallar.Result.{Result, ok, err}
use gjallar.Database.{Database, completed}
use gjallar.Recovery.Commit.{Observation}

-- The event type in the dict of an event.
abbrev event_type_of : Json → String
event_type_of (object (field _ _ (field _ _ (field _ (text s) _)))) = s
event_type_of _ = ""

-- Digests are the event types, and no substitution changes a text.
abbrev pub platform : Platform
platform = record {
  patterns = record { ssh_public_key_sub = λ s. s; credential_url_sub = λ s. s };
  json_dumps = event_type_of;
  iso_of_time = λ time. "";
  sha256_of_text = λ s. s;
  str_of_container = λ v. "[]";
  int_of_text = λ s. elim (number_of s) [ none ↦ none | some n ↦ some (some n) ];
  is_digit_text = λ s. elim (number_of s) [ none ↦ false | some n ↦ true ];
}

abbrev pub no_rows : Database
no_rows = record { operations = []; events = []; locks = []; recovery_items = [] }

abbrev pub alice : OperationActor
alice = record { user_id = "user_1"; username = "alice"; role = "admin" }

abbrev pub start_spec : OperationSpec
start_spec = record {
  operation_id = "op-1";
  operation_type = "vm_start";
  execution_mode = "managed_api";
  target_type = "proxmox_vm";
  target_id = "vmid:101";
  idempotency_key = "key-1";
  intent_digest = "intent";
  plan_digest = "plan";
  actor = alice;
  initial_status = draft;
  initial_stage = "planned";
  expires_at = none;
  details = field "vmid" (text "101") empty;
}

abbrev pub to_planned : AppendRequest
to_planned = record {
  next_status = some planned;
  event_type = "operation_planned";
  stage = "plan";
  payload = empty;
  details_patch = empty;
  actor = none;
  expected_statuses = some (draft ∷ []);
  is_transition = true;
}

-- A verified completion that releases the target lock.
abbrev pub verified : Observation
verified = record {
  event_type = "recovery_verified";
  stage = "verify";
  payload = empty;
  details_patch = empty;
  next_status = none;
  expected_statuses = none;
  actor = none;
  recovery_status = completed;
  retry_delay = 0;
  error_code = "";
  recovery_details_patch = empty;
  release_target_lock = true;
  require_exact_reconciliation_lock = false;
  bind_target_lock = false;
  expected_operation_version = none;
  expected_operation_checksum = none;
  projector = none;
}

-- The value of a result that is known to be there.
abbrev pub value {ℓ} : {A : Type ℓ} → A → Result A → A
value a (ok b) = b
value a (err e) = a
