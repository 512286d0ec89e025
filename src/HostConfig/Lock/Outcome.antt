-- ===== src/HostConfig/Lock/Outcome.antt =====
-- What `acquire` of backend/app/operations/host_config/infrastructure.py has tested and written where it
-- returns.
use gjallar.Prelude.{
  ℕ, ◌≡◌, sym, ap, ◌∙◌, String, false, inl, inr, none, some, [], ◌∷◌, ◌++◌, any, arith, Bool-cases,
  Option-cases,
}
use gjallar.Prelude.Text.{strip, is_blank}
use gjallar.Json.{Fields}
use gjallar.Operation.Event.{Platform}
use gjallar.Result.{ok, >>=-eq-ok, Result-cases, result_value}
use gjallar.Database.{OperationLockRecord, Database, find_lock}
use gjallar.Setup.{SetupState}
use gjallar.Setup.Host.{admit_host_mutation}
use gjallar.HostConfig.{target_identity, configuration_scope_key}
use gjallar.HostConfig.Lock.{
  ConfigurationLock, open_lock_in, configuration_row, configuration_lock, hold_configuration,
  insert_configuration, acquire_configuration, holds_scope,
}

-- What an insertion of a configuration lock that went through has tested and written.
pub hold_configuration-eq-ok :
    (state : SetupState) (row : OperationLockRecord) (target : Fields) (db db' : Database)
    → hold_configuration state row target db ≡ ok db'
    → (admit_host_mutation state row.cluster_id row.operation_type target ≡ ok tt)
      × (open_lock_in row.cluster_id db.locks ≡ none)
      × (any (holds_scope row.scope_key) db.locks ≡ false)
      × (find_lock row.operation_lock_id db.locks ≡ none)
      × (db' ≡ record db { locks = db.locks ++ row ∷ [] })
unfolding hold_configuration insert_configuration
hold_configuration-eq-ok state row target db db' h =
    elim (Result-cases (admit_host_mutation state row.cluster_id row.operation_type target)) [
      | inr (e, refused) ↦ ground (arith, refused)
      | inl (u, admitted) ↦ elim (Option-cases (open_lock_in row.cluster_id db.locks)) [
        | inr (host, busy) ↦ ground (arith, admitted, busy)
        | inl free ↦ elim (Option-cases (find_lock row.operation_lock_id db.locks)) [
          | inr (other, stored) ↦ ground (arith, admitted, free, stored)
          | inl fresh ↦ ground (arith, admitted, free, fresh)
        ]
      ]
    ]

-- What a call of `acquire` that returns has computed.
pub record Held (p : Platform) (state : SetupState) (lock_id : String) (now : ℕ)
    (operation_type cluster_id owner_id : String) (target : Fields) (db : Database)
    (lock : ConfigurationLock) (db' : Database) : Type 0 where
  pub identity : String × String
  pub scope_key : String
  pub exact : target_identity operation_type target ≡ some identity
  pub scope : configuration_scope_key p cluster_id ≡ some scope_key
  pub given :
      lock
      ≡ configuration_lock
          (configuration_row lock_id now operation_type scope_key
            (strip cluster_id)
            (strip owner_id)
            identity
            target)
          identity
          target
  pub inserted :
      hold_configuration state
        (configuration_row lock_id now operation_type scope_key
          (strip cluster_id)
          (strip owner_id)
          identity
          target)
        target
        db
      ≡ ok db'

module _ (p : Platform) (state : SetupState) (lock_id : String) (now : ℕ)
    (operation_type cluster_id owner_id : String) (target : Fields) (db : Database) where
  abbrev held_row : String → String × String → OperationLockRecord
  held_row scope_key identity =
      configuration_row lock_id now operation_type scope_key (strip cluster_id) (strip owner_id)
        identity target

  pub acquire_configuration-eq-ok :
      (lock : ConfigurationLock) (db' : Database)
      → acquire_configuration p state lock_id now operation_type cluster_id owner_id target db
        ≡ ok (lock, db')
      → Held p state lock_id now operation_type cluster_id owner_id target db lock db'
  unfolding acquire_configuration
  acquire_configuration-eq-ok lock db' h =
      elim (Option-cases (target_identity operation_type target)) [
        | inl unknown ↦ ground (arith, unknown)
        | inr (identity, exact) ↦ elim (Option-cases (configuration_scope_key p cluster_id)) [
          | inl blank ↦ ground (arith, exact, blank)
          | inr (scope_key, scope) ↦ elim (Bool-cases (is_blank owner_id)) [
            | inl no_owner ↦ ground (arith, exact, scope, no_owner)
            | inr owner ↦
                let run = rw (exact, scope, owner, acquire_configuration) at h in
                let (after, inserted, done) =
                  >>=-eq-ok (hold_configuration state (held_row scope_key identity) target db) _
                    run in
                let e = result_value done in
                record {
                  identity = identity;
                  scope_key = scope_key;
                  exact = exact;
                  scope = scope;
                  given = sym (ap (λ t. t.0) e);
                  inserted = inserted ∙ ap (λ t. ok t.1) e;
                }
          ]
        ]
      ]
