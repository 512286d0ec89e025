-- ===== src/Auth/Users.antt =====
-- backend/app/auth/users.py: the account operations.
pub mod Outcomes
pub mod Admins
pub mod Revocation
use gjallar.Prelude.{
  ℕ, ◌+◌, String, Bool, true, false, not, ◌&&◌, ◌||◌, Option, none, some, List, [], ◌∷◌, ◌++◌, any,
  length, leb, ltb, nat_eq, ◌==◌, if◌then◌else◌,
}
use gjallar.Prelude.Text.{strip, is_blank, codes}
use gjallar.Result.{
  Result, ok, err, ◌>>=◌, ◌>>◌, raise_if, Failure, value_error, integrity_error, duplicate_user,
  user_not_found, last_enabled_admin, current_password_invalid,
}
use gjallar.Auth.{
  Role, AuthenticatedUser, UserRecord, SessionRecord, Accounts, Hashing, normalize_role,
  actor_from_user, is_admin, first_user, update_user, has_username, has_user_id,
}

-- A code point of the class in USERNAME_PATTERN.
abbrev pub is_username_code : ℕ → Bool
is_username_code c =
    (leb b'A' c && leb c b'Z')
    || (leb b'a' c && leb c b'z')
    || (leb b'0' c && leb c b'9')
    || nat_eq c b'_'
    || nat_eq c b'.'
    || nat_eq c b'@'
    || nat_eq c b'-'

-- USERNAME_PATTERN.fullmatch
abbrev pub is_username : String → Bool
is_username s =
    let n = length (codes s) in
    leb 1 n && leb n 80 && not (any (λ c. not (is_username_code c)) (codes s))

-- `normalize_username`
unfoldable pub normalize_username : String → Result String
normalize_username username =
    let normalized = strip username in
    if is_username normalized then ok normalized else err value_error

-- `_validated_password`
abbrev pub validated_password : String → Result String
validated_password password = if password == "" then err value_error else ok password

-- `_get_user_or_raise`
unfoldable pub get_user_or_raise : String → Accounts → Result UserRecord
get_user_or_raise username db = do
  normalized ← normalize_username username
  elim (first_user (has_username normalized) db.users) [
    | none ↦ err (user_not_found normalized)
    | some row ↦ ok row
  ]

-- `_is_enabled_admin`
abbrev pub is_enabled_admin : UserRecord → Bool
is_enabled_admin row = row.enabled && is_admin row.role

-- `_enabled_admin_count`
unfoldable pub enabled_admin_count : List UserRecord → ℕ
enabled_admin_count [] = 0
enabled_admin_count (row ∷ rows) =
    let rest = enabled_admin_count rows in if is_enabled_admin row then rest + 1 else rest

-- `_ensure_not_last_enabled_admin`
unfoldable pub ensure_not_last_enabled_admin : UserRecord → Accounts → Result (Unit {0})
ensure_not_last_enabled_admin row db =
    raise_if (is_enabled_admin row && leb (enabled_admin_count db.users) 1)
      (last_enabled_admin row.username)

-- revoked_at is None and expires_at > now
abbrev pub is_active : ℕ → SessionRecord → Bool
is_active now row = elim row.revoked_at [ none ↦ ltb now row.expires_at | some t ↦ false ]

-- One row under the update of `_revoke_other_active_sessions`.
abbrev pub revoke_if : String → ℕ → Option String → SessionRecord → SessionRecord
revoke_if user_id now kept row =
    if (row.user_id == user_id)
      && is_active now row
      && elim kept [ none ↦ true | some id ↦ not (row.session_id == id) ]
    then record row { revoked_at = some now }
    else row

-- `_revoke_other_active_sessions`; without a current session it is `_revoke_active_sessions`
unfoldable pub revoke_active_sessions :
    String → ℕ → Option String → List SessionRecord → List SessionRecord
revoke_active_sessions user_id now kept [] = []
revoke_active_sessions user_id now kept (row ∷ rows) =
    revoke_if user_id now kept row ∷ revoke_active_sessions user_id now kept rows

abbrev pub new_user : ℕ → String → String → String → Role → Bool → UserRecord
new_user now user_id username password_hash role enabled = record {
  user_id = user_id;
  username = username;
  password_hash = password_hash;
  role = role;
  enabled = enabled;
  created_at = now;
  updated_at = now;
  last_login_at = none;
}

-- `session.add(row); session.flush()`, with the primary key and uq_users_username
unfoldable pub insert_user : UserRecord → Accounts → Result (AuthenticatedUser × Accounts)
insert_user row db =
    if any (λ (user : UserRecord). has_user_id row.user_id user || has_username row.username user)
      db.users
    then err integrity_error
    else ok (actor_from_user row, record db { users = db.users ++ row ∷ [] })

-- `create_user`; `user_id` is the id from `uuid.uuid4`, `before` what its query reads, and `db` the
-- tables at its insertion
unfoldable pub create_user :
    Hashing
    → ℕ
    → String
    → String
    → String
    → String
    → Bool
    → Accounts
    → Accounts
    → Result (AuthenticatedUser × Accounts)
unfolding insert_user
create_user h now user_id username password role enabled before db = do
  normalized_username ← normalize_username username
  normalized_role ← normalize_role role
  value ← validated_password password
  password_hash ← h.hash_password value
  elim (first_user (has_username normalized_username) before.users) [
    | some existing ↦ err (duplicate_user normalized_username)
    | none ↦
        insert_user (new_user now user_id normalized_username password_hash normalized_role enabled)
          db
  ]

abbrev pub with_role : Role → ℕ → UserRecord → UserRecord
with_role role now row = record row { role = role; updated_at = now }

-- `set_user_role`
unfoldable pub set_user_role :
    ℕ → String → String → Accounts → Result (AuthenticatedUser × Accounts)
set_user_role now username role db = do
  normalized_role ← normalize_role role
  row ← get_user_or_raise username db
  if is_admin normalized_role then ok tt else ensure_not_last_enabled_admin row db
  ok (
    actor_from_user (with_role normalized_role now row),
    record db {
      users = update_user (has_username row.username) (with_role normalized_role now) db.users;
    },
  )

abbrev pub disabled : ℕ → UserRecord → UserRecord
disabled now row = record row { enabled = false; updated_at = now }

-- `disable_user`
unfoldable pub disable_user : ℕ → String → Accounts → Result (AuthenticatedUser × Accounts)
disable_user now username db = do
  row ← get_user_or_raise username db
  ensure_not_last_enabled_admin row db
  ok (
    actor_from_user (disabled now row),
    record {
      users = update_user (has_username row.username) (disabled now) db.users;
      sessions = revoke_active_sessions row.user_id now none db.sessions;
    },
  )

abbrev pub with_password : String → ℕ → UserRecord → UserRecord
with_password password_hash now row = record row { password_hash = password_hash; updated_at = now }

-- `reset_password`
unfoldable pub reset_password :
    Hashing → ℕ → String → String → Accounts → Result (AuthenticatedUser × Accounts)
reset_password h now username password db = do
  value ← validated_password password
  password_hash ← h.hash_password value
  row ← get_user_or_raise username db
  ok (
    actor_from_user row,
    record {
      users = update_user (has_username row.username) (with_password password_hash now) db.users;
      sessions = revoke_active_sessions row.user_id now none db.sessions;
    },
  )

-- `change_own_password`; an empty `current_session_id` counts as none
unfoldable pub change_own_password :
    Hashing
    → ℕ
    → AuthenticatedUser
    → String
    → String
    → Option String
    → Accounts
    → Result (AuthenticatedUser × Accounts)
change_own_password h now actor current_password new_password current_session_id db = do
  value ← validated_password new_password
  elim (first_user (has_user_id actor.user_id) db.users) [
    | none ↦ err (user_not_found actor.user_id)
    | some row ↦ do
      raise_if (not row.enabled) (user_not_found actor.user_id)
      raise_if (not (h.verify_password current_password row.password_hash)) current_password_invalid
      password_hash ← h.hash_password value
      ok (
        actor_from_user row,
        record {
          users = update_user (has_user_id row.user_id) (with_password password_hash now) db.users;
          sessions = revoke_active_sessions row.user_id now current_session_id db.sessions;
        },
      )
  ]

abbrev pub logged_in : ℕ → UserRecord → UserRecord
logged_in now row = record row { last_login_at = some now; updated_at = now }

-- `authenticate_user`
unfoldable pub authenticate_user :
    Hashing → ℕ → String → String → Accounts → Option AuthenticatedUser × Accounts
authenticate_user h now username password db = elim (normalize_username username) [
  | err e ↦ (none, db)
  | ok normalized ↦ elim (first_user (has_username normalized) db.users) [
    | none ↦ (none, db)
    | some row ↦
        if not row.enabled || not (h.verify_password password row.password_hash)
        then (none, db)
        else (
          some (actor_from_user row),
          record db { users = update_user (has_username normalized) (logged_in now) db.users },
        )
  ]
]
