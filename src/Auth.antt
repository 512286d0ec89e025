-- ===== src/Auth.antt =====
-- backend/app/auth: roles.py, the tables of backend/app/db/models.py for users and sessions, and the
-- interface to password and token hashing.
-- Times are counted in one unit, and `now` is the clock's value at the call.
pub mod Users
pub mod Sessions
use gjallar.Prelude.{
  ℕ, String, Bool, true, false, not, ◌&&◌, Option, none, some, List, [], ◌∷◌, map, leb, ◌==◌,
  if◌then◌else◌,
}
use gjallar.Prelude.Text.{strip, codes}
use gjallar.Redaction.{lower, text_eq}
use gjallar.Result.{Result, ok, err, Failure, invalid_role}

-- The keys of ROLE_ORDER.
pub data Role : Type 0 where
  viewer operator admin : Role

-- ROLE_ORDER
abbrev pub role_order : Role → ℕ
role_order viewer = 10
role_order operator = 20
role_order admin = 30

-- `normalize_role`
unfoldable pub normalize_role : String → Result Role
normalize_role role =
    let normalized = map lower (codes (strip role)) in
    if text_eq normalized (codes "viewer")
    then ok viewer
    else if text_eq normalized (codes "operator")
    then ok operator
    else if text_eq normalized (codes "admin")
    then ok admin
    else err invalid_role

-- `role_at_least` of two roles that `normalize_role` has returned
unfoldable pub role_at_least : Role → Role → Bool
role_at_least actual required = leb (role_order required) (role_order actual)

pub record AuthenticatedUser : Type 0 where
  pub user_id : String
  pub username : String
  pub role : Role

-- Every write of the `role` column normalizes it.
pub record UserRecord : Type 0 where
  pub user_id : String
  pub username : String
  pub password_hash : String
  pub role : Role
  pub enabled : Bool
  pub created_at : ℕ
  pub updated_at : ℕ
  pub last_login_at : Option ℕ

pub record SessionRecord : Type 0 where
  pub session_id : String
  pub user_id : String
  pub session_token_hash : String
  pub expires_at : ℕ
  pub created_at : ℕ
  pub revoked_at : Option ℕ
  pub user_agent_hash : Option String
  pub ip_hash : Option String

pub record Accounts : Type 0 where
  pub users : List UserRecord
  pub sessions : List SessionRecord

-- PBKDF2 and SHA-256 of Python's `hashlib`, as passwords.py and sessions.py call them.
pub record Hashing : Type 0 where
  pub hash_password : String → Result String
  pub verify_password : String → String → Bool
  pub token_hash : String → String

-- `actor_from_user`
abbrev pub actor_from_user : UserRecord → AuthenticatedUser
actor_from_user row = record { user_id = row.user_id; username = row.username; role = row.role }

abbrev pub is_admin : Role → Bool
is_admin admin = true
is_admin _ = false

-- session.scalar(select(UserRecord).where(...)): the first row that passes the test
unfoldable pub first_user : (UserRecord → Bool) → List UserRecord → Option UserRecord
first_user test [] = none
first_user test (row ∷ rows) = if test row then some row else first_user test rows

-- Assigns columns of the row that `first_user` returns.
unfoldable pub update_user :
    (UserRecord → Bool) → (UserRecord → UserRecord) → List UserRecord → List UserRecord
update_user test f [] = []
update_user test f (row ∷ rows) =
    let rest = update_user test f rows in if test row then f row ∷ rows else row ∷ rest

abbrev pub has_username : String → UserRecord → Bool
has_username username row = row.username == username

abbrev pub has_user_id : String → UserRecord → Bool
has_user_id user_id row = row.user_id == user_id
