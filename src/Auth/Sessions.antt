-- ===== src/Auth/Sessions.antt =====
-- backend/app/auth/sessions.py: server-side sessions, looked up by the hash of a token.
pub mod Tokens
use gjallar.Prelude.{
  ℕ, ◌+◌, String, Bool, true, false, not, ◌&&◌, ◌||◌, Option, none, some, List, [], ◌∷◌, ◌++◌, any,
  leb, ◌==◌, if◌then◌else◌,
}
use gjallar.Prelude.Text.{strip, is_blank}
use gjallar.Result.{Result, ok, err, integrity_error}
use gjallar.Auth.{
  AuthenticatedUser, UserRecord, SessionRecord, Accounts, Hashing, actor_from_user, first_user,
  has_user_id,
}

-- The statuses of `_session_status`.
pub data SessionStatus : Type 0 where
  active expired revoked : SessionStatus

-- `_session_status`
unfoldable pub session_status : ℕ → SessionRecord → SessionStatus
session_status now row = elim row.revoked_at [
  | some t ↦ revoked
  | none ↦ if leb row.expires_at now then expired else active
]

-- select(SessionRecord).where(session_token_hash == hash)
unfoldable pub find_session : String → List SessionRecord → Option SessionRecord
find_session hash [] = none
find_session hash (row ∷ rows) =
    if row.session_token_hash == hash then some row else find_session hash rows

-- row.revoked_at = now
unfoldable pub mark_revoked : String → ℕ → List SessionRecord → List SessionRecord
mark_revoked hash now [] = []
mark_revoked hash now (row ∷ rows) =
    (if row.session_token_hash == hash then record row { revoked_at = some now } else row)
    ∷ mark_revoked hash now rows

-- the primary key of sessions
abbrev pub has_session_id : String → List SessionRecord → Bool
has_session_id session_id rows = any (λ (row : SessionRecord). row.session_id == session_id) rows

-- What the insertion of a session breaks: the primary key, the unique hash or the foreign key.
unfoldable pub breaks_sessions : SessionRecord → Accounts → Bool
unfolding find_session first_user
breaks_sessions row db =
    has_session_id row.session_id db.sessions
    || elim (find_session row.session_token_hash db.sessions) [ none ↦ false | some other ↦ true ]
    || elim (first_user (has_user_id row.user_id) db.users) [ none ↦ true | some user ↦ false ]

-- The row that `create_session` adds.
abbrev pub new_session :
    Hashing
    → ℕ
    → ℕ
    → String
    → String
    → AuthenticatedUser
    → Option String
    → Option String
    → SessionRecord
new_session h now ttl token session_id actor user_agent_hash ip_hash = record {
  session_id = session_id;
  user_id = actor.user_id;
  session_token_hash = h.token_hash token;
  expires_at = now + ttl;
  created_at = now;
  revoked_at = none;
  user_agent_hash = user_agent_hash;
  ip_hash = ip_hash;
}

-- `create_session`: the token from `secrets.token_urlsafe`, the id from `uuid.uuid4`, and the
-- configured lifetime
unfoldable pub create_session :
    Hashing
    → ℕ
    → ℕ
    → String
    → String
    → AuthenticatedUser
    → Option String
    → Option String
    → Accounts
    → Result Accounts
unfolding breaks_sessions
create_session h now ttl token session_id actor user_agent_hash ip_hash db =
    let row = new_session h now ttl token session_id actor user_agent_hash ip_hash in
    if breaks_sessions row db
    then err integrity_error
    else ok (record db { sessions = db.sessions ++ row ∷ [] })

-- `actor_for_session_token`
unfoldable pub actor_for_session_token :
    Hashing → ℕ → String → Accounts → Option AuthenticatedUser × Accounts
actor_for_session_token h now token db =
    if is_blank token
    then (none, db)
    else elim (find_session (h.token_hash (strip token)) db.sessions) [
      | none ↦ (none, db)
      | some row ↦ elim (session_status now row) [
        | active ↦ elim (first_user (has_user_id row.user_id) db.users) [
          | none ↦
              (none, record db { sessions = mark_revoked row.session_token_hash now db.sessions })
          | some user ↦ if user.enabled then (some (actor_from_user user), db) else (
            none,
            record db { sessions = mark_revoked row.session_token_hash now db.sessions },
          )
        ]
        | _ ↦ (none, db)
      ]
    ]

-- `revoke_session_token`
unfoldable pub revoke_session_token : Hashing → ℕ → String → Accounts → Bool × Accounts
revoke_session_token h now token db =
    if is_blank token
    then (false, db)
    else elim (find_session (h.token_hash (strip token)) db.sessions) [
      | none ↦ (false, db)
      | some row ↦ elim row.revoked_at [
        | some t ↦ (false, db)
        | none ↦
            (true, record db { sessions = mark_revoked row.session_token_hash now db.sessions })
      ]
    ]
