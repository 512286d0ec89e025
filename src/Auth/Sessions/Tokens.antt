-- ===== src/Auth/Sessions/Tokens.antt =====
-- A token from its issue to its revocation, in backend/app/auth/sessions.py.
use gjallar.Prelude.{
  ℕ, ◌+◌, ◌<◌, ◌≡◌, refl, String, true, false, inl, inr, Option, none, some, List, [], ◌∷◌, ◌++◌,
  arith, str_eq_iff, Option-cases,
}
use gjallar.Prelude.Text.{strip, is_blank}
use gjallar.Result.{ok}
use gjallar.Auth.{
  AuthenticatedUser, UserRecord, SessionRecord, Accounts, Hashing, actor_from_user, first_user,
  has_user_id,
}
use gjallar.Auth.Sessions.{
  find_session, mark_revoked, session_status, has_session_id, new_session, breaks_sessions,
  create_session, actor_for_session_token, revoke_session_token,
}

find_session-append :
    (hash : String) (rows : List SessionRecord) (new : SessionRecord)
    → find_session hash rows ≡ none
    → new.session_token_hash ≡ hash
    → find_session hash (rows ++ new ∷ []) ≡ some new
unfolding find_session
find_session-append hash [] new h e = ground (arith, str_eq_iff new.session_token_hash hash)
find_session-append hash (x ∷ rows) new h e = ground (arith, find_session-append hash rows new)

find-mark_revoked :
    (hash : String) (now : ℕ) (rows : List SessionRecord) (row : SessionRecord)
    → find_session hash (mark_revoked hash now rows) ≡ some row
    → row.revoked_at ≡ some now
unfolding find_session mark_revoked
find-mark_revoked hash now [] row h = cc
find-mark_revoked hash now (x ∷ rows) row h = ground (arith, find-mark_revoked hash now rows row)

find_session-hash :
    (hash : String) (rows : List SessionRecord) (row : SessionRecord)
    → find_session hash rows ≡ some row
    → row.session_token_hash ≡ hash
unfolding find_session
find_session-hash hash [] row h = cc
find_session-hash hash (x ∷ rows) row h =
    ground (arith, str_eq_iff x.session_token_hash hash, find_session-hash hash rows row)

-- With a session id and a token hash that no session has yet, and a token with no surrounding blanks, a
-- session for an enabled user is created, and its token is accepted at every time before the session
-- expires, with the user's present role.
pub create_session-accepted :
    (h : Hashing) (now ttl later : ℕ) (token session_id : String) (actor : AuthenticatedUser)
    (user_agent_hash ip_hash : Option String) (db : Accounts) (user : UserRecord)
    → is_blank token ≡ false
    → strip token ≡ token
    → has_session_id session_id db.sessions ≡ false
    → find_session (h.token_hash token) db.sessions ≡ none
    → first_user (has_user_id actor.user_id) db.users ≡ some user
    → user.enabled ≡ true
    → later < now + ttl
    → (db' : Accounts) × (create_session h now ttl token session_id actor user_agent_hash ip_hash db
        ≡ ok db')
      × ((actor_for_session_token h later token db').0 ≡ some (actor_from_user user))
unfolding create_session actor_for_session_token session_status breaks_sessions
create_session-accepted h now ttl later token session_id actor agent ip db user blank stripped fresh
      free has on before =
    let row = new_session h now ttl token session_id actor agent ip in
    (
      record db { sessions = db.sessions ++ row ∷ [] },
      ground (arith, fresh, free, has),
      ground (
        arith,
        blank,
        stripped,
        has,
        on,
        find_session-append (h.token_hash token) db.sessions row free refl,
      ),
    )

-- Once `revoke_session_token` has revoked a token, the token is refused at every time.
pub revoke_session_token-refused :
    (h : Hashing) (now later : ℕ) (token : String) (db db' : Accounts)
    → revoke_session_token h now token db ≡ (true, db')
    → (actor_for_session_token h later token db').0 ≡ none
unfolding revoke_session_token actor_for_session_token session_status
revoke_session_token-refused h now later token db db' r =
    elim (Option-cases (find_session (h.token_hash (strip token)) db.sessions)) [
      | inl absent ↦ ground (arith, absent)
      | inr (row, found) ↦
          let hash = h.token_hash (strip token) in
          let e = find_session-hash hash db.sessions row found in
          elim (Option-cases (find_session hash (mark_revoked hash now db.sessions))) [
            | inl gone ↦ ground (arith, found, e, gone)
            | inr (row', found') ↦
                ground (arith, found, e, found', find-mark_revoked hash now db.sessions row' found')
          ]
    ]
