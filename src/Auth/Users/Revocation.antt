-- ===== src/Auth/Users/Revocation.antt =====
-- What backend/app/auth/users.py revokes, backend/app/auth/sessions.py refuses.
use gjallar.Prelude.{
  ℕ, ◌≤◌, ◌<◌, ◌≡◌, sym, subst, ap, ◌∙◌, ◌⊎◌, String, true, inl, inr, Option, none, some, List, [],
  ◌∷◌, arith, ◌==◌, str_eq_iff, Bool-cases, Option-cases,
}
use gjallar.Prelude.Text.{strip}
use gjallar.Result.{ok}
use gjallar.Auth.{
  AuthenticatedUser, UserRecord, SessionRecord, Accounts, Hashing, actor_from_user, first_user,
  has_user_id,
}
use gjallar.Auth.Users.{
  revoke_if, revoke_active_sessions, disable_user, reset_password, change_own_password,
}
use gjallar.Auth.Users.Outcomes.{
  disable_user-eq-ok, reset_password-eq-ok, change_own_password-eq-ok,
}
use gjallar.Auth.Sessions.{find_session, session_status, actor_for_session_token}

-- The session that a token's hash finds in the table.
abbrev pub session_of : Hashing → String → Accounts → Option SessionRecord
session_of h token db = find_session (h.token_hash (strip token)) db.sessions

-- A token that is accepted has an active session of an enabled user, who is the actor.
pub actor_for_session_token-eq-some :
    (h : Hashing) (now : ℕ) (token : String) (db : Accounts) (actor : AuthenticatedUser)
    → (actor_for_session_token h now token db).0 ≡ some actor
    → (session : SessionRecord) × (session_of h token db ≡ some session)
      × (session.revoked_at ≡ none)
      × (now < session.expires_at)
      × ((user : UserRecord) × (first_user (has_user_id session.user_id) db.users ≡ some user)
          × (user.enabled ≡ true)
          × (actor ≡ actor_from_user user))
unfolding actor_for_session_token session_status
actor_for_session_token-eq-some h now token db actor r =
    elim (Option-cases (find_session (h.token_hash (strip token)) db.sessions)) [
      | inl absent ↦ ground (arith, absent)
      | inr (session, found) ↦
          elim (Option-cases (first_user (has_user_id session.user_id) db.users)) [
            | inl gone ↦ ground (arith, found, gone)
            | inr (user, has) ↦ (
              session,
              found,
              ground (arith, found, has),
              ground (arith, found, has),
              (user, has, ground (arith, found, has), ground (arith, found, has)),
            )
          ]
    ]

revoke_if-active :
    (user_id : String) (now : ℕ) (kept : Option String) (x : SessionRecord)
    → (revoke_if user_id now kept x).user_id ≡ user_id
    → (revoke_if user_id now kept x).revoked_at ≡ none
    → ((revoke_if user_id now kept x).expires_at ≤ now)
      ⊎ (kept ≡ some (revoke_if user_id now kept x).session_id)
revoke_if-active user_id now none x own unrevoked =
    inl (ground (arith, str_eq_iff x.user_id user_id))
revoke_if-active user_id now (some id) x own unrevoked = elim (Bool-cases (x.session_id == id)) [
  | inl same ↦ inr (ground (arith, (str_eq_iff x.session_id id).0 same))
  | inr other ↦ inl (ground (arith, other, str_eq_iff x.user_id user_id))
]

-- A session that is found after a revocation was not one of the user's active ones, unless it is the
-- one that was kept.
revoke-found :
    (hash user_id : String) (now : ℕ) (kept : Option String) (rows : List SessionRecord)
    (row : SessionRecord)
    → find_session hash (revoke_active_sessions user_id now kept rows) ≡ some row
    → row.user_id ≡ user_id
    → row.revoked_at ≡ none
    → (row.expires_at ≤ now) ⊎ (kept ≡ some row.session_id)
unfolding find_session revoke_active_sessions
revoke-found hash user_id now kept [] row h own unrevoked = cc
revoke-found hash user_id now kept (x ∷ rows) row h own unrevoked =
    elim (Bool-cases ((revoke_if user_id now kept x).session_token_hash == hash)) [
      | inl found ↦
          let e : revoke_if user_id now kept x ≡ row = cc (rw found at h) in
          subst
            (λ (r : SessionRecord).
              r.user_id ≡ user_id
              → r.revoked_at ≡ none
              → (r.expires_at ≤ now) ⊎ (kept ≡ some r.session_id))
            e (revoke_if-active user_id now kept x) own unrevoked
      | inr later ↦ revoke-found hash user_id now kept rows row (rw later at h) own unrevoked
    ]

-- After a revocation at `now`, a token of the user is accepted later only for the session that was kept.
accepted-kept :
    (h : Hashing) (user_id : String) (now later : ℕ) (kept : Option String) (token : String)
    (db : Accounts) (rows : List SessionRecord) (actor : AuthenticatedUser)
    (session : SessionRecord)
    → db.sessions ≡ revoke_active_sessions user_id now kept rows
    → now ≤ later
    → session_of h token db ≡ some session
    → session.user_id ≡ user_id
    → (actor_for_session_token h later token db).0 ≡ some actor
    → kept ≡ some session.session_id
accepted-kept h user_id now later kept token db rows actor session stored order found own accepted =
    let (row, found', unrevoked, live, user) =
      actor_for_session_token-eq-some h later token db actor accepted in
    let same : row ≡ session = cc (found, found') in
    let hash = h.token_hash (strip token) in
    elim (revoke-found hash user_id now kept rows session
      (subst (λ s. find_session hash s ≡ some session) stored found) own
      (subst (λ (r : SessionRecord). r.revoked_at ≡ none) same unrevoked)) [
        | inl ended ↦
            let l = subst (λ (r : SessionRecord). later < r.expires_at) same live in
            ground (arith, ended, l, order)
        | inr e ↦ e
      ]

-- After `disable_user`, no token of a session of the user it disabled is accepted at that time or
-- later.
pub disable_user-rejects :
    (h : Hashing) (now later : ℕ) (username token : String) (db : Accounts)
    (user : AuthenticatedUser) (db' : Accounts) (session : SessionRecord)
    → disable_user now username db ≡ ok (user, db')
    → now ≤ later
    → session_of h token db' ≡ some session
    → session.user_id ≡ user.user_id
    → (actor_for_session_token h later token db').0 ≡ none
disable_user-rejects h now later username token db user db' session r order found own =
    let (row, f, guarded, a, stored) = disable_user-eq-ok now username db user db' r in
    elim (Option-cases (actor_for_session_token h later token db').0) [
      | inl refused ↦ refused
      | inr (actor, accepted) ↦
          let e =
            accepted-kept h row.user_id now later none token db' db.sessions actor session
              (ap (λ (d : Accounts). d.sessions) stored) order found
              (own ∙ ap (λ (u : AuthenticatedUser). u.user_id) a) accepted in
          cc e
    ]

-- After `reset_password`, no token of an existing session of the user is accepted at that time or
-- later.
pub reset_password-rejects :
    (h : Hashing) (now later : ℕ) (username password token : String) (db : Accounts)
    (user : AuthenticatedUser) (db' : Accounts) (session : SessionRecord)
    → reset_password h now username password db ≡ ok (user, db')
    → now ≤ later
    → session_of h token db' ≡ some session
    → session.user_id ≡ user.user_id
    → (actor_for_session_token h later token db').0 ≡ none
reset_password-rejects h now later username password token db user db' session r order found own =
    let (row, f, a, (hash, stored)) = reset_password-eq-ok h now username password db user db' r in
    elim (Option-cases (actor_for_session_token h later token db').0) [
      | inl refused ↦ refused
      | inr (actor, accepted) ↦
          let e =
            accepted-kept h row.user_id now later none token db' db.sessions actor session
              (ap (λ (d : Accounts). d.sessions) stored) order found
              (own ∙ ap (λ (u : AuthenticatedUser). u.user_id) a) accepted in
          cc e
    ]

-- After `change_own_password`, a token of an existing session of the user is accepted at that time or
-- later only where that session is the current one, which the call keeps.
pub change_own_password-rejects_others :
    (h : Hashing) (now later : ℕ) (user : AuthenticatedUser)
    (current_password new_password : String) (kept : Option String) (token : String) (db : Accounts)
    (changed : AuthenticatedUser) (db' : Accounts) (session : SessionRecord)
    (actor : AuthenticatedUser)
    → change_own_password h now user current_password new_password kept db ≡ ok (changed, db')
    → now ≤ later
    → session_of h token db' ≡ some session
    → session.user_id ≡ user.user_id
    → (actor_for_session_token h later token db').0 ≡ some actor
    → kept ≡ some session.session_id
change_own_password-rejects_others h now later user current_password new_password kept token db
      changed db' session actor r order found own accepted =
    let (row, f, same, on, checked, (hash, stored)) =
      change_own_password-eq-ok h now user current_password new_password kept db changed db' r in
    accepted-kept h row.user_id now later kept token db' db.sessions actor session
      (ap (λ (d : Accounts). d.sessions) stored) order found (own ∙ sym same) accepted
