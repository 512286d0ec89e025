-- ===== src/Auth/Users/Outcomes.antt =====
-- What each account operation of backend/app/auth/users.py has found and written where it returns.
use gjallar.Prelude.{
  ℕ, ◌≡◌, sym, subst, String, Bool, true, inl, inr, Option, none, some, List, [], ◌∷◌, ◌++◌, arith,
  str_eq_iff, Bool-cases, Option-cases,
}
use gjallar.Result.{ok, Result-cases, >>=-eq-ok}
use gjallar.Auth.{
  AuthenticatedUser, UserRecord, Accounts, Hashing, normalize_role, actor_from_user, first_user,
  update_user, has_username, has_user_id,
}
use gjallar.Auth.Users.{
  normalize_username, validated_password, get_user_or_raise, ensure_not_last_enabled_admin,
  new_user, insert_user, create_user, disable_user, reset_password, change_own_password, disabled,
  with_password, revoke_active_sessions,
}

pub first_user-passes :
    (test : UserRecord → Bool) (rows : List UserRecord) (row : UserRecord)
    → first_user test rows ≡ some row
    → test row ≡ true
unfolding first_user
first_user-passes test [] row h = cc
first_user-passes test (x ∷ rows) row h = elim (Bool-cases (test x)) [
  | inl found ↦ let e : x ≡ row = cc (rw found at h) in subst (λ r. test r ≡ true) e found
  | inr later ↦ first_user-passes test rows row (rw later at h)
]

-- The row that `_get_user_or_raise` returns is the one that its user name finds.
pub get_user-eq-ok :
    (username : String) (db : Accounts) (row : UserRecord)
    → get_user_or_raise username db ≡ ok row
    → first_user (has_username row.username) db.users ≡ some row
unfolding get_user_or_raise
get_user-eq-ok username db row h = elim (Result-cases (normalize_username username)) [
  | inr (e, bad) ↦ ground (arith, bad)
  | inl (name, normalized) ↦ elim (Option-cases (first_user (has_username name) db.users)) [
    | inl absent ↦ ground (arith, normalized, absent)
    | inr (stored, found) ↦
        let same : stored ≡ row = ground (arith, normalized, found) in
        let named =
          (str_eq_iff stored.username name).0
            (first_user-passes (has_username name) db.users stored found) in
        subst (λ (r : UserRecord). first_user (has_username r.username) db.users ≡ some r) same
          (subst (λ n. first_user (has_username n) db.users ≡ some stored) (sym named) found)
  ]
]

-- What a call that disables a user has found and written.
pub disable_user-eq-ok :
    (now : ℕ) (username : String) (db : Accounts) (actor : AuthenticatedUser) (db' : Accounts)
    → disable_user now username db ≡ ok (actor, db')
    → (row : UserRecord) × (first_user (has_username row.username) db.users ≡ some row)
      × (ensure_not_last_enabled_admin row db ≡ ok tt)
      × (actor ≡ actor_from_user (disabled now row))
      × (db' ≡ record {
        users = update_user (has_username row.username) (disabled now) db.users;
        sessions = revoke_active_sessions row.user_id now none db.sessions;
      })
unfolding disable_user
disable_user-eq-ok now username db actor db' h =
    let (row, got, rest) = >>=-eq-ok (get_user_or_raise username db) _ h in
    let (u, guarded, done) = >>=-eq-ok (ensure_not_last_enabled_admin row db) _ rest in
    (row, get_user-eq-ok username db row got, guarded, ground (arith, done), ground (arith, done))

pub reset_password-eq-ok :
    (h : Hashing) (now : ℕ) (username password : String) (db : Accounts) (actor : AuthenticatedUser)
    (db' : Accounts)
    → reset_password h now username password db ≡ ok (actor, db')
    → (row : UserRecord) × (first_user (has_username row.username) db.users ≡ some row)
      × (actor ≡ actor_from_user row)
      × ((password_hash : String) × (db' ≡ record {
        users = update_user (has_username row.username) (with_password password_hash now) db.users;
        sessions = revoke_active_sessions row.user_id now none db.sessions;
      }))
unfolding reset_password
reset_password-eq-ok h now username password db actor db' r =
    let (value, valid, rest) = >>=-eq-ok (validated_password password) _ r in
    let (hash, hashed, rest') = >>=-eq-ok (h.hash_password value) _ rest in
    let (row, got, done) = >>=-eq-ok (get_user_or_raise username db) _ rest' in
    (row, get_user-eq-ok username db row got, ground (arith, done), (hash, ground (arith, done)))

pub change_own_password-eq-ok :
    (h : Hashing) (now : ℕ) (user : AuthenticatedUser) (current_password new_password : String)
    (kept : Option String) (db : Accounts) (actor : AuthenticatedUser) (db' : Accounts)
    → change_own_password h now user current_password new_password kept db ≡ ok (actor, db')
    → (row : UserRecord) × (first_user (has_user_id row.user_id) db.users ≡ some row)
      × (row.user_id ≡ user.user_id)
      × (row.enabled ≡ true)
      × (h.verify_password current_password row.password_hash ≡ true)
      × ((password_hash : String) × (db' ≡ record {
        users = update_user (has_user_id row.user_id) (with_password password_hash now) db.users;
        sessions = revoke_active_sessions row.user_id now kept db.sessions;
      }))
unfolding change_own_password
change_own_password-eq-ok h now user current_password new_password kept db actor db' r =
    let (value, valid, rest) = >>=-eq-ok (validated_password new_password) _ r in
    elim (Option-cases (first_user (has_user_id user.user_id) db.users)) [
      | inl absent ↦ ground (arith, absent, rest)
      | inr (row, found) ↦
          let same =
            (str_eq_iff row.user_id user.user_id).0
              (first_user-passes (has_user_id user.user_id) db.users row found) in
          elim (Result-cases (h.hash_password value)) [
            | inr (e, refused) ↦ ground (arith, found, rest, refused)
            | inl (hash, hashed) ↦ (
              row,
              subst (λ i. first_user (has_user_id i) db.users ≡ some row) (sym same) found,
              same,
              ground (arith, found, rest),
              ground (arith, found, rest),
              (hash, ground (arith, found, rest, hashed)),
            )
          ]
    ]

pub create_user-eq-ok :
    (h : Hashing) (now : ℕ) (user_id username password role : String) (enabled : Bool)
    (before db : Accounts) (actor : AuthenticatedUser) (db' : Accounts)
    → create_user h now user_id username password role enabled before db ≡ ok (actor, db')
    → (row : UserRecord) × (db' ≡ record db { users = db.users ++ row ∷ [] })
unfolding create_user insert_user
create_user-eq-ok h now user_id username password role enabled before db actor db' r =
    let (name, named, rest) = >>=-eq-ok (normalize_username username) _ r in
    let (new_role, normalized, rest') = >>=-eq-ok (normalize_role role) _ rest in
    let (value, valid, rest'') = >>=-eq-ok (validated_password password) _ rest' in
    let (hash, hashed, done) = >>=-eq-ok (h.hash_password value) _ rest'' in
    elim (Option-cases (first_user (has_username name) before.users)) [
      | inr (row, taken) ↦ ground (arith, taken, done)
      | inl free ↦ (new_user now user_id name hash new_role enabled, ground (arith, free, done))
    ]
