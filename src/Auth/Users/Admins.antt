-- ===== src/Auth/Users/Admins.antt =====
-- backend/app/auth/users.py keeps an enabled administrator.
use gjallar.Prelude.{
  ℕ, ◌+◌, ◌≤◌, ◌≡◌, sym, subst, String, Bool, inl, inr, Option, some, List, [], ◌∷◌, ◌++◌, arith,
  Bool-cases, Option-cases, if◌then◌else◌,
}
use gjallar.Result.{ok, Result-cases, >>=-eq-ok}
use gjallar.Auth.{
  AuthenticatedUser, UserRecord, Accounts, Hashing, normalize_role, is_admin, first_user,
  update_user, has_username, has_user_id,
}
use gjallar.Auth.Users.{
  normalize_username, get_user_or_raise, is_enabled_admin, enabled_admin_count,
  ensure_not_last_enabled_admin, create_user, set_user_role, disable_user, reset_password,
  change_own_password, authenticate_user, with_role, disabled, with_password, logged_in,
}
use gjallar.Auth.Users.Outcomes.{
  get_user-eq-ok, disable_user-eq-ok, reset_password-eq-ok, change_own_password-eq-ok,
  create_user-eq-ok,
}

abbrev counts : UserRecord → ℕ
counts row = if is_enabled_admin row then 1 else 0

count-update_user :
    (test : UserRecord → Bool) (f : UserRecord → UserRecord) (rows : List UserRecord)
    (row : UserRecord)
    → first_user test rows ≡ some row
    → enabled_admin_count (update_user test f rows) + counts row
      ≡ enabled_admin_count rows + counts (f row)
unfolding first_user update_user enabled_admin_count
count-update_user test f [] row h = cc
count-update_user test f (x ∷ rows) row h = elim (Bool-cases (test x)) [
  | inl found ↦ let e : x ≡ row = cc (rw found at h) in ground (arith, found, e)
  | inr later ↦ ground (arith, later, count-update_user test f rows row (rw later at h))
]

count-append :
    (rows : List UserRecord) (row : UserRecord)
    → enabled_admin_count rows ≤ enabled_admin_count (rows ++ row ∷ [])
unfolding enabled_admin_count
count-append [] row = omega arith
count-append (x ∷ rows) row = ground (arith, count-append rows row)

-- A write of the found row that keeps it an enabled administrator, or finds another one.
update-keeps :
    (test : UserRecord → Bool) (f : UserRecord → UserRecord) (rows : List UserRecord)
    (row : UserRecord)
    → first_user test rows ≡ some row
    → counts row + 1 ≤ enabled_admin_count rows + counts (f row)
    → 1 ≤ enabled_admin_count (update_user test f rows)
update-keeps test f rows row found enough =
    let n = count-update_user test f rows row found in omega (arith, n, enough)

guard-enough :
    (row : UserRecord) (db : Accounts)
    → 1 ≤ enabled_admin_count db.users
    → ensure_not_last_enabled_admin row db ≡ ok tt
    → counts row + 1 ≤ enabled_admin_count db.users
unfolding ensure_not_last_enabled_admin
guard-enough row db n h = elim (Bool-cases (is_enabled_admin row)) [
  | inl admin_row ↦ ground (arith, admin_row)
  | inr other ↦ ground (arith, other)
]

-- One call of an account operation that returns, with its change of the tables.
pub data Step (h : Hashing) (db db' : Accounts) : Type 0 where
  created :
      (now : ℕ) (user_id username password role : String) (enabled : Bool) (before : Accounts)
      (actor : AuthenticatedUser)
      → create_user h now user_id username password role enabled before db ≡ ok (actor, db')
      → Step h db db'
  role_set :
      (now : ℕ) (username role : String) (actor : AuthenticatedUser)
      → set_user_role now username role db ≡ ok (actor, db')
      → Step h db db'
  user_disabled :
      (now : ℕ) (username : String) (actor : AuthenticatedUser)
      → disable_user now username db ≡ ok (actor, db')
      → Step h db db'
  password_reset :
      (now : ℕ) (username password : String) (actor : AuthenticatedUser)
      → reset_password h now username password db ≡ ok (actor, db')
      → Step h db db'
  password_changed :
      (now : ℕ) (user : AuthenticatedUser) (current_password new_password : String)
      (current_session_id : Option String) (actor : AuthenticatedUser)
      → change_own_password h now user current_password new_password current_session_id db
        ≡ ok (actor, db')
      → Step h db db'
  authenticated :
      (now : ℕ) (username password : String)
      → (authenticate_user h now username password db).1 ≡ db'
      → Step h db db'

pub data Reach (h : Hashing) (db : Accounts) : Accounts → Type 0 where
  here : Reach h db db
  next : {db' db'' : Accounts} → Reach h db db' → Step h db' db'' → Reach h db db''

set_user_role-keeps :
    (now : ℕ) (username role : String) (db : Accounts) (actor : AuthenticatedUser) (db' : Accounts)
    → 1 ≤ enabled_admin_count db.users
    → set_user_role now username role db ≡ ok (actor, db')
    → 1 ≤ enabled_admin_count db'.users
unfolding set_user_role
set_user_role-keeps now username role db actor db' n h =
    let (new_role, normalized, rest) = >>=-eq-ok (normalize_role role) _ h in
    let (row, got, rest') = >>=-eq-ok (get_user_or_raise username db) _ rest in
    let (u, guarded, done) =
      >>=-eq-ok (if is_admin new_role then ok tt else ensure_not_last_enabled_admin row db) _
        rest' in
    let found = get_user-eq-ok username db row got in
    let kept =
      update-keeps (has_username row.username) (with_role new_role now) db.users row found in
    let stored : db' ≡ record db {
      users = update_user (has_username row.username) (with_role new_role now) db.users;
    } =
      ground (arith, done) in
    subst (λ (d : Accounts). 1 ≤ enabled_admin_count d.users) (sym stored)
      (kept (elim (Bool-cases (is_admin new_role)) [
        | inl to_admin ↦ ground (arith, to_admin, n)
        | inr to_other ↦
            let enough = guard-enough row db n (rw to_other at guarded) in omega (arith, enough)
      ]))

authenticate_user-keeps :
    (h : Hashing) (now : ℕ) (username password : String) (db : Accounts)
    → 1 ≤ enabled_admin_count db.users
    → 1 ≤ enabled_admin_count (authenticate_user h now username password db).1.users
unfolding authenticate_user
authenticate_user-keeps h now username password db n =
    elim (Result-cases (normalize_username username)) [
      | inr (e, bad) ↦ ground (arith, bad, n)
      | inl (name, named) ↦ elim (Option-cases (first_user (has_username name) db.users)) [
        | inl absent ↦ ground (arith, named, absent, n)
        | inr (row, found) ↦
            let kept =
              update-keeps (has_username name) (logged_in now) db.users row found
                (omega (arith, n)) in
            ground (arith, named, found, n, kept)
      ]
    ]

-- Every call that returns leaves an enabled administrator where there was one.
pub Step-keeps_admin :
    {h : Hashing} {db db' : Accounts}
    → 1 ≤ enabled_admin_count db.users
    → Step h db db'
    → 1 ≤ enabled_admin_count db'.users
Step-keeps_admin {h} {db} {db'} n
      (created now user_id username password role enabled before actor r) =
    let (row, stored) =
      create_user-eq-ok h now user_id username password role enabled before db actor db' r in
    let more = count-append db.users row in
    subst (λ (d : Accounts). 1 ≤ enabled_admin_count d.users) (sym stored) (omega (arith, n, more))
Step-keeps_admin {h} {db} {db'} n (role_set now username role actor r) =
    set_user_role-keeps now username role db actor db' n r
Step-keeps_admin {h} {db} {db'} n (user_disabled now username actor r) =
    let (row, found, guarded, a, stored) = disable_user-eq-ok now username db actor db' r in
    let enough = guard-enough row db n guarded in
    subst (λ (d : Accounts). 1 ≤ enabled_admin_count d.users) (sym stored)
      (update-keeps (has_username row.username) (disabled now) db.users row found
        (omega (arith, enough)))
Step-keeps_admin {h} {db} {db'} n (password_reset now username password actor r) =
    let (row, found, a, (hash, stored)) =
      reset_password-eq-ok h now username password db actor db' r in
    subst (λ (d : Accounts). 1 ≤ enabled_admin_count d.users) (sym stored)
      (update-keeps (has_username row.username) (with_password hash now) db.users row found
        (omega (arith, n)))
Step-keeps_admin {h} {db} {db'} n
      (password_changed now user current_password new_password kept actor r) =
    let (row, found, same, on, checked, (hash, stored)) =
      change_own_password-eq-ok h now user current_password new_password kept db actor db' r in
    subst (λ (d : Accounts). 1 ≤ enabled_admin_count d.users) (sym stored)
      (update-keeps (has_user_id row.user_id) (with_password hash now) db.users row found
        (omega (arith, n)))
Step-keeps_admin {h} {db} {db'} n (authenticated now username password r) =
    subst (λ (d : Accounts). 1 ≤ enabled_admin_count d.users) r
      (authenticate_user-keeps h now username password db n)

-- After any sequence of calls of the account operations, there is an enabled administrator where
-- there was one before.
pub Reach-keeps_admin :
    {h : Hashing} {db db' : Accounts}
    → 1 ≤ enabled_admin_count db.users
    → Reach h db db'
    → 1 ≤ enabled_admin_count db'.users
Reach-keeps_admin n here = n
Reach-keeps_admin n (next r s) = Step-keeps_admin (Reach-keeps_admin n r) s
