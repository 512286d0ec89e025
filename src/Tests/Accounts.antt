-- ===== src/Tests/Accounts.antt =====
-- The theorems of the Auth modules at concrete inputs.
use gjallar.Prelude.{◌≡◌, ◌≤◌, refl, true, false, none, some, [], ◌∷◌, arith, ◌==◌}
use gjallar.Prelude.Text.{strip, is_blank}
use gjallar.Result.{ok}
use gjallar.Auth.{
  AuthenticatedUser, UserRecord, SessionRecord, Accounts, Hashing, admin, operator, actor_from_user,
  first_user, has_user_id,
}
use gjallar.Auth.Users.{
  enabled_admin_count, disable_user, reset_password, change_own_password, create_user,
}
use gjallar.Auth.Users.Admins.{Reach, here, next, user_disabled, Reach-keeps_admin}
use gjallar.Auth.Users.Revocation.{
  change_own_password-rejects_others, session_of, disable_user-rejects, reset_password-rejects,
}
use gjallar.Auth.Sessions.{
  new_session, has_session_id, create_session, actor_for_session_token, revoke_session_token,
  find_session,
}
use gjallar.Auth.Sessions.Tokens.{create_session-accepted, revoke_session_token-refused}
use gjallar.Tests.Data.{value}

-- Hashes are the texts themselves.
abbrev plain : Hashing
plain = record { hash_password = λ s. ok s; verify_password = λ s t. s == t; token_hash = λ s. s }

abbrev root : UserRecord
root = record {
  user_id = "user_1";
  username = "root";
  password_hash = "pw1";
  role = admin;
  enabled = true;
  created_at = 1;
  updated_at = 1;
  last_login_at = none;
}

abbrev backup : UserRecord
backup = record root { user_id = "user_2"; username = "backup"; password_hash = "pw2" }

abbrev users0 : Accounts
users0 = record { users = root ∷ backup ∷ []; sessions = [] }

abbrev accounts : Accounts
accounts = record users0 {
  sessions =
      new_session plain 11 100 "tok2" "sess_2" (actor_from_user root) none none
      ∷ new_session plain 10 100 "tok1" "sess_1" (actor_from_user root) none none
      ∷ [];
}

not_blank : is_blank "tok3" ≡ false
unfolding is_blank
not_blank = refl

stripped : strip "tok3" ≡ "tok3"
unfolding strip
stripped = refl

fresh_token : find_session "tok3" accounts.sessions ≡ none
unfolding find_session
fresh_token = refl

root_found : first_user (has_user_id "user_1") accounts.users ≡ some root
unfolding first_user
root_found = refl

new_session_id : has_session_id "sess_3" accounts.sessions ≡ false
new_session_id = refl

create_session-accepted_example :
    (db' : Accounts) × (create_session plain 20 100 "tok3" "sess_3"
        (actor_from_user root)
        none
        none
        accounts
      ≡ ok db')
    × ((actor_for_session_token plain 60 "tok3" db').0 ≡ some (actor_from_user root))
create_session-accepted_example =
    create_session-accepted plain 20 100 60 "tok3" "sess_3" (actor_from_user root) none none
      accounts root not_blank stripped new_session_id fresh_token root_found refl (omega arith)

revoked1 :
    revoke_session_token plain 30 "tok1" accounts
    ≡ (true, (revoke_session_token plain 30 "tok1" accounts).1)
unfolding revoke_session_token is_blank find_session
revoked1 = refl

revoke_session_token-refused_example :
    (actor_for_session_token plain 40 "tok1" (revoke_session_token plain 30 "tok1" accounts).1).0
    ≡ none
revoke_session_token-refused_example =
    revoke_session_token-refused plain 30 40 "tok1" accounts
      (revoke_session_token plain 30 "tok1" accounts).1 revoked1

accepted1 : (actor_for_session_token plain 40 "tok1" accounts).0 ≡ some (actor_from_user root)
unfolding actor_for_session_token is_blank find_session gjallar.Auth.Sessions.session_status
    first_user
accepted1 = refl

abbrev session1 : SessionRecord
session1 = record {
  session_id = "sess_1";
  user_id = "user_1";
  session_token_hash = "tok1";
  expires_at = 110;
  created_at = 10;
  revoked_at = some 50;
  user_agent_hash = none;
  ip_hash = none;
}

abbrev disabled1 : AuthenticatedUser × Accounts
disabled1 = value (actor_from_user backup, users0) (disable_user 50 "root" accounts)

disable1 : disable_user 50 "root" accounts ≡ ok (disabled1.0, disabled1.1)
unfolding disable_user gjallar.Auth.Users.get_user_or_raise gjallar.Auth.Users.normalize_username
    strip first_user gjallar.Auth.Users.ensure_not_last_enabled_admin enabled_admin_count
disable1 = refl

found1 : session_of plain "tok1" disabled1.1 ≡ some session1
unfolding find_session disable_user gjallar.Auth.Users.get_user_or_raise
    gjallar.Auth.Users.normalize_username strip first_user
    gjallar.Auth.Users.ensure_not_last_enabled_admin enabled_admin_count
    gjallar.Auth.Users.revoke_active_sessions
found1 = refl

own1 : session1.user_id ≡ disabled1.0.user_id
unfolding disable_user gjallar.Auth.Users.get_user_or_raise gjallar.Auth.Users.normalize_username
    strip first_user gjallar.Auth.Users.ensure_not_last_enabled_admin enabled_admin_count
own1 = refl

disable_user-rejects_example : (actor_for_session_token plain 60 "tok1" disabled1.1).0 ≡ none
disable_user-rejects_example =
    disable_user-rejects plain 50 60 "root" "tok1" accounts disabled1.0 disabled1.1 session1
      disable1 (omega arith) found1 own1

abbrev reset1 : AuthenticatedUser × Accounts
reset1 = value (actor_from_user backup, users0) (reset_password plain 50 "root" "new" accounts)

resets1 : reset_password plain 50 "root" "new" accounts ≡ ok (reset1.0, reset1.1)
unfolding reset_password gjallar.Auth.Users.get_user_or_raise gjallar.Auth.Users.normalize_username
    strip first_user
resets1 = refl

found2 : session_of plain "tok1" reset1.1 ≡ some session1
unfolding find_session reset_password gjallar.Auth.Users.get_user_or_raise
    gjallar.Auth.Users.normalize_username strip first_user gjallar.Auth.Users.revoke_active_sessions
found2 = refl

own2 : session1.user_id ≡ reset1.0.user_id
unfolding reset_password gjallar.Auth.Users.get_user_or_raise gjallar.Auth.Users.normalize_username
    strip first_user
own2 = refl

reset_password-rejects_example : (actor_for_session_token plain 60 "tok1" reset1.1).0 ≡ none
reset_password-rejects_example =
    reset_password-rejects plain 50 60 "root" "new" "tok1" accounts reset1.0 reset1.1 session1
      resets1 (omega arith) found2 own2

abbrev change1 : AuthenticatedUser × Accounts
change1 =
    value (actor_from_user backup, users0)
      (change_own_password plain 50 (actor_from_user root) "pw1" "new" (some "sess_2") accounts)

changes1 :
    change_own_password plain 50 (actor_from_user root) "pw1" "new" (some "sess_2") accounts
    ≡ ok (change1.0, change1.1)
unfolding change_own_password first_user
changes1 = refl

abbrev session2 : SessionRecord
session2 = record session1 {
  session_id = "sess_2";
  session_token_hash = "tok2";
  expires_at = 111;
  created_at = 11;
  revoked_at = none;
}

found3 : session_of plain "tok2" change1.1 ≡ some session2
unfolding find_session change_own_password first_user gjallar.Auth.Users.revoke_active_sessions
    strip
found3 = refl

accepted3 : (actor_for_session_token plain 60 "tok2" change1.1).0 ≡ some change1.0
unfolding actor_for_session_token is_blank find_session change_own_password first_user
    gjallar.Auth.Users.revoke_active_sessions gjallar.Auth.Sessions.session_status
    gjallar.Auth.update_user
accepted3 = refl

own3 : session2.user_id ≡ root.user_id
own3 = refl

change_own_password-rejects_others_example : some "sess_2" ≡ some session2.session_id
change_own_password-rejects_others_example =
    change_own_password-rejects_others plain 50 60 (actor_from_user root) "pw1" "new"
      (some "sess_2") "tok2" accounts change1.0 change1.1 session2 change1.0 changes1 (omega arith)
      found3 own3 accepted3

has_admin : 1 ≤ enabled_admin_count accounts.users
unfolding enabled_admin_count
has_admin = omega arith

disabling : Reach plain accounts disabled1.1
disabling = next here (user_disabled 50 "root" disabled1.0 disable1)

Reach-keeps_admin_example : 1 ≤ enabled_admin_count disabled1.1.users
Reach-keeps_admin_example = Reach-keeps_admin has_admin disabling
