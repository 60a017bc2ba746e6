-- ===== src/Tests/Auth.antt =====
-- internal/api/auth.go and the login handler at concrete inputs.
use m365_backup.Base.{
  ◌+◌, ◌≤◌, arith, ◌≡◌, ◌⊎◌, refl, false, Option, none, some, [], ◌∷◌, Text, codes, same, is_empty,
  ltb, all, count_if, find_if, trim_space, starts_with, if◌then◌else◌,
}
use m365_backup.Auth.Users.{User, get_user_by_username}
use m365_backup.Auth.Sessions.{
  Principal, SessionStore, Hashes, scope_write, session_ttl, login, login_max_attempts, logout,
  valid, verify_user,
}
use m365_backup.Auth.Access.{
  Request, is_public, allow_scope, middleware, passed, Attempt, client_ip, begin_login, end_login,
}
use m365_backup.Auth.Guarded.{ByToken, BySession, IsPermitted, middleware-guarded}
use m365_backup.Auth.Lifetime.{Verified, login-session}
use m365_backup.Auth.Limit.{Logins, is_wrong_from, begun, ended, here, begins, ends, logins-bounded}

-- A password is its own hash.
abbrev plain_hashes : Hashes
plain_hashes = record { check_password = same; hash_api_token = λ t. t }

abbrev admin : User
admin = record {
  id = codes "u1";
  username = codes "admin";
  password_hash = codes "secret";
  created_at = 0;
  updated_at = 0;
}

abbrev fresh_store : SessionStore
fresh_store = record { users = admin ∷ []; tokens = []; sessions = λ t. none; attempts = λ ip. [] }

abbrev uuid : Text
uuid = codes "s1"

abbrev logged_in_store : SessionStore
logged_in_store = record fresh_store {
  sessions = λ t.
      if same uuid t
      then some
          (record { user_id = codes "u1"; username = codes "admin"; expires = 5 + session_ttl })
      else none;
}

abbrev delete_request : Request
delete_request = record {
  method = codes "DELETE";
  path = codes "/api/jobs/j1";
  authorization = [];
  session_cookie = some uuid;
  forwarded_for = [];
  remote_addr = codes "10.0.0.9:4711";
}

abbrev admin_session : Principal
admin_session = record {
  user_id = codes "u1";
  username = codes "admin";
  scope = scope_write;
  via = codes "session";
}

login-session_example :
    (u : User) × Verified plain_hashes fresh_store (codes "admin") (codes "secret") u
    × (is_empty (codes "secret") ≡ false)
    × ((valid logged_in_store uuid 7).1 ≡ (
        if ltb (5 + session_ttl) 7
        then none
        else some (record {
          user_id = u.id;
          username = u.username;
          scope = scope_write;
          via = codes "session";
        })))
    × ((valid (logout logged_in_store uuid) uuid 7).1 ≡ none)
    × ((t : Text) → same uuid t ≡ false → logged_in_store.sessions t ≡ fresh_store.sessions t)
    × (logged_in_store.users ≡ fresh_store.users)
    × (logged_in_store.tokens ≡ fresh_store.tokens)
unfolding login verify_user get_user_by_username find_if same trim_space
login-session_example =
    login-session plain_hashes fresh_store logged_in_store (codes "admin") (codes "secret") uuid
      uuid 5 7 refl

middleware-guarded_example :
    (p : Principal) × (some admin_session ≡ some p)
    × IsPermitted delete_request p
    × (ByToken plain_hashes logged_in_store delete_request p
        ⊎ BySession logged_in_store delete_request 7 p)
unfolding middleware is_public valid allow_scope same starts_with
    m365_backup.Auth.Access.principal_from_request
middleware-guarded_example =
    middleware-guarded plain_hashes logged_in_store logged_in_store delete_request 7
      (some admin_session) refl refl

abbrev guess : Attempt
guess = record {
  request = delete_request;
  username = codes "admin";
  password = codes "guess";
  uuid = uuid;
}

abbrev no_split : Text → Option Text
no_split addr = none

abbrev no_logins : Logins
no_logins = record { store = fresh_store; flying = []; answers = [] }

abbrev two_begun : Logins
two_begun = begun no_split (begun no_split no_logins guess 5) guess 6

-- The second request begins before the first one ends.
logins-bounded_example :
    count_if
        (is_wrong_from (codes "10.0.0.9:4711"))
        (ended plain_hashes no_split two_begun (guess ∷ []) guess [] 7).answers
      + 1
    ≤ login_max_attempts + 2
unfolding count_if m365_backup.Auth.Sessions.allow_login begin_login m365_backup.Base.keep_if same
    client_ip trim_space
logins-bounded_example =
    logins-bounded plain_hashes no_split (codes "10.0.0.9:4711") 2 3 no_logins
      (ended plain_hashes no_split two_begun (guess ∷ []) guess [] 7) refl (omega arith)
      (ends (guess ∷ []) guess [] 7
        (begins guess 6 (begins guess 5 here (omega arith) (omega arith) (omega arith))
          (omega arith) (omega arith) (omega arith))
        (omega arith) (omega arith) refl)
