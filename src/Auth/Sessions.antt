-- ===== src/Auth/Sessions.antt =====
-- internal/api/auth.go: SessionStore, with the user tables that it reads. The comparisons with a
-- constant hash, which only take time, are left out.
use m365_backup.Base.{
  ℕ, ◌+◌, ◌*◌, Bool, false, ◌||◌, Option, none, some, List, [], ◌∷◌, ◌++◌, Text, codes, is_empty,
  same, keep_if, length, ltb, trim_space, if◌then◌else◌,
}
use m365_backup.Clock.{Time, second_ns, hour_ns}
use m365_backup.Auth.Users.{
  User, ApiToken, get_user_by_username, get_user, get_api_token_by_hash, touch_api_token,
  upsert_user, delete_api_tokens_by_kind,
}

pub record Principal : Type 0 where
  pub user_id : Text
  pub username : Text
  pub scope : Text
  pub via : Text

pub record SessionInfo : Type 0 where
  pub user_id : Text
  pub username : Text
  pub expires : Time

pub record SessionStore : Type 0 where
  pub users : List User
  pub tokens : List ApiToken
  pub sessions : Text → Option SessionInfo
  pub attempts : Text → List Time

-- bcrypt.CompareHashAndPassword (hash, password), and hashAPIToken.
pub record Hashes : Type 0 where
  pub check_password : Text → Text → Bool
  pub hash_api_token : Text → Text

abbrev pub scope_read : Text
scope_read = codes "read"

abbrev pub scope_write : Text
scope_write = codes "write"

-- NewSessionStore: the sessions live 24 hours.
abbrev pub session_ttl : Time
session_ttl = 24 * hour_ns

abbrev pub login_window : Time
login_window = 60 * second_ns

abbrev pub login_max_attempts : ℕ
login_max_attempts = 10

abbrev pub set_session :
    (Text → Option SessionInfo) → Text → Option SessionInfo → Text → Option SessionInfo
set_session sessions token info t = if same token t then info else sessions t

abbrev pub set_attempts : (Text → List Time) → Text → List Time → Text → List Time
set_attempts attempts ip times x = if same ip x then times else attempts x

-- EnsureBootstrapAuth, with the hash that bcrypt gives; `none` is an error.
unfoldable pub ensure_bootstrap_auth :
    SessionStore → Text → Text → Text → Time → Option SessionStore
ensure_bootstrap_auth s username hash uuid now = elim (upsert_user s.users username hash uuid now) [
  | none ↦ none
  | some (u, users) ↦ elim (delete_api_tokens_by_kind s.tokens u.id (codes "env")) [
    | none ↦ none
    | some tokens ↦ some (record s { users = users; tokens = tokens })
  ]
]

-- Whether an attempt lies in the window: `t.After(now.Add(-loginWindow))`.
abbrev pub is_recent : Time → Time → Bool
is_recent now t = ltb now (t + login_window)

-- allowLogin.
unfoldable pub allow_login : SessionStore → Text → Time → SessionStore × Bool
allow_login s ip now =
    let recent = keep_if (is_recent now) (s.attempts ip) in
    (
      record s { attempts = set_attempts s.attempts ip recent },
      ltb (length recent) login_max_attempts,
    )

-- recordLoginAttempt.
unfoldable pub record_login_attempt : SessionStore → Text → Time → SessionStore
record_login_attempt s ip now = record s {
  attempts = set_attempts s.attempts ip (s.attempts ip ++ now ∷ []);
}

-- verifyUser; `none` is an error.
unfoldable pub verify_user : Hashes → List User → Text → Text → Option User
verify_user h users username password = elim (get_user_by_username users (trim_space username)) [
  | none ↦ none
  | some u ↦ if h.check_password u.password_hash password then some u else none
]

-- VerifyUserPassword.
unfoldable pub verify_user_password : Hashes → SessionStore → Text → Text → Bool
verify_user_password h s user_id password =
    if is_empty user_id then false else elim (get_user s.users user_id) [
      | none ↦ false
      | some u ↦ h.check_password u.password_hash password
    ]

-- Login, with the UUID of the new session; `none` is a refusal.
unfoldable pub login :
    Hashes → SessionStore → Text → Text → Text → Time → SessionStore × Option Text
unfolding verify_user
login h s username password uuid now =
    let name = trim_space username in
    if is_empty name || is_empty password
    then (s, none)
    else elim (verify_user h s.users name password) [
      | none ↦ (s, none)
      | some u ↦
          let info : SessionInfo = record {
            user_id = u.id;
            username = u.username;
            expires = now + session_ttl;
          } in
          (record s { sessions = set_session s.sessions uuid (some info) }, some uuid)
    ]

-- Logout.
unfoldable pub logout : SessionStore → Text → SessionStore
logout s token = record s { sessions = set_session s.sessions token none }

-- Valid.
unfoldable pub valid : SessionStore → Text → Time → SessionStore × Option Principal
unfolding logout
valid s token now = elim (s.sessions token) [
  | none ↦ (logout s token, none)
  | some info ↦ if ltb info.expires now then (logout s token, none) else (
    s,
    some (record {
      user_id = info.user_id;
      username = info.username;
      scope = scope_write;
      via = codes "session";
    }),
  )
]

-- AuthenticateBearer.
unfoldable pub authenticate_bearer :
    Hashes → SessionStore → Text → Time → SessionStore × Option Principal
authenticate_bearer h s raw now =
    let plain = trim_space raw in
    if is_empty plain
    then (s, none)
    else elim (get_api_token_by_hash s.tokens (h.hash_api_token plain)) [
      | none ↦ (s, none)
      | some tok ↦ elim (get_user s.users tok.user_id) [
        | none ↦ (s, none)
        | some u ↦ (
          record s { tokens = touch_api_token s.tokens tok.id now },
          some (record {
            user_id = u.id;
            username = u.username;
            scope = tok.scope;
            via = codes "token";
          }),
        )
      ]
    ]

abbrev pub ellipsis : Text
ellipsis = 226 ∷ 128 ∷ 166 ∷ []
