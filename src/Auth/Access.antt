-- ===== src/Auth/Access.antt =====
-- internal/api/auth.go and router.go: who a request comes from, the middleware, and the handlers
-- of login, logout and API tokens. net.SplitHostPort is a parameter.
use m365_backup.Base.{
  Bool, true, false, not, ◌&&◌, ◌||◌, Option, none, some, [], ◌∷◌, ◌++◌, Text, codes, is_empty,
  same, take, drop, length, ltb, ◌==◌, trim_space, lower, starts_with, if◌then◌else◌,
}
use m365_backup.Clock.{Time}
use m365_backup.Auth.Users.{user_kind, insert_api_token, delete_api_token}
use m365_backup.Auth.Sessions.{
  Principal, SessionStore, Hashes, scope_read, scope_write, allow_login, record_login_attempt,
  login, logout, valid, authenticate_bearer, ellipsis,
}

pub record Request : Type 0 where
  pub method : Text
  pub path : Text
  pub authorization : Text
  pub session_cookie : Option Text
  pub forwarded_for : Text
  pub remote_addr : Text

-- The paths that need no login.
unfoldable pub is_public : Text → Bool
is_public path =
    starts_with path (codes "/login")
    || starts_with path (codes "/lang/")
    || starts_with path (codes "/static/")
    || starts_with path (codes "/api/consent/callback")
    || same path (codes "/healthz")

-- The bearer token of a request.
unfoldable pub bearer_of : Request → Option Text
bearer_of r =
    if starts_with (lower r.authorization) (codes "bearer ")
    then some (trim_space (drop 7 r.authorization))
    else none

unfoldable pub principal_from_cookie :
    SessionStore → Request → Time → SessionStore × Option Principal
principal_from_cookie s r now = elim r.session_cookie [ none ↦ (s, none) | some c ↦ valid s c now ]

abbrev pub or_cookie :
    Request → Time → SessionStore × Option Principal → SessionStore × Option Principal
or_cookie r now (s, some p) = (s, some p)
or_cookie r now (s, none) = principal_from_cookie s r now

-- principalFromRequest.
unfoldable pub principal_from_request :
    Hashes → SessionStore → Request → Time → SessionStore × Option Principal
unfolding bearer_of principal_from_cookie
principal_from_request h s r now = elim (bearer_of r) [
  | none ↦ principal_from_cookie s r now
  | some raw ↦ or_cookie r now (authenticate_bearer h s raw now)
]

-- GET, HEAD and OPTIONS.
unfoldable pub is_safe_method : Text → Bool
is_safe_method m = same m (codes "GET") || same m (codes "HEAD") || same m (codes "OPTIONS")

-- allowScope.
unfoldable pub allow_scope : Request → Principal → Bool
unfolding is_safe_method
allow_scope r p =
    if same p.scope scope_write
    then true
    else if not (same p.scope scope_read)
    then false
    else is_safe_method r.method && not (starts_with r.path (codes "/api/consent/start"))

-- What the middleware does with a request.
pub data Decision : Type 0 where
  passed : Option Principal → Decision
  forbidden unauthorized to_login : Decision

abbrev pub decide : Request → Option Principal → Decision
decide r (some p) = if allow_scope r p then passed (some p) else forbidden
decide r none = if starts_with r.path (codes "/api/") then unauthorized else to_login

-- Middleware.
unfoldable pub middleware : Hashes → SessionStore → Request → Time → SessionStore × Decision
middleware h s r now =
    if is_public r.path
    then (s, passed none)
    else let (s', p) = principal_from_request h s r now in (s', decide r p)

-- strings.Split(s, ",")[0].
unfoldable pub before_comma : Text → Text
before_comma [] = []
before_comma (c ∷ s) = if c == b',' then [] else c ∷ before_comma s

-- clientIP.
unfoldable pub client_ip : (Text → Option Text) → Request → Text
unfolding before_comma
client_ip split_host_port r =
    let first = trim_space (before_comma r.forwarded_for) in
    if not (is_empty first)
    then first
    else elim (split_host_port r.remote_addr) [ none ↦ r.remote_addr | some host ↦ host ]

-- A request of the login form, with the credentials that readLoginCredentials reads.
pub record Attempt : Type 0 where
  pub request : Request
  pub username : Text
  pub password : Text
  pub uuid : Text

pub data LoginResult : Type 0 where
  invalid : LoginResult
  logged_in : Text → LoginResult

abbrev pub finish_login : Text → Time → SessionStore × Option Text → SessionStore × LoginResult
finish_login ip now (s, some token) = (s, logged_in token)
finish_login ip now (s, none) = (record_login_attempt s ip now, invalid)

-- handleLogin up to the answer of allowLogin; the session store is not locked behind it.
unfoldable pub begin_login :
    (Text → Option Text) → SessionStore → Attempt → Time → SessionStore × Bool
unfolding client_ip
begin_login split_host_port s a now = allow_login s (client_ip split_host_port a.request) now

-- The rest of handleLogin. A Login that fails changes nothing, so what comes between it and
-- recordLoginAttempt may as well come before it.
unfoldable pub end_login :
    Hashes → (Text → Option Text) → SessionStore → Attempt → Time → SessionStore × LoginResult
unfolding client_ip
end_login h split_host_port s a now =
    finish_login (client_ip split_host_port a.request) now
      (login h s a.username a.password a.uuid now)

-- handleLogout.
unfoldable pub handle_logout : SessionStore → Request → SessionStore
handle_logout s r = elim r.session_cookie [ none ↦ s | some c ↦ logout s c ]

-- tokenPrefix.
unfoldable pub token_prefix : Text → Text
token_prefix plain = (if ltb (length plain) 12 then plain else take 12 plain) ++ ellipsis

-- handleCreateToken, with the plain token and the UUID; `none` is the answer 403.
unfoldable pub handle_create_token :
    Hashes
    → SessionStore
    → Option Principal
    → Text
    → Text
    → Text
    → Text
    → Time
    → Option SessionStore
unfolding token_prefix
handle_create_token h s none name scope plain uuid now = none
handle_create_token h s (some p) name scope plain uuid now =
    if not (same p.scope scope_write)
    then none
    else some (record s {
      tokens =
          insert_api_token s.tokens
            (record {
              id = [];
              user_id = p.user_id;
              name = if is_empty (trim_space name) then codes "api" else trim_space name;
              kind = user_kind;
              token_hash = h.hash_api_token plain;
              prefix = token_prefix plain;
              scope = if same (trim_space scope) scope_read then scope_read else scope_write;
              created_at = 0;
              last_used_at = 0;
            })
            uuid now;
    })

-- handleDeleteToken; a token that is not the user's own stays.
unfoldable pub handle_delete_token : SessionStore → Option Principal → Text → Option SessionStore
handle_delete_token s none id = none
handle_delete_token s (some p) id =
    if not (same p.scope scope_write) then none else elim (delete_api_token s.tokens p.user_id id) [
      | none ↦ some s
      | some tokens ↦ some (record s { tokens = tokens })
    ]
