-- ===== src/Auth/Guarded.antt =====
-- internal/api/auth.go: what stands behind a request that the middleware lets through.
use m365_backup.Base.{
  ◌≡◌, refl, ◌∙◌, ap, ◌⊎◌, inl, inr, true, false, Option, none, some, Text, codes, arith, same,
  same-eq, is_empty, ltb, starts_with, trim_space, Bool-cases, Option-cases,
}
use m365_backup.Clock.{Time}
use m365_backup.Auth.Users.{User, ApiToken, get_user, get_api_token_by_hash}
use m365_backup.Auth.Sessions.{
  Principal, SessionInfo, SessionStore, Hashes, scope_read, scope_write, valid, authenticate_bearer,
}
use m365_backup.Auth.Access.{
  Request, is_public, bearer_of, principal_from_cookie, principal_from_request, is_safe_method,
  allow_scope, passed, middleware,
}

-- An API token of the table whose hash is that of the request's bearer token, and its user.
pub record ByToken (h : Hashes) (s : SessionStore) (r : Request) (p : Principal) : Type 0 where
  pub raw : Text
  pub token : ApiToken
  pub user : User
  pub sent : bearer_of r ≡ some raw
  pub known : get_api_token_by_hash s.tokens (h.hash_api_token (trim_space raw)) ≡ some token
  pub owner : get_user s.users token.user_id ≡ some user
  pub user_id : p.user_id ≡ user.id
  pub scope : p.scope ≡ token.scope

-- A session of the request's cookie that has not expired.
pub record BySession (s : SessionStore) (r : Request) (now : Time) (p : Principal) : Type 0 where
  pub cookie : Text
  pub info : SessionInfo
  pub sent : r.session_cookie ≡ some cookie
  pub known : s.sessions cookie ≡ some info
  pub fresh : ltb info.expires now ≡ false
  pub user_id : p.user_id ≡ info.user_id
  pub scope : p.scope ≡ scope_write

-- What the scope of a principal permits.
abbrev pub IsPermitted : Request → Principal → Type 0
IsPermitted r p =
    (p.scope ≡ scope_write)
    ⊎ ((p.scope ≡ scope_read)
        × (is_safe_method r.method ≡ true)
        × (starts_with r.path (codes "/api/consent/start") ≡ false))

allow_scope-IsPermitted : (r : Request) (p : Principal) → allow_scope r p ≡ true → IsPermitted r p
unfolding allow_scope
allow_scope-IsPermitted r p h = elim (Bool-cases (same p.scope scope_write)) [
  | inl w ↦ inl (same-eq p.scope scope_write w)
  | inr w ↦ elim (Bool-cases (same p.scope scope_read)) [
    | inl x ↦ inr (same-eq p.scope scope_read x, ground arith, ground arith)
    | inr x ↦ absurd (ground arith)
  ]
]

valid-BySession :
    (s s' : SessionStore) (r : Request) (c : Text) (now : Time) (p : Principal)
    → r.session_cookie ≡ some c
    → valid s c now ≡ (s', some p)
    → BySession s r now p
unfolding valid
valid-BySession s s' r c now p sent v = elim (Option-cases (s.sessions c)) [
  | inl n ↦ absurd (ground arith)
  | inr (info, k) ↦ elim (Bool-cases (ltb info.expires now)) [
    | inl old ↦ absurd (ground arith)
    | inr fresh ↦ record {
      cookie = c;
      info = info;
      sent = sent;
      known = k;
      fresh = fresh;
      user_id = ground arith;
      scope = ground arith;
    }
  ]
]

cookie-BySession :
    (s s' : SessionStore) (r : Request) (now : Time) (p : Principal)
    → principal_from_cookie s r now ≡ (s', some p)
    → BySession s r now p
unfolding principal_from_cookie
cookie-BySession s s' r now p h = elim (Option-cases r.session_cookie) [
  | inl n ↦ absurd (ground arith)
  | inr (c, e) ↦ valid-BySession s s' r c now p e (ground arith)
]

-- AuthenticateBearer leaves the sessions alone, and what it accepts is a token of the table.
bearer-ByToken :
    (h : Hashes) (s s' : SessionStore) (r : Request) (raw : Text) (now : Time) (p : Principal)
    → bearer_of r ≡ some raw
    → authenticate_bearer h s raw now ≡ (s', some p)
    → ByToken h s r p
unfolding authenticate_bearer
bearer-ByToken h s s' r raw now p sent a = elim (Bool-cases (is_empty (trim_space raw))) [
  | inl e ↦ absurd (ground arith)
  | inr e ↦
      elim (Option-cases (get_api_token_by_hash s.tokens (h.hash_api_token (trim_space raw)))) [
        | inl n ↦ absurd (ground arith)
        | inr (tok, k) ↦ elim (Option-cases (get_user s.users tok.user_id)) [
          | inl n ↦ absurd (ground arith)
          | inr (u, o) ↦ record {
            raw = raw;
            token = tok;
            user = u;
            sent = sent;
            known = k;
            owner = o;
            user_id = ground arith;
            scope = ground arith;
          }
        ]
      ]
]

bearer-refused :
    (h : Hashes) (s s' : SessionStore) (raw : Text) (now : Time)
    → authenticate_bearer h s raw now ≡ (s', none)
    → s ≡ s'
unfolding authenticate_bearer
bearer-refused h s s' raw now a = ground arith

request-credential :
    (h : Hashes) (s s' : SessionStore) (r : Request) (now : Time) (p : Principal)
    → principal_from_request h s r now ≡ (s', some p)
    → ByToken h s r p ⊎ BySession s r now p
unfolding principal_from_request
request-credential h s s' r now p e = elim (Option-cases (bearer_of r)) [
  | inl n ↦ inr (cookie-BySession s s' r now p (ground arith))
  | inr (raw, b) ↦ by_answer raw b (authenticate_bearer h s raw now) refl
]
  where
    by_answer :
        (raw : Text)
        → bearer_of r ≡ some raw
        → (a : SessionStore × Option Principal) → authenticate_bearer h s raw now ≡ a
        → ByToken h s r p ⊎ BySession s r now p
    by_answer raw b (t, some q) a =
        let same_p : q ≡ p = ground arith in
        inl (bearer-ByToken h s t r raw now p b (a ∙ ap (λ (x : Principal). (t, some x)) same_p))
    by_answer raw b (t, none) a =
        let same_s = bearer-refused h s t raw now a in
        inr (
          cookie-BySession s s' r now p
            (ap (λ (x : SessionStore). principal_from_cookie x r now) same_s ∙ ground arith))

-- A request for a path that is not public gets past the middleware only with a principal that
-- comes from an API token of the table, by its hash and with an existing user, or from a session
-- that has not expired; and the principal's scope is `write`, or it is `read` and the request is
-- a GET, HEAD or OPTIONS that does not start a consent.
pub middleware-guarded :
    (h : Hashes) (s s' : SessionStore) (r : Request) (now : Time) (o : Option Principal)
    → is_public r.path ≡ false
    → middleware h s r now ≡ (s', passed o)
    → (p : Principal) × (o ≡ some p) × IsPermitted r p × (ByToken h s r p ⊎ BySession s r now p)
unfolding middleware
middleware-guarded h s s' r now o private m = by_answer (principal_from_request h s r now) refl
  where
    by_answer :
        (a : SessionStore × Option Principal)
        → principal_from_request h s r now ≡ a
        → (p : Principal) × (o ≡ some p) × IsPermitted r p × (ByToken h s r p ⊎ BySession s r now p)
    by_answer (t, none) a = absurd (ground arith)
    by_answer (t, some p) a = elim (Bool-cases (allow_scope r p)) [
      | inr no_scope ↦ absurd (ground arith)
      | inl permitted ↦ (
        p,
        ground arith,
        allow_scope-IsPermitted r p permitted,
        request-credential h s t r now p a,
      )
    ]
