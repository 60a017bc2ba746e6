-- ===== src/Auth/Lifetime.antt =====
-- internal/api/auth.go: a session from login to logout.
use m365_backup.Base.{
  ◌+◌, ◌≡◌, refl, true, false, ◌||◌, none, some, Text, codes, arith, same, same_refl, is_empty, ltb,
  trim_space, ◌⊎◌, if◌then◌else◌, Bool-cases, Option-cases, inl, inr,
}
use m365_backup.Clock.{Time}
use m365_backup.Auth.Users.{User, get_user_by_username}
use m365_backup.Auth.Sessions.{
  SessionInfo, SessionStore, Hashes, scope_write, session_ttl, verify_user, login, logout, valid,
  set_session,
}

-- A user of the table, by the name that was entered, with a password that the hash accepts.
pub record Verified (h : Hashes) (s : SessionStore) (username password : Text) (u : User)
    : Type 0 where
  pub found : get_user_by_username s.users (trim_space (trim_space username)) ≡ some u
  pub checked : h.check_password u.password_hash password ≡ true

verify_user-cases :
    (h : Hashes) (s : SessionStore) (username password : Text)
    → (verify_user h s.users (trim_space username) password ≡ none)
      ⊎ ((u : User) × (verify_user h s.users (trim_space username) password ≡ some u)
          × Verified h s username password u)
unfolding verify_user
verify_user-cases h s username password =
    elim (Option-cases (get_user_by_username s.users (trim_space (trim_space username)))) [
      | inl n ↦ inl (ground arith)
      | inr (u, f) ↦ elim (Bool-cases (h.check_password u.password_hash password)) [
        | inl c ↦ inr (u, ground arith, record { found = f; checked = c })
        | inr c ↦ inl (ground arith)
      ]
    ]

-- The session that a login gives: it stands for the verified user, with the scope `write`, until
-- 24 hours are over or until the logout; the sessions with other tokens, the users and the API
-- tokens are as before.
pub login-session :
    (h : Hashes) (s s' : SessionStore) (username password uuid token : Text) (now later : Time)
    → login h s username password uuid now ≡ (s', some token)
    → (u : User) × Verified h s username password u
      × (is_empty password ≡ false)
      × ((valid s' token later).1 ≡ (
          if ltb (now + session_ttl) later
          then none
          else some (record {
            user_id = u.id;
            username = u.username;
            scope = scope_write;
            via = codes "session";
          })))
      × ((valid (logout s' token) token later).1 ≡ none)
      × ((t : Text) → same token t ≡ false → s'.sessions t ≡ s.sessions t)
      × (s'.users ≡ s.users)
      × (s'.tokens ≡ s.tokens)
unfolding login valid logout
login-session h s s' username password uuid token now later l =
    elim (Bool-cases (is_empty (trim_space username) || is_empty password)) [
      | inl e ↦ absurd (ground arith)
      | inr e ↦ elim (verify_user-cases h s username password) [
        | inl n ↦ absurd (ground arith)
        | inr (u, v, good) ↦
            let info : SessionInfo = record {
              user_id = u.id;
              username = u.username;
              expires = now + session_ttl;
            } in
            let same_token : uuid ≡ token = ground arith in
            let same_store : record s { sessions = set_session s.sessions uuid (some info) } ≡ s' =
              ground arith in
            rw (← same_token, ← same_store)
              (
                u,
                good,
                ground arith,
                ground (arith, same_refl uuid),
                ground (arith, same_refl uuid),
                λ t d. ground arith,
                refl,
                refl,
              )
      ]
    ]
