-- ===== src/Auth/Limit.antt =====
-- internal/api/router.go, handleLogin, and the limiter of auth.go: how many wrong passwords a client
-- can try.
use m365_backup.Base.{
  ℕ, ◌+◌, ◌≤◌, ◌<◌, ◌≡◌, refl, ap, ◌∙◌, Bool, true, false, Option, none, some, List, [], ◌∷◌, ◌++◌,
  Text, arith, same, same-eq, keep_if, count_if, count_if-append, count_if-le_length, leb,
  if◌then◌else◌, Bool-cases, inl, inr,
}
use m365_backup.Clock.{Time}
use m365_backup.Auth.Sessions.{
  SessionStore, Hashes, allow_login, record_login_attempt, login, is_recent, login_window,
  login_max_attempts,
}
use m365_backup.Auth.Access.{
  Attempt, client_ip, LoginResult, invalid, logged_in, finish_login, begin_login, end_login,
}

-- The session store, the requests between allowLogin and the end of handleLogin, and the answers
-- so far, each with its client address.
pub record Logins : Type 0 where
  pub store : SessionStore
  pub flying : List Attempt
  pub answers : List (Text × LoginResult)

abbrev pub is_wrong_from : Text → Text × LoginResult → Bool
is_wrong_from ip (x, invalid) = same x ip
is_wrong_from ip (x, logged_in token) = false

abbrev pub is_from : (Text → Option Text) → Text → Attempt → Bool
is_from split ip a = same (client_ip split a.request) ip

-- A request that allowLogin lets through waits for the check of its password; else it is over.
abbrev pub begun : (Text → Option Text) → Logins → Attempt → Time → Logins
begun split m a now =
    let (s', allowed) = begin_login split m.store a now in
    record m { store = s'; flying = if allowed then a ∷ m.flying else m.flying }

abbrev pub ended :
    Hashes → (Text → Option Text) → Logins → List Attempt → Attempt → List Attempt → Time → Logins
ended h split m before a after now =
    let (s', result) = end_login h split m.store a now in
    record {
      store = s';
      flying = before ++ after;
      answers = (client_ip split a.request, result) ∷ m.answers;
    }

abbrev pub since : Time → Time → Bool
since start t = leb start t

-- The steps of one minute, in any order: requests begin and end, and of one client address at no
-- time more than `k` are under way.
pub data Minute (h : Hashes) (split : Text → Option Text) (ip : Text) (k : ℕ) (start : Time)
    (l : Logins) : Logins → Type 0 where
  here : Minute h split ip k start l l
  begins :
      {m : Logins} (a : Attempt) (now : Time)
      → Minute h split ip k start l m
      → start ≤ now
      → now < start + login_window
      → count_if (is_from split ip) (begun split m a now).flying ≤ k
      → Minute h split ip k start l (begun split m a now)
  ends :
      {m : Logins} (before : List Attempt) (a : Attempt) (after : List Attempt) (now : Time)
      → Minute h split ip k start l m
      → start ≤ now
      → now < start + login_window
      → m.flying ≡ before ++ a ∷ after
      → Minute h split ip k start l (ended h split m before a after now)

-- What a minute's attempts of a client can be: those that the store holds from the start on.
abbrev noted : SessionStore → Text → Time → ℕ
noted s ip start = count_if (since start) (s.attempts ip)

keep_recent :
    (start now : Time) (times : List Time)
    → now < start + login_window
    → count_if (since start) (keep_if (is_recent now) times) ≡ count_if (since start) times
unfolding count_if keep_if
keep_recent start now [] h = refl
keep_recent start now (t ∷ ts) h = ground (arith, keep_recent start now ts h)

noted-allow :
    (s : SessionStore) (x ip : Text) (start now : Time)
    → now < start + login_window
    → noted (allow_login s x now).0 ip start ≡ noted s ip start
unfolding allow_login
noted-allow s x ip start now h = elim (Bool-cases (same x ip)) [
  | inl e ↦ rw e (
      ap (λ (i : Text). count_if (since start) (keep_if (is_recent now) (s.attempts i)))
        (same-eq x ip e)
      ∙ keep_recent start now (s.attempts ip) h)
  | inr e ↦ rw e
]

allowed_few :
    (s : SessionStore) (x : Text) (start now : Time)
    → now < start + login_window
    → (allow_login s x now).1 ≡ true
    → noted s x start < login_max_attempts
unfolding allow_login
allowed_few s x start now h a = ground (
  arith,
  keep_recent start now (s.attempts x) h,
  count_if-le_length (since start) (keep_if (is_recent now) (s.attempts x)),
)

noted-record :
    (s : SessionStore) (x ip : Text) (start now : Time)
    → start ≤ now
    → noted (record_login_attempt s x now) ip start
      ≡ noted s ip start + (if same x ip then 1 else 0)
unfolding record_login_attempt count_if
noted-record s x ip start now h = elim (Bool-cases (same x ip)) [
  | inl e ↦ rw e (
      ap (λ (i : Text). count_if (since start) (s.attempts i ++ now ∷ [])) (same-eq x ip e)
      ∙ ground (arith, count_if-append (since start) (s.attempts ip) (now ∷ [])))
  | inr e ↦ rw e (omega arith)
]

login-attempts :
    (h : Hashes) (s : SessionStore) (username password uuid : Text) (now : Time)
    → (login h s username password uuid now).0.attempts ≡ s.attempts
unfolding login
login-attempts h s username password uuid now = ground arith

-- The end of a login request, where the password was looked at.
finish_step :
    (s : SessionStore) (x ip : Text) (start now : Time) (r : SessionStore × Option Text)
    → r.0.attempts ≡ s.attempts
    → start ≤ now
    → (noted (finish_login x now r).0 ip start
        ≡ noted s ip start + (if is_wrong_from ip (x, (finish_login x now r).1) then 1 else 0))
      × (is_wrong_from ip (x, (finish_login x now r).1) ≡ true → same x ip ≡ true)
finish_step s x ip start now (t, some token) e h = (
  ap (λ (f : Text → List Time). count_if (since start) (f ip)) e ∙ omega arith,
  λ w. ground arith,
)
finish_step s x ip start now (t, none) e h = (
  noted-record t x ip start now h
      ∙ ap (λ (f : Text → List Time). count_if (since start) (f ip) + (if same x ip then 1 else 0))
          e,
  λ w. w,
)

-- What has been answered and is under way is nine and `k` at most, and each wrong password stands in
-- the store.
record Bounded (split : Text → Option Text) (ip : Text) (k : ℕ) (start : Time) (l m : Logins)
    : Type 0 where
  noted_wrong :
      noted m.store ip start ≡ noted l.store ip start + count_if (is_wrong_from ip) m.answers
  few :
      count_if (is_wrong_from ip) m.answers + count_if (is_from split ip) m.flying + 1
      ≤ login_max_attempts + k

begun-Bounded :
    (split : Text → Option Text) (ip : Text) (k : ℕ) (start : Time) (l m : Logins) (a : Attempt)
    (now : Time)
    → now < start + login_window
    → count_if (is_from split ip) (begun split m a now).flying ≤ k
    → Bounded split ip k start l m
    → Bounded split ip k start l (begun split m a now)
unfolding begin_login count_if
begun-Bounded split ip k start l m a now hi limit b =
    let x = client_ip split a.request in
    let kept = noted-allow m.store x ip start now hi in
    elim (Bool-cases (allow_login m.store x now).1) [
      | inr full ↦ record { noted_wrong = kept ∙ b.noted_wrong; few = rw full b.few }
      | inl ok ↦ record {
        noted_wrong = kept ∙ b.noted_wrong;
        few = rw ok (elim (Bool-cases (same x ip)) [
          | inl e ↦
              let room : noted m.store ip start < login_max_attempts =
                rw (← same-eq x ip e) (allowed_few m.store x start now hi ok) in
              ground (arith, room, b.noted_wrong, limit)
          | inr e ↦ ground (arith, b.few)
        ]);
      }
    ]

ended-Bounded :
    (h : Hashes) (split : Text → Option Text) (ip : Text) (k : ℕ) (start : Time) (l m : Logins)
    (before : List Attempt) (a : Attempt) (after : List Attempt) (now : Time)
    → start ≤ now
    → m.flying ≡ before ++ a ∷ after
    → Bounded split ip k start l m
    → Bounded split ip k start l (ended h split m before a after now)
unfolding end_login count_if
ended-Bounded h split ip k start l m before a after now lo parts b =
    let x = client_ip split a.request in
    let (count, mine) =
      finish_step m.store x ip start now (login h m.store a.username a.password a.uuid now)
        (login-attempts h m.store a.username a.password a.uuid now) lo in
    let waiting : count_if (is_from split ip) m.flying
        ≡ count_if (is_from split ip) before
          + ((if same x ip then 1 else 0) + count_if (is_from split ip) after) =
      ap (count_if (is_from split ip)) parts
      ∙ count_if-append (is_from split ip) before (a ∷ after) in
    record {
      noted_wrong = omega (arith, count, b.noted_wrong);
      few =
          rw (count_if-append (is_from split ip) before after)
            (ground (arith, waiting, b.few, mine));
    }

Minute-Bounded :
    (h : Hashes) (split : Text → Option Text) (ip : Text) (k : ℕ) (start : Time) (l m : Logins)
    → Bounded split ip k start l l
    → Minute h split ip k start l m
    → Bounded split ip k start l m
Minute-Bounded h split ip k start l m b here = b
Minute-Bounded h split ip k start l m b (begins {m = s} a now steps lo hi limit) =
    begun-Bounded split ip k start l s a now hi limit
      (Minute-Bounded h split ip k start l s b steps)
Minute-Bounded h split ip k start l m b (ends {m = s} before a after now steps lo hi parts) =
    ended-Bounded h split ip k start l s before a after now lo parts
      (Minute-Bounded h split ip k start l s b steps)

-- Within a minute, in whatever order login requests begin and end and however those of others mix
-- with them, nine wrong passwords of one client address and one more for each request that it has
-- under way at a time are looked at, at most, whatever the store held at the start: of requests
-- that come one after the other, ten.
pub logins-bounded :
    (h : Hashes) (split : Text → Option Text) (ip : Text) (k : ℕ) (start : Time) (l m : Logins)
    → l.answers ≡ []
    → count_if (is_from split ip) l.flying ≤ k
    → Minute h split ip k start l m
    → count_if (is_wrong_from ip) m.answers + 1 ≤ login_max_attempts + k
unfolding count_if
logins-bounded h split ip k start l m fresh few steps =
    let none_yet : count_if (is_wrong_from ip) l.answers ≡ 0 =
      ap (count_if (is_wrong_from ip)) fresh in
    let first : Bounded split ip k start l l = record {
      noted_wrong = omega (arith, none_yet);
      few = omega (arith, none_yet, few);
    } in
    let b = Minute-Bounded h split ip k start l m first steps in omega (arith, b.few)
