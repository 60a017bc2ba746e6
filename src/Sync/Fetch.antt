-- ===== src/Sync/Fetch.antt =====
-- internal/graph/client.go: GetBytes, a download that is tried again after transient failures.
use m365_backup.Base.{
  ℕ, zero, suc, ◌+◌, ◌≤◌, ◌<◌, ◌≡◌, ◌↔◌, refl, Bool, true, false, not, ◌||◌, Option, none, some,
  List, [], ◌∷◌, ◌++◌, Text, codes, arith, lower, contains_text, length, all, ◌==◌, if◌then◌else◌,
  Bool-cases, inl, inr,
}

-- An error of a request: its text, and what errors.Is and errors.As find in it.
pub record FetchError : Type 0 where
  pub text : Text
  pub is_canceled : Bool
  pub is_deadline : Bool
  pub is_timeout : Bool

-- isRetryableGetBytesErr.
unfoldable pub is_retryable : FetchError → Bool
is_retryable e =
    if e.is_canceled
    then false
    else if e.is_deadline || e.is_timeout
    then true
    else let s = lower e.text in
      contains_text s (codes "status 429")
      || contains_text s (codes "status 500")
      || contains_text s (codes "status 503")
      || contains_text s (codes "status 504")
      || contains_text s (codes "connection reset")
      || contains_text s (codes "unexpected eof")

-- What comes of one round: the context is over, at its start or while it waits, or the request fails, or
-- it gives the body.
pub data Try : Type 0 where
  over : Try
  failed : FetchError → Try
  got : Text → Try

abbrev pub mime_max_attempts : ℕ
mime_max_attempts = 3

-- The loop of GetBytes with the rounds left, and the number of requests sent; `none` is an error.
unfoldable pub get_bytes_loop : ℕ → List Try → ℕ → Option Text × ℕ
get_bytes_loop zero tries sent = (none, sent)
get_bytes_loop (suc left) [] sent = (none, sent)
get_bytes_loop (suc left) (over ∷ tries) sent = (none, sent)
get_bytes_loop (suc left) (got body ∷ tries) sent = (some body, sent + 1)
get_bytes_loop (suc left) (failed e ∷ tries) sent =
    let again = get_bytes_loop left tries (sent + 1) in
    if not (is_retryable e) || left == 0 then (none, sent + 1) else again

-- GetBytes.
unfoldable pub get_bytes : List Try → Option Text × ℕ
unfolding get_bytes_loop
get_bytes tries = get_bytes_loop mime_max_attempts tries 0

abbrev pub is_transient : Try → Bool
is_transient over = false
is_transient (got body) = false
is_transient (failed e) = is_retryable e

-- Some transient failures, fewer than the limit, and then the body.
pub record Succeeds (limit : ℕ) (tries : List Try) (body : Text) : Type 0 where
  pub failures : List Try
  pub later : List Try
  pub order : tries ≡ failures ++ got body ∷ later
  pub transient : all is_transient failures ≡ true
  pub few : length failures < limit

loop-Succeeds :
    (left : ℕ) (tries : List Try) (sent : ℕ) (body : Text)
    → (get_bytes_loop left tries sent).0 ≡ some body
    → Succeeds left tries body
unfolding get_bytes_loop all
loop-Succeeds zero tries sent body h = absurd (ground arith)
loop-Succeeds (suc left) [] sent body h = absurd (ground arith)
loop-Succeeds (suc left) (over ∷ tries) sent body h = absurd (ground arith)
loop-Succeeds (suc left) (got b ∷ tries) sent body h = record {
  failures = [];
  later = tries;
  order = ground arith;
  transient = refl;
  few = omega arith;
}
loop-Succeeds (suc left) (failed e ∷ tries) sent body h =
    elim (Bool-cases (not (is_retryable e) || left == 0)) [
      | inl stop ↦ absurd (ground arith)
      | inr more ↦
          let r = loop-Succeeds left tries (sent + 1) body (ground arith) in
          record {
            failures = failed e ∷ r.failures;
            later = r.later;
            order = ground (arith, r.order);
            transient = ground (arith, r.transient);
            few = omega (arith, r.few);
          }
    ]

Succeeds-loop :
    (left : ℕ) (failures later : List Try) (sent : ℕ) (body : Text)
    → all is_transient failures ≡ true
    → length failures < left
    → (get_bytes_loop left (failures ++ got body ∷ later) sent).0 ≡ some body
unfolding get_bytes_loop all
Succeeds-loop zero failures later sent body t f = absurd (omega arith)
Succeeds-loop (suc left) [] later sent body t f = refl
Succeeds-loop (suc left) (over ∷ fs) later sent body t f = absurd (ground arith)
Succeeds-loop (suc left) (got b ∷ fs) later sent body t f = absurd (ground arith)
Succeeds-loop (suc left) (failed e ∷ fs) later sent body t f =
    ground (arith, Succeeds-loop left fs later (sent + 1) body)

sent_bound :
    (left : ℕ) (tries : List Try) (sent : ℕ) → (get_bytes_loop left tries sent).1 ≤ sent + left
unfolding get_bytes_loop
sent_bound zero tries sent = omega arith
sent_bound (suc left) [] sent = omega arith
sent_bound (suc left) (over ∷ tries) sent = omega arith
sent_bound (suc left) (got b ∷ tries) sent = omega arith
sent_bound (suc left) (failed e ∷ tries) sent = ground (arith, sent_bound left tries (sent + 1))

-- A download succeeds exactly when at most two transient failures stand before an answer, and then
-- gives the body of this answer; it never sends more than three requests.
pub get_bytes-exact :
    (tries : List Try) (body : Text)
    → (((get_bytes tries).0 ≡ some body) ↔ Succeeds 3 tries body) × ((get_bytes tries).1 ≤ 3)
unfolding get_bytes
get_bytes-exact tries body = (
  (
    loop-Succeeds 3 tries 0 body,
    λ s. rw s.order (Succeeds-loop 3 s.failures s.later 0 body s.transient s.few),
  ),
  sent_bound 3 tries 0,
)
