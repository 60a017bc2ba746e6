-- ===== src/Tokens/Laws.antt =====
-- internal/db/token.go, internal/backup/delta.go: the token table as a map.
use m365_backup.Base.{
  ◌≡◌, refl, ◌⊎◌, inl, inr, true, false, not, ◌&&◌, Option, none, some, List, [], ◌∷◌, Text, arith,
  is_empty, same, same-eq, same_refl, keep_if, find_if, if◌then◌else◌, Bool-cases, &&_split,
}
use m365_backup.Clock.{Time}
use m365_backup.Tokens.{
  DeltaToken, has_key, of_service, upsert_delta_token, get_delta_token, delete_delta_tokens,
  odata_resume_url, persist_delta_url, not_empty,
}

has_key-eq :
    (tenant service user : Text) (t : DeltaToken)
    → has_key tenant service user t ≡ true
    → (t.tenant_id ≡ tenant) × (t.service ≡ service) × (t.user_id ≡ user)
has_key-eq tenant service user t h =
    let (front, u) =
      &&_split (same t.tenant_id tenant && same t.service service) (same t.user_id user) h in
    let (a, b) = &&_split (same t.tenant_id tenant) (same t.service service) front in
    (same-eq t.tenant_id tenant a, same-eq t.service service b, same-eq t.user_id user u)

-- Two rows with one key have each other's key.
has_key_trans :
    (tenant service user : Text) (r t : DeltaToken)
    → has_key tenant service user r ≡ true
    → has_key tenant service user t ≡ true
    → has_key t.tenant_id t.service t.user_id r ≡ true
has_key_trans tenant service user r t h k =
    let (a, b, c) = has_key-eq tenant service user t k in rw (a, b, c) h

has_key-cong :
    (tenant service user : Text) (r t : DeltaToken)
    → has_key t.tenant_id t.service t.user_id r ≡ true
    → has_key tenant service user r ≡ has_key tenant service user t
has_key-cong tenant service user r t h =
    let (a, b, c) = has_key-eq t.tenant_id t.service t.user_id r h in rw (a, b, c)

-- A stored token is read back under its key, and the tokens of all other keys are as before.
pub get-upsert :
    (rows : List DeltaToken) (t : DeltaToken) (now : Time) (tenant service user : Text)
    → get_delta_token (upsert_delta_token rows t now) tenant service user ≡ (
        if has_key tenant service user t
        then some t.token
        else get_delta_token rows tenant service user)
unfolding get_delta_token upsert_delta_token find_if
get-upsert [] t now tenant service user = ground arith
get-upsert (r ∷ rs) t now tenant service user =
    elim (Bool-cases (has_key t.tenant_id t.service t.user_id r)) [
      | inl e ↦ rw e (ground (arith, has_key-cong tenant service user r t e))
      | inr e ↦ rw e (
          ground
            (arith, get-upsert rs t now tenant service user, has_key_trans tenant service user r t))
    ]

-- Storing the URL of a page, unless it is empty, makes it the token of the key; an empty URL
-- changes nothing, so that the checkpoint before stays in use.
pub get-persist :
    (rows : List DeltaToken) (tenant service user url : Text) (now : Time)
    → get_delta_token (persist_delta_url rows tenant service user url now) tenant service user
      ≡ (if is_empty url then get_delta_token rows tenant service user else some url)
unfolding persist_delta_url
get-persist rows tenant service user url now = elim (Bool-cases (is_empty url)) [
  | inl e ↦ rw e
  | inr e ↦ rw (e, get-upsert, same_refl tenant, same_refl service, same_refl user)
]

keep_other :
    (rows : List DeltaToken) (tenant service t s user : Text)
    → get_delta_token (keep_if (λ r. not (of_service tenant service r)) rows) t s user
      ≡ (if same t tenant && same s service then none else get_delta_token rows t s user)
unfolding get_delta_token find_if keep_if
keep_other [] tenant service t s user = ground arith
keep_other (r ∷ rs) tenant service t s user = elim (Bool-cases (has_key t s user r)) [
  | inl e ↦
      let (a, b, c) = has_key-eq t s user r e in
      elim (Bool-cases (of_service tenant service r)) [
        | inl o ↦
            let gone : (same t tenant && same s service) ≡ true = rw (← a, ← b) o in
            ground (arith, keep_other rs tenant service t s user)
        | inr o ↦
            let stays : (same t tenant && same s service) ≡ false = rw (← a, ← b) o in ground arith
      ]
  | inr e ↦ elim (Bool-cases (of_service tenant service r)) [
    | inl o ↦ ground (arith, keep_other rs tenant service t s user)
    | inr o ↦ ground (arith, keep_other rs tenant service t s user)
  ]
]

-- DeleteDeltaTokens removes every token of the tenant and service, and no other one.
pub get-delete :
    (rows rest : List DeltaToken) (tenant service t s user : Text)
    → delete_delta_tokens rows tenant service ≡ some rest
    → get_delta_token rest t s user
      ≡ (if same t tenant && same s service then none else get_delta_token rows t s user)
unfolding delete_delta_tokens
get-delete rows rest tenant service t s user h =
    ground (arith, keep_other rows tenant service t s user)

-- A job resumes at the checkpoint of its last page if there is one, else at the final delta
-- link, and starts at the first item only if neither is stored.
pub odata_resume_url-cases :
    (next delta : Option Text)
    → ((u : Text) × (next ≡ some u) × (is_empty u ≡ false) × (odata_resume_url next delta ≡ u))
      ⊎ ((not_empty next ≡ none) × (odata_resume_url next delta ≡ odata_resume_url none delta))
unfolding odata_resume_url
odata_resume_url-cases none delta = inr (refl, refl)
odata_resume_url-cases (some []) delta = inr (refl, refl)
odata_resume_url-cases (some (c ∷ u)) delta = inl (c ∷ u, refl, refl, refl)
