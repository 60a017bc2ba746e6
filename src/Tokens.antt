-- ===== src/Tokens.antt =====
-- internal/db/token.go (the Graph delta tokens) and internal/backup/delta.go.
-- The table is keyed by tenant, service and user, as its UNIQUE constraint says.
pub mod Laws
use m365_backup.Base.{
  Bool, not, ◌&&◌, ◌||◌, Option, none, some, List, [], ◌∷◌, Text, is_empty, same, keep_if, find_if,
  if◌then◌else◌,
}
use m365_backup.Clock.{Time}

pub record DeltaToken : Type 0 where
  pub tenant_id : Text
  pub service : Text
  pub user_id : Text
  pub token : Text
  pub updated_at : Time

abbrev pub has_key : Text → Text → Text → DeltaToken → Bool
has_key tenant service user t =
    same t.tenant_id tenant && same t.service service && same t.user_id user

-- UpsertDeltaToken: a second row with the key is not inserted, its token is set anew.
unfoldable pub upsert_delta_token : List DeltaToken → DeltaToken → Time → List DeltaToken
upsert_delta_token [] t now = record t { updated_at = now } ∷ []
upsert_delta_token (r ∷ rs) t now =
    if has_key t.tenant_id t.service t.user_id r
    then record r { token = t.token; updated_at = now } ∷ rs
    else r ∷ upsert_delta_token rs t now

-- GetDeltaToken.
unfoldable pub get_delta_token : List DeltaToken → Text → Text → Text → Option Text
get_delta_token rows tenant service user = elim (find_if (has_key tenant service user) rows) [
  | none ↦ none
  | some r ↦ some r.token
]

abbrev pub of_service : Text → Text → DeltaToken → Bool
of_service tenant service t = same t.tenant_id tenant && same t.service service

-- DeleteDeltaTokens; `none` is the error "tenant and service required".
unfoldable pub delete_delta_tokens : List DeltaToken → Text → Text → Option (List DeltaToken)
delete_delta_tokens rows tenant service =
    if is_empty tenant || is_empty service
    then none
    else some (keep_if (λ t. not (of_service tenant service t)) rows)

abbrev pub not_empty : Option Text → Option Text
not_empty none = none
not_empty (some []) = none
not_empty (some (c ∷ s)) = some (c ∷ s)

-- odataResumeURL: the checkpoint of a page, or else the final delta link, or "".
unfoldable pub odata_resume_url : Option Text → Option Text → Text
odata_resume_url next delta = elim (not_empty next) [
  | some u ↦ u
  | none ↦ elim (not_empty delta) [ some u ↦ u | none ↦ [] ]
]

-- persistDeltaURL, over a token store that is present.
unfoldable pub persist_delta_url :
    List DeltaToken → Text → Text → Text → Text → Time → List DeltaToken
unfolding upsert_delta_token
persist_delta_url rows tenant service user url now =
    if is_empty url
    then rows
    else upsert_delta_token rows
        (record {
          tenant_id = tenant;
          service = service;
          user_id = user;
          token = url;
          updated_at = 0;
        })
        now
