-- ===== src/Auth/Users.antt =====
-- internal/db/user.go: the tables of users and API tokens. `id` and `username` are unique.
use m365_backup.Base.{
  Bool, not, ◌&&◌, ◌||◌, Option, none, some, List, [], ◌∷◌, ◌++◌, Text, codes, is_empty, same, any,
  find_if, keep_if, if◌then◌else◌,
}
use m365_backup.Clock.{Time}

pub record User : Type 0 where
  pub id : Text
  pub username : Text
  pub password_hash : Text
  pub created_at : Time
  pub updated_at : Time

pub record ApiToken : Type 0 where
  pub id : Text
  pub user_id : Text
  pub name : Text
  pub kind : Text
  pub token_hash : Text
  pub prefix : Text
  pub scope : Text
  pub created_at : Time
  pub last_used_at : Time

abbrev pub user_kind : Text
user_kind = codes "user"

abbrev pub has_username : Text → User → Bool
has_username name u = same u.username name

abbrev pub has_user_id : Text → User → Bool
has_user_id id u = same u.id id

-- GetUserByUsername; `none` is sql.ErrNoRows.
unfoldable pub get_user_by_username : List User → Text → Option User
get_user_by_username users name = find_if (has_username name) users

-- GetUser.
unfoldable pub get_user : List User → Text → Option User
get_user users id = find_if (has_user_id id) users

-- UPDATE users SET password_hash=?, updated_at=? WHERE id=?
unfoldable pub set_password : List User → Text → Text → Time → List User
set_password [] id hash now = []
set_password (u ∷ us) id hash now =
    (if has_user_id id u then record u { password_hash = hash; updated_at = now } else u)
    ∷ set_password us id hash now

-- UpsertUser, with the UUID of a new user; `none` is an error.
unfoldable pub upsert_user : List User → Text → Text → Text → Time → Option (User × List User)
upsert_user users name hash uuid now =
    if is_empty name || is_empty hash then none else elim (get_user_by_username users name) [
      | some u ↦
          some
            (record u { password_hash = hash; updated_at = now }, set_password users u.id hash now)
      | none ↦
          let u : User = record {
            id = uuid;
            username = name;
            password_hash = hash;
            created_at = now;
            updated_at = now;
          } in
          if any (has_user_id uuid) users then none else some (u, users ++ u ∷ [])
    ]

abbrev pub is_listed : Text → ApiToken → Bool
is_listed user t = same t.user_id user && same t.kind user_kind

-- ListAPITokens, in the order of the table.
unfoldable pub list_api_tokens : List ApiToken → Text → List ApiToken
list_api_tokens tokens user = keep_if (is_listed user) tokens

abbrev pub has_token_hash : Text → ApiToken → Bool
has_token_hash hash t = same t.token_hash hash && same t.kind user_kind

-- GetAPITokenByHash.
unfoldable pub get_api_token_by_hash : List ApiToken → Text → Option ApiToken
get_api_token_by_hash tokens hash =
    if is_empty hash then none else find_if (has_token_hash hash) tokens

-- InsertAPIToken, with the UUID of a token that has no ID.
unfoldable pub insert_api_token : List ApiToken → ApiToken → Text → Time → List ApiToken
insert_api_token tokens t uuid now =
    tokens
    ++ record t {
      id = if is_empty t.id then uuid else t.id;
      kind = if is_empty t.kind then user_kind else t.kind;
      created_at = now;
      last_used_at = 0;
    }
      ∷ []

abbrev pub of_kind : Text → Text → ApiToken → Bool
of_kind user kind t = same t.user_id user && same t.kind kind

-- DeleteAPITokensByKind; `none` is an error.
unfoldable pub delete_api_tokens_by_kind : List ApiToken → Text → Text → Option (List ApiToken)
delete_api_tokens_by_kind tokens user kind =
    if is_empty user || is_empty kind
    then none
    else some (keep_if (λ t. not (of_kind user kind t)) tokens)

abbrev pub is_own_token : Text → Text → ApiToken → Bool
is_own_token user id t = same t.id id && same t.user_id user && same t.kind user_kind

-- DeleteAPIToken; `none` is sql.ErrNoRows.
unfoldable pub delete_api_token : List ApiToken → Text → Text → Option (List ApiToken)
delete_api_token tokens user id =
    if any (is_own_token user id) tokens
    then some (keep_if (λ t. not (is_own_token user id t)) tokens)
    else none

-- TouchAPIToken.
unfoldable pub touch_api_token : List ApiToken → Text → Time → List ApiToken
touch_api_token [] id now = []
touch_api_token (t ∷ ts) id now =
    (if same t.id id then record t { last_used_at = now } else t) ∷ touch_api_token ts id now
