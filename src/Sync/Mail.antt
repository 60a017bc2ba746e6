-- ===== src/Sync/Mail.antt =====
-- internal/backup/exchange.go: backupFolderDelta, the delta query of one mail folder.
use m365_backup.Base.{
  ℕ, zero, suc, ◌+◌, Bool, true, false, not, ◌&&◌, ◌||◌, Option, none, some, List, [], ◌∷◌, ◌++◌,
  Text, codes, is_empty, same, length, take, any, lower, contains_text, ltb, leb, ◌==◌,
  if◌then◌else◌,
}
use m365_backup.Clock.{Time}
use m365_backup.Blobs.{Crypto}
use m365_backup.Catalog.Item.{Item}
use m365_backup.Catalog.Store.{put, delete_key, live_blob, tombstone}
use m365_backup.Tokens.{DeltaToken}
use m365_backup.Sync.Fetch.{FetchError, Try, get_bytes}
use m365_backup.Sync.Names.{sanitize}
use m365_backup.Sync.Reuse.{skip_content_download}
use m365_backup.Sync.Pages.{Progress, Query, Answer, sync_delta}
use m365_backup.Sync.Drive.{or_same, count, reuse}

-- What fetchMessageMIMEFallback gives: a message made from the JSON, or an error.
pub data Fallback : Type 0 where
  message : Text → Fallback
  no_message : Text → Fallback

-- A message of the answer, with what its download would meet, the text of the error that GetBytes
-- would give, and the nonce and the time that a Put would use.
pub record MailEntry : Type 0 where
  pub id : Text
  pub subject : Text
  pub removed : Bool
  pub tries : List Try
  pub mime_error : Text
  pub fallback : Fallback
  pub nonce : Text
  pub now : Time

abbrev pub exchange : Text
exchange = codes "exchange"

-- deltaKey.
unfoldable pub delta_key : Text → Text → Text
delta_key user folder = user ++ b'|' ∷ folder

-- strings.ReplaceAll(s, "  ", " ").
unfoldable pub single_spaces : Text → Text
single_spaces [] = []
single_spaces (c ∷ []) = c ∷ []
single_spaces (c ∷ d ∷ s) = elim (c == 32 && d == 32) [
  | true ↦ 32 ∷ single_spaces s
  | false ↦ c ∷ single_spaces (d ∷ s)
]

abbrev starts_rune : ℕ → Bool
starts_rune c = ltb c 128 || leb 192 c

-- The first runes of a text in UTF-8.
unfoldable pub take_runes : ℕ → Text → Text
take_runes n [] = []
take_runes n (c ∷ s) =
    if not (starts_rune c)
    then c ∷ take_runes n s
    else elim n [ zero ↦ [] | suc m ↦ c ∷ take_runes m s ]

-- emlFileName, over DecodeMIMEHeader and SHA-256.
unfoldable pub eml_file_name : (Text → Text) → (Text → Text) → Text → Text → Text
unfolding sanitize single_spaces take_runes
eml_file_name decode sha256_hex subject mid =
    let s = single_spaces (sanitize (decode subject)) in
    let named = if is_empty s || same s (codes "_") then codes "ohne-betreff" else s in
    take_runes 80 named ++ codes "__" ++ take 10 (sha256_hex mid) ++ codes ".eml"

-- The text that stands for a message that could not be fetched.
abbrev pub placeholder_body : Text → Text → Text → Text
placeholder_body subject mime_error fallback_error =
    codes "Subject: "
    ++ subject
    ++ 13 ∷ 10 ∷ 13 ∷ 10 ∷ codes "[MIME fetch failed: "
    ++ mime_error
    ++ codes "]"
    ++ 13 ∷ 10 ∷ codes "[JSON fallback failed: "
    ++ fallback_error
    ++ codes "]"
    ++ 13 ∷ 10 ∷ []

-- The body that is stored, and the number of warnings.
unfoldable pub message_body : MailEntry → Text × ℕ
unfolding get_bytes
message_body e = elim ((get_bytes e.tries).0) [
  | some body ↦ (body, 0)
  | none ↦ elim e.fallback [
    | message body ↦ (body, 1)
    | no_message err ↦ (placeholder_body e.subject e.mime_error err, 1)
  ]
]

abbrev pub mail_item : Text → Text → Text → Text → Text → Item
mail_item mailbox folder name subject id = record (tombstone exchange id) {
  mailbox = mailbox;
  parent_path = folder;
  name = name;
  content_type = codes "message/rfc822";
  subject = subject;
  deleted = false;
}

-- A download and the Put of the message.
unfoldable pub store_message : Crypto → Item → MailEntry → Progress → Progress
unfolding message_body count
store_message c it e p =
    let (body, w) = message_body e in
    elim (put c p.cat it e.nonce body e.now) [
      | none ↦ record p { warnings = p.warnings + w + 1 }
      | some s ↦ count (length body) (record p { cat = s; warnings = p.warnings + w })
    ]

-- One message of the loop of backupFolderDelta.
unfoldable pub mail_step : Crypto → (Text → Text) → Text → Text → MailEntry → Progress → Progress
unfolding store_message eml_file_name count reuse live_blob
mail_step c decode mailbox folder e p =
    let name = eml_file_name decode c.sha256_hex e.subject e.id in
    let subject = decode e.subject in
    let existing = live_blob p.cat exchange e.id in
    if is_empty e.id
    then p
    else if e.removed
    then count 0 (record p { cat = or_same (delete_key c p.cat exchange e.id) p.cat })
    else if skip_content_download existing none
    then elim existing [ none ↦ p | some it ↦ reuse mailbox folder name subject it p ]
    else store_message c (mail_item mailbox folder name subject e.id) e p

-- isMailboxUnavailable.
unfoldable pub is_mailbox_unavailable : FetchError → Bool
is_mailbox_unavailable e = any (contains_text (lower e.text)) (
    codes "inactive"
    ∷ codes "soft-deleted"
    ∷ codes "hosted on-premise"
    ∷ codes "hosted on-premises"
    ∷ codes "mailboxnotenabledforrestapi"
    ∷ codes "mailboxnotenabled"
    ∷ codes "erroritemnotfound"
    ∷ codes "the requested user"
    ∷ codes "mailbox is either"
    ∷ codes "resourcenotfound"
    ∷ codes "mailboxnotfound"
    ∷ codes "user is invalid"
    ∷ codes "invaliduserid"
    ∷ [])

abbrev pub mail_query : Text → Text → Text → Query
mail_query tenant user folder = record {
  tenant = tenant;
  service = exchange;
  token_key = delta_key user folder;
  placeholder = codes "full-";
}

-- backupFolderDelta.
unfoldable pub sync_folder :
    Crypto
    → (Text → Text)
    → Text
    → Text
    → Text
    → Text
    → Text
    → (Option Text → Answer MailEntry)
    → List DeltaToken
    → Progress
    → List DeltaToken × Progress
unfolding sync_delta
sync_folder c decode tenant user folder folder_name mailbox ask rows p =
    sync_delta (mail_step c decode mailbox folder_name) (mail_query tenant user folder)
      is_mailbox_unavailable ask rows p
