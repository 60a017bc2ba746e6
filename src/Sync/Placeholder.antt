-- ===== src/Sync/Placeholder.antt =====
-- internal/backup/exchange.go and reuse.go: what becomes of a message that could not be fetched.
use m365_backup.Base.{ℕ, ◌≡◌, refl, sym, ◌∙◌, false, some, none, Text, is_empty}
use m365_backup.Blobs
use m365_backup.Blobs.{Crypto}
use m365_backup.Catalog.Item.{Item}
use m365_backup.Catalog.Store.{Store, live_blob}
use m365_backup.Sync.Fetch.{get_bytes}
use m365_backup.Sync.Reuse.{skip_content_download}
use m365_backup.Sync.Pages.{Progress}
use m365_backup.Sync.Drive.{count}
use m365_backup.Sync.Mail.{
  MailEntry, no_message, exchange, eml_file_name, mail_item, placeholder_body, message_body,
  store_message, mail_step,
}
use m365_backup.Sync.Content.{live_blob-parts, put-works, Ready, Holds, put-Holds, reuse-Holds}

message_body-placeholder :
    (e : MailEntry) (error : Text)
    → (get_bytes e.tries).0 ≡ none
    → e.fallback ≡ no_message error
    → message_body e ≡ (placeholder_body e.subject e.mime_error error, 1)
unfolding message_body
message_body-placeholder e error a b = rw (message_body, a, b) refl

-- The step for a message that the catalog does not hold.
mail_step-new :
    (c : Crypto) (decode : Text → Text) (mailbox folder : Text) (e : MailEntry) (p : Progress)
    (plain : Text) (w : ℕ)
    → is_empty e.id ≡ false
    → e.removed ≡ false
    → live_blob p.cat exchange e.id ≡ none
    → message_body e ≡ (plain, w)
    → Ready c p.cat e.nonce plain
    → Holds c (mail_step c decode mailbox folder e p).cat exchange e.id plain
unfolding mail_step skip_content_download store_message count
mail_step-new c decode mailbox folder e p plain w full there new body ready =
    let it =
      mail_item mailbox folder (eml_file_name decode c.sha256_hex e.subject e.id) (decode e.subject)
        e.id in
    let (s', h) = put-works c p.cat it e.nonce plain e.now ready.crypto refl full in
    rw (mail_step, full, there, new, store_message, body, h)
      (put-Holds c p.cat s' it e.nonce plain e.now ready h)

-- The step for a message that the catalog holds.
mail_step-known :
    (c : Crypto) (decode : Text → Text) (mailbox folder : Text) (e : MailEntry) (p : Progress)
    (plain : Text)
    → is_empty e.id ≡ false
    → e.removed ≡ false
    → Holds c p.cat exchange e.id plain
    → Holds c (mail_step c decode mailbox folder e p).cat exchange e.id plain
unfolding mail_step skip_content_download
mail_step-known c decode mailbox folder e p plain full there (x, live, content) =
    let (hash, key) = live_blob-parts p.cat exchange e.id x live in
    rw (mail_step, full, there, live, hash)
      (reuse-Holds c mailbox folder (eml_file_name decode c.sha256_hex e.subject e.id)
        (decode e.subject) x p exchange e.id plain live content)

-- The states that a sync can come to after any number of steps, in any folders: reports of a message
-- that are not removals, and steps that leave the row of the message and its blob as they are.
pub data Later (c : Crypto) (decode : Text → Text) (id : Text) (p : Progress)
    : Progress → Type 0 where
  here : Later c decode id p p
  report :
      {s : Progress} (mailbox folder : Text) (e : MailEntry)
      → Later c decode id p s
      → e.id ≡ id
      → e.removed ≡ false
      → Later c decode id p (mail_step c decode mailbox folder e s)
  apart :
      {s : Progress} (t : Progress)
      → Later c decode id p s
      → live_blob t.cat exchange id ≡ live_blob s.cat exchange id
      → ((x : Item)
          → live_blob s.cat exchange id ≡ some x
          → Blobs.get c t.cat.blobs x.blob_hash ≡ Blobs.get c s.cat.blobs x.blob_hash)
      → Later c decode id p t

Holds-moved :
    (c : Crypto) (s : Store) (a b text : Text)
    → a ≡ b
    → Holds c s exchange a text
    → Holds c s exchange b text
Holds-moved c s a b text same_id h = rw (← same_id) h

Later-Holds :
    (c : Crypto) (decode : Text → Text) (id text : Text) (p t : Progress)
    → is_empty id ≡ false
    → Holds c p.cat exchange id text
    → Later c decode id p t
    → Holds c t.cat exchange id text
Later-Holds c decode id text p t full h here = h
Later-Holds c decode id text p t full h (report {s} mailbox folder e before eq stays) =
    Holds-moved c (mail_step c decode mailbox folder e s).cat e.id id text eq (
      mail_step-known c decode mailbox folder e s text (rw eq full) stays (
        Holds-moved c s.cat id e.id text (sym eq) (Later-Holds c decode id text p s full h before)))
Later-Holds c decode id text p t full h (apart {s} u before row blob) =
    let (x, live, content) = Later-Holds c decode id text p s full h before in
    (x, row ∙ live, blob x live ∙ content)

-- A message with an ID that is new to the catalog and can be fetched in neither way is stored as a
-- text about the errors, if the nonce has the cipher's size, the blobs are sound and no digest
-- collides. However often the message is reported again after that, whatever its download would
-- give then, the catalog still holds this text under its ID, if no report is a removal and all that
-- happens between the reports leaves the row and the blob of the message as they are.
pub mail_step-placeholder :
    (c : Crypto) (decode : Text → Text) (mailbox folder : Text) (e : MailEntry) (p t : Progress)
    (error : Text)
    → is_empty e.id ≡ false
    → e.removed ≡ false
    → live_blob p.cat exchange e.id ≡ none
    → (get_bytes e.tries).0 ≡ none
    → e.fallback ≡ no_message error
    → Ready c p.cat e.nonce (placeholder_body e.subject e.mime_error error)
    → Later c decode e.id (mail_step c decode mailbox folder e p) t
    → (let text = placeholder_body e.subject e.mime_error error in
        Holds c (mail_step c decode mailbox folder e p).cat exchange e.id text
        × Holds c t.cat exchange e.id text)
mail_step-placeholder c decode mailbox folder e p t error full there new a b ready steps =
    let text = placeholder_body e.subject e.mime_error error in
    let first =
      mail_step-new c decode mailbox folder e p text 1 full there new
        (message_body-placeholder e error a b) ready in
    (
      first,
      Later-Holds c decode e.id text (mail_step c decode mailbox folder e p) t full first steps,
    )
