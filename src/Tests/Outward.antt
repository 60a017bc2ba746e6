-- ===== src/Tests/Outward.antt =====
-- internal/notification, and the restore and import of internal/catalog, at concrete inputs.
use m365_backup.Base.{
  count_if, ℕ, String, not, ◌≡◌, ◌&&◌, ◌⊎◌, ◌↔◌, refl, Bool, true, false, Option, none, some, List,
  [], ◌∷◌, ◌++◌, map, Text, codes, same, any, all, find_if, keep_if, contains, starts_with,
  contains_text, if◌then◌else◌,
}
use m365_backup.Blobs
use m365_backup.Blobs.{File, valid_hash, read_file, write_file}
use m365_backup.Paths.{split, clean}
use m365_backup.Catalog.Item.{Item, ManifestEntry, import_aliases}
use m365_backup.Catalog.Store.{Store}
use m365_backup.Catalog.Restore.{
  guard_path, is_under, ensure_subpath, entries_of, write_entries, materialize,
}
use m365_backup.Catalog.Restore.Inside.{materialize-inside, materialize-holds}
use m365_backup.Catalog.Browse.{PathEntry, entries_at_prefix}
use m365_backup.Catalog.Browse.Below.{path_in, has_slash}
use m365_backup.Catalog.Browse.Counts.{is_file, is_folder}
use m365_backup.Catalog.Browse.Listing.{is_name, has_path, entries_at_prefix-exact}
use m365_backup.Catalog.Import.{item_from_sync_path, name_of_parts}
use m365_backup.Catalog.Import.Alias.{item_from_sync_path-alias}
use m365_backup.Sync.Mail.{eml_file_name}
use m365_backup.Notify.Message.{
  Event, SmtpConfig, Mail, reject_smtp_meta, is_meta, sanitize_body, smtp_message, send_smtp,
}
use m365_backup.Notify.Headers.{read_headers, only_crlf, printed, headers_of, send_smtp-headers}
use m365_backup.Notify.Webhook.{Ip, is_blocked_webhook_ip, dial, refused, dial-safe}
use m365_backup.Notify.Send.{Setting, Log, Channels, Tried, FallsBack, send, send-exact}
use m365_backup.Tests.Data.{exchange, item_1, open_cipher, store_of}

abbrev alarm : Event
alarm = record {
  kind = codes "job_error";
  tenant_id = codes "t1";
  subject = codes "failed" ++ 13 ∷ 10 ∷ codes "Bcc: x@y.z";
  body = codes "a" ++ 10 ∷ codes "b";
}

abbrev smtp_1 : SmtpConfig
smtp_1 = record {
  host = codes "mail";
  port = 0;
  username = [];
  password = [];
  sender = codes "a@b.c";
  recipients = codes "d@e.f" ∷ [];
}

abbrev mail_1 : Mail
mail_1 = record {
  host = codes "mail";
  port = 587;
  has_auth = false;
  sender = codes "a@b.c";
  recipients = codes "d@e.f" ∷ [];
  message = smtp_message smtp_1 alarm;
}

send_smtp-headers_example :
    (read_headers 6 mail_1.message
      ≡ some (headers_of smtp_1 alarm, sanitize_body alarm.body ++ 13 ∷ 10 ∷ []))
    × (any (any is_meta) (headers_of smtp_1 alarm) ≡ false)
    × (printed (sanitize_body alarm.body) ≡ printed alarm.body)
    × (only_crlf false (sanitize_body alarm.body) ≡ true)
    × (any reject_smtp_meta (mail_1.sender ∷ mail_1.recipients) ≡ false)
unfolding send_smtp any m365_backup.Notify.Message.sanitize_header
send_smtp-headers_example = send_smtp-headers smtp_1 alarm mail_1 refl

abbrev addresses : List Ip
addresses = (169 ∷ 254 ∷ 169 ∷ 254 ∷ []) ∷ (10 ∷ 0 ∷ 0 ∷ 7 ∷ []) ∷ []

abbrev always : Ip → Bool
always ip = true

dial-safe_example :
    (any is_blocked_webhook_ip (dial always addresses []).1 ≡ false)
    × ((dial always addresses []).0 ≡ find_if (λ ip. not (refused always ip)) addresses)
unfolding any
dial-safe_example = dial-safe always addresses [] refl

abbrev channels_1 : Channels
channels_1 = record {
  smtp = λ config ev. false;
  webhook = λ channel config ev. true;
  pushover = λ config ev. true;
}

abbrev setting_of : String → Setting
setting_of channel = record {
  tenant_id = [];
  channel = codes channel;
  config = [];
  enabled = true;
  notify_on = codes "job_error" ∷ [];
}

abbrev two_settings : List Setting
two_settings = setting_of "smtp" ∷ setting_of "slack" ∷ []

send-exact_example :
    (new : List Log) × ((send channels_1 none two_settings alarm []).0 ≡ [] ++ new)
    × Tried channels_1 alarm two_settings new
    × (((send channels_1 none two_settings alarm []).1 ≡ true) ↔ FallsBack none alarm new)
send-exact_example = send-exact channels_1 none two_settings alarm []

abbrev hash_of_5 : Text
hash_of_5 = open_cipher.sha256_hex (codes "Hello")

abbrev full_store : Store
full_store = record (store_of true (record item_1 { blob_hash = hash_of_5; size = 5 } ∷ [])) {
  blobs = record { name = hash_of_5; raw = 1 ∷ 2 ∷ codes "Hello" } ∷ [];
}

abbrev entry_1 : ManifestEntry
entry_1 = record { path = codes "a@b.c/Inbox/m.eml"; hash = hash_of_5; size = 5 }

abbrev target : Text
target = codes "/restore"

materialize-inside_example :
    read_file
      (materialize open_cipher full_store exchange (codes "live") target []).0
      (codes "/etc/passwd")
    ≡ read_file [] (codes "/etc/passwd")
unfolding is_under clean starts_with same
materialize-inside_example =
    materialize-inside open_cipher full_store exchange (codes "live") target []
      (codes "/etc/passwd") refl

materialize-holds_example :
    (content : Text) × (Blobs.get open_cipher full_store.blobs hash_of_5 ≡ some content)
    × (read_file
          (materialize open_cipher full_store exchange (codes "live") target []).0
          (codes "/restore/a@b.c/Inbox/m.eml")
        ≡ some content)
unfolding materialize guard_path entries_of write_entries ensure_subpath any contains_text keep_if
    m365_backup.Catalog.Item.rel_path Blobs.get valid_hash all read_file find_if
materialize-holds_example =
    materialize-holds open_cipher full_store exchange (codes "live") target [] [] [] entry_1
      (codes "/restore/a@b.c/Inbox/m.eml") refl refl refl refl refl

abbrev as_is : Text → Text
as_is s = s

abbrev mail_name : Text
mail_name = eml_file_name as_is open_cipher.sha256_hex (codes "Hello") (codes "AAMk1")

item_from_sync_path-alias_example :
    contains
      (import_aliases open_cipher.sha256_hex exchange
        (codes "AAMk1")
        (codes "a@b.c")
        (codes "Inbox")
        mail_name)
      (item_from_sync_path exchange (codes "a@b.c/Inbox/" ++ mail_name) mail_name).graph_item_id
    ≡ true
unfolding valid_hash starts_with split name_of_parts eml_file_name all m365_backup.Base.trim_space
    same
item_from_sync_path-alias_example =
    item_from_sync_path-alias as_is open_cipher.sha256_hex (codes "Hello") (codes "AAMk1")
      (codes "a@b.c/Inbox/" ++ mail_name) (codes "a@b.c") (codes "Inbox") mail_name refl refl refl
      refl

abbrev path_of : String → PathEntry
path_of p = record { path = codes p; size = 1; hash = []; subject = []; sender = []; mtime = 0 }

abbrev listed_paths : List PathEntry
listed_paths = path_of "a@b.c/Inbox/m.eml" ∷ path_of "a@b.c/Inbox/n.eml" ∷ path_of "a@b.c/x" ∷ []

abbrev folder_1 : Text
folder_1 = codes "a@b.c"

entries_at_prefix-exact_example :
    ((name : Text)
      → is_name name ≡ true
      → count_if (is_file (path_in folder_1 name)) (entries_at_prefix listed_paths folder_1)
        ≡ count_if (has_path (path_in folder_1 name)) listed_paths)
    × ((x : Text)
        → (count_if (is_file x) (entries_at_prefix listed_paths folder_1) ≡ 0)
          ⊎ ((name : Text) × (x ≡ path_in folder_1 name) × (is_name name ≡ true)))
    × ((dir x : Text)
        → count_if (is_folder dir x) (entries_at_prefix listed_paths folder_1) ≡ (
            if (not (has_slash dir) && same (path_in folder_1 dir) x)
              && any (λ (pe : PathEntry). starts_with pe.path (x ++ b'/' ∷ [])) listed_paths
            then 1
            else 0))
entries_at_prefix-exact_example = entries_at_prefix-exact listed_paths folder_1
