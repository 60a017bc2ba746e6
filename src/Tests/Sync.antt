-- ===== src/Tests/Sync.antt =====
-- internal/backup/onedrive.go, exchange.go and internal/graph/client.go at concrete inputs.
use m365_backup.Base.{
  ℕ, ◌+◌, ◌≤◌, ◌≡◌, ◌⊎◌, ◌↔◌, refl, Bool, true, false, Option, none, some, List, [], ◌∷◌, ◌++◌,
  Text, codes, same, is_empty, any, starts_with, contains_text, find_if, if◌then◌else◌, count_if,
}
use m365_backup.Catalog.Item.{Item}
use m365_backup.Catalog.Store.{live_blob}
use m365_backup.Catalog.Rows.{get_item}
use m365_backup.Tokens.{get_delta_token}
use m365_backup.Sync.Fetch.{FetchError, Try, failed, got, get_bytes, Succeeds, get_bytes-exact}
use m365_backup.Sync.Names.{sanitize}
use m365_backup.Sync.Safe.{IsSafe, sanitize-IsSafe}
use m365_backup.Sync.Pages.{
  Progress, entry, Page, Answer, pages, warn, run_pages, saved_token, first_answer,
}
use m365_backup.Sync.Drive.{DriveEntry, onedrive, drive_query, drive_step, sync_file, sync_drive}
use m365_backup.Sync.Mail.{MailEntry, no_message, exchange, mail_step, placeholder_body}
use m365_backup.Sync.Checkpoint.{interrupted, is_key, done_pages, checkpoint, run_pages-checkpoint}
use m365_backup.Sync.Resume.{Chain, stop}
use m365_backup.Sync.Interrupted.{sync_drive-resume}
use m365_backup.Sync.Content.{Ready, Holds, Same}
use m365_backup.Sync.Placeholder.{here, report, mail_step-placeholder}
use m365_backup.Sync.Files.{Known, sync_file-cases}
use m365_backup.Tests.Data.{
  open_cipher, open_cipher-IsCrypto, no_files-IsSound, no_files-NoCollision, store_of,
}

abbrev throttled : FetchError
throttled = record {
  text = codes "status 429";
  is_canceled = false;
  is_deadline = false;
  is_timeout = false;
}

abbrev hello : Text
hello = codes "Hello"

get_bytes-exact_example :
    (((get_bytes (failed throttled ∷ got hello ∷ [])).0 ≡ some hello)
      ↔ Succeeds 3 (failed throttled ∷ got hello ∷ []) hello)
    × ((get_bytes (failed throttled ∷ got hello ∷ [])).1 ≤ 3)
get_bytes-exact_example = get_bytes-exact (failed throttled ∷ got hello ∷ []) hello

sanitize-IsSafe_example : IsSafe (sanitize (codes " ../a?.txt"))
sanitize-IsSafe_example = sanitize-IsSafe (codes " ../a?.txt")

abbrev start : Progress
start = record { cat = store_of true []; n = 0; skipped = 0; added = 0; bytes = 0; warnings = 0 }

abbrev file_1 : DriveEntry
file_1 = record {
  id = codes "f1";
  name = codes "a.txt";
  parent = some (codes "/drives/d1/root:/Docs");
  has_file = true;
  has_folder = false;
  removed = false;
  size = some 5;
  tries = got hello ∷ [];
  nonce = 1 ∷ 2 ∷ [];
  now = 3;
}

abbrev next_url : Text
next_url = codes "https://next"

abbrev page_1 : Page DriveEntry
page_1 = record { turns = entry file_1 ∷ []; next_link = some next_url; delta_link = none; now = 4 }

abbrev page_2 : Page DriveEntry
page_2 = record { turns = []; next_link = none; delta_link = some (codes "https://delta"); now = 5 }

abbrev tenant_1 : Text
tenant_1 = codes "t1"

abbrev user_1 : Text
user_1 = codes "u1"

run_pages-checkpoint_example :
    (get_delta_token
        (run_pages
          (drive_step open_cipher (codes "a@b.c"))
          (drive_query tenant_1 user_1)
          page_1
          (page_2 ∷ [])
          []
          start).0
        tenant_1
        onedrive
        user_1
      ≡ checkpoint (done_pages page_1 (page_2 ∷ [])) (get_delta_token [] tenant_1 onedrive user_1))
    × ((t s u : Text)
        → is_key (drive_query tenant_1 user_1) t s u ≡ false
        → get_delta_token
            (run_pages
              (drive_step open_cipher (codes "a@b.c"))
              (drive_query tenant_1 user_1)
              page_1
              (page_2 ∷ [])
              []
              start).0
            t
            s
            u
          ≡ get_delta_token [] t s u)
run_pages-checkpoint_example =
    run_pages-checkpoint (drive_step open_cipher (codes "a@b.c")) (drive_query tenant_1 user_1)
      page_1 (page_2 ∷ []) [] start

abbrev asks : List (Page DriveEntry) → Option Text → Answer DriveEntry
asks rest url = pages page_1 rest

abbrev asks_again : Option Text → Answer DriveEntry
asks_again url = pages page_2 []

page_1-Chain : Chain page_1 [] next_url
unfolding interrupted
page_1-Chain = stop page_1 next_url (record { whole = refl; link = refl })

sync_drive-resume_example :
    (let first = sync_drive open_cipher tenant_1 user_1 (codes "a@b.c") (asks []) [] start in
      sync_drive open_cipher tenant_1 user_1 (codes "a@b.c") asks_again first.0 first.1)
    ≡ (
      (sync_drive open_cipher tenant_1 user_1 (codes "a@b.c") (asks (page_2 ∷ [])) [] start).0,
      warn (sync_drive open_cipher tenant_1 user_1 (codes "a@b.c") (asks (page_2 ∷ [])) [] start).1,
    )
unfolding saved_token first_answer get_delta_token find_if starts_with
sync_drive-resume_example =
    sync_drive-resume open_cipher tenant_1 user_1 (codes "a@b.c") (asks []) asks_again
      (asks (page_2 ∷ [])) [] start page_1 page_2 [] [] next_url refl page_1-Chain refl refl refl

start-Ready : (text : Text) → Ready open_cipher (store_of true []) (1 ∷ 2 ∷ []) text
start-Ready text = record {
  crypto = open_cipher-IsCrypto;
  size = refl;
  sound = no_files-IsSound;
  unique = no_files-NoCollision text;
}

abbrev after_file : Progress
after_file = sync_file open_cipher (codes "a@b.c") file_1 (codes "Docs/a.txt") start

sync_file-cases_example :
    ((it : Item) × Known start file_1 it × Same after_file.cat onedrive (codes "f1") it start.cat)
    ⊎ ((¬ ((it : Item) × Known start file_1 it))
        × ((get_bytes file_1.tries).0 ≡ none)
        × (after_file ≡ warn start))
    ⊎ ((content : Text) × (¬ ((it : Item) × Known start file_1 it))
        × ((get_bytes file_1.tries).0 ≡ some content)
        × (Ready open_cipher start.cat file_1.nonce content
            → Holds open_cipher after_file.cat onedrive (codes "f1") content))
sync_file-cases_example =
    sync_file-cases open_cipher (codes "a@b.c") (codes "Docs/a.txt") file_1 start refl

abbrev mail_1 : MailEntry
mail_1 = record {
  id = codes "m1";
  subject = hello;
  removed = false;
  tries = failed throttled ∷ failed throttled ∷ failed throttled ∷ [];
  mime_error = codes "status 429";
  fallback = no_message (codes "status 503");
  nonce = 1 ∷ 2 ∷ [];
  now = 3;
}

abbrev as_is : Text → Text
as_is s = s

abbrev mail_text : Text
mail_text = placeholder_body hello (codes "status 429") (codes "status 503")

abbrev after_mail : Progress
after_mail = mail_step open_cipher as_is (codes "a@b.c") (codes "Inbox") mail_1 start

-- The next two syncs could fetch the message.
abbrev later_mail : MailEntry
later_mail = record mail_1 { tries = got hello ∷ [] }

abbrev reported_again : Progress → Progress
reported_again p = mail_step open_cipher as_is (codes "a@b.c") (codes "Inbox") later_mail p

mail_step-placeholder_example :
    Holds open_cipher after_mail.cat exchange (codes "m1") mail_text
    × Holds open_cipher
        (reported_again (reported_again after_mail)).cat
        exchange
        (codes "m1")
        mail_text
unfolding live_blob get_item find_if get_bytes m365_backup.Sync.Fetch.is_retryable
    m365_backup.Base.to_lower m365_backup.Base.contains_text m365_backup.Base.starts_with
mail_step-placeholder_example =
    mail_step-placeholder open_cipher as_is (codes "a@b.c") (codes "Inbox") mail_1 start
      (reported_again (reported_again after_mail)) (codes "status 503") refl refl refl refl refl
      (start-Ready mail_text)
      (report (codes "a@b.c") (codes "Inbox") later_mail
        (report (codes "a@b.c") (codes "Inbox") later_mail here refl refl) refl refl)
