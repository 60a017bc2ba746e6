-- ===== src/Sync/Interrupted.antt =====
-- internal/backup/onedrive.go: a sync of a drive that stops between two pages, and the steps when a
-- warning has been counted before.
use m365_backup.Base.{
  ◌≡◌, refl, Bool, true, false, ◌&&◌, Option, none, some, List, [], ◌∷◌, ◌++◌, Text, codes, arith,
  starts_with, if◌then◌else◌, Option-cases, inl, inr,
}
use m365_backup.Blobs.{Crypto}
use m365_backup.Catalog.Item.{Item}
use m365_backup.Catalog.Store.{put, live_blob}
use m365_backup.Tokens.{DeltaToken}
use m365_backup.Sync.Fetch.{get_bytes}
use m365_backup.Sync.Names.{drive_item_rel_path, parent_dir, base_name}
use m365_backup.Sync.Reuse.{skip_content_download, refresh_catalog_meta}
use m365_backup.Sync.Pages.{Progress, Page, Answer, pages, warn, saved_token, first_answer}
use m365_backup.Sync.Drive.{
  DriveEntry, onedrive, count, file_item, download, reuse, has_size, sync_file, drive_step,
  drive_query, sync_drive, is_drive_unavailable,
}
use m365_backup.Sync.Resume.{Chain, sync_delta-resume}

download-warn :
    (c : Crypto) (mailbox : Text) (e : DriveEntry) (rel : Text) (p : Progress)
    → download c mailbox e rel (warn p) ≡ warn (download c mailbox e rel p)
unfolding download count
download-warn c mailbox e rel p = elim (Option-cases ((get_bytes e.tries).0)) [
  | inl n ↦ rw (download, n) refl
  | inr (content, n) ↦
      rw (download, n)
        (elim (Option-cases (put c p.cat (file_item mailbox e rel) e.nonce content e.now)) [
          | inl m ↦ rw m refl
          | inr (s, m) ↦ rw m refl
        ])
]

reuse-warn :
    (mailbox parent name subject : Text) (it : Item) (p : Progress)
    → reuse mailbox parent name subject it (warn p) ≡ warn (reuse mailbox parent name subject it p)
unfolding reuse count
reuse-warn mailbox parent name subject it p =
    elim (Option-cases (refresh_catalog_meta p.cat it mailbox parent name subject)) [
      | inl m ↦ rw (reuse, m) refl
      | inr (s, m) ↦ rw (reuse, m) refl
    ]

sync_file-warn :
    (c : Crypto) (mailbox : Text) (e : DriveEntry) (rel : Text) (p : Progress)
    → sync_file c mailbox e rel (warn p) ≡ warn (sync_file c mailbox e rel p)
unfolding sync_file
sync_file-warn c mailbox e rel p = elim (Option-cases (live_blob p.cat onedrive e.id)) [
  | inl n ↦ rw (sync_file, n) (pick_none (has_size e.size && skip_content_download none e.size))
  | inr (it, n) ↦
      rw (sync_file, n) (pick_reuse it (has_size e.size && skip_content_download (some it) e.size))
]
  where
    pick_none :
        (b : Bool)
        → (if b then warn p else download c mailbox e rel (warn p))
          ≡ warn (if b then p else download c mailbox e rel p)
    pick_none true = refl
    pick_none false = download-warn c mailbox e rel p

    pick_reuse :
        (it : Item) (b : Bool)
        → (if b
            then reuse mailbox (parent_dir rel) (base_name rel) [] it (warn p)
            else download c mailbox e rel (warn p))
          ≡ warn (
              if b
              then reuse mailbox (parent_dir rel) (base_name rel) [] it p
              else download c mailbox e rel p)
    pick_reuse it true = reuse-warn mailbox (parent_dir rel) (base_name rel) [] it p
    pick_reuse it false = download-warn c mailbox e rel p

drive_step-warn :
    (c : Crypto) (mailbox : Text) (e : DriveEntry) (p : Progress)
    → drive_step c mailbox e (warn p) ≡ warn (drive_step c mailbox e p)
unfolding drive_step count
drive_step-warn c mailbox e p =
    ground (arith, sync_file-warn c mailbox e (drive_item_rel_path e.name e.parent) p)

-- A sync of a drive that ends because the request for a next page fails, after all pages before it
-- were done to their end, and the next sync, which resumes at the URL of the last of them, together
-- leave the tokens, the catalog and the counts that a sync that gets all the pages leaves, with one
-- warning more. The URL must not look like the placeholder of an old build.
pub sync_drive-resume :
    (c : Crypto) (tenant user mailbox : Text)
    (ask ask_again ask_all : Option Text → Answer DriveEntry) (rows : List DeltaToken)
    (p : Progress) (page later : Page DriveEntry) (ps rest : List (Page DriveEntry)) (url : Text)
    → first_answer ask (saved_token (drive_query tenant user) rows) ≡ pages page ps
    → Chain page ps url
    → starts_with url (codes "sync-") ≡ false
    → ask_again (some url) ≡ pages later rest
    → first_answer ask_all (saved_token (drive_query tenant user) rows)
      ≡ pages page (ps ++ later ∷ rest)
    → (let first = sync_drive c tenant user mailbox ask rows p in
        sync_drive c tenant user mailbox ask_again first.0 first.1)
      ≡ (
        (sync_drive c tenant user mailbox ask_all rows p).0,
        warn (sync_drive c tenant user mailbox ask_all rows p).1,
      )
unfolding sync_drive
sync_drive-resume c tenant user mailbox ask ask_again ask_all rows p page later ps rest url first
      chain own again all =
    sync_delta-resume (drive_step c mailbox) (drive_query tenant user) (drive_step-warn c mailbox)
      is_drive_unavailable ask ask_again ask_all rows p page later ps rest url first chain own again
      all
