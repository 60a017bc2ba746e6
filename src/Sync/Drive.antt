-- ===== src/Sync/Drive.antt =====
-- internal/backup/onedrive.go: syncDriveDelta, the delta query of one drive.
use m365_backup.Base.{
  ℕ, ◌+◌, Bool, true, false, not, ◌&&◌, ◌||◌, Option, none, some, List, [], ◌∷◌, Text, codes,
  is_empty, same, length, any, lower, contains_text, if◌then◌else◌,
}
use m365_backup.Clock.{Time}
use m365_backup.Blobs.{Crypto}
use m365_backup.Catalog.Item.{Item}
use m365_backup.Catalog.Store.{Store, put, delete_key, delete_prefix, live_blob, tombstone}
use m365_backup.Paths.{dot, dot_dot}
use m365_backup.Tokens.{DeltaToken}
use m365_backup.Sync.Fetch.{FetchError, Try, get_bytes}
use m365_backup.Sync.Names.{drive_item_rel_path, parent_dir, base_name}
use m365_backup.Sync.Reuse.{skip_content_download, refresh_catalog_meta}
use m365_backup.Sync.Pages.{Progress, Query, Answer, warn, sync_delta}

-- An item of the answer, with what a download of its content would meet, and the nonce and the
-- time that a Put would use.
pub record DriveEntry : Type 0 where
  pub id : Text
  pub name : Text
  pub parent : Option Text
  pub has_file : Bool
  pub has_folder : Bool
  pub removed : Bool
  pub size : Option ℕ
  pub tries : List Try
  pub nonce : Text
  pub now : Time

abbrev pub onedrive : Text
onedrive = codes "onedrive"

-- A call whose error is dropped.
abbrev pub or_same : Option Store → Store → Store
or_same none s = s
or_same (some s') s = s'

-- An item that counts: `n++` and `res.addItems(1, bytes)`.
unfoldable pub count : ℕ → Progress → Progress
count b p = record p { n = p.n + 1; added = p.added + 1; bytes = p.bytes + b }

-- An item that the answer reports as removed.
unfoldable pub remove_entry : Crypto → Text → DriveEntry → Text → Store → Store
remove_entry c mailbox e rel s =
    let s' = or_same (delete_prefix c s onedrive mailbox rel) s in
    if e.has_file && not (is_empty e.id) then or_same (delete_key c s' onedrive e.id) s' else s'

abbrev pub file_item : Text → DriveEntry → Text → Item
file_item mailbox e rel = record (tombstone onedrive e.id) {
  mailbox = mailbox;
  parent_path = parent_dir rel;
  name = base_name rel;
  deleted = false;
}

-- A download and the Put of its content.
unfoldable pub download : Crypto → Text → DriveEntry → Text → Progress → Progress
unfolding get_bytes count
download c mailbox e rel p = elim ((get_bytes e.tries).0) [
  | none ↦ warn p
  | some content ↦ elim (put c p.cat (file_item mailbox e rel) e.nonce content e.now) [
    | none ↦ warn p
    | some s ↦ count (length content) (record p { cat = s })
  ]
]

-- The item of the catalog takes the new path and keeps its content.
unfoldable pub reuse : Text → Text → Text → Text → Item → Progress → Progress
unfolding refresh_catalog_meta count
reuse mailbox parent name subject it p =
    elim (refresh_catalog_meta p.cat it mailbox parent name subject) [
      | none ↦ warn p
      | some s ↦ count 0 (record p { cat = s; skipped = p.skipped + 1 })
    ]

abbrev pub has_size : Option ℕ → Bool
has_size none = false
has_size (some n) = true

-- A file that is there.
unfoldable pub sync_file : Crypto → Text → DriveEntry → Text → Progress → Progress
unfolding download reuse live_blob
sync_file c mailbox e rel p =
    let existing = live_blob p.cat onedrive e.id in
    if has_size e.size && skip_content_download existing e.size
    then elim existing [
      | none ↦ p
      | some it ↦ reuse mailbox (parent_dir rel) (base_name rel) [] it p
    ]
    else download c mailbox e rel p

-- One item of the loop of syncDriveDelta.
unfoldable pub drive_step : Crypto → Text → DriveEntry → Progress → Progress
unfolding remove_entry sync_file drive_item_rel_path count
drive_step c mailbox e p =
    let rel = drive_item_rel_path e.name e.parent in
    if is_empty rel || same rel dot
    then p
    else if contains_text rel dot_dot
    then warn p
    else if e.removed
    then count 0 (record p { cat = remove_entry c mailbox e rel p.cat })
    else if not e.has_file || is_empty e.id
    then p
    else sync_file c mailbox e rel p

-- isDriveUnavailable.
unfoldable pub is_drive_unavailable : FetchError → Bool
is_drive_unavailable e = any (contains_text (lower e.text)) (
    codes "nospecialcharacters"
    ∷ codes "mailboxnotenabled"
    ∷ codes "resourcenotfound"
    ∷ codes "itemnotfound"
    ∷ codes "accessdenied"
    ∷ codes "notallowed"
    ∷ codes "quota"
    ∷ codes "license"
    ∷ codes "user has no drive"
    ∷ codes "does not have a drive"
    ∷ codes "mysite"
    ∷ codes "spo_error"
    ∷ codes "invalidrequest"
    ∷ codes "badrequest"
    ∷ codes "forbidden"
    ∷ [])

abbrev pub drive_query : Text → Text → Query
drive_query tenant user = record {
  tenant = tenant;
  service = onedrive;
  token_key = user;
  placeholder = codes "sync-";
}

-- syncDriveDelta.
unfoldable pub sync_drive :
    Crypto
    → Text
    → Text
    → Text
    → (Option Text → Answer DriveEntry)
    → List DeltaToken
    → Progress
    → List DeltaToken × Progress
unfolding sync_delta
sync_drive c tenant user mailbox ask rows p =
    sync_delta (drive_step c mailbox) (drive_query tenant user) is_drive_unavailable ask rows p
