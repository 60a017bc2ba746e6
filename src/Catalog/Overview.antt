-- ===== src/Catalog/Overview.antt =====
-- internal/catalog/store.go (HasLiveItems, HasSnapshotsFor, ListSnapshots, ListMailboxes,
-- ListFolders) and import.go (EmptyLocalData): what the program asks the catalog of a tenant.
use m365_backup.Base.{
  ℕ, String, Bool, not, ◌&&◌, ◌||◌, Option, none, some, List, [], ◌∷◌, ◌++◌, map, Text, codes,
  is_empty, same, keep_if, count_if, contains, ltb, leb, ◌==◌, if◌then◌else◌,
}
use m365_backup.Paths.{split, trim}
use m365_backup.Catalog.Item.{Item, Snapshot}
use m365_backup.Catalog.Rows.{is_live}
use m365_backup.Catalog.Store.{Store}
use m365_backup.Catalog.Restore.{text_before}

abbrev is_of : Text → Text → Bool
is_of service s = is_empty service || same s service

-- countSnapshots.
unfoldable pub count_snapshots : List Snapshot → Text → ℕ
unfolding same
count_snapshots sns service = count_if (λ sn. is_of service sn.service) sns

-- countLiveItems.
unfoldable pub count_live_items : List Item → Text → ℕ
unfolding same
count_live_items items service = count_if (λ it. not it.deleted && is_of service it.service) items

-- HasLiveItems and HasSnapshotsFor.
unfoldable pub has_live_items : Store → Text → Bool
unfolding count_live_items
has_live_items s service = ltb 0 (count_live_items s.items service)

unfoldable pub has_snapshots_for : Store → Text → Bool
unfolding count_snapshots
has_snapshots_for s service = ltb 0 (count_snapshots s.snapshots service)

-- ORDER BY created_at DESC.
unfoldable pub insert_snapshot : Snapshot → List Snapshot → List Snapshot
insert_snapshot sn [] = sn ∷ []
insert_snapshot sn (x ∷ xs) =
    if leb x.created_at sn.created_at then sn ∷ x ∷ xs else x ∷ insert_snapshot sn xs

unfoldable pub sort_snapshots : List Snapshot → List Snapshot
unfolding insert_snapshot
sort_snapshots [] = []
sort_snapshots (sn ∷ sns) = insert_snapshot sn (sort_snapshots sns)

-- ListSnapshots.
unfoldable pub list_snapshots : List Snapshot → Text → List Snapshot
unfolding sort_snapshots same
list_snapshots sns service = sort_snapshots (keep_if (λ sn. is_of service sn.service) sns)

-- SELECT DISTINCT … ORDER BY of a column of texts.
unfoldable pub insert_distinct : Text → List Text → List Text
unfolding same text_before
insert_distinct t [] = t ∷ []
insert_distinct t (x ∷ xs) =
    if same t x then x ∷ xs else if text_before t x then t ∷ x ∷ xs else x ∷ insert_distinct t xs

unfoldable pub distinct : List Text → List Text
unfolding insert_distinct
distinct [] = []
distinct (t ∷ ts) = insert_distinct t (distinct ts)

abbrev mailbox_of : Item → Text
mailbox_of it = it.mailbox

abbrev parent_of : Item → Text
parent_of it = it.parent_path

-- ListMailboxes.
unfoldable pub list_mailboxes : List Item → Text → List Text
unfolding distinct same
list_mailboxes items service =
    distinct
      (map mailbox_of (keep_if (λ it. is_live service it && not (is_empty it.mailbox)) items))

abbrev first_part : List Text → Text
first_part [] = []
first_part (p ∷ ps) = p

-- The loop of ListFolders, with the folders seen so far.
unfoldable pub top_folders : List Text → List Text → List Text
unfolding trim split contains
top_folders seen [] = []
top_folders seen (p ∷ ps) =
    let top = first_part (split (trim p)) in
    let skipped = top_folders seen ps in
    let taken = top_folders (top ∷ seen) ps in
    if is_empty top || contains seen top then skipped else top ∷ taken

-- ListFolders.
unfoldable pub list_folders : List Item → Text → Text → List Text
unfolding distinct top_folders same
list_folders items service mailbox = top_folders [] (
    distinct (
      map parent_of (
        keep_if
          (λ it. is_live service it && same it.mailbox mailbox && not (is_empty it.parent_path))
          items)))

abbrev folder_of : String → Text → Text
folder_of root service = codes root ++ b'/' ∷ service

-- EmptyLocalData, over the folders of the tenant that hold a file: whether the service, and the
-- tenant, has nothing local; `none` is an error.
unfoldable pub empty_local_data : (Text → Bool) → Store → Text → Text → Option (Bool × Bool)
unfolding count_snapshots count_live_items
empty_local_data has_files s tenant service =
    let tenant_empty =
      count_snapshots s.snapshots [] == 0
      && count_live_items s.items [] == 0
      && not (has_files (codes "sync"))
      && not (has_files (codes "blobs"))
      && not (has_files (codes "manifests")) in
    let service_empty =
      count_snapshots s.snapshots service == 0
      && count_live_items s.items service == 0
      && not (has_files (folder_of "sync" service))
      && not (has_files (folder_of "manifests" service)) in
    if is_empty tenant
    then none
    else if is_empty service
    then some (tenant_empty, tenant_empty)
    else some (service_empty, tenant_empty)
