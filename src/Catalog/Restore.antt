-- ===== src/Catalog/Restore.antt =====
-- internal/catalog/retention.go (Materialize), browse.go (the opening of files) and store.go
-- (ListLiveItems, GetSnapshot), with the path checks of internal/storage/restore.go and
-- snapshotid.go, on Unix. A disk is its files by path; directories and failures of the disk are
-- left out.
pub mod Inside
use m365_backup.Base.{
  ℕ, Bool, true, false, not, ◌&&◌, ◌||◌, Option, none, some, List, [], ◌∷◌, ◌++◌, map, Text, codes,
  is_empty, same, trim_space, keep_if, find_if, any, all, contains_text, starts_with, length, drop,
  ltb, leb, ◌==◌, if◌then◌else◌,
}
use m365_backup.Blobs
use m365_backup.Blobs.{Crypto, File, write_file}
use m365_backup.Paths.{split, trim, clean, join, dot, dot_dot}
use m365_backup.Catalog.Item.{Item, Snapshot, ManifestEntry, Manifest, rel_path}
use m365_backup.Catalog.Rows.{is_live}
use m365_backup.Catalog.Store.{Store}
use m365_backup.Catalog.Commit.{entry_of, read_manifest}

abbrev pub nul : Text
nul = 0 ∷ []

-- GuardPath: whether there is no error.
unfoldable pub guard_path : Text → Bool
guard_path p = not (is_empty p || contains_text p nul || contains_text p dot_dot)

-- Whether a path is the root, or stands below it.
unfoldable pub is_under : Text → Text → Bool
unfolding clean starts_with same
is_under root p = starts_with p (clean root ++ b'/' ∷ []) || same p (clean root)

-- EnsureSubpath; `none` is an error.
unfoldable pub ensure_subpath : Text → Text → Option Text
unfolding guard_path is_under join
ensure_subpath root sub =
    let target = join (root ∷ clean sub ∷ []) in
    if not (guard_path root) || contains_text sub nul || contains_text sub dot_dot
    then none
    else if not (is_under root target) || not (guard_path target)
    then none
    else some target

abbrev is_alnum : ℕ → Bool
is_alnum c = (leb b'A' c && leb c b'Z') || (leb b'a' c && leb c b'z') || (leb b'0' c && leb c b'9')

abbrev is_id_byte : ℕ → Bool
is_id_byte c = is_alnum c || c == b'.' || c == b'_' || c == b'-'

-- snapshotIDRe.
unfoldable pub is_id_text : Text → Bool
is_id_text [] = false
is_id_text (c ∷ s) = is_alnum c && all is_id_byte s && leb (length s) 127

abbrev has_slash : ℕ → Bool
has_slash c = c == b'/' || c == 92

-- ValidateSnapshotID: whether there is no error. The ID itself may have white space around it.
unfoldable pub validate_snapshot_id : Text → Bool
unfolding is_id_text
validate_snapshot_id raw =
    let id = trim_space raw in
    not (is_empty id || same id dot || contains_text id dot_dot || any has_slash id)
    && is_id_text id

-- SnapshotFile.
unfoldable pub snapshot_file : Text → Text → Text → Option Text
unfolding validate_snapshot_id ensure_subpath join
snapshot_file repo id ext =
    let ext' = if starts_with ext dot then ext else b'.' ∷ ext in
    if validate_snapshot_id id
    then ensure_subpath (join (repo ∷ codes "snapshots" ∷ [])) (id ++ ext')
    else none

-- The order of texts, byte by byte.
unfoldable pub text_before : Text → Text → Bool
text_before [] t = true
text_before (c ∷ s) [] = false
text_before (c ∷ s) (d ∷ t) = ltb c d || (c == d && text_before s t)

-- ORDER BY mailbox, parent_path, name.
unfoldable pub item_before : Item → Item → Bool
unfolding text_before same
item_before a b =
    if not (same a.mailbox b.mailbox)
    then text_before a.mailbox b.mailbox
    else if not (same a.parent_path b.parent_path)
    then text_before a.parent_path b.parent_path
    else text_before a.name b.name

unfoldable pub insert_item : Item → List Item → List Item
unfolding item_before
insert_item it [] = it ∷ []
insert_item it (x ∷ xs) = if item_before it x then it ∷ x ∷ xs else x ∷ insert_item it xs

unfoldable pub sort_items : List Item → List Item
unfolding insert_item
sort_items [] = []
sort_items (x ∷ xs) = insert_item x (sort_items xs)

abbrev is_in : Text → Text → Item → Bool
is_in mailbox folder it =
    is_empty mailbox || (same it.mailbox mailbox && (is_empty folder || same it.parent_path folder))

-- ListLiveItems.
unfoldable pub list_live_items : List Item → Text → Text → Text → List Item
unfolding sort_items
list_live_items items service mailbox folder =
    sort_items (keep_if (λ it. is_live service it && is_in mailbox folder it) items)

-- GetSnapshot.
unfoldable pub get_snapshot : List Snapshot → Text → Option Snapshot
get_snapshot sns id = find_if (λ sn. same sn.id id) sns

abbrev is_current : Text → Bool
is_current version = is_empty version || same version (codes "live")

-- The entries that Materialize writes; `none` is an error.
unfoldable pub entries_of : Store → Text → Text → Option (List ManifestEntry)
unfolding list_live_items get_snapshot read_manifest same
entries_of s service version =
    if is_current version
    then some (map entry_of (list_live_items s.items service [] []))
    else elim (get_snapshot s.snapshots version) [
      | none ↦ none
      | some sn ↦ elim (read_manifest s.manifests sn.service sn.generation) [
        | none ↦ none
        | some m ↦ some m.items
      ]
    ]

abbrev pub is_skipped : ManifestEntry → Bool
is_skipped e = is_empty e.path || contains_text e.path dot_dot

-- The loop of Materialize: the disk, and whether there was no error.
unfoldable pub write_entries :
    Crypto → List File → Text → List ManifestEntry → List File → List File × Bool
unfolding ensure_subpath
write_entries c blobs dest [] disk = (disk, true)
write_entries c blobs dest (e ∷ es) disk =
    if is_skipped e then write_entries c blobs dest es disk else elim (Blobs.get c blobs e.hash) [
      | none ↦ (disk, false)
      | some content ↦ elim (ensure_subpath dest e.path) [
        | none ↦ (disk, false)
        | some out ↦ write_entries c blobs dest es (write_file disk out content)
      ]
    ]

-- Materialize.
unfoldable pub materialize : Crypto → Store → Text → Text → Text → List File → List File × Bool
unfolding guard_path entries_of write_entries
materialize c s service version dest disk =
    if not (guard_path dest) then (disk, false) else elim (entries_of s service version) [
      | none ↦ (disk, false)
      | some es ↦ write_entries c s.blobs dest es disk
    ]
