-- ===== src/Catalog/Import.antt =====
-- internal/catalog/import.go: the import of an old sync/ directory as the first generation, and
-- SubjectFromEMLFilename of internal/storage/emlmeta.go. The files under sync/{service} are a list
-- in the order of the walk.
pub mod Alias
use m365_backup.Base.{
  ℕ, ◌+◌, Bool, true, false, not, ◌&&◌, ◌||◌, Option, none, some, List, [], ◌∷◌, ◌++◌, map, Text,
  codes, is_empty, same, trim_space, starts_with, contains_text, count_if, keep_if, drop, length,
  ltb, ◌==◌, if◌then◌else◌,
}
use m365_backup.Clock.{Time}
use m365_backup.Blobs.{Crypto}
use m365_backup.Paths.{split, join_with, dot, dot_dot}
use m365_backup.Catalog.Item.{Item, Snapshot, import_eml_prefix, import_path_prefix}
use m365_backup.Catalog.Store.{Store, tombstone, put}
use m365_backup.Catalog.Commit.{commit_snapshot}

abbrev pub separator : Text
separator = codes "__"

-- A text before and after the last "__".
unfoldable pub split_last : Text → Option (Text × Text)
unfolding starts_with
split_last [] = none
split_last (c ∷ s) = elim (split_last s) [
  | some (a, b) ↦ some (c ∷ a, b)
  | none ↦ if starts_with (c ∷ s) separator then some ([], drop 2 (c ∷ s)) else none
]

-- The text before the last ".", if there is one.
unfoldable pub before_dot : Text → Option Text
before_dot [] = none
before_dot (c ∷ s) = elim (before_dot s) [
  | some a ↦ some (c ∷ a)
  | none ↦ if c == b'.' then some [] else none
]

-- strings.TrimSuffix(name, filepath.Ext(name)), of a name without a slash.
unfoldable pub without_ext : Text → Text
unfolding before_dot
without_ext name = elim (before_dot name) [ none ↦ name | some base ↦ base ]

abbrev bad_id : Text → Bool
bad_id id = ltb (length id) 6 || ltb 16 (length id)

-- emlShortFromName.
unfoldable pub eml_short_from_name : Text → Option Text
unfolding split_last without_ext
eml_short_from_name name = elim (split_last (without_ext name)) [
  | none ↦ none
  | some (subject, id) ↦ if bad_id id then none else some id
]

abbrev plain_subject : ℕ → ℕ
plain_subject c = if c == b'_' then 32 else c

-- SubjectFromEMLFilename.
unfoldable pub subject_from_eml_filename : Text → Option Text
unfolding split_last without_ext same
subject_from_eml_filename name = elim (split_last (without_ext name)) [
  | none ↦ none
  | some (front, id) ↦
      let subject = trim_space (map plain_subject front) in
      if is_empty front || bad_id id || is_empty subject || same subject (codes "ohne-betreff")
      then none
      else some subject
]

abbrev first_of : List Text → Text
first_of [] = []
first_of (p ∷ ps) = p

unfoldable pub middle_of : List Text → List Text
middle_of [] = []
middle_of (p ∷ []) = []
middle_of (p ∷ q ∷ []) = []
middle_of (p ∷ q ∷ r ∷ ps) = q ∷ middle_of (q ∷ r ∷ ps)

-- The last of at least two parts, and else the name of the file.
unfoldable pub name_of_parts : List Text → Text → Text
name_of_parts [] name = name
name_of_parts (p ∷ []) name = name
name_of_parts (p ∷ q ∷ []) name = q
name_of_parts (p ∷ q ∷ r ∷ ps) name = name_of_parts (q ∷ r ∷ ps) name

abbrev or_none : Option Text → Text
or_none none = []
or_none (some s) = s

-- itemFromSyncPath.
unfoldable pub item_from_sync_path : Text → Text → Text → Item
unfolding eml_short_from_name subject_from_eml_filename split middle_of name_of_parts join_with same
item_from_sync_path service rel name =
    let parts = split rel in
    let it = record (tombstone service (import_path_prefix ++ rel)) {
      mailbox = first_of parts;
      parent_path = join_with (middle_of parts);
      name = name_of_parts parts name;
      content_type = codes "application/octet-stream";
      deleted = false;
    } in
    if same service (codes "exchange")
    then elim (eml_short_from_name (name_of_parts parts name)) [
      | none ↦ it
      | some short ↦ record it {
        graph_item_id = import_eml_prefix ++ short;
        content_type = codes "message/rfc822";
        subject = or_none (subject_from_eml_filename (name_of_parts parts name));
      }
    ]
    else it

-- A file of sync/{service}: its path there, its name, its content if it can be read, and the nonce
-- and the time that a Put would use.
pub record SyncFile : Type 0 where
  pub rel : Text
  pub name : Text
  pub content : Option Text
  pub nonce : Text
  pub now : Time

abbrev pub is_ignored : SyncFile → Bool
is_ignored f =
    same f.name (codes "BACKUP_META.txt")
    || same f.name (codes "SNAPSHOT_ROOT.txt")
    || starts_with f.name dot
    || contains_text f.rel dot_dot

-- importSyncService, over the files of the service; `none` is an error.
unfoldable pub import_sync_service : Crypto → Text → List SyncFile → Store → ℕ → Option (Store × ℕ)
unfolding item_from_sync_path
import_sync_service c service [] s n = some (s, n)
import_sync_service c service (f ∷ fs) s n =
    let skipped = import_sync_service c service fs s n in
    let it = item_from_sync_path service f.rel f.name in
    if is_ignored f || is_empty it.graph_item_id then skipped else elim f.content [
      | none ↦ skipped
      | some content ↦ elim (put c s it f.nonce content f.now) [
        | none ↦ none
        | some s' ↦ import_sync_service c service fs s' (n + 1)
      ]
    ]

abbrev pub import_services : List Text
import_services = codes "exchange" ∷ codes "onedrive" ∷ codes "teams" ∷ codes "sharepoint" ∷ []

-- HasSnapshots.
abbrev has_snapshots : List Snapshot → Bool
has_snapshots [] = false
has_snapshots (sn ∷ sns) = true

abbrev is_nil : List SyncFile → Bool
is_nil [] = true
is_nil (f ∷ fs) = false

abbrev job_of : Text → Text → Text → Text
job_of service job_service job_id = if same service job_service then job_id else []

-- The loop of EnsureMigrated over the services, with the random ID of each one's snapshot.
unfoldable pub import_each :
    Crypto
    → (Text → List SyncFile)
    → Text
    → Text
    → (Text → Text)
    → Time
    → List Text
    → Store
    → Bool
    → Option (Store × Bool)
unfolding import_sync_service
import_each c files job_service job_id uuid now [] s imported = some (s, imported)
import_each c files job_service job_id uuid now (svc ∷ svcs) s imported =
    elim (import_sync_service c svc (files svc) s 0) [
      | none ↦ none
      | some (s1, n) ↦
          if n == 0
          then import_each c files job_service job_id uuid now svcs s1 imported
          else elim (commit_snapshot s1 svc (job_of svc job_service job_id) (uuid svc) now) [
            | none ↦ none
            | some (s2, sn) ↦ import_each c files job_service job_id uuid now svcs s2 true
          ]
    ]

-- EnsureMigrated: the catalog, whether it imported, and whether a full job is needed; `none` is an
-- error. `any_file` is whether sync/ holds a file; sync/ is empty afterwards unless the
-- catalog had snapshots or there is an error.
unfoldable pub ensure_migrated :
    Crypto
    → (Text → List SyncFile)
    → Bool
    → Text
    → Text
    → (Text → Text)
    → Time
    → Store
    → Option (Store × Bool × Bool)
unfolding import_each
ensure_migrated c files any_file job_service job_id uuid now s =
    if has_snapshots s.snapshots
    then some (s, false, false)
    else if not any_file
    then some (s, false, true)
    else elim (import_each c files job_service job_id uuid now import_services s false) [
      | none ↦ none
      | some (s', imported) ↦ some (s', imported, false)
    ]
