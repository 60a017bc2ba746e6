-- ===== src/Catalog/Recycle.antt =====
-- internal/catalog/retention.go: Smart Recycle of the generations, and the garbage collection of
-- the blobs. Snapshot IDs are the primary key, so `meta[inf.ID]` is the snapshot itself; Go's map
-- gives the services in any order, here in that of their first snapshot; snapshots of one instant,
-- which sort.Slice leaves in any order, keep theirs.
pub mod Garbage
pub mod Newest
use m365_backup.Base.{
  ℕ, ◌+◌, Bool, true, false, not, ◌&&◌, List, [], ◌∷◌, ◌++◌, map, Text, is_empty, same, contains,
  keep_if, length, ltb, if◌then◌else◌, ◌==◌,
}
use m365_backup.Clock.{Time}
use m365_backup.Retention.{SnapshotInfo, RetentionPolicy, select_smart_keep_ids}
use m365_backup.Blobs.{File, delete, list_hashes}
use m365_backup.Catalog.Item.{Item, Snapshot}
use m365_backup.Catalog.Store.{Store, Change}
use m365_backup.Catalog.Commit.{snapshot_of, manifest_at}

-- Snapshot.Info.
unfoldable pub info : Snapshot → SnapshotInfo
info sn = record {
  id = sn.id;
  created_at = sn.created_at;
  source = sn.service;
  service = sn.service;
  bytes = sn.bytes_live;
  files = sn.items_live;
}

abbrev pub change_at : Text → ℕ → Change → Bool
change_at service gen ch = same ch.item.service service && ch.generation == gen

-- deleteSnapshot, with deleteManifest.
unfoldable pub delete_snapshot : Store → Snapshot → Store
delete_snapshot s sn = record s {
  changes = keep_if (λ ch. not (change_at sn.service sn.generation ch)) s.changes;
  snapshots = keep_if (λ (x : Snapshot). not (same x.id sn.id)) s.snapshots;
  manifests = keep_if (λ m. not (manifest_at sn.service sn.generation m)) s.manifests;
}

-- The hash of a row, where it is not empty.
abbrev pub hash_of : Item → List Text
hash_of it = if is_empty it.blob_hash then [] else it.blob_hash ∷ []

unfoldable pub item_hashes : List Item → List Text
item_hashes [] = []
item_hashes (it ∷ items) = hash_of it ++ item_hashes items

unfoldable pub change_hashes : List Change → List Text
change_hashes [] = []
change_hashes (ch ∷ chs) = hash_of ch.item ++ change_hashes chs

-- The set `keep` of GCBlobs.
unfoldable pub referenced : Store → List Text
unfolding item_hashes change_hashes
referenced s = item_hashes s.items ++ change_hashes s.changes

-- The loop of GCBlobs.
unfoldable pub collect : List Text → List File → List Text → List File
collect kept files [] = files
collect kept files (h ∷ hs) = collect kept (if contains kept h then files else delete files h) hs

-- GCBlobs.
unfoldable pub gc_blobs : Store → Store
unfolding collect referenced
gc_blobs s = record s { blobs = collect (referenced s) s.blobs (list_hashes s.blobs) }

-- The services of the snapshots, each once.
unfoldable pub services : List Snapshot → List Text
services [] = []
services (sn ∷ sns) = sn.service ∷ keep_if (λ x. not (same x sn.service)) (services sns)

-- sort.Slice with After: the newest first.
unfoldable pub insert_newest : Snapshot → List Snapshot → List Snapshot
insert_newest sn [] = sn ∷ []
insert_newest sn (x ∷ xs) =
    if ltb sn.created_at x.created_at then x ∷ insert_newest sn xs else sn ∷ x ∷ xs

unfoldable pub newest_first : List Snapshot → List Snapshot
unfolding insert_newest
newest_first [] = []
newest_first (sn ∷ sns) = insert_newest sn (newest_first sns)

-- The snapshots of a service that the policy gives up.
unfoldable pub given_up : List Snapshot → RetentionPolicy → Time → Text → List Snapshot
unfolding newest_first
given_up sns policy now service =
    let group = newest_first (keep_if (snapshot_of service) sns) in
    let kept = select_smart_keep_ids (map info group) policy now in
    keep_if (λ (sn : Snapshot). not (contains kept sn.id)) group

unfoldable pub to_delete : List Snapshot → RetentionPolicy → Time → List Text → List Snapshot
unfolding given_up
to_delete sns policy now [] = []
to_delete sns policy now (x ∷ xs) = given_up sns policy now x ++ to_delete sns policy now xs

unfoldable pub delete_snapshots : Store → List Snapshot → Store
unfolding delete_snapshot
delete_snapshots s [] = s
delete_snapshots s (sn ∷ sns) = delete_snapshots (delete_snapshot s sn) sns

-- ApplySmartRetention, with the number of snapshots that it deletes.
unfoldable pub apply_smart_retention : Store → RetentionPolicy → Time → Store × ℕ
unfolding services to_delete delete_snapshots gc_blobs
apply_smart_retention s policy now =
    let gone = to_delete s.snapshots policy now (services s.snapshots) in
    (gc_blobs (delete_snapshots s gone), length gone)
