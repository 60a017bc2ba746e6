-- ===== src/Catalog/Commit.antt =====
-- internal/catalog/store.go: CommitSnapshot, the generations and their manifests.
pub mod Generations
pub mod Contents
use m365_backup.Base.{
  ℕ, ◌+◌, Bool, true, false, not, ◌&&◌, Option, none, some, List, [], ◌∷◌, ◌++◌, map, max, Text,
  is_empty, same, keep_if, find_if, ltb, ◌==◌, if◌then◌else◌,
}
use m365_backup.Clock.{Time}
use m365_backup.Catalog.Item.{Item, PendingChange, Snapshot, ManifestEntry, Manifest, rel_path}
use m365_backup.Catalog.Rows.{is_live, live_stats}
use m365_backup.Catalog.Store.{Store, Change}

abbrev pub of_service : Text → PendingChange → Bool
of_service service ch = same ch.item.service service

abbrev pub snapshot_of : Text → Snapshot → Bool
snapshot_of service sn = same sn.service service

-- latestSnapshot: the row of the highest generation.
unfoldable pub latest_snapshot : List Snapshot → Text → Option Snapshot
latest_snapshot [] service = none
latest_snapshot (sn ∷ sns) service =
    let later = latest_snapshot sns service in
    if snapshot_of service sn
    then elim later [
      | none ↦ some sn
      | some best ↦ if ltb sn.generation best.generation then some best else some sn
    ]
    else later

-- SELECT MAX(generation); 0 stands for NULL, which the first generation, 1, follows likewise.
unfoldable pub max_generation : List Snapshot → Text → ℕ
max_generation [] service = 0
max_generation (sn ∷ sns) service =
    max (if snapshot_of service sn then sn.generation else 0) (max_generation sns service)

-- nextGeneration.
unfoldable pub next_generation : List Snapshot → Text → ℕ
next_generation sns service = max_generation sns service + 1

-- The entries of writeManifest: the live rows, with their paths.
abbrev pub entry_of : Item → ManifestEntry
entry_of it = record { path = rel_path it; hash = it.blob_hash; size = it.size }

unfoldable pub manifest_entries : List Item → Text → List ManifestEntry
manifest_entries items service = map entry_of (keep_if (is_live service) items)

abbrev pub manifest_at : Text → ℕ → Manifest → Bool
manifest_at service gen m = same m.service service && m.generation == gen

-- The rename of writeManifest: the file of the service and generation is the new one.
unfoldable pub write_manifest : List Manifest → Manifest → List Manifest
write_manifest [] m = m ∷ []
write_manifest (x ∷ xs) m =
    if manifest_at m.service m.generation x then m ∷ xs else x ∷ write_manifest xs m

-- ReadManifest; `none` is the missing file.
unfoldable pub read_manifest : List Manifest → Text → ℕ → Option Manifest
read_manifest ms service gen = find_if (manifest_at service gen) ms

-- insertChanges.
unfoldable pub change_rows : ℕ → List PendingChange → List Change
change_rows gen [] = []
change_rows gen (ch ∷ chs) =
    record { generation = gen; op = ch.op; item = ch.item } ∷ change_rows gen chs

abbrev pub is_nil : List PendingChange → Bool
is_nil [] = true
is_nil (ch ∷ chs) = false

abbrev pub as_skipped : Option Snapshot → Option Snapshot
as_skipped none = none
as_skipped (some sn) = some (record sn { skipped = true })

-- The snapshot row of a commit.
unfoldable pub new_snapshot : Store → Text → Text → Text → Time → Snapshot
new_snapshot s service job_id uuid now =
    let (n, bytes) = live_stats s.items service in
    record {
      id = uuid;
      service = service;
      generation = next_generation s.snapshots service;
      job_id = job_id;
      created_at = now;
      items_live = n;
      bytes_live = bytes;
      skipped = false;
    }

-- CommitSnapshotWithProgress with a new generation.
unfoldable pub commit_generation : Store → List PendingChange → Snapshot → Store
unfolding manifest_entries
commit_generation s changes snap = record s {
  snapshots = s.snapshots ++ snap ∷ [];
  changes = s.changes ++ change_rows snap.generation changes;
  manifests = write_manifest s.manifests (record {
    service = snap.service;
    generation = snap.generation;
    created_at = snap.created_at;
    items = manifest_entries s.items snap.service;
  });
}

-- CommitSnapshotWithProgress; the outer `none` is the error of an empty service, the inner one
-- the nil snapshot of a catalog that has none.
unfoldable pub commit_snapshot :
    Store → Text → Text → Text → Time → Option (Store × Option Snapshot)
commit_snapshot s service job_id uuid now =
    if is_empty service
    then none
    else let changes = keep_if (of_service service) s.pending in
      let s1 = record s { pending = keep_if (λ ch. not (of_service service ch)) s.pending } in
      if s.track_changes && is_nil changes
      then some (s1, as_skipped (latest_snapshot s.snapshots service))
      else let snap = new_snapshot s service job_id uuid now in
        some (commit_generation s1 changes snap, some snap)
