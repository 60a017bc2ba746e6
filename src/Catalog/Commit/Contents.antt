-- ===== src/Catalog/Commit/Contents.antt =====
-- internal/catalog/store.go: what a commit leaves, in a new generation and without one.
use m365_backup.Base.{
  ℕ, ◌≡◌, refl, true, false, not, ◌&&◌, some, List, [], ◌∷◌, ◌++◌, Text, arith, same, same_refl,
  is_empty, any, find_if, keep_if, count_if, length, ◌==◌, Bool-cases, inl, inr, ==_refl, &&_split,
  same-eq,
}
use m365_backup.Clock.{Time}
use m365_backup.Catalog.Item.{Item, Snapshot, Manifest}
use m365_backup.Catalog.Rows.{live_stats}
use m365_backup.Catalog.Store.{Store}
use m365_backup.Catalog.Commit.{
  of_service, latest_snapshot, manifest_entries, manifest_at, write_manifest, read_manifest,
  change_rows, new_snapshot, commit_generation, commit_snapshot, is_nil, as_skipped,
}
use m365_backup.Catalog.Commit.Generations.{
  UniqueGenerations, UniqueGenerations-append, next_generation-fresh, has_generation,
}

pub read-write_manifest :
    (ms : List Manifest) (m : Manifest)
    → read_manifest (write_manifest ms m) m.service m.generation ≡ some m
unfolding read_manifest write_manifest find_if
read-write_manifest [] m = ground (arith, same_refl m.service, ==_refl m.generation)
read-write_manifest (x ∷ xs) m =
    ground (arith, same_refl m.service, ==_refl m.generation, read-write_manifest xs m)

-- The manifest of every other service or generation is as before.
pub read-write_other :
    (ms : List Manifest) (m : Manifest) (service : Text) (gen : ℕ)
    → manifest_at service gen m ≡ false
    → read_manifest (write_manifest ms m) service gen ≡ read_manifest ms service gen
unfolding read_manifest write_manifest find_if
read-write_other [] m service gen h = rw h refl
read-write_other (x ∷ xs) m service gen h =
    elim (Bool-cases (manifest_at m.service m.generation x)) [
      | inl e ↦
          rw (e, h)
            (ground (
              arith,
              &&_split (same x.service m.service) (x.generation == m.generation) e,
              same-eq x.service m.service,
            ))
      | inr e ↦ rw e (ground (arith, read-write_other xs m service gen h))
    ]

entries-length :
    (items : List Item) (service : Text)
    → length (manifest_entries items service) ≡ (live_stats items service).0
unfolding manifest_entries live_stats keep_if count_if
entries-length [] service = refl
entries-length (it ∷ items) service = ground (arith, entries-length items service)

-- A commit of a service without pending changes, in a job that tracks changes, writes no
-- generation: it gives the latest snapshot of the service, marked as skipped, and leaves items,
-- changes, snapshots, manifests and blobs as they are.
pub commit_snapshot-skipped :
    (s : Store) (service job_id uuid : Text) (now : Time)
    → is_empty service ≡ false
    → s.track_changes ≡ true
    → keep_if (of_service service) s.pending ≡ []
    → (s' : Store) × (commit_snapshot s service job_id uuid now
        ≡ some (s', as_skipped (latest_snapshot s.snapshots service)))
      × (s'.items ≡ s.items)
      × (s'.changes ≡ s.changes)
      × (s'.snapshots ≡ s.snapshots)
      × (s'.manifests ≡ s.manifests)
      × (s'.blobs ≡ s.blobs)
unfolding commit_snapshot
commit_snapshot-skipped s service job_id uuid now named tracks none_pending = (
  record s { pending = keep_if (λ ch. not (of_service service ch)) s.pending },
  rw (named, tracks, none_pending) refl,
  refl,
  refl,
  refl,
  refl,
  refl,
)

-- In every other case a commit of a service writes a generation of its own: the snapshot counts
-- the live items and their bytes, the generations of the store stay unique, the manifest of the
-- generation is read back and lists the live items, as many as the snapshot counts, every
-- other manifest is as before, and the pending changes of the service, and no others, have become changes of
-- the generation.
pub commit_snapshot-new :
    (s : Store) (service job_id uuid : Text) (now : Time)
    → is_empty service ≡ false
    → (s.track_changes && is_nil (keep_if (of_service service) s.pending)) ≡ false
    → UniqueGenerations s.snapshots
    → (s' : Store) × (sn : Snapshot) × (m : Manifest) × (commit_snapshot s service job_id uuid now
        ≡ some (s', some sn))
      × ((sn.items_live, sn.bytes_live) ≡ live_stats s.items service)
      × (any (has_generation service sn.generation) s.snapshots ≡ false)
      × (s'.snapshots ≡ s.snapshots ++ sn ∷ [])
      × UniqueGenerations s'.snapshots
      × (read_manifest s'.manifests service sn.generation ≡ some m)
      × (m.items ≡ manifest_entries s.items service)
      × (length m.items ≡ sn.items_live)
      × ((x : Text) (g : ℕ)
          → manifest_at x g m ≡ false
          → read_manifest s'.manifests x g ≡ read_manifest s.manifests x g)
      × (s'.changes
          ≡ s.changes ++ change_rows sn.generation (keep_if (of_service service) s.pending))
      × (s'.pending ≡ keep_if (λ ch. not (of_service service ch)) s.pending)
unfolding commit_snapshot commit_generation new_snapshot
commit_snapshot-new s service job_id uuid now named writes unique =
    let sn = new_snapshot s service job_id uuid now in
    let m : Manifest = record {
      service = service;
      generation = sn.generation;
      created_at = now;
      items = manifest_entries s.items service;
    } in
    (
      commit_generation
          (record s { pending = keep_if (λ ch. not (of_service service ch)) s.pending })
          (keep_if (of_service service) s.pending) sn,
      sn,
      m,
      rw (named, writes) refl,
      refl,
      next_generation-fresh s.snapshots service,
      refl,
      UniqueGenerations-append s.snapshots sn unique (next_generation-fresh s.snapshots service),
      read-write_manifest s.manifests m,
      refl,
      entries-length s.items service,
      λ x g. read-write_other s.manifests m x g,
      refl,
      refl,
    )
