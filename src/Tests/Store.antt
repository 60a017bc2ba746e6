-- ===== src/Tests/Store.antt =====
-- internal/catalog and internal/blobstore at concrete inputs.
use m365_backup.Base.{
  ℕ, ◌≡◌, refl, true, false, not, ◌&&◌, none, some, [], ◌∷◌, ◌++◌, Text, codes, contains, length,
  same, any, keep_if, find_if, if◌then◌else◌, all,
}
use m365_backup.Blobs
use m365_backup.Blobs.{File, valid_hash, read_file, write_file, exists}
use m365_backup.Blobs.RoundTrip.{IsSound, get-put}
use m365_backup.Catalog.Item.{Item, Snapshot, Manifest, import_aliases}
use m365_backup.Catalog.Rows.{get_item, upsert_item, live_stats}
use m365_backup.Catalog.Store.{
  Store, put, live_blob, finish_reconcile, start_reconcile, note_pending, rematch_id,
}
use m365_backup.Catalog.Store.Frame.{live_blob-put}
use m365_backup.Catalog.Store.Reconcile.{IsGone, finish_reconcile_lem}
use m365_backup.Catalog.Store.FullPull.{Upload, pull, put_each, put_or_warn, full_pull_deletes_all}
use m365_backup.Catalog.Commit.{
  commit_snapshot, manifest_entries, manifest_at, read_manifest, change_rows, of_service,
}
use m365_backup.Catalog.Commit.Generations.{UniqueGenerations, has_generation}
use m365_backup.Catalog.Commit.Contents.{commit_snapshot-new}
use m365_backup.Catalog.Recycle.{gc_blobs, apply_smart_retention, newest_first, insert_newest}
use m365_backup.Catalog.Recycle.Newest.{id_is, apply_smart_retention-newest}
use m365_backup.Retention.{default_retention}
use m365_backup.Catalog.Recycle.Garbage.{is_referenced, gc_blobs-exact}
use m365_backup.Tests.Data.{
  exchange, open_cipher, open_cipher-IsCrypto, no_files-IsSound, no_files-NoCollision, item_1,
  store_of,
}

abbrev nonce : Text
nonce = 1 ∷ 2 ∷ []

abbrev hash_of_5 : Text
hash_of_5 = open_cipher.sha256_hex (codes "Hello")

abbrev hello_file : File
hello_file = record { name = hash_of_5; raw = nonce ++ codes "Hello" }

get-put_example :
    (Blobs.get open_cipher (hello_file ∷ []) hash_of_5 ≡ some (codes "Hello"))
    × IsSound open_cipher (hello_file ∷ [])
    × ((x : Text) → exists [] x ≡ true → read_file (hello_file ∷ []) x ≡ read_file [] x)
unfolding Blobs.put valid_hash all exists find_if write_file
get-put_example =
    get-put open_cipher [] (hello_file ∷ []) nonce (codes "Hello") hash_of_5 open_cipher-IsCrypto
      refl no_files-IsSound (no_files-NoCollision (codes "Hello")) refl

abbrev item_stored : Item
item_stored = record item_1 { blob_hash = hash_of_5; size = 5; mtime = 7 }

live_blob-put_example :
    (x : Item) × (live_blob
        (record (store_of false (item_stored ∷ [])) { blobs = hello_file ∷ [] })
        exchange
        (codes "AAMk1")
      ≡ some x)
    × (x.size ≡ 5)
    × (x.subject ≡ codes "Hello")
    × (Blobs.get open_cipher (hello_file ∷ []) x.blob_hash ≡ some (codes "Hello"))
    × IsSound open_cipher (hello_file ∷ [])
unfolding put Blobs.put valid_hash all exists find_if note_pending upsert_item write_file rematch_id
    get_item import_aliases same
live_blob-put_example =
    live_blob-put open_cipher (store_of false [])
      (record (store_of false (item_stored ∷ [])) { blobs = hello_file ∷ [] }) item_1 nonce
      (codes "Hello") 7 open_cipher-IsCrypto refl no_files-IsSound
      (no_files-NoCollision (codes "Hello")) refl

abbrev item_2 : Item
item_2 = record item_stored { graph_item_id = codes "AAMk2" }

-- The run has seen the first of two items.
abbrev reconciling : Store
reconciling = record (store_of true (item_stored ∷ item_2 ∷ [])) {
  seen = λ s. some (codes "AAMk1" ∷ []);
}

finish_reconcile_lem_example :
    (s' : Store) × (n : ℕ) × (finish_reconcile open_cipher reconciling exchange ≡ some (s', n))
    × ((i : Text)
        → contains (codes "AAMk1" ∷ []) i ≡ true
        → get_item s'.items exchange i ≡ get_item reconciling.items exchange i)
    × ((i : Text) → contains (codes "AAMk1" ∷ []) i ≡ false → IsGone (get_item s'.items exchange i))
    × ((t i : Text)
        → same t exchange ≡ false
        → get_item s'.items t i ≡ get_item reconciling.items t i)
unfolding any
finish_reconcile_lem_example =
    finish_reconcile_lem open_cipher reconciling exchange (codes "AAMk1" ∷ []) refl refl refl

abbrev upload_1 : Upload
upload_1 = record { item = item_1; plain = codes "Hello"; nonce = nonce; now = 7 }

full_pull_deletes_all_example :
    (s' : Store) × (n : ℕ) × (pull open_cipher
        (store_of false (item_2 ∷ []))
        exchange
        (upload_1 ∷ [])
      ≡ some (s', n))
    × ((id : Text) → IsGone (get_item s'.items exchange id))
unfolding put_each any put_or_warn put Blobs.put valid_hash all exists find_if start_reconcile
    note_pending upsert_item rematch_id get_item same import_aliases
full_pull_deletes_all_example =
    full_pull_deletes_all open_cipher (store_of false (item_2 ∷ [])) exchange (upload_1 ∷ []) refl
      refl refl

abbrev snapshot_1 : Snapshot
snapshot_1 = record {
  id = codes "s1";
  service = exchange;
  generation = 4;
  job_id = codes "j0";
  created_at = 3;
  items_live = 1;
  bytes_live = 5;
  skipped = false;
}

abbrev catalog : Store
catalog = record (store_of true (item_stored ∷ [])) { snapshots = snapshot_1 ∷ [] }

-- A full job, over the items of the catalog.
abbrev full_catalog : Store
full_catalog = record catalog { track_changes = false }

commit_snapshot-new_example :
    (s' : Store) × (sn : Snapshot) × (m : Manifest) × (commit_snapshot full_catalog exchange
        (codes "j1")
        (codes "s2")
        9
      ≡ some (s', some sn))
    × ((sn.items_live, sn.bytes_live) ≡ live_stats full_catalog.items exchange)
    × (any (has_generation exchange sn.generation) full_catalog.snapshots ≡ false)
    × (s'.snapshots ≡ full_catalog.snapshots ++ sn ∷ [])
    × UniqueGenerations s'.snapshots
    × (read_manifest s'.manifests exchange sn.generation ≡ some m)
    × (m.items ≡ manifest_entries full_catalog.items exchange)
    × (length m.items ≡ sn.items_live)
    × ((x : Text) (g : ℕ)
        → manifest_at x g m ≡ false
        → read_manifest s'.manifests x g ≡ read_manifest full_catalog.manifests x g)
    × (s'.changes
        ≡ full_catalog.changes
          ++ change_rows sn.generation (keep_if (of_service exchange) full_catalog.pending))
    × (s'.pending ≡ keep_if (λ ch. not (of_service exchange ch)) full_catalog.pending)
unfolding any
commit_snapshot-new_example =
    commit_snapshot-new full_catalog exchange (codes "j1") (codes "s2") 9 refl refl (refl, tt)

abbrev orphan : Store
orphan = record (store_of true []) { blobs = hello_file ∷ [] }

gc_blobs-exact_example : read_file (gc_blobs orphan).blobs hash_of_5 ≡ (
    if valid_hash hash_of_5 && not (is_referenced orphan hash_of_5)
    then none
    else read_file (hello_file ∷ []) hash_of_5)
gc_blobs-exact_example = gc_blobs-exact orphan hash_of_5

abbrev snapshot_2 : Snapshot
snapshot_2 = record snapshot_1 { id = codes "s2"; generation = 5; created_at = 8 }

abbrev two_generations : Store
two_generations = record catalog { snapshots = snapshot_1 ∷ snapshot_2 ∷ [] }

apply_smart_retention-newest_example :
    any (id_is (codes "s2")) (apply_smart_retention two_generations default_retention 9).0.snapshots
    ≡ true
unfolding any same keep_if newest_first insert_newest
apply_smart_retention-newest_example =
    apply_smart_retention-newest two_generations default_retention 9 exchange snapshot_2
      (snapshot_1 ∷ []) (refl, (refl, tt)) refl
