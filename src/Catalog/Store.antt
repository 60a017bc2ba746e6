-- ===== src/Catalog/Store.antt =====
-- internal/catalog/store.go: the operations of the catalog on items.
pub mod Frame
pub mod Reconcile
pub mod FullPull
use m365_backup.Base.{
  ℕ, Bool, true, false, not, ◌&&◌, ◌||◌, Option, none, some, List, [], ◌∷◌, ◌++◌, map, Text,
  is_empty, same, any, contains, length, keep_if, if◌then◌else◌,
}
use m365_backup.Clock.{Time, is_zero}
use m365_backup.Blobs
use m365_backup.Blobs.{Crypto, File}
use m365_backup.Catalog.Item.{
  Item, Op, upsert, delete, PendingChange, Snapshot, Manifest, import_aliases, rel_path,
}
use m365_backup.Catalog.Rows.{has_key, is_live, get_item, upsert_item, mark_deleted, rename_item}
use m365_backup.Paths.{trim}
use m365_backup.Base.{starts_with}

-- A row of catalog_changes.
pub record Change : Type 0 where
  pub generation : ℕ
  pub op : Op
  pub item : Item

pub record Store : Type 0 where
  pub items : List Item
  pub changes : List Change
  pub snapshots : List Snapshot
  pub manifests : List Manifest
  pub blobs : List File
  pub pending : List PendingChange
  pub seen : Text → Option (List Text)
  pub skip_rematch : Bool
  pub track_changes : Bool

-- pendingKey.
unfoldable pub pending_key : Text → Text → Text
pending_key service id = service ++ 0 ∷ id

abbrev pub key_of : PendingChange → Text
key_of ch = pending_key ch.item.service ch.item.graph_item_id

-- An assignment to `s.pending[key]`.
unfoldable pub set_pending : List PendingChange → PendingChange → List PendingChange
set_pending [] ch = ch ∷ []
set_pending (p ∷ ps) ch = if same (key_of p) (key_of ch) then ch ∷ ps else p ∷ set_pending ps ch

-- An assignment to `s.seen[service]`.
unfoldable pub set_seen : (Text → Option (List Text)) → Text → List Text → Text → Option (List Text)
set_seen seen service ids s = if same service s then some ids else seen s

abbrev is_upsert : Op → Bool
is_upsert upsert = true
is_upsert delete = false

-- `if s.seen[service] != nil && op == OpUpsert { s.seen[service][id] = … }`
unfoldable pub note_seen : (Text → Option (List Text)) → Op → Item → Text → Option (List Text)
unfolding set_seen
note_seen seen op it = elim (seen it.service) [
  | none ↦ seen
  | some ids ↦ if is_upsert op then set_seen seen it.service (it.graph_item_id ∷ ids) else seen
]

-- notePending.
unfoldable pub note_pending : Store → Op → Item → Store
note_pending s op it = if not s.track_changes then s else record s {
  pending = set_pending s.pending (record { op = op; item = it });
  seen = note_seen s.seen op it;
}

-- StartReconcile.
unfoldable pub start_reconcile : Store → Text → Store
unfolding set_seen
start_reconcile s service = record s { seen = set_seen s.seen service [] }

-- MarkSeen.
unfoldable pub mark_seen : Store → Text → Text → Store
unfolding set_seen
mark_seen s service id = elim (s.seen service) [
  | none ↦ record s { seen = set_seen s.seen service (id ∷ []) }
  | some ids ↦ record s { seen = set_seen s.seen service (id ∷ ids) }
]

abbrev or_old : Text → Text → Text
or_old [] old = old
or_old (c ∷ t) old = c ∷ t

-- The loop of rematchID over the aliases of an item whose ID has no row: the first row found
-- takes the item's ID, and gives it the names that it lacks.
unfoldable pub rematch_loop : List Text → List Item → Item → List Item × Item
rematch_loop [] rows it = (rows, it)
rematch_loop (alt ∷ alts) rows it = elim (get_item rows it.service alt) [
  | none ↦ rematch_loop alts rows it
  | some old ↦ (
    rename_item rows it.service alt it.graph_item_id,
    record it {
      mailbox = or_old it.mailbox old.mailbox;
      parent_path = or_old it.parent_path old.parent_path;
      name = or_old it.name old.name;
    },
  )
]

-- rematchID. No row has the item's ID where an alias is renamed to it, so the rename never meets
-- the unique key.
unfoldable pub rematch_id : Crypto → Store → Item → List Item × Item
unfolding rematch_loop
rematch_id c s it =
    if s.skip_rematch then (s.items, it) else elim (get_item s.items it.service it.graph_item_id) [
      | some old ↦ (s.items, it)
      | none ↦
          rematch_loop
            (import_aliases c.sha256_hex it.service it.graph_item_id it.mailbox it.parent_path
              it.name)
            s.items it
    ]

-- The item that Put stores.
unfoldable pub stored : Item → Text → Text → Time → Item
stored it hash plain now = record it {
  blob_hash = hash;
  size = length plain;
  deleted = false;
  mtime = if is_zero it.mtime then now else it.mtime;
}

-- Put; `none` is an error.
unfoldable pub put : Crypto → Store → Item → Text → Text → Time → Option Store
unfolding stored
put c s it nonce plain now =
    if is_empty it.service || is_empty it.graph_item_id
    then none
    else elim (Blobs.put c s.blobs nonce plain) [
      | none ↦ none
      | some (hash, blobs) ↦
          let (rows, it') = rematch_id c s (stored it hash plain now) in
          some (note_pending (record s { blobs = blobs; items = upsert_item rows it' }) upsert it')
    ]

-- LiveBlob.
unfoldable pub live_blob : Store → Text → Text → Option Item
live_blob s service id = elim (get_item s.items service id) [
  | none ↦ none
  | some it ↦ if it.deleted || is_empty it.blob_hash then none else some it
]

-- Keep; `none` is an error.
unfoldable pub keep : Store → Item → Option Store
keep s it =
    if is_empty it.service || is_empty it.graph_item_id || is_empty it.blob_hash
    then none
    else some (
        note_pending (record s { items = upsert_item s.items it }) upsert
          (record it { deleted = false }))

abbrev pub tombstone : Text → Text → Item
tombstone service id = record {
  service = service;
  graph_item_id = id;
  mailbox = [];
  parent_path = [];
  name = [];
  blob_hash = [];
  size = 0;
  mtime = 0;
  content_type = [];
  subject = [];
  from_addr = [];
  deleted = true;
}

abbrev existing_or : Option Item → Item → Item
existing_or none it = it
existing_or (some r) it = record r { deleted = true }

-- Delete, once the service and the ID are known not to be empty.
unfoldable pub delete_item : Crypto → Store → Text → Text → Store
delete_item c s service id =
    let (rows, it) = rematch_id c s (tombstone service id) in
    note_pending (record s { items = mark_deleted rows service it.graph_item_id }) delete
      (existing_or (get_item rows service it.graph_item_id) it)

-- Delete; `none` is an error.
unfoldable pub delete_key : Crypto → Store → Text → Text → Option Store
delete_key c s service id =
    if is_empty service || is_empty id then none else some (delete_item c s service id)

-- A loop of calls of Delete, which ends at the first error.
unfoldable pub delete_all : Crypto → Store → Text → List Text → Option Store
unfolding delete_key
delete_all c s service [] = some s
delete_all c s service (id ∷ ids) = elim (delete_key c s service id) [
  | none ↦ none
  | some s' ↦ delete_all c s' service ids
]

abbrev pub graph_id : Item → Text
graph_id it = it.graph_item_id

-- Whether DeletePrefix takes an item: its path is the folder or lies in it.
unfoldable pub under_prefix : Text → Text → Item → Bool
under_prefix mailbox rel it =
    let folder = mailbox ++ b'/' ∷ rel in
    is_empty rel || same (rel_path it) folder || starts_with (rel_path it) (folder ++ b'/' ∷ [])

-- DeletePrefix, on Unix, where filepath.ToSlash changes nothing.
unfoldable pub delete_prefix : Crypto → Store → Text → Text → Text → Option Store
delete_prefix c s service mailbox folder = delete_all c s service (
    map graph_id (
      keep_if
        (λ it.
          is_live service it && same it.mailbox mailbox && under_prefix mailbox (trim folder) it)
        s.items))

-- The IDs of the live items that the run has not seen.
unfoldable pub unseen : List Item → Text → List Text → List Text
unseen items service ids =
    map graph_id (keep_if (λ it. is_live service it && not (contains ids it.graph_item_id)) items)

-- FinishReconcile; `none` is an error. It gives the number of items marked deleted.
unfoldable pub finish_reconcile : Crypto → Store → Text → Option (Store × ℕ)
finish_reconcile c s service = elim (s.seen service) [
  | none ↦ some (s, 0)
  | some ids ↦
      let gone = unseen s.items service ids in
      elim (delete_all c s service gone) [ none ↦ none | some s' ↦ some (s', length gone) ]
]
