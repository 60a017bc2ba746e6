-- ===== src/Catalog/Store/Frame.antt =====
-- internal/catalog/store.go: Put, Keep, Delete and LiveBlob against each other.
use m365_backup.Base.{
  ◌≡◌, refl, ap, ◌∙◌, ◌⊎◌, inl, inr, true, false, none, some, List, [], ◌∷◌, Text, arith, same_refl,
  is_empty, length, Bool-cases, Option-cases,
}
use m365_backup.Clock.{Time}
use m365_backup.Blobs
use m365_backup.Blobs.{Crypto, File, valid_hash}
use m365_backup.Blobs.RoundTrip.{IsCrypto, IsSound, NoCollision, get-put, put-hash}
use m365_backup.Catalog.Item.{Item, Op, upsert, import_aliases}
use m365_backup.Catalog.Rows.{get_item, upsert_item}
use m365_backup.Catalog.Rows.Laws.{get-upsert, live_copy}
use m365_backup.Catalog.Store.{
  Store, note_pending, rematch_loop, rematch_id, stored, put, live_blob,
}

-- notePending touches the pending changes and the seen IDs only.
pub note_pending-rest :
    (s : Store) (op : Op) (it : Item)
    → ((note_pending s op it).items ≡ s.items)
      × ((note_pending s op it).blobs ≡ s.blobs)
      × ((note_pending s op it).track_changes ≡ s.track_changes)
      × ((note_pending s op it).skip_rematch ≡ s.skip_rematch)
unfolding note_pending
note_pending-rest s op it = ground arith

-- What rematchID leaves of an item: all but the names that it fills in.
pub record SameContent (a b : Item) : Type 0 where
  pub service : a.service ≡ b.service
  pub id : a.graph_item_id ≡ b.graph_item_id
  pub hash : a.blob_hash ≡ b.blob_hash
  pub size : a.size ≡ b.size
  pub subject : a.subject ≡ b.subject
  pub deleted : a.deleted ≡ b.deleted

SameContent-refl : (a : Item) → SameContent a a
SameContent-refl a = ground arith

rematch_loop-content :
    (alts : List Text) (rows : List Item) (it : Item) → SameContent (rematch_loop alts rows it).1 it
unfolding rematch_loop
rematch_loop-content [] rows it = SameContent-refl it
rematch_loop-content (alt ∷ alts) rows it = elim (Option-cases (get_item rows it.service alt)) [
  | inl n ↦ rw (n, rematch_loop) (rematch_loop-content alts rows it)
  | inr (old, o) ↦
      rw (o, rematch_loop)
        (record {
          service = refl;
          id = refl;
          hash = refl;
          size = refl;
          subject = refl;
          deleted = refl;
        })
]

pub rematch_id-cases :
    (c : Crypto) (s : Store) (it : Item)
    → (rematch_id c s it ≡ (s.items, it))
      ⊎ ((get_item s.items it.service it.graph_item_id ≡ none)
          × (rematch_id c s it
              ≡ rematch_loop
                  (import_aliases c.sha256_hex it.service it.graph_item_id it.mailbox it.parent_path
                    it.name)
                  s.items
                  it))
unfolding rematch_id
rematch_id-cases c s it = elim (Option-cases (get_item s.items it.service it.graph_item_id)) [
  | inr (old, o) ↦ inl (ground arith)
  | inl n ↦ elim (Bool-cases s.skip_rematch) [
    | inl k ↦ inl (ground arith)
    | inr k ↦ inr (n, ground arith)
  ]
]

pub rematch_id-content : (c : Crypto) (s : Store) (it : Item) → SameContent (rematch_id c s it).1 it
rematch_id-content c s it = elim (rematch_id-cases c s it) [
  | inl e ↦ rw e (SameContent-refl it)
  | inr (n, e) ↦ rw e (
      rematch_loop-content
        (import_aliases c.sha256_hex it.service it.graph_item_id it.mailbox it.parent_path it.name)
        s.items it)
]

-- An item whose ID has a row is not matched anew.
pub rematch_id-present :
    (c : Crypto) (s : Store) (it old : Item)
    → get_item s.items it.service it.graph_item_id ≡ some old
    → rematch_id c s it ≡ (s.items, it)
rematch_id-present c s it old h = elim (rematch_id-cases c s it) [
  | inl e ↦ e
  | inr (n, e) ↦ absurd (ground arith)
]

pub live_blob-row :
    (s : Store) (service id : Text) (it : Item)
    → get_item s.items service id ≡ some it
    → it.deleted ≡ false
    → is_empty it.blob_hash ≡ false
    → live_blob s service id ≡ some it
unfolding live_blob
live_blob-row s service id it r d h = ground arith

pub valid-nonempty : (h : Text) → valid_hash h ≡ true → is_empty h ≡ false
unfolding valid_hash
valid-nonempty [] h = absurd (ground arith)
valid-nonempty (c ∷ s) h = refl

-- The rows and the blobs after a Put that succeeds, over the item that it stored.
put-parts :
    (c : Crypto) (s s' : Store) (it : Item) (nonce plain : Text) (now : Time)
    → IsCrypto c
    → put c s it nonce plain now ≡ some s'
    → (blobs : List File) × (Blobs.put c s.blobs nonce plain ≡ some (c.sha256_hex plain, blobs))
      × (s'.blobs ≡ blobs)
      × (s'.items
          ≡ upsert_item
              (rematch_id c s (stored it (c.sha256_hex plain) plain now)).0
              (rematch_id c s (stored it (c.sha256_hex plain) plain now)).1)
unfolding put
put-parts c s s' it nonce plain now k h = elim (Option-cases (Blobs.put c s.blobs nonce plain)) [
  | inl n ↦ absurd (ground arith)
  | inr ((hash, blobs), b) ↦
      let is_hash : hash ≡ c.sha256_hex plain = put-hash c s.blobs blobs nonce plain hash b in
      let b' : Blobs.put c s.blobs nonce plain ≡ some (c.sha256_hex plain, blobs) =
        rw (← is_hash) b in
      let r = rematch_id c s (stored it (c.sha256_hex plain) plain now) in
      let s1 : Store = record s { blobs = blobs; items = upsert_item r.0 r.1 } in
      let (items, files, track, skip) = note_pending-rest s1 upsert r.1 in
      (blobs, b', ground (arith, files), ground (arith, items))
]

-- After a successful Put of an item, with a nonce of the cipher's size, into a store with sound
-- blobs and no collision, LiveBlob finds the item under its service and ID, with the length of the
-- data, and the blob of its hash is the data: nothing is lost between catalog and blobs, whether
-- the item was new, known, deleted before or imported under an alias. The blobs stay sound.
pub live_blob-put :
    (c : Crypto) (s s' : Store) (it : Item) (nonce plain : Text) (now : Time)
    → IsCrypto c
    → length nonce ≡ c.nonce_size
    → IsSound c s.blobs
    → NoCollision c s.blobs plain
    → put c s it nonce plain now ≡ some s'
    → (x : Item) × (live_blob s' it.service it.graph_item_id ≡ some x)
      × (x.size ≡ length plain)
      × (x.subject ≡ it.subject)
      × (Blobs.get c s'.blobs x.blob_hash ≡ some plain)
      × IsSound c s'.blobs
unfolding stored
live_blob-put c s s' it nonce plain now k n sound unique h =
    let hash = c.sha256_hex plain in
    let (blobs, b, files, rows) = put-parts c s s' it nonce plain now k h in
    let it1 = stored it hash plain now in
    let r = rematch_id c s it1 in
    let same_as = rematch_id-content c s it1 in
    let (back, still, rest) = get-put c s.blobs blobs nonce plain hash k n sound unique b in
    let row : get_item s'.items it.service it.graph_item_id ≡ some (live_copy r.1) =
      ap (λ (l : List Item). get_item l it.service it.graph_item_id) rows
      ∙ get-upsert r.0 r.1 it.service it.graph_item_id
      ∙ rw (same_as.service, same_as.id, same_refl it.service, same_refl it.graph_item_id) refl in
    (
      live_copy r.1,
      live_blob-row s' it.service it.graph_item_id (live_copy r.1) row refl
          (rw same_as.hash (valid-nonempty hash (k.hex plain))),
      same_as.size,
      same_as.subject,
      rw (same_as.hash, files) back,
      rw files still,
    )

-- What a Put that succeeds does to the rest of the state: it notes the item that it stored.
pub put-state :
    (c : Crypto) (s s' : Store) (it : Item) (nonce plain : Text) (now : Time)
    → put c s it nonce plain now ≡ some s'
    → (blobs : List File) × (rows : List Item) × (it' : Item) × (s'
        ≡ note_pending (record s { blobs = blobs; items = rows }) upsert it')
      × (it'.service ≡ it.service)
      × (it'.graph_item_id ≡ it.graph_item_id)
unfolding put stored
put-state c s s' it nonce plain now h = elim (Option-cases (Blobs.put c s.blobs nonce plain)) [
  | inl n ↦ absurd (ground arith)
  | inr ((hash, blobs), b) ↦
      let it1 = stored it hash plain now in
      let r = rematch_id c s it1 in
      let same_as = rematch_id-content c s it1 in
      (blobs, upsert_item r.0 r.1, r.1, ground arith, same_as.service, same_as.id)
]
