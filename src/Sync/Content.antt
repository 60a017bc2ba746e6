-- ===== src/Sync/Content.antt =====
-- internal/backup/reuse.go: the content that the catalog holds of an item, after a Put and after a
-- reuse.
use m365_backup.Base.{
  ◌≡◌, refl, ◌∙◌, ap, true, false, Option, none, some, List, Text, arith, is_empty, length,
  find_if_holds, Bool-cases, Option-cases, inl, inr,
}
use m365_backup.Clock.{Time}
use m365_backup.Blobs
use m365_backup.Blobs.{Crypto, File}
use m365_backup.Blobs.RoundTrip.{IsCrypto, IsSound, NoCollision}
use m365_backup.Catalog.Item.{Item, upsert}
use m365_backup.Catalog.Rows.{has_key, get_item, upsert_item}
use m365_backup.Catalog.Rows.Laws.{get-upsert, live_copy}
use m365_backup.Catalog.Store.{Store, put, live_blob, keep, note_pending}
use m365_backup.Catalog.Store.Frame.{live_blob-put, live_blob-row, note_pending-rest}
use m365_backup.Sync.Reuse.{catalog_meta_changed, refresh_catalog_meta}
use m365_backup.Sync.Pages.{Progress}
use m365_backup.Sync.Drive.{count, reuse}

get_item-key :
    (rows : List Item) (service id : Text) (r : Item)
    → get_item rows service id ≡ some r
    → has_key service id r ≡ true
unfolding get_item
get_item-key rows service id r n = find_if_holds (has_key service id) rows r n

-- What LiveBlob finds is a row with the key and a hash.
pub live_blob-parts :
    (s : Store) (service id : Text) (it : Item)
    → live_blob s service id ≡ some it
    → (is_empty it.blob_hash ≡ false) × (has_key service id it ≡ true)
unfolding live_blob
live_blob-parts s service id it h = elim (Option-cases (get_item s.items service id)) [
  | inl n ↦ absurd (ground arith)
  | inr (r, n) ↦
      let its : r ≡ it = ground arith in
      (ground arith, rw (← its) (get_item-key s.items service id r n))
]

-- An item with the content that LiveBlob found before, and the blobs of before.
pub record Same (s : Store) (service id : Text) (it : Item) (before : Store) : Type 0 where
  pub found : Item
  pub live : live_blob s service id ≡ some found
  pub hash : found.blob_hash ≡ it.blob_hash
  pub blobs : s.blobs ≡ before.blobs

keep-items : (s s' : Store) (it : Item) → keep s it ≡ some s' → s'.items ≡ upsert_item s.items it
unfolding keep
keep-items s s' it k =
    let kept = record s { items = upsert_item s.items it } in
    let rest = note_pending-rest kept upsert (record it { deleted = false }) in
    let its : note_pending kept upsert (record it { deleted = false }) ≡ s' = ground arith in
    rw (← its) rest.0

keep-blobs : (s s' : Store) (it : Item) → keep s it ≡ some s' → s'.blobs ≡ s.blobs
unfolding keep
keep-blobs s s' it k =
    let kept = record s { items = upsert_item s.items it } in
    let rest = note_pending-rest kept upsert (record it { deleted = false }) in
    let its : note_pending kept upsert (record it { deleted = false }) ≡ s' = ground arith in
    rw (← its) rest.1

keep-Same :
    (s s' : Store) (it it' : Item) (service id : Text)
    → live_blob s service id ≡ some it
    → it'.service ≡ it.service
    → it'.graph_item_id ≡ it.graph_item_id
    → it'.blob_hash ≡ it.blob_hash
    → keep s it' ≡ some s'
    → Same s' service id it s
keep-Same s s' it it' service id live a b e k =
    let (full, key) = live_blob-parts s service id it live in
    let row : get_item s'.items service id ≡ some (live_copy it') =
      ap (λ (l : List Item). get_item l service id) (keep-items s s' it' k)
      ∙ get-upsert s.items it' service id
      ∙ rw (a, b, key) refl in
    record {
      found = live_copy it';
      live = live_blob-row s' service id (live_copy it') row refl (rw e full);
      hash = e;
      blobs = keep-blobs s s' it' k;
    }

kept_item :
    (s : Store) (service id : Text) (it : Item)
    → live_blob s service id ≡ some it
    → Same s service id it s
kept_item s service id it live = record { found = it; live = live; hash = refl; blobs = refl }

-- The item that takes a new path keeps its content, whether or not the catalog can note the path.
pub reuse-Same :
    (mailbox parent name subject : Text) (it : Item) (p : Progress) (service id : Text)
    → live_blob p.cat service id ≡ some it
    → Same (reuse mailbox parent name subject it p).cat service id it p.cat
unfolding refresh_catalog_meta reuse
reuse-Same mailbox parent name subject it p service id live = by_answer (keep p.cat moved) refl
  where
    moved : Item
    moved = record it {
      mailbox = mailbox;
      parent_path = parent;
      name = name;
      subject = subject;
      deleted = false;
    }

    done :
        (s : Store)
        → refresh_catalog_meta p.cat it mailbox parent name subject ≡ some s
        → Same s service id it p.cat
        → Same (reuse mailbox parent name subject it p).cat service id it p.cat
    done s e same_content = rw (reuse, e, count) same_content

    failed :
        refresh_catalog_meta p.cat it mailbox parent name subject ≡ none
        → Same (reuse mailbox parent name subject it p).cat service id it p.cat
    failed e = rw (reuse, e) (kept_item p.cat service id it live)

    changed_to :
        (o : Option Store)
        → keep p.cat moved ≡ o
        → catalog_meta_changed it mailbox parent name subject ≡ true
        → Same (reuse mailbox parent name subject it p).cat service id it p.cat
    changed_to none k changed = failed (ground arith)
    changed_to (some s) k changed =
        done s (ground arith) (keep-Same p.cat s it moved service id live refl refl refl k)

    by_answer :
        (o : Option Store)
        → keep p.cat moved ≡ o
        → Same (reuse mailbox parent name subject it p).cat service id it p.cat
    by_answer o k = elim (Bool-cases (catalog_meta_changed it mailbox parent name subject)) [
      | inl changed ↦ changed_to o k changed
      | inr e ↦ done p.cat (ground arith) (kept_item p.cat service id it live)
    ]

blob_put-works :
    (c : Crypto) (s : Store) (nonce plain : Text)
    → IsCrypto c
    → (r : Text × List File) × (Blobs.put c s.blobs nonce plain ≡ some r)
unfolding Blobs.put
blob_put-works c s nonce plain k = elim (Option-cases (Blobs.put c s.blobs nonce plain)) [
  | inl n ↦ absurd (ground (arith, k.hex plain))
  | inr (r, e) ↦ (r, e)
]

-- A Put of an item with a service and an ID does not fail.
pub put-works :
    (c : Crypto) (s : Store) (it : Item) (nonce plain : Text) (now : Time)
    → IsCrypto c
    → is_empty it.service ≡ false
    → is_empty it.graph_item_id ≡ false
    → (s' : Store) × (put c s it nonce plain now ≡ some s')
unfolding put
put-works c s it nonce plain now k a b =
    let (r, e) = blob_put-works c s nonce plain k in
    elim (Option-cases (put c s it nonce plain now)) [
      | inl n ↦ absurd (ground arith)
      | inr found ↦ found
    ]

-- What the cipher and the blobs must be for a Put to be read back.
pub record Ready (c : Crypto) (s : Store) (nonce plain : Text) : Type 0 where
  pub crypto : IsCrypto c
  pub size : length nonce ≡ c.nonce_size
  pub sound : IsSound c s.blobs
  pub unique : NoCollision c s.blobs plain

-- An item of the service and ID whose content is a given text.
abbrev pub Holds : Crypto → Store → Text → Text → Text → Type 0
Holds c s service id plain =
    (x : Item) × (live_blob s service id ≡ some x) × (Blobs.get c s.blobs x.blob_hash ≡ some plain)

pub put-Holds :
    (c : Crypto) (s s' : Store) (it : Item) (nonce plain : Text) (now : Time)
    → Ready c s nonce plain
    → put c s it nonce plain now ≡ some s'
    → Holds c s' it.service it.graph_item_id plain
put-Holds c s s' it nonce plain now r h =
    let (x, live, size, subject, content, sound) =
      live_blob-put c s s' it nonce plain now r.crypto r.size r.sound r.unique h in
    (x, live, content)

pub reuse-Holds :
    (c : Crypto) (mailbox parent name subject : Text) (it : Item) (p : Progress)
    (service id plain : Text)
    → live_blob p.cat service id ≡ some it
    → Blobs.get c p.cat.blobs it.blob_hash ≡ some plain
    → Holds c (reuse mailbox parent name subject it p).cat service id plain
reuse-Holds c mailbox parent name subject it p service id plain live content =
    let same_content = reuse-Same mailbox parent name subject it p service id live in
    (same_content.found, same_content.live, rw (same_content.hash, same_content.blobs) content)
