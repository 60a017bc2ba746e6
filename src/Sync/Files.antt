-- ===== src/Sync/Files.antt =====
-- internal/backup/onedrive.go and reuse.go: what a file of the answer does to the catalog.
use m365_backup.Base.{
  ◌≡◌, refl, ◌⊎◌, inl, inr, Bool, true, false, ◌&&◌, none, some, [], Text, arith, is_empty,
  Bool-cases, Option-cases,
}
use m365_backup.Blobs.{Crypto}
use m365_backup.Catalog.Item.{Item}
use m365_backup.Catalog.Store.{live_blob}
use m365_backup.Sync.Fetch.{get_bytes}
use m365_backup.Sync.Names.{parent_dir, base_name}
use m365_backup.Sync.Reuse.{skip_content_download}
use m365_backup.Sync.Pages.{Progress, warn}
use m365_backup.Sync.Drive.{DriveEntry, onedrive, count, has_size, file_item, download, sync_file}
use m365_backup.Sync.Content.{Ready, Holds, Same, put-works, put-Holds, reuse-Same, live_blob-parts}

-- The catalog holds the file, with the size that the answer reports.
pub record Known (p : Progress) (e : DriveEntry) (it : Item) : Type 0 where
  pub live : live_blob p.cat onedrive e.id ≡ some it
  pub size : e.size ≡ some it.size

-- The test of the code.
abbrev known : Progress → DriveEntry → Bool
known p e = has_size e.size && skip_content_download (live_blob p.cat onedrive e.id) e.size

known-Known : (p : Progress) (e : DriveEntry) → known p e ≡ true → (it : Item) × Known p e it
unfolding skip_content_download
known-Known p e h = elim (Option-cases e.size) [
  | inl n ↦ absurd (ground arith)
  | inr (size, n) ↦ elim (Option-cases (live_blob p.cat onedrive e.id)) [
    | inl l ↦ absurd (ground arith)
    | inr (it, l) ↦
        let alike : it.size ≡ size = ground arith in (it, record { live = l; size = rw alike n })
  ]
]

Known-known : (p : Progress) (e : DriveEntry) (it : Item) → Known p e it → known p e ≡ true
unfolding skip_content_download
Known-known p e it k =
    let (hash, key) = live_blob-parts p.cat onedrive e.id it k.live in
    rw (k.live, k.size, hash) (ground arith)

sync_file-Known :
    (c : Crypto) (mailbox rel : Text) (e : DriveEntry) (p : Progress) (it : Item)
    → Known p e it
    → Same (sync_file c mailbox e rel p).cat onedrive e.id it p.cat
unfolding sync_file skip_content_download
sync_file-Known c mailbox rel e p it k =
    let (hash, key) = live_blob-parts p.cat onedrive e.id it k.live in
    rw (sync_file, k.live, k.size, hash)
      (ground
        (arith, reuse-Same mailbox (parent_dir rel) (base_name rel) [] it p onedrive e.id k.live))

sync_file-other :
    (c : Crypto) (mailbox rel : Text) (e : DriveEntry) (p : Progress)
    → known p e ≡ false
    → sync_file c mailbox e rel p ≡ download c mailbox e rel p
unfolding sync_file
sync_file-other c mailbox rel e p h = rw (sync_file, h) refl

sync_file-failed :
    (c : Crypto) (mailbox rel : Text) (e : DriveEntry) (p : Progress)
    → known p e ≡ false
    → (get_bytes e.tries).0 ≡ none
    → sync_file c mailbox e rel p ≡ warn p
unfolding download
sync_file-failed c mailbox rel e p h n = rw (sync_file-other c mailbox rel e p h, download, n) refl

sync_file-Holds :
    (c : Crypto) (mailbox rel : Text) (e : DriveEntry) (p : Progress) (content : Text)
    → is_empty e.id ≡ false
    → known p e ≡ false
    → (get_bytes e.tries).0 ≡ some content
    → Ready c p.cat e.nonce content
    → Holds c (sync_file c mailbox e rel p).cat onedrive e.id content
unfolding download
sync_file-Holds c mailbox rel e p content full h got ready =
    let it = file_item mailbox e rel in
    let (s', stored) = put-works c p.cat it e.nonce content e.now ready.crypto refl full in
    rw (sync_file-other c mailbox rel e p h, download, got, stored, count)
      (put-Holds c p.cat s' it e.nonce content e.now ready stored)

-- A file with an ID that the catalog holds with the reported size keeps its content and the blobs,
-- whatever its download would give. Any other file, one that the catalog does not hold, one that it
-- holds in another size, or one whose size is not reported, is downloaded: a failure leaves the
-- catalog as it is, with one warning more, and a content is what the catalog then holds under the
-- file's ID, if the nonce has the cipher's size, the blobs are sound and no digest collides.
pub sync_file-cases :
    (c : Crypto) (mailbox rel : Text) (e : DriveEntry) (p : Progress)
    → is_empty e.id ≡ false
    → ((it : Item) × Known p e it × Same (sync_file c mailbox e rel p).cat onedrive e.id it p.cat)
      ⊎ ((¬ ((it : Item) × Known p e it))
          × ((get_bytes e.tries).0 ≡ none)
          × (sync_file c mailbox e rel p ≡ warn p))
      ⊎ ((content : Text) × (¬ ((it : Item) × Known p e it))
          × ((get_bytes e.tries).0 ≡ some content)
          × (Ready c p.cat e.nonce content
              → Holds c (sync_file c mailbox e rel p).cat onedrive e.id content))
sync_file-cases c mailbox rel e p full = elim (Bool-cases (known p e)) [
  | inl k ↦
      let (it, its) = known-Known p e k in inl (it, its, sync_file-Known c mailbox rel e p it its)
  | inr k ↦ inr (elim (Option-cases ((get_bytes e.tries).0)) [
    | inl n ↦ inl (other k, n, sync_file-failed c mailbox rel e p k n)
    | inr (content, n) ↦
        inr (content, other k, n, sync_file-Holds c mailbox rel e p content full k n)
  ])
]
  where
    other : known p e ≡ false → ¬ ((it : Item) × Known p e it)
    other k (it, its) = absurd (ground (arith, Known-known p e it its))
