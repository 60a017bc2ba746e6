-- ===== src/Sync/Reuse.antt =====
-- internal/backup/reuse.go: contents that need no second download.
use m365_backup.Base.{
  ℕ, Bool, false, not, ◌&&◌, ◌||◌, Option, none, some, Text, is_empty, same, ◌==◌, if◌then◌else◌,
}
use m365_backup.Catalog.Item.{Item}
use m365_backup.Catalog.Store.{Store, keep}

-- skipContentDownload.
unfoldable pub skip_content_download : Option Item → Option ℕ → Bool
skip_content_download none known = false
skip_content_download (some it) none = not (is_empty it.blob_hash)
skip_content_download (some it) (some size) = not (is_empty it.blob_hash) && it.size == size

-- catalogMetaChanged.
unfoldable pub catalog_meta_changed : Item → Text → Text → Text → Text → Bool
catalog_meta_changed it mailbox parent name subject =
    it.deleted
    || not (same it.mailbox mailbox)
    || not (same it.parent_path parent)
    || not (same it.name name)
    || not (same it.subject subject)

-- refreshCatalogMeta; `none` is an error.
unfoldable pub refresh_catalog_meta : Store → Item → Text → Text → Text → Text → Option Store
unfolding catalog_meta_changed
refresh_catalog_meta s it mailbox parent name subject =
    if not (catalog_meta_changed it mailbox parent name subject)
    then some s
    else keep s (record it {
      mailbox = mailbox;
      parent_path = parent;
      name = name;
      subject = subject;
      deleted = false;
    })
