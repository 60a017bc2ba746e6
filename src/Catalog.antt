-- ===== src/Catalog.antt =====
-- internal/catalog: the item catalog of one tenant. The tables are the tenant's rows of
-- catalog_items (keyed by service and Graph ID), catalog_changes and catalog_snapshots; the
-- manifests are the files under manifests/, already decrypted, and `blobs` the names and contents
-- of the files under blobs/. Failures of the database and of the disk are not modelled, and the
-- orders of the Go maps are those of the lists. SHA-256 is a parameter.
pub mod Item
pub mod Rows
pub mod Store
pub mod Commit
pub mod Recycle
pub mod Restore
pub mod Import
pub mod Browse
pub mod Overview
