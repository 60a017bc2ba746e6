-- ===== src/Catalog/Item.antt =====
-- internal/catalog/types.go, and the IDs of imported items in store.go.
use m365_backup.Base.{
  ℕ, Bool, not, ◌&&◌, ◌||◌, List, [], ◌∷◌, ◌++◌, Text, codes, is_empty, same, take, if◌then◌else◌,
}
use m365_backup.Clock.{Time}
use m365_backup.Paths.{split, trim, join}
use m365_backup.Base.{starts_with}

pub record Item : Type 0 where
  pub service : Text
  pub graph_item_id : Text
  pub mailbox : Text
  pub parent_path : Text
  pub name : Text
  pub blob_hash : Text
  pub size : ℕ
  pub mtime : Time
  pub content_type : Text
  pub subject : Text
  pub from_addr : Text
  pub deleted : Bool

-- RelPath.
unfoldable pub rel_path : Item → Text
unfolding split trim join
rel_path it =
    let mailbox = if is_empty it.mailbox then [] else it.mailbox ∷ [] in
    let parent = if is_empty it.parent_path then [] else split (trim it.parent_path) in
    let name = if is_empty it.name then [] else it.name ∷ [] in join (mailbox ++ parent ++ name)

pub data Op : Type 0 where
  upsert delete : Op

pub record PendingChange : Type 0 where
  pub op : Op
  pub item : Item

pub record Snapshot : Type 0 where
  pub id : Text
  pub service : Text
  pub generation : ℕ
  pub job_id : Text
  pub created_at : Time
  pub items_live : ℕ
  pub bytes_live : ℕ
  pub skipped : Bool

pub record ManifestEntry : Type 0 where
  pub path : Text
  pub hash : Text
  pub size : ℕ

pub record Manifest : Type 0 where
  pub service : Text
  pub generation : ℕ
  pub created_at : Time
  pub items : List ManifestEntry

abbrev pub import_eml_prefix : Text
import_eml_prefix = codes "eml:"

abbrev pub import_path_prefix : Text
import_path_prefix = codes "path:"

-- importAliases, over the hexadecimal SHA-256 of a text.
unfoldable pub import_aliases : (Text → Text) → Text → Text → Text → Text → Text → List Text
unfolding starts_with trim
import_aliases sha256_hex service graph_id mailbox parent name =
    if starts_with graph_id import_eml_prefix || starts_with graph_id import_path_prefix
    then []
    else let eml =
        if same service (codes "exchange")
        then (import_eml_prefix ++ take 10 (sha256_hex graph_id)) ∷ []
        else [] in
      let rel = trim (parent ++ b'/' ∷ name) in
      let path =
        if not (is_empty mailbox) && not (is_empty rel)
        then (import_path_prefix ++ mailbox ++ b'/' ∷ rel) ∷ []
        else if not (is_empty mailbox) && not (is_empty name)
        then (import_path_prefix ++ mailbox ++ b'/' ∷ name) ∷ []
        else [] in
      eml ++ path
