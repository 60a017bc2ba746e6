-- ===== src/Catalog/Browse/Files.antt =====
-- internal/catalog/browse.go: search, and opening a file.
use m365_backup.Base.{
  ℕ, zero, suc, Bool, false, ◌||◌, Option, none, some, List, [], ◌∷◌, ◌++◌, map, Text, codes,
  is_empty, same, trim_space, lower, find_if, contains_text, ◌==◌, if◌then◌else◌,
}
use m365_backup.Blobs
use m365_backup.Blobs.{Crypto}
use m365_backup.Catalog.Item.{Item, ManifestEntry, rel_path}
use m365_backup.Catalog.Store.{Store}
use m365_backup.Catalog.Commit.{read_manifest}
use m365_backup.Catalog.Import.{subject_from_eml_filename}
use m365_backup.Catalog.Restore.{list_live_items, get_snapshot}
use m365_backup.Catalog.Browse.{
  BrowseEntry, eml, normalize_rel, enrich_from_name, item_entry, path_base, sort_entries,
  browse_live, browse_generation,
}

-- browseMatches.
unfoldable pub browse_matches : BrowseEntry → Text → Bool
unfolding contains_text
browse_matches be q =
    contains_text (lower be.path) q
    || contains_text (lower be.name) q
    || contains_text (lower be.subject) q
    || contains_text (lower be.sender) q

-- The loop of a search, with the number of entries that it may still find.
unfoldable pub search_loop : ℕ → Text → List BrowseEntry → List BrowseEntry
unfolding browse_matches
search_loop left q [] = []
search_loop left q (be ∷ bes) =
    let skipped = search_loop left q bes in
    elim left [
      | zero ↦ []
      | suc n ↦ if browse_matches be q then be ∷ search_loop n q bes else skipped
    ]

abbrev limit_of : ℕ → ℕ
limit_of limit = if limit == 0 then 500 else limit

-- SearchLive; a negative limit counts as 0.
unfoldable pub search_live : Store → Text → Text → ℕ → List BrowseEntry
unfolding browse_live list_live_items item_entry search_loop sort_entries
search_live s service query limit =
    let q = lower (trim_space query) in
    if is_empty q
    then browse_live s service []
    else sort_entries
        (search_loop (limit_of limit) q (map item_entry (list_live_items s.items service [] [])))

abbrev manifest_entry : ManifestEntry → BrowseEntry
manifest_entry e = enrich_from_name (path_base e.path) (record {
  name = path_base e.path;
  path = e.path;
  is_dir = false;
  size = e.size;
  subject = [];
  sender = [];
  received_at = 0;
})

-- SearchGeneration.
unfoldable pub search_generation : Store → Text → ℕ → Text → ℕ → Option (List BrowseEntry)
unfolding browse_generation read_manifest search_loop sort_entries enrich_from_name path_base
search_generation s service gen query limit =
    let q = lower (trim_space query) in
    elim (read_manifest s.manifests service gen) [
      | none ↦ none
      | some m ↦
          if is_empty q
          then browse_generation s service gen []
          else some (sort_entries (search_loop (limit_of limit) q (map manifest_entry m.items)))
    ]

-- GetItemByPath.
unfoldable pub get_item_by_path : Store → Text → Text → Option Item
unfolding list_live_items normalize_rel rel_path same
get_item_by_path s service rel =
    find_if (λ it. same (rel_path it) (normalize_rel rel)) (list_live_items s.items service [] [])

abbrev named : Text → Option Text → Option (Text × Text)
named name none = none
named name (some content) = some (name, content)

-- OpenLiveFile: the name and the content; `none` is an error.
unfoldable pub open_live_file : Crypto → Store → Text → Text → Option (Text × Text)
unfolding get_item_by_path normalize_rel
open_live_file c s service rel =
    if is_empty (normalize_rel rel) then none else elim (get_item_by_path s service rel) [
      | none ↦ none
      | some it ↦ named it.name (Blobs.get c s.blobs it.blob_hash)
    ]

-- OpenGenerationFile.
unfoldable pub open_generation_file : Crypto → Store → Text → ℕ → Text → Option (Text × Text)
unfolding read_manifest normalize_rel same path_base
open_generation_file c s service gen rel = elim (read_manifest s.manifests service gen) [
  | none ↦ none
  | some m ↦ elim (find_if (λ (e : ManifestEntry). same e.path (normalize_rel rel)) m.items) [
    | none ↦ none
    | some e ↦ named (path_base e.path) (Blobs.get c s.blobs e.hash)
  ]
]

-- The file that ServeFile sends, and the name it is given; `none` is an error.
unfoldable pub serve_file : Crypto → Store → Text → Text → Text → Option (Text × Text)
unfolding open_live_file open_generation_file get_snapshot subject_from_eml_filename same
serve_file c s service version rel =
    let opened =
      if is_empty version || same version (codes "live")
      then open_live_file c s service rel
      else elim (get_snapshot s.snapshots version) [
        | none ↦ none
        | some sn ↦ open_generation_file c s sn.service sn.generation rel
      ] in
    elim opened [
      | none ↦ none
      | some (name, content) ↦ elim (subject_from_eml_filename name) [
        | none ↦ some (name, content)
        | some subject ↦ some (subject ++ eml, content)
      ]
    ]
