-- ===== src/Catalog/Browse.antt =====
-- internal/catalog/browse.go, with the entries of internal/storage/browse.go: listing a folder of the
-- current catalog and of a generation. sort.Slice leaves open
-- where entries stand that are alike in the order; here they keep their order.
pub mod Listing
pub mod Files
pub mod Below
pub mod Counts
use m365_backup.Base.{
  ℕ, zero, suc, ◌+◌, ◌-◌, Bool, true, false, not, ◌&&◌, ◌||◌, Option, none, some, List, [], ◌∷◌,
  ◌++◌, map, Text, codes, is_empty, same, trim_space, lower, find_if, contains, contains_text,
  starts_with, length, take, drop, ltb, leb, ◌==◌, if◌then◌else◌,
}
use m365_backup.Clock.{Time, is_zero}
use m365_backup.Blobs
use m365_backup.Blobs.{Crypto}
use m365_backup.Paths.{split, trim, dot}
use m365_backup.Catalog.Item.{Item, ManifestEntry, Manifest, rel_path}
use m365_backup.Catalog.Store.{Store}
use m365_backup.Catalog.Commit.{read_manifest}
use m365_backup.Catalog.Import.{subject_from_eml_filename}
use m365_backup.Catalog.Restore.{list_live_items, get_snapshot, text_before}

pub record BrowseEntry : Type 0 where
  pub name : Text
  pub path : Text
  pub is_dir : Bool
  pub size : ℕ
  pub subject : Text
  pub sender : Text
  pub received_at : Time

pub record PathEntry : Type 0 where
  pub path : Text
  pub size : ℕ
  pub hash : Text
  pub subject : Text
  pub sender : Text
  pub mtime : Time

abbrev slash_of : ℕ → ℕ
slash_of c = if c == 92 then b'/' else c

-- normalizeRel.
unfoldable pub normalize_rel : Text → Text
unfolding trim same
normalize_rel rel = let t = trim (map slash_of rel) in if same t dot then [] else t

-- itemsToPaths, of one item.
abbrev path_entry : Item → PathEntry
path_entry it = record {
  path = rel_path it;
  size = it.size;
  hash = it.blob_hash;
  subject = it.subject;
  sender = it.from_addr;
  mtime = it.mtime;
}

abbrev manifest_path : ManifestEntry → PathEntry
manifest_path e = record {
  path = e.path;
  size = e.size;
  hash = e.hash;
  subject = [];
  sender = [];
  mtime = 0;
}

abbrev eml : Text
eml = codes ".eml"

-- strings.HasSuffix(strings.ToLower(name), ".eml").
unfoldable pub is_eml : Text → Bool
unfolding same
is_eml name = leb 4 (length name) && same (drop (length name - 4) (lower name)) eml

-- EnrichBrowseEntryFromName, of a file.
unfoldable pub enrich_from_name : Text → BrowseEntry → BrowseEntry
unfolding subject_from_eml_filename is_eml
enrich_from_name name be = if not (is_eml name) then be else elim (subject_from_eml_filename name) [
  | some subject ↦ record be { subject = subject; name = subject ++ eml }
  | none ↦ record be { name = name }
]

-- The name that is shown of a file.
unfoldable pub with_name : BrowseEntry → BrowseEntry
unfolding enrich_from_name
with_name be =
    if is_empty be.subject
    then enrich_from_name be.name be
    else if is_eml be.name
    then record be { name = be.subject ++ eml }
    else be

-- itemEntry.
unfoldable pub item_entry : Item → BrowseEntry
unfolding with_name rel_path
item_entry it = with_name (record {
  name = it.name;
  path = rel_path it;
  is_dir = false;
  size = it.size;
  subject = it.subject;
  sender = it.from_addr;
  received_at = it.mtime;
})

abbrev last_part : List Text → Text
last_part [] = []
last_part (p ∷ []) = p
last_part (p ∷ q ∷ ps) = last_part (q ∷ ps)

-- path.Base of a path that does not end with a slash.
unfoldable pub path_base : Text → Text
unfolding split
path_base p = last_part (split p)

abbrev pub raw_entry : PathEntry → BrowseEntry
raw_entry pe = record {
  name = path_base pe.path;
  path = pe.path;
  is_dir = false;
  size = pe.size;
  subject = pe.subject;
  sender = pe.sender;
  received_at = pe.mtime;
}

unfoldable pub file_entry : PathEntry → BrowseEntry
unfolding with_name path_base
file_entry pe = with_name (raw_entry pe)

abbrev pub folder_entry : Text → Text → BrowseEntry
folder_entry rel dir = record {
  name = dir;
  path = if is_empty rel then dir else rel ++ b'/' ∷ dir;
  is_dir = true;
  size = 0;
  subject = [];
  sender = [];
  received_at = 0;
}

-- The rest of a path below a folder, unless it is empty.
unfoldable pub rest_at : Text → Text → Option Text
unfolding same starts_with
rest_at rel p =
    let rest =
      if is_empty rel
      then p
      else if same p rel || not (starts_with p (rel ++ b'/' ∷ []))
      then []
      else drop (length rel + 1) p in
    if is_empty rest then none else some rest

-- The text before the first slash, if there is one.
unfoldable pub before_slash : Text → Option Text
before_slash [] = none
before_slash (c ∷ s) =
    if c == b'/' then some [] else elim (before_slash s) [ none ↦ none | some d ↦ some (c ∷ d) ]

-- The loop of entriesAtPrefix, with the folders seen so far.
unfoldable pub entries_loop : Text → List Text → List PathEntry → List BrowseEntry
unfolding rest_at before_slash file_entry contains
entries_loop rel seen [] = []
entries_loop rel seen (pe ∷ pes) =
    let skipped = entries_loop rel seen pes in
    elim (rest_at rel pe.path) [
      | none ↦ skipped
      | some p ↦ elim (before_slash p) [
        | none ↦ file_entry pe ∷ skipped
        | some dir ↦
            if contains seen dir
            then skipped
            else folder_entry rel dir ∷ entries_loop rel (dir ∷ seen) pes
      ]
    ]

-- Whether the order of SortBrowseEntries puts one entry before another.
unfoldable pub entry_before : BrowseEntry → BrowseEntry → Bool
unfolding text_before same
entry_before a b =
    if a.is_dir && not b.is_dir
    then true
    else if b.is_dir && not a.is_dir
    then false
    else if is_zero a.received_at && not (is_zero b.received_at)
    then false
    else if is_zero b.received_at && not (is_zero a.received_at)
    then true
    else if not (a.received_at == b.received_at)
    then ltb b.received_at a.received_at
    else not (text_before (lower b.name) (lower a.name))

unfoldable pub insert_entry : BrowseEntry → List BrowseEntry → List BrowseEntry
unfolding entry_before
insert_entry e [] = e ∷ []
insert_entry e (x ∷ xs) = if entry_before x e then x ∷ insert_entry e xs else e ∷ x ∷ xs

-- SortBrowseEntries.
unfoldable pub sort_entries : List BrowseEntry → List BrowseEntry
unfolding insert_entry
sort_entries [] = []
sort_entries (x ∷ xs) = insert_entry x (sort_entries xs)

-- entriesAtPrefix.
unfoldable pub entries_at_prefix : List PathEntry → Text → List BrowseEntry
unfolding entries_loop sort_entries
entries_at_prefix paths rel = sort_entries (entries_loop rel [] paths)

-- BrowseLive.
unfoldable pub browse_live : Store → Text → Text → List BrowseEntry
unfolding list_live_items entries_at_prefix normalize_rel rel_path
browse_live s service rel =
    entries_at_prefix (map path_entry (list_live_items s.items service [] [])) (normalize_rel rel)

-- BrowseGeneration; `none` is an error.
unfoldable pub browse_generation : Store → Text → ℕ → Text → Option (List BrowseEntry)
unfolding read_manifest entries_at_prefix normalize_rel
browse_generation s service gen rel = elim (read_manifest s.manifests service gen) [
  | none ↦ none
  | some m ↦ some (entries_at_prefix (map manifest_path m.items) (normalize_rel rel))
]
