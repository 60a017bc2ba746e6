-- ===== src/Catalog/Browse/Counts.antt =====
-- internal/catalog/browse.go: how often the loop and the sort of a listing show an entry.
use m365_backup.Base.{
  ap, ◌+◌, ◌≡◌, refl, Bool, true, false, not, ◌&&◌, Option, none, some, List, [], ◌∷◌, Text, arith,
  same, same-eq, any, contains, count_if, if◌then◌else◌, Bool-cases, Option-cases, inl, inr,
}
use m365_backup.Catalog.Import.{subject_from_eml_filename}
use m365_backup.Catalog.Browse.{
  BrowseEntry, PathEntry, is_eml, with_name, enrich_from_name, raw_entry, file_entry, rest_at,
  before_slash, entries_loop, insert_entry, sort_entries,
}
use m365_backup.Catalog.Browse.Below.{path_in}

-- A folder of a name and a path, and a file of a path.
abbrev pub is_folder : Text → Text → BrowseEntry → Bool
is_folder dir x e = e.is_dir && same e.name dir && same e.path x

abbrev pub is_file : Text → BrowseEntry → Bool
is_file x e = not e.is_dir && same e.path x

-- The folder right below `rel` that a path goes through, if there is one.
unfoldable pub folder_below : Text → Text → Option Text
folder_below rel p = elim (rest_at rel p) [ none ↦ none | some rest ↦ before_slash rest ]

-- Whether a path goes through a folder right below `rel`.
unfoldable pub goes_through : Text → Text → PathEntry → Bool
unfolding folder_below
goes_through rel dir pe = elim (folder_below rel pe.path) [ none ↦ false | some d ↦ same d dir ]

-- Whether a path is that of a file right in `rel`, and is `x`.
unfoldable pub lies_in : Text → Text → PathEntry → Bool
unfolding rest_at before_slash
lies_in rel x pe = elim (rest_at rel pe.path) [
  | none ↦ false
  | some rest ↦ elim (before_slash rest) [ none ↦ same pe.path x | some d ↦ false ]
]

count-insert :
    (p : BrowseEntry → Bool) (e : BrowseEntry) (xs : List BrowseEntry)
    → count_if p (insert_entry e xs) ≡ (if p e then 1 else 0) + count_if p xs
unfolding count_if insert_entry
count-insert p e [] = refl
count-insert p e (x ∷ xs) = ground (arith, count-insert p e xs)

pub count-sort :
    (p : BrowseEntry → Bool) (xs : List BrowseEntry) → count_if p (sort_entries xs) ≡ count_if p xs
unfolding count_if sort_entries
count-sort p [] = refl
count-sort p (x ∷ xs) = ground (arith, count-insert p x (sort_entries xs), count-sort p xs)

enrich-kind :
    (name : Text) (be : BrowseEntry)
    → ((enrich_from_name name be).is_dir ≡ be.is_dir) × ((enrich_from_name name be).path ≡ be.path)
unfolding enrich_from_name
enrich-kind name be = elim (Bool-cases (is_eml name)) [
  | inl e ↦ elim (Option-cases (subject_from_eml_filename name)) [
    | inl n ↦ ground arith
    | inr (subject, n) ↦ ground arith
  ]
  | inr e ↦ ground arith
]

with_name-kind :
    (be : BrowseEntry) → ((with_name be).is_dir ≡ be.is_dir) × ((with_name be).path ≡ be.path)
unfolding with_name
with_name-kind be = ground (arith, enrich-kind be.name be)

file_entry-kind :
    (pe : PathEntry) → ((file_entry pe).is_dir ≡ false) × ((file_entry pe).path ≡ pe.path)
unfolding file_entry
file_entry-kind pe = with_name-kind (raw_entry pe)

pub entries_loop-files :
    (rel : Text) (seen : List Text) (pes : List PathEntry) (x : Text)
    → count_if (is_file x) (entries_loop rel seen pes) ≡ count_if (lies_in rel x) pes
unfolding count_if entries_loop lies_in
entries_loop-files rel seen [] x = refl
entries_loop-files rel seen (pe ∷ pes) x = elim (Option-cases (rest_at rel pe.path)) [
  | inl n ↦ ground (arith, entries_loop-files rel seen pes x)
  | inr (rest, n) ↦ elim (Option-cases (before_slash rest)) [
    | inl m ↦ ground (arith, file_entry-kind pe, entries_loop-files rel seen pes x)
    | inr (dir, m) ↦ elim (Bool-cases (contains seen dir)) [
      | inl k ↦ ground (arith, entries_loop-files rel seen pes x)
      | inr k ↦ ground (arith, entries_loop-files rel (dir ∷ seen) pes x)
    ]
  ]
]

pub entries_loop-folders :
    (rel : Text) (seen : List Text) (pes : List PathEntry) (dir x : Text)
    → count_if (is_folder dir x) (entries_loop rel seen pes) ≡ (
        if (not (contains seen dir) && same (path_in rel dir) x) && any (goes_through rel dir) pes
        then 1
        else 0)
unfolding count_if any entries_loop goes_through folder_below contains
entries_loop-folders rel seen [] dir x = ground arith
entries_loop-folders rel seen (pe ∷ pes) dir x = elim (Option-cases (rest_at rel pe.path)) [
  | inl n ↦ ground (arith, entries_loop-folders rel seen pes dir x)
  | inr (rest, n) ↦ elim (Option-cases (before_slash rest)) [
    | inl m ↦ ground (arith, file_entry-kind pe, entries_loop-folders rel seen pes dir x)
    | inr (d, m) ↦ elim (Bool-cases (contains seen d)) [
      | inl k ↦ elim (Bool-cases (same d dir)) [
        | inl e ↦
            let old : contains seen dir ≡ true = rw (← same-eq d dir e) k in
            ground (arith, entries_loop-folders rel seen pes dir x)
        | inr e ↦ ground (arith, entries_loop-folders rel seen pes dir x)
      ]
      | inr k ↦ elim (Bool-cases (same d dir)) [
        | inl e ↦
            let new : contains seen dir ≡ false = rw (← same-eq d dir e) k in
            let shown : same (path_in rel d) x ≡ same (path_in rel dir) x =
              ap (λ (t : Text). same (path_in rel t) x) (same-eq d dir e) in
            ground (arith, entries_loop-folders rel (d ∷ seen) pes dir x)
        | inr e ↦ ground (arith, entries_loop-folders rel (d ∷ seen) pes dir x)
      ]
    ]
  ]
]
