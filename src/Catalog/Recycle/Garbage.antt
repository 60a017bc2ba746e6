-- ===== src/Catalog/Recycle/Garbage.antt =====
-- internal/catalog/retention.go: what GCBlobs leaves of the blobs.
use m365_backup.Base.{
  ◌≡◌, refl, true, false, not, ◌&&◌, none, List, [], ◌∷◌, Text, arith, same, same-eq, same_sym, ◌∙◌,
  ◌||◌, any, Bool, is_empty, is_empty_iff, contains-append, contains, keep_if, find_if,
  if◌then◌else◌, Bool-cases, inl, inr, ap,
}
use m365_backup.Blobs.{File, valid_hash, named, read_file, delete, list_hashes}
use m365_backup.Catalog.Item.{Item}
use m365_backup.Catalog.Store.{Store, Change}
use m365_backup.Catalog.Recycle.{hash_of, item_hashes, change_hashes, collect, referenced, gc_blobs}

find-kept :
    (files : List File) (h x : Text)
    → read_file (keep_if (λ f. not (named h f)) files) x
      ≡ (if same h x then none else read_file files x)
unfolding read_file keep_if find_if
find-kept [] h x = ground arith
find-kept (f ∷ fs) h x = elim (Bool-cases (named h f)) [
  | inl e ↦ rw (e, find-kept fs h x, same-eq f.name h e) (ground arith)
  | inr e ↦
      rw e (ground (arith, find-kept fs h x, same-eq h x, same-eq f.name x, same_sym f.name h))
]

-- A deleted blob cannot be read, and every other file is read as before.
pub read-delete :
    (files : List File) (h x : Text)
    → read_file (delete files h) x ≡ (if valid_hash h && same h x then none else read_file files x)
unfolding delete
read-delete files h x = ground (arith, find-kept files h x)

read-collect :
    (kept : List Text) (files : List File) (hs : List Text) (x : Text)
    → read_file (collect kept files hs) x ≡ (
        if (valid_hash x && contains hs x) && not (contains kept x)
        then none
        else read_file files x)
unfolding collect contains
read-collect kept files [] x = ground arith
read-collect kept files (h ∷ hs) x = elim (Bool-cases (contains kept h)) [
  | inl k ↦ rw k (ground (arith, read-collect kept files hs x, same-eq h x))
  | inr k ↦
      rw k (
        ground (arith, read-collect kept (delete files h) hs x, read-delete files h x, same-eq h x))
]

unlisted :
    (files : List File) (x : Text)
    → valid_hash x ≡ true
    → contains (list_hashes files) x ≡ false
    → read_file files x ≡ none
unfolding list_hashes read_file keep_if find_if contains
unlisted [] x v h = refl
unlisted (f ∷ fs) x v h = elim (Bool-cases (same f.name x)) [
  | inl e ↦ absurd (ground (arith, ap valid_hash (same-eq f.name x e)))
  | inr e ↦ ground (arith, unlisted fs x v)
]

-- Whether some row of the catalog, or some change of a generation, has this hash.
unfoldable pub is_referenced : Store → Text → Bool
is_referenced s h =
    any (λ (it : Item). same it.blob_hash h) s.items
    || any (λ (ch : Change). same ch.item.blob_hash h) s.changes

contains-hash_of :
    (it : Item) (h : Text) → is_empty h ≡ false → contains (hash_of it) h ≡ same it.blob_hash h
unfolding contains
contains-hash_of it h full = elim (Bool-cases (is_empty it.blob_hash)) [
  | inl e ↦ ground (arith, (is_empty_iff it.blob_hash).0 e, same-eq it.blob_hash h)
  | inr e ↦ ground arith
]

contains-item_hashes :
    (items : List Item) (h : Text)
    → is_empty h ≡ false
    → contains (item_hashes items) h ≡ any (λ (it : Item). same it.blob_hash h) items
unfolding item_hashes any contains
contains-item_hashes [] h full = refl
contains-item_hashes (it ∷ items) h full =
    contains-append (hash_of it) (item_hashes items) h
    ∙ ground (arith, contains-hash_of it h full, contains-item_hashes items h full)

contains-change_hashes :
    (chs : List Change) (h : Text)
    → is_empty h ≡ false
    → contains (change_hashes chs) h ≡ any (λ (ch : Change). same ch.item.blob_hash h) chs
unfolding change_hashes any contains
contains-change_hashes [] h full = refl
contains-change_hashes (ch ∷ chs) h full =
    contains-append (hash_of ch.item) (change_hashes chs) h
    ∙ ground (arith, contains-hash_of ch.item h full, contains-change_hashes chs h full)

referenced-contains :
    (s : Store) (h : Text) → is_empty h ≡ false → contains (referenced s) h ≡ is_referenced s h
unfolding referenced is_referenced
referenced-contains s h full =
    contains-append (item_hashes s.items) (change_hashes s.changes) h
    ∙ ground (arith, contains-item_hashes s.items h full, contains-change_hashes s.changes h full)

valid_hash-full : (h : Text) → valid_hash h ≡ true → is_empty h ≡ false
unfolding valid_hash
valid_hash-full [] v = ground arith
valid_hash-full (c ∷ h) v = refl

-- GCBlobs removes exactly the blobs whose hash stands in no row of the catalog, deleted or not, and
-- in no change of a remaining generation: every other file is read as before. A hash that only the
-- manifest of a generation names is not spared.
pub gc_blobs-exact :
    (s : Store) (h : Text)
    → read_file (gc_blobs s).blobs h
      ≡ (if valid_hash h && not (is_referenced s h) then none else read_file s.blobs h)
unfolding gc_blobs
gc_blobs-exact s h =
    let swept = read-collect (referenced s) s.blobs (list_hashes s.blobs) h in
    elim (Bool-cases (valid_hash h)) [
      | inl v ↦
          ground (arith, swept, unlisted s.blobs h, referenced-contains s h (valid_hash-full h v))
      | inr v ↦ ground (arith, swept)
    ]
