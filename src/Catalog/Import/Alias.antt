-- ===== src/Catalog/Import/Alias.antt =====
-- internal/catalog/import.go and store.go, internal/backup/exchange.go: the ID of an imported mail,
-- and the message that it is the copy of.
use m365_backup.Base.{
  ℕ, zero, suc, ◌≤◌, ◌≡◌, refl, true, false, Option, none, some, [], ◌∷◌, ◌++◌, Text, codes, arith,
  same, starts_with, contains, contains-cons_self, all, length, take, append_assoc,
}
use m365_backup.Blobs.{valid_hash, is_hex}
use m365_backup.Paths.{split}
use m365_backup.Catalog.Item.{import_aliases, import_eml_prefix, import_path_prefix}
use m365_backup.Sync.Mail.{exchange, eml_file_name}
use m365_backup.Catalog.Import.{
  separator, split_last, before_dot, without_ext, eml_short_from_name, item_from_sync_path,
  name_of_parts,
}

before_dot-eml : (t : Text) → before_dot (t ++ codes ".eml") ≡ some t
unfolding before_dot
before_dot-eml [] = refl
before_dot-eml (c ∷ t) = rw (before_dot-eml t) refl

without_ext-eml : (s : Text) → without_ext (s ++ codes ".eml") ≡ s
unfolding without_ext
without_ext-eml s = rw (without_ext, before_dot-eml s) refl

-- Hexadecimal digits have no "__".
hex_split : (h : Text) → all is_hex h ≡ true → split_last h ≡ none
unfolding split_last all starts_with
hex_split [] x = refl
hex_split (c ∷ h) x = ground (arith, hex_split h)

hex_after : (h : Text) → all is_hex h ≡ true → split_last (b'_' ∷ h) ≡ none
unfolding split_last all starts_with
hex_after [] x = ground arith
hex_after (c ∷ h) x = ground (arith, hex_split (c ∷ h) x)

split_last-name :
    (s h : Text) → all is_hex h ≡ true → split_last (s ++ b'_' ∷ b'_' ∷ h) ≡ some (s, h)
unfolding split_last starts_with
split_last-name [] h x = ground (arith, hex_after h x)
split_last-name (c ∷ s) h x = rw (split_last-name s h x) refl

take_hex : (n : ℕ) (h : Text) → all is_hex h ≡ true → all is_hex (take n h) ≡ true
unfolding all
take_hex zero h x = refl
take_hex (suc n) [] x = refl
take_hex (suc n) (c ∷ h) x = ground (arith, take_hex n h)

length-take_hash :
    (h : Text) → valid_hash h ≡ true → (length (take 10 h) ≡ 10) × (all is_hex (take 10 h) ≡ true)
unfolding valid_hash
length-take_hash h v = (take_length 10 h (ground arith), take_hex 10 h (ground arith))
  where
    take_length : (n : ℕ) (t : Text) → n ≤ length t → length (take n t) ≡ n
    take_length zero t l = refl
    take_length (suc n) [] l = absurd (omega arith)
    take_length (suc n) (c ∷ t) l = omega (arith, take_length n t)

short_of_name :
    (front id : Text)
    → all is_hex id ≡ true
    → length id ≡ 10
    → eml_short_from_name (front ++ separator ++ id ++ codes ".eml") ≡ some id
unfolding eml_short_from_name
short_of_name front id x l =
    rw
      (
        eml_short_from_name,
        without_ext-eml (front ++ separator ++ id),
        append_assoc front separator id,
        split_last-name front id x,
        l,
      )
      refl

eml_file_name-short :
    (decode sha256_hex : Text → Text) (subject mid : Text)
    → all is_hex (take 10 (sha256_hex mid)) ≡ true
    → length (take 10 (sha256_hex mid)) ≡ 10
    → eml_short_from_name (eml_file_name decode sha256_hex subject mid)
      ≡ some (take 10 (sha256_hex mid))
unfolding eml_file_name
eml_file_name-short decode sha256_hex subject mid x l =
    short_of_name _ (take 10 (sha256_hex mid)) x l

imported_id :
    (rel file short : Text)
    → name_of_parts (split rel) file ≡ file
    → eml_short_from_name file ≡ some short
    → (item_from_sync_path exchange rel file).graph_item_id ≡ import_eml_prefix ++ short
unfolding item_from_sync_path
imported_id rel file short own e =
    by_short (eml_short_from_name (name_of_parts (split rel) file)) refl
  where
    by_short :
        (o : Option Text)
        → eml_short_from_name (name_of_parts (split rel) file) ≡ o
        → (item_from_sync_path exchange rel file).graph_item_id ≡ import_eml_prefix ++ short
    by_short none k = absurd (ground arith)
    by_short (some s) k = ground arith

-- The name that backupFolderDelta gives the mail of a Graph message, whatever its subject is, has
-- the short ID of the message as what emlShortFromName finds in it: a file of that name, at a path
-- of sync/exchange that ends with the name, is imported under one of the IDs by which the catalog
-- later knows the message of Graph again. The ID of the message must not look like that of an
-- imported item, and the digest must be 64 hexadecimal digits.
pub item_from_sync_path-alias :
    (decode sha256_hex : Text → Text) (subject mid rel mailbox parent name : Text)
    → valid_hash (sha256_hex mid) ≡ true
    → starts_with mid import_eml_prefix ≡ false
    → starts_with mid import_path_prefix ≡ false
    → name_of_parts (split rel) (eml_file_name decode sha256_hex subject mid)
      ≡ eml_file_name decode sha256_hex subject mid
    → contains
        (import_aliases sha256_hex exchange mid mailbox parent name)
        (item_from_sync_path exchange rel
          (eml_file_name decode sha256_hex subject mid)).graph_item_id
      ≡ true
unfolding import_aliases same
item_from_sync_path-alias decode sha256_hex subject mid rel mailbox parent name v a b own =
    let (l, x) = length-take_hash (sha256_hex mid) v in
    let short = eml_file_name-short decode sha256_hex subject mid x l in
    rw
      (
        imported_id rel (eml_file_name decode sha256_hex subject mid) (take 10 (sha256_hex mid)) own
            short,
        import_aliases,
        a,
        b,
      )
      (contains-cons_self (import_eml_prefix ++ take 10 (sha256_hex mid)) _)
