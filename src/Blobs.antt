-- ===== src/Blobs.antt =====
-- internal/blobstore/store.go: the encrypted, content-addressed blobs of a tenant. A file is
-- known by its hash, since the path {root}/blobs/{hh}/{hash} is made of nothing else; temporary
-- files and failures of the disk are left out. SHA-256 and AES-GCM are parameters.
pub mod RoundTrip
use m365_backup.Base.{
  ℕ, zero, suc, Bool, true, false, not, ◌&&◌, ◌||◌, Option, none, some, List, [], ◌∷◌, ◌++◌, map,
  Text, same, is_empty, length, take, drop, any, all, find_if, keep_if, ltb, leb, ◌==◌,
  if◌then◌else◌,
}

-- SHA-256 in hexadecimal, and the AES-GCM cipher under the store's key.
pub record Crypto : Type 0 where
  pub sha256_hex : Text → Text
  pub nonce_size : ℕ
  pub seal : Text → Text → Text
  pub unseal : Text → Text → Option Text

pub record File : Type 0 where
  pub name : Text
  pub raw : Text

abbrev pub is_hex : ℕ → Bool
is_hex c = (leb b'0' c && leb c b'9') || (leb b'a' c && leb c b'f')

-- validHash.
unfoldable pub valid_hash : Text → Bool
valid_hash h = (length h == 64) && all is_hex h

abbrev pub named : Text → File → Bool
named h f = same f.name h

-- The file of a hash, as os.ReadFile and os.Stat see it.
unfoldable pub read_file : List File → Text → Option Text
read_file files h = elim (find_if (named h) files) [ none ↦ none | some f ↦ some f.raw ]

-- os.WriteFile and os.Rename: the file of the name has the new content.
unfoldable pub write_file : List File → Text → Text → List File
write_file [] h raw = record { name = h; raw = raw } ∷ []
write_file (f ∷ fs) h raw =
    if named h f then record f { raw = raw } ∷ fs else f ∷ write_file fs h raw

-- Exists: a file that is not empty.
unfoldable pub exists : List File → Text → Bool
unfolding valid_hash read_file
exists files h = elim (read_file files h) [
  | none ↦ false
  | some raw ↦ valid_hash h && not (is_empty raw)
]

-- Put, with the nonce that the random source gives; `none` is an error.
unfoldable pub put : Crypto → List File → Text → Text → Option (Text × List File)
put c files nonce plain =
    let h = c.sha256_hex plain in
    if not (valid_hash h)
    then none
    else if exists files h
    then some (h, files)
    else some (h, write_file files h (nonce ++ c.seal nonce plain))

-- The end of Get: the nonce stands before the sealed text.
unfoldable pub unpack : Crypto → Text → Option Text
unpack c raw =
    if ltb (length raw) c.nonce_size
    then none
    else c.unseal (take c.nonce_size raw) (drop c.nonce_size raw)

-- Get; `none` is an error.
unfoldable pub get : Crypto → List File → Text → Option Text
unfolding unpack
get c files h =
    if not (valid_hash h)
    then none
    else elim (read_file files h) [ none ↦ none | some raw ↦ unpack c raw ]

-- Delete: an invalid hash names no file.
unfoldable pub delete : List File → Text → List File
delete files h = if valid_hash h then keep_if (λ f. not (named h f)) files else files

abbrev pub name_of : File → Text
name_of f = f.name

abbrev pub has_hash_name : File → Bool
has_hash_name f = valid_hash f.name

-- ListHashes.
unfoldable pub list_hashes : List File → List Text
unfolding valid_hash
list_hashes files = map name_of (keep_if has_hash_name files)
