-- ===== src/Blobs/RoundTrip.antt =====
-- internal/blobstore/store.go: Put and Get against each other.
use m365_backup.Base.{
  ℕ, ◌<◌, ◌≡◌, refl, ap, sym, ◌∙◌, true, false, some, List, [], ◌∷◌, ◌++◌, Text, arith, same,
  same-eq, same_refl, is_empty, length, length-append, take, drop, find_if, if◌then◌else◌,
  Bool-cases, Option-cases, inl, inr,
}
use m365_backup.Blobs.{
  Crypto, File, valid_hash, named, read_file, write_file, exists, put, unpack, get,
}

-- What the store relies on: digests of 64 lower-case hexadecimal digits, and a cipher that opens
-- what it sealed.
pub record IsCrypto (c : Crypto) : Type 0 where
  pub nonce_pos : 0 < c.nonce_size
  pub hex : (p : Text) → valid_hash (c.sha256_hex p) ≡ true
  pub opens : (nonce p : Text) → c.unseal nonce (c.seal nonce p) ≡ some p

-- Every file that is not empty holds, sealed, a text with the file's hash.
abbrev pub IsSound : Crypto → List File → Type 0
IsSound c files =
    (h raw : Text)
    → read_file files h ≡ some raw
    → is_empty raw ≡ false
    → (p : Text) × (unpack c raw ≡ some p) × (c.sha256_hex p ≡ h)

-- No text sealed in the files has the digest of another text, `plain`: SHA-256 does not collide
-- on the data at hand.
abbrev pub NoCollision : Crypto → List File → Text → Type 0
NoCollision c files plain =
    (h raw p : Text)
    → read_file files h ≡ some raw
    → unpack c raw ≡ some p
    → c.sha256_hex p ≡ c.sha256_hex plain
    → p ≡ plain

pub read-write :
    (files : List File) (h raw x : Text)
    → read_file (write_file files h raw) x ≡ (if same h x then some raw else read_file files x)
unfolding read_file write_file find_if
read-write [] h raw x = ground arith
read-write (f ∷ fs) h raw x = elim (Bool-cases (named h f)) [
  | inl e ↦ rw (e, ← same-eq f.name h e) (ground arith)
  | inr e ↦ rw e (ground (arith, read-write fs h raw x, same-eq h x))
]

take_front : (a b : Text) → take (length a) (a ++ b) ≡ a
take_front [] b = refl
take_front (x ∷ a) b = ap (λ (l : Text). x ∷ l) (take_front a b)

drop_front : (a b : Text) → drop (length a) (a ++ b) ≡ b
drop_front [] b = refl
drop_front (x ∷ a) b = drop_front a b

unpack_sealed :
    (c : Crypto) (nonce p : Text)
    → IsCrypto c
    → length nonce ≡ c.nonce_size
    → unpack c (nonce ++ c.seal nonce p) ≡ some p
unfolding unpack
unpack_sealed c nonce p k n =
    rw (← n, take_front nonce (c.seal nonce p), drop_front nonce (c.seal nonce p))
      (ground (arith, k.opens nonce p, length-append nonce (c.seal nonce p)))

full_nonce :
    (nonce rest : Text) (size : ℕ)
    → length nonce ≡ size
    → 0 < size
    → is_empty (nonce ++ rest) ≡ false
full_nonce [] rest size e h = absurd (omega arith)
full_nonce (c ∷ cs) rest size e h = refl

-- An existing file of the text's hash holds the text.
get-existing :
    (c : Crypto) (files : List File) (plain : Text)
    → IsCrypto c
    → IsSound c files
    → NoCollision c files plain
    → exists files (c.sha256_hex plain) ≡ true
    → get c files (c.sha256_hex plain) ≡ some plain
unfolding exists get
get-existing c files plain k s unique h =
    elim (Option-cases (read_file files (c.sha256_hex plain))) [
      | inl n ↦ absurd (ground arith)
      | inr (raw, r) ↦
          let (p, opened, hash) = s (c.sha256_hex plain) raw r (ground arith) in
          ground (arith, k.hex plain, unique (c.sha256_hex plain) raw p r opened hash)
    ]

get-written :
    (c : Crypto) (files : List File) (nonce plain : Text)
    → IsCrypto c
    → length nonce ≡ c.nonce_size
    → get c
        (write_file files (c.sha256_hex plain) (nonce ++ c.seal nonce plain))
        (c.sha256_hex plain)
      ≡ some plain
unfolding get
get-written c files nonce plain k n =
    let h = c.sha256_hex plain in
    let raw = nonce ++ c.seal nonce plain in
    ground
      (arith, k.hex plain, read-write files h raw h, same_refl h, unpack_sealed c nonce plain k n)

written-IsSound :
    (c : Crypto) (files : List File) (nonce plain : Text)
    → IsCrypto c
    → length nonce ≡ c.nonce_size
    → IsSound c files
    → IsSound c (write_file files (c.sha256_hex plain) (nonce ++ c.seal nonce plain))
written-IsSound c files nonce plain k n s x raw r full =
    let h = c.sha256_hex plain in
    let sealed = nonce ++ c.seal nonce plain in
    elim (Bool-cases (same h x)) [
      | inl e ↦
          let its : sealed ≡ raw = ground (arith, read-write files h sealed x) in
          (plain, ap (unpack c) (sym its) ∙ unpack_sealed c nonce plain k n, same-eq h x e)
      | inr e ↦ s x raw (ground (arith, read-write files h sealed x)) full
    ]

read-other :
    (files : List File) (h raw x : Text)
    → exists files h ≡ false
    → exists files x ≡ true
    → read_file (write_file files h raw) x ≡ read_file files x
read-other files h raw x a b = elim (Bool-cases (same h x)) [
  | inl e ↦ absurd (ground (arith, ap (exists files) (same-eq h x e)))
  | inr e ↦ ground (arith, read-write files h raw x)
]

-- After a successful Put into a sound store without collisions, Get of the returned hash gives the
-- text back, the store is sound, and every hash that could be read before is read as before.
pub get-put :
    (c : Crypto) (files files' : List File) (nonce plain h : Text)
    → IsCrypto c
    → length nonce ≡ c.nonce_size
    → IsSound c files
    → NoCollision c files plain
    → put c files nonce plain ≡ some (h, files')
    → (get c files' h ≡ some plain)
      × IsSound c files'
      × ((x : Text) → exists files x ≡ true → read_file files' x ≡ read_file files x)
unfolding put
get-put c files files' nonce plain h k n s unique p =
    elim (Bool-cases (exists files (c.sha256_hex plain))) [
      | inl old ↦
          let hash : c.sha256_hex plain ≡ h = ground (arith, k.hex plain) in
          let kept : files ≡ files' = ground (arith, k.hex plain) in
          rw (← hash, ← kept) (get-existing c files plain k s unique old, s, λ x e. refl)
      | inr new ↦
          let hash : c.sha256_hex plain ≡ h = ground (arith, k.hex plain) in
          let written : write_file files (c.sha256_hex plain) (nonce ++ c.seal nonce plain)
              ≡ files' =
            ground (arith, k.hex plain) in
          rw (← hash, ← written)
            (
              get-written c files nonce plain k n,
              written-IsSound c files nonce plain k n s,
              λ x e. read-other files (c.sha256_hex plain) (nonce ++ c.seal nonce plain) x new e,
            )
    ]

pub put-hash :
    (c : Crypto) (files files' : List File) (nonce plain h : Text)
    → put c files nonce plain ≡ some (h, files')
    → h ≡ c.sha256_hex plain
unfolding put
put-hash c files files' nonce plain h p = ground arith
