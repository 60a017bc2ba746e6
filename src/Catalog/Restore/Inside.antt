-- ===== src/Catalog/Restore/Inside.antt =====
-- internal/catalog/retention.go: what Materialize does to a disk.
use m365_backup.Base.{
  ◌≡◌, refl, ◌∙◌, Bool, true, false, none, some, List, [], ◌∷◌, ◌++◌, Text, arith, same, same-eq,
  same_refl, any, false≢true_lem, Bool-cases, Option-cases, inl, inr,
}
use m365_backup.Blobs
use m365_backup.Blobs.{Crypto, File, read_file, write_file}
use m365_backup.Blobs.RoundTrip.{read-write}
use m365_backup.Catalog.Item.{ManifestEntry}
use m365_backup.Catalog.Store.{Store}
use m365_backup.Catalog.Restore.{
  guard_path, is_under, ensure_subpath, entries_of, is_skipped, write_entries, materialize,
}

-- Whether an entry is written to a path.
unfoldable pub writes_to : Text → Text → ManifestEntry → Bool
unfolding ensure_subpath same
writes_to dest x e = elim (ensure_subpath dest e.path) [ none ↦ false | some out ↦ same out x ]

module _ (c : Crypto) (blobs : List File) (dest : Text) where
  write_entries-other :
      (es : List ManifestEntry) (disk : List File) (x : Text)
      → any (writes_to dest x) es ≡ false
      → read_file (write_entries c blobs dest es disk).0 x ≡ read_file disk x
  unfolding write_entries any writes_to
  write_entries-other [] disk x h = refl
  write_entries-other (e ∷ es) disk x h = elim (Bool-cases (is_skipped e)) [
    | inl k ↦ rw k (write_entries-other es disk x (ground arith))
    | inr k ↦ rw k (elim (Option-cases (Blobs.get c blobs e.hash)) [
      | inl n ↦ rw n refl
      | inr (content, n) ↦ rw n (elim (Option-cases (ensure_subpath dest e.path)) [
        | inl m ↦ rw m refl
        | inr (out, m) ↦ rw m (
            write_entries-other es (write_file disk out content) x (ground arith)
            ∙ other out content disk x (ground arith))
      ])
    ])
  ]
    where
      other :
          (out content : Text) (disk : List File) (x : Text)
          → same out x ≡ false
          → read_file (write_file disk out content) x ≡ read_file disk x
      other out content disk x k = rw (read-write disk out content x, k) refl

  -- An entry that is not skipped, and whose file no later entry overwrites.
  write_entries-holds :
      (pre post : List ManifestEntry) (e : ManifestEntry) (disk : List File) (out : Text)
      → (write_entries c blobs dest (pre ++ e ∷ post) disk).1 ≡ true
      → is_skipped e ≡ false
      → ensure_subpath dest e.path ≡ some out
      → any (writes_to dest out) post ≡ false
      → (content : Text) × (Blobs.get c blobs e.hash ≡ some content)
        × (read_file (write_entries c blobs dest (pre ++ e ∷ post) disk).0 out ≡ some content)
  unfolding write_entries
  write_entries-holds [] post e disk out ok skip own last =
      elim (Option-cases (Blobs.get c blobs e.hash)) [
        | inl n ↦ absurd (ground arith)
        | inr (content, n) ↦ (
          content,
          n,
          rw (write_entries, skip, n, own)
              (write_entries-other post (write_file disk out content) out last
                ∙ rw (read-write disk out content out, same_refl out) refl),
        )
      ]
  write_entries-holds (x ∷ pre) post e disk out ok skip own last =
      elim (Bool-cases (is_skipped x)) [
        | inl k ↦
            rw (write_entries, k)
              (write_entries-holds pre post e disk out (ground arith) skip own last)
        | inr k ↦ elim (Option-cases (Blobs.get c blobs x.hash)) [
          | inl n ↦ absurd (ground arith)
          | inr (content, n) ↦ elim (Option-cases (ensure_subpath dest x.path)) [
            | inl m ↦ absurd (ground arith)
            | inr (o, m) ↦
                rw (write_entries, k, n, m)
                  (write_entries-holds pre post e (write_file disk o content) out (ground arith)
                    skip own last)
          ]
        ]
      ]

ensure_subpath-under :
    (dest sub out : Text) → ensure_subpath dest sub ≡ some out → is_under dest out ≡ true
unfolding ensure_subpath
ensure_subpath-under dest sub out h = ground arith

none_outside :
    (dest x : Text) (es : List ManifestEntry)
    → is_under dest x ≡ false
    → any (writes_to dest x) es ≡ false
unfolding any writes_to
none_outside dest x [] h = refl
none_outside dest x (e ∷ es) h = elim (Option-cases (ensure_subpath dest e.path)) [
  | inl n ↦ rw (writes_to, n) (none_outside dest x es h)
  | inr (out, n) ↦
      rw (writes_to, n, elsewhere out x (ensure_subpath-under dest e.path out n) h)
        (none_outside dest x es h)
]
  where
    elsewhere :
        (out x : Text) → is_under dest out ≡ true → is_under dest x ≡ false → same out x ≡ false
    elsewhere out x a b = elim (Bool-cases (same out x)) [
      | inl k ↦ absurd (false≢true_lem (rw (← same-eq out x k) a) b)
      | inr k ↦ k
    ]

-- Materialize writes nothing outside of its target directory, whatever the paths of the entries
-- are: every file of another path is as before, whether or not there is an error.
pub materialize-inside :
    (c : Crypto) (s : Store) (service version dest : Text) (disk : List File) (x : Text)
    → is_under dest x ≡ false
    → read_file (materialize c s service version dest disk).0 x ≡ read_file disk x
unfolding materialize
materialize-inside c s service version dest disk x h = elim (Bool-cases (guard_path dest)) [
  | inl g ↦
      rw (materialize, g)
        (elim (Option-cases (entries_of s service version)) [
          | inl n ↦ rw n refl
          | inr (es, n) ↦
              rw n (write_entries-other c s.blobs dest es disk x (none_outside dest x es h))
        ])
  | inr g ↦ rw (materialize, g) refl
]

-- When Materialize gives no error, every entry of the version, the current one or a snapshot's, has
-- its blob as the content of its file, unless the path of the entry is empty or holds "..", or a
-- later entry is written to the same file.
pub materialize-holds :
    (c : Crypto) (s : Store) (service version dest : Text) (disk : List File)
    (pre post : List ManifestEntry) (e : ManifestEntry) (out : Text)
    → (materialize c s service version dest disk).1 ≡ true
    → entries_of s service version ≡ some (pre ++ e ∷ post)
    → is_skipped e ≡ false
    → ensure_subpath dest e.path ≡ some out
    → any (writes_to dest out) post ≡ false
    → (content : Text) × (Blobs.get c s.blobs e.hash ≡ some content)
      × (read_file (materialize c s service version dest disk).0 out ≡ some content)
unfolding materialize
materialize-holds c s service version dest disk pre post e out ok entries skip own last =
    let guarded : guard_path dest ≡ true = ground arith in
    rw (materialize, guarded, entries)
      (write_entries-holds c s.blobs dest pre post e disk out
        (rw (materialize, guarded, entries) at ok) skip own last)
