-- ===== src/Catalog/Browse/Listing.antt =====
-- internal/catalog/browse.go: what the listing of a folder shows.
use m365_backup.Base.{
  ℕ, count_if-zero, ap, sym, ◌++◌, is_empty, starts_with, append_assoc, same_refl, ◌⊎◌, ◌≡◌, ◌∙◌,
  refl, Bool, true, false, not, ◌&&◌, List, [], ◌∷◌, Text, arith, same, same-eq, any, contains,
  count_if, if◌then◌else◌, Bool-cases, Option-cases, inl, inr,
}
use m365_backup.Catalog.Browse.{PathEntry, rest_at, before_slash, entries_loop, entries_at_prefix}
use m365_backup.Catalog.Browse.Below.{
  path_in, has_slash, starts_with-rest, starts_with-folder, rest_at-path_in, rest_at-some,
  before_slash-none, before_slash-some, before_slash-append, before_slash-clean, path_in-append,
  full_append,
}
use m365_backup.Catalog.Browse.Counts.{
  is_folder, is_file, folder_below, goes_through, lies_in, count-sort, entries_loop-files,
  entries_loop-folders,
}

-- A name is not empty, and has no slash.
abbrev pub is_name : Text → Bool
is_name s = not (is_empty s) && not (has_slash s)

abbrev pub has_path : Text → PathEntry → Bool
has_path x pe = same pe.path x

lies_in-name :
    (rel name : Text) (pe : PathEntry)
    → is_name name ≡ true
    → lies_in rel (path_in rel name) pe ≡ has_path (path_in rel name) pe
unfolding lies_in
lies_in-name rel name pe h = elim (Bool-cases (same pe.path (path_in rel name))) [
  | inl e ↦
      rw
        (
          lies_in,
          same-eq pe.path (path_in rel name) e,
          rest_at-path_in rel name (ground arith),
          before_slash-clean name (ground arith),
        )
        (ap (λ (t : Text). same t (path_in rel name)) (same-eq pe.path (path_in rel name) e))
  | inr e ↦ elim (Option-cases (rest_at rel pe.path)) [
    | inl n ↦ ground arith
    | inr (rest, n) ↦ elim (Option-cases (before_slash rest)) [
      | inl m ↦ ground arith
      | inr (d, m) ↦ ground arith
    ]
  ]
]

-- Where an entry is listed as a file, its path is that of a name in the folder.
lies_in-only :
    (rel x : Text) (pe : PathEntry)
    → lies_in rel x pe ≡ true
    → (name : Text) × (x ≡ path_in rel name) × (is_name name ≡ true)
unfolding lies_in
lies_in-only rel x pe h = elim (Option-cases (rest_at rel pe.path)) [
  | inl n ↦ absurd (ground arith)
  | inr (rest, n) ↦ elim (Option-cases (before_slash rest)) [
    | inr (d, m) ↦ absurd (ground arith)
    | inl m ↦
        let (whole, full) = rest_at-some rel pe.path rest n in
        let its : pe.path ≡ x = same-eq pe.path x (ground arith) in
        (rest, rw (← its) whole, ground (arith, before_slash-none rest m))
  ]
]

goes_through-starts_with :
    (rel dir : Text) (pe : PathEntry)
    → goes_through rel dir pe
      ≡ (not (has_slash dir) && starts_with pe.path (path_in rel dir ++ b'/' ∷ []))
unfolding goes_through folder_below
goes_through-starts_with rel dir pe = by_both (goes_through rel dir pe) refl
  where
    -- A path that goes through the folder.
    passes :
        goes_through rel dir pe ≡ true
        → (not (has_slash dir) && starts_with pe.path (path_in rel dir ++ b'/' ∷ [])) ≡ true
    passes h = elim (Option-cases (rest_at rel pe.path)) [
      | inl n ↦ absurd (ground arith)
      | inr (rest, n) ↦ elim (Option-cases (before_slash rest)) [
        | inl m ↦ absurd (ground arith)
        | inr (d, m) ↦
            let (clean, t, split) = before_slash-some rest d m in
            let (whole, full) = rest_at-some rel pe.path rest n in
            let its : d ≡ dir = same-eq d dir (ground arith) in
            let parts : pe.path ≡ path_in rel dir ++ b'/' ∷ t =
              whole
              ∙ ap (path_in rel) (split ∙ ap (λ (y : Text). y ++ b'/' ∷ t) its)
              ∙ path_in-append rel dir (b'/' ∷ t) in
            let none_in : has_slash dir ≡ false = rw (← its) clean in
            rw (parts, none_in) (starts_with-folder (path_in rel dir) t)
      ]
    ]

    crosses :
        has_slash dir ≡ false
        → starts_with pe.path (path_in rel dir ++ b'/' ∷ []) ≡ true
        → goes_through rel dir pe ≡ true
    crosses clean h =
        let (t, split) = starts_with-rest pe.path (path_in rel dir ++ b'/' ∷ []) h in
        let parts : pe.path ≡ path_in rel (dir ++ b'/' ∷ t) =
          split
          ∙ append_assoc (path_in rel dir) (b'/' ∷ []) t
          ∙ sym (path_in-append rel dir (b'/' ∷ t)) in
        rw
          (
            goes_through,
            folder_below,
            parts,
            rest_at-path_in rel (dir ++ b'/' ∷ t) (full_append dir t),
            before_slash-append dir t clean,
            same_refl dir,
          )
          refl

    by_both :
        (b : Bool)
        → goes_through rel dir pe ≡ b
        → goes_through rel dir pe
          ≡ (not (has_slash dir) && starts_with pe.path (path_in rel dir ++ b'/' ∷ []))
    by_both true h = h ∙ sym (passes h)
    by_both false h = elim (Bool-cases (has_slash dir)) [
      | inl e ↦ ground arith
      | inr e ↦ ground (arith, crosses e)
    ]

count_if-cong :
    (p q : PathEntry → Bool) (pes : List PathEntry)
    → ((pe : PathEntry) → p pe ≡ q pe)
    → count_if p pes ≡ count_if q pes
unfolding count_if
count_if-cong p q [] h = refl
count_if-cong p q (pe ∷ pes) h = ground (arith, h pe, count_if-cong p q pes h)

any-goes_through :
    (rel dir : Text) (pes : List PathEntry)
    → any (goes_through rel dir) pes ≡ (
        not (has_slash dir)
        && any (λ (pe : PathEntry). starts_with pe.path (path_in rel dir ++ b'/' ∷ [])) pes)
unfolding any
any-goes_through rel dir [] = ground arith
any-goes_through rel dir (pe ∷ pes) =
    ground (arith, goes_through-starts_with rel dir pe, any-goes_through rel dir pes)

any-witness :
    (p : PathEntry → Bool) (pes : List PathEntry)
    → any p pes ≡ true
    → (pe : PathEntry) × (p pe ≡ true)
unfolding any
any-witness p [] h = absurd (ground arith)
any-witness p (pe ∷ pes) h = elim (Bool-cases (p pe)) [
  | inl e ↦ (pe, e)
  | inr e ↦ any-witness p pes (ground arith)
]

entries_at_prefix-files :
    (paths : List PathEntry) (rel x : Text)
    → count_if (is_file x) (entries_at_prefix paths rel) ≡ count_if (lies_in rel x) paths
unfolding entries_at_prefix
entries_at_prefix-files paths rel x =
    count-sort (is_file x) (entries_loop rel [] paths) ∙ entries_loop-files rel [] paths x

abbrev one_if : Bool → ℕ
one_if b = if b then 1 else 0

folders_shown :
    (rel dir x : Text) (paths : List PathEntry)
    → ((not (contains [] dir) && same (path_in rel dir) x) && any (goes_through rel dir) paths) ≡ (
        (not (has_slash dir) && same (path_in rel dir) x)
        && any (λ (pe : PathEntry). starts_with pe.path (x ++ b'/' ∷ [])) paths)
unfolding contains
folders_shown rel dir x paths = elim (Bool-cases (same (path_in rel dir) x)) [
  | inr e ↦ ground arith
  | inl e ↦
      let same_path : any (λ (pe : PathEntry). starts_with pe.path (path_in rel dir ++ b'/' ∷ []))
            paths
          ≡ any (λ (pe : PathEntry). starts_with pe.path (x ++ b'/' ∷ [])) paths =
        ap (λ (y : Text). any (λ (pe : PathEntry). starts_with pe.path (y ++ b'/' ∷ [])) paths)
          (same-eq (path_in rel dir) x e) in
      ground (arith, any-goes_through rel dir paths, same_path)
]

-- The listing of a folder of the catalog, `rel`, shows of each name, a text without a slash that is
-- not empty, the file with the path `rel/name` once for each entry with this path, and no file of
-- another path. A folder of a name and a path it shows once if the name has no slash, the path is
-- `rel/name` and the path of some entry begins with it and a slash, and else not. In the root, the
-- name itself is the path.
pub entries_at_prefix-exact :
    (paths : List PathEntry) (rel : Text)
    → ((name : Text)
        → is_name name ≡ true
        → count_if (is_file (path_in rel name)) (entries_at_prefix paths rel)
          ≡ count_if (has_path (path_in rel name)) paths)
      × ((x : Text)
          → (count_if (is_file x) (entries_at_prefix paths rel) ≡ 0)
            ⊎ ((name : Text) × (x ≡ path_in rel name) × (is_name name ≡ true)))
      × ((dir x : Text)
          → count_if (is_folder dir x) (entries_at_prefix paths rel) ≡ (
              if (not (has_slash dir) && same (path_in rel dir) x)
                && any (λ (pe : PathEntry). starts_with pe.path (x ++ b'/' ∷ [])) paths
              then 1
              else 0))
unfolding entries_at_prefix m365_backup.Catalog.Browse.sort_entries
entries_at_prefix-exact paths rel = (
  λ name h.
      entries_at_prefix-files paths rel (path_in rel name)
      ∙ count_if-cong (lies_in rel (path_in rel name)) (has_path (path_in rel name)) paths
          (λ pe. lies_in-name rel name pe h),
  λ x. elim (Bool-cases (any (lies_in rel x) paths)) [
    | inl e ↦ let (pe, its) = any-witness (lies_in rel x) paths e in inr (lies_in-only rel x pe its)
    | inr e ↦ inl (entries_at_prefix-files paths rel x ∙ count_if-zero (lies_in rel x) paths e)
  ],
  λ dir x.
      count-sort (is_folder dir x) (entries_loop rel [] paths)
      ∙ entries_loop-folders rel [] paths dir x
      ∙ ap one_if (folders_shown rel dir x paths),
)
