-- ===== src/Sync/Names.antt =====
-- internal/backup/exchange.go and onedrive.go: names and paths of items.
use m365_backup.Base.{
  ℕ, Bool, true, false, not, ◌&&◌, ◌||◌, Option, none, some, List, [], ◌∷◌, ◌++◌, map, Text, codes,
  is_empty, same, keep_if, trim_space, lower, starts_with, drop, ◌==◌, if◌then◌else◌,
}
use m365_backup.Paths.{split, trim, join, join_with, dot, dot_dot}

-- The bytes that the replacer of sanitize turns into "_".
unfoldable pub is_reserved : ℕ → Bool
is_reserved c =
    c == b'/'
    || c == 92
    || c == b':'
    || c == b'*'
    || c == b'?'
    || c == 34
    || c == b'<'
    || c == b'>'
    || c == b'|'

abbrev pub plain : ℕ → ℕ
plain c = if is_reserved c then b'_' else c

-- strings.ReplaceAll(s, "..", "_").
unfoldable pub replace_dots : Text → Text
replace_dots [] = []
replace_dots (c ∷ []) = c ∷ []
replace_dots (c ∷ d ∷ s) = elim (c == b'.' && d == b'.') [
  | true ↦ b'_' ∷ replace_dots s
  | false ↦ c ∷ replace_dots (d ∷ s)
]

-- sanitize.
unfoldable pub sanitize : Text → Text
unfolding is_reserved replace_dots
sanitize s =
    let t = trim_space (map plain s) in
    if is_empty t || same t dot || same t dot_dot then b'_' ∷ [] else replace_dots t

-- What stands behind the first "/root:", or the text if it has none.
unfoldable pub after_root : Text → Text → Text
after_root whole [] = whole
after_root whole (c ∷ s) =
    let rest = after_root whole s in
    if starts_with (c ∷ s) (codes "/root:") then drop 6 (c ∷ s) else rest

-- driveItemRelPath, of the name and the path of the parent reference, if there is one.
unfoldable pub drive_item_rel_path : Text → Option Text → Text
unfolding sanitize after_root
drive_item_rel_path raw parent =
    let name = if same (lower (sanitize raw)) (codes "root") then [] else sanitize raw in
    let folders : List Text = elim parent [
      | none ↦ []
      | some p ↦ map sanitize (keep_if (λ seg. not (is_empty seg)) (split (trim (after_root p p))))
    ] in
    join (folders ++ (if is_empty name then [] else name ∷ []))

-- filepath.Dir of a clean relative path, where "." stands for "".
abbrev pub but_last : List Text → List Text
but_last [] = []
but_last (p ∷ []) = []
but_last (p ∷ q ∷ ps) = p ∷ but_last (q ∷ ps)

unfoldable pub parent_dir : Text → Text
unfolding split join_with
parent_dir rel = join_with (but_last (split rel))

-- filepath.Base of a clean relative path.
abbrev pub last_of : List Text → Text
last_of [] = []
last_of (p ∷ []) = p
last_of (p ∷ q ∷ ps) = last_of (q ∷ ps)

unfoldable pub base_name : Text → Text
unfolding split
base_name rel = last_of (split rel)
