-- ===== src/Paths.antt =====
-- Go's `strings` and `path` functions on slash-separated texts, as the catalog uses them.
use m365_backup.Base.{
  Bool, true, false, not, ◌&&◌, ◌||◌, List, [], ◌∷◌, ◌++◌, Text, same, is_empty, ◌==◌,
  if◌then◌else◌, keep_if,
}

-- strings.Split(s, "/"): never an empty list.
unfoldable pub split : Text → List Text
split [] = [] ∷ []
split (c ∷ s) = elim (split s) [
  | [] ↦ (c ∷ []) ∷ []
  | p ∷ ps ↦ if c == b'/' then [] ∷ p ∷ ps else (c ∷ p) ∷ ps
]

-- strings.TrimLeft(s, "/").
unfoldable pub trim_left : Text → Text
trim_left [] = []
trim_left (c ∷ s) = if c == b'/' then trim_left s else c ∷ s

-- strings.TrimRight(s, "/").
unfoldable pub trim_right : Text → Text
trim_right [] = []
trim_right (c ∷ s) = let rest = trim_right s in if c == b'/' && is_empty rest then [] else c ∷ rest

-- strings.Trim(s, "/").
unfoldable pub trim : Text → Text
unfolding trim_left trim_right
trim s = trim_right (trim_left s)

-- strings.Join(parts, "/").
unfoldable pub join_with : List Text → Text
join_with [] = []
join_with (p ∷ []) = p
join_with (p ∷ q ∷ ps) = p ++ b'/' ∷ join_with (q ∷ ps)

abbrev pub dot : Text
dot = b'.' ∷ []

abbrev pub dot_dot : Text
dot_dot = b'.' ∷ b'.' ∷ []

-- A segment ".." of path.Clean.
clean_pop : Bool → List Text → List Text
clean_pop true [] = []
clean_pop false [] = dot_dot ∷ []
clean_pop rooted (q ∷ qs) = if same q dot_dot then dot_dot ∷ q ∷ qs else qs

-- One segment of path.Clean, onto the segments before it, last first.
clean_step : Bool → List Text → Text → List Text
clean_step rooted done p =
    if is_empty p || same p dot
    then done
    else if same p dot_dot
    then clean_pop rooted done
    else p ∷ done

clean_all : Bool → List Text → List Text → List Text
clean_all rooted done [] = done
clean_all rooted done (p ∷ ps) = clean_all rooted (clean_step rooted done p) ps

unfoldable pub reverse_onto : List Text → List Text → List Text
reverse_onto [] acc = acc
reverse_onto (x ∷ xs) acc = reverse_onto xs (x ∷ acc)

abbrev is_rooted : Text → Bool
is_rooted [] = false
is_rooted (c ∷ s) = c == b'/'

-- path.Clean.
unfoldable pub clean : Text → Text
unfolding clean_all clean_step clean_pop split reverse_onto join_with
clean s =
    let body = join_with (reverse_onto (clean_all (is_rooted s) [] (split s)) []) in
    if is_rooted s then b'/' ∷ body else if is_empty body then dot else body

-- path.Join: the elements that are not empty, joined and cleaned.
unfoldable pub join : List Text → Text
unfolding clean
join parts =
    let used = keep_if (λ p. not (is_empty p)) parts in
    if is_empty (join_with used) then [] else clean (join_with used)
