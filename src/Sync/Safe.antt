-- ===== src/Sync/Safe.antt =====
-- internal/backup/exchange.go: what sanitize makes of the names of items and folders.
use m365_backup.Base.{
  ℕ, ◌≡◌, refl, true, false, ◌&&◌, ◌||◌, [], ◌∷◌, map, Text, arith, is_empty, same, any, trim_space,
  trim_space_left, trim_space_right, starts_with, contains_text, ◌==◌, Bool-cases, inl, inr,
}
use m365_backup.Paths.{dot, dot_dot}
use m365_backup.Sync.Names.{is_reserved, plain, replace_dots, sanitize}

-- The text has no byte that separates or is reserved in paths, no "..", and is neither empty nor ".".
pub record IsSafe (s : Text) : Type 0 where
  pub bytes : any is_reserved s ≡ false
  pub dots : contains_text s dot_dot ≡ false
  pub not_dot : same s dot ≡ false
  pub full : is_empty s ≡ false

plain-any : (s : Text) → any is_reserved (map plain s) ≡ false
unfolding any is_reserved
plain-any [] = refl
plain-any (c ∷ s) = ground (arith, plain-any s)

left-any : (s : Text) → any is_reserved s ≡ false → any is_reserved (trim_space_left s) ≡ false
unfolding any trim_space_left
left-any [] h = h
left-any (c ∷ s) h = ground (arith, left-any s)

right-any : (s : Text) → any is_reserved s ≡ false → any is_reserved (trim_space_right s) ≡ false
unfolding any trim_space_right
right-any [] h = h
right-any (c ∷ s) h = ground (arith, right-any s)

dots-any : (s : Text) → any is_reserved s ≡ false → any is_reserved (replace_dots s) ≡ false
unfolding any replace_dots is_reserved
dots-any [] h = h
dots-any (c ∷ []) h = h
dots-any (c ∷ d ∷ s) h = elim (Bool-cases (c == b'.' && d == b'.')) [
  | inl e ↦ rw (replace_dots, e) (ground (arith, dots-any s))
  | inr e ↦ rw (replace_dots, e) (ground (arith, dots-any (d ∷ s)))
]

dots-head : (d : ℕ) (s : Text) → starts_with (replace_dots (d ∷ s)) dot ≡ true → (d == b'.') ≡ true
unfolding replace_dots starts_with
dots-head d [] h = ground arith
dots-head d (e ∷ s) h = elim (Bool-cases (d == b'.' && e == b'.')) [
  | inl k ↦ ground arith
  | inr k ↦ let kept = rw (replace_dots, k) at h in ground arith
]

dots-none : (s : Text) → contains_text (replace_dots s) dot_dot ≡ false
unfolding replace_dots contains_text starts_with
dots-none [] = refl
dots-none (c ∷ []) = ground arith
dots-none (c ∷ d ∷ s) = elim (Bool-cases (c == b'.' && d == b'.')) [
  | inl e ↦ rw (replace_dots, e) (dots-none s)
  | inr e ↦ rw (replace_dots, e) (ground (arith, dots-head d s, dots-none (d ∷ s)))
]

replaced-kept :
    (s : Text)
    → is_empty s ≡ false
    → same s dot ≡ false
    → (is_empty (replace_dots s) ≡ false) × (same (replace_dots s) dot ≡ false)
unfolding replace_dots same
replaced-kept [] h k = (h, k)
replaced-kept (c ∷ []) h k = (h, k)
replaced-kept (c ∷ d ∷ s) h k = elim (Bool-cases (c == b'.' && d == b'.')) [
  | inl e ↦ rw (replace_dots, e) (refl, refl)
  | inr e ↦ rw (replace_dots, e) (refl, ground (arith, more s))
]
  where
    more : (t : Text) → is_empty (replace_dots (d ∷ t)) ≡ false
    more [] = refl
    more (f ∷ t) = elim (Bool-cases (d == b'.' && f == b'.')) [
      | inl e ↦ rw (replace_dots, e) refl
      | inr e ↦ rw (replace_dots, e) refl
    ]

underscore-IsSafe : IsSafe (b'_' ∷ [])
unfolding any is_reserved contains_text starts_with same
underscore-IsSafe = record { bytes = refl; dots = refl; not_dot = refl; full = refl }

-- Whatever the name of an item or a folder is, sanitize makes of it one name that can stand in a
-- path: it is neither empty nor ".", holds no "..", and no slash, backslash, colon, star, question
-- mark, quotation mark, angle bracket or bar.
pub sanitize-IsSafe : (s : Text) → IsSafe (sanitize s)
unfolding sanitize trim_space
sanitize-IsSafe s =
    let t = trim_space (map plain s) in
    let clean = right-any (trim_space_left (map plain s)) (left-any (map plain s) (plain-any s)) in
    elim (Bool-cases (is_empty t || same t dot || same t dot_dot)) [
      | inl e ↦ rw e (underscore-IsSafe)
      | inr e ↦
          let kept = replaced-kept t (ground arith) (ground arith) in
          rw e (record {
            bytes = dots-any t clean;
            dots = dots-none t;
            not_dot = kept.1;
            full = kept.0;
          })
    ]
