-- ===== src/Catalog/Browse/Below.antt =====
-- internal/catalog/browse.go: the paths that lie below a folder, and the code's cuts of a path.
use m365_backup.Base.{
  ℕ, suc, ◌≡◌, ap, refl, ◌∙◌, ◌+◌, Bool, true, false, none, some, [], ◌∷◌, ◌++◌, Text, arith,
  is_empty, same, starts_with, any, length, drop, append_assoc, ◌==◌, if◌then◌else◌, Bool-cases,
  Option-cases, inl, inr,
}
use m365_backup.Catalog.Browse.{rest_at, before_slash}

-- The path of a name in a folder.
abbrev pub path_in : Text → Text → Text
path_in rel name = if is_empty rel then name else rel ++ b'/' ∷ name

abbrev pub has_slash : Text → Bool
has_slash s = any (λ c. c == b'/') s

pub starts_with-append : (a b : Text) → starts_with (a ++ b) a ≡ true
unfolding starts_with
starts_with-append [] b = refl
starts_with-append (c ∷ a) b = ground (arith, starts_with-append a b)

pub starts_with-rest : (s a : Text) → starts_with s a ≡ true → (t : Text) × (s ≡ a ++ t)
unfolding starts_with
starts_with-rest s [] h = (s, refl)
starts_with-rest [] (d ∷ a) h = absurd (ground arith)
starts_with-rest (c ∷ s) (d ∷ a) h =
    let (t, e) = starts_with-rest s a (ground arith) in
    let first : c ≡ d = ground arith in
    (t, ap (λ (x : ℕ). x ∷ s) first ∙ ap (λ (l : Text). d ∷ l) e)

drop-suc : (a : Text) (c : ℕ) (t : Text) → drop (suc (length a)) (a ++ c ∷ t) ≡ t
drop-suc [] c t = refl
drop-suc (x ∷ a) c t = drop-suc a c t

drop-past : (a : Text) (c : ℕ) (t : Text) → drop (length a + 1) (a ++ c ∷ t) ≡ t
drop-past a c t = let next : length a + 1 ≡ suc (length a) = omega arith in rw next (drop-suc a c t)

same-longer : (a : Text) (c : ℕ) (b : Text) → same (a ++ c ∷ b) a ≡ false
unfolding same
same-longer [] c b = refl
same-longer (x ∷ a) c b = ground (arith, same-longer a c b)

pub starts_with-folder :
    (rel rest : Text) → starts_with (rel ++ b'/' ∷ rest) (rel ++ b'/' ∷ []) ≡ true
starts_with-folder rel rest =
    rw (← append_assoc rel (b'/' ∷ []) rest) (starts_with-append (rel ++ b'/' ∷ []) rest)

-- What is not empty is found again below the folder.
pub rest_at-path_in :
    (rel rest : Text) → is_empty rest ≡ false → rest_at rel (path_in rel rest) ≡ some rest
unfolding rest_at
rest_at-path_in rel rest full = elim (Bool-cases (is_empty rel)) [
  | inl e ↦ rw e (ground arith)
  | inr e ↦
      rw (e, same-longer rel b'/' rest, starts_with-folder rel rest, drop-past rel b'/' rest, full)
        refl
]

-- And a path with a rest is that of the rest in the folder.
pub rest_at-some :
    (rel p rest : Text)
    → rest_at rel p ≡ some rest
    → (p ≡ path_in rel rest) × (is_empty rest ≡ false)
unfolding rest_at
rest_at-some rel p rest h = elim (Bool-cases (is_empty rel)) [
  | inl e ↦ rw e (ground arith)
  | inr e ↦ elim (Bool-cases (starts_with p (rel ++ b'/' ∷ []))) [
    | inr n ↦ absurd (ground arith)
    | inl y ↦
        let (t, split) = starts_with-rest p (rel ++ b'/' ∷ []) y in
        let whole : p ≡ rel ++ b'/' ∷ t = split ∙ append_assoc rel (b'/' ∷ []) t in
        let cut : drop (length rel + 1) p ≡ t =
          ap (drop (length rel + 1)) whole ∙ drop-past rel b'/' t in
        let its : t ≡ rest = ground arith in rw e (rw (← its) whole, ground arith)
  ]
]

pub before_slash-none : (s : Text) → before_slash s ≡ none → has_slash s ≡ false
unfolding before_slash any
before_slash-none [] h = refl
before_slash-none (c ∷ s) h = elim (Option-cases (before_slash s)) [
  | inl n ↦ ground (arith, before_slash-none s)
  | inr (d, n) ↦ absurd (ground arith)
]

pub before_slash-some :
    (s d : Text)
    → before_slash s ≡ some d
    → (has_slash d ≡ false) × (t : Text) × (s ≡ d ++ b'/' ∷ t)
unfolding before_slash any
before_slash-some [] d h = absurd (ground arith)
before_slash-some (c ∷ s) d h = elim (Bool-cases (c == b'/')) [
  | inl e ↦
      let none_before : d ≡ [] = ground arith in
      let slash : c ≡ b'/' = ground arith in rw (none_before, slash) (refl, s, refl)
  | inr e ↦ elim (Option-cases (before_slash s)) [
    | inl n ↦ absurd (ground arith)
    | inr (d', n) ↦
        let (clean, t, split) = before_slash-some s d' n in
        let more : d ≡ c ∷ d' = ground arith in rw more (rw (e, clean) refl, t, rw split refl)
  ]
]

pub before_slash-append : (d t : Text) → has_slash d ≡ false → before_slash (d ++ b'/' ∷ t) ≡ some d
unfolding before_slash any
before_slash-append [] t h = refl
before_slash-append (c ∷ d) t h = ground (arith, before_slash-append d t)

pub before_slash-clean : (s : Text) → has_slash s ≡ false → before_slash s ≡ none
unfolding before_slash any
before_slash-clean [] h = refl
before_slash-clean (c ∷ s) h = ground (arith, before_slash-clean s)

pub path_in-append : (rel a b : Text) → path_in rel (a ++ b) ≡ path_in rel a ++ b
path_in-append rel a b = elim (Bool-cases (is_empty rel)) [
  | inl e ↦ rw e refl
  | inr e ↦ rw e (ground (arith, append_assoc rel (b'/' ∷ a) b))
]

pub full_append : (a t : Text) → is_empty (a ++ b'/' ∷ t) ≡ false
full_append [] t = refl
full_append (c ∷ a) t = refl
