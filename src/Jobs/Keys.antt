-- ===== src/Jobs/Keys.antt =====
-- internal/db/job.go: the primary key, and what an update leaves alone.
use m365_backup.Base.{
  ◌≡◌, refl, false, List, [], ◌∷◌, ◌++◌, Text, arith, same_sym, any, any-append, Bool-cases, inl,
  inr, map,
}
use m365_backup.Clock.{Time}
use m365_backup.Jobs.{Job, has_id, replace, fail_row}

-- No two rows have one ID.
abbrev pub UniqueIds : List Job → Type 0
UniqueIds [] = Unit {0}
UniqueIds (j ∷ js) = (any (has_id j.id) js ≡ false) × UniqueIds js

pub UniqueIds-append :
    (js : List Job) (j : Job)
    → UniqueIds js
    → any (has_id j.id) js ≡ false
    → UniqueIds (js ++ j ∷ [])
unfolding any
UniqueIds-append [] j u h = (refl, tt)
UniqueIds-append (k ∷ ks) j u h = (
  ground (arith, u.0, any-append (has_id k.id) ks (j ∷ []), same_sym j.id k.id),
  UniqueIds-append ks j u.1 (ground arith),
)

-- An update that keeps a row's ID keeps every test on IDs.
pub any_id-replace :
    (f : Job → Job) (id x : Text) (js : List Job)
    → ((j : Job) → (f j).id ≡ j.id)
    → any (has_id x) (replace f id js) ≡ any (has_id x) js
unfolding any replace
any_id-replace f id x [] keep = refl
any_id-replace f id x (j ∷ js) keep = ground (arith, keep j, any_id-replace f id x js keep)

pub UniqueIds-replace :
    (f : Job → Job) (id : Text) (js : List Job)
    → ((j : Job) → (f j).id ≡ j.id)
    → UniqueIds js
    → UniqueIds (replace f id js)
unfolding replace
UniqueIds-replace f id [] keep u = tt
UniqueIds-replace f id (j ∷ js) keep u = elim (Bool-cases (has_id id j)) [
  | inl e ↦
      (ground (arith, keep j, any_id-replace f id j.id js keep), UniqueIds-replace f id js keep u.1)
  | inr e ↦ (ground (arith, any_id-replace f id j.id js keep), UniqueIds-replace f id js keep u.1)
]

pub fail_row-id : (reason : Text) (now : Time) (j : Job) → (fail_row reason now j).id ≡ j.id
unfolding fail_row
fail_row-id reason now j = ground arith

any_id-map :
    (f : Job → Job) (x : Text) (js : List Job)
    → ((j : Job) → (f j).id ≡ j.id)
    → any (has_id x) (map f js) ≡ any (has_id x) js
unfolding any
any_id-map f x [] keep = refl
any_id-map f x (j ∷ js) keep = ground (arith, keep j, any_id-map f x js keep)

pub UniqueIds-map :
    (f : Job → Job) (js : List Job)
    → ((j : Job) → (f j).id ≡ j.id)
    → UniqueIds js
    → UniqueIds (map f js)
UniqueIds-map f [] keep u = tt
UniqueIds-map f (j ∷ js) keep u =
    (rw (keep j, any_id-map f j.id js keep) u.0, UniqueIds-map f js keep u.1)
