-- ===== src/Catalog/Store/Reconcile.antt =====
-- internal/catalog/store.go: Delete and FinishReconcile.
use m365_backup.Base.{
  ℕ, ◌≡◌, refl, ap, sym, ◌∙◌, inl, inr, Bool, true, false, not, ◌&&◌, Option, none, some, List, [],
  ◌∷◌, Text, arith, same, same-eq, same_refl, is_empty, any, find_if, find_if_holds, same_text,
  keep_if, contains, length, if◌then◌else◌, Bool-cases, Option-cases, &&_split,
}
use m365_backup.Blobs.{Crypto}
use m365_backup.Catalog.Item.{Item, delete}
use m365_backup.Catalog.Rows.{has_key, is_live, get_item, mark_deleted}
use m365_backup.Catalog.Rows.Laws.{get-mark_deleted, deleted_copy, has_key-eq, has_key_self}
use m365_backup.Catalog.Store.{
  Store, tombstone, delete_item, delete_key, delete_all, unseen, finish_reconcile,
}
use m365_backup.Catalog.Store.Frame.{note_pending-rest, rematch_id-present}

-- The row of a key, if there is one, is marked deleted.
abbrev pub IsGone : Option Item → Type 0
IsGone o = (r : Item) → o ≡ some r → r.deleted ≡ true

delete_item-items :
    (c : Crypto) (s : Store) (service id : Text) (old : Item)
    → get_item s.items service id ≡ some old
    → (delete_item c s service id).items ≡ mark_deleted s.items service id
unfolding delete_item
delete_item-items c s service id old h =
    rw (rematch_id-present c s (tombstone service id) old h)
      (note_pending-rest (record s { items = mark_deleted s.items service id }) delete _).0

-- Delete of a key that has a row marks this row deleted and changes no other row.
get-delete_item :
    (c : Crypto) (s : Store) (service id : Text) (old : Item) (t i : Text)
    → get_item s.items service id ≡ some old
    → get_item (delete_item c s service id).items t i ≡ (
        if same t service && same i id
        then deleted_copy (get_item s.items t i)
        else get_item s.items t i)
get-delete_item c s service id old t i h =
    rw (delete_item-items c s service id old h) (get-mark_deleted s.items service id t i)

-- Every ID of the list has a row, and none is empty.
abbrev AllPresent : List Item → Text → List Text → Type 0
AllPresent rows service [] = Unit {0}
AllPresent rows service (id ∷ ids) =
    (is_empty id ≡ false)
    × ((old : Item) × (get_item rows service id ≡ some old))
    × AllPresent rows service ids

present_copy :
    (o : Option Item) → (old : Item) × (o ≡ some old) → (new : Item) × (deleted_copy o ≡ some new)
present_copy none (old, e) = absurd (cc)
present_copy (some r) h = (record r { deleted = true }, refl)

present-delete_item :
    (c : Crypto) (s : Store) (service id : Text) (old : Item) (i : Text)
    → get_item s.items service id ≡ some old
    → (x : Item) × (get_item s.items service i ≡ some x)
    → (x : Item) × (get_item (delete_item c s service id).items service i ≡ some x)
present-delete_item c s service id old i h p =
    elim (Bool-cases (same service service && same i id)) [
      | inl e ↦
          let (x, q) = present_copy (get_item s.items service i) p in
          (x, ground (arith, get-delete_item c s service id old service i h))
      | inr e ↦ (p.0, ground (arith, get-delete_item c s service id old service i h, p.1))
    ]

AllPresent-delete_item :
    (c : Crypto) (s : Store) (service id : Text) (old : Item) (ids : List Text)
    → get_item s.items service id ≡ some old
    → AllPresent s.items service ids
    → AllPresent (delete_item c s service id).items service ids
AllPresent-delete_item c s service id old [] h p = tt
AllPresent-delete_item c s service id old (i ∷ ids) h p = (
  p.0,
  present-delete_item c s service id old i h p.1,
  AllPresent-delete_item c s service id old ids h p.2,
)

deleted_copy_idem : (o : Option Item) → deleted_copy (deleted_copy o) ≡ deleted_copy o
deleted_copy_idem none = refl
deleted_copy_idem (some r) = refl

-- A loop of Deletes over rows that are there succeeds, and marks exactly their rows.
delete_all-get :
    (c : Crypto) (s : Store) (service : Text) (ids : List Text)
    → is_empty service ≡ false
    → AllPresent s.items service ids
    → (s' : Store) × (delete_all c s service ids ≡ some s')
      × ((t i : Text)
          → get_item s'.items t i ≡ (
              if same t service && contains ids i
              then deleted_copy (get_item s.items t i)
              else get_item s.items t i))
unfolding delete_all delete_key contains
delete_all-get c s service [] n p = (s, refl, λ t i. ground arith)
delete_all-get c s service (id ∷ ids) n p =
    let (old, row) = p.1 in
    let s1 = delete_item c s service id in
    let (s', run, got) =
      delete_all-get c s1 service ids n (AllPresent-delete_item c s service id old ids row p.2) in
    (
      s',
      ground (arith, p.0),
      λ t i. ground (
        arith,
        got t i,
        get-delete_item c s service id old t i row,
        deleted_copy_idem (get_item s.items t i),
        same-eq i id,
        same-eq id i,
        same_refl id,
      ),
    )

contains-unseen :
    (rows : List Item) (service : Text) (ids : List Text) (i : Text)
    → contains (unseen rows service ids) i
      ≡ any
          (λ r. is_live service r && not (contains ids r.graph_item_id) && same r.graph_item_id i)
          rows
unfolding unseen contains any keep_if
contains-unseen [] service ids i = refl
contains-unseen (r ∷ rs) service ids i = ground (arith, contains-unseen rs service ids i)

-- Every row of the list has its key in the table.
abbrev AllIn : List Item → List Item → Type 0
AllIn rows [] = Unit {0}
AllIn rows (r ∷ rs) =
    ((x : Item) × (get_item rows r.service r.graph_item_id ≡ some x)) × AllIn rows rs

AllIn-cons : (r : Item) (rows sub : List Item) → AllIn rows sub → AllIn (r ∷ rows) sub
unfolding get_item find_if
AllIn-cons r rows [] a = tt
AllIn-cons r rows (x ∷ xs) a = elim (Bool-cases (has_key x.service x.graph_item_id r)) [
  | inl e ↦ ((r, ground arith), AllIn-cons r rows xs a.1)
  | inr e ↦ ((a.0.0, ground (arith, a.0.1)), AllIn-cons r rows xs a.1)
]

AllIn-self : (rows : List Item) → AllIn rows rows
unfolding get_item find_if
AllIn-self [] = tt
AllIn-self (r ∷ rs) = ((r, ground (arith, has_key_self r)), AllIn-cons r rs rs (AllIn-self rs))

-- No row has an empty Graph ID, which Put and Keep refuse.
abbrev pub IsNamed : List Item → Type 0
IsNamed rows = any (λ r. is_empty r.graph_item_id) rows ≡ false

unseen-AllPresent :
    (rows sub : List Item) (service : Text) (ids : List Text)
    → IsNamed sub
    → AllIn rows sub
    → AllPresent rows service (unseen sub service ids)
unfolding unseen keep_if any
unseen-AllPresent rows [] service ids n a = tt
unseen-AllPresent rows (r ∷ rs) service ids n a =
    elim (Bool-cases (is_live service r && not (contains ids r.graph_item_id))) [
      | inl e ↦
          let (live, new) = &&_split (is_live service r) (not (contains ids r.graph_item_id)) e in
          let (own, here) = &&_split (same r.service service) (not r.deleted) live in
          rw e (
            ground arith,
            (
              a.0.0,
              ap (λ (t : Text). get_item rows t r.graph_item_id)
                    (sym (same-eq r.service service own))
                  ∙ a.0.1,
            ),
            unseen-AllPresent rows rs service ids (ground arith) a.1,
          )
      | inr e ↦ rw e (unseen-AllPresent rows rs service ids (ground arith) a.1)
    ]

find_if-any :
    (p q : Item → Bool) (rows : List Item) (r : Item)
    → find_if p rows ≡ some r
    → q r ≡ true
    → any q rows ≡ true
unfolding find_if any
find_if-any p q [] r h k = absurd (cc)
find_if-any p q (x ∷ xs) r h k = elim (Bool-cases (p x)) [
  | inl e ↦ let is_x : x ≡ r = ground arith in ground (arith, ap q is_x)
  | inr e ↦ ground (arith, find_if-any p q xs r)
]

any_unseen-seen :
    (rows : List Item) (service : Text) (ids : List Text) (i : Text)
    → contains ids i ≡ true
    → any
        (λ r. is_live service r && not (contains ids r.graph_item_id) && same r.graph_item_id i)
        rows
      ≡ false
unfolding any
any_unseen-seen [] service ids i h = refl
any_unseen-seen (r ∷ rs) service ids i h = elim (Bool-cases (same r.graph_item_id i)) [
  | inl e ↦
      ground
        (arith, any_unseen-seen rs service ids i h, ap (contains ids) (same-eq r.graph_item_id i e))
  | inr e ↦ ground (arith, any_unseen-seen rs service ids i h)
]

unseen-row :
    (rows : List Item) (service : Text) (ids : List Text) (i : Text) (x : Item)
    → contains ids i ≡ false
    → get_item rows service i ≡ some x
    → x.deleted ≡ false
    → contains (unseen rows service ids) i ≡ true
unfolding get_item
unseen-row rows service ids i x new row live =
    let (own, here) = has_key-eq service i x (find_if_holds (has_key service i) rows x row) in
    contains-unseen rows service ids i
    ∙ find_if-any (has_key service i)
        (λ r. is_live service r && not (contains ids r.graph_item_id) && same r.graph_item_id i)
        rows x row
        (ground (
          arith,
          ap (contains ids) here,
          same_text x.service service own,
          same_text x.graph_item_id i here,
        ))

-- A row of the service whose ID was not seen is marked by the reconcile, unless it was before.
IsGone-after :
    (rows : List Item) (service : Text) (ids : List Text) (i : Text)
    → contains ids i ≡ false
    → IsGone (
        if same service service && contains (unseen rows service ids) i
        then deleted_copy (get_item rows service i)
        else get_item rows service i)
IsGone-after rows service ids i new r e = elim (Option-cases (get_item rows service i)) [
  | inl n ↦ absurd (ground arith)
  | inr (x, row) ↦ elim (Bool-cases x.deleted) [
    | inl d ↦ ground arith
    | inr d ↦ ground (arith, unseen-row rows service ids i x new row d, same_refl service)
  ]
]

-- FinishReconcile succeeds for a named service under reconcile, if no row has an empty ID. Afterwards every item of the service
-- that the run has seen is as it was, every other item of the service is marked deleted, and the
-- items of all other services are as they were.
pub finish_reconcile_lem :
    (c : Crypto) (s : Store) (service : Text) (ids : List Text)
    → is_empty service ≡ false
    → IsNamed s.items
    → s.seen service ≡ some ids
    → (s' : Store) × (n : ℕ) × (finish_reconcile c s service ≡ some (s', n))
      × ((i : Text)
          → contains ids i ≡ true
          → get_item s'.items service i ≡ get_item s.items service i)
      × ((i : Text) → contains ids i ≡ false → IsGone (get_item s'.items service i))
      × ((t i : Text) → same t service ≡ false → get_item s'.items t i ≡ get_item s.items t i)
unfolding finish_reconcile
finish_reconcile_lem c s service ids n named seen =
    let (s', run, got) =
      delete_all-get c s service (unseen s.items service ids) n
        (unseen-AllPresent s.items s.items service ids named (AllIn-self s.items)) in
    (
      s',
      length (unseen s.items service ids),
      ground arith,
      (λ i h. ground (
        arith,
        got service i,
        contains-unseen s.items service ids i,
        any_unseen-seen s.items service ids i h,
      )),
      (λ i h. rw (got service i) (IsGone-after s.items service ids i h)),
      (λ t i h. ground (arith, got t i)),
    )
