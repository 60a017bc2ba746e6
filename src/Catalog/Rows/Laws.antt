-- ===== src/Catalog/Rows/Laws.antt =====
-- internal/catalog/store.go: catalog_items as a map from keys to items.
use m365_backup.Base.{
  ◌≡◌, refl, inl, inr, true, false, ◌&&◌, Option, none, some, List, [], ◌∷◌, Text, arith, same,
  same-eq, same_refl, same_sym, any, find_if, if◌then◌else◌, Bool-cases, &&_split,
}
use m365_backup.Catalog.Item.{Item}
use m365_backup.Catalog.Rows.{has_key, get_item, upsert_item, mark_deleted}

-- The UNIQUE constraint: no two rows with one service and Graph ID.
abbrev pub UniqueKeys : List Item → Type 0
UniqueKeys [] = Unit {0}
UniqueKeys (r ∷ rs) = (any (has_key r.service r.graph_item_id) rs ≡ false) × UniqueKeys rs

pub has_key-eq :
    (service id : Text) (r : Item)
    → has_key service id r ≡ true
    → (r.service ≡ service) × (r.graph_item_id ≡ id)
has_key-eq service id r h =
    let (a, b) = &&_split (same r.service service) (same r.graph_item_id id) h in
    (same-eq r.service service a, same-eq r.graph_item_id id b)

pub has_key_self : (r : Item) → has_key r.service r.graph_item_id r ≡ true
has_key_self r = ground (arith, same_refl r.service, same_refl r.graph_item_id)

pub has_key-cong :
    (service id : Text) (r t : Item)
    → has_key t.service t.graph_item_id r ≡ true
    → has_key service id r ≡ has_key service id t
has_key-cong service id r t h = let (a, b) = has_key-eq t.service t.graph_item_id r h in rw (a, b)

pub has_key_trans :
    (service id : Text) (r t : Item)
    → has_key service id r ≡ true
    → has_key service id t ≡ true
    → has_key t.service t.graph_item_id r ≡ true
has_key_trans service id r t h k = let (a, b) = has_key-eq service id t k in rw (a, b) h

abbrev pub live_copy : Item → Item
live_copy it = record it { deleted = false }

-- An upserted item is read back under its key, not deleted, and all other keys are as before.
pub get-upsert :
    (rows : List Item) (it : Item) (service id : Text)
    → get_item (upsert_item rows it) service id
      ≡ (if has_key service id it then some (live_copy it) else get_item rows service id)
unfolding get_item upsert_item find_if
get-upsert [] it service id = ground arith
get-upsert (r ∷ rs) it service id = elim (Bool-cases (has_key it.service it.graph_item_id r)) [
  | inl e ↦ rw e (ground (arith, has_key-cong service id r it e))
  | inr e ↦ rw e (ground (arith, get-upsert rs it service id, has_key_trans service id r it))
]

abbrev pub deleted_copy : Option Item → Option Item
deleted_copy none = none
deleted_copy (some r) = some (record r { deleted = true })

-- After markDeleted the row of the key is deleted, and all other rows are as before.
pub get-mark_deleted :
    (rows : List Item) (service id s i : Text)
    → get_item (mark_deleted rows service id) s i ≡ (
        if same s service && same i id then deleted_copy (get_item rows s i) else get_item rows s i)
unfolding get_item mark_deleted find_if
get-mark_deleted [] service id s i = ground arith
get-mark_deleted (r ∷ rs) service id s i = elim (Bool-cases (has_key s i r)) [
  | inl e ↦
      let (a, b) = has_key-eq s i r e in
      let swap : has_key service id r ≡ (same s service && same i id) = rw (a, b) in
      ground (arith, swap, get-mark_deleted rs service id s i)
  | inr e ↦ ground (arith, get-mark_deleted rs service id s i)
]

any_key-upsert :
    (rows : List Item) (it : Item) (service id : Text)
    → has_key service id it ≡ false
    → any (has_key service id) (upsert_item rows it) ≡ any (has_key service id) rows
unfolding upsert_item any
any_key-upsert [] it service id h = ground arith
any_key-upsert (r ∷ rs) it service id h =
    elim (Bool-cases (has_key it.service it.graph_item_id r)) [
      | inl e ↦ rw e (ground (arith, has_key-cong service id r it e))
      | inr e ↦ rw e (ground (arith, any_key-upsert rs it service id h))
    ]

-- An upsert keeps the rows unique by service and Graph ID.
pub upsert_item-UniqueKeys :
    (rows : List Item) (it : Item) → UniqueKeys rows → UniqueKeys (upsert_item rows it)
unfolding upsert_item any
upsert_item-UniqueKeys [] it u = (refl, tt)
upsert_item-UniqueKeys (r ∷ rs) it u = elim (Bool-cases (has_key it.service it.graph_item_id r)) [
  | inl e ↦
      let (a, b) = has_key-eq it.service it.graph_item_id r e in rw e ((rw (← a, ← b) u.0, u.1))
  | inr e ↦
      let other : has_key r.service r.graph_item_id it ≡ false =
        ground (arith, same_sym r.service it.service, same_sym r.graph_item_id it.graph_item_id) in
      rw e (
        (ground (arith, any_key-upsert rs it r.service r.graph_item_id other)),
        upsert_item-UniqueKeys rs it u.1,
      )
]

any_key-mark :
    (rows : List Item) (service id s i : Text)
    → any (has_key s i) (mark_deleted rows service id) ≡ any (has_key s i) rows
unfolding mark_deleted any
any_key-mark [] service id s i = refl
any_key-mark (r ∷ rs) service id s i = ground (arith, any_key-mark rs service id s i)

pub mark_deleted-UniqueKeys :
    (rows : List Item) (service id : Text)
    → UniqueKeys rows
    → UniqueKeys (mark_deleted rows service id)
unfolding mark_deleted
mark_deleted-UniqueKeys [] service id u = tt
mark_deleted-UniqueKeys (r ∷ rs) service id u = elim (Bool-cases (has_key service id r)) [
  | inl e ↦ rw e (
    (ground (arith, any_key-mark rs service id r.service r.graph_item_id)),
    mark_deleted-UniqueKeys rs service id u.1,
  )
  | inr e ↦ rw e (
    (ground (arith, any_key-mark rs service id r.service r.graph_item_id)),
    mark_deleted-UniqueKeys rs service id u.1,
  )
]
