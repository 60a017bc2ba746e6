-- ===== src/Catalog/Rows.antt =====
-- internal/catalog/store.go: the statements on catalog_items, a table keyed by service and ID.
pub mod Laws
use m365_backup.Base.{
  ℕ, ◌+◌, Bool, true, false, not, ◌&&◌, Option, none, some, List, [], ◌∷◌, Text, same, any, keep_if,
  find_if, count_if, if◌then◌else◌,
}
use m365_backup.Catalog.Item.{Item}

abbrev pub has_key : Text → Text → Item → Bool
has_key service id it = same it.service service && same it.graph_item_id id

abbrev pub is_live : Text → Item → Bool
is_live service it = same it.service service && not it.deleted

-- getItem; `none` is sql.ErrNoRows.
unfoldable pub get_item : List Item → Text → Text → Option Item
get_item rows service id = find_if (has_key service id) rows

-- upsertItem: INSERT … ON CONFLICT DO UPDATE of every column but the key, with deleted=0.
unfoldable pub upsert_item : List Item → Item → List Item
upsert_item [] it = record it { deleted = false } ∷ []
upsert_item (r ∷ rs) it =
    if has_key it.service it.graph_item_id r
    then record it { deleted = false } ∷ rs
    else r ∷ upsert_item rs it

-- markDeleted.
unfoldable pub mark_deleted : List Item → Text → Text → List Item
mark_deleted [] service id = []
mark_deleted (r ∷ rs) service id =
    (if has_key service id r then record r { deleted = true } else r) ∷ mark_deleted rs service id

-- UPDATE catalog_items SET graph_item_id=? of the row with an alias.
unfoldable pub rename_item : List Item → Text → Text → Text → List Item
rename_item [] service alias id = []
rename_item (r ∷ rs) service alias id =
    (if has_key service alias r then record r { graph_item_id = id } else r)
    ∷ rename_item rs service alias id

-- liveStats.
unfoldable pub sum_sizes : Text → List Item → ℕ
sum_sizes service [] = 0
sum_sizes service (r ∷ rs) = (if is_live service r then r.size else 0) + sum_sizes service rs

unfoldable pub live_stats : List Item → Text → ℕ × ℕ
unfolding sum_sizes
live_stats rows service = (count_if (is_live service) rows, sum_sizes service rows)
