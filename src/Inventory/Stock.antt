-- ===== src/Inventory/Stock.antt =====
-- `class Stock` of apps/inventory/models.py: the counters of one product in one warehouse.
-- A row is found by its product and warehouse, which `unique_stock_per_product_warehouse` makes
-- a key.
pub mod Table
pub mod Reservation
use mallbyte_api.Common.{
  ℕ, ◌+◌, ◌-◌, ◌≤◌, Bool, Option, none, some, List, [], ◌∷◌, ◌&&◌, ◌==◌, if◌then◌else◌, ℤ, pos,
  pos_part, sub_ℕ, ltb, leb_ℤ, ltb_ℤ, Result, ok, ◌>>=◌, ◌>>◌, raise_if, or_raise,
}
use mallbyte_api.Inventory.Failure.{
  Error, reserve_not_positive, not_enough_available, release_not_positive, release_above_reserved,
  reserved_above_total, does_not_exist,
}

pub record Stock : Type 0 where
  pub product : ℕ
  pub warehouse : ℕ
  pub quantity : ℕ
  pub reserved_quantity : ℕ
  pub low_stock_threshold : ℕ
  pub updated_by : Option ℕ

-- The check constraint `stock_reserved_lte_quantity`; the other two hold by the type.
abbrev pub IsSound : Stock → Type 0
IsSound s = s.reserved_quantity ≤ s.quantity

unfoldable pub available_quantity : Stock → ℤ
available_quantity s = sub_ℕ s.quantity s.reserved_quantity

unfoldable pub is_low_stock : Stock → Bool
unfolding available_quantity
is_low_stock s = leb_ℤ (available_quantity s) (pos s.low_stock_threshold)

unfoldable pub clean : Stock → Result Error (Unit {0})
clean s = raise_if (ltb s.quantity s.reserved_quantity) reserved_above_total

-- The body of `reserve` on the locked row.
unfoldable pub reserve : ℤ → Option ℕ → Stock → Result Error Stock
unfolding available_quantity
reserve quantity user stock = do
  raise_if (leb_ℤ quantity (pos 0)) reserve_not_positive
  raise_if (ltb_ℤ (available_quantity stock) quantity) not_enough_available
  ok (record stock {
    reserved_quantity = stock.reserved_quantity + pos_part quantity;
    updated_by = user;
  })

-- The body of `release_reservation` on the locked row.
unfoldable pub release_reservation : ℤ → Option ℕ → Stock → Result Error Stock
release_reservation quantity user stock = do
  raise_if (leb_ℤ quantity (pos 0)) release_not_positive
  raise_if (ltb_ℤ (pos stock.reserved_quantity) quantity) release_above_reserved
  ok (record stock {
    reserved_quantity = stock.reserved_quantity - pos_part quantity;
    updated_by = user;
  })

-- The table of stock rows.
abbrev pub is_at : ℕ → ℕ → Stock → Bool
is_at p w s = p == s.product && w == s.warehouse

abbrev pub find_stock : ℕ → ℕ → List Stock → Option Stock
find_stock p w [] = none
find_stock p w (s ∷ t) = if is_at p w s then some s else find_stock p w t

-- `stock.save()` of the row at `p` and `w`, which is there.
abbrev pub save_stock : ℕ → ℕ → Stock → List Stock → List Stock
save_stock p w new [] = []
save_stock p w new (s ∷ t) = if is_at p w s then new ∷ t else s ∷ save_stock p w new t

-- `select_for_update().get(…)`, a method on the row, and `save`.
unfoldable pub with_stock :
    ℕ → ℕ → (Stock → Result Error Stock) → List Stock → Result Error (List Stock)
with_stock p w method stocks = do
  stock ← or_raise (find_stock p w stocks) does_not_exist
  stock' ← method stock
  ok (save_stock p w stock' stocks)
