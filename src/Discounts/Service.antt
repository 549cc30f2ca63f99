-- ===== src/Discounts/Service.antt =====
-- apps/discounts/services.py: finding a discount by its code, and using it up on an order.
pub mod Usage
use Prim.Native.String.{String}
use text.Mathlib.Text.{◌==◌ as str_eq}
use mallbyte_api.Common.Account.{User}
use mallbyte_api.Common.Table.{lookup, save}
use mallbyte_api.Common.{
  ℕ, zero, suc, ◌+◌, ◌-◌, ◌*◌, ◌/◌, ◌%◌, ◌≤◌, ◌<◌, min, ◌≡◌, refl, sym, ap, ◌∙◌, ◌≢◌, ◌↔◌, ◌⊎◌, inl,
  inr, Bool, true, false, not, ◌&&◌, ◌||◌, Option, none, some, List, [], ◌∷◌, ◌++◌, arith, ltb, leb,
  ◌==◌, if◌then◌else◌, Bool-cases, Option-cases, is_some, is_id, ℤ, pos, negsuc, pos_part, neg_part,
  sub_ℕ, ◌+ℤ◌, ◌-ℤ◌, ◌≤ℤ◌, ltb_ℤ, leb_ℤ, +ℤ_parts, -ℤ_parts, eq_of_parts, int_laws, Result, ok, err,
  ◌>>=◌, ◌>>◌, raise_if, or_raise, map_err, Result-cases,
}
use mallbyte_api.Market.Row.{Product, CartItem, Discount, DiscountUsage, Order}
use mallbyte_api.Market.State.{Market}
use mallbyte_api.Discounts.{Error, invalid_code, validate_for_cart}
use mallbyte_api.Orders.Total.{with_discount}

pub data ServiceError : Type 0 where
  rejected : Error → ServiceError
  does_not_exist integrity : ServiceError

-- `Discount.objects.get(code=…)`
unfoldable pub find_code : String → List (ℕ × Discount) → Option (ℕ × Discount)
find_code code [] = none
find_code code ((k, d) ∷ ds) = if str_eq d.code code then some (k, d) else find_code code ds

-- `normalize` is Python's `strip().upper()`.
unfoldable pub get_discount_by_code :
    (String → String) → String → List (ℕ × Discount) → Result Error (ℕ × Discount)
get_discount_by_code normalize code discounts =
    or_raise (find_code (normalize code) discounts) invalid_code

unfoldable pub validate_discount_for_cart :
    (String → String)
    → ℕ
    → String
    → Option User
    → List CartItem
    → Market
    → Result Error (ℕ × Discount × ℕ)
validate_discount_for_cart normalize now code user cart db = do
  (pk, d) ← get_discount_by_code normalize code db.discounts
  amount ← validate_for_cart db.catalog now pk d user db.usages cart
  ok (pk, d, amount)

-- The one-to-one column of `DiscountUsage.order`.
unfoldable pub has_usage : ℕ → List (ℕ × DiscountUsage) → Bool
has_usage order [] = false
has_usage order ((k, u) ∷ us) = (u.order == order) || has_usage order us

-- `store` is what a money column of the database holds of an amount in hundredths.
unfoldable pub apply_discount_to_order :
    (ℕ → ℕ) → ℕ → ℕ → User → List CartItem → ℕ → Market → Result ServiceError Market
apply_discount_to_order store now discount user cart order_pk db = do
  locked ← or_raise (lookup discount db.discounts) does_not_exist
  amount ←
      map_err rejected (validate_for_cart db.catalog now discount locked (some user) db.usages cart)
  order ← or_raise (lookup order_pk db.orders) does_not_exist
  raise_if (has_usage order_pk db.usages) integrity
  let usage : DiscountUsage = record {
    discount = discount;
    user = user.id;
    order = order_pk;
    code_snapshot = locked.code;
    discount_amount = store amount;
  }
  ok (record db {
    orders = save order_pk (with_discount store amount order) db.orders;
    usages = (db.next_key, usage) ∷ db.usages;
    discounts = save discount (record locked { used_count = locked.used_count + 1 }) db.discounts;
    next_key = db.next_key + 1;
  })
