-- ===== src/Discounts/Service/Usage.antt =====
-- How often a discount has been used.
use mallbyte_api.Common.Account.{User}
use mallbyte_api.Common.Table.{lookup, save, lookup-save_self, lookup-save_ne}
use mallbyte_api.Common.{
  ℕ, ◌+◌, ◌≤◌, ◌≡◌, ap, ◌∙◌, inl, inr, ◌&&◌, some, List, [], ◌∷◌, arith, ◌==◌, if◌then◌else◌,
  Bool-cases, Option-cases, ok, Result-cases,
}
use mallbyte_api.Market.Row.{CartItem, Discount, DiscountUsage, Order}
use mallbyte_api.Market.State.{Market}
use mallbyte_api.Discounts.{
  validate_for_cart, calculate_discount_amount, count_usages, get_user_usage_count,
}
use mallbyte_api.Discounts.Amount.{IsUsable, validate_for_cart_iff}
use mallbyte_api.Orders.Total.{with_discount}
use mallbyte_api.Discounts.Service.{apply_discount_to_order}

-- The usage rows of a discount.
abbrev pub usages_of : ℕ → List (ℕ × DiscountUsage) → ℕ
usages_of pk [] = 0
usages_of pk ((k, u) ∷ us) = (if u.discount == pk then 1 else 0) + usages_of pk us

-- Every discount counts its usage rows, and its count and that of each user are within its limits.
pub record IsCounted (db : Market) (pk : ℕ) (d : Discount) : Type 0 where
  pub counted : d.used_count ≡ usages_of pk db.usages
  pub within : (n : ℕ) → d.usage_limit_total ≡ some n → d.used_count ≤ n
  pub each : (n user : ℕ) → d.usage_limit_per_user ≡ some n → count_usages pk user db.usages ≤ n

abbrev pub AllCounted : Market → Type 0
AllCounted db = (pk : ℕ) (d : Discount) → lookup pk db.discounts ≡ some d → IsCounted db pk d

module _ (store : ℕ → ℕ) (now pk : ℕ) (user : User) (cart : List CartItem) (order_pk : ℕ) where
  pub apply_inv :
      (db db' : Market)
      → apply_discount_to_order store now pk user cart order_pk db ≡ ok db'
      → (d : Discount) × (o : Order) × (lookup pk db.discounts ≡ some d)
        × (lookup order_pk db.orders ≡ some o)
        × IsUsable db.catalog now pk d (some user) db.usages cart
        × (db'.discounts ≡ save pk (record d { used_count = d.used_count + 1 }) db.discounts)
        × (db'.orders
            ≡ save order_pk
                (with_discount store (calculate_discount_amount db.catalog d cart) o)
                db.orders)
        × ((q v : ℕ)
            → (usages_of q db'.usages ≡ usages_of q db.usages + (if pk == q then 1 else 0))
              × (count_usages q v db'.usages
                  ≡ count_usages q v db.usages + (if (pk == q) && (user.id == v) then 1 else 0)))
  unfolding apply_discount_to_order count_usages
  apply_inv db db' h = elim (Option-cases (lookup pk db.discounts)) [
    | inl missing ↦ ground arith
    | inr (d, found) ↦
        elim (Result-cases (validate_for_cart db.catalog now pk d (some user) db.usages cart)) [
          | inr (e, raised) ↦ ground arith
          | inl (amount, valid) ↦ elim (Option-cases (lookup order_pk db.orders)) [
            | inl missing ↦ ground arith
            | inr (o, stored) ↦
                let (usable, same) =
                  (validate_for_cart_iff db.catalog now pk d (some user) db.usages cart amount).0
                    valid in
                (
                  d,
                  o,
                  found,
                  stored,
                  usable,
                  ground arith,
                  ground arith,
                  λ q v. (ground arith, ground arith),
                )
          ]
        ]
  ]

  -- Where every discount counts its usage rows and is within its total limit and the limit of
  -- each user, it still is after a discount is applied to an order.
  pub apply-AllCounted :
      (db db' : Market)
      → apply_discount_to_order store now pk user cart order_pk db ≡ ok db'
      → AllCounted db
      → AllCounted db'
  unfolding get_user_usage_count
  apply-AllCounted db db' h all q e found =
      let (d, o, at, stored, usable, discounts, orders, more) = apply_inv db db' h in
      elim (Bool-cases (pk == q)) [
        | inl here ↦
            let used : Discount = record d { used_count = d.used_count + 1 } in
            let new : lookup pk db'.discounts ≡ some used =
              ap (lookup pk) discounts ∙ lookup-save_self pk used d db.discounts at in
            let old = all pk d at in
            let same : e ≡ used = ground arith in
            record {
              counted = ground (arith, old.counted, more q 0);
              within = λ n limit. ground (arith, usable.total_left n);
              each = λ n v limit. ground (arith, old.each n v, usable.user_left n, more q v);
            }
        | inr away ↦
            let used : Discount = record d { used_count = d.used_count + 1 } in
            let kept : lookup q db.discounts ≡ some e =
              ground (arith, lookup-save_ne pk q used db.discounts) in
            let old = all q e kept in
            record {
              counted = ground (arith, old.counted, more q 0);
              within = old.within;
              each = λ n v limit. ground (arith, old.each n v, more q v);
            }
      ]
