-- ===== src/Orders/Cart/Item.antt =====
-- The items of one cart: each product once, and what adding one does.
use mathlib.Core.Path.{subst}
use mallbyte_api.Common.{
  ℕ, ◌+◌, ◌<◌, ◌≡◌, ◌≢◌, refl, ◌∙◌, inl, inr, true, none, some, List, [], ◌∷◌, ◌==◌, pos, ◌≤ℤ◌, ok,
  arith, Option-cases, Bool-cases,
}
use mallbyte_api.Inventory.Stock.{Stock}
use mallbyte_api.Market.Row.{CartItem}
use mallbyte_api.Orders.Checkout.{available_stock}
use mallbyte_api.Orders.Cart.{find_item, save_item, delete_item, added}

-- A cart has each product once, and some of it.
abbrev pub IsCart : List CartItem → Type 0
IsCart [] = Unit
IsCart (i ∷ is) = (find_item i.product is ≡ none) × (0 < i.quantity) × IsCart is

find_item-product :
    (p : ℕ) (i : CartItem) (is : List CartItem) → find_item p is ≡ some i → i.product ≡ p
unfolding find_item
find_item-product p i [] h = cc
find_item-product p i (j ∷ is) h = ground (arith, find_item-product p i is)

pub find_item-save_other :
    (p : ℕ) (new : CartItem) (is : List CartItem)
    → p ≢ new.product
    → find_item p (save_item new is) ≡ find_item p is
unfolding find_item save_item
find_item-save_other p new [] h = refl
find_item-save_other p new (j ∷ is) h = ground (arith, find_item-save_other p new is)

pub find_item-save_self :
    (new old : CartItem) (is : List CartItem)
    → find_item new.product is ≡ some old
    → find_item new.product (save_item new is) ≡ some new
unfolding find_item save_item
find_item-save_self new old [] h = cc
find_item-save_self new old (j ∷ is) h = ground (arith, find_item-save_self new old is)

same_key : (a c : ℕ) → (a == c) ≡ true → a ≡ c
same_key a c h = ground arith

pub save_item-IsCart :
    (new : CartItem) (is : List CartItem) → 0 < new.quantity → IsCart is → IsCart (save_item new is)
unfolding save_item
save_item-IsCart new [] q v = tt
save_item-IsCart new (j ∷ is) q v = elim (Bool-cases (j.product == new.product)) [
  | inl here ↦
      rw here (subst (λ p. find_item p is ≡ none) (same_key j.product new.product here) v.0, q, v.2)
  | inr there ↦ rw there (
    find_item-save_other j.product new is (λ e. ground arith) ∙ v.0,
    v.1,
    save_item-IsCart new is q v.2,
  )
]

delete_item-none :
    (p k : ℕ) (is : List CartItem) → find_item k is ≡ none → find_item k (delete_item p is) ≡ none
unfolding find_item delete_item
delete_item-none p k [] h = refl
delete_item-none p k (j ∷ is) h = ground (arith, delete_item-none p k is)

pub delete_item-IsCart : (p : ℕ) (is : List CartItem) → IsCart is → IsCart (delete_item p is)
unfolding delete_item
delete_item-IsCart p [] v = tt
delete_item-IsCart p (j ∷ is) v = elim (Bool-cases (j.product == p)) [
  | inl here ↦ rw here v.2
  | inr there ↦ rw there (delete_item-none p j.product is v.0, v.1, delete_item-IsCart p is v.2)
]

-- The quantity of a product in a cart, 0 where it is not there.
unfoldable pub quantity_of : ℕ → List CartItem → ℕ
unfolding find_item
quantity_of product cart = elim (find_item product cart) [ none ↦ 0 | some i ↦ i.quantity ]

-- What adding gives, by the item that was there.
pub added_effect :
    (product n price : ℕ) (stocks : List Stock) (cart items : List CartItem)
    → 0 < n
    → pos n ≤ℤ available_stock product stocks
    → added product n price stocks cart ≡ ok items
    → (m : ℕ) × (m ≡ n + quantity_of product cart)
      × (find_item product items
          ≡ some (record { product = product; quantity = m; unit_price = price }))
      × (pos m ≤ℤ available_stock product stocks)
      × ((other : ℕ) → other ≢ product → find_item other items ≡ find_item other cart)
      × (IsCart cart → IsCart items)
unfolding added quantity_of find_item
added_effect product n price stocks cart items q le h =
    elim (Option-cases (find_item product cart)) [
      | inl absent ↦
          let new : CartItem = record { product = product; quantity = n; unit_price = price } in
          let e : new ∷ cart ≡ items = ground arith in
          (
            n,
            ground arith,
            subst (λ l. find_item product l ≡ some new) e (ground arith),
            le,
            λ o d. subst (λ l. find_item o l ≡ find_item o cart) e (ground arith),
            λ v. subst IsCart e (absent, q, v),
          )
      | inr (i, found) ↦
          let new : CartItem = record {
            product = product;
            quantity = i.quantity + n;
            unit_price = price;
          } in
          let (e, fits) : (save_item new cart ≡ items)
              × (pos (i.quantity + n) ≤ℤ available_stock product stocks) =
            ground arith in
          (
            i.quantity + n,
            ground arith,
            subst (λ l. find_item product l ≡ some new) e (find_item-save_self new i cart found),
            fits,
            λ o d.
                subst (λ l. find_item o l ≡ find_item o cart) e (find_item-save_other o new cart d),
            λ v. subst IsCart e (save_item-IsCart new cart (omega arith) v),
          )
    ]
