-- ===== src/Orders/Checkout/Placed.antt =====
-- A whole checkout.
use mallbyte_api.Common.Account.{User}
use mallbyte_api.Common.Table.{lookup, save}
use Prim.Native.String.{String}
use mallbyte_api.Common.{
  ℕ, ◌+◌, ◌≡◌, ap, ◌∙◌, inl, inr, Option, none, some, List, [], ◌∷◌, arith, Option-cases, ok,
  Result-cases,
}
use mallbyte_api.Inventory.Stock.Table.{AllSound}
use mallbyte_api.Inventory.Movement.Effect.{quantity_at, reserved_at}
use mallbyte_api.Market.Row.{CartItem}
use mallbyte_api.Market.State.{Market}
use mallbyte_api.Discounts.{cart_subtotal, validate_for_cart}
use mallbyte_api.Discounts.Service.{apply_discount_to_order}
use mallbyte_api.Orders.Query.{items_of}
use mallbyte_api.Payments.Complete.Sale.{taken_by}
use mallbyte_api.Orders.Checkout.{
  Request, new_order, order_items, apply_discount, validate, checkout,
}
use mallbyte_api.Orders.Checkout.Effect.{order_items-Reserves, price_of}

module _ (strip upper : String → String) (store : ℕ → ℕ) where
  -- Using a discount touches neither the stock nor the items.
  apply_discount_keeps :
      (now : ℕ) (user : User) (cart : List CartItem) (order : ℕ) (discount : Option ℕ)
      (db db' : Market)
      → apply_discount strip upper store now user cart order discount db ≡ ok db'
      → (db'.ledger ≡ db.ledger) × (db'.items ≡ db.items)
  unfolding apply_discount apply_discount_to_order
  apply_discount_keeps now user cart order none db db' h = ground arith
  apply_discount_keeps now user cart order (some pk) db db' h =
      elim (Option-cases (lookup pk db.discounts)) [
        | inl missing ↦ ground arith
        | inr (d, found) ↦
            elim (Result-cases (validate_for_cart db.catalog now pk d (some user) db.usages cart)) [
              | inr (e, raised) ↦ ground arith
              | inl (amount, valid) ↦ elim (Option-cases (lookup order db.orders)) [
                | inl missing ↦ ground arith
                | inr (o, stored) ↦ ground arith
              ]
            ]
      ]

  module _ (number : String) (now : ℕ) (user : User) (r : Request) where
    -- What a checkout that succeeds went through.
    pub record Places (key : ℕ) (db db' : Market) : Type 0 where
      pub cart : List CartItem
      pub discount : Option ℕ
      pub reserved : Market
      pub applied : Market
      pub validated : validate strip upper store now user r db ≡ ok (cart, discount)
      pub numbered : key ≡ db.next_key
      pub looped :
          order_items user.id db.next_key cart (record db {
            orders = (db.next_key, new_order number user.id cart r) ∷ db.orders;
            next_key = db.next_key + 1;
          })
          ≡ ok reserved
      pub discounted :
          apply_discount strip upper store now user cart db.next_key discount reserved ≡ ok applied
      pub ledger : db'.ledger ≡ applied.ledger
      pub items : db'.items ≡ applied.items
      pub orders : db'.orders ≡ applied.orders
      pub carts : db'.carts ≡ save user.id [] applied.carts

    pub checkout_inv :
        (key : ℕ) (db db' : Market)
        → checkout strip upper store number now user r db ≡ ok (key, db')
        → Places key db db'
    unfolding checkout
    checkout_inv key db db' h = elim (Result-cases (validate strip upper store now user r db)) [
      | inr (e, raised) ↦ ground arith
      | inl ((cart, discount), valid) ↦
          let db₁ : Market = record db {
            orders = (db.next_key, new_order number user.id cart r) ∷ db.orders;
            next_key = db.next_key + 1;
          } in
          elim (Result-cases (order_items user.id db.next_key cart db₁)) [
            | inr (e, raised) ↦ ground arith
            | inl (db₂, looped) ↦
                elim (Result-cases
                  (apply_discount strip upper store now user cart db.next_key discount db₂)) [
                    | inr (e, raised) ↦ ground arith
                    | inl (db₃, applied) ↦ record {
                      cart = cart;
                      discount = discount;
                      reserved = db₂;
                      applied = db₃;
                      validated = valid;
                      numbered = ground arith;
                      looped = looped;
                      discounted = applied;
                      ledger = ground arith;
                      items = ground arith;
                      orders = ground arith;
                      carts = ground arith;
                    }
                  ]
          ]
    ]

    -- A checkout that succeeds from sound counters, where no item has the new key yet, reserves at
    -- each place what the new order's items take there, changes no total, prices the items as the
    -- cart, keeps the counters sound and writes no movement.
    pub checkout_effect :
        (key : ℕ) (db db' : Market)
        → checkout strip upper store number now user r db ≡ ok (key, db')
        → items_of db.next_key db.items ≡ []
        → AllSound db.ledger.stocks
        → (cart : List CartItem) × (discount : Option ℕ) × (validate strip upper store now user r db
            ≡ ok (cart, discount))
          × (key ≡ db.next_key)
          × (price_of (items_of key db'.items) ≡ cart_subtotal cart)
          × ((p v : ℕ)
              → (quantity_at p v db'.ledger.stocks ≡ quantity_at p v db.ledger.stocks)
                × (reserved_at p v db'.ledger.stocks
                    ≡ reserved_at p v db.ledger.stocks + taken_by p v (items_of key db'.items)))
          × (db'.ledger.movements ≡ db.ledger.movements)
          × AllSound db'.ledger.stocks
    checkout_effect key db db' h fresh v =
        let c = checkout_inv key db db' h in
        let (kept, same) =
          apply_discount_keeps now user c.cart db.next_key c.discount c.reserved c.applied
            c.discounted in
        let f = order_items-Reserves user.id db.next_key c.cart _ c.reserved c.looped in
        let ledger = c.ledger ∙ kept in
        let items : items_of key db'.items ≡ items_of db.next_key c.reserved.items =
          ap (items_of key) (c.items ∙ same) ∙ ap (λ k. items_of k c.reserved.items) c.numbered in
        (
          c.cart,
          c.discount,
          c.validated,
          c.numbered,
          rw items (omega (arith, f.priced, ap price_of fresh)),
          λ p v. (
            rw ledger (f.totals p v),
            rw (ledger, items) (omega (arith, f.reserved p v, ap (taken_by p v) fresh)),
          ),
          rw ledger f.movements,
          rw ledger (f.sound v),
        )
