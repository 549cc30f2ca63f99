-- ===== src/Orders/Cancel/Effect.antt =====
-- What the cancellation of an order gives back.
use mallbyte_api.Common.Table.{lookup, save, lookup-save_self}
use Prim.Native.String.{String}
use mallbyte_api.Common.{
  ℕ, ◌+◌, ◌≡◌, ap, ◌∙◌, ◌≢◌, inl, inr, true, Option, none, some, List, [], ◌∷◌, arith, Option-cases,
  pos, ok, Result-cases,
}
use mallbyte_api.Inventory.Stock.{Stock, release_reservation, with_stock}
use mallbyte_api.Inventory.Stock.Table.{AllSound, with_stock-AllSound}
use mallbyte_api.Inventory.Stock.Reservation.{release-IsSound}
use mallbyte_api.Inventory.Movement.Effect.{quantity_at, reserved_at}
use mallbyte_api.Inventory.Place.{with_stock-quantity, with_stock-release, release-KeepsTotal}
use mallbyte_api.Market.Row.{Order, OrderItem, OrderStatus, Payment, pending_payment}
use mallbyte_api.Market.State.{Market}
use mallbyte_api.Orders.Total.{with_total}
use mallbyte_api.Orders.Query.{is_open, items_of}
use mallbyte_api.Payments.Attempt.{cancel_attempts}
use mallbyte_api.Payments.Attempt.Once.{unfinished, cancel_attempts-unfinished}
use mallbyte_api.Payments.Complete.{Moment, mark_success}
use mallbyte_api.Payments.Complete.Sale.{taken_by}
use mallbyte_api.Payments.Complete.Capture.{mark_success_inv}
use mallbyte_api.Orders.Cancel.{release_items, return_discount, cancel}

-- Releasing the items takes from what is reserved at each place what the items hold there, and
-- changes no total.
pub release_items_effect :
    (user : Option ℕ) (is : List OrderItem) (t t' : List Stock) (p v : ℕ)
    → release_items user is t ≡ ok t'
    → (quantity_at p v t' ≡ quantity_at p v t)
      × (reserved_at p v t' + taken_by p v is ≡ reserved_at p v t)
unfolding release_items
release_items_effect user [] t t' p v h = ground arith
release_items_effect user (i ∷ is) t t' p v h = elim (Option-cases i.warehouse) [
  | inl nowhere ↦ ground (arith, release_items_effect user is t t' p v)
  | inr (w, e) ↦
      elim (Result-cases (with_stock i.product w (release_reservation (pos i.quantity) user) t)) [
        | inr (x, raised) ↦ ground arith
        | inl (t₁, done) ↦ ground (
          arith,
          with_stock-quantity i.product w (release_reservation (pos i.quantity) user) t t₁
              (release-KeepsTotal (pos i.quantity) user) done p v,
          with_stock-release i.product w i.quantity user t t₁ done p v,
          release_items_effect user is t₁ t' p v,
        )
      ]
]

pub release_items-AllSound :
    (user : Option ℕ) (is : List OrderItem) (t t' : List Stock)
    → release_items user is t ≡ ok t'
    → AllSound t
    → AllSound t'
unfolding release_items
release_items-AllSound user [] t t' h v = let e : t ≡ t' = ground arith in rw (← e) v
release_items-AllSound user (i ∷ is) t t' h v = elim (Option-cases i.warehouse) [
  | inl nowhere ↦ release_items-AllSound user is t t' (ground arith) v
  | inr (w, e) ↦
      elim (Result-cases (with_stock i.product w (release_reservation (pos i.quantity) user) t)) [
        | inr (x, raised) ↦ ground arith
        | inl (t₁, done) ↦ release_items-AllSound user is t₁ t' (ground arith) (
            with_stock-AllSound i.product w (release_reservation (pos i.quantity) user) t
              (release-IsSound (pos i.quantity) user) v done)
      ]
]

pub cancelled_order : ℕ → Order → Order
cancelled_order now o =
    with_total (record o { status = OrderStatus.cancelled; cancelled_at = some now })

module _ (user : Option ℕ) (now pk : ℕ) where
  pub cancel_inv :
      (db db' : Market)
      → cancel user now pk db ≡ ok db'
      → (order : Order) × (lookup pk db.orders ≡ some order)
        × (order.status ≡ pending_payment)
        × (is_open order.payment_status ≡ true)
        × (release_items user (items_of pk db.items) db.ledger.stocks ≡ ok db'.ledger.stocks)
        × (db'.payments ≡ cancel_attempts pk none now "Order cancelled." db.payments)
        × (db'.orders ≡ save pk (cancelled_order now order) db.orders)
        × (db'.ledger.movements ≡ db.ledger.movements)
        × (db'.usages ≡ (return_discount pk db).usages)
        × (db'.discounts ≡ (return_discount pk db).discounts)
  unfolding cancel cancelled_order
  cancel_inv db db' h = elim (Option-cases (lookup pk db.orders)) [
    | inl missing ↦ ground arith
    | inr (order, stored) ↦
        elim (Result-cases (release_items user (items_of pk db.items) db.ledger.stocks)) [
          | inr (x, raised) ↦ ground arith
          | inl (t, done) ↦ (
            order,
            stored,
            ground arith,
            ground arith,
            ground arith,
            ground arith,
            ground arith,
            ground arith,
            ground arith,
            ground arith,
          )
        ]
  ]

  -- A cancellation that succeeds was of an order that waits for its payment: it is cancelled, at
  -- each place it gives back exactly what its items reserved, no total and no movement changes,
  -- and none of its attempts is pending any more.
  pub cancel_effect :
      (db db' : Market)
      → cancel user now pk db ≡ ok db'
      → (order : Order) × (lookup pk db.orders ≡ some order)
        × (order.status ≡ pending_payment)
        × (is_open order.payment_status ≡ true)
        × (lookup pk db'.orders ≡ some (cancelled_order now order))
        × (unfinished pk none db'.payments ≡ 0)
        × (db'.ledger.movements ≡ db.ledger.movements)
        × ((p v : ℕ)
            → (quantity_at p v db'.ledger.stocks ≡ quantity_at p v db.ledger.stocks)
              × (reserved_at p v db'.ledger.stocks + taken_by p v (items_of pk db.items)
                  ≡ reserved_at p v db.ledger.stocks))
  cancel_effect db db' h =
      let (order, stored, waits, unsettled, released, payments, orders, log, usages, discounts) =
        cancel_inv db db' h in
      (
        order,
        stored,
        waits,
        unsettled,
        ap (lookup pk) orders
            ∙ lookup-save_self pk (cancelled_order now order) order db.orders stored,
        ap (unfinished pk none) payments
            ∙ cancel_attempts-unfinished pk none now "Order cancelled." db.payments,
        log,
        λ p v.
            release_items_effect user (items_of pk db.items) db.ledger.stocks db'.ledger.stocks p v
              released,
      )

  -- After the cancellation of an order, no attempt for it completes, whatever the time and the
  -- gateway say.
  pub cancel-excludes-payment :
      (db db' db'' : Market)
      → cancel user now pk db ≡ ok db'
      → (distinct : List ℕ → List ℕ) (later : ℕ) (reference : String) (confirmed : Option Moment)
        (attempt : ℕ) {p : Payment}
      → lookup attempt db'.payments ≡ some p
      → p.order ≡ pk
      → mark_success distinct later reference confirmed attempt db' ≢ ok db''
  unfolding cancelled_order with_total
  cancel-excludes-payment db db' db'' h distinct later reference confirmed attempt {p} stored of =
      λ paid.
        let c = mark_success_inv distinct later reference confirmed attempt db' db'' paid in
        let e = cancel_effect db db' h in
        let waits = c.payable.awaiting in
        let same : c.p ≡ p = ground (arith, c.stored) in
        let order : c.order ≡ cancelled_order now e.0 = ground (arith, c.ordered, e.4, same) in
        ground arith
