-- ===== src/Orders/Progress/Prepared.antt =====
-- What the start of the preparation does.
use mathlib.Core.Path.{subst}
use mallbyte_api.Common.Account.{User}
use mallbyte_api.Common.Table.{lookup, save, lookup-save_self, lookup-save_ne}
use mallbyte_api.Common.{
  ℕ, ◌+◌, ◌≡◌, ◌≢◌, ◌⊎◌, refl, ap, sym, ◌∙◌, inl, inr, Bool, true, false, ◌&&◌, none, some, List,
  [], ◌∷◌, ◌==◌, if◌then◌else◌, ok, arith, Option-cases, Bool-cases, Result-cases,
}
use mallbyte_api.Market.Row.{
  Order, OrderStatus, pending_payment, processing, SellerOrderFulfillment,
}
use mallbyte_api.Market.State.{Market}
use mallbyte_api.Orders.Total.{with_total}
use mallbyte_api.Orders.Query.{is_paid, is_paid_order, find_fulfillment}
use mallbyte_api.Orders.Progress.{
  get_fulfillment, is_closed, check_seller_status, start_processing, seller_status,
}

find_fulfillment-stored :
    (order seller k : ℕ) (f : SellerOrderFulfillment) (fs : List (ℕ × SellerOrderFulfillment))
    → find_fulfillment order seller fs ≡ some (k, f)
    → (g : SellerOrderFulfillment) × (lookup k fs ≡ some g)
      × (f.order ≡ order)
      × (f.seller ≡ seller)
unfolding find_fulfillment
find_fulfillment-stored order seller k f [] h = cc
find_fulfillment-stored order seller k f ((j, g) ∷ fs) h =
    elim (Bool-cases ((g.order == order) && (g.seller == seller))) [
      | inl here ↦ (g, ground arith, ground arith, ground arith)
      | inr there ↦
          let (s, found, o, e) = find_fulfillment-stored order seller k f fs (ground arith) in
          elim (Bool-cases (k == j)) [
            | inl again ↦ (g, ground arith, o, e)
            | inr other ↦ (s, ground arith, o, e)
          ]
    ]

-- The part is the one that stands in the tables, or none stands there and it is made with the
-- status that `status` says.
abbrev IsSource : ℕ → ℕ → OrderStatus → Market → ℕ × SellerOrderFulfillment → Type 0
IsSource seller pk status db (k, f) =
    (find_fulfillment pk seller db.fulfillments ≡ some (k, f))
    ⊎ ((find_fulfillment pk seller db.fulfillments ≡ none)
        × (k ≡ db.next_key)
        × (f.status ≡ status))

-- The part of the seller is in the tables afterwards, and the other parts are as before.
abbrev IsPart : ℕ → ℕ → Market → (ℕ × SellerOrderFulfillment) × Market → Type 0
IsPart seller pk db ((k, f), db') =
    ((g : SellerOrderFulfillment) × (lookup k db'.fulfillments ≡ some g))
    × (f.order ≡ pk)
    × (f.seller ≡ seller)
    × ((j : ℕ) → j ≢ k → lookup j db'.fulfillments ≡ lookup j db.fulfillments)
    × (db'.orders ≡ db.orders)

get_fulfillment-found :
    (seller pk : ℕ) (order : Order) (db : Market) (f : ℕ × SellerOrderFulfillment)
    → find_fulfillment pk seller db.fulfillments ≡ some f
    → get_fulfillment seller pk order db ≡ (f, db)
unfolding get_fulfillment
get_fulfillment-found seller pk order db f e = ground arith

-- The part that is made.
abbrev new_part : ℕ → ℕ → Order → SellerOrderFulfillment
new_part seller pk order = record {
  order = pk;
  seller = seller;
  status = if is_paid order.payment_status then order.status else pending_payment;
}

get_fulfillment-missing :
    (seller pk : ℕ) (order : Order) (db : Market)
    → find_fulfillment pk seller db.fulfillments ≡ none
    → get_fulfillment seller pk order db ≡ (
      (db.next_key, new_part seller pk order),
      record db {
        fulfillments = (db.next_key, new_part seller pk order) ∷ db.fulfillments;
        next_key = db.next_key + 1;
      },
    )
unfolding get_fulfillment
get_fulfillment-missing seller pk order db e = ground arith

get_fulfillment-IsPart :
    (seller pk : ℕ) (order : Order) (db : Market)
    → IsPart seller pk db (get_fulfillment seller pk order db)
get_fulfillment-IsPart seller pk order db =
    elim (Option-cases (find_fulfillment pk seller db.fulfillments)) [
      | inl missing ↦
          subst (IsPart seller pk db) (sym (get_fulfillment-missing seller pk order db missing))
            ((new_part seller pk order, ground arith), refl, refl, λ j d. ground arith, refl)
      | inr ((k, f), found) ↦
          let (g, stored, o, s) = find_fulfillment-stored pk seller k f db.fulfillments found in
          subst (IsPart seller pk db) (sym (get_fulfillment-found seller pk order db (k, f) found))
            ((g, stored), o, s, λ j d. refl, refl)
    ]

get_fulfillment-IsSource :
    (seller pk : ℕ) (order : Order) (db : Market)
    → is_paid order.payment_status ≡ true
    → IsSource seller pk order.status db (get_fulfillment seller pk order db).0
get_fulfillment-IsSource seller pk order db paid_for =
    elim (Option-cases (find_fulfillment pk seller db.fulfillments)) [
      | inl missing ↦
          subst (λ g. IsSource seller pk order.status db g.0)
            (sym (get_fulfillment-missing seller pk order db missing))
            (inr (missing, refl, ground arith))
      | inr (f, found) ↦
          subst (λ g. IsSource seller pk order.status db g.0)
            (sym (get_fulfillment-found seller pk order db f found)) (inl found)
    ]

check_seller_status-ok :
    (order : Order) (f : SellerOrderFulfillment)
    → check_seller_status order f ≡ ok tt
    → (is_paid order.payment_status ≡ true)
      × (is_closed order.status ≡ false)
      × (is_paid_order f.status ≡ true)
unfolding check_seller_status
check_seller_status-ok order f h = ground arith

-- The order as it is stored afterwards.
order_after :
    (pk : ℕ) (order : Order) (orders orders' : List (ℕ × Order))
    → lookup pk orders ≡ some order
    → orders' ≡ (
        if is_paid_order order.status
        then save pk (with_total (record order { status = processing })) orders
        else orders)
    → (after : Order) × (lookup pk orders' ≡ some after)
      × (after.status ≡ (if is_paid_order order.status then processing else order.status))
      × (after.payment_status ≡ order.payment_status)
unfolding with_total
order_after pk order orders orders' found e = elim (Bool-cases (is_paid_order order.status)) [
  | inl was_paid ↦
      let new : Order = with_total (record order { status = processing }) in
      (new, ground (arith, lookup-save_self pk new order orders found), ground arith, refl)
  | inr was_not ↦ (order, ground arith, ground arith, refl)
]

-- A seller starts the preparation only of a paid order, which is neither cancelled nor refunded, and
-- only where the part of this order and seller that stands in the tables is paid, or none stands
-- there and the order itself, whose status the part is then made with, is paid; the part is then in
-- processing, and the parts of other keys are as they were. The order is in processing where it was paid and keeps its status
-- elsewhere; it stays paid for.
pub seller_status_effect :
    (is_seller : Bool) (user : User) (pk : ℕ) (db db' : Market)
    → seller_status is_seller user pk db ≡ ok db'
    → (order : Order) × (lookup pk db.orders ≡ some order)
      × (is_paid order.payment_status ≡ true)
      × (is_closed order.status ≡ false)
      × (k : ℕ) × (f : SellerOrderFulfillment) × ((find_fulfillment pk user.id db.fulfillments
            ≡ some (k, f))
          ⊎ ((find_fulfillment pk user.id db.fulfillments ≡ none)
              × (k ≡ db.next_key)
              × (f.status ≡ order.status)))
      × (f.order ≡ pk)
      × (f.seller ≡ user.id)
      × (is_paid_order f.status ≡ true)
      × (lookup k db'.fulfillments ≡ some (record f { status = processing }))
      × ((j : ℕ) → j ≢ k → lookup j db'.fulfillments ≡ lookup j db.fulfillments)
      × (after : Order) × (lookup pk db'.orders ≡ some after)
      × (after.status ≡ (if is_paid_order order.status then processing else order.status))
      × (after.payment_status ≡ order.payment_status)
unfolding seller_status start_processing
seller_status_effect is_seller user pk db db' h = elim (Option-cases (lookup pk db.orders)) [
  | inl missing ↦ ground arith
  | inr (order, found) ↦
      let got = get_fulfillment user.id pk order db in
      let ((g, stored), o, s, others, orders) = get_fulfillment-IsPart user.id pk order db in
      elim (Result-cases (check_seller_status order got.0.1)) [
        | inr (failure, bad) ↦ ground arith
        | inl (done, checked) ↦
            let (money, live, part) = check_seller_status-ok order got.0.1 checked in
            let new : SellerOrderFulfillment = record got.0.1 { status = processing } in
            let (parts, stored_orders) : (db'.fulfillments ≡ save got.0.0 new got.1.fulfillments)
                × (db'.orders ≡ (
                    if is_paid_order order.status
                    then save pk (with_total (record order { status = processing })) got.1.orders
                    else got.1.orders)) =
              ground arith in
            let (after, kept, status, paid_for) =
              order_after pk order got.1.orders db'.orders (ap (lookup pk) orders ∙ found)
                stored_orders in
            (
              order,
              found,
              money,
              live,
              got.0.0,
              got.0.1,
              get_fulfillment-IsSource user.id pk order db money,
              o,
              s,
              part,
              ap (lookup got.0.0) parts ∙ lookup-save_self got.0.0 new g got.1.fulfillments stored,
              λ j d.
                  ap (lookup j) parts
                  ∙ lookup-save_ne got.0.0 j new got.1.fulfillments d
                  ∙ others j d,
              after,
              kept,
              status,
              paid_for,
            )
      ]
]
