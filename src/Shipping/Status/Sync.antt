-- ===== src/Shipping/Status/Sync.antt =====
-- The order's status against those of its sellers.
use mallbyte_api.Common.Table.{lookup, lookup-save_self}
use mallbyte_api.Common.{
  ℕ, ◌≡◌, refl, ◌≢◌, ◌↔◌, inl, inr, true, false, Option, none, some, List, [], ◌∷◌, arith,
  Bool-cases,
}
use mallbyte_api.Market.Row.{Order, OrderStatus, processing, shipped, delivered}
use mallbyte_api.Market.State.{Market}
use mallbyte_api.Orders.Query.{is_delivered}
use mallbyte_api.Orders.Total.{with_total}
use mallbyte_api.Shipping.Status.{
  derived_status, all_of, any_of, is_shipped, is_begun, is_empty, same_status, moved_order,
  statuses_of, has_legacy_active, sync_order_status,
}

all_shipped_of_delivered :
    (ss : List OrderStatus) → all_of is_delivered ss ≡ true → all_of is_shipped ss ≡ true
all_shipped_of_delivered [] h = refl
all_shipped_of_delivered (s ∷ ss) h = ground (arith, all_shipped_of_delivered ss)

begun_of_shipped :
    (ss : List OrderStatus)
    → is_empty ss ≡ false
    → all_of is_shipped ss ≡ true
    → any_of is_begun ss ≡ true
begun_of_shipped [] e h = cc
begun_of_shipped (s ∷ ss) e h = ground arith

-- The whole order ships only after all sellers have shipped, and is delivered exactly when they
-- all have delivered; it is in processing exactly when some seller has begun and not all have
-- shipped, and paid exactly when none has begun. This is of an order with sellers and without a
-- shipment of the order as a whole.
pub derived_status_iff :
    (fallback : OrderStatus) (ss : List OrderStatus)
    → is_empty ss ≡ false
    → ((derived_status false fallback ss ≡ delivered) ↔ (all_of is_delivered ss ≡ true))
      × ((derived_status false fallback ss ≡ shipped)
          ↔ ((all_of is_shipped ss ≡ true) × (all_of is_delivered ss ≡ false)))
      × ((derived_status false fallback ss ≡ processing)
          ↔ ((any_of is_begun ss ≡ true) × (all_of is_shipped ss ≡ false)))
      × ((derived_status false fallback ss ≡ OrderStatus.paid) ↔ (any_of is_begun ss ≡ false))
unfolding derived_status
derived_status_iff fallback ss some_seller = (
  (λ h. ground arith, λ h. ground arith),
  (λ h. ground arith, λ h. ground arith),
  (
    λ h. ground (arith, all_shipped_of_delivered ss),
    λ h. ground (arith, all_shipped_of_delivered ss),
  ),
  (
    λ h. ground (arith, begun_of_shipped ss),
    λ h. ground (arith, begun_of_shipped ss, all_shipped_of_delivered ss),
  ),
)

module _ (pk : ℕ) (order : Order) (fallback : OrderStatus) (user : Option ℕ) (at : ℕ)
    (db : Market) where
  -- After `_sync_order_status` the stored order has the status that follows from its sellers, its
  -- payment status is kept, a new delivery has the time given, and a delivery that is taken back
  -- has none.
  pub sync_order_status_effect :
      lookup pk db.orders ≡ some order
      → (order' : Order) × (lookup pk (sync_order_status pk order fallback user at db).orders
          ≡ some order')
        × (order'.status
            ≡ derived_status
                (has_legacy_active pk db.shipments)
                fallback
                (statuses_of pk db.fulfillments))
        × (order.status ≢ delivered → order'.status ≡ delivered → order'.delivered_at ≡ some at)
        × (order.status ≡ delivered → order'.status ≢ delivered → order'.delivered_at ≡ none)
        × (order'.payment_status ≡ order.payment_status)
  unfolding sync_order_status moved_order with_total
  sync_order_status_effect stored =
      let new =
        derived_status (has_legacy_active pk db.shipments) fallback
          (statuses_of pk db.fulfillments) in
      elim (Bool-cases (same_status new order.status)) [
        | inl same ↦
            (order, ground arith, ground arith, λ a b. ground arith, λ a b. ground arith, refl)
        | inr moved ↦ (
          moved_order new at order,
          ground (arith, lookup-save_self pk (moved_order new at order) order db.orders),
          refl,
          λ a b. ground arith,
          λ a b. ground arith,
          refl,
        )
      ]
