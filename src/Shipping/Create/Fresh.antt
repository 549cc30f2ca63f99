-- ===== src/Shipping/Create/Fresh.antt =====
-- A new shipment of a seller's order.
use mallbyte_api.Common.Table.{lookup, sum_rows}
use mallbyte_api.Common.{
  ℕ, ◌≡◌, refl, inl, inr, true, false, Option, none, some, List, [], ◌∷◌, arith, Option-cases, ok,
  Result-cases,
}
use mallbyte_api.Market.Row.{Order, Shipment, Carrier}
use mallbyte_api.Market.State.{Market}
use mallbyte_api.Orders.Query.{items_of, sellers_of, is_paid, is_live}
use mallbyte_api.Shipping.Status.{ensure_paid_order, has_legacy_active}
use mallbyte_api.Shipping.Create.{
  has_active, active_exists, create_from_order, fulfillment_of, choose, sorted, new_shipment,
  at_most_one,
}
use mallbyte_api.Shipping.Transition.Single.{IsSingle, active_for}

no_active :
    (k : ℕ) (ss : List (ℕ × Shipment)) → has_active k ss ≡ false → sum_rows (active_for k) ss ≡ 0
unfolding has_active
no_active k [] h = refl
no_active k ((j, s) ∷ ss) h = ground (arith, no_active k ss)

fulfillment_of-shipments :
    (order : ℕ) (chosen : Option ℕ) (db : Market)
    → ((fulfillment_of order chosen db).1.shipments ≡ db.shipments)
      × ((fulfillment_of order chosen db).1.orders ≡ db.orders)
unfolding fulfillment_of
fulfillment_of-shipments order none db = (refl, refl)
fulfillment_of-shipments order (some seller) db = (ground arith, ground arith)

module _ (distinct : List ℕ → List ℕ) (pk : ℕ) (by : Option ℕ) (carrier : Option Carrier)
    (seller : Option ℕ) where
  create_inv :
      (key : ℕ) (db db' : Market)
      → create_from_order distinct pk by carrier seller db ≡ ok (key, db')
      → let sellers = sorted (distinct (sellers_of db.catalog (items_of pk db.items))) in
        (order : Order) × (chosen : Option ℕ) × (lookup pk db.orders ≡ some order)
        × (ensure_paid_order order ≡ ok tt)
        × (choose seller sellers ≡ ok chosen)
        × (active_exists pk (fulfillment_of pk chosen db).0 db.shipments ≡ false)
        × (has_legacy_active pk db.shipments ≡ false)
        × (db'.shipments
            ≡ (
              key,
              new_shipment pk order
                  (fulfillment_of pk chosen db).0
                  carrier
                  (at_most_one sellers)
                  by,
            )
              ∷ db.shipments)
  unfolding create_from_order
  create_inv key db db' h = elim (Option-cases (lookup pk db.orders)) [
    | inl missing ↦ ground arith
    | inr (order, stored) ↦ elim (Result-cases (ensure_paid_order order)) [
      | inr (e, raised) ↦ ground arith
      | inl (u, payable) ↦
          elim (Result-cases
            (choose seller (sorted (distinct (sellers_of db.catalog (items_of pk db.items)))))) [
              | inr (e, raised) ↦ ground arith
              | inl (chosen, chose) ↦
                  let same = fulfillment_of-shipments pk chosen db in
                  (
                    order,
                    chosen,
                    stored,
                    ground arith,
                    chose,
                    ground arith,
                    ground arith,
                    ground arith,
                  )
            ]
    ]
  ]

  -- Where each seller's order has at most one active shipment, it still has after a shipment is
  -- created, and the order of the new shipment is stored, paid, and neither waiting, cancelled
  -- nor refunded.
  pub create-IsSingle :
      (key : ℕ) (db db' : Market)
      → create_from_order distinct pk by carrier seller db ≡ ok (key, db')
      → IsSingle db
      → IsSingle db'
        × ((order : Order) × (lookup pk db.orders ≡ some order)
            × (is_paid order.payment_status ≡ true)
            × (is_live order.status ≡ true))
  unfolding new_shipment ensure_paid_order
  create-IsSingle key db db' h single =
      let (order, chosen, stored, payable, chose, none_active, none_legacy, shipments) =
        create_inv key db db' h in
      (
        λ k. elim (Option-cases (fulfillment_of pk chosen db).0) [
          | inl whole ↦ rw shipments (ground (arith, single k))
          | inr (f, mine) ↦ rw shipments (ground (arith, single k, no_active k db.shipments))
        ],
        (order, stored, ground arith, ground arith),
      )
