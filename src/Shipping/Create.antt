-- ===== src/Shipping/Create.antt =====
-- `Shipment.create_from_order` of apps/shipping/models.py.
pub mod Fresh
use mallbyte_api.Common.Table.{lookup}
use mallbyte_api.Common.{
  ℕ, ◌+◌, Bool, true, false, not, ◌&&◌, ◌||◌, Option, none, some, List, [], ◌∷◌, leb, ◌==◌,
  if◌then◌else◌, is_id, Result, ok, err, ◌>>=◌, ◌>>◌, raise_if, or_raise,
}
use mallbyte_api.Market.Row.{
  Order, OrderStatus, Shipment, ShipmentStatus, ShipmentEvent, Carrier, post,
}
use mallbyte_api.Market.State.{Market}
use mallbyte_api.Discounts.{is_in}
use mallbyte_api.Orders.Query.{items_of, sellers_of, find_fulfillment}
use mallbyte_api.Shipping.Failure.{
  Error, does_not_exist, choose_seller, no_seller_items, no_items, shipment_exists,
}
use mallbyte_api.Shipping.Status.{ensure_paid_order, is_active, has_legacy_active}

-- Python's `sorted`.
unfoldable pub insert_sorted : ℕ → List ℕ → List ℕ
insert_sorted a [] = a ∷ []
insert_sorted a (b ∷ bs) = if leb a b then a ∷ b ∷ bs else b ∷ insert_sorted a bs

unfoldable pub sorted : List ℕ → List ℕ
unfolding insert_sorted
sorted [] = []
sorted (a ∷ rest) = insert_sorted a (sorted rest)

abbrev pub is_single : List ℕ → Bool
is_single (a ∷ []) = true
is_single _ = false

-- The seller of the shipment: the one that is asked for, or the only one of the order.
unfoldable pub choose : Option ℕ → List ℕ → Result Error (Option ℕ)
choose none [] = ok none
choose (some seller) [] = err no_items
choose none (a ∷ rest) = do raise_if (not (is_single (a ∷ rest))) choose_seller; ok (some a)
choose (some seller) (a ∷ rest) = do
  raise_if (not (is_in seller (a ∷ rest))) no_seller_items
  ok (some seller)

-- The fulfillment of the seller, created as paid if there is none: its key and the tables.
unfoldable pub fulfillment_of : ℕ → Option ℕ → Market → Option ℕ × Market
fulfillment_of order none db = (none, db)
fulfillment_of order (some seller) db = elim (find_fulfillment order seller db.fulfillments) [
  | some (k, f) ↦ (some k, db)
  | none ↦ (
    some db.next_key,
    record db {
      fulfillments =
          (db.next_key, record { order = order; seller = seller; status = OrderStatus.paid })
          ∷ db.fulfillments;
      next_key = db.next_key + 1;
    },
  )
]

abbrev pub is_for : Option ℕ → ℕ → Bool
is_for fulfillment k = is_id fulfillment k

-- `filter(seller_fulfillment=…)` without the cancelled and returned ones, `exists()`
unfoldable pub has_active : ℕ → List (ℕ × Shipment) → Bool
has_active fulfillment [] = false
has_active fulfillment ((k, s) ∷ ss) =
    (is_for s.seller_fulfillment fulfillment && is_active s.status) || has_active fulfillment ss

-- The same over all shipments of the order, for an order without items.
unfoldable pub has_active_order : ℕ → List (ℕ × Shipment) → Bool
has_active_order order [] = false
has_active_order order ((k, s) ∷ ss) =
    ((s.order == order) && is_active s.status) || has_active_order order ss

abbrev pub active_exists : ℕ → Option ℕ → List (ℕ × Shipment) → Bool
active_exists order none ss = has_active_order order ss
active_exists order (some k) ss = has_active k ss

abbrev pub or_post : Option Carrier → Carrier
or_post none = post
or_post (some c) = c

abbrev pub at_most_one : List ℕ → Bool
at_most_one (a ∷ b ∷ rest) = false
at_most_one _ = true

unfoldable pub new_shipment : ℕ → Order → Option ℕ → Option Carrier → Bool → Option ℕ → Shipment
new_shipment pk order fulfillment carrier whole created_by = record {
  order = pk;
  seller_fulfillment = fulfillment;
  user = order.user;
  carrier = or_post carrier;
  status = ShipmentStatus.pending;
  tracking_number = "";
  tracking_url = "";
  shipping_cost = if whole then order.shipping_cost else 0;
  address = order.address;
  shipped_at = none;
  delivered_at = none;
  cancelled_at = none;
  created_by = created_by;
}

-- The key of the new shipment, and the tables. `distinct` is the database's, on the sellers of
-- the items.
unfoldable pub create_from_order :
    (List ℕ → List ℕ)
    → ℕ
    → Option ℕ
    → Option Carrier
    → Option ℕ
    → Market
    → Result Error (ℕ × Market)
unfolding new_shipment
create_from_order distinct pk created_by carrier seller db = do
  order ← or_raise (lookup pk db.orders) does_not_exist
  ensure_paid_order order
  let sellers = sorted (distinct (sellers_of db.catalog (items_of pk db.items)))
  chosen ← choose seller sellers
  let (fulfillment, db₁) = fulfillment_of pk chosen db
  raise_if (active_exists pk fulfillment db₁.shipments || has_legacy_active pk db₁.shipments)
      shipment_exists
  let event : ShipmentEvent = record {
    shipment = db₁.next_key;
    old_status = none;
    new_status = ShipmentStatus.pending;
    created_by = created_by;
  }
  ok (
    db₁.next_key,
    record db₁ {
      shipments =
          (db₁.next_key, new_shipment pk order fulfillment carrier (at_most_one sellers) created_by)
          ∷ db₁.shipments;
      shipment_events = event ∷ db₁.shipment_events;
      next_key = db₁.next_key + 1;
    },
  )
