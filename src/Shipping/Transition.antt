-- ===== src/Shipping/Transition.antt =====
-- `mark_ready`, `mark_shipped`, `mark_delivered` and `cancel` of apps/shipping/models.py.
pub mod Single
pub mod Change
pub mod Follow
use Prim.Native.String.{String}
use mallbyte_api.Common.Table.{lookup, save}
use mallbyte_api.Common.{
  ℕ, Bool, true, false, not, Option, none, some, ◌∷◌, Result, ok, ◌>>=◌, ◌>>◌, raise_if, or_raise,
}
use mallbyte_api.Market.Row.{
  Order, OrderStatus, paid, processing, shipped, delivered, Shipment, ShipmentStatus, pending,
  ready_to_ship, in_transit, out_for_delivery, ShipmentEvent,
}
use mallbyte_api.Market.State.{Market}
use mallbyte_api.Shipping.Failure.{
  Error, does_not_exist, not_pending, not_shippable, not_deliverable, already_delivered,
  already_cancelled,
}
use mallbyte_api.Shipping.Status.{ensure_paid_order, set_seller_status, sync_order_status}

abbrev pub is_pending : ShipmentStatus → Bool
is_pending pending = true
is_pending _ = false

abbrev pub is_shippable : ShipmentStatus → Bool
is_shippable pending = true
is_shippable ready_to_ship = true
is_shippable _ = false

abbrev pub is_on_the_way : ShipmentStatus → Bool
is_on_the_way ShipmentStatus.shipped = true
is_on_the_way in_transit = true
is_on_the_way out_for_delivery = true
is_on_the_way _ = false

abbrev pub is_delivered : ShipmentStatus → Bool
is_delivered ShipmentStatus.delivered = true
is_delivered _ = false

abbrev pub is_cancelled : ShipmentStatus → Bool
is_cancelled ShipmentStatus.cancelled = true
is_cancelled _ = false

-- The new row of the shipment, and the event of its change from the old row.
unfoldable pub write : ℕ → Shipment → Shipment → Option ℕ → Market → Market
write pk old new user db =
    let event : ShipmentEvent = record {
      shipment = pk;
      old_status = some old.status;
      new_status = new.status;
      created_by = user;
    } in
    record db { shipments = save pk new db.shipments; shipment_events = event ∷ db.shipment_events }

-- The seller's status and then the order's, after the shipment was written.
unfoldable pub follow :
    ℕ → Order → Shipment → OrderStatus → Option ℕ → ℕ → Market → Result Error Market
follow order_pk order s new user at db = do
  db' ← set_seller_status s new user db
  ok (sync_order_status order_pk order new user at db')

unfoldable pub mark_ready : Option ℕ → ℕ → ℕ → Market → Result Error Market
mark_ready user now pk db = do
  s ← or_raise (lookup pk db.shipments) does_not_exist
  order ← or_raise (lookup s.order db.orders) does_not_exist
  ensure_paid_order order
  raise_if (not (is_pending s.status)) not_pending
  let s' = record s { status = ready_to_ship }
  follow s.order order s' processing user now (write pk s s' user db)

unfoldable pub mark_shipped : String → String → Option ℕ → ℕ → ℕ → Market → Result Error Market
mark_shipped number url user now pk db = do
  s ← or_raise (lookup pk db.shipments) does_not_exist
  order ← or_raise (lookup s.order db.orders) does_not_exist
  ensure_paid_order order
  raise_if (not (is_shippable s.status)) not_shippable
  let s' = record s {
    status = ShipmentStatus.shipped;
    tracking_number = number;
    tracking_url = url;
    shipped_at = some now;
  }
  follow s.order order s' shipped user now (write pk s s' user db)

unfoldable pub mark_delivered : Option ℕ → ℕ → ℕ → Market → Result Error Market
mark_delivered user now pk db = do
  s ← or_raise (lookup pk db.shipments) does_not_exist
  order ← or_raise (lookup s.order db.orders) does_not_exist
  ensure_paid_order order
  raise_if (not (is_on_the_way s.status)) not_deliverable
  let s' = record s { status = ShipmentStatus.delivered; delivered_at = some now }
  follow s.order order s' delivered user now (write pk s s' user db)

-- The seller and the order follow only where the shipment is a seller's.
unfoldable pub cancel : Option ℕ → ℕ → ℕ → Market → Result Error Market
cancel user now pk db = do
  s ← or_raise (lookup pk db.shipments) does_not_exist
  order ← or_raise (lookup s.order db.orders) does_not_exist
  raise_if (is_delivered s.status) already_delivered
  raise_if (is_cancelled s.status) already_cancelled
  let s' = record s { status = ShipmentStatus.cancelled; cancelled_at = some now }
  let written = write pk s s' user db
  elim s.seller_fulfillment [
    | none ↦ ok written
    | some k ↦ follow s.order order s' paid user now written
  ]
