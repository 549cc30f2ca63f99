-- ===== src/Examples/Parcel.antt =====
-- The shop with a parcel for the paid order, and after it was sent.

use mallbyte_api.Common.{none, some, [], ◌∷◌}
use mallbyte_api.Market.Row.{OrderStatus, shipped, Shipment, ShipmentStatus, ShipmentEvent, post}
use mallbyte_api.Market.State.{Market}
use mallbyte_api.Examples.Shop.{home, seller_order}
use mallbyte_api.Examples.Settled.{paid_order, settled}

abbrev pub parcel : Shipment
parcel = record {
  order = 100;
  seller_fulfillment = some 102;
  user = 3;
  carrier = post;
  status = ShipmentStatus.pending;
  tracking_number = "";
  tracking_url = "";
  shipping_cost = 8;
  address = home;
  shipped_at = none;
  delivered_at = none;
  cancelled_at = none;
  created_by = some 5;
}

abbrev parcel_event : ShipmentEvent
parcel_event = record {
  shipment = 105;
  old_status = none;
  new_status = ShipmentStatus.pending;
  created_by = some 5;
}

-- The tables with a shipment of the order.
abbrev pub packed : Market
packed = record settled {
  shipments = (105, parcel) ∷ [];
  shipment_events = parcel_event ∷ [];
  next_key = 106;
}

abbrev pub sent_parcel : Shipment
sent_parcel = record parcel {
  status = ShipmentStatus.shipped;
  tracking_number = "T";
  shipped_at = some 50;
}

-- The tables after the parcel was sent, which ships the order.
abbrev pub sent : Market
sent = record packed {
  orders = (100, record paid_order { status = shipped }) ∷ [];
  fulfillments = (102, seller_order shipped) ∷ [];
  fulfillment_history =
      record {
        fulfillment = 102;
        old_status = OrderStatus.paid;
        new_status = shipped;
        changed_by = some 5;
      }
      ∷ settled.fulfillment_history;
  order_history =
      record {
        order = 100;
        old_status = some OrderStatus.paid;
        new_status = shipped;
        changed_by = some 5;
      }
      ∷ settled.order_history;
  shipments = (105, sent_parcel) ∷ [];
  shipment_events =
      record {
        shipment = 105;
        old_status = some ShipmentStatus.pending;
        new_status = ShipmentStatus.shipped;
        created_by = some 5;
      }
      ∷ parcel_event
      ∷ [];
}
