-- ===== src/Shipping/Transition/Single.antt =====
-- The status diagram of a shipment, and the one active shipment of each seller's order.
use Prim.Native.String.{String}
use mallbyte_api.Common.Table.{lookup, save, sum_rows, sum_rows-save}
use mallbyte_api.Common.{
  ℕ, ◌≤◌, ◌≡◌, refl, ◌≢◌, inl, inr, true, false, ◌&&◌, Option, some, arith, if◌then◌else◌,
  Option-cases, ok, Result-cases,
}
use mallbyte_api.Market.Row.{
  Order, OrderStatus, Shipment, ShipmentStatus, pending, ready_to_ship, in_transit,
  out_for_delivery, processing, shipped, delivered, paid,
}
use mallbyte_api.Market.State.{Market}
use mallbyte_api.Shipping.Status.{
  is_active, ensure_paid_order, set_seller_status, sync_order_status,
}
use mallbyte_api.Shipping.Create.{is_for}
use mallbyte_api.Shipping.Transition.{
  write, follow, mark_ready, mark_shipped, mark_delivered, cancel, is_shippable, is_on_the_way,
}

-- 1 for an active shipment of the fulfillment.
abbrev pub active_for : ℕ → Shipment → ℕ
active_for k s = if is_for s.seller_fulfillment k && is_active s.status then 1 else 0

-- The partial unique index `unique_active_shipment_per_seller_order`.
abbrev pub IsSingle : Market → Type 0
IsSingle db = (k : ℕ) → sum_rows (active_for k) db.shipments ≤ 1

infix 40 ◌⟶◌
pub data ◌⟶◌ : ShipmentStatus → ShipmentStatus → Type 0 where
  ready : pending ⟶ ready_to_ship
  ship_pending : pending ⟶ ShipmentStatus.shipped
  ship_ready : ready_to_ship ⟶ ShipmentStatus.shipped
  deliver_shipped : ShipmentStatus.shipped ⟶ ShipmentStatus.delivered
  deliver_in_transit : in_transit ⟶ ShipmentStatus.delivered
  deliver_out : out_for_delivery ⟶ ShipmentStatus.delivered
  stop :
      (s : ShipmentStatus)
      → s ≢ ShipmentStatus.delivered
      → s ≢ ShipmentStatus.cancelled
      → s ⟶ ShipmentStatus.cancelled

set_seller_status-shipments :
    (s : Shipment) (new : OrderStatus) (user : Option ℕ) (db db' : Market)
    → set_seller_status s new user db ≡ ok db'
    → db'.shipments ≡ db.shipments
unfolding set_seller_status
set_seller_status-shipments s new user db db' h = elim (Option-cases s.seller_fulfillment) [
  | inl whole ↦ ground arith
  | inr (k, e) ↦ elim (Option-cases (lookup k db.fulfillments)) [
    | inl missing ↦ ground arith
    | inr (f, found) ↦ ground arith
  ]
]

pub sync_order_status-shipments :
    (pk : ℕ) (o : Order) (new : OrderStatus) (user : Option ℕ) (at : ℕ) (db : Market)
    → (sync_order_status pk o new user at db).shipments ≡ db.shipments
unfolding sync_order_status
sync_order_status-shipments pk o new user at db = ground arith

follow-shipments :
    (k : ℕ) (o : Order) (s : Shipment) (new : OrderStatus) (user : Option ℕ) (at : ℕ)
    (db db' : Market)
    → follow k o s new user at db ≡ ok db'
    → db'.shipments ≡ db.shipments
unfolding follow
follow-shipments k o s new user at db db' h =
    elim (Result-cases (set_seller_status s new user db)) [
      | inr (e, raised) ↦ ground arith
      | inl (db₁, done) ↦ ground (
        arith,
        set_seller_status-shipments s new user db db₁ done,
        sync_order_status-shipments k o new user at db₁,
      )
    ]

-- A shipment moved along an edge: the old row and the new one.
pub record Moves (pk : ℕ) (db db' : Market) : Type 0 where
  pub old : Shipment
  pub new : Shipment
  pub stored : lookup pk db.shipments ≡ some old
  pub written : db'.shipments ≡ save pk new db.shipments
  pub edge : old.status ⟶ new.status
  pub same : new.seller_fulfillment ≡ old.seller_fulfillment

shippable_edge : (s : ShipmentStatus) → is_shippable s ≡ true → s ⟶ ShipmentStatus.shipped
shippable_edge pending h = ship_pending
shippable_edge ready_to_ship h = ship_ready
shippable_edge _ h = cc

deliverable_edge : (s : ShipmentStatus) → is_on_the_way s ≡ true → s ⟶ ShipmentStatus.delivered
deliverable_edge ShipmentStatus.shipped h = deliver_shipped
deliverable_edge in_transit h = deliver_in_transit
deliverable_edge out_for_delivery h = deliver_out
deliverable_edge _ h = cc

module _ (user : Option ℕ) (now pk : ℕ) (db db' : Market) where
  pub mark_ready-Moves : mark_ready user now pk db ≡ ok db' → Moves pk db db'
  unfolding mark_ready write
  mark_ready-Moves h = elim (Option-cases (lookup pk db.shipments)) [
    | inl missing ↦ ground arith
    | inr (s, stored) ↦ elim (Option-cases (lookup s.order db.orders)) [
      | inl missing ↦ ground arith
      | inr (o, ordered) ↦ elim (Result-cases (ensure_paid_order o)) [
        | inr (e, raised) ↦ ground arith
        | inl (u, payable) ↦
            let s' = record s { status = ready_to_ship } in
            record {
              old = s;
              new = s';
              stored = stored;
              written =
                  follow-shipments s.order o s' processing user now (write pk s s' user db) db'
                    (ground arith);
              edge = let e : s.status ≡ pending = ground arith in rw e ready;
              same = refl;
            }
      ]
    ]
  ]

  pub mark_shipped-Moves :
      (number url : String) → mark_shipped number url user now pk db ≡ ok db' → Moves pk db db'
  unfolding mark_shipped write
  mark_shipped-Moves number url h = elim (Option-cases (lookup pk db.shipments)) [
    | inl missing ↦ ground arith
    | inr (s, stored) ↦ elim (Option-cases (lookup s.order db.orders)) [
      | inl missing ↦ ground arith
      | inr (o, ordered) ↦ elim (Result-cases (ensure_paid_order o)) [
        | inr (e, raised) ↦ ground arith
        | inl (u, payable) ↦
            let s' = record s {
              status = ShipmentStatus.shipped;
              tracking_number = number;
              tracking_url = url;
              shipped_at = some now;
            } in
            record {
              old = s;
              new = s';
              stored = stored;
              written =
                  follow-shipments s.order o s' shipped user now (write pk s s' user db) db'
                    (ground arith);
              edge = shippable_edge s.status (ground arith);
              same = refl;
            }
      ]
    ]
  ]

  pub mark_delivered-Moves : mark_delivered user now pk db ≡ ok db' → Moves pk db db'
  unfolding mark_delivered write
  mark_delivered-Moves h = elim (Option-cases (lookup pk db.shipments)) [
    | inl missing ↦ ground arith
    | inr (s, stored) ↦ elim (Option-cases (lookup s.order db.orders)) [
      | inl missing ↦ ground arith
      | inr (o, ordered) ↦ elim (Result-cases (ensure_paid_order o)) [
        | inr (e, raised) ↦ ground arith
        | inl (u, payable) ↦
            let s' = record s { status = ShipmentStatus.delivered; delivered_at = some now } in
            record {
              old = s;
              new = s';
              stored = stored;
              written =
                  follow-shipments s.order o s' delivered user now (write pk s s' user db) db'
                    (ground arith);
              edge = deliverable_edge s.status (ground arith);
              same = refl;
            }
      ]
    ]
  ]

  pub cancel-Moves : cancel user now pk db ≡ ok db' → Moves pk db db'
  unfolding cancel write
  cancel-Moves h = elim (Option-cases (lookup pk db.shipments)) [
    | inl missing ↦ ground arith
    | inr (s, stored) ↦ elim (Option-cases (lookup s.order db.orders)) [
      | inl missing ↦ ground arith
      | inr (o, ordered) ↦
          let s' = record s { status = ShipmentStatus.cancelled; cancelled_at = some now } in
          let written = write pk s s' user db in
          record {
            old = s;
            new = s';
            stored = stored;
            written = elim (Option-cases s.seller_fulfillment) [
              | inl whole ↦ ground arith
              | inr (k, e) ↦ follow-shipments s.order o s' paid user now written db' (ground arith)
            ];
            edge = stop s.status (ground arith) (ground arith);
            same = refl;
          }
    ]
  ]

-- An edge makes no shipment active that was not.
edge_active : {s t : ShipmentStatus} → s ⟶ t → is_active s ≡ false → is_active t ≡ false
edge_active (stop s a b) h = refl
edge_active ready h = cc
edge_active ship_pending h = cc
edge_active ship_ready h = cc
edge_active deliver_shipped h = cc
edge_active deliver_in_transit h = cc
edge_active deliver_out h = cc

-- A change of one shipment along an edge of the status diagram keeps at most one active
-- shipment for each seller's order.
pub Moves-IsSingle : (pk : ℕ) (db db' : Market) → Moves pk db db' → IsSingle db → IsSingle db'
Moves-IsSingle pk db db' m single k = rw m.written (
    ground (
      arith,
      single k,
      sum_rows-save (active_for k) pk m.new m.old db.shipments m.stored,
      edge_active m.edge,
      m.same,
    ))

-- What is delivered or cancelled has no edge out of it.
pub final :
    {s t : ShipmentStatus} → s ⟶ t → (s ≢ ShipmentStatus.delivered) × (s ≢ ShipmentStatus.cancelled)
final (stop s a b) = (a, b)
final ready = ground arith
final ship_pending = ground arith
final ship_ready = ground arith
final deliver_shipped = ground arith
final deliver_in_transit = ground arith
final deliver_out = ground arith
