-- ===== src/Inventory/Movement.antt =====
-- `class StockMovement` of apps/inventory/models.py, and the low stock alert of
-- apps/inventory/services.py.
pub mod Effect
pub mod Audit
use mallbyte_api.Common.Table.{lookup, save}
use mallbyte_api.Common.{
  ℕ, ◌+◌, Bool, true, false, Option, none, some, List, ◌∷◌, ◌&&◌, not, ◌==◌, if◌then◌else◌, ℤ, pos,
  pos_part, neg_part, ◌+ℤ◌, ◌-ℤ◌, leb_ℤ, ltb_ℤ, Result, ok, ◌>>=◌, ◌>>◌, raise_if, or_raise,
}
use mallbyte_api.Inventory.Failure.{
  Error, movement_zero, movement_must_be_positive, movement_must_be_negative, movement_immutable,
  movement_not_enough_stock, movement_below_reserved, does_not_exist,
}
use mallbyte_api.Inventory.Stock.{Stock, available_quantity, find_stock, save_stock}

pub data MovementType : Type 0 where
  purchase sale return transfer_in transfer_out adjustment damaged : MovementType

abbrev pub in_increase_types : MovementType → Bool
in_increase_types purchase = true
in_increase_types return = true
in_increase_types transfer_in = true
in_increase_types _ = false

abbrev pub in_decrease_types : MovementType → Bool
in_decrease_types sale = true
in_decrease_types transfer_out = true
in_decrease_types damaged = true
in_decrease_types _ = false

abbrev type_code : MovementType → ℕ
type_code purchase = 0
type_code sale = 1
type_code return = 2
type_code transfer_in = 3
type_code transfer_out = 4
type_code adjustment = 5
type_code damaged = 6

-- `reference_id`: the document that a movement belongs to.
pub data Reference : Type 0 where
  blank : Reference
  transfer payment : ℕ → Reference

pub record StockMovement : Type 0 where
  pub product : ℕ
  pub warehouse : ℕ
  pub movement_type : MovementType
  pub quantity : ℤ
  pub reference_id : Reference
  pub before_quantity : ℕ
  pub after_quantity : ℕ
  pub created_by : Option ℕ

-- The notification that `create_low_stock_notification_if_needed` hands on.
pub record LowStockAlert : Type 0 where
  pub product : ℕ
  pub warehouse : ℕ
  pub available_quantity : ℤ
  pub low_stock_threshold : ℕ
  pub movement_id : ℕ

-- The tables that a movement reads and writes; the newest movement and alert stand first.
pub record Ledger : Type 0 where
  pub stocks : List Stock
  pub movements : List (ℕ × StockMovement)
  pub next_movement : ℕ
  pub alerts : List LowStockAlert

abbrev pub is_zero_ℤ : ℤ → Bool
is_zero_ℤ q = (pos_part q == 0) && (neg_part q == 0)

unfoldable pub clean : StockMovement → Result Error (Unit {0})
clean m = do
  raise_if (is_zero_ℤ m.quantity) movement_zero
  raise_if (in_increase_types m.movement_type && ltb_ℤ m.quantity (pos 0)) movement_must_be_positive
  raise_if (in_decrease_types m.movement_type && ltb_ℤ (pos 0) m.quantity) movement_must_be_negative

unfoldable pub low_stock_alert : Stock → ℕ → StockMovement → List LowStockAlert → List LowStockAlert
unfolding available_quantity
low_stock_alert stock movement_id m alerts =
    let current = available_quantity stock in
    let previous = current -ℤ m.quantity in
    if leb_ℤ previous (pos stock.low_stock_threshold)
    then alerts
    else if ltb_ℤ (pos stock.low_stock_threshold) current
    then alerts
    else record {
      product = stock.product;
      warehouse = stock.warehouse;
      available_quantity = current;
      low_stock_threshold = stock.low_stock_threshold;
      movement_id = movement_id;
    }
      ∷ alerts

-- `get_or_create`: a new row is empty and has the default threshold.
unfoldable pub new_stock : StockMovement → Stock
new_stock m = record {
  product = m.product;
  warehouse = m.warehouse;
  quantity = 0;
  reserved_quantity = 0;
  low_stock_threshold = 5;
  updated_by = m.created_by;
}

unfoldable pub get_or_create : StockMovement → List Stock → Stock × List Stock
unfolding new_stock
get_or_create m stocks = elim (find_stock m.product m.warehouse stocks) [
  | some stock ↦ (stock, stocks)
  | none ↦ (new_stock m, new_stock m ∷ stocks)
]

-- The locked row after the movement.
unfoldable pub moved_stock : StockMovement → Stock → Result Error Stock
moved_stock m stock = do
  let new_quantity = pos stock.quantity +ℤ m.quantity
  raise_if (ltb_ℤ new_quantity (pos 0)) movement_not_enough_stock
  raise_if (ltb_ℤ new_quantity (pos stock.reserved_quantity)) movement_below_reserved
  ok (record stock { quantity = pos_part new_quantity; updated_by = m.created_by })

-- `save` of a new movement, which is what `StockMovement.objects.create` calls.
unfoldable pub create : StockMovement → Ledger → Result Error Ledger
create m l = do
  clean m
  let (stock, stocks) = get_or_create m l.stocks
  stock' ← moved_stock m stock
  let m' = record m { before_quantity = stock.quantity; after_quantity = stock'.quantity }
  ok (record {
    stocks = save_stock m.product m.warehouse stock' stocks;
    movements = (l.next_movement, m') ∷ l.movements;
    next_movement = l.next_movement + 1;
    alerts = low_stock_alert stock' l.next_movement m' l.alerts;
  })

abbrev same_ℤ : ℤ → ℤ → Bool
same_ℤ a b = (pos_part a == pos_part b) && (neg_part a == neg_part b)

-- The loop of `_validate_immutable_fields` over the six fields.
unfoldable pub same_immutable_fields : StockMovement → StockMovement → Bool
same_immutable_fields old m =
    (old.product == m.product)
    && (old.warehouse == m.warehouse)
    && (type_code old.movement_type == type_code m.movement_type)
    && same_ℤ old.quantity m.quantity
    && (old.before_quantity == m.before_quantity)
    && (old.after_quantity == m.after_quantity)

-- `save` of a movement that is stored under the key `pk`.
unfoldable pub resave : ℕ → StockMovement → Ledger → Result Error Ledger
resave pk m l = do
  clean m
  old ← or_raise (lookup pk l.movements) does_not_exist
  raise_if (not (same_immutable_fields old m)) movement_immutable
  ok (record l { movements = save pk m l.movements })
