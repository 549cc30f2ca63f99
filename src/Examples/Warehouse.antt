-- ===== src/Examples/Warehouse.antt =====
-- Movements, reservations and a transfer in two warehouses.
use mallbyte_api.Common.Account.{User}
use mallbyte_api.Common.{
  ℕ, ◌+◌, ◌≤◌, ◌<◌, ◌≡◌, ◌↔◌, refl, true, none, some, List, [], ◌∷◌, arith, pos, negsuc, ◌+ℤ◌, ◌-ℤ◌,
  ◌≤ℤ◌, int_laws, ok,
}
use mallbyte_api.Inventory.Stock.{Stock, reserve, release_reservation, available_quantity}
use mallbyte_api.Inventory.Stock.Reservation.{reserve_succeeds_iff, release-reserve}
use mallbyte_api.Inventory.Movement
use mallbyte_api.Inventory.Movement.{StockMovement, Ledger, adjustment}
use mallbyte_api.Inventory.Movement.Effect.{
  quantity_at, reserved_at, IsSigned, create_effect, create_succeeds_iff,
}
use mallbyte_api.Inventory.Movement.Audit.{IsRecorded, create-IsRecorded}
use mallbyte_api.Inventory.Transfer
use mallbyte_api.Inventory.Transfer.{Inventory}
use mallbyte_api.Inventory.Transfer.Conservation.{units_owned}
use mallbyte_api.Inventory.Session.{
  Call, moving, requesting, approving, shipping, receiving, run, after, apply,
}
use mallbyte_api.Inventory.Session.Invariant.{IsConsistent, run-IsConsistent}
use mallbyte_api.Inventory.Session.Units.{brought, apply-units}
use mallbyte_api.Examples.Shop.{mugs, bought, stocked, same}

reserved :
    reserve (pos 4) (some 3) mugs ≡ ok (record mugs { reserved_quantity = 4; updated_by = some 3 })
unfolding reserve available_quantity
reserved = refl

reserve_succeeds_iff_example :
    ((s : Stock) × (reserve (pos 4) (some 3) mugs ≡ ok s))
    ↔ ((n : ℕ) × (pos 4 ≡ pos n) × (0 < n) × (mugs.reserved_quantity + n ≤ mugs.quantity))
reserve_succeeds_iff_example = reserve_succeeds_iff (pos 4) (some 3) mugs (omega arith)

release-reserve_example :
    release_reservation
      (pos 4)
      (some 5)
      (record mugs { reserved_quantity = 4; updated_by = some 3 })
    ≡ ok (record mugs { updated_by = some 5 })
release-reserve_example =
    release-reserve (pos 4) (some 3) (some 5) mugs
      (record mugs { reserved_quantity = 4; updated_by = some 3 }) reserved

-- Six of ten mugs were lost.
abbrev lost : StockMovement
lost = record bought { movement_type = adjustment; quantity = negsuc 5; after_quantity = 0 }

abbrev after_loss : Ledger
after_loss = record {
  stocks = record mugs { quantity = 4 } ∷ [];
  movements = (2, record lost { before_quantity = 10; after_quantity = 4 }) ∷ (1, bought) ∷ [];
  next_movement = 3;
  alerts =
      record {
        product = 1;
        warehouse = 1;
        available_quantity = pos 4;
        low_stock_threshold = 5;
        movement_id = 2;
      }
      ∷ [];
}

written_off : Movement.create lost stocked ≡ ok after_loss
unfolding Movement.create Movement.clean Movement.get_or_create Movement.moved_stock
    Movement.low_stock_alert available_quantity ◌+ℤ◌ ◌-ℤ◌
written_off = refl

create_effect_example :
    IsSigned lost.movement_type lost.quantity
    × (pos (quantity_at 1 1 after_loss.stocks)
        ≡ pos (quantity_at 1 1 stocked.stocks) +ℤ lost.quantity)
    × (reserved_at 1 1 after_loss.stocks ≡ reserved_at 1 1 stocked.stocks)
    × (after_loss.movements
        ≡ (
          stocked.next_movement,
          record lost {
            before_quantity = quantity_at 1 1 stocked.stocks;
            after_quantity = quantity_at 1 1 after_loss.stocks;
          },
        )
          ∷ stocked.movements)
create_effect_example = create_effect lost stocked after_loss written_off

create_succeeds_iff_example : ((l : Ledger) × (Movement.create lost stocked ≡ ok l)) ↔ (
    IsSigned lost.movement_type lost.quantity
    × (pos (reserved_at 1 1 stocked.stocks)
        ≤ℤ pos (quantity_at 1 1 stocked.stocks) +ℤ lost.quantity))
create_succeeds_iff_example = create_succeeds_iff lost stocked

stocked-IsRecorded : IsRecorded stocked
stocked-IsRecorded p w = grind int_laws

create-IsRecorded_example : IsRecorded after_loss
create-IsRecorded_example = create-IsRecorded lost stocked after_loss written_off stocked-IsRecorded

abbrev boss : User
boss = record { id = 8; is_staff = true; is_superuser = true }

abbrev inventory : Inventory
inventory = record { ledger = stocked; transfers = []; next_transfer = 1; memberships = [] }

-- A request of user 3, which user 8 approves, ships and receives.
abbrev calls : List Call
calls =
    requesting 1 2 1 6 (some 3)
    ∷ approving (some boss) 10 1
    ∷ shipping (some boss) none 11 1
    ∷ receiving (some boss) 12 1
    ∷ []

run-IsConsistent_example : IsConsistent (run same calls inventory)
run-IsConsistent_example =
    run-IsConsistent same calls inventory
      (record { sound = (omega arith, tt); recorded = stocked-IsRecorded; reviewed = tt })

moved_on : quantity_at 1 2 (run same calls inventory).ledger.stocks ≡ 6
unfolding run after apply Transfer.receive Transfer.ship Transfer.approve Transfer.request
    Transfer.may_handle Movement.create Movement.clean Transfer.issue ◌-ℤ◌ Movement.moved_stock ◌+ℤ◌
    Movement.get_or_create Transfer.receipt
moved_on = refl

applied : apply same (moving lost) inventory ≡ ok (record inventory { ledger = after_loss })
unfolding apply Movement.create Movement.clean Movement.get_or_create Movement.moved_stock
    Movement.low_stock_alert available_quantity ◌+ℤ◌ ◌-ℤ◌
applied = refl

apply-units_example :
    pos (units_owned 1 (record inventory { ledger = after_loss }))
    ≡ pos (units_owned 1 inventory) +ℤ brought 1 (moving lost)
apply-units_example =
    apply-units same (moving lost) inventory (record inventory { ledger = after_loss }) 1 applied
