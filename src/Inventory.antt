-- ===== src/Inventory.antt =====
-- apps/inventory: stock counters, the movements that change them, and transfers between
-- warehouses.
pub mod Failure
pub mod Stock
pub mod Movement
pub mod Place
pub mod Transfer
pub mod Session
