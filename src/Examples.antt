-- ===== src/Examples.antt =====
-- Runs of the model on concrete tables, and what the theorems say of them.
mod Shop
mod Settled
mod Parcel
mod Warehouse
mod Discounting
mod Buying
mod Delivery
mod Returning
mod Ledger
mod Carting
mod Preparing
mod Payout
