-- ===== src/Supply.antt =====
-- src/modules/inventory and src/modules/orders: the stock and the purchase orders.
mod Examples
pub mod Inventory
pub mod Orders
