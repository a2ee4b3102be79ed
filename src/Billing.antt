-- ===== src/Billing.antt =====
-- src/modules/payments and src/modules/invoices: the payments of bookings and the invoices.
mod Examples
pub mod Payments
pub mod Invoices
