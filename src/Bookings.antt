-- ===== src/Bookings.antt =====
-- src/modules/bookings/bookings.service.ts: reservations from the booking to the check-out.
mod Examples
pub mod Tables
pub mod Create
pub mod Lifecycle
pub mod Rooms
pub mod CheckIn
pub mod CheckOut
pub mod Guests
