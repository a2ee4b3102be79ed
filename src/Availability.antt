-- ===== src/Availability.antt =====
-- src/modules/availability/availability.service.ts: the calendar of inventory per day, the blocks,
-- and what the website shows of both.
mod Examples
pub mod Tables
pub mod Reserve
pub mod Calendar
pub mod Public
