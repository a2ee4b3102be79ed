-- ===== src/Staff.antt =====
-- The records of the staff: src/modules/leave and src/modules/attendance.
mod Examples
pub mod Leave
pub mod Attendance
