-- ===== src/Bookings/Lifecycle.antt =====
-- `cancel`, and the reception's `checkIn` and `checkOut`, which set the status whatever it was. What
-- is pushed to Mews after a check-in is not modelled.
pub mod Releases
pub mod GivesBack
use msk_back.Base.{
  ℕ, String, Bool, true, false, ◌&&◌, Option, some, if◌then◌else◌, ◌is◌, delete_where, or_else,
}
use msk_back.Base.Action.{Action, pure, gets, or_throw, ◌>>=◌, ◌>>◌, modify, not_found}
use msk_back.Availability.Tables.{BlockReason, Block, Request}
use msk_back.Availability.Reserve.{release}
use msk_back.Bookings.Tables.{
  Booking, Db, is_cancelled, booking_at, update_booking, record_activity, on_entries, checked_in,
  checked_out, cancelled, guest_checked_in, guest_checked_out,
}

-- The stay of a booking, as `cancel` releases it.
abbrev pub booked_stay : Booking → Request
booked_stay b = record {
  property_id = b.property_id;
  room_type_id = b.room_type_id;
  room_id = b.room_id;
  check_in = b.check_in;
  check_out = b.check_out;
  units = 1;
}

abbrev pub is_booking_reason : BlockReason → Bool
is_booking_reason BlockReason.booking = true
is_booking_reason _ = false

-- The block that `create` made for the booking.
abbrev pub is_own_block : ℕ → Block → Bool
is_own_block id b = b.booking_id is id && is_booking_reason b.reason

-- A reason that is not given leaves the column as it is.
unfoldable pub mark_cancelled : ℕ → Option String → Booking → Booking
mark_cancelled now reason b = record b {
  status = cancelled;
  cancellation_reason = or_else reason b.cancellation_reason;
  cancelled_at = some now;
}

-- The part of `cancel` behind its early return.
unfoldable pub cancel_active : ℕ → ℕ → Option String → Booking → Action Db Booking
cancel_active now id reason b = do
  on_entries (release (booked_stay b))
  modify (λ db. record db { blocks = delete_where (is_own_block id) db.blocks })
  update_booking id (mark_cancelled now reason)

unfoldable pub cancel : ℕ → ℕ → Option String → Action Db Booking
cancel now id reason = do
  b ← or_throw (← gets (booking_at id)) (not_found "Booking not found")
  if is_cancelled b.status then pure b else cancel_active now id reason b

unfoldable pub mark_checked_in : ℕ → Booking → Booking
mark_checked_in now b = record b { status = checked_in; checked_in_at = some now }

unfoldable pub mark_checked_out : ℕ → Booking → Booking
mark_checked_out now b = record b { status = checked_out; checked_out_at = some now }

unfoldable pub check_in : ℕ → ℕ → Action Db Booking
check_in now id = do
  b ← update_booking id (mark_checked_in now)
  record_activity id guest_checked_in
  pure b

unfoldable pub check_out : ℕ → ℕ → Action Db Booking
check_out now id = do
  b ← update_booking id (mark_checked_out now)
  record_activity id guest_checked_out
  pure b
