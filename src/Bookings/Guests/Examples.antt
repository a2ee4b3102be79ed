-- ===== src/Bookings/Guests/Examples.antt =====
-- A stay with a guest who is removed.
use msk_back.Base.{ℕ, ◌≡◌, refl, Bool, true, false, none, some, [], ◌∷◌, filter}
use msk_back.Base.Text.{same_text}
use msk_back.Bookings.Tables.{
  Booking, BookingGuest, Db, empty_wizard, empty_checkout, confirmed, website,
}
use msk_back.Bookings.Guests.{Caller, is_guest_booking}
use msk_back.Bookings.Guests.Others.{is_kept, run_op, run_op-kept, remove, HasKey, is_own}

abbrev a_stay : ℕ → ℕ → Booking
a_stay id user_id = record {
  id = id;
  reference = "MSK-2026-AAAAAA";
  external_id = none;
  property_id = 1;
  room_type_id = none;
  room_id = none;
  guest_user_id = some user_id;
  guest_email = none;
  guest_phone = none;
  guest_first_name = none;
  guest_last_name = none;
  adults = 2;
  children = 0;
  check_in = 0;
  check_out = 86_400_000;
  nights = 1;
  status = confirmed;
  source = website;
  total_amount = 12_000;
  paid_amount = 0;
  currency = "GBP";
  special_requests = none;
  cancellation_reason = none;
  cancelled_at = none;
  checked_in_at = none;
  checked_out_at = none;
  check_in_code = none;
  wizard = empty_wizard;
  checkout = empty_checkout;
}

abbrev a_guest : ℕ → ℕ → Bool → BookingGuest
a_guest id booking_id is_primary = record {
  id = id;
  booking_id = booking_id;
  full_name = "Ada";
  email = none;
  phone = none;
  is_primary = is_primary;
  has_kids = none;
  kids_count = none;
}

abbrev two_stays : Db
two_stays = record {
  room_types = [];
  rooms = [];
  entries = [];
  blocks = [];
  bookings = a_stay 1 10 ∷ a_stay 2 20 ∷ [];
  guests = a_guest 5 1 true ∷ a_guest 6 1 false ∷ a_guest 7 2 false ∷ [];
  users = [];
  qr_codes = [];
  activity = [];
}

abbrev the_caller : Caller
the_caller = record { user_id = 10; email = none }

run_op-kept_example :
    filter
      (is_kept same_text the_caller two_stays)
      (run_op same_text (λ s. s) the_caller (remove 6) two_stays).guests
    ≡ a_guest 5 1 true ∷ a_guest 7 2 false ∷ []
unfolding HasKey is_kept is_own is_guest_booking
run_op-kept_example =
    run_op-kept same_text (λ s. s) the_caller (remove 6) two_stays (refl, (refl, (refl, tt)))
