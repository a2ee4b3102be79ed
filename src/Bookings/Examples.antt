-- ===== src/Bookings/Examples.antt =====
-- A small hotel, and the theorems of this part on it.
use msk_back.Availability.Reserve.{selected, requested, check_nights, available, entry_on}
use msk_back.Availability.Reserve.Nights.{missing}
use msk_back.Availability.Reserve.Effect.{entries_of, nights_of}
use msk_back.Availability.Reserve.Undo.{empty_entry}
use msk_back.Bookings.Lifecycle.GivesBack.{cancel-create}
use msk_back.Base.{
  ℕ, ◌+◌, ◌≡◌, refl, true, false, Option, none, some, [], ◌∷◌, arith, ◌++◌, map, filter,
}
use msk_back.Base.Action.{HttpError, ok, err}
use msk_back.Dates.{utc_midnight, enumerate_days, days_from, same_day}
use msk_back.Availability.Reserve.{release, try_reserve}
use msk_back.Bookings.Tables.{
  Status, CheckoutMethod, Booking, Db, update_booking, empty_wizard, empty_checkout, confirmed,
  checked_in, website, guest_checked_in,
}
use msk_back.Bookings.Create.{
  CreateInput, NewIds, price_nights, stay_nights, create, quote, insert_booking, stay_request,
  new_booking, is_priced, is_refused,
}
use msk_back.Bookings.Create.Outcome.{CreateOutcome, create-CreateOutcome}
use msk_back.Bookings.Lifecycle.{booked_stay, cancel, check_in}
use msk_back.Bookings.Lifecycle.Releases.{cancel-check_in-cancel, cancel_twice}
use msk_back.Bookings.Rooms.{assign_room, move_dates}
use msk_back.Bookings.Rooms.Clash.{clash, NoClash, IsKeyed}
use msk_back.Bookings.Rooms.NoClash.{assign_room-NoClash, move_dates-NoClash}
use msk_back.Bookings.CheckIn.{
  CheckInSubmit, SubmitIds, assert_check_in_able, check_submit, new_guest_user,
  find_or_create_guest, link_guest, booked_by, filled_wizard, submitted, replace_guests,
  complete_check_in, check_in_submit,
}
use msk_back.Bookings.CheckIn.Once.{check_in_submit-once}
use msk_back.Bookings.CheckIn.Codes.{
  check_in_refresh_code, UniqueCodes, check_in_refresh_code-UniqueCodes,
}
use msk_back.Bookings.CheckOut.{Mode, CheckOutSubmit, check_out_submit, sign_in_with_code}
use msk_back.Bookings.CheckOut.MayAct.{CheckOutOutcome, check_out_submit-CheckOutOutcome}

abbrev a_stay : ℕ → Status → ℕ → ℕ → Option ℕ → Booking
a_stay id status from to code = record {
  id = id;
  reference = "MSK-2026-AAAAAA";
  external_id = none;
  property_id = 1;
  room_type_id = some 7;
  room_id = some 31;
  guest_user_id = none;
  guest_email = some "guest@example.com";
  guest_phone = none;
  guest_first_name = some "Ada";
  guest_last_name = none;
  adults = 2;
  children = 0;
  check_in = from;
  check_out = to;
  nights = 1;
  status = status;
  source = website;
  total_amount = 12_000;
  paid_amount = 12_000;
  currency = "GBP";
  special_requests = none;
  cancellation_reason = none;
  cancelled_at = none;
  checked_in_at = none;
  checked_out_at = none;
  check_in_code = code;
  wizard = empty_wizard;
  checkout = empty_checkout;
}

abbrev first_stay : Booking
first_stay = a_stay 1 confirmed 0 86_400_000 none

abbrev second_stay : Booking
second_stay = a_stay 2 checked_in 86_400_000 172_800_000 (some 123456)

abbrev hotel : Db
hotel = record {
  room_types =
      record {
        id = 7;
        property_id = 1;
        base_price = 10_000;
        currency = "GBP";
        rooms = 31 ∷ 32 ∷ [];
      }
      ∷ [];
  rooms =
      record { id = 31; number = "31"; property_id = 1; room_type_id = 7 }
      ∷ record { id = 32; number = "32"; property_id = 1; room_type_id = 7 }
      ∷ [];
  entries = [];
  blocks = [];
  bookings = first_stay ∷ second_stay ∷ [];
  guests = [];
  users = [];
  qr_codes = [];
  activity = [];
}

abbrev new_ids : NewIds
new_ids = record {
  booking = 3;
  block = 4;
  entry = λ day. day + 100;
  reference = "MSK-2026-BBBBBB";
  failure = none;
}

abbrev weekend : CreateInput
weekend = record {
  property_id = 1;
  room_type_id = 7;
  room_id = none;
  guest_user_id = none;
  guest_email = none;
  guest_phone = none;
  guest_first_name = none;
  guest_last_name = none;
  adults = none;
  children = none;
  check_in = 259_200_000;
  check_out = 432_000_000;
  source = none;
  special_requests = none;
}

create-CreateOutcome_example : CreateOutcome new_ids weekend hotel (create new_ids weekend hotel)
create-CreateOutcome_example = create-CreateOutcome new_ids weekend hotel

cancel-check_in-cancel_example :
    (cancel 7 1 none (check_in 6 1 (cancel 5 1 none hotel).1).1).1.entries
    ≡ (release (booked_stay first_stay) (release (booked_stay first_stay) hotel.entries).1).1
cancel-check_in-cancel_example = cancel-check_in-cancel 5 6 7 1 none none hotel first_stay refl refl

hotel-IsKeyed : IsKeyed hotel.bookings
hotel-IsKeyed = ((λ e. refl, (λ e. ground arith, tt)), ((λ e. ground arith, (λ e. refl, tt)), tt))

hotel-NoClash : NoClash hotel.bookings
unfolding clash
hotel-NoClash = ((refl, (refl, tt)), ((refl, (refl, tt)), tt))

assign_room-NoClash_example : NoClash (assign_room 1 (some 32) hotel).1.bookings
assign_room-NoClash_example = assign_room-NoClash 1 (some 32) hotel hotel-IsKeyed hotel-NoClash

move_dates-NoClash_example :
    NoClash (move_dates 1 (some 172_800_000) (some 259_200_000) hotel).1.bookings
move_dates-NoClash_example =
    move_dates-NoClash 1 (some 172_800_000) (some 259_200_000) hotel hotel-IsKeyed hotel-NoClash

abbrev answers : CheckInSubmit
answers = record {
  first_name = none;
  last_name = some "Lovelace";
  email = none;
  phone = none;
  arrival_time = none;
  wants_room_type_change = none;
  requested_room_type = none;
  guests = [];
  physical_verify_choice = none;
  address_by_code = none;
  identity_verify_method = none;
  vehicle_registration = none;
  id_document_url = none;
  selfie_url = none;
  accepted_privacy = true;
  confirmed_accurate = true;
  identity_consent = false;
  signature_url = none;
  additional_info_text = none;
  accepted_terms = true;
  is_behalf_booking = none;
  booker_first_name = none;
  booker_last_name = none;
  booker_email = none;
  booker_phone = none;
}

abbrev submit_ids : SubmitIds
submit_ids = record { user = 50; guest = λ n. n + 60; user_failure = none; failure = none }

-- The booking after the wizard, and the hotel then.
abbrev arrived : Booking
arrived = record first_stay {
  guest_last_name = some "Lovelace";
  guest_user_id = some 50;
  status = checked_in;
  checked_in_at = some 9;
  wizard = filled_wizard 9 answers none empty_wizard;
}

abbrev hotel_after : Db
hotel_after = record hotel {
  bookings = arrived ∷ second_stay ∷ [];
  users = new_guest_user 50 answers first_stay "guest@example.com" ∷ [];
  activity = (1, guest_checked_in) ∷ [];
}

wizard_done : check_in_submit 9 submit_ids 1 answers hotel ≡ (ok arrived, hotel_after)
unfolding check_in_submit check_submit assert_check_in_able complete_check_in link_guest
    find_or_create_guest booked_by update_booking submitted replace_guests
wizard_done = refl

check_in_submit-once_example :
    (e : HttpError) × (check_in_submit 10 submit_ids 1 answers hotel_after ≡ (err e, hotel_after))
check_in_submit-once_example =
    check_in_submit-once 9 10 submit_ids submit_ids 1 answers answers hotel hotel_after arrived
      wizard_done

hotel-UniqueCodes : UniqueCodes hotel.bookings
unfolding UniqueCodes
hotel-UniqueCodes = ((refl, tt), (tt, tt))

check_in_refresh_code-UniqueCodes_example :
    UniqueCodes (check_in_refresh_code (λ i. 23456 + i) 1 hotel).1.bookings
check_in_refresh_code-UniqueCodes_example =
    check_in_refresh_code-UniqueCodes (λ i. 23456 + i) 1 hotel hotel-UniqueCodes

abbrev leaving : CheckOutSubmit
leaving = record {
  booking_id = 2;
  method = CheckoutMethod.remote;
  payment_method = none;
  room_photo_urls = [];
  bathroom_photo_urls = [];
  key_location = none;
  staff_name = none;
  staff_qr_code = none;
  key_location_photo_url = some "key.jpg";
  feedback = none;
  confirmed = true;
}

check_out_submit-CheckOutOutcome_example :
    CheckOutOutcome 9 2 Mode.booking leaving hotel
      (check_out_submit (λ s. s) 9 2 Mode.booking leaving hotel)
check_out_submit-CheckOutOutcome_example =
    check_out_submit-CheckOutOutcome (λ s. s) 9 2 Mode.booking leaving hotel

code_accepted : sign_in_with_code 123456 hotel ≡ (ok (2, Mode.booking), hotel)
unfolding sign_in_with_code
code_accepted = refl

-- The weekend is booked, and given up.
weekend_made :
    create new_ids weekend hotel
    ≡ (ok (new_booking new_ids weekend 2 (20_000, "GBP")), (create new_ids weekend hotel).1)
unfolding create stay_nights quote price_nights insert_booking try_reserve check_nights available
    entry_on enumerate_days days_from utc_midnight selected requested is_priced same_day is_refused
weekend_made = refl

abbrev given_up : Db
given_up = (cancel 9 3 none (create new_ids weekend hotel).1).1

cancel-create_example :
    (given_up.entries
      ≡ hotel.entries
        ++ map (empty_entry new_ids.entry (stay_request weekend)) (
            filter
              (missing (entries_of (stay_request weekend) hotel.entries))
              (nights_of (stay_request weekend))))
    × (given_up.blocks ≡ hotel.blocks)
cancel-create_example =
    cancel-create new_ids weekend 9 none hotel (create new_ids weekend hotel).1
      (new_booking new_ids weekend 2 (20_000, "GBP")) weekend_made refl refl tt (λ day. tt) tt

cancel_twice_example :
    (cancel 7 1 (some "again") (cancel 5 1 none hotel).1).1 ≡ (cancel 5 1 none hotel).1
cancel_twice_example = cancel_twice 5 7 1 none (some "again") hotel
