-- ===== src/Bookings/CheckIn/Verify/Examples.antt =====
-- A booking whose check-in code is drawn when its guest has typed the one-time code.
use msk_back.Base.{ℕ, ◌+◌, refl, none, some, List, [], ◌∷◌, arith}
use msk_back.Base.Text.{same_text, trim}
use msk_back.Bookings.Tables.{
  Booking, empty_wizard, empty_checkout, confirmed, website, update_booking,
}
use msk_back.Bookings.CheckIn.Codes.{UniqueCodes, allocate_code, try_codes}
use msk_back.Bookings.CheckIn.Verify.{
  Desk, Tools, check_in_verify, find_reservation, find_by_ref, ref_where, last_name_matches,
  code_of,
}
use msk_back.Bookings.CheckIn.Verify.Stable.{Again, check_in_verify-Again}
use msk_back.Bookings.CheckIn.Verify.Digits.{IsSixDigits, SixDigits, check_in_verify-IsSixDigits}
use msk_back.Auth.Otp.{OtpCode, OtpDb, reservation_enquiry, consume, latest, is_live}

abbrev a_stay : Booking
a_stay = record {
  id = 4;
  reference = "TW007644";
  external_id = none;
  property_id = 1;
  room_type_id = none;
  room_id = none;
  guest_user_id = none;
  guest_email = some "guest@example.com";
  guest_phone = none;
  guest_first_name = none;
  guest_last_name = some "Byron";
  adults = 1;
  children = 0;
  check_in = 0;
  check_out = 86_400_000;
  nights = 1;
  status = confirmed;
  source = website;
  total_amount = 12_000;
  paid_amount = 0;
  currency = "GBP";
  special_requests = none;
  cancellation_reason = none;
  cancelled_at = none;
  checked_in_at = none;
  checked_out_at = none;
  check_in_code = none;
  wizard = empty_wizard;
  checkout = empty_checkout;
}

abbrev a_code : ℕ → ℕ → OtpCode
a_code id created_at = record {
  id = id;
  user_id = none;
  destination = "guest@example.com";
  purpose = reservation_enquiry;
  code_hash = "482913";
  attempts = 0;
  created_at = created_at;
  expires_at = created_at + 600_000;
  consumed_at = none;
}

abbrev codes_at : ℕ → OtpDb
codes_at created_at = record { codes = a_code 1 created_at ∷ []; accounts = [] }

abbrev a_desk : Desk
a_desk = record {
  hotel = record {
    room_types = [];
    rooms = [];
    entries = [];
    blocks = [];
    bookings = a_stay ∷ [];
    guests = [];
    users = [];
    qr_codes = [];
    activity = [];
  };
  otp = codes_at 0;
}

abbrev plain_tools : Tools
plain_tools = record {
  hash_of = λ s. s;
  matches = same_text;
  lower = λ s. s;
  upper = λ s. s;
  same_uncased = same_text;
  otp_ttl = 600;
}

-- The second call comes a day later, with other draws and a new one-time code.
check_in_verify-Again_example :
    let desk' : Desk =
      record (check_in_verify plain_tools (λ i. i) 1 "TW-007644" "Byron" "482913" a_desk).1 {
        otp = codes_at 86_400_000;
      } in
    Again plain_tools 86_400_001 "482913" desk'
      (check_in_verify plain_tools (λ i. 9) 86_400_001 "TW-007644" "Byron" "482913" desk')
      4
      100_000
unfolding check_in_verify find_reservation find_by_ref ref_where trim last_name_matches consume
    latest is_live code_of allocate_code try_codes update_booking
check_in_verify-Again_example =
    check_in_verify-Again plain_tools (λ i. i) (λ i. 9) 1 86_400_001 "TW-007644" "Byron" "482913"
      "482913" a_desk (codes_at 86_400_000) 4 100_000 refl

check_in_verify-IsSixDigits_example :
    let after : List Booking =
      (check_in_verify plain_tools
        (λ i. 7)
        1
        "TW-007644"
        "Byron"
        "482913"
        a_desk).1.hotel.bookings in
    IsSixDigits 100_007 × SixDigits after × UniqueCodes after
unfolding check_in_verify SixDigits UniqueCodes find_reservation find_by_ref ref_where trim
    last_name_matches consume latest is_live code_of allocate_code try_codes update_booking
check_in_verify-IsSixDigits_example =
    check_in_verify-IsSixDigits plain_tools (λ i. 7) 1 "TW-007644" "Byron" "482913" a_desk 4 100_007
      (λ i. omega arith) (refl, tt) (tt, tt) refl
