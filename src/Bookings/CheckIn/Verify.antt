-- ===== src/Bookings/CheckIn/Verify.antt =====
-- `checkInLookup`, `checkInStart` and `checkInVerify`: the wizard's first screens, over the tables of the
-- bookings and those of the one-time codes. The summary that they answer with copies columns of the
-- booking, which stands for it here; the hint of the contact is left out.
pub mod Stable
pub mod Digits
mod Examples
use msk_back.Base.{
  ℕ, String, Bool, false, not, ◌||◌, Option, none, some, ◌==◌, if◌then◌else◌, or_else, find?,
}
use msk_back.Base.Action.{
  Action, pure, gets, or_throw, ◌>>=◌, ◌>>◌, throw_if, bad_request, not_found,
}
use msk_back.Base.Text.{is_blank, is_filled, same_text, trim, without_separators}
use msk_back.Bookings.Tables.{Booking, Db, update_booking, reception}
use msk_back.Bookings.Guests.{column_is}
use msk_back.Bookings.CheckIn.{assert_check_in_able}
use msk_back.Bookings.CheckIn.Codes.{allocate_code, set_code}
use msk_back.Auth.Otp.{OtpDb, send, consume, reservation_enquiry}

pub record Desk : Type 0 where
  pub hotel : Db
  pub otp : OtpDb

abbrev pub on_hotel : {A : Type 0} → Action Db A → Action Desk A
on_hotel m desk = let (r, hotel) = m desk.hotel in (r, record desk { hotel = hotel })

abbrev pub on_otp : {A : Type 0} → Action OtpDb A → Action Desk A
on_otp m desk = let (r, otp) = m desk.otp in (r, record desk { otp = otp })

-- Argon2, the changes of case and the database's comparison without case, with the life of a code in
-- seconds.
pub record Tools : Type 0 where
  pub hash_of : String → String
  pub matches : String → String → Bool
  pub lower : String → String
  pub upper : String → String
  pub same_uncased : String → String → Bool
  pub otp_ttl : ℕ

module _ (tools : Tools) where
  -- `normaliseRef`
  abbrev pub normalise_ref : String → String
  normalise_ref raw = tools.upper (without_separators (trim raw))

  -- `refWhere`
  unfoldable pub ref_where : String → Booking → Bool
  ref_where raw b =
      tools.same_uncased b.reference (trim raw)
      || tools.same_uncased b.reference (normalise_ref raw)
      || column_is tools.same_uncased (trim raw) b.external_id

  unfoldable pub find_by_ref : String → Action Db Booking
  find_by_ref raw = gets (λ db. find? (ref_where raw) db.bookings) >>= λ found.
      or_throw found (not_found "Reservation not found")

  unfoldable pub check_in_lookup : String → Action Db Booking
  check_in_lookup reference = find_by_ref reference

  -- `lastName?.trim().toLowerCase() === normalizedLast`
  abbrev pub is_last_name : String → Option String → Bool
  is_last_name wanted none = false
  is_last_name wanted (some name) = same_text (tools.lower (trim name)) wanted

  -- The last name of the guest's account, where the booking has one.
  abbrev pub account_last_name : Booking → Db → Option String
  account_last_name b db = elim b.guest_user_id [
    | none ↦ none
    | some id ↦ elim (find? (λ u. u.id == id) db.users) [ none ↦ none | some u ↦ u.last_name ]
  ]

  unfoldable pub last_name_matches : String → Booking → Db → Bool
  last_name_matches last_name b db =
      let wanted = tools.lower (trim last_name) in
      is_blank wanted
      || is_last_name wanted b.guest_last_name
      || is_last_name wanted (account_last_name b db)

  -- `booking.guestEmail ?? booking.guestPhone`, which must not be empty.
  abbrev pub destination_of : Booking → Option String
  destination_of b =
      let contact = or_else b.guest_email b.guest_phone in
      if is_filled contact then contact else none

  unfoldable pub find_reservation : String → String → Action Db Booking
  find_reservation reference last_name = do
    b ← find_by_ref reference
    throw_if (not (← gets (last_name_matches last_name b))) (not_found "Reservation not found")
    pure b

  -- The code is sent to the contact on file; its row takes `id`.
  unfoldable pub check_in_start : ℕ → ℕ → String → String → String → Action Desk ℕ
  check_in_start now id code reference last_name = do
    b ← on_hotel (find_reservation reference last_name)
    on_hotel (assert_check_in_able b.status)
    destination ← or_throw (destination_of b) (bad_request "No contact on file for reservation")
    on_otp (
        send tools.hash_of tools.otp_ttl now id b.guest_user_id destination reservation_enquiry
          code)
    pure b.id

  -- The check-in code that a booking has, or a new one.
  unfoldable pub code_of : (ℕ → ℕ) → Booking → Action Db ℕ
  code_of draw b = elim b.check_in_code [
    | some code ↦ pure code
    | none ↦ do code ← allocate_code draw; update_booking b.id (set_code code); pure code
  ]

  unfoldable pub check_in_verify : (ℕ → ℕ) → ℕ → String → String → String → Action Desk (ℕ × ℕ)
  check_in_verify draw now reference last_name code = do
    b ← on_hotel (find_reservation reference last_name)
    destination ← or_throw (destination_of b) (
        bad_request
          "No email or phone on file for this reservation. Please ask reception to complete your check-in.")
    on_otp (consume tools.matches now destination reservation_enquiry code)
    check_in_code ← on_hotel (code_of draw b)
    pure (b.id, check_in_code)
