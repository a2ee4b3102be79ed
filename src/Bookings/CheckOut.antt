-- ===== src/Bookings/CheckOut.antt =====
-- The guest's check-out: the sign-in with the check-in code, the stays that the token shows, and
-- `checkOutSubmit`. `extract` is `extractQrCode`, which asks the platform's URL parser.
pub mod MayAct
use msk_back.Base.{
  ℕ, ◌-◌, String, Bool, true, false, not, ◌&&◌, Option, none, some, List, ltb, ◌==◌, if◌then◌else◌,
  ◌is◌, get_or, is_some, find?, filter,
}
use msk_back.Base.Action.{
  ◌>>=◌, ◌>>◌, Action, pure, throw, gets, or_throw, ◌>>=◌, throw_if, bad_request, not_found,
  unauthorized,
}
use msk_back.Base.Text.{is_blank, is_filled, same_text, trim}
use msk_back.Bookings.Tables.{
  CheckoutMethod, PaymentMethod, KeyLocation, Booking, QrTarget, Db, is_checked_in, booking_at,
  update_booking, checked_out, reception, remote, staff, room,
}

pub data Mode : Type 0 where
  user booking : Mode

pub record CheckOutSubmit : Type 0 where
  pub booking_id : ℕ
  pub method : CheckoutMethod
  pub payment_method : Option PaymentMethod
  pub room_photo_urls : List String
  pub bathroom_photo_urls : List String
  pub key_location : Option KeyLocation
  pub staff_name : Option String
  pub staff_qr_code : Option String
  pub key_location_photo_url : Option String
  pub feedback : Option String
  pub confirmed : Bool

-- What a scan names: the code's row and the staff member.
pub record StaffScan : Type 0 where
  pub code : String
  pub staff_name : String

abbrev pub is_staff : QrTarget → Bool
is_staff QrTarget.staff = true
is_staff _ = false

-- `payload.staffName?.trim() || 'Staff'`
abbrev pub shown_name : Option String → String
shown_name none = "Staff"
shown_name (some name) = if is_blank (trim name) then "Staff" else trim name

unfoldable pub resolve_staff_qr : (String → String) → String → Action Db StaffScan
resolve_staff_qr extract raw = do
  record' ←
      or_throw (← gets (λ db. find? (λ q. same_text q.code (extract raw)) db.qr_codes))
        (bad_request "Unknown or inactive staff QR code")
  throw_if (not record'.is_active) (bad_request "Unknown or inactive staff QR code")
  throw_if (not (is_staff record'.target)) (bad_request "Please scan a staff QR code")
  pure (record { code = record'.code; staff_name = shown_name record'.staff_name })

-- The scan that a check-out at the reception needs; none is made for a remote one.
unfoldable pub scan_staff : (String → String) → CheckOutSubmit → Action Db (Option StaffScan)
scan_staff extract dto = elim dto.method [
  | CheckoutMethod.remote ↦ pure none
  | CheckoutMethod.reception ↦ elim dto.staff_qr_code [
    | none ↦ throw (bad_request "Scan a staff QR code to check out at reception")
    | some raw ↦
        if is_blank (trim raw)
        then throw (bad_request "Scan a staff QR code to check out at reception")
        else (resolve_staff_qr extract raw >>= λ scan. pure (some scan))
  ]
]

abbrev pub is_remote : CheckoutMethod → Bool
is_remote CheckoutMethod.remote = true
is_remote CheckoutMethod.reception = false

-- The token is for the booking, or for the account that the booking is linked to.
unfoldable pub may_act : Mode → ℕ → Booking → Bool
may_act Mode.booking sub b = b.id == sub
may_act Mode.user sub b = b.guest_user_id is sub

-- `Math.max(0, total - paid)`, which is what the truncated subtraction gives.
unfoldable pub outstanding : Booking → ℕ
outstanding b = b.total_amount - b.paid_amount

abbrev pub default_key : CheckoutMethod → KeyLocation
default_key CheckoutMethod.remote = KeyLocation.room
default_key CheckoutMethod.reception = KeyLocation.staff

abbrev pub scan_code : Option StaffScan → Option String
scan_code none = none
scan_code (some scan) = some scan.code

abbrev pub scan_name : Option String → Option StaffScan → Option String
scan_name given none = given
scan_name given (some scan) = some scan.staff_name

unfoldable pub checked_out_by : ℕ → CheckOutSubmit → Option StaffScan → Booking → Booking
checked_out_by now dto scan b = record b {
  status = checked_out;
  checked_out_at = some now;
  checkout = record {
    method = some dto.method;
    payment_method = dto.payment_method;
    staff_qr_code = scan_code scan;
    room_photo_urls = dto.room_photo_urls;
    bathroom_photo_urls = dto.bathroom_photo_urls;
    key_location = some (get_or dto.key_location (default_key dto.method));
    staff_name = scan_name dto.staff_name scan;
    key_location_photo_url = if is_remote dto.method then dto.key_location_photo_url else none;
    feedback = dto.feedback;
    confirmed_at = some now;
  };
}

-- The checks of the booking, of the token and of the balance.
unfoldable pub check_check_out : ℕ → Mode → CheckOutSubmit → Action Db Booking
check_check_out sub mode dto = do
  b ← or_throw (← gets (booking_at dto.booking_id)) (not_found "Booking not found")
  throw_if (not (is_checked_in b.status)) (bad_request "This booking is not currently checked in")
  throw_if (not (may_act mode sub b)) (unauthorized "Token cannot act on this booking")
  throw_if (ltb 0 (outstanding b) && not (is_some dto.payment_method))
      (bad_request "Choose how you would like to settle the outstanding balance")
  pure b

unfoldable pub check_out_submit :
    (String → String) → ℕ → ℕ → Mode → CheckOutSubmit → Action Db (Unit {0})
check_out_submit extract now sub mode dto = do
  throw_if (not dto.confirmed) (bad_request "Checkout confirmation checkbox must be ticked")
  throw_if (is_remote dto.method && not (is_filled dto.key_location_photo_url))
      (bad_request "A photo of where you left the room key is required for remote check-out")
  scan ← scan_staff extract dto
  check_check_out sub mode dto
  update_booking dto.booking_id (checked_out_by now dto scan)
  pure tt

-- The token's subject and mode after a sign-in with the check-in code.
unfoldable pub sign_in_with_code : ℕ → Action Db (ℕ × Mode)
sign_in_with_code code = do
  b ←
      or_throw (← gets (λ db. find? (λ b. b.check_in_code is code) db.bookings))
        (unauthorized "Invalid code")
  throw_if (not (is_checked_in b.status))
      (bad_request "This reservation is not currently checked in")
  pure (elim b.guest_user_id [ some user_id ↦ (user_id, Mode.user) | none ↦ (b.id, Mode.booking) ])

-- The bookings that the token's holder can act on, as `checkOutListActive` finds them.
unfoldable pub list_active : ℕ → Mode → Db → List Booking
list_active sub mode db = filter (λ b. may_act mode sub b && is_checked_in b.status) db.bookings
