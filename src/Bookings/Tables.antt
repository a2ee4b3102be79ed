-- ===== src/Bookings/Tables.antt =====
-- The tables that src/modules/bookings/bookings.service.ts reads and writes, as one state, and the
-- ways of reading and writing a row.
use msk_back.Base.{
  ℕ, String, Bool, true, false, Option, none, List, [], ◌∷◌, ◌++◌, ◌==◌, find?, update_where,
}
use msk_back.Base.Action.{Action, pure, gets, or_throw, ◌>>=◌, ◌>>◌, modify, internal_error}
use msk_back.Availability.Tables.{Entry, Block}
use msk_back.Availability.Public.{RoomType}

pub data Status : Type 0 where
  pending confirmed checked_in checked_out cancelled no_show : Status

pub data Source : Type 0 where
  website app admin airbnb booking_com expedia other : Source

-- Who verifies a guest's identity, and when.
pub data VerifyMethod : Type 0 where
  self reception : VerifyMethod

pub data VerifyChoice : Type 0 where
  verify_now verify_later : VerifyChoice

pub data CheckoutMethod : Type 0 where
  remote reception : CheckoutMethod

pub data PaymentMethod : Type 0 where
  property card bank_transfer : PaymentMethod

pub data KeyLocation : Type 0 where
  staff room : KeyLocation

-- The columns that the check-in wizard writes.
pub record Wizard : Type 0 where
  pub is_behalf_booking : Bool
  pub booker_first_name : Option String
  pub booker_last_name : Option String
  pub booker_email : Option String
  pub booker_phone : Option String
  pub booked_by_user_id : Option ℕ
  pub arrival_time : Option String
  pub wants_room_type_change : Option Bool
  pub requested_room_type : Option String
  pub physical_verify_choice : Option VerifyChoice
  pub address_by_code : Option Bool
  pub signature_url : Option String
  pub additional_info_text : Option String
  pub accepted_terms_at : Option ℕ
  pub vehicle_registration : Option String
  pub identity_verify_method : Option VerifyMethod
  pub id_document_url : Option String
  pub selfie_url : Option String
  pub accepted_privacy_at : Option ℕ
  pub confirmed_accurate_at : Option ℕ
  pub identity_consent_at : Option ℕ

-- The columns that the check-out wizard writes.
pub record Checkout : Type 0 where
  pub method : Option CheckoutMethod
  pub payment_method : Option PaymentMethod
  pub staff_qr_code : Option String
  pub room_photo_urls : List String
  pub bathroom_photo_urls : List String
  pub key_location : Option KeyLocation
  pub staff_name : Option String
  pub key_location_photo_url : Option String
  pub feedback : Option String
  pub confirmed_at : Option ℕ

-- Amounts are in cents, a check-in code is a number of six digits.
pub record Booking : Type 0 where
  pub id : ℕ
  pub reference : String
  pub external_id : Option String
  pub property_id : ℕ
  pub room_type_id : Option ℕ
  pub room_id : Option ℕ
  pub guest_user_id : Option ℕ
  pub guest_email : Option String
  pub guest_phone : Option String
  pub guest_first_name : Option String
  pub guest_last_name : Option String
  pub adults : ℕ
  pub children : ℕ
  pub check_in : ℕ
  pub check_out : ℕ
  pub nights : ℕ
  pub status : Status
  pub source : Source
  pub total_amount : ℕ
  pub paid_amount : ℕ
  pub currency : String
  pub special_requests : Option String
  pub cancellation_reason : Option String
  pub cancelled_at : Option ℕ
  pub checked_in_at : Option ℕ
  pub checked_out_at : Option ℕ
  pub check_in_code : Option ℕ
  pub wizard : Wizard
  pub checkout : Checkout

pub record BookingGuest : Type 0 where
  pub id : ℕ
  pub booking_id : ℕ
  pub full_name : String
  pub email : Option String
  pub phone : Option String
  pub is_primary : Bool
  pub has_kids : Option Bool
  pub kids_count : Option ℕ

pub record Room : Type 0 where
  pub id : ℕ
  pub number : String
  pub property_id : ℕ
  pub room_type_id : ℕ

pub data AccountKind : Type 0 where
  platform app : AccountKind

pub record User : Type 0 where
  pub id : ℕ
  pub email : Option String
  pub phone : Option String
  pub first_name : Option String
  pub last_name : Option String
  pub account_kind : AccountKind
  pub email_verified : Bool

pub data QrTarget : Type 0 where
  property room handbook_item amenity staff custom : QrTarget

pub record QrCode : Type 0 where
  pub code : String
  pub target : QrTarget
  pub is_active : Bool
  pub staff_name : Option String

-- The events of the activity timeline, by booking.
pub data Event : Type 0 where
  guest_checked_in guest_checked_out guests_added room_assigned room_unassigned : Event

pub record Db : Type 0 where
  pub room_types : List RoomType
  pub rooms : List Room
  pub entries : List Entry
  pub blocks : List Block
  pub bookings : List Booking
  pub guests : List BookingGuest
  pub users : List User
  pub qr_codes : List QrCode
  pub activity : List (ℕ × Event)

-- `status: { notIn: [CANCELLED, NO_SHOW] }`
abbrev pub is_active : Status → Bool
is_active cancelled = false
is_active no_show = false
is_active _ = true

abbrev pub is_checked_in : Status → Bool
is_checked_in checked_in = true
is_checked_in _ = false

abbrev pub is_cancelled : Status → Bool
is_cancelled cancelled = true
is_cancelled _ = false

-- Neither cancelled nor checked out: `assignRoom` and `moveDates` refuse the other two.
abbrev pub is_frozen : Status → Bool
is_frozen cancelled = true
is_frozen checked_out = true
is_frozen _ = false

-- `booking.findUnique({ where: { id } })`
abbrev pub booking_at : ℕ → Db → Option Booking
booking_at id db = find? (λ b. b.id == id) db.bookings

abbrev pub set_bookings : List Booking → Db → Db
set_bookings bookings db = record db { bookings = bookings }

-- `booking.update({ where: { id }, data })` on a row that is there.
abbrev pub write_booking : ℕ → (Booking → Booking) → Db → Db
write_booking id f db = set_bookings (update_where (λ b. b.id == id) f db.bookings) db

-- The same, which throws where no row has the id, and returns the row as written.
unfoldable pub update_booking : ℕ → (Booking → Booking) → Action Db Booking
update_booking id f = do
  b ← or_throw (← gets (booking_at id)) (internal_error "Record to update not found.")
  modify (write_booking id f)
  pure (f b)

-- `recordActivity`
abbrev pub record_activity : ℕ → Event → Action Db (Unit {0})
record_activity id event = modify (λ db. record db { activity = db.activity ++ (id, event) ∷ [] })

-- A call of the availability service, on its tables.
abbrev pub on_entries : {A : Type 0} → Action (List Entry) A → Action Db A
on_entries m db = let (r, entries) = m db.entries in (r, record db { entries = entries })

abbrev pub empty_wizard : Wizard
empty_wizard = record {
  is_behalf_booking = false;
  booker_first_name = none;
  booker_last_name = none;
  booker_email = none;
  booker_phone = none;
  booked_by_user_id = none;
  arrival_time = none;
  wants_room_type_change = none;
  requested_room_type = none;
  physical_verify_choice = none;
  address_by_code = none;
  signature_url = none;
  additional_info_text = none;
  accepted_terms_at = none;
  vehicle_registration = none;
  identity_verify_method = none;
  id_document_url = none;
  selfie_url = none;
  accepted_privacy_at = none;
  confirmed_accurate_at = none;
  identity_consent_at = none;
}

abbrev pub empty_checkout : Checkout
empty_checkout = record {
  method = none;
  payment_method = none;
  staff_qr_code = none;
  room_photo_urls = [];
  bathroom_photo_urls = [];
  key_location = none;
  staff_name = none;
  key_location_photo_url = none;
  feedback = none;
  confirmed_at = none;
}
