-- ===== src/Bookings/CheckIn.antt =====
-- `checkInSubmit`, the guest's check-in wizard. The emails that follow a submit are not modelled, nor
-- is the unique key of the accounts, email and role, which the insert of an account may violate.
-- An optional Boolean of the form that is only tested is false where it is missing.
pub mod Codes
pub mod Once
pub mod Verify
use msk_back.Base.{
  ℕ, suc, String, Bool, true, false, not, ◌&&◌, ◌||◌, Option, none, some, List, [], ◌∷◌, ◌++◌, ◌==◌,
  if◌then◌else◌, ◌is◌, get_or, or_else, find?, delete_where,
}
use msk_back.Base.Action.{
  ◌>>=◌, ◌>>◌, Action, pure, throw, gets, or_throw, throw_if, modify, bad_request, not_found,
  internal_error,
}
use msk_back.Base.Text.{concat, is_blank, is_filled, text_is, trim}
use msk_back.Bookings.Tables.{
  Status, VerifyMethod, VerifyChoice, Wizard, Booking, BookingGuest, AccountKind, User, Event, Db,
  is_checked_in, booking_at, update_booking, record_activity, pending, confirmed, checked_in,
  checked_out, cancelled, no_show, app, self, reception, verify_now, verify_later, platform,
  guest_checked_in, guests_added,
}

pub record CheckInGuest : Type 0 where
  pub first_name : String
  pub last_name : String
  pub email : Option String
  pub phone : Option String
  pub has_kids : Option Bool
  pub kids_count : Option ℕ

pub record CheckInSubmit : Type 0 where
  pub first_name : Option String
  pub last_name : Option String
  pub email : Option String
  pub phone : Option String
  pub arrival_time : Option String
  pub wants_room_type_change : Option Bool
  pub requested_room_type : Option String
  pub guests : List CheckInGuest
  pub physical_verify_choice : Option VerifyChoice
  pub address_by_code : Option Bool
  pub identity_verify_method : Option VerifyMethod
  pub vehicle_registration : Option String
  pub id_document_url : Option String
  pub selfie_url : Option String
  pub accepted_privacy : Bool
  pub confirmed_accurate : Bool
  pub identity_consent : Bool
  pub signature_url : Option String
  pub additional_info_text : Option String
  pub accepted_terms : Bool
  pub is_behalf_booking : Option Bool
  pub booker_first_name : Option String
  pub booker_last_name : Option String
  pub booker_email : Option String
  pub booker_phone : Option String

-- The ids that the database gives to the rows that a submit inserts.
pub record SubmitIds : Type 0 where
  pub user : ℕ
  pub guest : ℕ → ℕ
  -- What the database says where it refuses the new account, and where the transaction fails.
  pub user_failure : Option String
  pub failure : Option String

-- A write that the database refuses.
abbrev pub fail_with : Option String → Action Db (Unit {0})
fail_with none = pure tt
fail_with (some message) = throw (internal_error message)

unfoldable pub assert_check_in_able : Status → Action Db (Unit {0})
assert_check_in_able pending = pure tt
assert_check_in_able confirmed = pure tt
assert_check_in_able checked_in =
    throw (bad_request "You're already checked in for this reservation.")
assert_check_in_able checked_out = throw (bad_request "This stay has already ended.")
assert_check_in_able cancelled = throw (bad_request "This reservation was cancelled.")
assert_check_in_able no_show = throw (bad_request "This reservation is closed.")

abbrev pub verify_method : CheckInSubmit → VerifyMethod
verify_method dto = get_or dto.identity_verify_method VerifyMethod.reception

abbrev pub is_self : VerifyMethod → Bool
is_self VerifyMethod.self = true
is_self VerifyMethod.reception = false

abbrev pub default_choice : VerifyMethod → VerifyChoice
default_choice VerifyMethod.self = verify_later
default_choice VerifyMethod.reception = verify_now

-- The checks of the input alone.
unfoldable pub check_submit : CheckInSubmit → Action Db (Unit {0})
check_submit dto = do
  throw_if (not dto.accepted_terms) (bad_request "Terms must be accepted")
  throw_if (not dto.accepted_privacy) (bad_request "Privacy notice must be acknowledged")
  throw_if (not dto.confirmed_accurate) (bad_request "Please confirm the information is accurate")
  throw_if (is_self (verify_method dto) && not dto.identity_consent)
      (bad_request "Identity verification consent is required")
  throw_if
      (is_self (verify_method dto)
        && not (is_filled dto.id_document_url && is_filled dto.selfie_url))
      (bad_request "Please upload an ID document and a live selfie")

abbrev pub is_app : AccountKind → Bool
is_app AccountKind.platform = false
is_app AccountKind.app = true

abbrev pub new_guest_user : ℕ → CheckInSubmit → Booking → String → User
new_guest_user user_id dto b email = record {
  id = user_id;
  email = some email;
  phone = or_else dto.phone b.guest_phone;
  first_name = or_else dto.first_name b.guest_first_name;
  last_name = or_else dto.last_name b.guest_last_name;
  account_kind = AccountKind.app;
  email_verified = true;
}

-- The account with the guest's email, made where there is none.
unfoldable pub find_or_create_guest :
    SubmitIds → CheckInSubmit → Booking → String → Action Db (Option ℕ)
find_or_create_guest new dto b email = do
  found ← gets (λ db. find? (λ u. is_app u.account_kind && text_is u.email email) db.users)
  elim found [
    | some u ↦ pure (some u.id)
    | none ↦
        fail_with new.user_failure
        >> modify (λ db. record db { users = db.users ++ new_guest_user new.user dto b email ∷ [] })
        >> pure (some new.user)
  ]

-- The account that the booking is linked to.
unfoldable pub link_guest : SubmitIds → CheckInSubmit → Booking → Action Db (Option ℕ)
link_guest new dto b = elim b.guest_user_id [
  | some u ↦ pure (some u)
  | none ↦ elim (or_else dto.email b.guest_email) [
    | none ↦ pure none
    | some email ↦ if is_blank email then pure none else find_or_create_guest new dto b email
  ]
]

-- `dto.bookerEmail && dto.bookerEmail !== dto.email`
abbrev pub other_booker : CheckInSubmit → Option String
other_booker dto = elim dto.booker_email [
  | none ↦ none
  | some email ↦ if is_blank email || text_is dto.email email then none else some email
]

-- The account of the person who books on another's behalf.
unfoldable pub booked_by : CheckInSubmit → Action Db (Option ℕ)
booked_by dto =
    if get_or dto.is_behalf_booking false
    then elim (other_booker dto) [
      | none ↦ pure none
      | some email ↦ gets (λ db. elim (find? (λ u. text_is u.email email) db.users) [
        | none ↦ none
        | some u ↦ some u.id
      ])
    ]
    else pure none

abbrev pub filled_wizard : ℕ → CheckInSubmit → Option ℕ → Wizard → Wizard
filled_wizard now dto booker w = record w {
  is_behalf_booking = get_or dto.is_behalf_booking w.is_behalf_booking;
  booker_first_name = or_else dto.booker_first_name w.booker_first_name;
  booker_last_name = or_else dto.booker_last_name w.booker_last_name;
  booker_email = or_else dto.booker_email w.booker_email;
  booker_phone = or_else dto.booker_phone w.booker_phone;
  booked_by_user_id = or_else booker w.booked_by_user_id;
  arrival_time = or_else dto.arrival_time w.arrival_time;
  wants_room_type_change = or_else dto.wants_room_type_change w.wants_room_type_change;
  requested_room_type = or_else dto.requested_room_type w.requested_room_type;
  physical_verify_choice =
      some (get_or dto.physical_verify_choice (default_choice (verify_method dto)));
  address_by_code = some (get_or dto.address_by_code false);
  signature_url = or_else dto.signature_url w.signature_url;
  additional_info_text = or_else dto.additional_info_text w.additional_info_text;
  accepted_terms_at = some now;
  vehicle_registration = or_else dto.vehicle_registration w.vehicle_registration;
  identity_verify_method = some (verify_method dto);
  id_document_url = or_else dto.id_document_url w.id_document_url;
  selfie_url = or_else dto.selfie_url w.selfie_url;
  accepted_privacy_at = some now;
  confirmed_accurate_at = some now;
  identity_consent_at = if is_self (verify_method dto) then some now else w.identity_consent_at;
}

-- The `data` of the update; `flips` is `shouldFlipCheckedIn`.
unfoldable pub submitted : ℕ → CheckInSubmit → Option ℕ → Option ℕ → Bool → Booking → Booking
submitted now dto guest_user booker flips b = record b {
  guest_first_name = or_else dto.first_name b.guest_first_name;
  guest_last_name = or_else dto.last_name b.guest_last_name;
  guest_email = or_else dto.email b.guest_email;
  guest_phone = or_else dto.phone b.guest_phone;
  guest_user_id = or_else guest_user b.guest_user_id;
  wizard = filled_wizard now dto booker b.wizard;
  status = if flips then checked_in else b.status;
  checked_in_at = if flips then some now else b.checked_in_at;
}

abbrev pub guest_row : ℕ → ℕ → CheckInGuest → BookingGuest
guest_row booking_id id g = record {
  id = id;
  booking_id = booking_id;
  full_name = trim (concat g.first_name (concat " " g.last_name));
  email = g.email;
  phone = g.phone;
  is_primary = false;
  has_kids = g.has_kids;
  kids_count = g.kids_count;
}

abbrev pub guest_rows : ℕ → (ℕ → ℕ) → List CheckInGuest → List BookingGuest
guest_rows booking_id new [] = []
guest_rows booking_id new (g ∷ gs) =
    guest_row booking_id (new 0) g ∷ guest_rows booking_id (λ n. new (suc n)) gs

-- The additional guests are replaced where the wizard gives any.
unfoldable pub replace_guests : ℕ → (ℕ → ℕ) → List CheckInGuest → Action Db (Unit {0})
replace_guests booking_id new [] = pure tt
replace_guests booking_id new (g ∷ gs) = modify (λ db. record db {
  guests =
      delete_where (λ r. r.booking_id == booking_id) db.guests
      ++ guest_rows booking_id new (g ∷ gs);
})

abbrev pub record_if : Bool → ℕ → Event → Action Db (Unit {0})
record_if true booking_id event = record_activity booking_id event
record_if false booking_id event = pure tt

abbrev pub any_guests : List CheckInGuest → Bool
any_guests [] = false
any_guests (_ ∷ _) = true

-- The part of `checkInSubmit` behind its checks. The account is made before the transaction, so it
-- stays where the transaction fails.
unfoldable pub complete_check_in : ℕ → SubmitIds → ℕ → CheckInSubmit → Booking → Action Db Booking
complete_check_in now new id dto b = do
  let flips = not (is_checked_in b.status)
  guest_user ← link_guest new dto b
  booker ← booked_by dto
  fail_with new.failure
  update_booking id (submitted now dto guest_user booker flips)
  replace_guests id new.guest dto.guests
  record_if flips id guest_checked_in
  record_if (any_guests dto.guests) id guests_added
  or_throw (← gets (booking_at id)) (not_found "Booking not found")

unfoldable pub check_in_submit : ℕ → SubmitIds → ℕ → CheckInSubmit → Action Db Booking
check_in_submit now new id dto = do
  check_submit dto
  b ← or_throw (← gets (booking_at id)) (not_found "Booking not found")
  assert_check_in_able b.status
  complete_check_in now new id dto b
