-- ===== src/Bookings/Guests.antt =====
-- The stays of a signed-in guest and the guests on them: `mine`, `claimByReference`, `currentStay` and
-- the requests on the guests of a stay. `same_uncased` is the database's comparison without case,
-- `lower` is `toLowerCase`; a new row's id comes with the request. The texts of the e-mails and the
-- shapes that only copy columns are left out.
pub mod Others
mod Examples
use msk_back.Base.{
  ℕ, suc, ◌-◌, String, Bool, true, false, not, ◌&&◌, ◌||◌, Option, none, some, List, [], ◌∷◌, ◌++◌,
  map, ltb, ◌==◌, if◌then◌else◌, ◌is◌, or_else, is_some, length, find?, filter, any, delete_where,
}
use msk_back.Base.Int.{ℤ, pos}
use msk_back.Base.Action.{
  Action, pure, gets, or_throw, ◌>>=◌, ◌>>◌, throw_if, modify, bad_request, not_found, conflict,
  internal_error, ok,
}
use msk_back.Base.Text.{is_blank, same_text, trim, before_at}
use msk_back.Bookings.Tables.{
  Status, Booking, BookingGuest, Db, is_checked_in, is_cancelled, write_booking, pending, confirmed,
  checked_out,
}

-- `column: { equals, mode: 'insensitive' }`
abbrev pub column_is : (String → String → Bool) → String → Option String → Bool
column_is same email none = false
column_is same email (some c) = same c email

-- `g.email?.toLowerCase() === email.toLowerCase()`
abbrev pub lowers_to : (String → String) → String → Option String → Bool
lowers_to lower email none = false
lowers_to lower email (some c) = same_text (lower c) (lower email)

-- A booking that names the address itself or on one of its guests.
abbrev pub names_email : (Option String → Bool) → List BookingGuest → Booking → Bool
names_email is_email guests b =
    is_email b.guest_email || any (λ g. g.booking_id == b.id && is_email g.email) guests

-- The caller: the account, and its address where it has one.
pub record Caller : Type 0 where
  pub user_id : ℕ
  pub email : Option String

-- With the caller's address, where there is one: `if (email)`, `!!email &&`.
abbrev pub names_caller :
    (String → Option String → Bool) → Caller → List BookingGuest → Booking → Bool
names_caller is_same caller guests b = elim caller.email [
  | none ↦ false
  | some email ↦ not (is_blank email) && names_email (is_same email) guests b
]

abbrev pub is_not_cancelled : Booking → Bool
is_not_cancelled b = not (is_cancelled b.status)

abbrev pub is_upcoming : Status → Bool
is_upcoming confirmed = true
is_upcoming pending = true
is_upcoming _ = false

abbrev pub is_checked_out : Status → Bool
is_checked_out checked_out = true
is_checked_out _ = false

-- `orderBy: { checkIn: 'asc' }`
abbrev pub checks_in_before : Booking → Booking → Bool
checks_in_before b c = ltb b.check_in c.check_in

-- `orderBy: { column: 'desc' }`, where the database puts a missing time first.
abbrev pub is_later : Option ℕ → Option ℕ → Bool
is_later none none = false
is_later none (some _) = true
is_later (some _) none = false
is_later (some s) (some t) = ltb t s

abbrev pub better : (Booking → Booking → Bool) → Booking → Option Booking → Booking
better before b none = b
better before b (some c) = if before c b then c else b

-- `findFirst` with an order: the first row that no other one comes before.
unfoldable pub first_by : (Booking → Booking → Bool) → List Booking → Option Booking
first_by before [] = none
first_by before (b ∷ bs) = some (better before b (first_by before bs))

abbrev pub insert_by : (Booking → Booking → Bool) → Booking → List Booking → List Booking
insert_by before b [] = b ∷ []
insert_by before b (c ∷ cs) =
    let rest = insert_by before b cs in if before c b then c ∷ rest else b ∷ c ∷ cs

unfoldable pub sort_by : (Booking → Booking → Bool) → List Booking → List Booking
sort_by before [] = []
sort_by before (b ∷ bs) = insert_by before b (sort_by before bs)

-- `new Set(emails)`, in the order of the first of each.
unfoldable pub distinct : List String → List String
distinct [] = []
distinct (x ∷ xs) = x ∷ filter (λ y. not (same_text x y)) (distinct xs)

-- `dest.split('@')[0] || dest`
abbrev pub invited_name : String → String
invited_name dest = if is_blank (before_at dest) then dest else before_at dest

abbrev pub invited_guest : ℕ → ℕ → String → BookingGuest
invited_guest id stay_id dest = record {
  id = id;
  booking_id = stay_id;
  full_name = invited_name dest;
  email = some dest;
  phone = none;
  is_primary = false;
  has_kids = none;
  kids_count = none;
}

-- `input.email?.trim() || null`
abbrev pub trimmed : Option String → Option String
trimmed none = none
trimmed (some s) = if is_blank (trim s) then none else some (trim s)

-- `typeof kidsCount === 'number' && kidsCount > 0 ? kidsCount : null`
abbrev pub counted_kids : Option ℤ → Option ℕ
counted_kids (some (pos (suc n))) = some (suc n)
counted_kids _ = none

pub record StayGuestInput : Type 0 where
  pub full_name : String
  pub email : Option String
  pub phone : Option String
  pub kids_count : Option ℤ
  pub booking_id : Option ℕ

unfoldable pub added_guest : ℕ → ℕ → StayGuestInput → BookingGuest
added_guest id stay_id input = record {
  id = id;
  booking_id = stay_id;
  full_name = trim input.full_name;
  email = trimmed input.email;
  phone = trimmed input.phone;
  is_primary = false;
  has_kids = some (is_some (counted_kids input.kids_count));
  kids_count = counted_kids input.kids_count;
}

abbrev pub insert_guest : BookingGuest → Db → Db
insert_guest g db = record db { guests = db.guests ++ g ∷ [] }

abbrev pub linked_to : ℕ → Booking → Booking
linked_to user_id b = record b { guest_user_id = some user_id }

pub record Invited : Type 0 where
  pub invited : ℕ
  pub guests : List BookingGuest
  pub skipped : ℕ

module _ (same_uncased : String → String → Bool) where
  -- `guestBookingWhere`
  unfoldable pub is_guest_booking : Caller → Db → Booking → Bool
  is_guest_booking caller db b =
      b.guest_user_id is caller.user_id || names_caller (column_is same_uncased) caller db.guests b

  unfoldable pub mine : Caller → Action Db (List Booking)
  mine caller = gets (λ db.
      sort_by checks_in_before
        (filter (λ b. is_guest_booking caller db b && is_not_cancelled b) db.bookings))

  unfoldable pub current_stay : Caller → Db → Option Booking
  current_stay caller db =
      let those : (Status → Bool) → List Booking =
        λ p. filter (λ b. is_guest_booking caller db b && p b.status) db.bookings in
      or_else (first_by (λ b c. is_later b.checked_in_at c.checked_in_at) (those is_checked_in)) (
        or_else (first_by checks_in_before (those is_upcoming))
          (first_by (λ b c. is_later b.checked_out_at c.checked_out_at) (those is_checked_out)))

  -- `assertOwnedStay`
  unfoldable pub owned_stay : Caller → ℕ → Action Db Booking
  owned_stay caller booking_id = do
    b ←
        or_throw
          (← gets
            (λ db. find? (λ b. b.id == booking_id && is_guest_booking caller db b) db.bookings))
          (not_found "Reservation not found")
    pure b

  -- `bookingId ? await this.assertOwnedStay(…) : await this.currentStay(…)`
  unfoldable pub stay_for : Caller → Option ℕ → Action Db (Option Booking)
  stay_for caller none = gets (current_stay caller)
  stay_for caller (some booking_id) = owned_stay caller booking_id >>= λ b. pure (some b)

  unfoldable pub guests_for_stay : Caller → Option ℕ → Action Db (List BookingGuest)
  guests_for_stay caller booking_id = do
    stay ← stay_for caller booking_id
    gets (λ db. elim stay [ none ↦ [] | some b ↦ filter (λ g. g.booking_id == b.id) db.guests ])

  -- The loop of `inviteStayGuests`; a row that is made takes the next id.
  unfoldable pub invite_each : ℕ → ℕ → List String → Db → List BookingGuest × Db
  invite_each next stay_id [] db = ([], db)
  invite_each next stay_id (dest ∷ rest) db =
      elim (any (λ g. g.booking_id == stay_id && column_is same_uncased dest g.email) db.guests) [
        | true ↦ invite_each next stay_id rest db
        | false ↦
            let row = invited_guest next stay_id dest in
            let (rows, db') = invite_each (suc next) stay_id rest (insert_guest row db) in
            (row ∷ rows, db')
      ]

  unfoldable pub add_stay_guest : ℕ → Caller → StayGuestInput → Action Db BookingGuest
  add_stay_guest id caller input = do
    stay ←
        or_throw (← stay_for caller input.booking_id) (not_found "No active stay to add a guest to")
    let row = added_guest id stay.id input
    modify (insert_guest row)
    pure row

  unfoldable pub remove_stay_guest : Caller → ℕ → Action Db (Unit {0})
  remove_stay_guest caller guest_id = do
    stay ← or_throw (← gets (current_stay caller)) (not_found "No active stay")
    guest ←
        or_throw (← gets (λ db. find? (λ g. g.id == guest_id) db.guests))
          (not_found "Guest not found")
    throw_if (not (guest.booking_id == stay.id)) (not_found "Guest not found")
    throw_if guest.is_primary (bad_request "The primary guest cannot be removed")
    modify (λ db. record db { guests = delete_where (λ g. g.id == guest_id) db.guests })

  unfoldable pub update_stay_guest_access_level : Caller → ℕ → Action Db (Option BookingGuest)
  update_stay_guest_access_level caller guest_id = do
    guest ←
        or_throw (← gets (λ db. find? (λ g. g.id == guest_id) db.guests))
          (internal_error "Guest not found")
    _ ← owned_stay caller guest.booking_id
    gets (λ db. find? (λ g. g.id == guest_id) db.guests)

  module _ (lower : String → String) where
    unfoldable pub invite_stay_guests : ℕ → Caller → List String → Option ℕ → Action Db Invited
    invite_stay_guests next caller emails booking_id = do
      stay ← or_throw (← stay_for caller booking_id) (not_found "No active stay to add a guest to")
      let unique = distinct (filter (λ e. not (is_blank e)) (map (λ e. lower (trim e)) emails))
      λ db.
          let (rows, db') = invite_each next stay.id unique db in
          (
            ok (record {
              invited = length rows;
              guests = rows;
              skipped = length unique - length rows;
            }),
            db',
          )

    unfoldable pub claim_by_reference : Caller → String → Action Db Booking
    claim_by_reference caller reference = do
      b ←
          or_throw
            (← gets (λ db. find? (λ b. same_uncased b.reference (trim reference)) db.bookings))
            (not_found "Reservation not found")
      guests ← gets (λ db. db.guests)
      let email_match = names_caller (lowers_to lower) caller guests b
      throw_if
          (is_some b.guest_user_id && not (b.guest_user_id is caller.user_id) && not email_match)
          (conflict "This reservation is already linked to another profile")
      if b.guest_user_id is caller.user_id
          then pure b
          else (modify (write_booking b.id (linked_to caller.user_id)) >> pure b)
