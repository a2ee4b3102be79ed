-- ===== src/Bookings/Create.antt =====
-- `create`: the price of a stay, the reservation, the booking and its block. The confirmation email
-- is sent after the answer and changes no table.
pub mod Outcome
use msk_back.Base.{
  ℕ, ◌+◌, ◌-◌, ◌/◌, String, Bool, false, not, ◌&&◌, ◌||◌, Option, none, some, List, [], ◌∷◌, ◌++◌,
  ◌==◌, ◌is◌, get_or, is_some, find?, filter, any,
}
use msk_back.Base.Action.{
  Action, pure, gets, or_throw, ◌>>=◌, ◌>>◌, throw_if, modify, bad_request, not_found,
  internal_error,
}
use msk_back.Base.Text.{same_text}
use msk_back.Dates.{day_ms, utc_midnight, same_day, enumerate_days}
use msk_back.Availability.Tables.{Entry, BlockReason, Block, Request}
use msk_back.Availability.Reserve.{entry_on, try_reserve}
use msk_back.Availability.Public.{RoomType}
use msk_back.Bookings.Tables.{
  Source, Booking, Db, on_entries, empty_wizard, empty_checkout, pending, website,
}

pub record CreateInput : Type 0 where
  pub property_id : ℕ
  pub room_type_id : ℕ
  pub room_id : Option ℕ
  pub guest_user_id : Option ℕ
  pub guest_email : Option String
  pub guest_phone : Option String
  pub guest_first_name : Option String
  pub guest_last_name : Option String
  pub adults : Option ℕ
  pub children : Option ℕ
  pub check_in : ℕ
  pub check_out : ℕ
  pub source : Option Source
  pub special_requests : Option String

-- The ids that the database gives to new rows, the reference that is drawn, and what the database
-- says where it refuses the transaction for a reason of its own, such as a lost connection.
pub record NewIds : Type 0 where
  pub booking : ℕ
  pub block : ℕ
  pub entry : ℕ → ℕ
  pub reference : String
  pub failure : Option String

-- The rows that `create` reads the prices from: those of the room type, not of a room.
unfoldable pub is_priced : CreateInput → List ℕ → Entry → Bool
is_priced input days e =
    e.property_id == input.property_id
    && e.room_type_id is input.room_type_id
    && not (is_some e.room_id)
    && any (same_day e.date) days

-- `entry?.price != null ? Number(entry.price) : basePrice`
abbrev pub nightly : ℕ → Option Entry → ℕ
nightly base_price none = base_price
nightly base_price (some e) = get_or e.price base_price

-- `if (entry?.currency) currency = entry.currency`
abbrev pub night_currency : String → Option Entry → String
night_currency currency none = currency
night_currency currency (some e) = get_or e.currency currency

-- The pricing loop, on the total and the currency so far.
unfoldable pub price_nights : ℕ → List Entry → List ℕ → ℕ → String → ℕ × String
price_nights base_price entries [] total currency = (total, currency)
price_nights base_price entries (day ∷ days) total currency =
    price_nights base_price entries days (total + nightly base_price (entry_on day entries))
      (night_currency currency (entry_on day entries))

abbrev pub stay_request : CreateInput → Request
stay_request input = record {
  property_id = input.property_id;
  room_type_id = some input.room_type_id;
  room_id = input.room_id;
  check_in = utc_midnight input.check_in;
  check_out = utc_midnight input.check_out;
  units = 1;
}

unfoldable pub new_booking : NewIds → CreateInput → ℕ → ℕ × String → Booking
new_booking new input nights (total, currency) = record {
  id = new.booking;
  reference = new.reference;
  external_id = none;
  property_id = input.property_id;
  room_type_id = some input.room_type_id;
  room_id = input.room_id;
  guest_user_id = input.guest_user_id;
  guest_email = input.guest_email;
  guest_phone = input.guest_phone;
  guest_first_name = input.guest_first_name;
  guest_last_name = input.guest_last_name;
  adults = get_or input.adults 1;
  children = get_or input.children 0;
  check_in = utc_midnight input.check_in;
  check_out = utc_midnight input.check_out;
  nights = nights;
  status = pending;
  source = get_or input.source website;
  total_amount = total;
  paid_amount = 0;
  currency = currency;
  special_requests = input.special_requests;
  cancellation_reason = none;
  cancelled_at = none;
  checked_in_at = none;
  checked_out_at = none;
  check_in_code = none;
  wizard = empty_wizard;
  checkout = empty_checkout;
}

unfoldable pub booking_block : NewIds → CreateInput → Block
booking_block new input = record {
  id = new.block;
  property_id = input.property_id;
  room_id = input.room_id;
  start_date = utc_midnight input.check_in;
  end_date = utc_midnight input.check_out;
  reason = BlockReason.booking;
  booking_id = some new.booking;
  notes = none;
}

-- `Math.round((checkOut - checkIn) / 86400000)` of two midnights; where it is not positive the
-- truncated subtraction gives 0.
unfoldable pub stay_nights : CreateInput → ℕ
stay_nights input = (utc_midnight input.check_out - utc_midnight input.check_in) / day_ms

unfoldable pub quote : CreateInput → RoomType → List Entry → ℕ × String
quote input room_type rows =
    let days = enumerate_days (utc_midnight input.check_in) (utc_midnight input.check_out) in
    price_nights room_type.base_price (filter (is_priced input days) rows) days 0 room_type.currency

-- The transaction breaks a constraint, or fails: the reference is unique, and the room and the guest
-- are foreign keys.
unfoldable pub is_refused : NewIds → CreateInput → Db → Bool
is_refused new input db =
    any (λ b. same_text b.reference new.reference) db.bookings
    || elim input.room_id [ none ↦ false | some id ↦ not (any (λ r. r.id == id) db.rooms) ]
    || elim input.guest_user_id [ none ↦ false | some id ↦ not (any (λ u. u.id == id) db.users) ]
    || is_some new.failure

-- The transaction that inserts the booking and its block, after the nights are reserved.
unfoldable pub insert_booking : NewIds → CreateInput → ℕ × String → Action Db Booking
insert_booking new input price = do
  throw_if (← gets (is_refused new input)) (internal_error (get_or new.failure "Constraint failed"))
  let created = new_booking new input (stay_nights input) price
  modify (λ db. record db {
    bookings = db.bookings ++ created ∷ [];
    blocks = db.blocks ++ booking_block new input ∷ [];
  })
  pure created

unfoldable pub create : NewIds → CreateInput → Action Db Booking
create new input = do
  throw_if (stay_nights input == 0) (bad_request "checkOut must be after checkIn")
  room_type ←
      or_throw (← gets (λ db. find? (λ rt. rt.id == input.room_type_id) db.room_types))
        (not_found "Room type not found")
  throw_if (not (room_type.property_id == input.property_id))
      (bad_request "Room type does not belong to property")
  price ← gets (λ db. quote input room_type db.entries)
  on_entries (try_reserve new.entry (stay_request input))
  insert_booking new input price
