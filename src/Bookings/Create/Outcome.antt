-- ===== src/Bookings/Create/Outcome.antt =====
-- What `create` leaves behind, and the price that it computes.
use msk_back.Base.{
  ℕ, ◌+◌, ◌<◌, String, ◌≡◌, refl, ◌⊎◌, inl, inr, true, false, Option, some, List, [], ◌∷◌, ◌++◌,
  arith, ◌==◌, get_or, Bool-cases, Option-cases, length, find?,
}
use msk_back.Base.Action.{
  HttpError, Result, bad_request, not_found, internal_error, unavailable, ok, err,
}
use msk_back.Dates.{utc_midnight, enumerate_days}
use msk_back.Dates.Days.{length-enumerate_days}
use msk_back.Availability.Tables.{Entry}
use msk_back.Availability.Reserve.{entry_on, try_reserve}
use msk_back.Availability.Reserve.Effect.{try_reserve-cases}
use msk_back.Availability.Public.{RoomType}
use msk_back.Bookings.Tables.{Booking, Db}
use msk_back.Bookings.Create.{
  CreateInput, NewIds, nightly, night_currency, price_nights, stay_request, new_booking,
  booking_block, stay_nights, quote, is_refused, insert_booking, create,
}

-- The sum of the nights' prices.
pub sum_nights : ℕ → List Entry → List ℕ → ℕ
sum_nights base_price entries [] = 0
sum_nights base_price entries (day ∷ days) =
    nightly base_price (entry_on day entries) + sum_nights base_price entries days

-- The pricing loop adds up the price of each night: the price of its row, or the base price of the
-- room type where there is no row or the row has none.
pub price_nights-total :
    (base_price : ℕ) (entries : List Entry) (days : List ℕ) (total : ℕ) (currency : String)
    → (price_nights base_price entries days total currency).0
      ≡ total + sum_nights base_price entries days
unfolding price_nights sum_nights
price_nights-total base_price entries [] total currency = omega arith
price_nights-total base_price entries (day ∷ days) total currency =
    let rest =
      price_nights-total base_price entries days (total + nightly base_price (entry_on day entries))
        (night_currency currency (entry_on day entries)) in
    omega (arith, rest)

-- The nights of the booking are the days that are priced and reserved.
pub stay_nights-eq-length :
    (input : CreateInput)
    → stay_nights input
      ≡ length (enumerate_days (utc_midnight input.check_in) (utc_midnight input.check_out))
unfolding stay_nights utc_midnight
stay_nights-eq-length input = rw length-enumerate_days (omega arith)

abbrev pub room_type_of : CreateInput → Db → Option RoomType
room_type_of input db = find? (λ rt. rt.id == input.room_type_id) db.room_types

-- The state after a booking that was made.
abbrev pub with_booking : NewIds → CreateInput → RoomType → Db → Db
with_booking new input room_type db = record db {
  entries = (try_reserve new.entry (stay_request input) db.entries).1;
  bookings =
      db.bookings
      ++ new_booking new input (stay_nights input) (quote input room_type db.entries) ∷ [];
  blocks = db.blocks ++ booking_block new input ∷ [];
}

-- The nights are reserved, and nothing else is written.
abbrev pub only_reserved : NewIds → CreateInput → Db → Db
only_reserved new input db = record db {
  entries = (try_reserve new.entry (stay_request input) db.entries).1;
}

-- `create` fails and changes nothing; or it fails where `tryReserve` succeeded and the transaction
-- was refused, and leaves the nights reserved; or the stay has a night, the room type is one of the
-- property, and the state has the reservation, the booking and its block.
abbrev pub CreateOutcome : NewIds → CreateInput → Db → Result Booking × Db → Type 0
CreateOutcome new input db (err e, db') =
    (db' ≡ db)
    ⊎ (((try_reserve new.entry (stay_request input) db.entries).0 ≡ ok true)
        × (is_refused new input db ≡ true)
        × (db' ≡ only_reserved new input db))
CreateOutcome new input db (ok b, db') =
    (rt : RoomType) × (0 < stay_nights input)
    × (room_type_of input db ≡ some rt)
    × (rt.property_id ≡ input.property_id)
    × ((try_reserve new.entry (stay_request input) db.entries).0 ≡ ok true)
    × (is_refused new input db ≡ false)
    × (b ≡ new_booking new input (stay_nights input) (quote input rt db.entries))
    × (db' ≡ with_booking new input rt db)

-- Every call of `create` ends so: an error leaves every table as it was, but that it leaves the
-- nights reserved, without a booking or a block, where they were free and the transaction that inserts
-- the booking is refused; and a booking is made only with a night, a room type of the property, the
-- nights reserved and the transaction accepted.
pub create-CreateOutcome :
    (new : NewIds) (input : CreateInput) (db : Db)
    → CreateOutcome new input db (create new input db)
unfolding create insert_booking is_refused
create-CreateOutcome new input db = elim (Bool-cases (stay_nights input == 0)) [
  | inl no_night ↦ refused (bad_request "checkOut must be after checkIn") (ground arith)
  | inr nights ↦ elim (Option-cases (room_type_of input db)) [
    | inl missing ↦ refused (not_found "Room type not found") (ground arith)
    | inr (rt, found) ↦ elim (Bool-cases (rt.property_id == input.property_id)) [
      | inr foreign ↦ refused (bad_request "Room type does not belong to property") (ground arith)
      | inl own ↦ elim (try_reserve-cases new.entry (stay_request input) db.entries) [
        | inl (day, full) ↦ refused (unavailable day) (ground arith)
        | inr reserved ↦ elim (Bool-cases (is_refused new input db)) [
          | inl broken ↦ left (ground arith) broken (ground arith)
          | inr accepted ↦
              booked rt (ground arith) found (ground arith) reserved accepted (ground arith)
        ]
      ]
    ]
  ]
]
  where
    refused :
        (e : HttpError)
        → create new input db ≡ (err e, db)
        → CreateOutcome new input db (create new input db)
    refused e same = rw same (inl refl)

    left :
        (try_reserve new.entry (stay_request input) db.entries).0 ≡ ok true
        → is_refused new input db ≡ true
        → create new input db ≡ (
          err (internal_error (get_or new.failure "Constraint failed")),
          only_reserved new input db,
        )
        → CreateOutcome new input db (create new input db)
    left reserved broken same = rw same (inr (reserved, broken, refl))

    booked :
        (rt : RoomType)
        → 0 < stay_nights input
        → room_type_of input db ≡ some rt
        → rt.property_id ≡ input.property_id
        → (try_reserve new.entry (stay_request input) db.entries).0 ≡ ok true
        → is_refused new input db ≡ false
        → create new input db ≡ (
          ok (new_booking new input (stay_nights input) (quote input rt db.entries)),
          with_booking new input rt db,
        )
        → CreateOutcome new input db (create new input db)
    booked rt nights found own reserved accepted same =
        rw same (rt, nights, found, own, reserved, accepted, refl, refl)
