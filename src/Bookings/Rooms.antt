-- ===== src/Bookings/Rooms.antt =====
-- `assignRoom`, `moveDates` and the calendar of a property.
pub mod Clash
pub mod NoClash
use msk_back.Base.{
  ℕ, zero, suc, ◌+◌, ◌-◌, ◌*◌, ◌/◌, ◌%◌, ◌≤◌, ◌<◌, String, ◌≡◌, refl, sym, ap, subst, ◌∙◌, ◌≢◌, ◌↔◌,
  ◌⊎◌, inl, inr, Bool, true, false, not, ◌&&◌, ◌||◌, Option, none, some, List, [], ◌∷◌, ◌++◌, map,
  arith, ltb, leb, ◌==◌, if◌then◌else◌, ==_iff, ==_refl, ◌is◌, opt_eq, get_or, or_else, is_some,
  Bool-cases, Option-cases, All, length, find?, filter, any, all, update_where, delete_where,
  length-append, length-update_where, find?_sound, find?-none, find?-filter, any-append, All-append,
  All-update_where, All-of, All-filter, All-find?, All-map, All-both, All-update_where_if,
  All-map_of, update_where-append, update_where_congr, update_where_none, update_where_twice,
  update_where_undo, In, All-intro, In-filter, In-of_filter, In-find?,
}
use msk_back.Base.Int.{
  ℤ, pos_part, neg_part, sub_ℕ, ◌+ℤ◌, ◌-ℤ◌, ◌≤ℤ◌, ltb_ℤ, +ℤ_parts, -ℤ_parts, eq_of_parts, int_laws,
  +ℤ_cancel, -ℤ_self, pos, negsuc,
}
use msk_back.Base.Action.{
  HttpError, Result, err-ne-ok, Action, pure, throw, gets, or_throw, ◌>>=◌, ◌>>◌, throw_if, modify,
  bad_request, not_found, conflict, unauthorized, forbidden, internal_error, unavailable, ok, err,
}
use msk_back.Dates.{day_ms, utc_midnight, same_day, days_from, enumerate_days}
use msk_back.Bookings.Tables.{
  Status, Source, Wizard, Checkout, Booking, BookingGuest, Room, AccountKind, User, QrTarget,
  QrCode, Event, Db, is_checked_in, is_cancelled, is_frozen, booking_at, set_bookings,
  write_booking, update_booking, record_activity, on_entries, empty_wizard, empty_checkout, pending,
  confirmed, checked_in, checked_out, cancelled, no_show, website, app, admin, airbnb, booking_com,
  expedia, other, platform, property, room, handbook_item, amenity, staff, custom, guest_checked_in,
  guest_checked_out, guests_added, room_assigned, room_unassigned, is_active,
}

-- [checkIn, checkOut) of the booking and [from, to) have a moment in common.
abbrev pub overlaps : ℕ → ℕ → Booking → Bool
overlaps from to b = ltb b.check_in to && ltb from b.check_out

-- The `where` of the conflict search: another active booking of the room in the window.
unfoldable pub is_conflict : ℕ → ℕ → ℕ → ℕ → Booking → Bool
is_conflict id room_id from to b =
    not (b.id == id) && b.room_id is room_id && is_active b.status && overlaps from to b

-- The booking a handler works on; `verb` is the message for a frozen one.
unfoldable pub open_booking : ℕ → String → Action Db Booking
open_booking id message = do
  b ← or_throw (← gets (booking_at id)) (not_found "Booking not found")
  throw_if (is_frozen b.status) (bad_request message)
  pure b

-- The checks for a room that is given.
unfoldable pub check_room : ℕ → Booking → ℕ → Action Db (Unit {0})
check_room id b room_id = do
  r ← or_throw (← gets (λ db. find? (λ r. r.id == room_id) db.rooms)) (not_found "Room not found")
  throw_if (not (r.property_id == b.property_id))
      (bad_request "That room belongs to a different property.")
  throw_if (not (b.room_type_id is r.room_type_id))
      (bad_request "That room is a different room type than this booking.")
  clash ← gets (λ db. any (is_conflict id room_id b.check_in b.check_out) db.bookings)
  throw_if clash (conflict "Room is already on another booking for overlapping dates.")

unfoldable pub set_room : Option ℕ → Booking → Booking
set_room room_id b = record b { room_id = room_id }

-- What `detail` returns at the end: the row as it is now.
abbrev pub detail : ℕ → Action Db Booking
detail id = do or_throw (← gets (booking_at id)) (not_found "Booking not found")

abbrev pub check_room? : ℕ → Booking → Option ℕ → Action Db (Unit {0})
check_room? id b none = pure tt
check_room? id b (some room_id) = check_room id b room_id

abbrev pub assign_event : Option ℕ → Event
assign_event none = room_unassigned
assign_event (some _) = room_assigned

unfoldable pub assign_room : ℕ → Option ℕ → Action Db Booking
unfolding open_booking
assign_room id room_id = do
  b ← open_booking id "Cannot change the room assignment of this booking."
  check_room? id b room_id
  update_booking id (set_room room_id)
  record_activity id (assign_event room_id)
  detail id

unfoldable pub set_dates : ℕ → ℕ → ℕ → Booking → Booking
set_dates from to nights b = record b { check_in = from; check_out = to; nights = nights }

-- `Math.max(1, Math.round((to - from) / 86_400_000))`; a half is rounded up.
unfoldable pub moved_nights : ℕ → ℕ → ℕ
moved_nights from to =
    let rounded = (2 * (to - from) + day_ms) / (2 * day_ms) in if rounded == 0 then 1 else rounded

-- The conflict search for a booking that has a room.
abbrev pub check_window : ℕ → ℕ → ℕ → Option ℕ → Action Db (Unit {0})
check_window id from to none = pure tt
check_window id from to (some room_id) = do
  clash ← gets (λ db. any (is_conflict id room_id from to) db.bookings)
  throw_if clash (conflict "Those dates overlap another booking on the same room.")

-- The dates are those that `new Date` reads, `none` for an invalid one.
unfoldable pub move_dates : ℕ → Option ℕ → Option ℕ → Action Db Booking
unfolding open_booking
move_dates id check_in_raw check_out_raw = do
  from ← or_throw check_in_raw (bad_request "checkIn and checkOut must be valid dates.")
  to ← or_throw check_out_raw (bad_request "checkIn and checkOut must be valid dates.")
  throw_if (leb to from) (bad_request "checkOut must be after checkIn.")
  b ← open_booking id "Cannot move this booking."
  check_window id from to b.room_id
  update_booking id (set_dates from to (moved_nights from to))
  detail id

pub record CalendarView : Type 0 where
  pub rooms : List Room
  pub bookings : List Booking
  pub unassigned : List Booking

-- `Math.ceil((to - from) / 86400000)`, 0 where it is not positive.
abbrev pub window_days : ℕ → ℕ → ℕ
window_days from to = (to - from + (day_ms - 1)) / day_ms

unfoldable pub calendar : ℕ → ℕ → ℕ → Action Db CalendarView
calendar property_id from to = do
  throw_if (window_days from to == 0) (bad_request "`to` must be after `from`.")
  throw_if (ltb 90 (window_days from to))
      (bad_request "Calendar window is capped at 90 days. Request a smaller range.")
  rooms ← gets (λ db. filter (λ r. r.property_id == property_id) db.rooms)
  found ← gets (λ db.
      filter (λ b. b.property_id == property_id && is_active b.status && overlaps from to b)
        db.bookings)
  pure (record {
    rooms = rooms;
    bookings = filter (λ b. is_some b.room_id) found;
    unassigned = filter (λ b. not (is_some b.room_id)) found;
  })
