-- ===== src/Availability/Public.antt =====
-- `publicAvailability`: what the website shows of each room type on each day.
pub mod Shown
use msk_back.Base.{
  ℕ, zero, suc, ◌+◌, ◌-◌, ◌*◌, ◌/◌, ◌%◌, ◌≤◌, ◌<◌, String, ◌≡◌, refl, sym, ap, subst, ◌∙◌, ◌≢◌, ◌↔◌,
  ◌⊎◌, inl, inr, Bool, true, false, not, ◌&&◌, ◌||◌, Option, none, some, List, [], ◌∷◌, ◌++◌, map,
  arith, ltb, leb, ◌==◌, if◌then◌else◌, ==_iff, ==_refl, ◌is◌, opt_eq, get_or, or_else, is_some,
  Bool-cases, Option-cases, All, length, find?, filter, any, all, update_where, delete_where,
  length-append, length-update_where, find?_sound, find?-none, find?-filter, any-append, All-append,
  All-update_where, All-of, All-filter, All-find?, All-map, All-both, All-update_where_if,
  All-map_of, update_where-append, update_where_congr, update_where_none, update_where_twice,
  update_where_undo, In, All-intro, In-filter, In-of_filter, In-find?,
}
use msk_back.Base.Int.{
  ℤ, pos_part, neg_part, sub_ℕ, ◌+ℤ◌, ◌-ℤ◌, ◌≤ℤ◌, ltb_ℤ, +ℤ_parts, -ℤ_parts, eq_of_parts, int_laws,
  +ℤ_cancel, -ℤ_self, pos, negsuc,
}
use msk_back.Base.Action.{
  HttpError, Result, err-ne-ok, Action, pure, throw, gets, or_throw, ◌>>=◌, ◌>>◌, throw_if, modify,
  bad_request, not_found, conflict, unauthorized, forbidden, internal_error, unavailable, ok, err,
}
use msk_back.Dates.{day_ms, utc_midnight, same_day, days_from, enumerate_days}
use msk_back.Availability.Tables.{
  Entry, BlockReason, Block, Request, booking, maintenance, hold, owner_use, external_channel,
}
use msk_back.Availability.Calendar.{
  Query, touches, get_calendar, Upsert, is_target, write_upsert, create_upsert, upsert_entry,
  bulk_upsert_calendar, block_dates, unblock_dates, list_blocks,
}

pub record RoomType : Type 0 where
  pub id : ℕ
  pub property_id : ℕ
  pub base_price : ℕ
  pub currency : String
  pub rooms : List ℕ

pub record DayPayload : Type 0 where
  pub date : ℕ
  pub available : ℤ
  pub price : ℕ
  pub currency : String
  pub blocked : Bool
  pub close_out : Bool
  pub min_stay : Option ℕ
  pub max_stay : Option ℕ

pub record RoomTypePayload : Type 0 where
  pub room_type_id : ℕ
  pub default_price : ℕ
  pub currency : String
  pub days : List DayPayload

pub record Availability : Type 0 where
  pub from : ℕ
  pub to : ℕ
  pub nights : ℕ
  pub room_types : List RoomTypePayload

-- `Math.max(0, a - b)`
unfoldable pub left_over : ℤ → ℤ → ℤ
left_over a b = pos (pos_part (a -ℤ b))

unfoldable pub in_block : ℕ → Block → Bool
in_block day b = leb (utc_midnight b.start_date) day && leb day (utc_midnight b.end_date)

-- Every physical room of the type is under a block of its own, and there is one.
unfoldable pub all_rooms_blocked : List ℕ → List Block → ℕ → Bool
all_rooms_blocked room_ids room_blocks day =
    ltb 0 (length room_ids)
    && all (λ room. any (λ b. b.room_id is room && in_block day b) room_blocks) room_ids

unfoldable pub is_blocked : RoomType → List Block → ℕ → Bool
unfolding in_block all_rooms_blocked
is_blocked rt blocks day =
    any (in_block day) (filter (λ b. not (is_some b.room_id)) blocks)
    || all_rooms_blocked rt.rooms (filter (λ b. is_some b.room_id) blocks) day

abbrev pub entry_for : RoomType → ℕ → List Entry → Option Entry
entry_for rt day entries = find? (λ e. e.room_type_id is rt.id && same_day e.date day) entries

-- `entry?.column`
abbrev pub column {ℓ} : {A : Type ℓ} → Option Entry → (Entry → A) → Option A
column none f = none
column (some e) f = some (f e)

abbrev pub column? {ℓ} : {A : Type ℓ} → Option Entry → (Entry → Option A) → Option A
column? none f = none
column? (some e) f = f e

unfoldable pub day_payload : RoomType → List Entry → List Block → ℕ → DayPayload
unfolding left_over
day_payload rt entries blocks day =
    let entry = entry_for rt day entries in
    let blocked = is_blocked rt blocks day in
    let close_out = get_or (column entry (λ e. e.close_out)) false in
    let inventory = get_or (column entry (λ e. e.inventory)) (pos 1) in
    let reserved = get_or (column entry (λ e. e.reserved)) (pos 0) in
    record {
      date = day;
      available = if blocked || close_out then pos 0 else left_over inventory reserved;
      price = get_or (column? entry (λ e. e.price)) rt.base_price;
      currency = get_or (column? entry (λ e. e.currency)) rt.currency;
      blocked = blocked;
      close_out = close_out;
      min_stay = column? entry (λ e. e.min_stay);
      max_stay = column? entry (λ e. e.max_stay);
    }

unfoldable pub room_type_payload : List ℕ → List Entry → List Block → RoomType → RoomTypePayload
room_type_payload days entries blocks rt = record {
  room_type_id = rt.id;
  default_price = rt.base_price;
  currency = rt.currency;
  days = map (day_payload rt entries blocks) days;
}

-- The tables are the room types, in the order of `ordering`, the calendar and the blocks.
unfoldable pub public_availability :
    ℕ → ℕ → ℕ → List RoomType → List Entry → List Block → Result Availability
public_availability property_id from to room_types entries blocks =
    let from_day = utc_midnight from in
    let to_day = utc_midnight to in
    let days = enumerate_days from_day to_day in
    let own_types = filter (λ rt. rt.property_id == property_id) room_types in
    let own_entries =
      filter
        (λ e.
          e.property_id == property_id
          && not (is_some e.room_id)
          && leb from_day e.date
          && leb e.date to_day)
        entries in
    let own_blocks = list_blocks property_id from_day to_day blocks in
    if ltb to from
    then err (bad_request "\"to\" must be on or after \"from\"")
    else ok (record {
      from = from_day;
      to = to_day;
      nights = length days;
      room_types = map (room_type_payload days own_entries own_blocks) own_types;
    })
