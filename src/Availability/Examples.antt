-- ===== src/Availability/Examples.antt =====
-- A calendar of two nights, and the theorems of this part on it.
use msk_back.Availability.Calendar.{Upsert}
use msk_back.Base.{
  ℕ, ◌+◌, ◌≡◌, refl, ◌↔◌, true, false, none, some, List, [], ◌∷◌, ◌++◌, map, arith, get_or, find?,
  filter,
}
use msk_back.Base.Int.{ℤ, ◌+ℤ◌, ◌≤ℤ◌, pos, ◌-ℤ◌}
use msk_back.Base.Action.{ok}
use msk_back.Dates.{utc_midnight, same_day, days_from, enumerate_days}
use msk_back.Availability.Tables.{Entry, Block, Request, maintenance}
use msk_back.Availability.Reserve.{
  requested, selected, entry_on, available, check_nights, reserve_nights, try_reserve, release,
}
use msk_back.Availability.Reserve.Nights.{IsKeyed, IsFresh, missing}
use msk_back.Availability.Reserve.Effect.{
  nights_of, entries_of, short, booked, reserve_outcome, try_reserve_lem,
}
use msk_back.Availability.Reserve.Bounds.{IsWithin, try_reserve-IsWithin}
use msk_back.Availability.Reserve.Undo.{HasOneRow, empty_entry, release-try_reserve}
use msk_back.Availability.Public.{RoomType, entry_for, column, day_payload}
use msk_back.Availability.Public.Shown.{
  is_covered, reserved_of, inventory_of, day_payload-available_iff,
}

abbrev calendar_row : ℕ → ℕ → ℤ → ℤ → Entry
calendar_row id date inventory reserved = record {
  id = id;
  property_id = 1;
  room_type_id = some 7;
  room_id = none;
  date = date;
  inventory = inventory;
  reserved = reserved;
  price = some 12_000;
  currency = some "GBP";
  close_out = false;
  min_stay = none;
  max_stay = none;
}

-- Two units on the first night, one of them reserved, and three on the second.
abbrev two_rows : List Entry
two_rows = calendar_row 1 0 (pos 2) (pos 1) ∷ calendar_row 2 86_400_000 (pos 3) (pos 0) ∷ []

-- Three nights; the third has no row.
abbrev three_nights : Request
three_nights = record {
  property_id = 1;
  room_type_id = some 7;
  room_id = none;
  check_in = 0;
  check_out = 259_200_000;
  units = 1;
}

abbrev fresh_ids : ℕ → ℕ
fresh_ids day = day + 100

two_rows-IsKeyed : IsKeyed two_rows
two_rows-IsKeyed =
    ((λ e. refl, (λ e. ground arith, tt)), ((λ e. ground arith, (λ e. refl, tt)), tt))

two_rows-IsFresh : IsFresh fresh_ids two_rows
two_rows-IsFresh day = (ground arith, (ground arith, tt))

two_rows-IsWithin : IsWithin two_rows
two_rows-IsWithin = (ground arith, (ground arith, tt))

two_rows-HasOneRow : HasOneRow three_nights two_rows
unfolding requested same_day
two_rows-HasOneRow =
    ((λ e. refl, (λ e. ground arith, tt)), ((λ e. ground arith, (λ e. refl, tt)), tt))

three_nights-ok : (try_reserve fresh_ids three_nights two_rows).0 ≡ ok true
unfolding try_reserve check_nights selected requested enumerate_days available entry_on same_day
    reserve_nights utc_midnight days_from ◌-ℤ◌
three_nights-ok = refl

try_reserve_lem_example :
    try_reserve fresh_ids three_nights two_rows
    ≡ reserve_outcome
        (find? (short three_nights two_rows) (nights_of three_nights))
        two_rows
        (booked fresh_ids three_nights two_rows)
try_reserve_lem_example =
    try_reserve_lem fresh_ids three_nights two_rows two_rows-IsKeyed two_rows-IsFresh

try_reserve-IsWithin_example : IsWithin (try_reserve fresh_ids three_nights two_rows).1
try_reserve-IsWithin_example =
    try_reserve-IsWithin fresh_ids three_nights two_rows two_rows-IsKeyed two_rows-IsFresh
      two_rows-IsWithin

release-try_reserve_example :
    (release three_nights (try_reserve fresh_ids three_nights two_rows).1).1
    ≡ two_rows
      ++ map
          (empty_entry fresh_ids three_nights)
          (filter (missing (entries_of three_nights two_rows)) (nights_of three_nights))
release-try_reserve_example =
    release-try_reserve fresh_ids three_nights two_rows two_rows-IsKeyed two_rows-IsFresh
      two_rows-HasOneRow three_nights-ok

abbrev double_room : RoomType
double_room = record {
  id = 7;
  property_id = 1;
  base_price = 10_000;
  currency = "GBP";
  rooms = 31 ∷ 32 ∷ [];
}

abbrev repair : Block
repair = record {
  id = 5;
  property_id = 1;
  room_id = some 31;
  start_date = 0;
  end_date = 86_400_000;
  reason = maintenance;
  booking_id = none;
  notes = none;
}

day_payload-available_iff_example :
    (pos 1 ≤ℤ (day_payload double_room two_rows (repair ∷ []) 0).available) ↔ (
      (is_covered double_room (repair ∷ []) 0 ≡ false)
      × (get_or (column (entry_for double_room 0 two_rows) (λ e. e.close_out)) false ≡ false)
      × (reserved_of (entry_for double_room 0 two_rows) +ℤ pos 1
          ≤ℤ inventory_of (entry_for double_room 0 two_rows)))
day_payload-available_iff_example = day_payload-available_iff double_room two_rows (repair ∷ []) 0

abbrev two_upserts : List Upsert
two_upserts =
    record {
      new_id = 3;
      room_type_id = 7;
      date = 86_400_000;
      inventory = some (pos 5);
      price = none;
      currency = none;
      close_out = some true;
      min_stay = none;
      max_stay = none;
    }
    ∷ record {
      new_id = 4;
      room_type_id = 7;
      date = 172_800_000;
      inventory = none;
      price = some 9_000;
      currency = none;
      close_out = none;
      min_stay = none;
      max_stay = none;
    }
    ∷ []
