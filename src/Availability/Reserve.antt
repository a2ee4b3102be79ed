-- ===== src/Availability/Reserve.antt =====
-- `tryReserve` and `release`. The ids that the database gives to new rows are the argument
-- `new_id`, one for each night. `units` is the number after `opts.units ?? 1`.
pub mod Nights
pub mod Effect
pub mod Bounds
pub mod Undo
use msk_back.Base.{
  ℕ, ◌+◌, Bool, true, false, ◌&&◌, Option, none, some, List, [], ◌∷◌, ◌++◌, ◌==◌, ◌is◌, filter, any,
  find?, update_where, length,
}
use msk_back.Base.Int.{ℤ, pos, ◌+ℤ◌, ◌-ℤ◌, ltb_ℤ}
use msk_back.Base.Action.{HttpError, unavailable, Action, pure, throw_if, modify, gets, ◌>>=◌, ◌>>◌}
use msk_back.Dates.{same_day, enumerate_days}
use msk_back.Availability.Tables.{Entry, Request}

-- `...(wanted && { column: wanted })` in a `where`.
abbrev pub wanted : Option ℕ → Option ℕ → Bool
wanted none column = true
wanted (some a) column = column is a

-- The `where` clause but for the date.
unfoldable pub requested : Request → Entry → Bool
requested opts e =
    e.property_id == opts.property_id
    && wanted opts.room_type_id e.room_type_id
    && wanted opts.room_id e.room_id

-- `date: { in: days }` with the rest of the clause.
unfoldable pub selected : Request → List ℕ → Entry → Bool
selected opts days e = requested opts e && any (same_day e.date) days

-- `entries.find((e) => sameDay(e.date, day))`
unfoldable pub entry_on : ℕ → List Entry → Option Entry
entry_on day entries = find? (λ e. same_day e.date day) entries

unfoldable pub available : List Entry → ℕ → ℤ
available entries day = elim (entry_on day entries) [
  | none ↦ pos 1
  | some e ↦ e.inventory -ℤ e.reserved
]

-- The first loop: the first night that is short of units ends it.
unfoldable pub check_nights : ℕ → List Entry → List ℕ → Action (List Entry) (Unit {0})
check_nights units entries [] = pure tt
check_nights units entries (day ∷ days) =
    throw_if (ltb_ℤ (available entries day) (pos units)) (unavailable day)
    >> check_nights units entries days

-- `reserved: { increment: units }`
unfoldable pub add_reserved : ℕ → Entry → Entry
add_reserved units e = record e { reserved = e.reserved +ℤ pos units }

unfoldable pub new_entry : (ℕ → ℕ) → Request → ℕ → Entry
new_entry new_id opts day = record {
  id = new_id day;
  property_id = opts.property_id;
  room_type_id = opts.room_type_id;
  room_id = opts.room_id;
  date = day;
  inventory = pos 1;
  reserved = pos opts.units;
  price = none;
  currency = some "USD";
  close_out = false;
  min_stay = none;
  max_stay = none;
}

-- One round of the second loop, over the entries read before it.
unfoldable pub reserve_night : (ℕ → ℕ) → Request → List Entry → ℕ → List Entry → List Entry
reserve_night new_id opts entries day rows = elim (entry_on day entries) [
  | none ↦ rows ++ new_entry new_id opts day ∷ []
  | some e ↦ update_where (λ r. r.id == e.id) (add_reserved opts.units) rows
]

unfoldable pub reserve_nights : (ℕ → ℕ) → Request → List Entry → List ℕ → List Entry → List Entry
reserve_nights new_id opts entries [] rows = rows
reserve_nights new_id opts entries (day ∷ days) rows =
    reserve_nights new_id opts entries days (reserve_night new_id opts entries day rows)

unfoldable pub try_reserve : (ℕ → ℕ) → Request → Action (List Entry) Bool
try_reserve new_id opts = do
  let days = enumerate_days opts.check_in opts.check_out
  entries ← gets (filter (selected opts days))
  check_nights opts.units entries days
  modify (reserve_nights new_id opts entries days)
  pure true

-- `reserved: { decrement: units }`
unfoldable pub drop_reserved : ℕ → Entry → Entry
drop_reserved units e = record e { reserved = e.reserved -ℤ pos units }

-- The result is the number of rows that `updateMany` changed.
unfoldable pub release : Request → Action (List Entry) ℕ
release opts = do
  let days = enumerate_days opts.check_in opts.check_out
  count ← gets (λ rows. length (filter (selected opts days) rows))
  modify (update_where (selected opts days) (drop_reserved opts.units))
  pure count
