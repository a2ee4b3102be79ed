-- ===== src/Availability/Calendar.antt =====
-- The operators' side: `getCalendar`, `bulkUpsertCalendar`, `blockDates`, `unblockDates` and
-- `listBlocks`. A new row's id is handed in with the row's data.
pub mod Upserted
use msk_back.Base.{
  ℕ, String, Bool, false, not, ◌&&◌, Option, none, some, List, [], ◌∷◌, ◌++◌, ltb, leb, ◌==◌, ◌is◌,
  get_or, or_else, is_some, find?, filter, update_where, delete_where,
}
use msk_back.Base.Int.{ℤ, pos}
use msk_back.Base.Action.{
  Action, gets, or_throw, ◌>>=◌, ◌>>◌, throw_if, modify, bad_request, internal_error,
}
use msk_back.Dates.{utc_midnight, same_day}
use msk_back.Availability.Tables.{Entry, Block}
use msk_back.Availability.Reserve.{wanted}

pub record Query : Type 0 where
  pub property_id : ℕ
  pub room_type_id : Option ℕ
  pub room_id : Option ℕ
  pub from : ℕ
  pub to : ℕ

-- A block that has a day in common with the days from `from` to `to`, both included.
abbrev pub touches : ℕ → ℕ → Block → Bool
touches from to b = leb b.start_date to && leb from b.end_date

-- The state is the calendar and the blocks; the call reads both.
unfoldable pub get_calendar : Query → Action (List Entry × List Block) (List Entry × List Block)
get_calendar q = do
  throw_if (ltb q.to q.from) (bad_request "\"to\" must be after \"from\"")
  gets (λ (entries, blocks). (
    filter
        (λ e.
          e.property_id == q.property_id
          && wanted q.room_type_id e.room_type_id
          && wanted q.room_id e.room_id
          && leb q.from e.date
          && leb e.date q.to)
        entries,
    filter
        (λ b. b.property_id == q.property_id && wanted q.room_id b.room_id && touches q.from q.to b)
        blocks,
  ))

-- One element of the argument of `bulkUpsertCalendar`; an absent field is `undefined`.
pub record Upsert : Type 0 where
  pub new_id : ℕ
  pub room_type_id : ℕ
  pub date : ℕ
  pub inventory : Option ℤ
  pub price : Option ℕ
  pub currency : Option String
  pub close_out : Option Bool
  pub min_stay : Option ℕ
  pub max_stay : Option ℕ

-- The `where` of its `findFirst`.
unfoldable pub is_target : ℕ → Upsert → Entry → Bool
is_target property_id u e =
    e.property_id == property_id
    && e.room_type_id is u.room_type_id
    && not (is_some e.room_id)
    && same_day e.date (utc_midnight u.date)

-- `update({ data })`: a field that is `undefined` is left as it is.
unfoldable pub write_upsert : Upsert → Entry → Entry
write_upsert u e = record e {
  inventory = get_or u.inventory e.inventory;
  price = or_else u.price e.price;
  currency = or_else u.currency e.currency;
  close_out = get_or u.close_out e.close_out;
  min_stay = or_else u.min_stay e.min_stay;
  max_stay = or_else u.max_stay e.max_stay;
}

unfoldable pub create_upsert : ℕ → Upsert → Entry
create_upsert property_id u = record {
  id = u.new_id;
  property_id = property_id;
  room_type_id = some u.room_type_id;
  room_id = none;
  date = utc_midnight u.date;
  inventory = get_or u.inventory (pos 1);
  reserved = pos 0;
  price = u.price;
  currency = or_else u.currency (some "USD");
  close_out = get_or u.close_out false;
  min_stay = u.min_stay;
  max_stay = u.max_stay;
}

-- One round of the loop.
unfoldable pub upsert_entry : ℕ → Upsert → List Entry → List Entry
upsert_entry property_id u rows = elim (find? (is_target property_id u) rows) [
  | none ↦ rows ++ create_upsert property_id u ∷ []
  | some existing ↦ update_where (λ r. r.id == existing.id) (write_upsert u) rows
]

unfoldable pub bulk_upsert_calendar : ℕ → List Upsert → List Entry → List Entry
bulk_upsert_calendar property_id [] rows = rows
bulk_upsert_calendar property_id (u ∷ us) rows =
    bulk_upsert_calendar property_id us (upsert_entry property_id u rows)

unfoldable pub block_dates : Block → List Block → List Block
block_dates b blocks = blocks ++ b ∷ []

-- Prisma's `delete` throws where no row has the id.
unfoldable pub unblock_dates : ℕ → Action (List Block) (Unit {0})
unblock_dates block_id = do
  or_throw (← gets (find? (λ b. b.id == block_id)))
      (internal_error "Record to delete does not exist.")
  modify (delete_where (λ b. b.id == block_id))

unfoldable pub list_blocks : ℕ → ℕ → ℕ → List Block → List Block
list_blocks property_id from to = filter (λ b. b.property_id == property_id && touches from to b)
