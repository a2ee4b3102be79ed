-- ===== src/Availability/Tables.antt =====
-- The rows of the tables `AvailabilityCalendarEntry` and `AvailabilityBlock`
-- (prisma/schema.prisma), and the query arguments of the service.
use msk_back.Base.{ℕ, String, Bool, Option}
use msk_back.Base.Int.{ℤ}

-- Ids are compared and nothing else, so a number stands for each. A price is in cents, as the
-- columns are `Decimal(12, 2)`; a date is that of `Dates`.
pub record Entry : Type 0 where
  pub id : ℕ
  pub property_id : ℕ
  pub room_type_id : Option ℕ
  pub room_id : Option ℕ
  pub date : ℕ
  pub inventory : ℤ
  pub reserved : ℤ
  pub price : Option ℕ
  pub currency : Option String
  pub close_out : Bool
  pub min_stay : Option ℕ
  pub max_stay : Option ℕ

pub data BlockReason : Type 0 where
  booking maintenance hold owner_use external_channel : BlockReason

pub record Block : Type 0 where
  pub id : ℕ
  pub property_id : ℕ
  pub room_id : Option ℕ
  pub start_date : ℕ
  pub end_date : ℕ
  pub reason : BlockReason
  pub booking_id : Option ℕ
  pub notes : Option String

-- The options of `tryReserve` and `release`.
pub record Request : Type 0 where
  pub property_id : ℕ
  pub room_type_id : Option ℕ
  pub room_id : Option ℕ
  pub check_in : ℕ
  pub check_out : ℕ
  pub units : ℕ
