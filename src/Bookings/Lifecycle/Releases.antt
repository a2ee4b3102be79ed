-- ===== src/Bookings/Lifecycle/Releases.antt =====
-- What `cancel` releases, alone and after other operations.
use msk_back.Base.{
  ℕ, String, ◌≡◌, refl, inl, inr, false, Option, none, some, List, [], ◌∷◌, ◌++◌, arith, leb, ◌==◌,
  if◌then◌else◌, Bool-cases, Option-cases, find?, update_where, delete_where,
}
use msk_back.Base.Action.{not_found, ok, err}
use mathlib.Core.Option
use msk_back.Availability.Reserve.{release}
use msk_back.Bookings.Tables.{
  Booking, Db, is_cancelled, is_frozen, booking_at, update_booking, guest_checked_in,
}
use msk_back.Bookings.Lifecycle.{
  booked_stay, is_own_block, mark_cancelled, cancel_active, cancel, mark_checked_in, check_in,
}
use msk_back.Bookings.Rooms.{open_booking, move_dates}

-- The booking of the id after an update of it.
pub booking_at-write :
    (id : ℕ) (f : Booking → Booking) (bs : List Booking)
    → ((b : Booking) → (f b).id ≡ b.id)
    → find? (λ b. b.id == id) (update_where (λ b. b.id == id) f bs)
      ≡ Option.map f (find? (λ b. b.id == id) bs)
booking_at-write id f [] h = refl
booking_at-write id f (b ∷ bs) h = elim (Bool-cases (b.id == id)) [
  | inl hit ↦ ground (arith, h b)
  | inr miss ↦ ground (arith, h b, booking_at-write id f bs h)
]

-- The state after a cancellation.
abbrev pub cancelled_db : ℕ → ℕ → Option String → Booking → Db → Db
cancelled_db now id reason b db = record db {
  entries = (release (booked_stay b) db.entries).1;
  blocks = delete_where (is_own_block id) db.blocks;
  bookings = update_where (λ x. x.id == id) (mark_cancelled now reason) db.bookings;
}

-- `cancel` on every branch: an unknown id throws, a booking that is cancelled is returned, and any
-- other, whatever its status, has its stay released, its block deleted and its status set.
pub cancel_lem :
    (now id : ℕ) (reason : Option String) (db : Db)
    → cancel now id reason db ≡ elim (booking_at id db) [
      | none ↦ (err (not_found "Booking not found"), db)
      | some b ↦
          if is_cancelled b.status
          then (ok b, db)
          else (ok (mark_cancelled now reason b), cancelled_db now id reason b db)
    ]
unfolding cancel cancel_active update_booking release
cancel_lem now id reason db = elim (Option-cases (booking_at id db)) [
  | inl missing ↦ ground arith
  | inr (b, found) ↦ elim (Bool-cases (is_cancelled b.status)) [
    | inl already ↦ ground arith
    | inr active ↦ ground arith
  ]
]

-- A second cancellation changes nothing, whenever and for whatever reason it is made, and whether or
-- not the first found a booking.
pub cancel_twice :
    (now now' id : ℕ) (reason reason' : Option String) (db : Db)
    → (cancel now' id reason' (cancel now id reason db).1).1 ≡ (cancel now id reason db).1
unfolding mark_cancelled
cancel_twice now now' id reason reason' db = elim (Option-cases (booking_at id db)) [
  | inl missing ↦ ground (arith, cancel_lem now id reason db, cancel_lem now' id reason' db)
  | inr (b, found) ↦ elim (Bool-cases (is_cancelled b.status)) [
    | inl already ↦ ground (arith, cancel_lem now id reason db, cancel_lem now' id reason' db)
    | inr active ↦ ground (
      arith,
      cancel_lem now id reason db,
      cancel_lem now' id reason' (cancelled_db now id reason b db),
      booking_at-write id (mark_cancelled now reason) db.bookings (λ x. refl),
    )
  ]
]

-- The state after the reception checked a booking in.
abbrev checked_in_db : ℕ → ℕ → Db → Db
checked_in_db now id db = record db {
  bookings = update_where (λ x. x.id == id) (mark_checked_in now) db.bookings;
  activity = db.activity ++ (id, guest_checked_in) ∷ [];
}

check_in-found :
    (now id : ℕ) (db : Db) (b : Booking)
    → booking_at id db ≡ some b
    → (check_in now id db).1 ≡ checked_in_db now id db
unfolding check_in update_booking
check_in-found now id db b found = ground arith

-- A booking that is there and not cancelled is cancelled, checked in by the reception, and cancelled
-- again: the calendar is then as two releases of its stay leave it.
pub cancel-check_in-cancel :
    (t₁ t₂ t₃ id : ℕ) (reason reason' : Option String) (db : Db) (b : Booking)
    → booking_at id db ≡ some b
    → is_cancelled b.status ≡ false
    → (cancel t₃ id reason' (check_in t₂ id (cancel t₁ id reason db).1).1).1.entries
      ≡ (release (booked_stay b) (release (booked_stay b) db.entries).1).1
unfolding mark_cancelled mark_checked_in
cancel-check_in-cancel t₁ t₂ t₃ id reason reason' db b found active =
    let db₁ = cancelled_db t₁ id reason b db in
    let b₁ = mark_cancelled t₁ reason b in
    ground (
      arith,
      cancel_lem t₁ id reason db,
      booking_at-write id (mark_cancelled t₁ reason) db.bookings (λ x. refl),
      check_in-found t₂ id db₁ b₁,
      cancel_lem t₃ id reason' (checked_in_db t₂ id db₁),
      booking_at-write id (mark_checked_in t₂) db₁.bookings (λ x. refl),
    )

-- `moveDates` changes neither the calendar nor the blocks, whatever it is given and answers.
pub move_dates-calendar :
    (id : ℕ) (from to : Option ℕ) (db : Db)
    → ((move_dates id from to db).1.entries ≡ db.entries)
      × ((move_dates id from to db).1.blocks ≡ db.blocks)
unfolding move_dates update_booking open_booking
move_dates-calendar id none to db = (refl, refl)
move_dates-calendar id (some from) none db = (refl, refl)
move_dates-calendar id (some from) (some to) db = elim (Bool-cases (leb to from)) [
  | inl late ↦ ground arith
  | inr early ↦ elim (Option-cases (booking_at id db)) [
    | inl missing ↦ ground arith
    | inr (b, found) ↦ elim (Bool-cases (is_frozen b.status)) [
      | inl frozen ↦ ground arith
      | inr thawed ↦ ground arith
    ]
  ]
]
