-- ===== src/Bookings/Rooms/NoClash.antt =====
-- Clashes of bookings under `assignRoom` and `moveDates`.
use msk_back.Base.{
  ℕ, ◌≡◌, refl, ◌⊎◌, inl, inr, false, ◌||◌, Option, none, some, List, arith, leb, ◌==◌, Bool-cases,
  Option-cases, any, update_where,
}
use msk_back.Base.Action.{Result-cases, ok}
use msk_back.Bookings.Tables.{Booking, Db, is_frozen, booking_at, update_booking}
use msk_back.Bookings.Rooms.Clash.{
  NoClash, IsKeyed, ClashesWithNone, update-NoClash, no_conflict, no_room,
}
use msk_back.Bookings.Rooms.{
  is_conflict, check_room, set_room, assign_room, set_dates, moved_nights, move_dates,
}

-- A handler leaves the bookings alone, or writes the one with the id after its checks.
abbrev Writes : ℕ → (Booking → Booking) → (Booking → Type 0) → Db → Db → Type 0
Writes id f Checked db db' =
    (db'.bookings ≡ db.bookings)
    ⊎ ((b : Booking) × (booking_at id db ≡ some b)
        × Checked b
        × (db'.bookings ≡ update_where (λ x. x.id == id) f db.bookings))

-- No other active booking has the room in the window, if there is a room.
abbrev HasFreeRoom : ℕ → Option ℕ → ℕ → ℕ → List Booking → Type 0
HasFreeRoom id none from to bs = Unit
HasFreeRoom id (some room_id) from to bs = any (is_conflict id room_id from to) bs ≡ false

-- The checks of a room write nothing, and pass only where the room is free.
check_room_lem :
    (id : ℕ) (b : Booking) (room_id : ℕ) (db : Db)
    → ((check_room id b room_id db).1 ≡ db)
      × ((check_room id b room_id db).0 ≡ ok tt
          → HasFreeRoom id (some room_id) b.check_in b.check_out db.bookings)
unfolding check_room
check_room_lem id b room_id db = (ground arith, λ h. ground arith)

assign_room-Writes :
    (id : ℕ) (room_id : Option ℕ) (db : Db)
    → Writes id
        (set_room room_id)
        (λ b. HasFreeRoom id room_id b.check_in b.check_out db.bookings)
        db
        (assign_room id room_id db).1
unfolding assign_room update_booking
assign_room-Writes id room_id db = elim (Option-cases (booking_at id db)) [
  | inl missing ↦ inl (ground arith)
  | inr (b, found) ↦ elim (Bool-cases (is_frozen b.status)) [
    | inl frozen ↦ inl (ground arith)
    | inr free ↦ open_case b found free room_id
  ]
]
  where
    open_case :
        (b : Booking)
        → booking_at id db ≡ some b
        → is_frozen b.status ≡ false
        → (room_id : Option ℕ)
        → Writes id
            (set_room room_id)
            (λ b. HasFreeRoom id room_id b.check_in b.check_out db.bookings)
            db
            (assign_room id room_id db).1
    open_case b found free none = inr (b, found, tt, ground arith)
    open_case b found free (some r) =
        let (same, passes) = check_room_lem id b r db in
        elim (Result-cases (check_room id b r db).0) [
          | inl (e, refused) ↦ inl (ground arith)
          | inr (_, passed) ↦ inr (b, found, passes passed, ground arith)
        ]

move_dates-Writes :
    (id from to : ℕ) (db : Db)
    → Writes id
        (set_dates from to (moved_nights from to))
        (λ b. HasFreeRoom id b.room_id from to db.bookings)
        db
        (move_dates id (some from) (some to) db).1
unfolding move_dates update_booking
move_dates-Writes id from to db = elim (Option-cases (booking_at id db)) [
  | inl missing ↦ inl (ground arith)
  | inr (b, found) ↦ elim (Bool-cases (is_frozen b.status || leb to from)) [
    | inl refused ↦ inl (ground arith)
    | inr free ↦ elim (Option-cases b.room_id) [
      | inl unassigned ↦ inr (b, found, rw unassigned tt, ground arith)
      | inr (r, assigned) ↦ elim (Bool-cases (any (is_conflict id r from to) db.bookings)) [
        | inl taken ↦ inl (ground arith)
        | inr no_clash ↦ inr (b, found, rw assigned no_clash, ground arith)
      ]
    ]
  ]
]

-- A handler that writes one row, to a booking that clashes with none, keeps the table free of
-- clashes.
Writes-NoClash :
    (id : ℕ) (f : Booking → Booking) (Checked : Booking → Type 0) (db db' : Db)
    → IsKeyed db.bookings
    → NoClash db.bookings
    → ((b : Booking) → (f b).id ≡ b.id)
    → ((b : Booking) → Checked b → ClashesWithNone id (f b) db.bookings)
    → Writes id f Checked db db'
    → NoClash db'.bookings
Writes-NoClash id f Checked db db' keyed h same_id k (inl same) = rw same h
Writes-NoClash id f Checked db db' keyed h same_id k (inr (b, found, checked, same)) =
    rw same (update-NoClash id f db.bookings b keyed found (same_id b) h (k b checked))

-- Where no room has two active bookings with overlapping windows, `assignRoom` leaves it so, for a
-- room or for none, on success and on every error. The ids are the primary key.
pub assign_room-NoClash :
    (id : ℕ) (room_id : Option ℕ) (db : Db)
    → IsKeyed db.bookings
    → NoClash db.bookings
    → NoClash (assign_room id room_id db).1.bookings
unfolding set_room
assign_room-NoClash id room_id db keyed h =
    Writes-NoClash id (set_room room_id) _ db (assign_room id room_id db).1 keyed h (λ b. refl)
      (checked room_id) (assign_room-Writes id room_id db)
  where
    checked :
        (room_id : Option ℕ) (b : Booking)
        → HasFreeRoom id room_id b.check_in b.check_out db.bookings
        → ClashesWithNone id (set_room room_id b) db.bookings
    checked none b free = no_room id (set_room none b) db.bookings refl
    checked (some r) b free = no_conflict id r (set_room (some r) b) db.bookings refl free

-- Where no room has two active bookings with overlapping windows, `moveDates` leaves it so, whichever
-- dates it is given, valid or not, on success and on every error. The ids are the primary key.
pub move_dates-NoClash :
    (id : ℕ) (from to : Option ℕ) (db : Db)
    → IsKeyed db.bookings
    → NoClash db.bookings
    → NoClash (move_dates id from to db).1.bookings
unfolding set_dates move_dates
move_dates-NoClash id none to db keyed h = h
move_dates-NoClash id (some from) none db keyed h = h
move_dates-NoClash id (some from) (some to) db keyed h =
    Writes-NoClash id (set_dates from to (moved_nights from to)) _ db
      (move_dates id (some from) (some to) db).1 keyed h (λ b. refl) (λ b. checked b b.room_id refl)
      (move_dates-Writes id from to db)
  where
    checked :
        (b : Booking) (room_id : Option ℕ)
        → b.room_id ≡ room_id
        → HasFreeRoom id b.room_id from to db.bookings
        → ClashesWithNone id (set_dates from to (moved_nights from to) b) db.bookings
    checked b none e free = no_room id (set_dates from to (moved_nights from to) b) db.bookings e
    checked b (some r) e free =
        no_conflict id r (set_dates from to (moved_nights from to) b) db.bookings e (rw e at free)
