-- ===== src/Bookings/CheckIn/Codes.antt =====
-- `allocateUniqueCheckInCode` and `checkInRefreshCode`.
use msk_back.Base.{
  ℕ, zero, suc, ◌+◌, ◌≡◌, sym, subst, inl, inr, Bool, false, not, ◌&&◌, Option, none, some, List,
  [], ◌∷◌, arith, ◌==◌, if◌then◌else◌, ◌is◌, Bool-cases, Option-cases, All, any, update_where,
  any_none,
}
use msk_back.Base.Action.{Action, pure, gets, or_throw, ◌>>=◌, ◌>>◌, not_found, internal_error}
use msk_back.Bookings.Tables.{Booking, Db, booking_at, update_booking}

abbrev pub has_code : ℕ → Booking → Bool
has_code code b = b.check_in_code is code

-- `draw i` is what `Math.random() * 900_000` is rounded down to at the i-th attempt.
unfoldable pub try_codes : ℕ → (ℕ → ℕ) → List Booking → Option ℕ
try_codes zero draw bookings = none
try_codes (suc n) draw bookings =
    let rest = try_codes n (λ i. draw (suc i)) bookings in
    if any (has_code (100000 + draw 0)) bookings then rest else some (100000 + draw 0)

unfoldable pub allocate_code : (ℕ → ℕ) → Action Db ℕ
allocate_code draw = do
  or_throw (← gets (λ db. try_codes 6 draw db.bookings))
      (internal_error "Could not allocate a unique check-in code")

abbrev pub set_code : ℕ → Booking → Booking
set_code code b = record b { check_in_code = some code }

unfoldable pub check_in_refresh_code : (ℕ → ℕ) → ℕ → Action Db ℕ
check_in_refresh_code draw id = do
  or_throw (← gets (booking_at id)) (not_found "Booking not found")
  code ← allocate_code draw
  update_booking id (set_code code)
  pure code

-- Two bookings of different ids with the same code.
abbrev pub is_clash : Booking → Booking → Bool
is_clash b c = elim b.check_in_code [
  | none ↦ false
  | some code ↦ has_code code c && not (b.id == c.id)
]

-- No two bookings of different ids have the same code.
unfoldable pub UniqueCodes : List Booking → Type 0
UniqueCodes [] = Unit
UniqueCodes (b ∷ bs) = All (λ c. is_clash b c ≡ false) bs × UniqueCodes bs

-- A code that is allocated is on no booking.
pub try_codes-fresh :
    (n : ℕ) (draw : ℕ → ℕ) (bs : List Booking) (code : ℕ)
    → try_codes n draw bs ≡ some code
    → any (has_code code) bs ≡ false
unfolding try_codes
try_codes-fresh zero draw bs code p = cc
try_codes-fresh (suc n) draw bs code p = elim (Bool-cases (any (has_code (100000 + draw 0)) bs)) [
  | inl taken ↦ try_codes-fresh n (λ i. draw (suc i)) bs code (ground arith)
  | inr free ↦ ground arith
]

module _ (id code : ℕ) where
  abbrev set_at : Booking → Booking
  set_at b = if b.id == id then set_code code b else b

  is_clash-set_at :
      (b c : Booking)
      → has_code code b ≡ false
      → has_code code c ≡ false
      → is_clash b c ≡ false
      → is_clash (set_at b) (set_at c) ≡ false
  is_clash-set_at b c hb hc p = elim (Option-cases b.check_in_code) [
    | inl missing ↦ ground arith
    | inr (k, found) ↦ elim (Option-cases c.check_in_code) [
      | inl none_there ↦ ground arith
      | inr (k', found') ↦ ground arith
    ]
  ]

  All-is_clash-set_at :
      (b : Booking) (bs : List Booking)
      → has_code code b ≡ false
      → All (λ c. has_code code c ≡ false) bs
      → All (λ c. is_clash b c ≡ false) bs
      → All (λ c. is_clash (set_at b) c ≡ false) (update_where (λ c. c.id == id) (set_code code) bs)
  All-is_clash-set_at b [] hb hs ps = tt
  All-is_clash-set_at b (c ∷ bs) hb hs ps =
      (is_clash-set_at b c hb hs.0 ps.0, All-is_clash-set_at b bs hb hs.1 ps.1)

  pub UniqueCodes-set :
      (bs : List Booking)
      → All (λ c. has_code code c ≡ false) bs
      → UniqueCodes bs
      → UniqueCodes (update_where (λ b. b.id == id) (set_code code) bs)
  unfolding UniqueCodes
  UniqueCodes-set [] hs u = tt
  UniqueCodes-set (b ∷ bs) hs u =
      (All-is_clash-set_at b bs hs.0 hs.1 u.0, UniqueCodes-set bs hs.1 u.1)

-- Where no two bookings of different ids have one code, a new code for a booking leaves it so, and so
-- does a call that throws, whatever is drawn.
pub check_in_refresh_code-UniqueCodes :
    (draw : ℕ → ℕ) (id : ℕ) (db : Db)
    → UniqueCodes db.bookings
    → UniqueCodes (check_in_refresh_code draw id db).1.bookings
unfolding check_in_refresh_code allocate_code update_booking
check_in_refresh_code-UniqueCodes draw id db u = elim (Option-cases (booking_at id db)) [
  | inl missing ↦
      let same : (check_in_refresh_code draw id db).1.bookings ≡ db.bookings = ground arith in
      subst UniqueCodes (sym same) u
  | inr (b, found) ↦ elim (Option-cases (try_codes 6 draw db.bookings)) [
    | inl full ↦
        let same : (check_in_refresh_code draw id db).1.bookings ≡ db.bookings = ground arith in
        subst UniqueCodes (sym same) u
    | inr (code, fresh) ↦
        let same : (check_in_refresh_code draw id db).1.bookings
            ≡ update_where (λ x. x.id == id) (set_code code) db.bookings =
          ground arith in
        subst UniqueCodes (sym same) (
          UniqueCodes-set id code db.bookings
            (any_none (has_code code) db.bookings (try_codes-fresh 6 draw db.bookings code fresh))
            u)
  ]
]
