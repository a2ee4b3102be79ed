-- ===== src/Availability/Reserve/Effect.antt =====
-- The effect of `tryReserve` on the calendar.
use msk_back.Base.{
  ℕ, ◌≡◌, refl, ◌∙◌, ◌⊎◌, inl, inr, Bool, true, Option, none, some, List, [], ◌∷◌, ◌++◌, map, arith,
  ◌==◌, Bool-cases, Option-cases, All, find?, filter, update_where, All-filter, All-map,
}
use msk_back.Base.Int.{ltb_ℤ, pos}
use msk_back.Base.Action.{Result, unavailable, ok, err}
use msk_back.Dates.{enumerate_days}
use msk_back.Dates.Days.{enumerate_days-Distinct}
use msk_back.Availability.Tables.{Entry, Request}
use msk_back.Availability.Reserve.{
  selected, available, check_nights, add_reserved, new_entry, reserve_nights, try_reserve,
}
use msk_back.Availability.Reserve.Nights.{IsKeyed, IsFresh, taken, missing, reserve_nights_lem}

-- The nights that a request asks for, and the rows that it reads.
abbrev pub nights_of : Request → List ℕ
nights_of opts = enumerate_days opts.check_in opts.check_out

abbrev pub entries_of : Request → List Entry → List Entry
entries_of opts rows = filter (selected opts (nights_of opts)) rows

-- The night has fewer units left than are asked for.
abbrev pub short : Request → List Entry → ℕ → Bool
short opts rows day = ltb_ℤ (available (entries_of opts rows) day) (pos opts.units)

-- The table with one more booking: the row of each night has `units` more reserved, and each night
-- without a row gets one.
abbrev pub booked : (ℕ → ℕ) → Request → List Entry → List Entry
booked new_id opts rows =
    let entries = entries_of opts rows in
    update_where (taken entries (nights_of opts)) (add_reserved opts.units) rows
    ++ map (new_entry new_id opts) (filter (missing entries) (nights_of opts))

abbrev pub reserve_outcome : Option ℕ → List Entry → List Entry → Result Bool × List Entry
reserve_outcome none before after = (ok true, after)
reserve_outcome (some day) before after = (err (unavailable day), before)

pub IsKeyed-filter : (p : Entry → Bool) (rows : List Entry) → IsKeyed rows → IsKeyed (filter p rows)
IsKeyed-filter p rows h = All-filter _ p rows (
    All-map (λ a. All (λ b. (a.id == b.id) ≡ true → a ≡ b) rows)
      (λ a. All (λ b. (a.id == b.id) ≡ true → a ≡ b) (filter p rows)) rows
      (λ a k. All-filter _ p rows k) h)

pub IsFresh-filter :
    (new_id : ℕ → ℕ) (p : Entry → Bool) (rows : List Entry)
    → IsFresh new_id rows
    → IsFresh new_id (filter p rows)
IsFresh-filter new_id p rows h day = All-filter _ p rows (h day)

-- The first loop stops at the first short night, and writes nothing.
check_nights_lem :
    (units : ℕ) (entries : List Entry) (days : List ℕ) (rows : List Entry)
    → check_nights units entries days rows
      ≡ elim (find? (λ day. ltb_ℤ (available entries day) (pos units)) days) [
        | none ↦ (ok tt, rows)
        | some day ↦ (err (unavailable day), rows)
      ]
unfolding check_nights
check_nights_lem units entries [] rows = refl
check_nights_lem units entries (day ∷ days) rows =
    elim (Bool-cases (ltb_ℤ (available entries day) (pos units))) [
      | inl is_short ↦ rw is_short
      | inr enough ↦ rw enough (check_nights_lem units entries days rows)
    ]

-- For ids that are the primary key and new ids that no row has: if a night is short of units, the
-- call throws the conflict of the first such night and writes nothing; otherwise it returns true,
-- the row of each night has `units` more reserved, every other row is as before, and each night
-- without a row gets one of inventory 1.
pub try_reserve_lem :
    (new_id : ℕ → ℕ) (opts : Request) (rows : List Entry)
    → IsKeyed rows
    → IsFresh new_id rows
    → try_reserve new_id opts rows
      ≡ reserve_outcome (find? (short opts rows) (nights_of opts)) rows (booked new_id opts rows)
unfolding try_reserve
try_reserve_lem new_id opts rows keyed fresh =
    elim (Option-cases (find? (short opts rows) (nights_of opts))) [
      | inl enough ↦
          let passed : check_nights opts.units (entries_of opts rows) (nights_of opts) rows
              ≡ (ok tt, rows) =
            check_nights_lem opts.units (entries_of opts rows) (nights_of opts) rows ∙ rw enough in
          let table : reserve_nights new_id opts (entries_of opts rows) (nights_of opts) rows
              ≡ booked new_id opts rows =
            reserve_nights_lem new_id opts (entries_of opts rows)
              (IsKeyed-filter (selected opts (nights_of opts)) rows keyed)
              (IsFresh-filter new_id (selected opts (nights_of opts)) rows fresh) (nights_of opts)
              rows (enumerate_days-Distinct opts.check_in opts.check_out) in
          rw enough (ground (arith, passed, table))
      | inr (day, is_short) ↦
          let refused : check_nights opts.units (entries_of opts rows) (nights_of opts) rows
              ≡ (err (unavailable day), rows) =
            check_nights_lem opts.units (entries_of opts rows) (nights_of opts) rows
            ∙ rw is_short in
          rw is_short (ground (arith, refused))
    ]

-- With no condition on the table: a conflict writes nothing, and any other call returns true.
pub try_reserve-cases :
    (new_id : ℕ → ℕ) (opts : Request) (rows : List Entry)
    → ((day : ℕ) × (try_reserve new_id opts rows ≡ (err (unavailable day), rows)))
      ⊎ ((try_reserve new_id opts rows).0 ≡ ok true)
unfolding try_reserve
try_reserve-cases new_id opts rows =
    elim (Option-cases (find? (short opts rows) (nights_of opts))) [
      | inl enough ↦
          let passed : check_nights opts.units (entries_of opts rows) (nights_of opts) rows
              ≡ (ok tt, rows) =
            check_nights_lem opts.units (entries_of opts rows) (nights_of opts) rows ∙ rw enough in
          inr (ground (arith, passed))
      | inr (day, is_short) ↦
          let refused : check_nights opts.units (entries_of opts rows) (nights_of opts) rows
              ≡ (err (unavailable day), rows) =
            check_nights_lem opts.units (entries_of opts rows) (nights_of opts) rows
            ∙ rw is_short in
          inl (day, ground (arith, refused))
    ]
