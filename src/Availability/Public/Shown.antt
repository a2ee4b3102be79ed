-- ===== src/Availability/Public/Shown.antt =====
-- What the website shows against what `tryReserve` accepts.
use msk_back.Base.{
  ℕ, ◌≡◌, refl, ap, subst, ◌∙◌, ◌↔◌, inl, inr, Bool, true, false, not, ◌&&◌, ◌||◌, Option, List, [],
  ◌∷◌, map, arith, ltb, leb, if◌then◌else◌, ◌is◌, get_or, is_some, Bool-cases, Option-cases, length,
  find?, filter, any, all,
}
use msk_back.Base.Int.{ℤ, ◌+ℤ◌, ◌≤ℤ◌, ltb_ℤ, int_laws, pos}
use msk_back.Availability.Tables.{Entry, Block, Request}
use msk_back.Availability.Reserve.{
  requested, selected, entry_on, available, check_nights, try_reserve,
}
use msk_back.Availability.Reserve.Effect.{nights_of, entries_of}
use msk_back.Availability.Public.{
  RoomType, left_over, in_block, all_rooms_blocked, is_blocked, entry_for, column, day_payload,
}
use msk_back.Dates.{utc_midnight, same_day}

abbrev pub reserved_of : Option Entry → ℤ
reserved_of entry = get_or (column entry (λ e. e.reserved)) (pos 0)

abbrev pub inventory_of : Option Entry → ℤ
inventory_of entry = get_or (column entry (λ e. e.inventory)) (pos 1)

shown_iff :
    (b c : Bool) (i r : ℤ)
    → (pos 1 ≤ℤ (if b || c then pos 0 else left_over i r))
      ↔ ((b ≡ false) × (c ≡ false) × (r +ℤ pos 1 ≤ℤ i))
unfolding left_over
shown_iff true c i r = (λ h. absurd (omega arith), λ h. cc)
shown_iff false true i r = (λ h. absurd (omega arith), λ h. cc)
shown_iff false false i r = (λ h. (refl, refl, grind int_laws), λ (_, _, fits). grind int_laws)

-- The day is from the first day of the block to its last one, both included.
covers : ℕ → Block → Bool
covers day b = leb (utc_midnight b.start_date) day && leb day (utc_midnight b.end_date)

any-filter : (p q : Block → Bool) (bs : List Block) → any p (filter q bs) ≡ any (λ b. q b && p b) bs
any-filter p q [] = refl
any-filter p q (b ∷ bs) = elim (Bool-cases (q b)) [
  | inl here ↦ ground (arith, any-filter p q bs)
  | inr out ↦ ground (arith, any-filter p q bs)
]

any_same : (p q : Block → Bool) (bs : List Block) → ((b : Block) → p b ≡ q b) → any p bs ≡ any q bs
any_same p q [] same = refl
any_same p q (b ∷ bs) same = ground (arith, same b, any_same p q bs same)

all_same : (p q : ℕ → Bool) (ns : List ℕ) → ((n : ℕ) → p n ≡ q n) → all p ns ≡ all q ns
all_same p q [] same = refl
all_same p q (n ∷ ns) same = ground (arith, same n, all_same p q ns same)

own_block :
    (room day : ℕ) (b : Block)
    → (is_some b.room_id && (b.room_id is room && covers day b))
      ≡ (b.room_id is room && covers day b)
own_block room day b = elim (Option-cases b.room_id) [
  | inl none_ ↦ ground arith
  | inr (r, some_) ↦ ground arith
]

-- A block of the whole property covers the day, or the type has rooms and each of them is under a
-- block of its own that covers it.
abbrev pub is_covered : RoomType → List Block → ℕ → Bool
is_covered rt blocks day =
    any
      (λ b.
        not (is_some b.room_id)
        && (leb (utc_midnight b.start_date) day && leb day (utc_midnight b.end_date)))
      blocks
    || ltb 0 (length rt.rooms)
      && all
          (λ room.
            any
              (λ b.
                b.room_id is room
                && (leb (utc_midnight b.start_date) day && leb day (utc_midnight b.end_date)))
              blocks)
          rt.rooms

is_blocked-is_covered :
    (rt : RoomType) (blocks : List Block) (day : ℕ)
    → is_blocked rt blocks day ≡ is_covered rt blocks day
unfolding is_blocked in_block all_rooms_blocked covers
is_blocked-is_covered rt blocks day =
    let whole = any-filter (covers day) (λ b. not (is_some b.room_id)) blocks in
    let rooms =
      all_same
        (λ room.
          any (λ b. b.room_id is room && covers day b) (filter (λ b. is_some b.room_id) blocks))
        (λ room. any (λ b. b.room_id is room && covers day b) blocks) rt.rooms
        (λ room.
          any-filter (λ b. b.room_id is room && covers day b) (λ b. is_some b.room_id) blocks
          ∙ any_same (λ b. is_some b.room_id && (b.room_id is room && covers day b))
              (λ b. b.room_id is room && covers day b) blocks (own_block room day)) in
    ap
      (λ c.
        c
        || ltb 0 (length rt.rooms)
          && all
              (λ room.
                any (λ b. b.room_id is room && covers day b)
                  (filter (λ b. is_some b.room_id) blocks))
              rt.rooms)
      whole
    ∙ ap
        (λ c.
          any (λ b. not (is_some b.room_id) && covers day b) blocks || ltb 0 (length rt.rooms) && c)
        rooms

-- A room type is shown as available on a day exactly when no block of the whole property covers the
-- day, not every room of the type is under a block of its own on it (a type without rooms never is),
-- the first row of the type on the day is not closed out, and fewer units are reserved than that row
-- has; a day without a row has one unit and none reserved. A block covers its first and its last day.
pub day_payload-available_iff :
    (rt : RoomType) (entries : List Entry) (blocks : List Block) (day : ℕ)
    → let entry = find? (λ e. e.room_type_id is rt.id && same_day e.date day) entries in
      (pos 1 ≤ℤ (day_payload rt entries blocks day).available) ↔ (
        (is_covered rt blocks day ≡ false)
        × (get_or (column entry (λ e. e.close_out)) false ≡ false)
        × (reserved_of entry +ℤ pos 1 ≤ℤ inventory_of entry))
unfolding day_payload
day_payload-available_iff rt entries blocks day =
    let entry = entry_for rt day entries in
    subst
      (λ c. (pos 1 ≤ℤ (day_payload rt entries blocks day).available) ↔ (
        (c ≡ false)
        × (get_or (column entry (λ e. e.close_out)) false ≡ false)
        × (reserved_of entry +ℤ pos 1 ≤ℤ inventory_of entry)))
      (is_blocked-is_covered rt blocks day)
      (shown_iff (is_blocked rt blocks day)
        (get_or (column (entry_for rt day entries) (λ e. e.close_out)) false)
        (inventory_of (entry_for rt day entries)) (reserved_of (entry_for rt day entries)))

-- The calendar with `closeOut` set by `close` on each row.
abbrev pub set_close_out : (Entry → Bool) → Entry → Entry
set_close_out close e = record e { close_out = close e }

abbrev pub with_close_out : (Entry → Bool) → List Entry → List Entry
with_close_out close rows = map (set_close_out close) rows

entries_of-close_out :
    (close : Entry → Bool) (opts : Request) (days : List ℕ) (rows : List Entry)
    → filter (selected opts days) (with_close_out close rows)
      ≡ with_close_out close (filter (selected opts days) rows)
unfolding selected requested
entries_of-close_out close opts days [] = refl
entries_of-close_out close opts days (e ∷ rows) = elim (Bool-cases (selected opts days e)) [
  | inl here ↦ rw (here, entries_of-close_out close opts days rows)
  | inr out ↦ rw (out, entries_of-close_out close opts days rows)
]

available-close_out :
    (close : Entry → Bool) (entries : List Entry) (day : ℕ)
    → available (with_close_out close entries) day ≡ available entries day
unfolding available entry_on
available-close_out close [] day = refl
available-close_out close (e ∷ entries) day = ground (arith, available-close_out close entries day)

check_nights-close_out :
    (close : Entry → Bool) (units : ℕ) (entries : List Entry) (days : List ℕ)
    (rows rows' : List Entry)
    → (check_nights units (with_close_out close entries) days rows).0
      ≡ (check_nights units entries days rows').0
unfolding check_nights
check_nights-close_out close units entries [] rows rows' = refl
check_nights-close_out close units entries (day ∷ days) rows rows' =
    elim (Bool-cases (ltb_ℤ (available entries day) (pos units))) [
      | inl short_of ↦ rw (available-close_out close entries day, short_of)
      | inr enough ↦
          rw (available-close_out close entries day, enough)
            (check_nights-close_out close units entries days rows rows')
    ]

-- `tryReserve` answers the same whichever rows of the calendar are closed out.
pub try_reserve-close_out :
    (close : Entry → Bool) (new_id : ℕ → ℕ) (opts : Request) (rows : List Entry)
    → (try_reserve new_id opts (with_close_out close rows)).0 ≡ (try_reserve new_id opts rows).0
unfolding try_reserve
try_reserve-close_out close new_id opts rows = ground (
  arith,
  entries_of-close_out close opts (nights_of opts) rows,
  check_nights-close_out close opts.units (entries_of opts rows) (nights_of opts)
      (with_close_out close rows) rows,
)
