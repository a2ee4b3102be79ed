-- ===== src/Availability/Reserve/Bounds.antt =====
-- The reserved units of a row against its inventory.
use msk_back.Base.{
  subst, ℕ, ◌≡◌, sym, inl, inr, Bool, true, false, none, some, List, [], ◌∷◌, map, arith, ltb, ◌==◌,
  Bool-cases, Option-cases, All, find?, filter, update_where, All-append, All-filter, All-map,
  All-both, All-update_where_if,
}
use msk_back.Base.Int.{◌+ℤ◌, ◌-ℤ◌, ◌≤ℤ◌, ltb_ℤ, int_laws, pos}
use msk_back.Availability.Tables.{Entry, Request}
use msk_back.Availability.Reserve.{
  selected, entry_on, available, add_reserved, new_entry, try_reserve,
}
use msk_back.Availability.Reserve.Nights.{All-entry_on, IsKeyed, IsFresh, takes, taken, missing}
use msk_back.Availability.Reserve.Effect.{nights_of, entries_of, short, try_reserve_lem}

-- No row has more units reserved than it has.
abbrev pub IsWithin : List Entry → Type 0
IsWithin rows = All (λ r. r.reserved ≤ℤ r.inventory) rows

module _ (opts : Request) (entries : List Entry) where
  abbrev lacks : ℕ → Bool
  lacks day = ltb_ℤ (available entries day) (pos opts.units)

  -- The units asked for are left on the row of each night.
  night_fits :
      (day : ℕ) (r : Entry)
      → All (λ b. (r.id == b.id) ≡ true → r ≡ b) entries
      → lacks day ≡ false
      → takes entries day r ≡ true
      → r.reserved +ℤ pos opts.units ≤ℤ r.inventory
  unfolding available
  night_fits day r only enough t = elim (Option-cases (entry_on day entries)) [
    | inl none_there ↦ none_taken (rw none_there at t)
    | inr (e, found) ↦
        let same : r ≡ e =
          All-entry_on (λ b. (r.id == b.id) ≡ true → r ≡ b) entries day e only found
            (rw found at t) in
        subst (λ x. x.reserved +ℤ pos opts.units ≤ℤ x.inventory) (sym same)
          (units_left e (left_on e found enough))
  ]
    where
      none_taken : {A : Type 0} → false ≡ true → A
      none_taken e = cc

      left_on :
          (e : Entry)
          → entry_on day entries ≡ some e
          → lacks day ≡ false
          → ltb_ℤ (e.inventory -ℤ e.reserved) (pos opts.units) ≡ false
      left_on e found h = ground arith

      units_left :
          (e : Entry)
          → ltb_ℤ (e.inventory -ℤ e.reserved) (pos opts.units) ≡ false
          → e.reserved +ℤ pos opts.units ≤ℤ e.inventory
      units_left e h = grind int_laws

  taken_fits :
      (days : List ℕ) (r : Entry)
      → All (λ b. (r.id == b.id) ≡ true → r ≡ b) entries
      → find? lacks days ≡ none
      → taken entries days r ≡ true
      → r.reserved +ℤ pos opts.units ≤ℤ r.inventory
  unfolding taken
  taken_fits [] r only enough t = cc
  taken_fits (day ∷ days) r only enough t = elim (Bool-cases (takes entries day r)) [
    | inl here ↦ night_fits day r only (ground arith) here
    | inr later ↦ taken_fits days r only (ground arith) (ground arith)
  ]

  one_left : (day : ℕ) → entry_on day entries ≡ none → lacks day ≡ false → ltb 1 opts.units ≡ false
  unfolding available
  one_left day none_there h = ground arith

  -- A new row has one unit, and a night without a row allows at most one.
  made_fits :
      (new_id : ℕ → ℕ) (days : List ℕ)
      → find? lacks days ≡ none
      → IsWithin (map (new_entry new_id opts) (filter (missing entries) days))
  unfolding new_entry available
  made_fits new_id [] enough = tt
  made_fits new_id (day ∷ days) enough = elim (Option-cases (entry_on day entries)) [
    | inl none_there ↦
        let fits : ltb 1 opts.units ≡ false = one_left day none_there (ground arith) in
        rw none_there (ground arith, made_fits new_id days (ground arith))
    | inr (e, found) ↦ rw found (made_fits new_id days (ground arith))
  ]

-- Where no row is overbooked, none is after `tryReserve`, whether it succeeds or throws. The ids are
-- the primary key, and the new ids are those of no row.
pub try_reserve-IsWithin :
    (new_id : ℕ → ℕ) (opts : Request) (rows : List Entry)
    → IsKeyed rows
    → IsFresh new_id rows
    → IsWithin rows
    → IsWithin (try_reserve new_id opts rows).1
unfolding add_reserved
try_reserve-IsWithin new_id opts rows keyed fresh within =
    elim (Option-cases (find? (short opts rows) (nights_of opts))) [
      | inl enough ↦
          rw (try_reserve_lem new_id opts rows keyed fresh, enough)
            (All-append (λ r. r.reserved ≤ℤ r.inventory) _ _ (booked_fits enough)
              (made_fits opts (entries_of opts rows) new_id (nights_of opts) enough))
      | inr (day, is_short) ↦ rw (try_reserve_lem new_id opts rows keyed fresh, is_short) within
    ]
  where
    booked_fits :
        find? (short opts rows) (nights_of opts) ≡ none
        → IsWithin (
            update_where
              (taken (entries_of opts rows) (nights_of opts))
              (add_reserved opts.units)
              rows)
    booked_fits enough =
        let only : All (λ r. All (λ b. (r.id == b.id) ≡ true → r ≡ b) (entries_of opts rows)) rows =
          All-map (λ a. All (λ b. (a.id == b.id) ≡ true → a ≡ b) rows)
            (λ a. All (λ b. (a.id == b.id) ≡ true → a ≡ b) (entries_of opts rows)) rows
            (λ a k. All-filter _ (selected opts (nights_of opts)) rows k) keyed in
        All-update_where_if (λ r. r.reserved ≤ℤ r.inventory)
          (taken (entries_of opts rows) (nights_of opts)) (add_reserved opts.units) rows
          (All-both (λ r. r.reserved ≤ℤ r.inventory)
            (λ r.
              taken (entries_of opts rows) (nights_of opts) r ≡ true
              → r.reserved +ℤ pos opts.units ≤ℤ r.inventory)
            rows within
            (All-map _ _ rows
              (λ r k. taken_fits opts (entries_of opts rows) (nights_of opts) r k enough) only))
