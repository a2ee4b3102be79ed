-- ===== src/Availability/Reserve/Undo.antt =====
-- `release` after `tryReserve`.
use msk_back.Base.{
  ap, ==_refl, ℕ, ◌≡◌, refl, sym, ap, ◌∙◌, inl, inr, Bool, true, false, ◌&&◌, none, some, List, [],
  ◌∷◌, ◌++◌, map, arith, ◌==◌, ==_refl, Bool-cases, Option-cases, All, find?, filter, any,
  update_where, find?-none, update_where-append, update_where_congr, update_where_undo, In,
  All-intro, In-filter, In-of_filter, In-find?,
}
use msk_back.Base.Int.{+ℤ_cancel, pos, -ℤ_self}
use msk_back.Base.Action.{err-ne-ok, unavailable, ok}
use msk_back.Dates.{same_day}
use msk_back.Dates.Days.{any-same_day_self}
use msk_back.Availability.Tables.{Entry, Request}
use msk_back.Availability.Reserve.{
  requested, selected, entry_on, add_reserved, new_entry, try_reserve, drop_reserved, release,
}
use msk_back.Availability.Reserve.Nights.{
  IsKeyed, IsFresh, takes, taken, missing, entry_on-same_day,
}
use msk_back.Availability.Reserve.Effect.{nights_of, entries_of, short, booked, try_reserve_lem}

abbrev pub of_one_night : Request → Entry → Entry → Bool
of_one_night opts a b = requested opts a && requested opts b && same_day a.date b.date

-- No two rows of the table meet the request on one day.
abbrev pub HasOneRow : Request → List Entry → Type 0
HasOneRow opts rows = All (λ a. All (λ b. of_one_night opts a b ≡ true → a ≡ b) rows) rows

-- A row that a reservation made and its release emptied.
unfoldable pub empty_entry : (ℕ → ℕ) → Request → ℕ → Entry
empty_entry new_id opts day = record (new_entry new_id opts day) { reserved = pos 0 }

entry_on-none :
    (entries : List Entry) (day : ℕ)
    → entry_on day entries ≡ none
    → All (λ e. same_day e.date day ≡ false) entries
unfolding entry_on
entry_on-none entries day = find?-none _ entries

eq_of_true : (a b : Bool) → (a ≡ true → b ≡ true) → (b ≡ true → a ≡ true) → a ≡ b
eq_of_true true b h k = sym (h refl)
eq_of_true false true h k = k refl
eq_of_true false false h k = refl

selected-night :
    (opts : Request) (days : List ℕ) (r : Entry)
    → selected opts days r ≡ true
    → any (same_day r.date) days ≡ true
unfolding selected
selected-night opts days r h = ground arith

one_night :
    (opts : Request) (days : List ℕ) (a b : Entry) (day : ℕ)
    → selected opts days a ≡ true
    → selected opts days b ≡ true
    → same_day a.date day ≡ true
    → same_day b.date day ≡ true
    → of_one_night opts a b ≡ true
unfolding selected same_day
one_night opts days a b day h k p q = ground arith

selected-update :
    (opts : Request) (days : List ℕ) (r : Entry)
    → selected opts days (add_reserved opts.units r) ≡ selected opts days r
unfolding selected add_reserved requested
selected-update opts days r = refl

drop_reserved-add_reserved :
    (units : ℕ) (r : Entry) → drop_reserved units (add_reserved units r) ≡ r
unfolding drop_reserved add_reserved
drop_reserved-add_reserved units r =
    ap (λ z. record r { reserved = z }) (+ℤ_cancel r.reserved (pos units))

-- The request selects every row that it makes.
requested-new_entry :
    (new_id : ℕ → ℕ) (opts : Request) (day : ℕ) → requested opts (new_entry new_id opts day) ≡ true
unfolding requested new_entry
requested-new_entry new_id opts day = ground arith

selected-new_entry :
    (new_id : ℕ → ℕ) (opts : Request) (days : List ℕ) (day : ℕ)
    → any (same_day day) days ≡ true
    → selected opts days (new_entry new_id opts day) ≡ true
unfolding selected new_entry
selected-new_entry new_id opts days day h = rw (requested-new_entry new_id opts day, h)

drop_reserved-new_entry :
    (new_id : ℕ → ℕ) (opts : Request) (day : ℕ)
    → drop_reserved opts.units (new_entry new_id opts day) ≡ empty_entry new_id opts day
unfolding drop_reserved new_entry empty_entry
drop_reserved-new_entry new_id opts day =
    ap (λ z. record (new_entry new_id opts day) { reserved = z }) (-ℤ_self (pos opts.units))

release_made_from :
    (new_id : ℕ → ℕ) (opts : Request) (p : ℕ → Bool) (all_days days : List ℕ)
    → All (λ day. any (same_day day) all_days ≡ true) days
    → update_where
        (selected opts all_days)
        (drop_reserved opts.units)
        (map (new_entry new_id opts) (filter p days))
      ≡ map (empty_entry new_id opts) (filter p days)
release_made_from new_id opts p all_days [] h = refl
release_made_from new_id opts p all_days (day ∷ days) h = elim (Bool-cases (p day)) [
  | inl kept ↦ rw (
    kept,
    selected-new_entry new_id opts all_days day h.0,
    drop_reserved-new_entry new_id opts day,
    release_made_from new_id opts p all_days days h.1,
  )
  | inr dropped ↦ rw dropped (release_made_from new_id opts p all_days days h.1)
]

release_made :
    (new_id : ℕ → ℕ) (opts : Request) (p : ℕ → Bool)
    → update_where
        (selected opts (nights_of opts))
        (drop_reserved opts.units)
        (map (new_entry new_id opts) (filter p (nights_of opts)))
      ≡ map (empty_entry new_id opts) (filter p (nights_of opts))
release_made new_id opts p =
    release_made_from new_id opts p (nights_of opts) (nights_of opts)
      (any-same_day_self (nights_of opts))

module _ (opts : Request) (rows : List Entry) (keyed : IsKeyed rows)
    (one : HasOneRow opts rows) where
  entries : List Entry
  entries = entries_of opts rows

  In-entry_on :
      (day : ℕ) (e : Entry)
      → entry_on day entries ≡ some e
      → In e rows × (selected opts (nights_of opts) e ≡ true)
  unfolding entry_on entries
  In-entry_on day e found = In-of_filter _ rows e (In-find? _ _ e found)

  -- The row that a night takes is selected by the request.
  takes-selected :
      (day : ℕ) (r : Entry)
      → In r rows
      → takes entries day r ≡ true
      → selected opts (nights_of opts) r ≡ true
  takes-selected day r i t = elim (Option-cases (entry_on day entries)) [
    | inl none_there ↦ absurd_bool (rw none_there at t)
    | inr (e, found) ↦
        let (j, chosen) = In-entry_on day e found in
        let same : r ≡ e =
          j (λ b. (r.id == b.id) ≡ true → r ≡ b)
            (i (λ a. All (λ b. (a.id == b.id) ≡ true → a ≡ b) rows) keyed) (rw found at t) in
        rw same chosen
  ]
    where
      absurd_bool : {A : Type 0} → false ≡ true → A
      absurd_bool e = cc

  -- A selected row of a night is the one that the night takes.
  selected-takes :
      (day : ℕ) (r : Entry)
      → In r rows
      → selected opts (nights_of opts) r ≡ true
      → same_day r.date day ≡ true
      → takes entries day r ≡ true
  unfolding entries
  selected-takes day r i s d = elim (Option-cases (entry_on day entries)) [
    | inl none_there ↦
        absurd_bool (sym d ∙ In-filter _ rows r i s _ (entry_on-none entries day none_there))
    | inr (e, found) ↦
        let (j, chosen) = In-entry_on day e found in
        let same : r ≡ e =
          j (λ b. of_one_night opts r b ≡ true → r ≡ b)
            (i (λ a. All (λ b. of_one_night opts a b ≡ true → a ≡ b) rows) one)
            (one_night opts (nights_of opts) r e day s chosen d
              (entry_on-same_day entries day e found)) in
        rw (found, same) (==_refl e.id)
  ]
    where
      absurd_bool : {A : Type 0} → true ≡ false → A
      absurd_bool e = cc

  -- So a selected row is taken, and no other.
  selected-taken_from :
      (days : List ℕ) (r : Entry)
      → In r rows
      → selected opts (nights_of opts) r ≡ true
      → any (same_day r.date) days ≡ true
      → taken entries days r ≡ true
  unfolding taken
  selected-taken_from [] r i s d = cc
  selected-taken_from (day ∷ days) r i s d =
      ground (arith, selected-takes day r i s, selected-taken_from days r i s)

  taken-selected_from :
      (days : List ℕ) (r : Entry)
      → In r rows
      → taken entries days r ≡ true
      → selected opts (nights_of opts) r ≡ true
  unfolding taken
  taken-selected_from [] r i t = cc
  taken-selected_from (day ∷ days) r i t =
      ground (arith, takes-selected day r i, taken-selected_from days r i)

  taken-eq-selected :
      All (λ r. taken entries (nights_of opts) r ≡ selected opts (nights_of opts) r) rows
  taken-eq-selected = All-intro _ rows (λ r i.
      eq_of_true _ _ (taken-selected_from (nights_of opts) r i) (λ s.
        selected-taken_from (nights_of opts) r i s (selected-night opts (nights_of opts) r s)))

  -- Without the rows that the reservation made, the release gives back the table.
  release-booked :
      (new_id : ℕ → ℕ)
      → (release opts (booked new_id opts rows)).1
        ≡ rows ++ map (empty_entry new_id opts) (filter (missing entries) (nights_of opts))
  unfolding release entries
  release-booked new_id = rw (
    update_where_congr _ (selected opts (nights_of opts)) (add_reserved opts.units) rows
        taken-eq-selected,
    update_where-append (selected opts (nights_of opts)) (drop_reserved opts.units)
        (update_where (selected opts (nights_of opts)) (add_reserved opts.units) rows),
    update_where_undo (selected opts (nights_of opts)) (add_reserved opts.units)
        (drop_reserved opts.units) rows (selected-update opts (nights_of opts))
        (drop_reserved-add_reserved opts.units),
    release_made new_id opts (missing entries),
  )

-- A reservation that succeeded, and then the release of the same stay: every row of the table is as
-- it was, and each row that the reservation made stays, with nothing reserved. The ids are the
-- primary key, the new ids those of no row, and no two rows meet the request on one day.
pub release-try_reserve :
    (new_id : ℕ → ℕ) (opts : Request) (rows : List Entry)
    → IsKeyed rows
    → IsFresh new_id rows
    → HasOneRow opts rows
    → (try_reserve new_id opts rows).0 ≡ ok true
    → (release opts (try_reserve new_id opts rows).1).1
      ≡ rows
        ++ map (empty_entry new_id opts) (filter (missing (entries_of opts rows)) (nights_of opts))
unfolding entries
release-try_reserve new_id opts rows keyed fresh one success =
    elim (Option-cases (find? (short opts rows) (nights_of opts))) [
      | inl enough ↦
          rw (try_reserve_lem new_id opts rows keyed fresh, enough)
            (release-booked opts rows keyed one new_id)
      | inr (day, is_short) ↦
          err-ne-ok (unavailable day) true
            (rw (try_reserve_lem new_id opts rows keyed fresh, is_short) at success)
    ]
