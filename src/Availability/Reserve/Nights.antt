-- ===== src/Availability/Reserve/Nights.antt =====
-- The second loop of `tryReserve`: night by night it takes the rows that were read, and appends
-- rows for the nights without one.
use mathlib.Core.List.{append_assoc, append-nil}
use msk_back.Base.{
  subst, ℕ, ◌≡◌, refl, sym, ap, inl, inr, Bool, true, false, not, ◌&&◌, ◌||◌, Option, none, some,
  List, [], ◌∷◌, ◌++◌, map, arith, ◌==◌, is_some, Option-cases, All, filter, any, update_where,
  find?_sound, All-append, All-of, All-find?, All-map, update_where-append, update_where_none,
  update_where_twice,
}
use msk_back.Dates.{same_day}
use msk_back.Dates.Days.{same_day_trans, Distinct}
use mathlib.Core.Path.{ap₂}
use msk_back.Availability.Tables.{Entry, Request}
use msk_back.Availability.Reserve.{
  entry_on, add_reserved, new_entry, reserve_night, reserve_nights, Option, Bool, some, true, false,
}

-- The id is the primary key.
abbrev pub IsKeyed : List Entry → Type 0
IsKeyed rows = All (λ a. All (λ b. (a.id == b.id) ≡ true → a ≡ b) rows) rows

-- The ids that the database hands out are those of no row.
abbrev pub IsFresh : (ℕ → ℕ) → List Entry → Type 0
IsFresh new_id rows = (day : ℕ) → All (λ r. (new_id day == r.id) ≡ false) rows

-- The row whose reserved units a night changes.
abbrev pub has_id : Option Entry → Entry → Bool
has_id none r = false
has_id (some e) r = r.id == e.id

abbrev pub takes : List Entry → ℕ → Entry → Bool
takes entries day r = has_id (entry_on day entries) r

-- The row is that of one of the nights.
unfoldable pub taken : List Entry → List ℕ → Entry → Bool
taken entries [] r = false
taken entries (day ∷ days) r = takes entries day r || taken entries days r

-- The night has no row.
abbrev pub missing : List Entry → ℕ → Bool
missing entries day = not (is_some (entry_on day entries))

pub entry_on-same_day :
    (entries : List Entry) (day : ℕ) (e : Entry)
    → entry_on day entries ≡ some e
    → same_day e.date day ≡ true
unfolding entry_on
entry_on-same_day entries day e = find?_sound _ entries e

-- What holds of every row holds of the row of a night.
pub All-entry_on :
    (P : Entry → Type 0) (entries : List Entry) (day : ℕ) (e : Entry)
    → All P entries
    → entry_on day entries ≡ some e
    → P e
unfolding entry_on
All-entry_on P entries day e = All-find? P _ entries e

entry_on_keyed :
    (entries : List Entry) (day day' : ℕ) (e e' : Entry)
    → IsKeyed entries
    → entry_on day entries ≡ some e
    → entry_on day' entries ≡ some e'
    → (e.id == e'.id) ≡ true
    → e ≡ e'
unfolding entry_on
entry_on_keyed entries day day' e e' keyed f f' =
    All-find? (λ b. (e.id == b.id) ≡ true → e ≡ b) _ entries e'
      (All-find? (λ a. All (λ b. (a.id == b.id) ≡ true → a ≡ b) entries) _ entries e keyed f) f'

-- Two nights that take one row are one day.
takes_twice :
    (entries : List Entry) (day day' : ℕ) (r : Entry)
    → IsKeyed entries
    → takes entries day r ≡ true
    → takes entries day' r ≡ true
    → same_day day day' ≡ true
takes_twice entries day day' r keyed t t' =
    both (entry_on day entries) (entry_on day' entries) refl refl t t'
  where
    both :
        (o o' : Option Entry)
        → entry_on day entries ≡ o
        → entry_on day' entries ≡ o'
        → has_id o r ≡ true
        → has_id o' r ≡ true
        → same_day day day' ≡ true
    both none o' f f' t t' = cc
    both (some e) none f f' t t' = cc
    both (some e) (some e') f f' t t' =
        let same : e ≡ e' = entry_on_keyed entries day day' e e' keyed f f' (ground arith) in
        same_day_trans day e.date day' (entry_on-same_day entries day e f) (
          subst (λ x. same_day x.date day' ≡ true) (sym same)
            (entry_on-same_day entries day' e' f'))

-- So one night and the nights after it have no row in common.
takes_exclude :
    (entries : List Entry) (day : ℕ) (days : List ℕ) (r : Entry)
    → IsKeyed entries
    → any (same_day day) days ≡ false
    → (takes entries day r && taken entries days r) ≡ false
unfolding taken
takes_exclude entries day [] r keyed d = ground arith
takes_exclude entries day (d' ∷ days) r keyed d =
    ground (arith, takes_twice entries day d' r keyed, takes_exclude entries day days r keyed)

taken-update :
    (entries : List Entry) (days : List ℕ) (units : ℕ) (r : Entry)
    → taken entries days (add_reserved units r) ≡ taken entries days r
unfolding taken add_reserved
taken-update entries [] units r = refl
taken-update entries (day ∷ days) units r =
    ap₂ ◌||◌ (has_id-update (entry_on day entries)) (taken-update entries days units r)
  where
    has_id-update : (o : Option Entry) → has_id o (add_reserved units r) ≡ has_id o r
    has_id-update none = refl
    has_id-update (some e) = refl

module _ (new_id : ℕ → ℕ) (opts : Request) (entries : List Entry) (keyed : IsKeyed entries)
    (fresh : IsFresh new_id entries) where
  abbrev book : Entry → Entry
  book = add_reserved opts.units

  abbrev made : List ℕ → List Entry
  made days = map (new_entry new_id opts) (filter (missing entries) days)

  -- No row made so far is that of a night.
  abbrev Apart : ℕ → List Entry → Type 0
  Apart day created = All (λ r. takes entries day r ≡ false) created

  new_entry-Apart : (day day' : ℕ) → Apart day' (new_entry new_id opts day ∷ [])
  unfolding new_entry
  new_entry-Apart day day' = elim (Option-cases (entry_on day' entries)) [
    | inl none_there ↦ rw none_there (refl, tt)
    | inr (e, found) ↦ rw found (entry_on_fresh day day' e found, tt)
  ]
    where
      entry_on_fresh :
          (day day' : ℕ) (e : Entry) → entry_on day' entries ≡ some e → (new_id day == e.id) ≡ false
      entry_on_fresh day day' e found =
          All-entry_on (λ r. (new_id day == r.id) ≡ false) entries day' e (fresh day) found

  made-Apart : (day day' : ℕ) → Apart day' (made (day ∷ []))
  made-Apart day day' = elim (Option-cases (entry_on day entries)) [
    | inl none_there ↦ rw none_there (new_entry-Apart day day')
    | inr (e, found) ↦ rw found tt
  ]

  Apart-made :
      (day : ℕ) (days : List ℕ) (created : List Entry)
      → All (λ d'. Apart d' created) days
      → All (λ d'. Apart d' (created ++ made (day ∷ []))) days
  Apart-made day days created h =
      All-map (λ d'. Apart d' created) (λ d'. Apart d' (created ++ made (day ∷ []))) days
        (λ d' k. All-append (λ r. takes entries d' r ≡ false) created _ k (made-Apart day d')) h

  -- A night without a row appends one; every other night updates its row.
  reserve_night_lem :
      (day : ℕ) (old created : List Entry)
      → Apart day created
      → reserve_night new_id opts entries day (old ++ created)
        ≡ update_where (takes entries day) book old ++ (created ++ made (day ∷ []))
  unfolding reserve_night
  reserve_night_lem day old created apart = elim (Option-cases (entry_on day entries)) [
    | inl none_there ↦
        rw
          (
            none_there,
            reserve_night,
            update_where_none (takes entries day) book old
                (All-of (λ r. takes entries day r ≡ false) (λ r. rw none_there) old),
          )
          (append_assoc old created _)
    | inr (e, found) ↦
        rw
          (
            found,
            reserve_night,
            update_where-append _ book old created,
            update_where_none (has_id (some e)) book created (rw found at apart),
            append-nil created,
          )
          (ap (λ o. update_where (has_id o) book old ++ created) (sym found))
  ]

  made-cons : (day : ℕ) (days : List ℕ) → made (day ∷ []) ++ made days ≡ made (day ∷ days)
  made-cons day days = elim (Option-cases (entry_on day entries)) [
    | inl none_there ↦ rw none_there
    | inr (e, found) ↦ rw found
  ]

  update_where-taken_cons :
      (day : ℕ) (days : List ℕ) (old : List Entry)
      → any (same_day day) days ≡ false
      → update_where (taken entries days) book (update_where (takes entries day) book old)
        ≡ update_where (taken entries (day ∷ days)) book old
  unfolding taken
  update_where-taken_cons day days old d =
      update_where_twice (takes entries day) (taken entries days) book old
        (taken-update entries days opts.units)
        (All-of (λ r. (takes entries day r && taken entries days r) ≡ false)
          (λ r. takes_exclude entries day days r keyed d) old)

  -- The loop updates the rows that were there, and appends.
  reserve_nights_from :
      (days : List ℕ) (old created : List Entry)
      → Distinct days
      → All (λ day. Apart day created) days
      → reserve_nights new_id opts entries days (old ++ created)
        ≡ update_where (taken entries days) book old ++ (created ++ made days)
  unfolding reserve_nights taken
  reserve_nights_from [] old created d a = rw (
    append-nil created,
    update_where_none (λ r. false) book old (All-of (λ r. false ≡ false) (λ r. refl) old),
  )
  reserve_nights_from (day ∷ days) old created d a = rw (
    reserve_night_lem day old created a.0,
    reserve_nights_from days (update_where (takes entries day) book old)
        (created ++ made (day ∷ [])) d.1 (Apart-made day days created a.1),
    update_where-taken_cons day days old d.0,
    append_assoc created (made (day ∷ [])) (made days),
    made-cons day days,
  )

  -- The loop over the nights of a stay, from the table as it was read.
  pub reserve_nights_lem :
      (days : List ℕ) (rows : List Entry)
      → Distinct days
      → reserve_nights new_id opts entries days rows
        ≡ update_where (taken entries days) book rows ++ made days
  reserve_nights_lem days rows d =
      rw (append-nil rows) at
        (reserve_nights_from days rows [] d (All-of (λ day. Unit {0}) (λ day. tt) days))
