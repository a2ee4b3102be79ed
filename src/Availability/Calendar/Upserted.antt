-- ===== src/Availability/Calendar/Upserted.antt =====
-- The rows of the calendar that were there before `bulkUpsertCalendar`.
use msk_back.Base.{
  ℕ, ◌≡◌, refl, inl, inr, some, List, [], ◌∷◌, arith, ◌==◌, if◌then◌else◌, Bool-cases, Option-cases,
  find?, find?-update_where, find?-append,
}
use msk_back.Base.Int.{ℤ}
use msk_back.Availability.Tables.{Entry}
use msk_back.Availability.Calendar.{
  Upsert, is_target, write_upsert, create_upsert, upsert_entry, bulk_upsert_calendar,
}

-- The row of the id, with its reserved units and the night that it is for.
abbrev pub HasRow : ℕ → ℤ → ℕ → List Entry → Type 0
HasRow id reserved date rows =
    (e : Entry) × (find? (λ r. r.id == id) rows ≡ some e)
    × (e.reserved ≡ reserved)
    × (e.date ≡ date)

upsert_entry-HasRow :
    (property_id : ℕ) (u : Upsert) (id : ℕ) (reserved : ℤ) (date : ℕ) (rows : List Entry)
    → HasRow id reserved date rows
    → HasRow id reserved date (upsert_entry property_id u rows)
unfolding upsert_entry write_upsert
upsert_entry-HasRow property_id u id reserved date rows (e, found, same, same') =
    elim (Option-cases (find? (is_target property_id u) rows)) [
      | inl missing ↦ (
        e,
        ground (arith, find?-append (λ r. r.id == id) rows (create_upsert property_id u ∷ [])),
        same,
        same',
      )
      | inr (t, there) ↦
          let f : Entry → Entry = λ r. if r.id == t.id then write_upsert u r else r in
          let found' : find? (λ r. r.id == id) (upsert_entry property_id u rows) ≡ some (f e) =
            ground (
              arith,
              find?-update_where (λ r. r.id == id) (λ r. r.id == t.id) (write_upsert u) rows
                  (λ r. refl),
            ) in
          elim (Bool-cases (e.id == t.id)) [
            | inl hit ↦ (f e, found', ground arith, ground arith)
            | inr miss ↦ (f e, found', ground arith, ground arith)
          ]
    ]

-- A bulk upsert of the calendar, whatever it writes, keeps each row that is there: the row of its id
-- is still for the same night, with the same units reserved.
pub bulk_upsert_calendar-HasRow :
    (property_id : ℕ) (us : List Upsert) (id : ℕ) (reserved : ℤ) (date : ℕ) (rows : List Entry)
    → HasRow id reserved date rows
    → HasRow id reserved date (bulk_upsert_calendar property_id us rows)
unfolding bulk_upsert_calendar
bulk_upsert_calendar-HasRow property_id [] id reserved date rows h = h
bulk_upsert_calendar-HasRow property_id (u ∷ us) id reserved date rows h =
    bulk_upsert_calendar-HasRow property_id us id reserved date (upsert_entry property_id u rows)
      (upsert_entry-HasRow property_id u id reserved date rows h)
