-- ===== src/Bookings/CheckIn/Verify/Stable.antt =====
-- The check-in code of a booking after `checkInVerify`.
use msk_back.Base.{
  ℕ, String, ◌≡◌, refl, sym, ap, subst, ◌∙◌, ◌⊎◌, inl, inr, true, none, some, arith, ◌==◌, ==_refl,
  Bool-cases, Option-cases, find?, find?-update_where,
}
use msk_back.Base.Action.{HttpError, Result, Result-cases, ok, err}
use msk_back.Bookings.Tables.{Booking, Db, booking_at, write_booking, update_booking}
use msk_back.Bookings.CheckIn.Codes.{try_codes, allocate_code, set_code}
use msk_back.Bookings.CheckIn.Verify.{
  Desk, Tools, ref_where, find_by_ref, last_name_matches, destination_of, find_reservation, code_of,
  check_in_verify,
}
use msk_back.Auth.Otp.{OtpDb, consume, reservation_enquiry}

module _ (tools : Tools) where
  -- The code was there, or it is new and written.
  unfoldable pub Given : (ℕ → ℕ) → Booking → Db → Db → ℕ → Type 0
  Given draw b db db' code =
      (b.check_in_code ≡ some code) × (db' ≡ db)
      ⊎ (b.check_in_code ≡ none)
        × (try_codes 6 draw db.bookings ≡ some code)
        × (db' ≡ write_booking b.id (set_code code) db)

  -- How a call that succeeded went.
  unfoldable pub Verified : (ℕ → ℕ) → String → String → Db → Db → ℕ → ℕ → Type 0
  Verified draw reference last_name db db' id code =
      (b : Booking) × (d : String) × (find? (ref_where tools reference) db.bookings ≡ some b)
      × (last_name_matches tools last_name b db ≡ true)
      × (destination_of tools b ≡ some d)
      × (id ≡ b.id)
      × Given draw b db db' code

  code_of-Given :
      (draw : ℕ → ℕ) (b : Booking) (db : Db) (code : ℕ)
      → (code_of tools draw b db).0 ≡ ok code
      → Given draw b db (code_of tools draw b db).1 code
  unfolding code_of allocate_code update_booking Given
  code_of-Given draw b db code e = elim (Option-cases b.check_in_code) [
    | inr (k, has) ↦ inl (ground arith, ground arith)
    | inl bare ↦ elim (Option-cases (try_codes 6 draw db.bookings)) [
      | inl full ↦ ground arith
      | inr (k, drawn) ↦ elim (Option-cases (booking_at b.id db)) [
        | inl missing ↦ ground arith
        | inr (x, there) ↦
            let same : k ≡ code = ground arith in inr (bare, ground arith, ground arith)
      ]
    ]
  ]

  pub verify-Verified :
      (draw : ℕ → ℕ) (now : ℕ) (reference last_name otp_code : String) (desk : Desk) (id code : ℕ)
      → (check_in_verify tools draw now reference last_name otp_code desk).0 ≡ ok (id, code)
      → Verified draw reference last_name desk.hotel
          (check_in_verify tools draw now reference last_name otp_code desk).1.hotel
          id
          code
  unfolding check_in_verify find_reservation find_by_ref Verified
  verify-Verified draw now reference last_name otp_code desk id code e =
      let db : Db = desk.hotel in
      elim (Option-cases (find? (ref_where tools reference) db.bookings)) [
        | inl missing ↦ ground arith
        | inr (b, found) ↦ elim (Bool-cases (last_name_matches tools last_name b db)) [
          | inr other_name ↦ ground arith
          | inl named ↦ elim (Option-cases (destination_of tools b)) [
            | inl nowhere ↦ ground arith
            | inr (d, to) ↦
                elim (Result-cases
                  (consume tools.matches now d reservation_enquiry otp_code desk.otp).0) [
                    | inl (x, refused) ↦ ground arith
                    | inr (c, taken) ↦ elim (Result-cases (code_of tools draw b db).0) [
                      | inl (x, no_code) ↦ ground arith
                      | inr (k, given) ↦
                          let same : k ≡ code = ground arith in
                          let after : (check_in_verify tools draw now reference last_name otp_code
                                desk).1.hotel
                              ≡ (code_of tools draw b db).1 =
                            ground arith in
                          (
                            b,
                            d,
                            found,
                            named,
                            to,
                            ground arith,
                            subst (λ x. Given draw b db x code) (sym after)
                                (code_of-Given draw b db code (given ∙ ap ok same)),
                          )
                    ]
                  ]
          ]
        ]
      ]

  -- A call where the booking has its code: refused by the one-time code only, and it writes none.
  unfoldable pub Again : ℕ → String → Desk → Result (ℕ × ℕ) × Desk → ℕ → ℕ → Type 0
  Again now otp_code desk answer id code =
      (((d : String) × (e : HttpError) × ((consume tools.matches now d reservation_enquiry otp_code
              desk.otp).0
            ≡ err e)
          × (answer.0 ≡ err e))
        ⊎ (answer.0 ≡ ok (id, code)))
      × (answer.1.hotel ≡ desk.hotel)

  with_code-Again :
      (draw : ℕ → ℕ) (now : ℕ) (reference last_name otp_code : String) (desk : Desk) (b : Booking)
      (d : String) (code : ℕ)
      → find? (ref_where tools reference) desk.hotel.bookings ≡ some b
      → last_name_matches tools last_name b desk.hotel ≡ true
      → destination_of tools b ≡ some d
      → b.check_in_code ≡ some code
      → Again now otp_code desk
          (check_in_verify tools draw now reference last_name otp_code desk)
          b.id
          code
  unfolding check_in_verify find_reservation find_by_ref code_of Again
  with_code-Again draw now reference last_name otp_code desk b d code found named to has =
      elim (Result-cases (consume tools.matches now d reservation_enquiry otp_code desk.otp).0) [
        | inl (e, refused) ↦ (inl (d, e, refused, ground arith), ground arith)
        | inr (c, taken) ↦ (inr (ground arith), ground arith)
      ]

  -- The booking of a reference after its code was written.
  found_again :
      (reference : String) (b : Booking) (db : Db) (code : ℕ)
      → find? (ref_where tools reference) db.bookings ≡ some b
      → find? (ref_where tools reference) (write_booking b.id (set_code code) db).bookings
        ≡ some (set_code code b)
  unfolding ref_where
  found_again reference b db code found =
      find?-update_where (ref_where tools reference) (λ x. x.id == b.id) (set_code code) db.bookings
        (λ x. refl)
      ∙ ground (arith, ==_refl b.id)

  -- After a call that gave a booking its code, another call with the reference and the last name gives
  -- the same booking and the same code, whatever is drawn, whenever it comes and whatever happened to
  -- the one-time codes in between, or it is refused because `consume` refuses the one-time code; and
  -- it leaves the tables of the hotel as they are.
  pub check_in_verify-Again :
      (draw draw' : ℕ → ℕ) (now now' : ℕ) (reference last_name otp_code otp_code' : String)
      (desk : Desk) (otp : OtpDb) (id code : ℕ)
      → (check_in_verify tools draw now reference last_name otp_code desk).0 ≡ ok (id, code)
      → let desk' : Desk =
          record (check_in_verify tools draw now reference last_name otp_code desk).1 {
            otp = otp;
          } in
        Again now' otp_code' desk'
          (check_in_verify tools draw' now' reference last_name otp_code' desk')
          id
          code
  unfolding Verified Given last_name_matches
  check_in_verify-Again draw draw' now now' reference last_name otp_code otp_code' desk otp id code
        e =
      let db' : Db = (check_in_verify tools draw now reference last_name otp_code desk).1.hotel in
      let desk' : Desk = record { hotel = db'; otp = otp } in
      let answer : Result (ℕ × ℕ) × Desk =
        check_in_verify tools draw' now' reference last_name otp_code' desk' in
      let (b, d, found, named, to, own, given) =
        verify-Verified draw now reference last_name otp_code desk id code e in
      subst (λ i. Again now' otp_code' desk' answer i code) (sym own)
        (elim given [
          | inl (has, same) ↦
              with_code-Again draw' now' reference last_name otp_code' desk' b d code
                (ap (λ x. find? (ref_where tools reference) x.bookings) same ∙ found)
                (ap (last_name_matches tools last_name b) same ∙ named) to has
          | inr (bare, drawn, same) ↦
              with_code-Again draw' now' reference last_name otp_code' desk' (set_code code b) d
                code
                (ap (λ x. find? (ref_where tools reference) x.bookings) same
                  ∙ found_again reference b desk.hotel code found)
                (ap (last_name_matches tools last_name (set_code code b)) same ∙ named) to refl
        ])
