-- ===== src/Bookings/CheckOut/MayAct.antt =====
-- The check-out token and the submit of the check-out.
use msk_back.Base.{
  ℕ, String, ◌≡◌, refl, ◌⊎◌, inl, inr, true, not, ◌&&◌, Option, none, some, arith, ltb, ==_refl,
  ◌is◌, is_some, Bool-cases, Option-cases, find?, find?_sound, In, In-filter, In-find?,
}
use msk_back.Base.Action.{HttpError, Result, bad_request, not_found, unauthorized, ok, err}
use msk_back.Base.Text.{is_blank, is_filled, same_text, trim}
use msk_back.Bookings.Tables.{
  CheckoutMethod, Booking, Db, is_checked_in, booking_at, write_booking, update_booking,
}
use msk_back.Bookings.CheckOut.{
  Mode, CheckOutSubmit, StaffScan, is_staff, shown_name, resolve_staff_qr, scan_staff, is_remote,
  may_act, outstanding, checked_out_by, check_check_out, check_out_submit, sign_in_with_code,
  list_active,
}

-- The sign-in with a code gives a token whose list has the booking of that code.
pub sign_in_with_code-list_active :
    (code sub : ℕ) (mode : Mode) (db db' : Db)
    → sign_in_with_code code db ≡ (ok (sub, mode), db')
    → (b : Booking) × (b.check_in_code is code ≡ true) × In b (list_active sub mode db')
unfolding sign_in_with_code list_active may_act
sign_in_with_code-list_active code sub mode db db' signed =
    elim (Option-cases (find? (λ b. b.check_in_code is code) db.bookings)) [
      | inl missing ↦ ground arith
      | inr (b, found) ↦
          let same : db' ≡ db = ground arith in
          let held : (may_act mode sub b && is_checked_in b.status) ≡ true =
            elim (Bool-cases (is_checked_in b.status)) [
              | inr away ↦ ground arith
              | inl present ↦ elim (Option-cases b.guest_user_id) [
                | inl unlinked ↦ ground (arith, ==_refl b.id)
                | inr (u, linked) ↦ ground (arith, ==_refl u)
              ]
            ] in
          (
            b,
            find?_sound (λ x. x.check_in_code is code) db.bookings b found,
            rw same (
                In-filter (λ x. may_act mode sub x && is_checked_in x.status) db.bookings b
                  (In-find? (λ x. x.check_in_code is code) db.bookings b found) held),
          )
    ]

CheckoutMethod-cases :
    (m : CheckoutMethod) → (m ≡ CheckoutMethod.remote) ⊎ (m ≡ CheckoutMethod.reception)
CheckoutMethod-cases CheckoutMethod.remote = inl refl
CheckoutMethod-cases CheckoutMethod.reception = inr refl

scan_staff-cases :
    (extract : String → String) (dto : CheckOutSubmit) (db : Db)
    → ((e : HttpError) × (scan_staff extract dto db ≡ (err e, db)))
      ⊎ ((scan : Option StaffScan) × (scan_staff extract dto db ≡ (ok scan, db)))
unfolding scan_staff resolve_staff_qr
scan_staff-cases extract dto db = elim (CheckoutMethod-cases dto.method) [
  | inl remotely ↦ inr (none, ground arith)
  | inr there ↦ elim (Option-cases dto.staff_qr_code) [
    | inl missing ↦ inl (bad_request "Scan a staff QR code to check out at reception", ground arith)
    | inr (raw, given) ↦ elim (Bool-cases (is_blank (trim raw))) [
      | inl blank ↦ inl (bad_request "Scan a staff QR code to check out at reception", ground arith)
      | inr filled ↦ elim (Option-cases (find? (λ q. same_text q.code (extract raw)) db.qr_codes)) [
        | inl unknown ↦ inl (bad_request "Unknown or inactive staff QR code", ground arith)
        | inr (q, found) ↦ elim (Bool-cases q.is_active) [
          | inr inactive ↦ inl (bad_request "Unknown or inactive staff QR code", ground arith)
          | inl active ↦ elim (Bool-cases (is_staff q.target)) [
            | inr elsewhere ↦ inl (bad_request "Please scan a staff QR code", ground arith)
            | inl staffed ↦ inr (
              some (record { code = q.code; staff_name = shown_name q.staff_name }),
              ground arith,
            )
          ]
        ]
      ]
    ]
  ]
]

-- What a submitted check-out comes to: an error and no change, or the booking, which was checked
-- in, on which the token may act and which owes nothing unless a payment method is chosen, checked
-- out at `now`, and the other tables as they were.
pub CheckOutOutcome : ℕ → ℕ → Mode → CheckOutSubmit → Db → Result (Unit {0}) × Db → Type 0
CheckOutOutcome now sub mode dto db r =
    ((e : HttpError) × (r ≡ (err e, db)))
    ⊎ ((b : Booking) × (scan : Option StaffScan) × (r
          ≡ (ok tt, write_booking dto.booking_id (checked_out_by now dto scan) db))
        × (booking_at dto.booking_id db ≡ some b)
        × (is_checked_in b.status ≡ true)
        × (may_act mode sub b ≡ true)
        × ((outstanding b ≡ 0) ⊎ (is_some dto.payment_method ≡ true)))

check_check_out-cases :
    (sub : ℕ) (mode : Mode) (dto : CheckOutSubmit) (db : Db)
    → ((e : HttpError) × (check_check_out sub mode dto db ≡ (err e, db)))
      ⊎ ((b : Booking) × (check_check_out sub mode dto db ≡ (ok b, db))
          × (booking_at dto.booking_id db ≡ some b)
          × (is_checked_in b.status ≡ true)
          × (may_act mode sub b ≡ true)
          × ((outstanding b ≡ 0) ⊎ (is_some dto.payment_method ≡ true)))
unfolding check_check_out
check_check_out-cases sub mode dto db = elim (Option-cases (booking_at dto.booking_id db)) [
  | inl missing ↦ inl (not_found "Booking not found", ground arith)
  | inr (b, found) ↦ elim (Bool-cases (is_checked_in b.status)) [
    | inr away ↦ inl (bad_request "This booking is not currently checked in", ground arith)
    | inl present ↦ elim (Bool-cases (may_act mode sub b)) [
      | inr stranger ↦ inl (unauthorized "Token cannot act on this booking", ground arith)
      | inl allowed ↦ elim (Bool-cases (is_some dto.payment_method)) [
        | inl chosen ↦ inr (b, ground arith, found, present, allowed, inr chosen)
        | inr unchosen ↦ elim (Bool-cases (ltb 0 (outstanding b))) [
          | inl owes ↦ inl (
            bad_request "Choose how you would like to settle the outstanding balance",
            ground arith,
          )
          | inr settled ↦ inr (b, ground arith, found, present, allowed, inl (ground arith))
        ]
      ]
    ]
  ]
]

-- Every submit is refused and changes nothing, or the booking was checked in, the token may act on it,
-- it owes nothing unless a payment method is chosen, and it is checked out, alone of all rows.
pub check_out_submit-CheckOutOutcome :
    (extract : String → String) (now sub : ℕ) (mode : Mode) (dto : CheckOutSubmit) (db : Db)
    → CheckOutOutcome now sub mode dto db (check_out_submit extract now sub mode dto db)
unfolding check_out_submit CheckOutOutcome update_booking
check_out_submit-CheckOutOutcome extract now sub mode dto db = elim (Bool-cases dto.confirmed) [
  | inr unconfirmed ↦
      inl (bad_request "Checkout confirmation checkbox must be ticked", ground arith)
  | inl ticked ↦
      elim (Bool-cases (is_remote dto.method && not (is_filled dto.key_location_photo_url))) [
        | inl unseen ↦ inl (
          bad_request "A photo of where you left the room key is required for remote check-out",
          ground arith,
        )
        | inr seen ↦ elim (scan_staff-cases extract dto db) [
          | inl (e, refused) ↦ inl (e, ground arith)
          | inr (scan, scanned) ↦ elim (check_check_out-cases sub mode dto db) [
            | inl (e, refused) ↦ inl (e, ground arith)
            | inr (b, checked, found, present, allowed, paid) ↦
                inr (b, scan, ground arith, found, present, allowed, paid)
          ]
        ]
      ]
]
