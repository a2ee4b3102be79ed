-- ===== src/Bookings/CheckIn/Once.antt =====
-- What a submit of the check-in wizard leaves, and the submits after it.
use msk_back.Base.{
  ℕ, ◌≡◌, refl, sym, ap, subst, ◌∙◌, ◌⊎◌, inl, inr, Bool, true, false, not, ◌&&◌, Option, none,
  some, List, [], ◌∷◌, ◌++◌, arith, ◌==◌, get_or, or_else, Bool-cases, Option-cases, find?,
  delete_where,
}
use msk_back.Base.Action.{HttpError, Result, bad_request, not_found, internal_error, ok, err}
use msk_back.Base.Text.{is_blank, is_filled, text_is}
use msk_back.Bookings.Tables.{
  Status, Booking, BookingGuest, User, Event, Db, is_checked_in, booking_at, write_booking,
  update_booking, pending, confirmed, checked_in, checked_out, cancelled, no_show, guest_checked_in,
  guests_added,
}
use msk_back.Bookings.CheckIn.{
  CheckInGuest, CheckInSubmit, SubmitIds, assert_check_in_able, verify_method, is_self,
  check_submit, is_app, new_guest_user, find_or_create_guest, link_guest, other_booker, booked_by,
  submitted, guest_rows, replace_guests, record_if, any_guests, complete_check_in, check_in_submit,
}
use msk_back.Bookings.Lifecycle.Releases.{booking_at-write}

-- The accounts are as they were, or the new account of a guest is added to them.
abbrev pub MayAdd : List User → List User → Type 0
MayAdd before after =
    (after ≡ before) ⊎ ((u : User) × (is_app u.account_kind ≡ true) × (after ≡ before ++ u ∷ []))

-- The link is refused and changes nothing, or it changes no table but that of the accounts.
link_guest-cases :
    (new : SubmitIds) (dto : CheckInSubmit) (b : Booking) (db : Db)
    → ((e : HttpError) × (link_guest new dto b db ≡ (err e, db)))
      ⊎ ((g : Option ℕ) × (us : List User) × (link_guest new dto b db
            ≡ (ok g, record db { users = us }))
          × MayAdd db.users us)
unfolding link_guest find_or_create_guest
link_guest-cases new dto b db = elim (Option-cases b.guest_user_id) [
  | inr (u, linked) ↦ inr (some u, db.users, ground arith, inl refl)
  | inl free ↦ elim (Option-cases (or_else dto.email b.guest_email)) [
    | inl unknown ↦ inr (none, db.users, ground arith, inl refl)
    | inr (email, given) ↦ elim (Bool-cases (is_blank email)) [
      | inl blank ↦ inr (none, db.users, ground arith, inl refl)
      | inr filled ↦
          elim (Option-cases
            (find? (λ u. is_app u.account_kind && text_is u.email email) db.users)) [
              | inr (u, found) ↦ inr (some u.id, db.users, ground arith, inl refl)
              | inl missing ↦ elim (Option-cases new.user_failure) [
                | inr (m, refused) ↦ inl (internal_error m, ground arith)
                | inl fine ↦ inr (
                  some new.user,
                  db.users ++ new_guest_user new.user dto b email ∷ [],
                  ground arith,
                  inr (new_guest_user new.user dto b email, refl, refl),
                )
              ]
            ]
    ]
  ]
]

booked_by-ok : (dto : CheckInSubmit) (db : Db) → (g : Option ℕ) × (booked_by dto db ≡ (ok g, db))
unfolding booked_by
booked_by-ok dto db = elim (Bool-cases (get_or dto.is_behalf_booking false)) [
  | inr own ↦ (none, ground arith)
  | inl behalf ↦ elim (Option-cases (other_booker dto)) [
    | inl nobody ↦ (none, ground arith)
    | inr (email, given) ↦ (
      elim (find? (λ u. text_is u.email email) db.users) [ none ↦ none | some u ↦ some u.id ],
      ground arith,
    )
  ]
]

-- What a completed check-in leaves: the booking as submitted, and the calendar as it was.
pub record Completed (now id : ℕ) (dto : CheckInSubmit) (b b' : Booking) (db db' : Db)
    : Type 0 where
  guest_user : Option ℕ
  booker : Option ℕ
  written :
      booking_at id db'
      ≡ some (submitted now dto guest_user booker (not (is_checked_in b.status)) b)
  returned : b' ≡ submitted now dto guest_user booker (not (is_checked_in b.status)) b
  same_entries : db'.entries ≡ db.entries
  same_blocks : db'.blocks ≡ db.blocks

replace_guests-ok :
    (id : ℕ) (new : ℕ → ℕ) (gs : List CheckInGuest) (db : Db)
    → (rows : List BookingGuest) × (replace_guests id new gs db
        ≡ (ok tt, record db { guests = rows }))
unfolding replace_guests
replace_guests-ok id new [] db = (db.guests, refl)
replace_guests-ok id new (g ∷ gs) db =
    (delete_where (λ r. r.booking_id == id) db.guests ++ guest_rows id new (g ∷ gs), refl)

record_if-ok :
    (c : Bool) (id : ℕ) (event : Event) (db : Db)
    → (es : List (ℕ × Event)) × (record_if c id event db ≡ (ok tt, record db { activity = es }))
record_if-ok true id event db = (db.activity ++ (id, event) ∷ [], refl)
record_if-ok false id event db = (db.activity, refl)

complete_check_in-cases :
    (now : ℕ) (new : SubmitIds) (id : ℕ) (dto : CheckInSubmit) (b : Booking) (db : Db)
    → booking_at id db ≡ some b
    → ((e : HttpError) × (us : List User) × (complete_check_in now new id dto b db
          ≡ (err e, record db { users = us }))
        × MayAdd db.users us)
      ⊎ ((b' : Booking) × (db' : Db) × (complete_check_in now new id dto b db ≡ (ok b', db'))
          × Completed now id dto b b' db db')
unfolding complete_check_in update_booking submitted
complete_check_in-cases now new id dto b db found = elim (link_guest-cases new dto b db) [
  | inl (e, refused) ↦ inl (e, db.users, ground arith, inl refl)
  | inr (guest_user, users, linked, added) ↦
      let (booker, booked) = booked_by-ok dto (record db { users = users }) in
      elim (Option-cases new.failure) [
        | inr (m, failed) ↦ inl (internal_error m, users, ground (arith, linked, booked), added)
        | inl fine ↦
            let flips = not (is_checked_in b.status) in
            let f = submitted now dto guest_user booker flips in
            let db₁ = write_booking id f (record db { users = users }) in
            let (rows, replaced) = replace_guests-ok id new.guest dto.guests db₁ in
            let db₂ : Db = record db₁ { guests = rows } in
            let (es, recorded) = record_if-ok flips id guest_checked_in db₂ in
            let db₃ : Db = record db₂ { activity = es } in
            let (es', recorded') = record_if-ok (any_guests dto.guests) id guests_added db₃ in
            let db₄ : Db = record db₃ { activity = es' } in
            let same_id : (x : Booking) → (f x).id ≡ x.id = λ x. refl in
            inr (
              f b,
              db₄,
              ground (
                arith,
                linked,
                booked,
                replaced,
                recorded,
                recorded',
                booking_at-write id f db.bookings same_id,
              ),
              record {
                guest_user = guest_user;
                booker = booker;
                written = ground (arith, booking_at-write id f db.bookings same_id);
                returned = refl;
                same_entries = refl;
                same_blocks = refl;
              },
            )
      ]
]

-- `assertCheckInAble` lets these two pass.
abbrev pub is_check_in_able : Status → Bool
is_check_in_able pending = true
is_check_in_able confirmed = true
is_check_in_able _ = false

-- What a submit comes to: an error, and no change but that a new account of the guest may stay; or
-- the booking, which was pending or confirmed, checked in at `now`, and the calendar and the blocks as
-- they were.
pub CheckInOutcome : ℕ → ℕ → Db → Result Booking × Db → Type 0
CheckInOutcome now id db r =
    ((e : HttpError) × (us : List User) × (r ≡ (err e, record db { users = us }))
      × MayAdd db.users us)
    ⊎ ((b : Booking) × (b' : Booking) × (db' : Db) × (r ≡ (ok b', db'))
        × (booking_at id db ≡ some b)
        × (is_check_in_able b.status ≡ true)
        × (booking_at id db' ≡ some b')
        × (b'.status ≡ checked_in)
        × (b'.checked_in_at ≡ some now)
        × (db'.entries ≡ db.entries)
        × (db'.blocks ≡ db.blocks))

submitted-checked_in :
    (now : ℕ) (dto : CheckInSubmit) (u v : Option ℕ) (b : Booking)
    → is_check_in_able b.status ≡ true
    → ((submitted now dto u v (not (is_checked_in b.status)) b).status ≡ checked_in)
      × ((submitted now dto u v (not (is_checked_in b.status)) b).checked_in_at ≡ some now)
unfolding submitted
submitted-checked_in now dto u v b able = (ground arith, ground arith)

check_submit-cases :
    (dto : CheckInSubmit) (db : Db)
    → ((e : HttpError) × (check_submit dto db ≡ (err e, db))) ⊎ (check_submit dto db ≡ (ok tt, db))
unfolding check_submit
check_submit-cases dto db = elim (Bool-cases dto.accepted_terms) [
  | inr refused ↦ inl (bad_request "Terms must be accepted", ground arith)
  | inl terms ↦ elim (Bool-cases dto.accepted_privacy) [
    | inr refused ↦ inl (bad_request "Privacy notice must be acknowledged", ground arith)
    | inl privacy ↦ elim (Bool-cases dto.confirmed_accurate) [
      | inr refused ↦ inl (bad_request "Please confirm the information is accurate", ground arith)
      | inl accurate ↦ elim (Bool-cases (is_self (verify_method dto) && not dto.identity_consent)) [
        | inl refused ↦ inl (bad_request "Identity verification consent is required", ground arith)
        | inr consent ↦
            elim (Bool-cases (
              is_self (verify_method dto)
              && not (is_filled dto.id_document_url && is_filled dto.selfie_url))) [
                | inl refused ↦
                    inl (bad_request "Please upload an ID document and a live selfie", ground arith)
                | inr uploaded ↦ inr (ground arith)
              ]
      ]
    ]
  ]
]

assert_check_in_able-cases :
    (s : Status) (db : Db)
    → ((e : HttpError) × (assert_check_in_able s db ≡ (err e, db)) × (is_check_in_able s ≡ false))
      ⊎ ((assert_check_in_able s db ≡ (ok tt, db)) × (is_check_in_able s ≡ true))
unfolding assert_check_in_able
assert_check_in_able-cases pending db = inr (refl, refl)
assert_check_in_able-cases confirmed db = inr (refl, refl)
assert_check_in_able-cases checked_in db =
    inl (bad_request "You're already checked in for this reservation.", refl, refl)
assert_check_in_able-cases checked_out db =
    inl (bad_request "This stay has already ended.", refl, refl)
assert_check_in_able-cases cancelled db =
    inl (bad_request "This reservation was cancelled.", refl, refl)
assert_check_in_able-cases no_show db = inl (bad_request "This reservation is closed.", refl, refl)

pub check_in_submit-CheckInOutcome :
    (now : ℕ) (new : SubmitIds) (id : ℕ) (dto : CheckInSubmit) (db : Db)
    → CheckInOutcome now id db (check_in_submit now new id dto db)
unfolding check_in_submit CheckInOutcome
check_in_submit-CheckInOutcome now new id dto db = elim (check_submit-cases dto db) [
  | inl (e, refused) ↦ inl (e, db.users, ground arith, inl refl)
  | inr passed ↦ elim (Option-cases (booking_at id db)) [
    | inl missing ↦ inl (not_found "Booking not found", db.users, ground arith, inl refl)
    | inr (b, found) ↦ elim (assert_check_in_able-cases b.status db) [
      | inl (e, refused, shut) ↦ inl (e, db.users, ground arith, inl refl)
      | inr (passed', able) ↦ elim (complete_check_in-cases now new id dto b db found) [
        | inl (e, us, failed, added) ↦ inl (e, us, ground (arith, failed), added)
        | inr (b', db', run, c) ↦ inr (
          b,
          b',
          db',
          ground (arith, run),
          found,
          able,
          rw c.returned c.written,
          rw c.returned (submitted-checked_in now dto c.guest_user c.booker b able).0,
          rw c.returned (submitted-checked_in now dto c.guest_user c.booker b able).1,
          c.same_entries,
          c.same_blocks,
        )
      ]
    ]
  ]
]

-- A booking that is not pending or confirmed is refused before anything is written.
check_in_submit-shut :
    (now : ℕ) (new : SubmitIds) (id : ℕ) (dto : CheckInSubmit) (db : Db) (b : Booking)
    → booking_at id db ≡ some b
    → is_check_in_able b.status ≡ false
    → (e : HttpError) × (check_in_submit now new id dto db ≡ (err e, db))
unfolding check_in_submit
check_in_submit-shut now new id dto db b found shut = elim (check_submit-cases dto db) [
  | inl (e, refused) ↦ (e, ground arith)
  | inr passed ↦ elim (assert_check_in_able-cases b.status db) [
    | inl (e, refused, shut') ↦ (e, ground arith)
    | inr (passed', able) ↦ ground arith
  ]
]

-- After a submit that completed, every submit for the booking is refused and changes nothing.
pub check_in_submit-once :
    (now now' : ℕ) (new new' : SubmitIds) (id : ℕ) (dto dto' : CheckInSubmit) (db db' : Db)
    (b : Booking)
    → check_in_submit now new id dto db ≡ (ok b, db')
    → (e : HttpError) × (check_in_submit now' new' id dto' db' ≡ (err e, db'))
unfolding CheckInOutcome
check_in_submit-once now now' new new' id dto dto' db db' b done =
    elim (check_in_submit-CheckInOutcome now new id dto db) [
      | inl (e, us, refused, added) ↦ cc
      | inr (b₁, b₂, db₂, run, found, able, found', shut, at, es, bs) ↦
          let same : db₂ ≡ db' = ap (λ r. r.1) (sym run ∙ done) in
          check_in_submit-shut now' new' id dto' db' b₂
            (subst (λ d. booking_at id d ≡ some b₂) same found') (ground arith)
    ]
