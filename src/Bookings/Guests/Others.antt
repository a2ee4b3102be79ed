-- ===== src/Bookings/Guests/Others.antt =====
-- What a guest's requests on the guests of a stay leave alone: the guests of every booking that is not
-- the caller's, and the primary ones.
use msk_back.Base.{
  ℕ, suc, String, ◌≡◌, refl, sym, ap, ◌∙◌, ◌⊎◌, inl, inr, Bool, true, false, not, ◌&&◌, ◌||◌,
  Option, none, some, List, [], ◌∷◌, map, arith, ◌==◌, ==_iff, ==_refl, Bool-cases, Option-cases,
  find?, filter, any, delete_where, find?_sound, any-find?, delete_where-none, filter-append_out,
}
use msk_back.Base.Action.{HttpError, not_found, ok, err}
use msk_back.Base.Text.{is_blank, trim}
use msk_back.Bookings.Tables.{Status, Booking, BookingGuest, Db, is_checked_in}
use msk_back.Bookings.Guests.{
  column_is, Caller, is_upcoming, is_checked_out, checks_in_before, is_later, first_by, distinct,
  invited_guest, StayGuestInput, added_guest, insert_guest, is_guest_booking, current_stay,
  owned_stay, stay_for, invite_each, add_stay_guest, remove_stay_guest, invite_stay_guests,
}

-- The requests that write guests.
pub data GuestOp : Type 0 where
  add : ℕ → StayGuestInput → GuestOp
  invite : ℕ → List String → Option ℕ → GuestOp
  remove : ℕ → GuestOp

-- No two rows have one id: the primary key.
unfoldable pub HasKey : List BookingGuest → Type 0
HasKey [] = Unit
HasKey (g ∷ gs) = (any (λ x. x.id == g.id) gs ≡ false) × HasKey gs

module _ (before : Booking → Booking → Bool) (p q : Booking → Bool) where
  -- A row that `findFirst` gives meets its condition, and is one of the table.
  first_by-filter :
      (bs : List Booking) (b : Booking)
      → first_by before (filter p bs) ≡ some b
      → (p b ≡ true) × (q b ≡ true → any q bs ≡ true)
  unfolding first_by
  first_by-filter [] b e = cc
  first_by-filter (x ∷ bs) b e = elim (Bool-cases (p x)) [
    | inr out ↦
        let (own, there) = first_by-filter bs b (ground arith) in
        (own, λ h. ground (arith, there h))
    | inl in' ↦ elim (Option-cases (first_by before (filter p bs))) [
      | inl last ↦ let same : x ≡ b = ground arith in (cc, λ h. ground (arith, ap q same))
      | inr (c, rest) ↦
          let (own, there) = first_by-filter bs c rest in
          elim (Bool-cases (before c x)) [
            | inl loses ↦
                let same : c ≡ b = ground arith in
                (cc, λ h. let h' : q c ≡ true = ap q same ∙ h in ground (arith, there h'))
            | inr wins ↦ let same : x ≡ b = ground arith in (cc, λ h. ground (arith, ap q same))
          ]
    ]
  ]

delete-filter :
    (p : BookingGuest → Bool) (id : ℕ) (gs : List BookingGuest) (g : BookingGuest)
    → HasKey gs
    → find? (λ x. x.id == id) gs ≡ some g
    → p g ≡ false
    → filter p (delete_where (λ x. x.id == id) gs) ≡ filter p gs
unfolding HasKey
delete-filter p id [] g key found out = refl
delete-filter p id (x ∷ gs) g key found out = elim (Bool-cases (x.id == id)) [
  | inl hit ↦
      let same : x ≡ g = ground arith in
      let one : x.id ≡ id = (==_iff x.id id).0 hit in
      let gone : any (λ y. y.id == id) gs ≡ false =
        ap (λ k. any (λ y. y.id == k) gs) (sym one) ∙ key.0 in
      ground (arith, ap p same, ap (filter p) (delete_where-none (λ y. y.id == id) gs gone))
  | inr miss ↦ elim (Bool-cases (p x)) [
    | inl kept ↦ ground (arith, delete-filter p id gs g key.1)
    | inr dropped ↦ ground (arith, delete-filter p id gs g key.1)
  ]
]

module _ (same_uncased : String → String → Bool) where
  -- A booking of the table with this id that is the caller's.
  unfoldable pub is_own : Caller → Db → ℕ → Bool
  is_own caller db id =
      any (λ b. b.id == id && is_guest_booking same_uncased caller db b) db.bookings

  -- A guest that the caller's requests must not touch.
  unfoldable pub is_kept : Caller → Db → BookingGuest → Bool
  is_kept caller db g = g.is_primary || not (is_own caller db g.booking_id)

  first-own :
      (before : Booking → Booking → Bool) (s : Status → Bool) (caller : Caller) (db : Db)
      (b : Booking)
      → first_by before
          (filter (λ c. is_guest_booking same_uncased caller db c && s c.status) db.bookings)
        ≡ some b
      → is_own caller db b.id ≡ true
  unfolding is_own
  first-own before s caller db b e =
      let p : Booking → Bool = λ c. is_guest_booking same_uncased caller db c && s c.status in
      let q : Booking → Bool = λ c. c.id == b.id && is_guest_booking same_uncased caller db c in
      let (own, there) = first_by-filter before p q db.bookings b e in
      there (ground (arith, ==_refl b.id))

  current_stay-own :
      (caller : Caller) (db : Db) (b : Booking)
      → current_stay same_uncased caller db ≡ some b
      → is_own caller db b.id ≡ true
  unfolding current_stay
  current_stay-own caller db b e =
      let checked_in_first : Booking → Booking → Bool =
        λ b c. is_later b.checked_in_at c.checked_in_at in
      let left_last : Booking → Booking → Bool =
        λ b c. is_later b.checked_out_at c.checked_out_at in
      let own : Booking → Bool = is_guest_booking same_uncased caller db in
      elim (Option-cases
        (first_by checked_in_first (filter (λ c. own c && is_checked_in c.status) db.bookings))) [
          | inr (c, here) ↦
              first-own checked_in_first is_checked_in caller db b (here ∙ ground arith)
          | inl none_in ↦
              elim (Option-cases (
                first_by checks_in_before
                  (filter (λ c. own c && is_upcoming c.status) db.bookings))) [
                    | inr (c, here) ↦
                        first-own checks_in_before is_upcoming caller db b (here ∙ ground arith)
                    | inl none_next ↦ first-own left_last is_checked_out caller db b (ground arith)
                  ]
        ]

  owned_stay-own :
      (caller : Caller) (id : ℕ) (db : Db)
      → ((e : HttpError) × (owned_stay same_uncased caller id db ≡ (err e, db)))
        ⊎ ((b : Booking) × (owned_stay same_uncased caller id db ≡ (ok b, db))
            × (is_own caller db b.id ≡ true))
  unfolding owned_stay is_own
  owned_stay-own caller id db =
      let p : Booking → Bool = λ b. b.id == id && is_guest_booking same_uncased caller db b in
      elim (Option-cases (find? p db.bookings)) [
        | inl missing ↦ inl (not_found "Reservation not found", ground arith)
        | inr (b, found) ↦
            let hit : p b ≡ true = find?_sound p db.bookings b found in
            let same : b.id ≡ id = (==_iff b.id id).0 (ground arith) in
            inr (
              b,
              ground arith,
              ap
                    (λ k.
                      any (λ c. c.id == k && is_guest_booking same_uncased caller db c) db.bookings)
                    same
                  ∙ any-find? p p db.bookings b found hit,
            )
      ]

  -- The stay of a request reads the tables only, and is the caller's.
  stay_for-own :
      (caller : Caller) (id : Option ℕ) (db : Db)
      → ((e : HttpError) × (stay_for same_uncased caller id db ≡ (err e, db)))
        ⊎ (stay_for same_uncased caller id db ≡ (ok none, db))
        ⊎ ((b : Booking) × (stay_for same_uncased caller id db ≡ (ok (some b), db))
            × (is_own caller db b.id ≡ true))
  unfolding stay_for
  stay_for-own caller none db = elim (Option-cases (current_stay same_uncased caller db)) [
    | inl missing ↦ inr (inl (ground arith))
    | inr (b, found) ↦ inr (inr (b, ground arith, current_stay-own caller db b found))
  ]
  stay_for-own caller (some id) db = elim (owned_stay-own caller id db) [
    | inl (e, refused) ↦ inl (e, ground arith)
    | inr (b, found, own) ↦ inr (inr (b, ground arith, own))
  ]

  invite_each-filter :
      (p : BookingGuest → Bool) (stay_id : ℕ)
      → ((id : ℕ) (dest : String) → p (invited_guest id stay_id dest) ≡ false)
      → (next : ℕ) (emails : List String) (db : Db)
      → filter p (invite_each same_uncased next stay_id emails db).1.guests ≡ filter p db.guests
  unfolding invite_each
  invite_each-filter p stay_id out next [] db = refl
  invite_each-filter p stay_id out next (dest ∷ rest) db =
      let p' : BookingGuest → Bool =
        λ g. g.booking_id == stay_id && column_is same_uncased dest g.email in
      let row : BookingGuest = invited_guest next stay_id dest in
      elim (Bool-cases (any p' db.guests)) [
        | inl there ↦ ground (arith, invite_each-filter p stay_id out next rest db)
        | inr fresh ↦ ground (
          arith,
          invite_each-filter p stay_id out (suc next) rest (insert_guest row db),
          filter-append_out p db.guests row (out next dest),
        )
      ]

  module _ (lower : String → String) where
    unfoldable pub run_op : Caller → GuestOp → Db → Db
    run_op caller (add id input) db = (add_stay_guest same_uncased id caller input db).1
    run_op caller (invite next emails booking_id) db =
        (invite_stay_guests same_uncased lower next caller emails booking_id db).1
    run_op caller (remove guest_id) db = (remove_stay_guest same_uncased caller guest_id db).1

    add-kept :
        (caller : Caller) (id : ℕ) (input : StayGuestInput) (db : Db)
        → filter (is_kept caller db) (run_op caller (add id input) db).guests
          ≡ filter (is_kept caller db) db.guests
    unfolding run_op add_stay_guest is_kept added_guest
    add-kept caller id input db = elim (stay_for-own caller input.booking_id db) [
      | inl (e, refused) ↦ ground arith
      | inr (inl missing) ↦ ground arith
      | inr (inr (b, found, own)) ↦ ground (
        arith,
        filter-append_out (is_kept caller db) db.guests (added_guest id b.id input) (ground arith),
      )
    ]

    invite-kept :
        (caller : Caller) (next : ℕ) (emails : List String) (booking_id : Option ℕ) (db : Db)
        → filter (is_kept caller db) (run_op caller (invite next emails booking_id) db).guests
          ≡ filter (is_kept caller db) db.guests
    unfolding run_op invite_stay_guests is_kept
    invite-kept caller next emails booking_id db = elim (stay_for-own caller booking_id db) [
      | inl (e, refused) ↦ ground arith
      | inr (inl missing) ↦ ground arith
      | inr (inr (b, found, own)) ↦ ground (
        arith,
        invite_each-filter (is_kept caller db) b.id (λ id dest. ground arith) next
            (distinct (filter (λ e. not (is_blank e)) (map (λ e. lower (trim e)) emails))) db,
      )
    ]

    remove-kept :
        (caller : Caller) (guest_id : ℕ) (db : Db)
        → HasKey db.guests
        → filter (is_kept caller db) (run_op caller (remove guest_id) db).guests
          ≡ filter (is_kept caller db) db.guests
    unfolding run_op remove_stay_guest is_kept
    remove-kept caller guest_id db key = elim (Option-cases (current_stay same_uncased caller db)) [
      | inl missing ↦ ground arith
      | inr (b, found) ↦ elim (Option-cases (find? (λ g. g.id == guest_id) db.guests)) [
        | inl none' ↦ ground arith
        | inr (g, there) ↦ elim (Bool-cases (g.booking_id == b.id)) [
          | inr elsewhere ↦ ground arith
          | inl on_stay ↦ elim (Bool-cases g.is_primary) [
            | inl primary ↦ ground arith
            | inr extra ↦
                let same : is_own caller db g.booking_id ≡ is_own caller db b.id =
                  ap (is_own caller db) ((==_iff g.booking_id b.id).0 on_stay) in
                let mine' : is_own caller db b.id ≡ true = current_stay-own caller db b found in
                ground (
                  arith,
                  delete-filter (is_kept caller db) guest_id db.guests g key there (ground arith),
                )
          ]
        ]
      ]
    ]

    -- After a request of a caller to add a guest to a stay, to invite some or to remove one, whatever it
    -- answers, the guests of every booking that is not the caller's, and the primary guest of every
    -- booking, are the same rows in the same order, where no two guests have one id.
    pub run_op-kept :
        (caller : Caller) (op : GuestOp) (db : Db)
        → HasKey db.guests
        → filter (is_kept caller db) (run_op caller op db).guests
          ≡ filter (is_kept caller db) db.guests
    run_op-kept caller (add id input) db key = add-kept caller id input db
    run_op-kept caller (invite next emails booking_id) db key =
        invite-kept caller next emails booking_id db
    run_op-kept caller (remove guest_id) db key = remove-kept caller guest_id db key
