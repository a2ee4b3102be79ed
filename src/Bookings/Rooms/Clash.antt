-- ===== src/Bookings/Rooms/Clash.antt =====
-- Bookings that clash, and the update of one row of a table without clashes.
use msk_back.Base.{
  ℕ, ◌≡◌, ◌∙◌, inl, inr, Bool, true, false, not, ◌&&◌, none, some, List, arith, ltb, ◌==◌,
  if◌then◌else◌, opt_eq, is_some, Bool-cases, All, find?, any, update_where, find?_sound, any_none,
  All-of, All-map, All-updated, In, All-intro, In-find?,
}
use msk_back.Bookings.Tables.{Booking}
use msk_back.Bookings.Rooms.{is_conflict, is_active}

-- Two different bookings that are active, on one room, in windows that overlap.
unfoldable pub clash : Booking → Booking → Bool
clash a b =
    not (a.id == b.id)
    && is_active a.status
    && is_active b.status
    && is_some a.room_id
    && opt_eq a.room_id b.room_id
    && ltb a.check_in b.check_out
    && ltb b.check_in a.check_out

-- No two bookings of the table clash.
abbrev pub NoClash : List Booking → Type 0
NoClash bs = All (λ a. All (λ b. clash a b ≡ false) bs) bs

clash_sym : (a b : Booking) → clash a b ≡ clash b a
unfolding clash
clash_sym a b = ground arith

clash_self : (a : Booking) → clash a a ≡ false
unfolding clash
clash_self a = ground arith

-- The id is the primary key.
abbrev pub IsKeyed : List Booking → Type 0
IsKeyed bs = All (λ a. All (λ b. (a.id == b.id) ≡ true → a ≡ b) bs) bs

-- No row of the table but those of the id clashes with the booking.
abbrev pub ClashesWithNone : ℕ → Booking → List Booking → Type 0
ClashesWithNone id a bs = All (λ b. (b.id == id) ≡ false → clash a b ≡ false) bs

module _ (id : ℕ) (f : Booking → Booking) (bs : List Booking) (b₀ : Booking) (keyed : IsKeyed bs)
    (found : find? (λ b. b.id == id) bs ≡ some b₀) (same_id : (f b₀).id ≡ b₀.id) where
  abbrev written : Booking → Booking
  written b = if b.id == id then f b else b

  found_id : (b₀.id == id) ≡ true
  found_id = find?_sound (λ b. b.id == id) bs b₀ found

  only_one : (a : Booking) → In a bs → (a.id == id) ≡ true → a ≡ b₀
  only_one a i e =
      In-find? _ bs b₀ found (λ b. (a.id == b.id) ≡ true → a ≡ b)
        (i (λ a. All (λ b. (a.id == b.id) ≡ true → a ≡ b) bs) keyed)
        (let h = found_id in ground arith)

  -- Where the booking written clashes with no other row, no two rows clash afterwards.
  pub update-NoClash :
      NoClash bs → ClashesWithNone id (f b₀) bs → NoClash (update_where (λ b. b.id == id) f bs)
  update-NoClash h k =
      All-updated _ _ f bs
        (All-intro _ bs (λ a i. All-updated _ _ f bs (All-intro _ bs (λ b j. pair a b i j))))
    where
      apart_self : clash (f b₀) (f b₀) ≡ false
      apart_self = clash_self (f b₀)

      pair : (a b : Booking) → In a bs → In b bs → clash (written a) (written b) ≡ false
      pair a b i j = elim (Bool-cases (a.id == id)) [
        | inl a_is ↦ elim (Bool-cases (b.id == id)) [
          | inl b_is ↦ rw (a_is, b_is, only_one a i a_is, only_one b j b_is) apart_self
          | inr b_not ↦ rw (a_is, b_not, only_one a i a_is) (j _ k b_not)
        ]
        | inr a_not ↦ elim (Bool-cases (b.id == id)) [
          | inl b_is ↦ rw (a_not, b_is, only_one b j b_is) (clash_sym a (f b₀) ∙ i _ k a_not)
          | inr b_not ↦ rw (a_not, b_not) (j _ (i (λ x. All (λ y. clash x y ≡ false) bs) h))
        ]
      ]

-- A window with no conflict on the room clashes with no other booking.
pub no_conflict :
    (id room_id : ℕ) (a : Booking) (bs : List Booking)
    → a.room_id ≡ some room_id
    → any (is_conflict id room_id a.check_in a.check_out) bs ≡ false
    → ClashesWithNone id a bs
unfolding clash is_conflict
no_conflict id room_id a bs e h =
    All-map (λ b. is_conflict id room_id a.check_in a.check_out b ≡ false) _ bs
      (λ b c other. ground arith) (any_none _ bs h)

pub no_room :
    (id : ℕ) (a : Booking) (bs : List Booking) → a.room_id ≡ none → ClashesWithNone id a bs
unfolding clash
no_room id a bs e = All-of_any bs
  where
    All-of_any : (xs : List Booking) → ClashesWithNone id a xs
    All-of_any xs = All-of _ (λ b other. ground arith) xs
