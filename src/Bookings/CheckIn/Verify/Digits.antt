-- ===== src/Bookings/CheckIn/Verify/Digits.antt =====
-- Check-in codes have six digits, and no two bookings share one.
use msk_back.Base.{
  ℕ, zero, suc, ◌+◌, ◌≤◌, ◌<◌, String, ◌≡◌, sym, ap, subst, ◌∙◌, inl, inr, Bool, true, false, ◌&&◌,
  none, some, List, [], ◌∷◌, arith, ltb, leb, ◌==◌, Bool-cases, All, find?, any, update_where,
  any_none,
}
use msk_back.Base.Action.{ok}
use msk_back.Bookings.Tables.{Booking, Db}
use msk_back.Bookings.CheckIn.Codes.{
  has_code, try_codes, set_code, UniqueCodes, try_codes-fresh, UniqueCodes-set,
}
use msk_back.Bookings.CheckIn.Verify.{Desk, Tools, ref_where, check_in_verify}
use msk_back.Bookings.CheckIn.Verify.Stable.{Given, Verified, verify-Verified}

-- Six digits, the first not 0.
abbrev pub IsSixDigits : ℕ → Type 0
IsSixDigits code = (100000 ≤ code) × (code < 1000000)

-- No code, or one of six digits.
abbrev pub has_six_digits : Booking → Bool
has_six_digits b = elim b.check_in_code [
  | none ↦ true
  | some code ↦ leb 100000 code && ltb code 1000000
]

unfoldable pub SixDigits : List Booking → Type 0
SixDigits bs = All (λ b. has_six_digits b ≡ true) bs

try_codes-IsSixDigits :
    (n : ℕ) (draw : ℕ → ℕ) (bs : List Booking) (code : ℕ)
    → ((i : ℕ) → draw i < 900000)
    → try_codes n draw bs ≡ some code
    → IsSixDigits code
unfolding try_codes
try_codes-IsSixDigits zero draw bs code within e = cc
try_codes-IsSixDigits (suc n) draw bs code within e =
    elim (Bool-cases (any (has_code (100000 + draw 0)) bs)) [
      | inl taken ↦
          try_codes-IsSixDigits n (λ i. draw (suc i)) bs code (λ i. within (suc i)) (ground arith)
      | inr free ↦
          let first : draw 0 < 900000 = within 0 in
          let same : 100000 + draw 0 ≡ code = ground arith in (omega arith, omega arith)
    ]

set_code-SixDigits :
    (id code : ℕ) (bs : List Booking)
    → IsSixDigits code
    → SixDigits bs
    → SixDigits (update_where (λ b. b.id == id) (set_code code) bs)
unfolding SixDigits
set_code-SixDigits id code [] six h = tt
set_code-SixDigits id code (b ∷ bs) six h =
    let low : 100000 ≤ code = six.0 in
    let high : code < 1000000 = six.1 in (ground arith, set_code-SixDigits id code bs six h.1)

found-SixDigits :
    (p : Booking → Bool) (bs : List Booking) (b : Booking) (code : ℕ)
    → SixDigits bs
    → find? p bs ≡ some b
    → b.check_in_code ≡ some code
    → IsSixDigits code
unfolding SixDigits
found-SixDigits p [] b code h found has = cc
found-SixDigits p (x ∷ bs) b code h found has = elim (Bool-cases (p x)) [
  | inl hit ↦
      let same : x ≡ b = ground arith in
      let has' : x.check_in_code ≡ some code = ap (λ y. y.check_in_code) same ∙ has in
      let here : has_six_digits x ≡ true = h.0 in (ground arith, ground arith)
  | inr miss ↦ found-SixDigits p bs b code h.1 (ground arith) has
]

module _ (tools : Tools) where
  -- Where every code of the table has six digits, no two bookings of different ids have one code, and
  -- each draw is below 900000, a call that succeeds answers with a code of six digits, and leaves a
  -- table in which every code has six digits and no two bookings of different ids have one code.
  pub check_in_verify-IsSixDigits :
      (draw : ℕ → ℕ) (now : ℕ) (reference last_name otp_code : String) (desk : Desk) (id code : ℕ)
      → ((i : ℕ) → draw i < 900000)
      → SixDigits desk.hotel.bookings
      → UniqueCodes desk.hotel.bookings
      → (check_in_verify tools draw now reference last_name otp_code desk).0 ≡ ok (id, code)
      → let after : List Booking =
          (check_in_verify tools draw now reference last_name otp_code desk).1.hotel.bookings in
        IsSixDigits code × SixDigits after × UniqueCodes after
  unfolding Verified Given
  check_in_verify-IsSixDigits draw now reference last_name otp_code desk id code within six unique
        e =
      let bs : List Booking = desk.hotel.bookings in
      let Kept : Db → Type 0 = λ db. SixDigits db.bookings × UniqueCodes db.bookings in
      let (b, d, found, named, to, own, given) =
        verify-Verified tools draw now reference last_name otp_code desk id code e in
      elim given [
        | inl (has, same) ↦
            let kept : Kept
                (check_in_verify tools draw now reference last_name otp_code desk).1.hotel =
              subst Kept (sym same) (six, unique) in
            (found-SixDigits (ref_where tools reference) bs b code six found has, kept.0, kept.1)
        | inr (bare, drawn, same) ↦
            let digits : IsSixDigits code = try_codes-IsSixDigits 6 draw bs code within drawn in
            let free : any (has_code code) bs ≡ false = try_codes-fresh 6 draw bs code drawn in
            let kept : Kept
                (check_in_verify tools draw now reference last_name otp_code desk).1.hotel =
              subst Kept (sym same) (
                set_code-SixDigits b.id code bs digits six,
                UniqueCodes-set b.id code bs (any_none (has_code code) bs free) unique,
              ) in
            (digits, kept.0, kept.1)
      ]
