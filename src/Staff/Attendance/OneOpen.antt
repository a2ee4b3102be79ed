-- ===== src/Staff/Attendance/OneOpen.antt =====
-- The open punches of a member of staff, under `clockIn` and `clockOut`.
use msk_back.Base.{
  ℕ, ◌+◌, ◌≤◌, String, ◌≡◌, refl, sym, subst, inl, inr, false, Option, List, [], ◌∷◌, ◌++◌, arith,
  ◌==◌, if◌then◌else◌, ==_iff, Bool-cases, Option-cases, length, filter, any, update_where,
}
use msk_back.Staff.Attendance.{
  Geo, Punch, is_open_of, new_punch, clock_in, current, close, clock_out,
}

unfoldable pub open_count : ℕ → List Punch → ℕ
open_count user_id ps = length (filter (is_open_of user_id) ps)

-- Every user has at most one open punch.
unfoldable pub OneOpen : List Punch → Type 0
OneOpen ps = (user_id : ℕ) → open_count user_id ps ≤ 1

none_open :
    (user_id : ℕ) (ps : List Punch)
    → any (is_open_of user_id) ps ≡ false
    → open_count user_id ps ≡ 0
unfolding open_count
none_open user_id [] h = refl
none_open user_id (p ∷ ps) h = ground (arith, none_open user_id ps)

open_count-append :
    (user_id : ℕ) (ps : List Punch) (p : Punch)
    → open_count user_id (ps ++ p ∷ [])
      ≡ open_count user_id ps + (if is_open_of user_id p then 1 else 0)
unfolding open_count
open_count-append user_id [] p = elim (Bool-cases (is_open_of user_id p)) [
  | inl mine ↦ ground arith
  | inr other' ↦ ground arith
]
open_count-append user_id (q ∷ ps) p = elim (Bool-cases (is_open_of user_id q)) [
  | inl mine ↦ ground (arith, open_count-append user_id ps p)
  | inr other' ↦ ground (arith, open_count-append user_id ps p)
]

-- Where each user has at most one open punch, a clock-in, refused or not, leaves it so.
clock_in-OneOpen :
    (now id user_id : ℕ) (geo : Geo) (ps : List Punch)
    → OneOpen ps
    → OneOpen (clock_in now id user_id geo ps).1
unfolding OneOpen clock_in new_punch
clock_in-OneOpen now id user_id geo ps h u = elim (Bool-cases (any (is_open_of user_id) ps)) [
  | inl already ↦
      let same : (clock_in now id user_id geo ps).1 ≡ ps = ground arith in
      subst (λ qs. open_count u qs ≤ 1) (sym same) (h u)
  | inr free ↦
      let same : (clock_in now id user_id geo ps).1 ≡ ps ++ new_punch now id user_id geo ∷ [] =
        ground arith in
      subst (λ qs. open_count u qs ≤ 1) (sym same)
        (elim (Bool-cases (user_id == u)) [
          | inl mine ↦
              let e : user_id ≡ u = (==_iff user_id u).0 mine in
              let empty : open_count u ps ≡ 0 = none_open u ps (rw (sym e) free) in
              ground (arith, open_count-append u ps (new_punch now id user_id geo))
          | inr theirs ↦ ground (arith, h u, open_count-append u ps (new_punch now id user_id geo))
        ])
]

-- Closing a punch opens none.
closed :
    (now id u : ℕ) (remark : Option String) (geo : Geo) (ps : List Punch)
    → open_count u (update_where (λ q. q.id == id) (close now remark geo) ps) ≤ open_count u ps
unfolding open_count close
closed now id u remark geo [] = ground arith
closed now id u remark geo (p ∷ ps) = elim (Bool-cases (is_open_of u p)) [
  | inl mine ↦ elim (Bool-cases (p.id == id)) [
    | inl hit ↦ ground (arith, closed now id u remark geo ps)
    | inr miss ↦ ground (arith, closed now id u remark geo ps)
  ]
  | inr other' ↦ elim (Bool-cases (p.id == id)) [
    | inl hit ↦ ground (arith, closed now id u remark geo ps)
    | inr miss ↦ ground (arith, closed now id u remark geo ps)
  ]
]

-- Where each user has at most one open punch, a clock-out, refused or not, leaves it so.
clock_out-OneOpen :
    (now user_id : ℕ) (remark : Option String) (geo : Geo) (ps : List Punch)
    → OneOpen ps
    → OneOpen (clock_out now user_id remark geo ps).1
unfolding OneOpen clock_out
clock_out-OneOpen now user_id remark geo ps h u = elim (Option-cases (current user_id ps)) [
  | inl missing ↦
      let same : (clock_out now user_id remark geo ps).1 ≡ ps = ground arith in
      subst (λ qs. open_count u qs ≤ 1) (sym same) (h u)
  | inr (p, found) ↦
      let same : (clock_out now user_id remark geo ps).1
          ≡ update_where (λ q. q.id == p.id) (close now remark geo) ps =
        ground arith in
      subst (λ qs. open_count u qs ≤ 1) (sym same)
        (ground (arith, h u, closed now p.id u remark geo ps))
]

-- A punch of one of the staff, accepted or refused.
pub data Step : List Punch → List Punch → Type 0 where
  punches_in :
      (now id user_id : ℕ) (geo : Geo) (ps : List Punch)
      → Step ps (clock_in now id user_id geo ps).1
  punches_out :
      (now user_id : ℕ) (remark : Option String) (geo : Geo) (ps : List Punch)
      → Step ps (clock_out now user_id remark geo ps).1

pub data Reachable : List Punch → Type 0 where
  unpunched : Reachable []
  then_punch : (ps qs : List Punch) → Reachable ps → Step ps qs → Reachable qs

step-OneOpen : (ps qs : List Punch) → Step ps qs → OneOpen ps → OneOpen qs
step-OneOpen _ _ (punches_in now id user_id geo ps) h = clock_in-OneOpen now id user_id geo ps h
step-OneOpen _ _ (punches_out now user_id remark geo ps) h =
    clock_out-OneOpen now user_id remark geo ps h

-- In every table that clock-ins and clock-outs of any users reach from the empty one, accepted or
-- refused and in any order, each user has at most one open punch.
pub Reachable-OneOpen : (ps : List Punch) → Reachable ps → OneOpen ps
unfolding OneOpen open_count
Reachable-OneOpen ps unpunched = λ u. omega arith
Reachable-OneOpen ps (then_punch before after r step) =
    step-OneOpen before after step (Reachable-OneOpen before r)
