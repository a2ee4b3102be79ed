-- ===== src/Dates/Days.antt =====
-- The days that `enumerateDays` lists.
use msk_back.Base.{
  All, All-map, true, ℕ, zero, suc, ◌+◌, ◌-◌, ◌*◌, ◌/◌, ◌<◌, ◌≡◌, refl, ap, ◌&&◌, List, [], ◌∷◌,
  arith, leb, ltb, any, length, Bool-cases, inl, inr, true, false,
}
use msk_back.Dates.{day_ms, same_day, days_from, enumerate_days}

-- The midnights of `n` days from day `k` on.
pub nights_from : ℕ → ℕ → List ℕ
nights_from k zero = []
nights_from k (suc n) = k * day_ms ∷ nights_from (suc k) n

-- Any fuel above the number of days that are left gives the whole range.
days_from_enough :
    (fuel k n m : ℕ)
    → n < fuel
    → m ≡ k + n
    → days_from fuel (k * day_ms) (m * day_ms) ≡ nights_from k n
unfolding days_from nights_from
days_from_enough zero k n m h e = elim h [ ]
days_from_enough (suc fuel) k zero m h e = ground arith
days_from_enough (suc fuel) k (suc n) m h e =
    let next : k * day_ms + day_ms ≡ suc k * day_ms = omega arith in
    ground (arith, next, days_from_enough fuel (suc k) n m (omega arith) (omega arith))

days_from_past : (fuel t end : ℕ) → end < suc t → days_from fuel t end ≡ []
unfolding days_from
days_from_past zero t end h = refl
days_from_past (suc fuel) t end h = ground arith

days_from_midnights :
    (i j : ℕ)
    → days_from ((j * day_ms - i * day_ms) / day_ms + 1) (i * day_ms) (j * day_ms)
      ≡ nights_from i (j - i)
unfolding nights_from
days_from_midnights i j = elim (Bool-cases (leb i j)) [
  | inl forward ↦ days_from_enough _ i (j - i) j (ground arith) (ground arith)
  | inr backward ↦
      let none_left : j - i ≡ 0 = ground arith in
      rw (none_left, days_from_past _ (i * day_ms) (j * day_ms) (ground arith))
]

pub enumerate_days-eq-nights_from :
    (a b : ℕ) → enumerate_days a b ≡ nights_from (a / day_ms) (b / day_ms - a / day_ms)
unfolding enumerate_days nights_from
enumerate_days-eq-nights_from a b = days_from_midnights (a / day_ms) (b / day_ms)

pub length-nights_from : (k n : ℕ) → length (nights_from k n) ≡ n
unfolding nights_from
length-nights_from k zero = refl
length-nights_from k (suc n) = ap suc (length-nights_from (suc k) n)

pub any-nights_from :
    (k n d : ℕ)
    → any (same_day d) (nights_from k n) ≡ (leb k (d / day_ms) && ltb (d / day_ms) (k + n))
unfolding nights_from same_day
any-nights_from k zero d = ground arith
any-nights_from k (suc n) d = ground (arith, any-nights_from (suc k) n d)

-- The length of the list is the number of nights, zero for a stay that does not end later.
pub length-enumerate_days : (a b : ℕ) → length (enumerate_days a b) ≡ b / day_ms - a / day_ms
length-enumerate_days a b =
    rw (enumerate_days-eq-nights_from a b) (length-nights_from (a / day_ms) _)

-- A day is listed exactly when it is not before the day of `from` and before the day of `to`.
pub any-enumerate_days :
    (a b d : ℕ)
    → any (same_day d) (enumerate_days a b)
      ≡ (leb (a / day_ms) (d / day_ms) && ltb (d / day_ms) (b / day_ms))
any-enumerate_days a b d =
    rw (enumerate_days-eq-nights_from a b, any-nights_from (a / day_ms) _ d) (ground arith)

pub same_day_trans : (a b c : ℕ) → same_day b a ≡ true → same_day b c ≡ true → same_day a c ≡ true
unfolding same_day
same_day_trans a b c h k = ground arith

-- No two days of the list are the same day.
abbrev pub Distinct : List ℕ → Type 0
Distinct [] = Unit
Distinct (d ∷ ds) = (any (same_day d) ds ≡ false) × Distinct ds

nights_from-Distinct : (k n : ℕ) → Distinct (nights_from k n)
unfolding nights_from
nights_from-Distinct k zero = tt
nights_from-Distinct k (suc n) =
    (rw (any-nights_from (suc k) n (k * day_ms)) (ground arith), nights_from-Distinct (suc k) n)

pub enumerate_days-Distinct : (a b : ℕ) → Distinct (enumerate_days a b)
enumerate_days-Distinct a b =
    rw (enumerate_days-eq-nights_from a b) (nights_from-Distinct (a / day_ms) _)

pub same_day_refl : (a : ℕ) → same_day a a ≡ true
unfolding same_day
same_day_refl a = ground arith

-- Every day of a list is one of the list.
pub any-same_day_self : (days : List ℕ) → All (λ d. any (same_day d) days ≡ true) days
any-same_day_self [] = tt
any-same_day_self (day ∷ days) = (
  rw (same_day_refl day),
  All-map (λ d. any (same_day d) days ≡ true) (λ d. any (same_day d) (day ∷ days) ≡ true) days
      (λ d k. ground (arith, k)) (any-same_day_self days),
)
