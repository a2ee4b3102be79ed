-- ===== src/Dates.antt =====
-- Dates as milliseconds since 1970-01-01T00:00Z: the helpers `utcMidnight`, `enumerateDays` and
-- `sameDay`, which src/modules/availability/availability.service.ts and
-- src/modules/bookings/bookings.service.ts declare in the same words.
pub mod Days
use msk_back.Base.{ℕ, zero, suc, ◌+◌, ◌-◌, ◌*◌, ◌/◌, Bool, List, [], ◌∷◌, ltb, ◌==◌, if◌then◌else◌}

-- `86400000`
abbrev pub day_ms : ℕ
day_ms = 86_400_000

unfoldable pub utc_midnight : ℕ → ℕ
utc_midnight t = t / day_ms * day_ms

-- Equal `YYYY-MM-DD` parts.
unfoldable pub same_day : ℕ → ℕ → Bool
same_day a b = a / day_ms == b / day_ms

-- The loop `for (let t = start; t < end; t += 86400000)`; each round takes one of the fuel.
unfoldable pub days_from : ℕ → ℕ → ℕ → List ℕ
days_from zero t end = []
days_from (suc fuel) t end =
    let rest = days_from fuel (t + day_ms) end in if ltb t end then t ∷ rest else []

unfoldable pub enumerate_days : ℕ → ℕ → List ℕ
unfolding days_from utc_midnight
enumerate_days from to =
    let start = utc_midnight from in
    let end = utc_midnight to in days_from ((end - start) / day_ms + 1) start end
