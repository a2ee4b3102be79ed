-- ===== src/Staff/Attendance.antt =====
-- src/modules/attendance/attendance.service.ts: the punches of the staff. A position is kept as the
-- two texts that the client sends.
pub mod OneOpen
use msk_back.Base.{
  ℕ, String, Bool, true, false, not, ◌&&◌, Option, none, some, List, [], ◌∷◌, ◌++◌, ltb, ◌==◌,
  if◌then◌else◌, filter, any, update_where,
}
use msk_back.Base.Action.{◌>>=◌, ◌>>◌, Action, pure, gets, or_throw, throw_if, modify, bad_request}

pub record Geo : Type 0 where
  pub lat : Option String
  pub lng : Option String

pub record Punch : Type 0 where
  pub id : ℕ
  pub user_id : ℕ
  pub is_open : Bool
  pub clock_in_at : ℕ
  pub clock_in_geo : Geo
  pub clock_out_at : Option ℕ
  pub clock_out_geo : Geo
  pub clock_out_note : Option String

abbrev pub is_open_of : ℕ → Punch → Bool
is_open_of user_id p = p.user_id == user_id && p.is_open

abbrev pub no_geo : Geo
no_geo = record { lat = none; lng = none }

unfoldable pub new_punch : ℕ → ℕ → ℕ → Geo → Punch
new_punch now id user_id geo = record {
  id = id;
  user_id = user_id;
  is_open = true;
  clock_in_at = now;
  clock_in_geo = geo;
  clock_out_at = none;
  clock_out_geo = no_geo;
  clock_out_note = none;
}

unfoldable pub clock_in : ℕ → ℕ → ℕ → Geo → Action (List Punch) Punch
clock_in now id user_id geo = do
  throw_if (← gets (any (is_open_of user_id))) (bad_request "You are already clocked in.")
  modify (λ ps. ps ++ new_punch now id user_id geo ∷ [])
  pure (new_punch now id user_id geo)

-- `orderBy: { clockInAt: 'desc' }` and the first: the latest of the rows.
abbrev pub later : Punch → Option Punch → Punch
later p none = p
later p (some q) = if ltb p.clock_in_at q.clock_in_at then q else p

unfoldable pub latest : List Punch → Option Punch
latest [] = none
latest (p ∷ ps) = some (later p (latest ps))

-- The open punch, which the app shows on launch.
unfoldable pub current : ℕ → List Punch → Option Punch
current user_id ps = latest (filter (is_open_of user_id) ps)

unfoldable pub close : ℕ → Option String → Geo → Punch → Punch
close now remark geo p = record p {
  clock_out_at = some now;
  is_open = false;
  clock_out_note = remark;
  clock_out_geo = geo;
}

unfoldable pub clock_out : ℕ → ℕ → Option String → Geo → Action (List Punch) Punch
clock_out now user_id remark geo = do
  p ← or_throw (← gets (current user_id)) (bad_request "You are not currently clocked in.")
  modify (update_where (λ q. q.id == p.id) (close now remark geo))
  pure (close now remark geo p)
