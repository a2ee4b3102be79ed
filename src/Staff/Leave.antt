-- ===== src/Staff/Leave.antt =====
-- src/modules/leave/leave.service.ts: a leave request and what may still be done with it. A date is
-- what `new Date` reads, `none` for an invalid one.
pub mod Settled
use msk_back.Base.{
  ℕ, String, Bool, true, false, not, Option, none, some, List, [], ◌∷◌, ◌++◌, ltb, ◌==◌,
  if◌then◌else◌, get_or, find?, update_where,
}
use msk_back.Base.Action.{
  ◌>>=◌, ◌>>◌, Action, pure, gets, or_throw, throw_if, modify, bad_request, not_found, forbidden,
}

pub data LeaveStatus : Type 0 where
  pending approved rejected cancelled : LeaveStatus

pub record LeaveRequest : Type 0 where
  pub id : ℕ
  pub user_id : ℕ
  pub start_date : ℕ
  pub end_date : ℕ
  pub type : String
  pub reason : Option String
  pub status : LeaveStatus
  pub reviewer_id : Option ℕ
  pub reviewer_note : Option String
  pub reviewed_at : Option ℕ

-- The requests, and the company that each user works for.
pub record LeaveDb : Type 0 where
  pub requests : List LeaveRequest
  pub company_of : ℕ → Option ℕ

pub record CreateLeave : Type 0 where
  pub start_date : Option ℕ
  pub end_date : Option ℕ
  pub type : Option String
  pub reason : Option String

abbrev pub is_pending : LeaveStatus → Bool
is_pending pending = true
is_pending _ = false

abbrev pub request_at : ℕ → LeaveDb → Option LeaveRequest
request_at id db = find? (λ r. r.id == id) db.requests

abbrev pub write_request : ℕ → (LeaveRequest → LeaveRequest) → LeaveDb → LeaveDb
write_request id f db = record db { requests = update_where (λ r. r.id == id) f db.requests }

unfoldable pub new_request : ℕ → ℕ → ℕ → ℕ → CreateLeave → LeaveRequest
new_request id user_id start end dto = record {
  id = id;
  user_id = user_id;
  start_date = start;
  end_date = end;
  type = get_or dto.type "PERSONAL";
  reason = dto.reason;
  status = pending;
  reviewer_id = none;
  reviewer_note = none;
  reviewed_at = none;
}

unfoldable pub create_leave : ℕ → ℕ → CreateLeave → Action LeaveDb LeaveRequest
create_leave id user_id dto = do
  start ← or_throw dto.start_date (bad_request "Invalid start or end date.")
  end ← or_throw dto.end_date (bad_request "Invalid start or end date.")
  throw_if (ltb end start) (bad_request "End date must be on or after the start date.")
  modify (λ db. record db { requests = db.requests ++ new_request id user_id start end dto ∷ [] })
  pure (new_request id user_id start end dto)

abbrev pub mark_cancelled : LeaveRequest → LeaveRequest
mark_cancelled r = record r { status = cancelled }

unfoldable pub cancel_leave : ℕ → ℕ → Action LeaveDb LeaveRequest
cancel_leave id requester_id = do
  r ← or_throw (← gets (request_at id)) (not_found "Leave request not found")
  throw_if (not (r.user_id == requester_id))
      (forbidden "You can only cancel your own leave requests.")
  throw_if (not (is_pending r.status)) (bad_request "Only pending requests can be cancelled.")
  modify (write_request id mark_cancelled)
  pure (mark_cancelled r)

abbrev pub mark_reviewed : ℕ → ℕ → Bool → Option String → LeaveRequest → LeaveRequest
mark_reviewed now reviewer_id approves note r = record r {
  status = if approves then approved else rejected;
  reviewer_id = some reviewer_id;
  reviewer_note = note;
  reviewed_at = some now;
}

-- Both companies are known and they differ.
abbrev pub is_other_team : Option ℕ → Option ℕ → Bool
is_other_team (some a) (some b) = not (b == a)
is_other_team _ _ = false

unfoldable pub review_leave :
    ℕ → ℕ → ℕ → Bool → Option String → Option ℕ → Action LeaveDb LeaveRequest
review_leave now id reviewer_id approves note reviewer_company = do
  r ← or_throw (← gets (request_at id)) (not_found "Leave request not found")
  throw_if (not (is_pending r.status)) (bad_request "Only pending requests can be reviewed.")
  company ← gets (λ db. db.company_of r.user_id)
  throw_if (is_other_team reviewer_company company) (forbidden "Not your team")
  modify (write_request id (mark_reviewed now reviewer_id approves note))
  pure (mark_reviewed now reviewer_id approves note r)
