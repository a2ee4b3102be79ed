-- ===== src/Staff/Examples.antt =====
-- A leave request and some punches, and the theorems of this part on them.
use msk_back.Base.{◌≡◌, refl, false, none, some, [], ◌∷◌, List}
use msk_back.Staff.Leave.{
  LeaveStatus, LeaveRequest, LeaveDb, request_at, cancel_leave, review_leave, approved,
}
use msk_back.Staff.Leave.Settled.{settled-final, withdrawn, reviewed, here, next}
use msk_back.Staff.Attendance.{Geo, Punch, clock_in, clock_out}
use msk_back.Staff.Attendance.OneOpen.{
  OneOpen, punches_in, punches_out, Reachable-OneOpen, then_punch, unpunched,
}

abbrev a_request : LeaveStatus → LeaveRequest
a_request status = record {
  id = 3;
  user_id = 8;
  start_date = 0;
  end_date = 86_400_000;
  type = "PERSONAL";
  reason = none;
  status = status;
  reviewer_id = none;
  reviewer_note = none;
  reviewed_at = none;
}

abbrev one_approved : LeaveDb
one_approved = record { requests = a_request approved ∷ []; company_of = λ _. some 1 }

-- The owner withdraws and a reviewer rejects, both too late.
abbrev too_late : LeaveDb
too_late = (review_leave 5 3 9 false none (some 1) (cancel_leave 3 8 one_approved).1).1

settled-final_example : request_at 3 too_late ≡ some (a_request approved)
settled-final_example = settled-final 3 (a_request approved) one_approved too_late refl refl (
    next one_approved (cancel_leave 3 8 one_approved).1 too_late (withdrawn one_approved 3 8) (
      next (cancel_leave 3 8 one_approved).1 too_late too_late
        (reviewed (cancel_leave 3 8 one_approved).1 5 3 9 false none (some 1)) (here too_late)))

abbrev at_door : Geo
at_door = record { lat = some "51.5"; lng = some "0.1" }

abbrev punched_in : List Punch
punched_in = (clock_in 1_000 1 5 at_door []).1

Reachable-OneOpen_example : OneOpen (clock_out 3_000 5 none at_door punched_in).1
Reachable-OneOpen_example = Reachable-OneOpen (clock_out 3_000 5 none at_door punched_in).1 (
    then_punch punched_in (clock_out 3_000 5 none at_door punched_in).1
      (then_punch [] punched_in unpunched (punches_in 1_000 1 5 at_door []))
      (punches_out 3_000 5 none at_door punched_in))
