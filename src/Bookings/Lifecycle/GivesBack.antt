-- ===== src/Bookings/Lifecycle/GivesBack.antt =====
-- `create` followed by `cancel`.
use msk_back.Base.{
  ℕ, String, ◌≡◌, subst, true, false, Option, none, some, List, [], ◌∷◌, ◌++◌, map, arith, ◌==◌,
  ==_refl, filter, any, delete_where, find?-append,
}
use msk_back.Base.Action.{ok}
use msk_back.Availability.Tables.{Block}
use msk_back.Availability.Reserve.Nights.{IsKeyed, IsFresh, missing}
use msk_back.Availability.Reserve.Effect.{nights_of, entries_of}
use msk_back.Availability.Reserve.Undo.{HasOneRow, empty_entry, release-try_reserve}
use msk_back.Bookings.Tables.{Booking, Db, booking_at}
use msk_back.Bookings.Create.{
  CreateInput, NewIds, stay_request, new_booking, booking_block, stay_nights, quote, create,
}
use msk_back.Bookings.Create.Outcome.{with_booking, CreateOutcome, create-CreateOutcome}
use msk_back.Bookings.Lifecycle.{is_own_block, cancel}
use msk_back.Bookings.Lifecycle.Releases.{cancelled_db, cancel_lem}

delete_where-append_own :
    (id : ℕ) (blocks : List Block) (b : Block)
    → any (is_own_block id) blocks ≡ false
    → is_own_block id b ≡ true
    → delete_where (is_own_block id) (blocks ++ b ∷ []) ≡ blocks
delete_where-append_own id [] b none_there own = ground arith
delete_where-append_own id (x ∷ blocks) b none_there own =
    ground (arith, delete_where-append_own id blocks b)

-- A booking that was made and then cancelled: every row of the calendar is as it was, each row that
-- the reservation made stays with nothing reserved, and the blocks are as they were. The new ids are
-- those of no row, the ids of the calendar are its key, no two of its rows meet the request on one
-- day, and no block is of the new booking.
pub cancel-create :
    (new : NewIds) (input : CreateInput) (now : ℕ) (reason : Option String) (db db' : Db)
    (b : Booking)
    → create new input db ≡ (ok b, db')
    → booking_at new.booking db ≡ none
    → any (is_own_block new.booking) db.blocks ≡ false
    → IsKeyed db.entries
    → IsFresh new.entry db.entries
    → HasOneRow (stay_request input) db.entries
    → let after = (cancel now new.booking reason db').1 in
      (after.entries
        ≡ db.entries
          ++ map (empty_entry new.entry (stay_request input)) (
              filter
                (missing (entries_of (stay_request input) db.entries))
                (nights_of (stay_request input))))
      × (after.blocks ≡ db.blocks)
unfolding new_booking booking_block
cancel-create new input now reason db db' b made fresh_id fresh_block keyed fresh one =
    let outcome : CreateOutcome new input db (ok b, db') =
      subst (CreateOutcome new input db) made (create-CreateOutcome new input db) in
    let (rt, nights, found, own, reserved, accepted, same_b, same_db) = outcome in
    let created = new_booking new input (stay_nights input) (quote input rt db.entries) in
    let there : booking_at new.booking (with_booking new input rt db) ≡ some created = ground (
      arith,
      ==_refl new.booking,
      find?-append (λ x. x.id == new.booking) db.bookings (created ∷ []),
    ) in
    let after : (cancel now new.booking reason (with_booking new input rt db)).1
        ≡ cancelled_db now new.booking reason created (with_booking new input rt db) =
      ground (arith, cancel_lem now new.booking reason (with_booking new input rt db)) in
    rw (same_db, after)
      (
        release-try_reserve new.entry (stay_request input) db.entries keyed fresh one reserved,
        delete_where-append_own new.booking db.blocks (booking_block new input) fresh_block
            (ground (arith, ==_refl new.booking)),
      )
