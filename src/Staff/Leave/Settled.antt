-- ===== src/Staff/Leave/Settled.antt =====
-- Sequences of operations on the leave requests.
use msk_back.Base.{
  ℕ, String, ◌≡◌, refl, ap, subst, inl, inr, Bool, true, false, Option, some, [], ◌∷◌, arith, ltb,
  ◌==◌, Bool-cases, Option-cases, find?_sound, find?-update_where, find?-append,
}
use msk_back.Staff.Leave.{
  LeaveRequest, LeaveDb, CreateLeave, is_pending, request_at, write_request, new_request,
  create_leave, mark_cancelled, cancel_leave, mark_reviewed, is_other_team, review_leave,
}

-- One operation of the service, on the requests; an operation that throws changes nothing.
pub data Step : LeaveDb → LeaveDb → Type 0 where
  created :
      (db : LeaveDb) (id user_id : ℕ) (dto : CreateLeave)
      → Step db (create_leave id user_id dto db).1
  withdrawn : (db : LeaveDb) (id requester_id : ℕ) → Step db (cancel_leave id requester_id db).1
  reviewed :
      (db : LeaveDb) (now id reviewer_id : ℕ) (approves : Bool) (note : Option String)
      (company : Option ℕ)
      → Step db (review_leave now id reviewer_id approves note company db).1

pub data Reaches : LeaveDb → LeaveDb → Type 0 where
  here : (db : LeaveDb) → Reaches db db
  next : (a b c : LeaveDb) → Step a b → Reaches b c → Reaches a c

-- The request of the id is there and no longer pending.
Settled : ℕ → LeaveRequest → LeaveDb → Type 0
Settled id r db = (request_at id db ≡ some r) × (is_pending r.status ≡ false)

written-Settled :
    (id id' : ℕ) (f : LeaveRequest → LeaveRequest) (r r' : LeaveRequest) (db : LeaveDb)
    → ((x : LeaveRequest) → (f x).id ≡ x.id)
    → Settled id r db
    → request_at id' db ≡ some r'
    → is_pending r'.status ≡ true
    → Settled id r (write_request id' f db)
unfolding Settled
written-Settled id id' f r r' db keep (found, settled) found' open' = (
  ground (
    arith,
    find?_sound (λ x. x.id == id) db.requests r found,
    find?-update_where (λ x. x.id == id) (λ x. x.id == id') f db.requests
        (λ x. ap (λ n. n == id) (keep x)),
  ),
  settled,
)

create_leave-Settled :
    (db : LeaveDb) (id' user_id : ℕ) (dto : CreateLeave) (id : ℕ) (r : LeaveRequest)
    → Settled id r db
    → Settled id r (create_leave id' user_id dto db).1
unfolding Settled create_leave
create_leave-Settled db id' user_id dto id r (found, settled) = elim (Option-cases dto.start_date) [
  | inl missing ↦ (ground arith, settled)
  | inr (start, given) ↦ elim (Option-cases dto.end_date) [
    | inl missing ↦ (ground arith, settled)
    | inr (end, given') ↦ elim (Bool-cases (ltb end start)) [
      | inl early ↦ (ground arith, settled)
      | inr fine ↦ (
        ground (
          arith,
          find?-append (λ x. x.id == id) db.requests (new_request id' user_id start end dto ∷ []),
        ),
        settled,
      )
    ]
  ]
]

cancel_leave-Settled :
    (db : LeaveDb) (id' requester_id id : ℕ) (r : LeaveRequest)
    → Settled id r db
    → Settled id r (cancel_leave id' requester_id db).1
unfolding cancel_leave
cancel_leave-Settled db id' requester_id id r h = elim (Option-cases (request_at id' db)) [
  | inl missing ↦ subst (Settled id r) (ground arith) h
  | inr (r', found) ↦ elim (Bool-cases (r'.user_id == requester_id)) [
    | inr stranger ↦ subst (Settled id r) (ground arith) h
    | inl own ↦ elim (Bool-cases (is_pending r'.status)) [
      | inr shut ↦ subst (Settled id r) (ground arith) h
      | inl waiting ↦
          subst (Settled id r) (ground arith)
            (written-Settled id id' mark_cancelled r r' db (λ x. refl) h found waiting)
    ]
  ]
]

review_leave-Settled :
    (db : LeaveDb) (now id' reviewer_id : ℕ) (approves : Bool) (note : Option String)
    (company : Option ℕ) (id : ℕ) (r : LeaveRequest)
    → Settled id r db
    → Settled id r (review_leave now id' reviewer_id approves note company db).1
unfolding review_leave
review_leave-Settled db now id' reviewer_id approves note company id r h =
    elim (Option-cases (request_at id' db)) [
      | inl missing ↦ subst (Settled id r) (ground arith) h
      | inr (r', found) ↦ elim (Bool-cases (is_pending r'.status)) [
        | inr shut ↦ subst (Settled id r) (ground arith) h
        | inl waiting ↦ elim (Bool-cases (is_other_team company (db.company_of r'.user_id))) [
          | inl stranger ↦ subst (Settled id r) (ground arith) h
          | inr own ↦ subst (Settled id r) (ground arith) (
              written-Settled id id' (mark_reviewed now reviewer_id approves note) r r' db
                (λ x. refl) h found waiting)
        ]
      ]
    ]

Step-Settled :
    (id : ℕ) (r : LeaveRequest) (a b : LeaveDb) → Step a b → Settled id r a → Settled id r b
Step-Settled id r a _ (created _ id' user_id dto) h = create_leave-Settled a id' user_id dto id r h
Step-Settled id r a _ (withdrawn _ id' requester_id) h =
    cancel_leave-Settled a id' requester_id id r h
Step-Settled id r a _ (reviewed _ now id' reviewer_id approves note company) h =
    review_leave-Settled a now id' reviewer_id approves note company id r h

Reaches-Settled :
    (id : ℕ) (r : LeaveRequest) (a b : LeaveDb) → Reaches a b → Settled id r a → Settled id r b
Reaches-Settled id r a _ (here _) h = h
Reaches-Settled id r a c (next _ b _ step rest) h =
    Reaches-Settled id r b c rest (Step-Settled id r a b step h)

-- A request that is there and no longer pending is final: whatever operations of the service follow,
-- by whomever, it stays as it is.
pub settled-final :
    (id : ℕ) (r : LeaveRequest) (a b : LeaveDb)
    → request_at id a ≡ some r
    → is_pending r.status ≡ false
    → Reaches a b
    → request_at id b ≡ some r
unfolding Settled
settled-final id r a b found settled path = (Reaches-Settled id r a b path (found, settled)).0
