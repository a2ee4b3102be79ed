-- ===== src/Billing/Payments/Settled.antt =====
-- What a payment's row says in every state.
use msk_back.Base.{
  ℕ, String, ◌≡◌, refl, sym, subst, inl, inr, true, none, List, [], ◌∷◌, ◌++◌, arith, ◌==◌,
  if◌then◌else◌, is_some, Bool-cases, Option-cases, All, find?, update_where, All-append,
  All-update_where,
}
use msk_back.Base.Action.{Result, Result-cases}
use msk_back.Base.Text.{is_filled}
use msk_back.Billing.Payments.{
  Payment, Intent, StripeEvent, StripeConfig, new_payment, create_intent_for, has_ref,
  mark_captured, mark_failed, handle_event, handle_stripe_webhook, mark_refunded, refund, pending,
  captured, failed, refunded, succeeded, payment_failed, unhandled,
}

-- A captured payment has the time of the payment, and a refunded one the time of the refund.
abbrev pub IsDated : Payment → Type 0
IsDated p = elim p.status [
  | pending ↦ (p.paid_at ≡ none) × (p.refunded_at ≡ none)
  | captured ↦ is_some p.paid_at ≡ true
  | failed ↦ Unit
  | refunded ↦ is_some p.refunded_at ≡ true
]

-- A request or an event, accepted or refused.
pub data Step : List Payment → List Payment → Type 0 where
  creates_intent :
      (config : StripeConfig) (create_intent : ℕ → String → ℕ → Result Intent)
      (lower : String → String) (id booking_id amount : ℕ) (currency : String) (ps : List Payment)
      → Step ps (create_intent_for config create_intent lower id booking_id amount currency ps).1
  receives :
      (config : StripeConfig) (construct_event : String → String → String → Result StripeEvent)
      (now : ℕ) (payload signature : String) (ps : List Payment)
      → Step ps (handle_stripe_webhook config construct_event now payload signature ps).1
  refunds : (now id : ℕ) (ps : List Payment) → Step ps (refund now id ps).1

pub data Reachable : List Payment → Type 0 where
  empty : Reachable []
  then_step : (ps qs : List Payment) → Reachable ps → Step ps qs → Reachable qs

-- Every row is dated.
unfoldable pub Dated : List Payment → Type 0
Dated ps = All IsDated ps

create-Dated :
    (config : StripeConfig) (create_intent : ℕ → String → ℕ → Result Intent)
    (lower : String → String) (id booking_id amount : ℕ) (currency : String) (ps : List Payment)
    → Dated ps
    → Dated (create_intent_for config create_intent lower id booking_id amount currency ps).1
unfolding Dated create_intent_for new_payment
create-Dated config create_intent lower id booking_id amount currency ps h =
    elim (Bool-cases config.is_configured) [
      | inr bare ↦ subst Dated (ground arith) h
      | inl set_up ↦ elim (Result-cases (create_intent amount (lower currency) booking_id)) [
        | inl (e, refused) ↦ subst Dated (ground arith) h
        | inr (intent, made) ↦
            let p : Payment = new_payment id booking_id amount currency intent.id in
            let same : (create_intent_for config create_intent lower id booking_id amount currency
                  ps).1
                ≡ ps ++ p ∷ [] =
              ground arith in
            subst Dated (sym same) (All-append IsDated ps (p ∷ []) h ((refl, refl), tt))
      ]
    ]

event-Dated :
    (now : ℕ) (event : StripeEvent) (ps : List Payment)
    → Dated ps
    → Dated (handle_event now event ps).1
unfolding Dated handle_event
event-Dated now (succeeded ref) ps h =
    All-update_where IsDated (has_ref ref) (mark_captured now) ps (λ p k. refl) h
event-Dated now (payment_failed ref reason) ps h =
    All-update_where IsDated (has_ref ref) (mark_failed reason) ps (λ p k. tt) h
event-Dated now unhandled ps h = h

webhook-Dated :
    (config : StripeConfig) (construct_event : String → String → String → Result StripeEvent)
    (now : ℕ) (payload signature : String) (ps : List Payment)
    → Dated ps
    → Dated (handle_stripe_webhook config construct_event now payload signature ps).1
unfolding handle_stripe_webhook
webhook-Dated config construct_event now payload signature ps h =
    let table : List Payment =
      (handle_stripe_webhook config construct_event now payload signature ps).1 in
    elim (Bool-cases config.is_configured) [
      | inr bare ↦ let same : table ≡ ps = ground arith in subst Dated (sym same) h
      | inl set_up ↦
          elim (Option-cases
            (if is_filled config.webhook_secret then config.webhook_secret else none)) [
              | inl secretless ↦ let same : table ≡ ps = ground arith in subst Dated (sym same) h
              | inr (secret, has) ↦ elim (Result-cases (construct_event payload signature secret)) [
                | inl (e, forged) ↦ let same : table ≡ ps = ground arith in subst Dated (sym same) h
                | inr (event, genuine) ↦
                    let same : table ≡ (handle_event now event ps).1 = ground arith in
                    subst Dated (sym same) (event-Dated now event ps h)
              ]
            ]
    ]

refund-Dated : (now id : ℕ) (ps : List Payment) → Dated ps → Dated (refund now id ps).1
unfolding Dated refund
refund-Dated now id ps h = elim (Option-cases (find? (λ p. p.id == id) ps)) [
  | inl missing ↦ subst Dated (ground arith) h
  | inr (p, found) ↦
      let same : (refund now id ps).1 ≡ update_where (λ x. x.id == id) (mark_refunded now) ps =
        ground arith in
      subst Dated (sym same)
        (All-update_where IsDated (λ x. x.id == id) (mark_refunded now) ps (λ x k. refl) h)
]

step-Dated : (ps qs : List Payment) → Step ps qs → Dated ps → Dated qs
step-Dated _ _ (creates_intent config create_intent lower id booking_id amount currency ps) h =
    create-Dated config create_intent lower id booking_id amount currency ps h
step-Dated _ _ (receives config construct_event now payload signature ps) h =
    webhook-Dated config construct_event now payload signature ps h
step-Dated _ _ (refunds now id ps) h = refund-Dated now id ps h

-- In every table that new intents, events and refunds reach from the empty one, whatever the provider
-- answers and in any order: a payment that is captured has the time of it, one that is refunded has
-- the time of the refund, and one that is pending has neither.
pub Reachable-Dated : (ps : List Payment) → Reachable ps → Dated ps
unfolding Dated
Reachable-Dated ps empty = tt
Reachable-Dated ps (then_step before after r step) =
    step-Dated before after step (Reachable-Dated before r)
