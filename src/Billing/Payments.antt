-- ===== src/Billing/Payments.antt =====
-- src/modules/payments/payments.service.ts: the payments that the provider's events and refunds
-- write. `create_intent` stands for the provider's API and `construct_event` for the check of an
-- event's signature. Amounts are in cents.
pub mod Settled
use msk_back.Base.{
  ℕ, String, Bool, not, Option, none, some, List, [], ◌∷◌, ◌++◌, ◌==◌, if◌then◌else◌, or_else,
  find?, update_where,
}
use msk_back.Base.Action.{
  Result, Action, pure, gets, or_throw, ◌>>=◌, ◌>>◌, throw_if, modify, internal_error,
}
use msk_back.Base.Text.{is_filled, same_text}

pub data PaymentStatus : Type 0 where
  pending captured failed refunded : PaymentStatus

pub record Payment : Type 0 where
  pub id : ℕ
  pub booking_id : ℕ
  pub amount : ℕ
  pub currency : String
  pub status : PaymentStatus
  pub provider_ref : String
  pub failure_reason : Option String
  pub paid_at : Option ℕ
  pub refunded_at : Option ℕ

-- What the provider answers to a new intent.
pub record Intent : Type 0 where
  pub id : String
  pub client_secret : String

-- An event whose signature is right: the intent that it is about, and the message of a failure.
pub data StripeEvent : Type 0 where
  succeeded : String → StripeEvent
  payment_failed : String → Option String → StripeEvent
  unhandled : StripeEvent

-- The settings that the service reads: whether there is a key, and the secret of the webhook.
pub record StripeConfig : Type 0 where
  pub is_configured : Bool
  pub webhook_secret : Option String

unfoldable pub new_payment : ℕ → ℕ → ℕ → String → String → Payment
new_payment id booking_id amount currency provider_ref = record {
  id = id;
  booking_id = booking_id;
  amount = amount;
  currency = currency;
  status = pending;
  provider_ref = provider_ref;
  failure_reason = none;
  paid_at = none;
  refunded_at = none;
}

unfoldable pub create_intent_for :
    StripeConfig
    → (ℕ → String → ℕ → Result Intent)
    → (String → String)
    → ℕ
    → ℕ
    → ℕ
    → String
    → Action (List Payment) Intent
create_intent_for config create_intent lower id booking_id amount currency = do
  throw_if (not config.is_configured) (internal_error "Stripe not configured")
  intent ← (λ ps. (create_intent amount (lower currency) booking_id, ps))
  modify (λ ps. ps ++ new_payment id booking_id amount currency intent.id ∷ [])
  pure intent

abbrev pub has_ref : String → Payment → Bool
has_ref ref p = same_text p.provider_ref ref

abbrev pub mark_captured : ℕ → Payment → Payment
mark_captured now p = record p { status = captured; paid_at = some now }

-- A message that is missing leaves the column as it is.
abbrev pub mark_failed : Option String → Payment → Payment
mark_failed reason p = record p {
  status = failed;
  failure_reason = or_else reason p.failure_reason;
}

unfoldable pub handle_event : ℕ → StripeEvent → Action (List Payment) (Unit {0})
handle_event now (succeeded ref) = modify (update_where (has_ref ref) (mark_captured now))
handle_event now (payment_failed ref reason) =
    modify (update_where (has_ref ref) (mark_failed reason))
handle_event now unhandled = pure tt

unfoldable pub handle_stripe_webhook :
    StripeConfig
    → (String → String → String → Result StripeEvent)
    → ℕ
    → String
    → String
    → Action (List Payment) (Unit {0})
handle_stripe_webhook config construct_event now payload signature = do
  throw_if (not config.is_configured) (internal_error "Stripe not configured")
  secret ←
      or_throw (if is_filled config.webhook_secret then config.webhook_secret else none)
        (internal_error "Stripe webhook secret missing")
  event ← (λ ps. (construct_event payload signature secret, ps))
  handle_event now event

abbrev pub mark_refunded : ℕ → Payment → Payment
mark_refunded now p = record p { status = refunded; refunded_at = some now }

unfoldable pub refund : ℕ → ℕ → Action (List Payment) Payment
refund now id = do
  p ← or_throw (← gets (find? (λ p. p.id == id))) (internal_error "Record to update not found.")
  modify (update_where (λ p. p.id == id) (mark_refunded now))
  pure (mark_refunded now p)
