-- ===== src/Billing/Examples.antt =====
-- A payment and an invoice, and the theorems of this part on them.
use msk_back.Base.{ℕ, String, true, none, some, List, [], ◌∷◌, ◌*◌, ◌+◌, ◌/◌}
use msk_back.Base.Int.{pos}
use msk_back.Base.Numbers.{Numbers}
use msk_back.Base.Action.{Result, ok}
use msk_back.Billing.Payments.{
  Payment, Intent, StripeEvent, StripeConfig, succeeded, create_intent_for, handle_stripe_webhook,
}
use msk_back.Billing.Payments.Settled.{
  Dated, Reachable-Dated, empty, then_step, creates_intent, receives,
}
use msk_back.Billing.Invoices.{CreateInvoice, InvoiceDb, create_invoice}
use msk_back.Billing.Invoices.Figured.{Figured}

abbrev config : StripeConfig
config = record { is_configured = true; webhook_secret = some "whsec" }

abbrev an_intent : ℕ → String → ℕ → Result Intent
an_intent amount currency booking_id = ok (record { id = "pi_1"; client_secret = "secret" })

-- Every event is the success of the one intent.
abbrev an_event : String → String → String → Result StripeEvent
an_event payload signature secret = ok (succeeded "pi_1")

abbrev as_is : String → String
as_is s = s

abbrev begun : List Payment
begun = (create_intent_for config an_intent as_is 1 4 9_900 "USD" []).1

abbrev received : List Payment
received = (handle_stripe_webhook config an_event 2_000 "body" "sig" begun).1

Reachable-Dated_example : Dated received
Reachable-Dated_example = Reachable-Dated received (
    then_step begun received
      (then_step [] begun empty (creates_intent config an_intent as_is 1 4 9_900 "USD" []))
      (receives config an_event 2_000 "body" "sig" begun))

-- Numbers without a fraction.
abbrev whole : Numbers
whole = record {
  times = λ a b. a * b;
  plus = λ a b. a + b;
  over = λ a b. a / b;
  zero = 0;
  one = 1;
  hundred = 100;
  stored = λ n. pos (n * 100);
}

abbrev two_lines : CreateInvoice
two_lines = record {
  booking_id = none;
  issued_by_id = some 3;
  recipient_name = some "Ann Lee";
  recipient_email = none;
  recipient_address = none;
  items =
      record { description = "Night"; quantity = 2; unit_price = 9_950; tax_rate = some 15 }
      ∷ record { description = "Parking"; quantity = 1; unit_price = 500; tax_rate = none }
      ∷ [];
  currency = none;
  notes = none;
}

abbrev no_invoices : InvoiceDb
no_invoices = record { invoices = []; orders = []; bookings = [] }

abbrev invoiced : InvoiceDb
invoiced = (create_invoice whole none 1_000 1 "INV-2026-AAAAAA" two_lines no_invoices).1
