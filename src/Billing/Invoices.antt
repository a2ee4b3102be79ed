-- ===== src/Billing/Invoices.antt =====
-- src/modules/invoices/invoices.service.ts: the invoices of bookings and of suppliers. What a request
-- gives as numbers is JavaScript's, and a column is in hundredths.
pub mod Figured
use msk_back.Base.{
  ℕ, zero, String, Bool, true, false, not, ◌&&◌, ◌||◌, Option, none, some, List, [], ◌∷◌, ◌++◌, map,
  ◌==◌, if◌then◌else◌, ◌is◌, opt_eq, get_or, is_some, length, find?, filter, any, update_where,
}
use msk_back.Base.Int.{ℤ, pos}
use msk_back.Base.Action.{
  Action, pure, gets, or_throw, ◌>>=◌, ◌>>◌, throw_if, modify, not_found, internal_error,
}
use msk_back.Base.Text.{same_text}
use msk_back.Base.Numbers.{Numbers}

pub data InvoiceStatus : Type 0 where
  draft issued paid partially_paid overdue voided : InvoiceStatus

pub record InvoiceItem : Type 0 where
  pub description : String
  pub quantity : ℤ
  pub unit_price : ℤ
  pub tax_rate : ℤ
  pub total : ℤ

pub record Invoice : Type 0 where
  pub id : ℕ
  pub number : String
  pub booking_id : Option ℕ
  pub issued_by_id : Option ℕ
  pub recipient_name : Option String
  pub recipient_email : Option String
  pub recipient_address : Option String
  pub status : InvoiceStatus
  pub subtotal : ℤ
  pub tax_amount : ℤ
  pub total : ℤ
  pub currency : String
  pub issued_at : Option ℕ
  pub paid_at : Option ℕ
  pub notes : Option String
  -- The two keys of the column `metadata`.
  pub order_id : Option ℕ
  pub operator_company_id : Option ℕ
  pub items : List InvoiceItem

-- An order, with the company of the user who placed it.
pub record BuyerOrder : Type 0 where
  pub id : ℕ
  pub company_id : Option ℕ

-- A booking, with its guest.
pub record BilledBooking : Type 0 where
  pub id : ℕ
  pub guest_user_id : Option ℕ

pub record InvoiceDb : Type 0 where
  pub invoices : List Invoice
  pub orders : List BuyerOrder
  pub bookings : List BilledBooking

-- `order?.createdBy?.companyId ?? null`
abbrev pub company_of_order : Option ℕ → InvoiceDb → Option ℕ
company_of_order none db = none
company_of_order (some id) db = elim (find? (λ o. o.id == id) db.orders) [
  | none ↦ none
  | some o ↦ o.company_id
]

abbrev pub write_invoice : ℕ → (Invoice → Invoice) → Action InvoiceDb (Unit {0})
write_invoice id f =
    modify (λ db. record db { invoices = update_where (λ i. i.id == id) f db.invoices })

abbrev pub stamped : Option ℕ → ℕ → Invoice → Invoice
stamped order_id company_id i = record i {
  order_id = order_id;
  operator_company_id = some company_id;
}

-- One turn of the loop over the invoices that have an order's id.
unfoldable pub backfill_one : Invoice → Action InvoiceDb (Unit {0})
backfill_one inv = do
  company ← gets (company_of_order inv.order_id)
  if is_some inv.operator_company_id
      then pure tt
      else elim company [ none ↦ pure tt | some c ↦ write_invoice inv.id (stamped inv.order_id c) ]

unfoldable pub backfill : List Invoice → Action InvoiceDb (Unit {0})
backfill [] = pure tt
backfill (inv ∷ invs) = backfill_one inv >> backfill invs

-- `booking: { guestUserId }`
abbrev pub is_guests : ℕ → InvoiceDb → Invoice → Bool
is_guests user_id db i = elim i.booking_id [
  | none ↦ false
  | some id ↦ any (λ b. b.id == id && opt_eq b.guest_user_id (some user_id)) db.bookings
]

abbrev pub is_in_scope : Option ℕ → Option ℕ → InvoiceDb → Invoice → Bool
is_in_scope user_id company_id db i =
    elim user_id [ none ↦ true | some u ↦ is_guests u db i ]
    && (not (is_some company_id) || opt_eq i.operator_company_id company_id)

abbrev pub has_order : Invoice → Bool
has_order i = is_some i.order_id

unfoldable pub list_invoices : Option ℕ → Option ℕ → Action InvoiceDb (List Invoice)
list_invoices user_id company_id = do
  candidates ← gets (λ db. filter has_order db.invoices)
  if is_some company_id then backfill candidates else pure tt
  gets (λ db. filter (is_in_scope user_id company_id db) db.invoices)

abbrev pub invoice_at : ℕ → InvoiceDb → Option Invoice
invoice_at id db = find? (λ i. i.id == id) db.invoices

unfoldable pub invoice_detail : ℕ → Action InvoiceDb Invoice
invoice_detail id = do or_throw (← gets (invoice_at id)) (not_found "Invoice not found")

-- `invoice.update({ where: { id }, data })`
unfoldable pub update_invoice : ℕ → (Invoice → Invoice) → Action InvoiceDb Invoice
update_invoice id f = do
  i ← or_throw (← gets (invoice_at id)) (internal_error "Record to update not found.")
  write_invoice id f
  pure (f i)

abbrev pub with_status : InvoiceStatus → Invoice → Invoice
with_status status i = record i { status = status }

abbrev pub set_invoice_status : ℕ → InvoiceStatus → Action InvoiceDb Invoice
set_invoice_status id status = update_invoice id (with_status status)

abbrev pub mark_invoice_paid : ℕ → Bool → Invoice → Invoice
mark_invoice_paid now fully i = record i {
  status = if fully then paid else partially_paid;
  paid_at = if fully then some now else i.paid_at;
}

abbrev pub mark_paid : ℕ → ℕ → Bool → Action InvoiceDb Invoice
mark_paid now id fully = update_invoice id (mark_invoice_paid now fully)

abbrev pub void_invoice : ℕ → Action InvoiceDb Invoice
void_invoice id = update_invoice id (with_status voided)

unfoldable pub list_by_issuer : ℕ → InvoiceDb → List Invoice
list_by_issuer user_id db = filter (λ i. opt_eq i.issued_by_id (some user_id)) db.invoices

pub record ItemInput : Type 0 where
  pub description : String
  pub quantity : ℕ
  pub unit_price : ℕ
  pub tax_rate : Option ℕ

-- `taxRate ?? 0`
abbrev pub rate_of : Numbers → ItemInput → ℕ
rate_of nums i = get_or i.tax_rate nums.zero

-- `quantity * unitPrice`
abbrev pub net_of : Numbers → ItemInput → ℕ
net_of nums i = nums.times i.quantity i.unit_price

-- The columns of an item; its total is `quantity * unitPrice * (1 + taxRate / 100)`.
abbrev pub item_of : Numbers → ItemInput → InvoiceItem
item_of nums i = record {
  description = i.description;
  quantity = nums.stored i.quantity;
  unit_price = nums.stored i.unit_price;
  tax_rate = nums.stored (rate_of nums i);
  total =
      nums.stored
        (nums.times (net_of nums i) (nums.plus nums.one (nums.over (rate_of nums i) nums.hundred)));
}

unfoldable pub subtotal_of : Numbers → ℕ → List ItemInput → ℕ
subtotal_of nums sum [] = sum
subtotal_of nums sum (i ∷ is_) = subtotal_of nums (nums.plus sum (net_of nums i)) is_

unfoldable pub tax_of : Numbers → ℕ → List ItemInput → ℕ
tax_of nums sum [] = sum
tax_of nums sum (i ∷ is_) =
    tax_of nums
      (nums.plus sum (nums.over (nums.times (net_of nums i) (rate_of nums i)) nums.hundred)) is_

pub record CreateInvoice : Type 0 where
  pub booking_id : Option ℕ
  pub issued_by_id : Option ℕ
  pub recipient_name : Option String
  pub recipient_email : Option String
  pub recipient_address : Option String
  pub items : List ItemInput
  pub currency : Option String
  pub notes : Option String

unfoldable pub new_invoice : Numbers → ℕ → ℕ → String → CreateInvoice → Invoice
new_invoice nums now id number sub = record {
  id = id;
  number = number;
  booking_id = sub.booking_id;
  issued_by_id = sub.issued_by_id;
  recipient_name = sub.recipient_name;
  recipient_email = sub.recipient_email;
  recipient_address = sub.recipient_address;
  status = issued;
  subtotal = nums.stored (subtotal_of nums nums.zero sub.items);
  tax_amount = nums.stored (tax_of nums nums.zero sub.items);
  total =
      nums.stored
        (nums.plus (subtotal_of nums nums.zero sub.items) (tax_of nums nums.zero sub.items));
  currency = get_or sub.currency "USD";
  issued_at = some now;
  paid_at = none;
  notes = sub.notes;
  order_id = none;
  operator_company_id = none;
  items = map (item_of nums) sub.items;
}

-- The number is taken, or the database refuses the invoice for another reason, as for an unknown
-- booking: `failure` is what it says then.
abbrev pub invoice_refused : Option String → Invoice → InvoiceDb → Bool
invoice_refused failure i db = any (λ x. same_text x.number i.number) db.invoices || is_some failure

-- `invoice.create`
unfoldable pub insert_invoice : Option String → Invoice → Action InvoiceDb Invoice
insert_invoice failure i = do
  throw_if (← gets (invoice_refused failure i))
      (internal_error (get_or failure "Unique constraint failed on the fields: (`number`)"))
  modify (λ db. record db { invoices = db.invoices ++ i ∷ [] })
  pure i

abbrev pub create_invoice :
    Numbers → Option String → ℕ → ℕ → String → CreateInvoice → Action InvoiceDb Invoice
create_invoice nums failure now id number sub =
    insert_invoice failure (new_invoice nums now id number sub)

pub record RequestInvoice : Type 0 where
  pub user_id : ℕ
  pub booking_id : ℕ
  pub recipient_name : Option String
  pub recipient_email : Option String
  pub notes : Option String
  pub amount : ℕ
  pub currency : String

unfoldable pub new_request : Numbers → ℕ → String → RequestInvoice → Invoice
new_request nums id number sub = record {
  id = id;
  number = number;
  booking_id = some sub.booking_id;
  issued_by_id = some sub.user_id;
  recipient_name = sub.recipient_name;
  recipient_email = sub.recipient_email;
  recipient_address = none;
  status = draft;
  subtotal = nums.stored sub.amount;
  tax_amount = pos 0;
  total = nums.stored sub.amount;
  currency = sub.currency;
  issued_at = none;
  paid_at = none;
  notes = sub.notes;
  order_id = none;
  operator_company_id = none;
  items = [];
}

abbrev pub request_invoice :
    Numbers → Option String → ℕ → String → RequestInvoice → Action InvoiceDb Invoice
request_invoice nums failure id number sub = insert_invoice failure (new_request nums id number sub)

pub record SupplierInvoice : Type 0 where
  pub recipient_name : Option String
  pub recipient_email : Option String
  pub recipient_address : Option String
  pub items : List ItemInput
  pub currency : Option String
  pub notes : Option String
  pub order_id : Option ℕ

-- A supplier's line has no tax.
abbrev pub untaxed : Numbers → ItemInput → InvoiceItem
untaxed nums i = record {
  description = i.description;
  quantity = nums.stored i.quantity;
  unit_price = nums.stored i.unit_price;
  tax_rate = pos 0;
  total = nums.stored (net_of nums i);
}

unfoldable pub new_supplier_invoice :
    Numbers → ℕ → ℕ → String → ℕ → SupplierInvoice → Option ℕ → Invoice
new_supplier_invoice nums now id number issued_by_id sub company_id = record {
  id = id;
  number = number;
  booking_id = none;
  issued_by_id = some issued_by_id;
  recipient_name = sub.recipient_name;
  recipient_email = sub.recipient_email;
  recipient_address = sub.recipient_address;
  status = issued;
  subtotal = nums.stored (subtotal_of nums nums.zero sub.items);
  tax_amount = pos 0;
  total = nums.stored (subtotal_of nums nums.zero sub.items);
  currency = get_or sub.currency "USD";
  issued_at = some now;
  paid_at = none;
  notes = sub.notes;
  order_id = sub.order_id;
  operator_company_id = company_id;
  items = map (untaxed nums) sub.items;
}

unfoldable pub create_supplier_invoice :
    Numbers → Option String → ℕ → ℕ → String → ℕ → SupplierInvoice → Action InvoiceDb Invoice
create_supplier_invoice nums failure now id number issued_by_id sub = do
  throw_if (length sub.items == 0) (not_found "At least one line item is required.")
  company_id ← gets (company_of_order sub.order_id)
  insert_invoice failure (new_supplier_invoice nums now id number issued_by_id sub company_id)
