-- ===== src/Billing/Invoices/Figured.antt =====
-- The figures of every invoice, through every operation of the service.
use msk_back.Base.{
  ℕ, String, ◌≡◌, ◌⊎◌, Bool, true, Option, none, List, [], ◌∷◌, get_or, is_some, All,
}
use msk_back.Base.Int.{pos}
use msk_back.Base.Numbers.{Numbers}
use msk_back.Billing.Invoices.{
  InvoiceStatus, InvoiceItem, Invoice, BuyerOrder, BilledBooking, InvoiceDb, list_invoices,
  set_invoice_status, mark_paid, void_invoice, ItemInput, subtotal_of, tax_of, CreateInvoice,
  create_invoice, RequestInvoice, request_invoice, SupplierInvoice, create_supplier_invoice,
}

module _ (nums : Numbers) where
  -- The items keep what was sent, each number rounded by its own column.
  unfoldable pub Taxed : List ItemInput → List InvoiceItem → Type 0
  Taxed [] [] = Unit
  Taxed [] (x ∷ xs) = ⊥
  Taxed (i ∷ is_) [] = ⊥
  Taxed (i ∷ is_) (x ∷ xs) =
      (x.quantity ≡ nums.stored i.quantity)
      × (x.unit_price ≡ nums.stored i.unit_price)
      × (x.tax_rate ≡ nums.stored (get_or i.tax_rate nums.zero))
      × (x.total
          ≡ nums.stored (
              nums.times (nums.times i.quantity i.unit_price)
                (nums.plus nums.one (nums.over (get_or i.tax_rate nums.zero) nums.hundred))))
      × Taxed is_ xs

  -- The same for a supplier's items, which have no tax.
  unfoldable pub Untaxed : List ItemInput → List InvoiceItem → Type 0
  Untaxed [] [] = Unit
  Untaxed [] (x ∷ xs) = ⊥
  Untaxed (i ∷ is_) [] = ⊥
  Untaxed (i ∷ is_) (x ∷ xs) =
      (x.quantity ≡ nums.stored i.quantity)
      × (x.unit_price ≡ nums.stored i.unit_price)
      × (x.tax_rate ≡ pos 0)
      × (x.total ≡ nums.stored (nums.times i.quantity i.unit_price))
      × Untaxed is_ xs

  -- An invoice of lines with tax, one of a supplier, or a guest's request.
  unfoldable pub IsFigured : Invoice → Type 0
  IsFigured i =
      (((inputs : List ItemInput) × Taxed inputs i.items
          × (is_some i.issued_at ≡ true)
          × (i.subtotal ≡ nums.stored (subtotal_of nums nums.zero inputs))
          × (i.tax_amount ≡ nums.stored (tax_of nums nums.zero inputs))
          × (i.total
              ≡ nums.stored
                  (nums.plus (subtotal_of nums nums.zero inputs) (tax_of nums nums.zero inputs))))
        ⊎ ((inputs : List ItemInput) × Untaxed inputs i.items
            × (is_some i.issued_at ≡ true)
            × (i.subtotal ≡ nums.stored (subtotal_of nums nums.zero inputs))
            × (i.tax_amount ≡ pos 0)
            × (i.total ≡ i.subtotal))
        ⊎ ((i.issued_at ≡ none) × (i.items ≡ []) × (i.tax_amount ≡ pos 0) × (i.total ≡ i.subtotal)))
      × (is_some i.operator_company_id ≡ true → is_some i.order_id ≡ true)

  unfoldable pub Figured : InvoiceDb → Type 0
  Figured db = All IsFigured db.invoices

  pub data Step : InvoiceDb → InvoiceDb → Type 0 where
    creates :
        (failure : Option String) (now id : ℕ) (number : String) (sub : CreateInvoice)
        (db : InvoiceDb)
        → Step db (create_invoice nums failure now id number sub db).1
    requests :
        (failure : Option String) (id : ℕ) (number : String) (sub : RequestInvoice) (db : InvoiceDb)
        → Step db (request_invoice nums failure id number sub db).1
    supplies :
        (failure : Option String) (now id : ℕ) (number : String) (issuer : ℕ)
        (sub : SupplierInvoice) (db : InvoiceDb)
        → Step db (create_supplier_invoice nums failure now id number issuer sub db).1
    sets_status :
        (id : ℕ) (status : InvoiceStatus) (db : InvoiceDb)
        → Step db (set_invoice_status id status db).1
    pays : (now id : ℕ) (fully : Bool) (db : InvoiceDb) → Step db (mark_paid now id fully db).1
    voids : (id : ℕ) (db : InvoiceDb) → Step db (void_invoice id db).1
    lists :
        (user_id company_id : Option ℕ) (db : InvoiceDb)
        → Step db (list_invoices user_id company_id db).1
    -- The orders and the bookings change in other services.
    changes_others :
        (orders : List BuyerOrder) (bookings : List BilledBooking) (db : InvoiceDb)
        → Step db (record db { orders = orders; bookings = bookings })

  pub data Reachable : InvoiceDb → Type 0 where
    start : Reachable (record { invoices = []; orders = []; bookings = [] })
    next : (db db' : InvoiceDb) → Reachable db → Step db db' → Reachable db'
