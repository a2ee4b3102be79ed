-- ===== src/Supply/Orders.antt =====
-- src/modules/orders/orders.service.ts: the purchase orders and the suppliers' claim to them.
-- What a request gives as numbers is JavaScript's, and a column is in hundredths.
pub mod Claimed
pub mod Sound
use msk_back.Base.{
  ℕ, zero, String, Bool, true, false, not, ◌&&◌, Option, none, some, List, [], ◌∷◌, ◌++◌, map, ◌==◌,
  if◌then◌else◌, opt_eq, get_or, is_some, find?, filter, any, update_where, ◌||◌,
}
use msk_back.Base.Int.{ℤ}
use msk_back.Base.Action.{
  Action, pure, gets, or_throw, ◌>>=◌, ◌>>◌, throw_if, modify, not_found, internal_error,
}
use msk_back.Base.Text.{is_blank, is_filled, same_text, text_is, trim}
use msk_back.Base.Numbers.{Numbers}
use msk_back.Permissions.{same_role}
use msk_back.Permissions.Catalog.{Role, supplier}

pub data OrderStatus : Type 0 where
  draft submitted approved rejected in_transit received cancelled : OrderStatus

pub record Supplier : Type 0 where
  pub id : ℕ
  pub user_id : ℕ
  pub company_name : String

-- The columns of a user that the service reads.
pub record OrderUser : Type 0 where
  pub id : ℕ
  pub email : Option String
  pub full_name : Option String
  pub role : Role

pub record Line : Type 0 where
  pub item_id : ℕ
  pub quantity : ℤ
  pub unit_price : ℤ
  pub total : ℤ

pub record Dispatch : Type 0 where
  pub method : Option String
  pub tracking_number : Option String
  pub carrier : Option String
  pub notes : Option String
  pub dispatched_at : ℕ

pub record Order : Type 0 where
  pub id : ℕ
  pub number : String
  pub supplier_id : Option ℕ
  pub created_by_id : Option ℕ
  pub status : OrderStatus
  pub total_amount : ℤ
  pub currency : String
  pub notes : Option String
  pub expected_at : Option ℕ
  pub received_at : Option ℕ
  -- The two keys of the column `metadata`.
  pub supplier_email : Option String
  pub dispatch_info : Option Dispatch
  pub lines : List Line

-- A push notification: the user, the title and the order.
pub record Notice : Type 0 where
  pub user_id : ℕ
  pub title : String
  pub order_id : ℕ

pub record OrderDb : Type 0 where
  pub users : List OrderUser
  pub suppliers : List Supplier
  pub orders : List Order
  pub notices : List Notice

abbrev pub notify : Option ℕ → String → ℕ → Action OrderDb (Unit {0})
notify none title order_id = pure tt
notify (some user_id) title order_id = modify (λ db. record db {
  notices = db.notices ++ record { user_id = user_id; title = title; order_id = order_id } ∷ [];
})

abbrev pub supplier_of_user : ℕ → OrderDb → Option Supplier
supplier_of_user user_id db = find? (λ s. s.user_id == user_id) db.suppliers

unfoldable pub resolve_supplier_user_id : Option ℕ → OrderDb → Option ℕ
resolve_supplier_user_id none db = none
resolve_supplier_user_id (some id) db = elim (find? (λ s. s.id == id) db.suppliers) [
  | none ↦ none
  | some s ↦ some s.user_id
]

abbrev pub order_at : ℕ → OrderDb → Option Order
order_at id db = find? (λ o. o.id == id) db.orders

unfoldable pub detail : ℕ → Action OrderDb Order
detail id = do or_throw (← gets (order_at id)) (not_found "Order not found")

unfoldable pub is_order_for_supplier_user : ℕ → ℕ → OrderDb → Bool
is_order_for_supplier_user order_id user_id db = elim (supplier_of_user user_id db) [
  | none ↦ false
  | some s ↦ elim (order_at order_id db) [
    | none ↦ false
    | some o ↦ opt_eq o.supplier_id (some s.id)
  ]
]

pub record OrderLineInput : Type 0 where
  pub item_id : ℕ
  pub quantity : ℕ
  pub unit_price : ℕ

pub record CreateOrder : Type 0 where
  pub supplier_id : Option ℕ
  pub supplier_email : Option String
  pub created_by_id : Option ℕ
  pub items : List OrderLineInput
  pub currency : Option String
  pub notes : Option String
  pub expected_at : Option ℕ

-- `i.quantity * i.unitPrice`
abbrev pub line_total : Numbers → OrderLineInput → ℕ
line_total nums i = nums.times i.quantity i.unit_price

-- The line as its columns keep it.
abbrev pub line_of : Numbers → OrderLineInput → Line
line_of nums i = record {
  item_id = i.item_id;
  quantity = nums.stored i.quantity;
  unit_price = nums.stored i.unit_price;
  total = nums.stored (line_total nums i);
}

-- `items.reduce((sum, i) => sum + i.total, sum)`, on the numbers before any column rounds them.
unfoldable pub sum_totals : Numbers → ℕ → List OrderLineInput → ℕ
sum_totals nums sum [] = sum
sum_totals nums sum (i ∷ is_) = sum_totals nums (nums.plus sum (line_total nums i)) is_

-- What a request draws: the id and the number of the order, and the id of a supplier's row; and what
-- the database says where it refuses the order for another reason than its number, as for a line of an
-- unknown item.
pub record OrderIds : Type 0 where
  pub order_id : ℕ
  pub number : String
  pub supplier_id : ℕ
  pub failure : Option String

-- `supplierEmail?.trim().toLowerCase()`, where something is left of it.
abbrev pub target_email : (String → String) → Option String → Option String
target_email lower none = none
target_email lower (some e) = let t = lower (trim e) in if is_blank t then none else some t

abbrev pub is_supplier_named : String → OrderUser → Bool
is_supplier_named email u = text_is u.email email && same_role u.role supplier

-- `fullName?.trim() || …`
abbrev pub name_or : Option String → String → String
name_or none d = d
name_or (some n) d = let t = trim n in if is_blank t then d else t

abbrev pub add_supplier : Supplier → OrderDb → OrderDb
add_supplier s db = record db { suppliers = db.suppliers ++ s ∷ [] }

-- The supplier's row of a user, made where it is missing.
unfoldable pub supplier_row : ℕ → OrderUser → String → Action OrderDb ℕ
supplier_row id u name = do
  s ← gets (supplier_of_user u.id)
  elim s [
    | some s ↦ pure s.id
    | none ↦ do
      modify (add_supplier (record { id = id; user_id = u.id; company_name = name }))
      pure id
  ]

unfoldable pub resolve_supplier : ℕ → Option ℕ → Option String → Action OrderDb (Option ℕ)
resolve_supplier id (some supplier_id) email = pure (some supplier_id)
resolve_supplier id none none = pure none
resolve_supplier id none (some email) = do
  u ← gets (λ db. find? (is_supplier_named email) db.users)
  elim u [
    | none ↦ pure none
    | some u ↦ do s ← supplier_row id u (name_or u.full_name email); pure (some s)
  ]

unfoldable pub new_order : Numbers → OrderIds → CreateOrder → Option String → Option ℕ → Order
new_order nums ids sub email supplier_id = record {
  id = ids.order_id;
  number = ids.number;
  supplier_id = supplier_id;
  created_by_id = sub.created_by_id;
  status = submitted;
  total_amount = nums.stored (sum_totals nums nums.zero sub.items);
  currency = get_or sub.currency "USD";
  notes = sub.notes;
  expected_at = sub.expected_at;
  received_at = none;
  supplier_email = email;
  dispatch_info = none;
  lines = map (line_of nums) sub.items;
}

abbrev pub add_order : Order → OrderDb → OrderDb
add_order o db = record db { orders = db.orders ++ o ∷ [] }

abbrev pub order_refused : OrderIds → Order → OrderDb → Bool
order_refused ids o db = any (λ x. same_text x.number o.number) db.orders || is_some ids.failure

unfoldable pub create_order :
    Numbers → (String → String) → OrderIds → CreateOrder → Action OrderDb Order
create_order nums lower ids sub = do
  let email = target_email lower sub.supplier_email
  supplier_id ← resolve_supplier ids.supplier_id sub.supplier_id email
  let o = new_order nums ids sub email supplier_id
  throw_if (← gets (order_refused ids o))
      (internal_error (get_or ids.failure "Unique constraint failed on the fields: (`number`)"))
  modify (add_order o)
  user_id ← gets (resolve_supplier_user_id supplier_id)
  notify user_id "New purchase order" o.id
  pure o

abbrev pub is_received : OrderStatus → Bool
is_received received = true
is_received _ = false

abbrev pub with_status : ℕ → OrderStatus → Order → Order
with_status now status o = record o {
  status = status;
  received_at = if is_received status then some now else o.received_at;
}

abbrev pub write_order : ℕ → (Order → Order) → Action OrderDb (Unit {0})
write_order id f = modify (λ db. record db { orders = update_where (λ o. o.id == id) f db.orders })

unfoldable pub set_status : ℕ → ℕ → OrderStatus → Action OrderDb Order
set_status now id status = do
  o ← or_throw (← gets (order_at id)) (internal_error "Record to update not found.")
  write_order id (with_status now status)
  notify o.created_by_id "Order status" o.id
  pure (with_status now status o)

abbrev pub user_of : ℕ → OrderDb → Option OrderUser
user_of id db = find? (λ u. u.id == id) db.users

-- `fullName?.trim() || email || 'Supplier'`
abbrev pub company_name_of : OrderUser → String
company_name_of u =
    name_or u.full_name (if is_filled u.email then get_or u.email "Supplier" else "Supplier")

-- The row of the caller, made where a supplier has none; `none` for a user who is no supplier.
unfoldable pub own_row : ℕ → ℕ → Action OrderDb (Option ℕ)
own_row id user_id = do
  s ← gets (supplier_of_user user_id)
  elim s [
    | some s ↦ pure (some s.id)
    | none ↦ do
      u ← gets (user_of user_id)
      elim u [
        | none ↦ pure none
        | some u ↦
            if same_role u.role supplier
            then (modify (
                  add_supplier
                    (record { id = id; user_id = u.id; company_name = company_name_of u }))
                >> pure (some id))
            else pure none
      ]
  ]

-- An order of nobody that was meant for the email.
abbrev pub is_orphan : String → Order → Bool
is_orphan email o = not (is_some o.supplier_id) && text_is o.supplier_email email

abbrev pub bind_to : ℕ → Order → Order
bind_to supplier_id o = record o { supplier_id = some supplier_id }

-- `user?.email?.toLowerCase()`, where it is not empty.
abbrev pub claim_email : (String → String) → ℕ → OrderDb → Option String
claim_email lower user_id db = elim (user_of user_id db) [
  | none ↦ none
  | some u ↦ elim u.email [
    | none ↦ none
    | some e ↦ if is_blank (lower e) then none else some (lower e)
  ]
]

unfoldable pub claim_orphans : Option String → ℕ → Action OrderDb (Unit {0})
claim_orphans none supplier_id = pure tt
claim_orphans (some email) supplier_id =
    modify
      (λ db. record db { orders = update_where (is_orphan email) (bind_to supplier_id) db.orders })

abbrev pub status_no : OrderStatus → ℕ
status_no draft = 0
status_no submitted = 1
status_no approved = 2
status_no rejected = 3
status_no in_transit = 4
status_no received = 5
status_no cancelled = 6

abbrev pub is_listed : ℕ → Option OrderStatus → Order → Bool
is_listed supplier_id status o =
    opt_eq o.supplier_id (some supplier_id)
    && elim status [ none ↦ true | some s ↦ status_no o.status == status_no s ]

unfoldable pub list_for_supplier_user :
    (String → String) → ℕ → ℕ → Option OrderStatus → Action OrderDb (List Order)
list_for_supplier_user lower id user_id status = do
  s ← own_row id user_id
  elim s [
    | none ↦ pure []
    | some supplier_id ↦ do
      email ← gets (claim_email lower user_id)
      claim_orphans email supplier_id
      gets (λ db. filter (is_listed supplier_id status) db.orders)
  ]

abbrev pub dispatched : Dispatch → Order → Order
dispatched info o = record o { status = in_transit; dispatch_info = some info }

unfoldable pub dispatch : ℕ → Dispatch → Action OrderDb Order
dispatch id info = do
  o ← or_throw (← gets (order_at id)) (not_found "Order not found")
  write_order id (dispatched info)
  notify o.created_by_id "Order dispatched" o.id
  pure (dispatched info o)
