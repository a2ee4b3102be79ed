-- ===== src/Supply/Orders/Claimed.antt =====
-- What a supplier's first load of the list binds and shows.
use msk_back.Base.{
  get_or, ℕ, String, ◌≡◌, refl, sym, ap, ◌∙◌, inl, inr, Bool, true, false, ◌&&◌, Option, none, some,
  List, [], ◌∷◌, ◌++◌, arith, ◌==◌, ==_refl, opt_eq, Bool-cases, Option-cases, filter, any,
  update_where, any-append, find?-append,
}
use msk_back.Base.Numbers.{Numbers}
use msk_back.Base.Action.{
  ok_inj, Result-cases, Action, pure, gets, ◌>>=◌, ◌>>◌, throw_if, modify, internal_error, ok,
}
use msk_back.Base.Text.{is_blank}
use msk_back.Permissions.Catalog.{supplier}
use msk_back.Permissions.{same_role}
use msk_back.Supply.Orders.{
  order_refused, OrderUser, Order, OrderDb, notify, supplier_of_user, resolve_supplier_user_id,
  CreateOrder, OrderIds, target_email, resolve_supplier, new_order, add_order, create_order,
  user_of, own_row, is_orphan, bind_to, claim_email, claim_orphans, is_listed,
  list_for_supplier_user,
}
use text.Mathlib.TextPositions.{eq_refl}

-- A user who is a supplier has a row after the load, with the orders as they were.
own_row-supplier :
    (id user_id : ℕ) (u : OrderUser) (db : OrderDb)
    → user_of user_id db ≡ some u
    → same_role u.role supplier ≡ true
    → (supplier_id : ℕ) × ((own_row id user_id db).0 ≡ ok (some supplier_id))
      × ((own_row id user_id db).1.orders ≡ db.orders)
      × ((own_row id user_id db).1.users ≡ db.users)
unfolding own_row
own_row-supplier id user_id u db found role = elim (Option-cases (supplier_of_user user_id db)) [
  | inl missing ↦ (id, ground arith, ground arith, ground arith)
  | inr (s, row) ↦ (s.id, ground arith, ground arith, ground arith)
]

-- The order of the id is among them, and nobody's, and meant for the email.
abbrev is_waiting : ℕ → String → Order → Bool
is_waiting order_id email o = o.id == order_id && is_orphan email o

abbrev pub is_id : ℕ → Order → Bool
is_id order_id o = o.id == order_id

any-filter :
    {A : Type 0} (p q r : A → Bool) (xs : List A)
    → ((x : A) → p x ≡ true → (q x ≡ true) × (r x ≡ true))
    → any p xs ≡ true
    → any q (filter r xs) ≡ true
any-filter p q r [] h e = e
any-filter p q r (x ∷ xs) h e = elim (Bool-cases (p x)) [
  | inl hit ↦ ground (arith, h x hit)
  | inr miss ↦ elim (Bool-cases (r x)) [
    | inl kept ↦ ground (arith, any-filter p q r xs h)
    | inr dropped ↦ ground (arith, any-filter p q r xs h)
  ]
]

-- Every row that meets the first condition is changed into one that meets the second.
any-changed :
    {A : Type 0} (p q c : A → Bool) (f : A → A) (xs : List A)
    → ((x : A) → p x ≡ true → (c x ≡ true) × (q (f x) ≡ true))
    → any p xs ≡ true
    → any q (update_where c f xs) ≡ true
any-changed p q c f [] h e = e
any-changed p q c f (x ∷ xs) h e = elim (Bool-cases (p x)) [
  | inl hit ↦ ground (arith, h x hit)
  | inr miss ↦ ground (arith, any-changed p q c f xs h)
]

list-waiting :
    (lower : String → String) (id user_id order_id : ℕ) (email : String) (u : OrderUser)
    (db : OrderDb)
    → user_of user_id db ≡ some u
    → same_role u.role supplier ≡ true
    → claim_email lower user_id db ≡ some email
    → any (is_waiting order_id email) db.orders ≡ true
    → (os : List Order) × ((list_for_supplier_user lower id user_id none db).0 ≡ ok os)
      × (any (is_id order_id) os ≡ true)
unfolding list_for_supplier_user claim_orphans
list-waiting lower id user_id order_id email u db found role claim waiting =
    let (supplier_id, own, orders, users) = own_row-supplier id user_id u db found role in
    let bound : List Order = update_where (is_orphan email) (bind_to supplier_id) db.orders in
    let mine : Order → Bool = λ o. o.id == order_id && opt_eq o.supplier_id (some supplier_id) in
    let there : any mine bound ≡ true =
      any-changed (is_waiting order_id email) mine (is_orphan email) (bind_to supplier_id) db.orders
        (λ x h. (ground arith, ground (arith, ==_refl supplier_id))) waiting in
    let shown : any (is_id order_id) (filter (is_listed supplier_id none) bound) ≡ true =
      any-filter mine (is_id order_id) (is_listed supplier_id none) bound
        (λ x h. (ground arith, ground arith)) there in
    let claim' : claim_email lower user_id (own_row id user_id db).1 ≡ some email =
      ap (λ us. claim_email lower user_id (record db { users = us })) users ∙ claim in
    (filter (is_listed supplier_id none) bound, ground arith, shown)

-- The end of `create_order`, once the supplier is known.
abbrev finish : OrderIds → Order → Action OrderDb Order
finish ids o = do
  throw_if (← gets (order_refused ids o))
      (internal_error (get_or ids.failure "Unique constraint failed on the fields: (`number`)"))
  modify (add_order o)
  user_id ← gets (resolve_supplier_user_id o.supplier_id)
  notify user_id "New purchase order" o.id
  pure o

notify-orders :
    (user_id : Option ℕ) (title : String) (order_id : ℕ) (db : OrderDb)
    → ((notify user_id title order_id db).0 ≡ ok tt)
      × ((notify user_id title order_id db).1.orders ≡ db.orders)
notify-orders none title order_id db = (refl, refl)
notify-orders (some u) title order_id db = (refl, refl)

finish-appended :
    (ids : OrderIds) (p o : Order) (db after : OrderDb)
    → finish ids p db ≡ (ok o, after)
    → (o ≡ p) × (after.orders ≡ db.orders ++ o ∷ [])
finish-appended ids p o db after h = elim (Bool-cases (order_refused ids p db)) [
  | inl taken ↦ ground arith
  | inr free ↦
      let next : OrderDb = add_order p db in
      let user_id : Option ℕ = resolve_supplier_user_id p.supplier_id next in
      let (sent, orders) = notify-orders user_id "New purchase order" p.id next in
      let ran : finish ids p db ≡ (ok p, (notify user_id "New purchase order" p.id next).1) =
        ground arith in
      let wrote : after ≡ (notify user_id "New purchase order" p.id next).1 =
        ap (λ r. r.1) (sym h ∙ ran) in
      let same : o ≡ p = ok_inj o p (ap (λ r. r.0) (sym h ∙ ran)) in
      (same, ap OrderDb.orders wrote ∙ orders ∙ ap (λ x. db.orders ++ x ∷ []) (sym same))
]

create-appended :
    (nums : Numbers) (lower : String → String) (ids : OrderIds) (sub : CreateOrder)
    (db after : OrderDb) (o : Order)
    → create_order nums lower ids sub db ≡ (ok o, after)
    → (os : List Order) × (after.orders ≡ os ++ o ∷ [])
unfolding create_order new_order
create-appended nums lower ids sub db after o h =
    let email : Option String = target_email lower sub.supplier_email in
    elim (Result-cases (resolve_supplier ids.supplier_id sub.supplier_id email db).0) [
      | inl (e, refused) ↦ ground arith
      | inr (supplier_id, resolved) ↦
          let before : OrderDb = (resolve_supplier ids.supplier_id sub.supplier_id email db).1 in
          let p : Order = new_order nums ids sub email supplier_id in
          let same : create_order nums lower ids sub db ≡ finish ids p before = ground arith in
          (before.orders, (finish-appended ids p o before after (sym same ∙ h)).1)
    ]

-- A purchase order is made for an email of which no supplier's account is known: nobody's, and kept
-- with the email. Then a user with a new id signs up as a supplier, whose email in lower case is that
-- one. The first list that the user loads succeeds and has the order. The order's email is not empty.
pub list_for_supplier_user-create_order :
    (nums : Numbers) (lower : String → String) (ids : OrderIds) (sub : CreateOrder)
    (db after : OrderDb) (o : Order) (email mail : String) (u : OrderUser) (id : ℕ)
    → create_order nums lower ids sub db ≡ (ok o, after)
    → o.supplier_id ≡ none
    → o.supplier_email ≡ some email
    → is_blank email ≡ false
    → user_of u.id after ≡ none
    → u.email ≡ some mail
    → lower mail ≡ email
    → same_role u.role supplier ≡ true
    → (os : List Order) × ((list_for_supplier_user lower id u.id none
          (record after { users = after.users ++ u ∷ [] })).0
        ≡ ok os)
      × (any (is_id o.id) os ≡ true)
list_for_supplier_user-create_order nums lower ids sub db after o email mail u id h nobody kept
      filled unknown has lowered role =
    let (before, orders) = create-appended nums lower ids sub db after o h in
    let joined : OrderDb = record after { users = after.users ++ u ∷ [] } in
    let found : user_of u.id joined ≡ some u =
      ground (arith, find?-append (λ x. x.id == u.id) after.users (u ∷ []), ==_refl u.id) in
    let claim : claim_email lower u.id joined ≡ some email = ground arith in
    let waits : is_waiting o.id email o ≡ true = ground (arith, ==_refl o.id, eq_refl email) in
    let there : any (is_waiting o.id email) joined.orders ≡ true =
      ground (arith, any-append (is_waiting o.id email) before (o ∷ [])) in
    list-waiting lower id u.id o.id email u joined found role claim there
