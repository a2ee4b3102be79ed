-- ===== src/Supply/Orders/Sound.antt =====
-- What every order keeps under every operation of the service.
use msk_back.Base.{ℕ, String, ◌≡◌, true, Option, List, [], ◌∷◌, is_some, All}
use msk_back.Base.Numbers.{Numbers}
use msk_back.Supply.Orders.{
  OrderStatus, OrderUser, Line, Dispatch, Order, OrderDb, OrderLineInput, CreateOrder, sum_totals,
  OrderIds, create_order, is_received, set_status, list_for_supplier_user, dispatch,
}

module _ (nums : Numbers) where
  -- The lines keep what was sent, each number rounded by its own column.
  unfoldable pub Kept : List OrderLineInput → List Line → Type 0
  Kept [] [] = Unit
  Kept [] (l ∷ ls) = ⊥
  Kept (i ∷ is_) [] = ⊥
  Kept (i ∷ is_) (l ∷ ls) =
      (l.item_id ≡ i.item_id)
      × (l.quantity ≡ nums.stored i.quantity)
      × (l.unit_price ≡ nums.stored i.unit_price)
      × (l.total ≡ nums.stored (nums.times i.quantity i.unit_price))
      × Kept is_ ls

  -- The lines and the total come from the numbers that were sent, the total from the sum before any
  -- line is rounded; and an order that is received has the time of it.
  unfoldable pub SoundOrder : Order → Type 0
  SoundOrder o =
      ((inputs : List OrderLineInput) × Kept inputs o.lines
        × (o.total_amount ≡ nums.stored (sum_totals nums nums.zero inputs)))
      × (is_received o.status ≡ true → is_some o.received_at ≡ true)

  unfoldable pub Sound : OrderDb → Type 0
  Sound db = All SoundOrder db.orders

  -- One request, accepted or refused, or a change of the users by another service.
  pub data Step : OrderDb → OrderDb → Type 0 where
    creates :
        (lower : String → String) (ids : OrderIds) (sub : CreateOrder) (db : OrderDb)
        → Step db (create_order nums lower ids sub db).1
    sets_status :
        (now id : ℕ) (status : OrderStatus) (db : OrderDb) → Step db (set_status now id status db).1
    dispatches : (id : ℕ) (info : Dispatch) (db : OrderDb) → Step db (dispatch id info db).1
    lists :
        (lower : String → String) (id user_id : ℕ) (status : Option OrderStatus) (db : OrderDb)
        → Step db (list_for_supplier_user lower id user_id status db).1
    changes_users : (users : List OrderUser) (db : OrderDb) → Step db (record db { users = users })

  pub data Reachable : OrderDb → Type 0 where
    start : Reachable (record { users = []; suppliers = []; orders = []; notices = [] })
    next : (db db' : OrderDb) → Reachable db → Step db db' → Reachable db'
