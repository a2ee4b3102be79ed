-- ===== src/Supply/Examples.antt =====
-- Some stock and an order, and the theorems of this part on them.
use msk_back.Base.Text.{trim}
use msk_back.Base.{ℕ, String, ◌≡◌, refl, true, none, some, List, [], ◌∷◌, All, any, ◌*◌, ◌+◌, ◌/◌}
use msk_back.Base.Int.{pos}
use msk_back.Base.Numbers.{Numbers}
use msk_back.Base.Action.{ok}
use msk_back.Permissions.Catalog.{supplier}
use msk_back.Supply.Inventory.{
  MovementType, Item, Movement, Allocation, StockDb, list_items, item_detail, CreateItem, in_, out,
}
use msk_back.Supply.Inventory.Ledger.{StockOp, create, remove, move, lend, order}
use msk_back.Supply.Inventory.Listed.{list_items-item_detail, Distinct}
use msk_back.Supply.Orders.{
  CreateOrder, OrderIds, OrderDb, Order, OrderUser, new_order, create_order, list_for_supplier_user,
  resolve_supplier, resolve_supplier_user_id,
}
use msk_back.Supply.Orders.Claimed.{is_id, list_for_supplier_user-create_order}
use msk_back.Supply.Orders.Sound.{Sound}

abbrev an_input : CreateItem
an_input = record {
  name = some "Towel";
  quantity_on_hand = none;
  quantity = some (pos 1_000);
  min_stock = none;
  property_id = none;
  company_id = none;
  storage_location = none;
  location_id = none;
  metadata_location = none;
}

abbrev a_movement : ℕ → MovementType → ℕ → Movement
a_movement id kind q = record { id = id; item_id = 7; kind = kind; quantity = pos q }

abbrev an_allocation : Allocation
an_allocation = record {
  id = 1;
  item_id = 7;
  room_id = some 3;
  allocated_to_user_id = none;
  quantity = pos 500;
  returned_at = none;
}

abbrev a_week : List StockOp
a_week =
    create 7 1 none an_input
    ∷ move (a_movement 2 out 300)
    ∷ lend an_allocation
    ∷ order (7 ∷ [])
    ∷ remove 7
    ∷ move (a_movement 3 in_ 50)
    ∷ []

abbrev no_stock : StockDb
no_stock = record { items = []; movements = []; allocations = []; ordered = [] }

abbrev an_item : Item
an_item = record {
  id = 7;
  company_id = none;
  property_id = none;
  name = "Towel";
  reorder_level = pos 0;
  storage_location = none;
}

abbrev some_stock : StockDb
some_stock = record {
  items = an_item ∷ [];
  movements = a_movement 1 in_ 1_000 ∷ a_movement 2 out 300 ∷ [];
  allocations = [];
  ordered = [];
}

list_items-item_detail_example :
    All (λ e. item_detail e.item.id some_stock ≡ some e) (list_items none none some_stock)
unfolding Distinct
list_items-item_detail_example = list_items-item_detail none none some_stock (refl, tt)

abbrev as_is : String → String
as_is s = s

-- Numbers without a fraction.
abbrev whole : Numbers
whole = record {
  times = λ a b. a * b;
  plus = λ a b. a + b;
  over = λ a b. a / b;
  zero = 0;
  one = 1;
  hundred = 100;
  stored = λ n. pos (n * 100);
}

abbrev an_order_input : CreateOrder
an_order_input = record {
  supplier_id = none;
  supplier_email = some " sam@x.org ";
  created_by_id = some 1;
  items = record { item_id = 7; quantity = 3; unit_price = 250 } ∷ [];
  currency = none;
  notes = none;
  expected_at = none;
}

abbrev order_ids : OrderIds
order_ids = record { order_id = 1; number = "PO-2026-ABCDEF"; supplier_id = 5; failure = none }

abbrev no_orders : OrderDb
no_orders = record { users = []; suppliers = []; orders = []; notices = [] }

abbrev ordered : OrderDb
ordered = (create_order whole as_is order_ids an_order_input no_orders).1

abbrev the_order : Order
the_order = new_order whole order_ids an_order_input (some "sam@x.org") none

abbrev sam : OrderUser
sam = record { id = 9; email = some "sam@x.org"; full_name = some "Sam"; role = supplier }

list_for_supplier_user-create_order_example :
    (os : List Order) × ((list_for_supplier_user as_is 6 9 none
        (record ordered { users = sam ∷ [] })).0
      ≡ ok os)
    × (any (is_id 1) os ≡ true)
unfolding create_order resolve_supplier trim resolve_supplier_user_id new_order
list_for_supplier_user-create_order_example =
    list_for_supplier_user-create_order whole as_is order_ids an_order_input no_orders ordered
      the_order "sam@x.org" "sam@x.org" sam 6 refl refl refl refl refl refl refl refl
