-- ===== src/Supply/Inventory.antt =====
-- src/modules/inventory/inventory.service.ts: the items, their movements and their allocations. A
-- quantity is in hundredths, as the column has two decimals.
pub mod Sums
pub mod Ledger
pub mod Listed
use msk_back.Base.{
  ℕ, String, Bool, true, false, not, ◌&&◌, ◌||◌, Option, none, some, List, [], ◌∷◌, ◌++◌, map, ◌==◌,
  if◌then◌else◌, opt_eq, get_or, or_else, is_some, find?, filter, any, update_where, delete_where,
}
use msk_back.Base.Int.{ℤ, ◌+ℤ◌, ◌-ℤ◌, ltb_ℤ, pos, negsuc}
use msk_back.Base.Action.{
  Action, pure, gets, or_throw, ◌>>=◌, ◌>>◌, throw_if, modify, internal_error,
}
use msk_back.Base.Text.{is_filled}

pub data MovementType : Type 0 where
  in_ out transfer adjustment allocation return : MovementType

abbrev pub type_no : MovementType → ℕ
type_no in_ = 0
type_no out = 1
type_no transfer = 2
type_no adjustment = 3
type_no allocation = 4
type_no return = 5

abbrev pub same_type : MovementType → MovementType → Bool
same_type t u = type_no t == type_no u

pub record Item : Type 0 where
  pub id : ℕ
  pub company_id : Option ℕ
  pub property_id : Option ℕ
  pub name : String
  pub reorder_level : ℤ
  pub storage_location : Option String

pub record Movement : Type 0 where
  pub id : ℕ
  pub item_id : ℕ
  pub kind : MovementType
  pub quantity : ℤ

pub record Allocation : Type 0 where
  pub id : ℕ
  pub item_id : ℕ
  pub room_id : Option ℕ
  pub allocated_to_user_id : Option ℕ
  pub quantity : ℤ
  pub returned_at : Option ℕ

pub record StockDb : Type 0 where
  pub items : List Item
  pub movements : List Movement
  pub allocations : List Allocation
  -- The items that the lines of the purchase orders name.
  pub ordered : List ℕ

-- An item as the clients read it.
pub record EnrichedItem : Type 0 where
  pub item : Item
  pub quantity_on_hand : ℤ
  pub storage_location : Option String

-- `Math.max(0, n)`
abbrev pub at_least_0 : ℤ → ℤ
at_least_0 (pos n) = pos n
at_least_0 (negsuc _) = pos 0

abbrev pub lowers : MovementType → Bool
lowers out = true
lowers allocation = true
lowers _ = false

-- `OUT || ALLOCATION ? -sum : sum`
unfoldable pub signed : MovementType → ℤ → ℤ
signed t q = if lowers t then pos 0 -ℤ q else q

abbrev pub all_types : List MovementType
all_types = in_ ∷ out ∷ transfer ∷ adjustment ∷ allocation ∷ return ∷ []

abbrev pub is_of_item : ℕ → Movement → Bool
is_of_item id m = m.item_id == id

abbrev pub is_of_type : MovementType → Movement → Bool
is_of_type t m = same_type m.kind t

-- `_sum: { quantity }` of the rows of a type.
unfoldable pub total : MovementType → List Movement → ℤ
total t [] = pos 0
total t (m ∷ ms) = let rest = total t ms in if is_of_type t m then m.quantity +ℤ rest else rest

pub record Group : Type 0 where
  pub item_id : ℕ
  pub kind : MovementType
  pub sum : ℤ

-- `groupBy` of the movements of an item by type: a type has a group where it has a row.
unfoldable pub groups_of : ℕ → List Movement → List MovementType → List Group
groups_of id ms [] = []
groups_of id ms (t ∷ ts) =
    let rest = groups_of id ms ts in
    if any (is_of_type t) ms
    then record { item_id = id; kind = t; sum = total t ms } ∷ rest
    else rest

abbrev pub item_groups : ℕ → StockDb → List Group
item_groups id db = groups_of id (filter (is_of_item id) db.movements) all_types

-- `groupBy` by item and type, of the items with these ids.
unfoldable pub all_groups : List ℕ → StockDb → List Group
all_groups [] db = []
all_groups (id ∷ ids) db = item_groups id db ++ all_groups ids db

-- The loop of `itemDetail` over the groups of one item.
unfoldable pub add_groups : ℤ → List Group → ℤ
add_groups on_hand [] = on_hand
add_groups on_hand (g ∷ gs) = add_groups (on_hand +ℤ signed g.kind g.sum) gs

-- The map of `listItems`.
abbrev pub OnHand : Type 0
OnHand = ℕ → Option ℤ

abbrev pub set_at : ℕ → ℤ → OnHand → OnHand
set_at id q on_hand j = if id == j then some q else on_hand j

-- The loop of `listItems` over the groups of all items.
unfoldable pub on_hand_by_item : OnHand → List Group → OnHand
on_hand_by_item on_hand [] = on_hand
on_hand_by_item on_hand (g ∷ gs) =
    on_hand_by_item
      (set_at g.item_id (get_or (on_hand g.item_id) (pos 0) +ℤ signed g.kind g.sum) on_hand) gs

abbrev pub empty_map : OnHand
empty_map id = none

abbrev pub enrich : ℤ → Item → EnrichedItem
enrich q i = record {
  item = i;
  quantity_on_hand = at_least_0 q;
  storage_location = i.storage_location;
}

-- A filter that is not sent keeps every row.
abbrev pub fits_filter : Option ℕ → Option ℕ → Item → Bool
fits_filter property_id company_id i =
    (not (is_some property_id) || opt_eq i.property_id property_id)
    && (not (is_some company_id) || opt_eq i.company_id company_id)

unfoldable pub list_items : Option ℕ → Option ℕ → StockDb → List EnrichedItem
list_items property_id company_id db =
    let items = filter (fits_filter property_id company_id) db.items in
    let on_hand = on_hand_by_item empty_map (all_groups (map Item.id items) db) in
    map (λ i. enrich (get_or (on_hand i.id) (pos 0)) i) items

unfoldable pub item_detail : ℕ → StockDb → Option EnrichedItem
item_detail id db = elim (find? (λ i. i.id == id) db.items) [
  | none ↦ none
  | some i ↦ some (enrich (add_groups (pos 0) (item_groups id db)) i)
]

pub record CreateItem : Type 0 where
  pub name : Option String
  pub quantity_on_hand : Option ℤ
  pub quantity : Option ℤ
  pub min_stock : Option ℤ
  pub property_id : Option ℕ
  pub company_id : Option ℕ
  pub storage_location : Option String
  pub location_id : Option String
  pub metadata_location : Option String

-- `Math.max(0, Number(_qoh ?? quantity ?? 0) || 0)`
abbrev pub initial_quantity : CreateItem → ℤ
initial_quantity sub = at_least_0 (get_or (or_else sub.quantity_on_hand sub.quantity) (pos 0))

-- `metadata.storageLocation`, which each of the two other fields overwrites.
abbrev pub location_of : CreateItem → Option String
location_of sub =
    if is_filled sub.location_id
    then sub.location_id
    else if is_filled sub.storage_location
    then sub.storage_location
    else sub.metadata_location

unfoldable pub new_item : ℕ → Option ℕ → CreateItem → Item
new_item id caller sub = record {
  id = id;
  company_id = or_else caller sub.company_id;
  property_id = sub.property_id;
  name = get_or sub.name "New item";
  reorder_level = get_or sub.min_stock (pos 0);
  storage_location = location_of sub;
}

abbrev pub has_item : ℕ → StockDb → Bool
has_item id db = any (λ i. i.id == id) db.items

abbrev pub add_movement : Movement → StockDb → StockDb
add_movement m db = record db { movements = db.movements ++ m ∷ [] }

abbrev pub first_movement : ℕ → ℕ → ℤ → Movement
first_movement id movement_id q = record {
  id = movement_id;
  item_id = id;
  kind = in_;
  quantity = q;
}

-- The movement that brings the first stock, where there is any.
abbrev pub initial_stock : ℕ → ℕ → ℤ → Action StockDb (Unit {0})
initial_stock id movement_id q =
    if ltb_ℤ (pos 0) q then modify (add_movement (first_movement id movement_id q)) else pure tt

unfoldable pub create_item : ℕ → ℕ → Option ℕ → CreateItem → Action StockDb EnrichedItem
create_item id movement_id caller sub = do
  throw_if (← gets (has_item id)) (internal_error "Unique constraint failed on the fields: (`id`)")
  modify (λ db. record db { items = db.items ++ new_item id caller sub ∷ [] })
  initial_stock id movement_id (initial_quantity sub)
  pure (enrich (initial_quantity sub) (new_item id caller sub))

unfoldable pub update_item : ℕ → (Item → Item) → Action StockDb Item
update_item id f = do
  i ←
      or_throw (← gets (λ db. find? (λ i. i.id == id) db.items))
        (internal_error "Record to update not found.")
  modify (λ db. record db { items = update_where (λ i. i.id == id) f db.items })
  pure (f i)

abbrev pub is_ordered : ℕ → List ℕ → Bool
is_ordered id ordered = any (λ k. k == id) ordered

-- The movements and the allocations of the item go with it; a line of an order keeps it.
unfoldable pub remove_item : ℕ → Action StockDb Item
remove_item id = do
  i ←
      or_throw (← gets (λ db. find? (λ i. i.id == id) db.items))
        (internal_error "Record to delete does not exist.")
  throw_if (← gets (λ db. is_ordered id db.ordered))
      (internal_error "Foreign key constraint failed on the field: `OrderItem_itemId_fkey`")
  modify (λ db. record db {
    items = delete_where (λ i. i.id == id) db.items;
    movements = delete_where (is_of_item id) db.movements;
    allocations = delete_where (λ a. a.item_id == id) db.allocations;
  })
  pure i

unfoldable pub record_movement : Movement → Action StockDb Movement
record_movement m = do
  throw_if (not (← gets (has_item m.item_id)))
      (internal_error "Foreign key constraint failed on the field: `itemId`")
  modify (add_movement m)
  pure m

unfoldable pub allocate : Allocation → Action StockDb Allocation
allocate a = do
  throw_if (not (← gets (has_item a.item_id)))
      (internal_error "Foreign key constraint failed on the field: `itemId`")
  modify (λ db. record db { allocations = db.allocations ++ a ∷ [] })
  pure a

abbrev pub mark_returned : ℕ → Allocation → Allocation
mark_returned now a = record a { returned_at = some now }

unfoldable pub return_allocation : ℕ → ℕ → Action StockDb Allocation
return_allocation now id = do
  a ←
      or_throw (← gets (λ db. find? (λ a. a.id == id) db.allocations))
        (internal_error "Record to update not found.")
  modify (λ db. record db {
    allocations = update_where (λ a. a.id == id) (mark_returned now) db.allocations;
  })
  pure (mark_returned now a)

unfoldable pub list_allocations : Option ℕ → Option ℕ → StockDb → List Allocation
list_allocations room_id user_id db =
    filter
      (λ a.
        (not (is_some room_id) || opt_eq a.room_id room_id)
        && (not (is_some user_id) || opt_eq a.allocated_to_user_id user_id)
        && not (is_some a.returned_at))
      db.allocations
