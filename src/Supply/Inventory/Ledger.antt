-- ===== src/Supply/Inventory/Ledger.antt =====
-- The stock as a ledger: what each operation does to the level of each item, and that the service's
-- tables follow it.
pub mod Follows
use msk_back.Base.{
  ℕ, zero, suc, String, ◌≡◌, refl, sym, ap, ◌∙◌, inl, inr, Bool, true, false, not, ◌&&◌, ◌||◌,
  Option, none, some, List, [], ◌∷◌, ◌++◌, arith, ◌==◌, if◌then◌else◌, ==_iff, ==_refl, get_or,
  or_else, Bool-cases, Option-cases, ==_other, All, find?, filter, any, any-append, filter-append,
  filter-delete_where, append_nil, any-update_where_same, any-delete_where, any-delete_where_same,
  any-none_found,
}
use msk_back.Base.Int.{ℤ, ◌+ℤ◌, ltb_ℤ, int_laws, pos, negsuc}
use msk_back.Supply.Inventory.{
  Item, Movement, Allocation, StockDb, at_least_0, signed, is_of_item, CreateItem, initial_quantity,
  new_item, has_item, first_movement, initial_stock, create_item, update_item, is_ordered,
  remove_item, record_movement, allocate, return_allocation,
}
use msk_back.Supply.Inventory.Sums.{moved, balance, moved-signed, balance_cons}

-- The requests that write.
pub data StockOp : Type 0 where
  create : ℕ → ℕ → Option ℕ → CreateItem → StockOp
  rename : ℕ → String → ℤ → StockOp
  remove : ℕ → StockOp
  move : Movement → StockOp
  lend : Allocation → StockOp
  give_back : ℕ → ℕ → StockOp
  -- The lines of the purchase orders change, in another service.
  order : List ℕ → StockOp

abbrev pub renamed : String → ℤ → Item → Item
renamed name level i = record i { name = name; reorder_level = level }

unfoldable pub run_op : StockOp → StockDb → StockDb
run_op (create id movement_id caller sub) db = (create_item id movement_id caller sub db).1
run_op (rename id name level) db = (update_item id (renamed name level) db).1
run_op (remove id) db = (remove_item id db).1
run_op (move m) db = (record_movement m db).1
run_op (lend a) db = (allocate a db).1
run_op (give_back now id) db = (return_allocation now id db).1
run_op (order ordered) db = record db { ordered = ordered }

unfoldable pub run : List StockOp → StockDb → StockDb
run [] db = db
run (op ∷ ops) db = run ops (run_op op db)

-- The level of an item under a request, `none` where there is no such item. A new item starts at its
-- first quantity, a movement adds what it brings, a removal ends it unless a line of an order, one
-- of `ordered`, names it, and nothing else counts.
unfoldable pub level_step : List ℕ → ℕ → StockOp → Option ℤ → Option ℤ
level_step ordered j (create id movement_id caller sub) q =
    if id == j then some (get_or q (initial_quantity sub)) else q
level_step ordered j (move m) q =
    if m.item_id == j then elim q [ none ↦ none | some l ↦ some (moved m.kind m.quantity l) ] else q
level_step ordered j (remove id) q = if id == j && not (is_ordered j ordered) then none else q
level_step ordered j (rename id name level) q = q
level_step ordered j (lend a) q = q
level_step ordered j (give_back now id) q = q
level_step ordered j (order ordered') q = q

-- The items on order after a request.
abbrev pub next_ordered : StockOp → List ℕ → List ℕ
next_ordered (order ordered) _ = ordered
next_ordered _ ordered = ordered

unfoldable pub levels : List ℕ → ℕ → List StockOp → Option ℤ → Option ℤ
levels ordered j [] q = q
levels ordered j (op ∷ ops) q = levels (next_ordered op ordered) j ops (level_step ordered j op q)

-- The level that the tables hold.
unfoldable pub level_of : ℕ → StockDb → Option ℤ
level_of j db = if has_item j db then some (balance (filter (is_of_item j) db.movements)) else none

-- Every movement is of an item that is there: the foreign key.
unfoldable pub NoOrphans : StockDb → Type 0
NoOrphans db = All (λ m. has_item m.item_id db ≡ true) db.movements

+ℤ_comm : (a b : ℤ) → a +ℤ b ≡ b +ℤ a
+ℤ_comm a b = omega int_laws

+ℤ_assoc : (a b c : ℤ) → a +ℤ b +ℤ c ≡ a +ℤ (b +ℤ c)
+ℤ_assoc a b c = omega int_laws

balance-append :
    (ms : List Movement) (m : Movement)
    → balance (ms ++ m ∷ []) ≡ balance ms +ℤ signed m.kind m.quantity
unfolding balance
balance-append [] m = moved-signed m.kind m.quantity (pos 0)
balance-append (x ∷ ms) m =
    balance_cons x (ms ++ m ∷ [])
    ∙ ap (λ q. signed x.kind x.quantity +ℤ q) (balance-append ms m)
    ∙ sym (+ℤ_assoc (signed x.kind x.quantity) (balance ms) (signed m.kind m.quantity))
    ∙ ap (λ q. q +ℤ signed m.kind m.quantity) (sym (balance_cons x ms))

-- An item that is not there has no movements.
no_movements :
    (j : ℕ) (p : ℕ → Bool) (ms : List Movement)
    → All (λ m. p m.item_id ≡ true) ms
    → p j ≡ false
    → filter (is_of_item j) ms ≡ []
no_movements j p [] h missing = refl
no_movements j p (m ∷ ms) h missing = elim (Bool-cases (m.item_id == j)) [
  | inl own ↦
      let e : p m.item_id ≡ p j = ap p ((==_iff m.item_id j).0 own) in
      let here : p m.item_id ≡ true = h.0 in cc
  | inr other' ↦ ground (arith, no_movements j p ms h.1 missing)
]

-- The first movement of an item brings what it starts with.
initial_balance :
    (id movement_id : ℕ) (q : ℤ) (db : StockDb)
    → filter (is_of_item id) db.movements ≡ []
    → balance (filter (is_of_item id) (initial_stock id movement_id (at_least_0 q) db).1.movements)
      ≡ at_least_0 q
unfolding balance moved ◌+ℤ◌
initial_balance id movement_id (pos zero) db h = rw h refl
initial_balance id movement_id (pos (suc n)) db h =
    let m : Movement = first_movement id movement_id (pos (suc n)) in
    let stocked : filter (is_of_item id) (db.movements ++ m ∷ []) ≡ m ∷ [] =
      ground (arith, ==_refl id, filter-append (is_of_item id) db.movements (m ∷ [])) in
    let positive : ltb_ℤ (pos 0) (pos (suc n)) ≡ true = ground arith in
    rw positive (rw stocked (ground arith))
initial_balance id movement_id (negsuc n) db h = rw h refl

initial_others :
    (j id movement_id : ℕ) (q : ℤ) (db : StockDb)
    → (id == j) ≡ false
    → filter (is_of_item j) (initial_stock id movement_id q db).1.movements
      ≡ filter (is_of_item j) db.movements
initial_others j id movement_id q db differ =
    let m : Movement = first_movement id movement_id q in
    elim (Bool-cases (ltb_ℤ (pos 0) q)) [
      | inr empty ↦ rw empty refl
      | inl stocked ↦ rw stocked (
          ground (
            arith,
            filter-append (is_of_item j) db.movements (m ∷ []),
            append_nil (filter (is_of_item j) db.movements),
          ))
    ]

initial_items :
    (id movement_id : ℕ) (q : ℤ) (db : StockDb)
    → (initial_stock id movement_id q db).1.items ≡ db.items
initial_items id movement_id q db = ground arith

-- The tables after the creation of an item with a new id.
abbrev pub created : ℕ → ℕ → Option ℕ → CreateItem → StockDb → StockDb
created id movement_id caller sub db =
    (initial_stock id movement_id (initial_quantity sub)
      (record db { items = db.items ++ new_item id caller sub ∷ [] })).1

pub created-items :
    (j id movement_id : ℕ) (caller : Option ℕ) (sub : CreateItem) (db : StockDb)
    → has_item j (created id movement_id caller sub db) ≡ (has_item j db || id == j)
unfolding new_item
created-items j id movement_id caller sub db =
    let db' : StockDb = record db { items = db.items ++ new_item id caller sub ∷ [] } in
    ap (λ xs. any (λ i. i.id == j) xs) (initial_items id movement_id (initial_quantity sub) db')
    ∙ ground (arith, any-append (λ i. i.id == j) db.items (new_item id caller sub ∷ []))

created-own :
    (id movement_id : ℕ) (caller : Option ℕ) (sub : CreateItem) (db : StockDb)
    → NoOrphans db
    → has_item id db ≡ false
    → level_of id (created id movement_id caller sub db) ≡ some (initial_quantity sub)
unfolding level_of NoOrphans
created-own id movement_id caller sub db h free =
    let db' : StockDb = record db { items = db.items ++ new_item id caller sub ∷ [] } in
    let bare : filter (is_of_item id) db.movements ≡ [] =
      no_movements id (λ k. has_item k db) db.movements h free in
    ground (
      arith,
      ==_refl id,
      created-items id id movement_id caller sub db,
      initial_balance id movement_id (get_or (or_else sub.quantity_on_hand sub.quantity) (pos 0))
          db' bare,
    )

created-others :
    (j id movement_id : ℕ) (caller : Option ℕ) (sub : CreateItem) (db : StockDb)
    → (id == j) ≡ false
    → level_of j (created id movement_id caller sub db) ≡ level_of j db
unfolding level_of
created-others j id movement_id caller sub db differ =
    let db' : StockDb = record db { items = db.items ++ new_item id caller sub ∷ [] } in
    ground (
      arith,
      created-items j id movement_id caller sub db,
      initial_others j id movement_id (initial_quantity sub) db' differ,
    )

pub create-level :
    (j id movement_id : ℕ) (caller : Option ℕ) (sub : CreateItem) (db : StockDb)
    → NoOrphans db
    → level_of j (run_op (create id movement_id caller sub) db)
      ≡ level_step db.ordered j (create id movement_id caller sub) (level_of j db)
unfolding run_op level_step level_of create_item
create-level j id movement_id caller sub db h = elim (Bool-cases (has_item id db)) [
  | inl taken ↦ elim (Bool-cases (id == j)) [
    | inl own ↦ ground (arith, ap (λ k. has_item k db) ((==_iff id j).0 own))
    | inr other' ↦ ground arith
  ]
  | inr free ↦
      let after : StockDb = created id movement_id caller sub db in
      let same : run_op (create id movement_id caller sub) db ≡ after = ground arith in
      elim (Bool-cases (id == j)) [
        | inr other' ↦
            ground
              (arith, ap (level_of j) same, created-others j id movement_id caller sub db other')
        | inl own ↦
            let e : id ≡ j = (==_iff id j).0 own in
            ground (
              arith,
              ap (level_of j) same,
              ap (λ k. has_item k db) e,
              ap (λ k. level_of k after) e,
              created-own id movement_id caller sub db h free,
            )
      ]
]

pub move-level :
    (j : ℕ) (m : Movement) (db : StockDb)
    → level_of j (run_op (move m) db) ≡ level_step db.ordered j (move m) (level_of j db)
unfolding run_op level_step level_of record_movement
move-level j m db = elim (Bool-cases (has_item m.item_id db)) [
  | inr missing ↦ elim (Bool-cases (m.item_id == j)) [
    | inl own ↦
        let e : has_item m.item_id db ≡ has_item j db =
          ap (λ k. has_item k db) ((==_iff m.item_id j).0 own) in
        ground arith
    | inr other' ↦ ground arith
  ]
  | inl there ↦ elim (Bool-cases (m.item_id == j)) [
    | inl own ↦ ground (
      arith,
      filter-append (is_of_item j) db.movements (m ∷ []),
      balance-append (filter (is_of_item j) db.movements) m,
      moved-signed m.kind m.quantity (balance (filter (is_of_item j) db.movements)),
    )
    | inr other' ↦ ground (
      arith,
      filter-append (is_of_item j) db.movements (m ∷ []),
      append_nil (filter (is_of_item j) db.movements),
    )
  ]
]

pub remove-level :
    (j id : ℕ) (db : StockDb)
    → level_of j (run_op (remove id) db) ≡ level_step db.ordered j (remove id) (level_of j db)
unfolding run_op level_step level_of remove_item
remove-level j id db = elim (Option-cases (find? (λ i. i.id == id) db.items)) [
  | inl missing ↦ elim (Bool-cases (id == j)) [
    | inl own ↦ ground (
      arith,
      ap (λ k. has_item k db) ((==_iff id j).0 own),
      any-none_found (λ i. i.id == id) db.items missing,
    )
    | inr other' ↦ ground arith
  ]
  | inr (i, found) ↦ elim (Bool-cases (is_ordered id db.ordered)) [
    | inl kept ↦ elim (Bool-cases (id == j)) [
      | inl own ↦ ground (arith, ap (λ k. is_ordered k db.ordered) ((==_iff id j).0 own))
      | inr other' ↦ ground arith
    ]
    | inr free ↦ elim (Bool-cases (id == j)) [
      | inl own ↦
          let e : has_item id (run_op (remove id) db) ≡ has_item j (run_op (remove id) db) =
            ap (λ k. has_item k (run_op (remove id) db)) ((==_iff id j).0 own) in
          let e' : is_ordered id db.ordered ≡ is_ordered j db.ordered =
            ap (λ k. is_ordered k db.ordered) ((==_iff id j).0 own) in
          ground (arith, any-delete_where_same (λ i. i.id == id) db.items)
      | inr other' ↦ ground (
        arith,
        any-delete_where (λ i. i.id == id) (λ i. i.id == j) db.items
            (λ x k. ==_other id j x.id other' k),
        filter-delete_where (is_of_item id) (is_of_item j) db.movements
            (λ x k. ==_other id j x.item_id other' k),
      )
    ]
  ]
]

pub rename-level :
    (j id : ℕ) (name : String) (level : ℤ) (db : StockDb)
    → level_of j (run_op (rename id name level) db) ≡ level_of j db
unfolding run_op level_of update_item
rename-level j id name level db = elim (Option-cases (find? (λ i. i.id == id) db.items)) [
  | inl missing ↦ ground arith
  | inr (i, found) ↦ ground (
    arith,
    any-update_where_same (λ i. i.id == id) (λ i. i.id == j) (renamed name level) db.items
        (λ x. refl),
  )
]

pub lend-level :
    (j : ℕ) (a : Allocation) (db : StockDb) → level_of j (run_op (lend a) db) ≡ level_of j db
unfolding run_op level_of allocate
lend-level j a db = elim (Bool-cases (has_item a.item_id db)) [
  | inl there ↦ ground arith
  | inr missing ↦ ground arith
]

pub give_back-level :
    (j now id : ℕ) (db : StockDb) → level_of j (run_op (give_back now id) db) ≡ level_of j db
unfolding run_op level_of return_allocation
give_back-level j now id db = elim (Option-cases (find? (λ a. a.id == id) db.allocations)) [
  | inl missing ↦ ground arith
  | inr (a, found) ↦ ground arith
]
