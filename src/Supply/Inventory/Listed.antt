-- ===== src/Supply/Inventory/Listed.antt =====
-- The list of the items and the detail of each, on the quantity.
use msk_back.Base.{
  ℕ, ◌≡◌, refl, sym, ap, subst, ◌∙◌, inl, inr, Bool, true, false, Option, some, List, [], ◌∷◌, ◌++◌,
  map, arith, ◌==◌, if◌then◌else◌, ==_iff, ==_refl, get_or, Bool-cases, All, find?, filter, any,
  All-filter, All-map, All-both, All-map_of, filter-append, append_nil,
}
use msk_back.Base.Int.{ℤ, ◌+ℤ◌, pos}
use msk_back.Supply.Inventory.{
  MovementType, Item, Movement, StockDb, signed, all_types, is_of_item, is_of_type, Group,
  groups_of, item_groups, all_groups, add_groups, OnHand, set_at, on_hand_by_item, empty_map,
  enrich, fits_filter, list_items, item_detail,
}

abbrev is_group_of : ℕ → Group → Bool
is_group_of j g = g.item_id == j

add_groups-append :
    (a : ℤ) (gs hs : List Group) → add_groups a (gs ++ hs) ≡ add_groups (add_groups a gs) hs
unfolding add_groups
add_groups-append a [] hs = refl
add_groups-append a (g ∷ gs) hs = add_groups-append (a +ℤ signed g.kind g.sum) gs hs

-- In the map an item has the sum over its own groups.
on_hand-own :
    (j : ℕ) (on_hand : OnHand) (gs : List Group)
    → get_or (on_hand_by_item on_hand gs j) (pos 0)
      ≡ add_groups (get_or (on_hand j) (pos 0)) (filter (is_group_of j) gs)
unfolding on_hand_by_item add_groups
on_hand-own j on_hand [] = refl
on_hand-own j on_hand (g ∷ gs) =
    let next : OnHand =
      set_at g.item_id (get_or (on_hand g.item_id) (pos 0) +ℤ signed g.kind g.sum) on_hand in
    elim (Bool-cases (g.item_id == j)) [
      | inl own ↦
          let e : get_or (on_hand g.item_id) (pos 0) ≡ get_or (on_hand j) (pos 0) =
            ap (λ k. get_or (on_hand k) (pos 0)) ((==_iff g.item_id j).0 own) in
          let here : get_or (next j) (pos 0) ≡ get_or (on_hand j) (pos 0) +ℤ signed g.kind g.sum =
            rw own (ap (λ q. q +ℤ signed g.kind g.sum) e) in
          rw own (on_hand-own j next gs ∙ ap (λ q. add_groups q (filter (is_group_of j) gs)) here)
      | inr other' ↦
          let here : get_or (next j) (pos 0) ≡ get_or (on_hand j) (pos 0) = rw other' refl in
          rw other'
            (on_hand-own j next gs ∙ ap (λ q. add_groups q (filter (is_group_of j) gs)) here)
    ]

groups_of-own :
    (j id : ℕ) (ms : List Movement) (ts : List MovementType)
    → filter (is_group_of j) (groups_of id ms ts) ≡ (if id == j then groups_of id ms ts else [])
unfolding groups_of
groups_of-own j id ms [] = ground arith
groups_of-own j id ms (t ∷ ts) = elim (Bool-cases (any (is_of_type t) ms)) [
  | inl there ↦ elim (Bool-cases (id == j)) [
    | inl own ↦ rw there (rw own (ground (arith, groups_of-own j id ms ts)))
    | inr other' ↦ rw there (rw other' (ground (arith, groups_of-own j id ms ts)))
  ]
  | inr absent ↦ rw absent (groups_of-own j id ms ts)
]

-- No id stands twice.
unfoldable pub Distinct : List ℕ → Type 0
Distinct [] = Unit
Distinct (id ∷ ids) = (any (λ j. j == id) ids ≡ false) × Distinct ids

all_groups-none :
    (j : ℕ) (ids : List ℕ) (db : StockDb)
    → any (λ id. id == j) ids ≡ false
    → filter (is_group_of j) (all_groups ids db) ≡ []
unfolding all_groups
all_groups-none j [] db h = refl
all_groups-none j (id ∷ ids) db h = ground (
  arith,
  filter-append (is_group_of j) (item_groups id db) (all_groups ids db),
  groups_of-own j id (filter (is_of_item id) db.movements) all_types,
  all_groups-none j ids db,
)

all_groups-own :
    (j : ℕ) (ids : List ℕ) (db : StockDb)
    → Distinct ids
    → any (λ id. id == j) ids ≡ true
    → filter (is_group_of j) (all_groups ids db) ≡ item_groups j db
unfolding all_groups Distinct
all_groups-own j [] db d h = cc
all_groups-own j (id ∷ ids) db d h =
    let split' : filter (is_group_of j) (item_groups id db ++ all_groups ids db)
        ≡ filter (is_group_of j) (item_groups id db) ++ filter (is_group_of j) (all_groups ids db) =
      filter-append (is_group_of j) (item_groups id db) (all_groups ids db) in
    elim (Bool-cases (id == j)) [
      | inl own ↦
          let e : id ≡ j = (==_iff id j).0 own in
          let rest : filter (is_group_of j) (all_groups ids db) ≡ [] =
            all_groups-none j ids db (subst (λ k. any (λ i. i == k) ids ≡ false) e d.0) in
          let first : filter (is_group_of j) (item_groups id db) ≡ item_groups id db =
            groups_of-own j id (filter (is_of_item id) db.movements) all_types ∙ (rw own refl) in
          split'
          ∙ (rw (first, rest) (append_nil (item_groups id db) ∙ ap (λ k. item_groups k db) e))
      | inr other' ↦
          let first : filter (is_group_of j) (item_groups id db) ≡ [] =
            groups_of-own j id (filter (is_of_item id) db.movements) all_types ∙ (rw other' refl) in
          split' ∙ (rw first (all_groups-own j ids db d.1 (ground arith)))
    ]

ids_of : List Item → List ℕ
ids_of items = map Item.id items

none_twice :
    (id : ℕ) (items : List Item)
    → any (λ j. j == id) (ids_of items) ≡ false
    → All (λ i. (i.id == id) ≡ false) items
unfolding ids_of
none_twice id [] h = tt
none_twice id (i ∷ items) h = (ground arith, none_twice id items (ground arith))

any-filter_ids :
    (id : ℕ) (p : Item → Bool) (items : List Item)
    → any (λ j. j == id) (ids_of items) ≡ false
    → any (λ j. j == id) (ids_of (filter p items)) ≡ false
unfolding ids_of
any-filter_ids id p [] h = h
any-filter_ids id p (i ∷ items) h = elim (Bool-cases (p i)) [
  | inl kept ↦ rw kept (ground (arith, any-filter_ids id p items))
  | inr dropped ↦ rw dropped (any-filter_ids id p items (ground arith))
]

Distinct-filter :
    (p : Item → Bool) (items : List Item)
    → Distinct (ids_of items)
    → Distinct (ids_of (filter p items))
unfolding Distinct ids_of
Distinct-filter p [] d = tt
Distinct-filter p (i ∷ items) d = elim (Bool-cases (p i)) [
  | inl kept ↦ rw kept (any-filter_ids i.id p items d.0, Distinct-filter p items d.1)
  | inr dropped ↦ rw dropped (Distinct-filter p items d.1)
]

sym_eq : (a b : ℕ) → (a == b) ≡ false → (b == a) ≡ false
sym_eq a b h = ground arith

-- A search by a row's id finds the row.
found_again :
    (items : List Item)
    → Distinct (ids_of items)
    → All (λ i. find? (λ x. x.id == i.id) items ≡ some i) items
unfolding Distinct ids_of
found_again [] d = tt
found_again (x ∷ items) d = (
  ground (arith, ==_refl x.id),
  All-map (λ i. ((i.id == x.id) ≡ false) × (find? (λ y. y.id == i.id) items ≡ some i))
      (λ i. find? (λ y. y.id == i.id) (x ∷ items) ≡ some i) items
      (λ i h. ground (arith, h.0, h.1, sym_eq i.id x.id h.0))
      (All-both (λ i. (i.id == x.id) ≡ false) _ items (none_twice x.id items d.0)
        (found_again items d.1)),
)

listed : (items : List Item) → All (λ i. any (λ k. k == i.id) (ids_of items) ≡ true) items
unfolding ids_of
listed [] = tt
listed (x ∷ items) = (
  ground (arith, ==_refl x.id),
  All-map (λ i. any (λ k. k == i.id) (ids_of items) ≡ true)
      (λ i. any (λ k. k == i.id) (ids_of (x ∷ items)) ≡ true) items (λ i h. ground arith)
      (listed items),
)

found_detail :
    (i : Item) (db : StockDb)
    → find? (λ x. x.id == i.id) db.items ≡ some i
    → item_detail i.id db ≡ some (enrich (add_groups (pos 0) (item_groups i.id db)) i)
unfolding item_detail
found_detail i db found = ground arith

-- Where no two items have one id, each entry of the list, under any filter, is what the detail of
-- its item shows, the quantity on hand included.
pub list_items-item_detail :
    (property_id company_id : Option ℕ) (db : StockDb)
    → Distinct (map Item.id db.items)
    → All (λ e. item_detail e.item.id db ≡ some e) (list_items property_id company_id db)
unfolding list_items item_detail ids_of
list_items-item_detail property_id company_id db d =
    let p : Item → Bool = fits_filter property_id company_id in
    let items : List Item = filter p db.items in
    let on_hand : OnHand = on_hand_by_item empty_map (all_groups (ids_of items) db) in
    All-map_of (λ e. item_detail e.item.id db ≡ some e)
      (λ i. enrich (get_or (on_hand i.id) (pos 0)) i) items
      (All-map
        (λ i.
          (find? (λ x. x.id == i.id) db.items ≡ some i)
          × (any (λ k. k == i.id) (ids_of items) ≡ true))
        _ items
        (λ i h.
          let q : get_or (on_hand i.id) (pos 0) ≡ add_groups (pos 0) (item_groups i.id db) =
            on_hand-own i.id empty_map (all_groups (ids_of items) db)
            ∙ ap (add_groups (pos 0))
                (all_groups-own i.id (ids_of items) db (Distinct-filter p db.items d) h.1) in
          found_detail i db h.0 ∙ ap (λ n. some (enrich n i)) (sym q))
        (All-both _ _ items (All-filter _ p db.items (found_again db.items d)) (listed items)))
