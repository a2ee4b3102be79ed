-- ===== src/Supply/Inventory/Sums.antt =====
-- The stock on hand, as a sum over the movements.
use msk_back.Base.{
  ℕ, ◌≡◌, refl, ap, ◌∙◌, inl, inr, false, List, [], ◌∷◌, arith, Bool-cases, filter, any, sym,
}
use msk_back.Base.Int.{ℤ, ◌+ℤ◌, int_laws, pos, ◌-ℤ◌}
use msk_back.Supply.Inventory.{
  MovementType, Movement, StockDb, lowers, signed, all_types, is_of_item, is_of_type, total,
  groups_of, item_groups, add_groups, in_, out, transfer, adjustment, allocation, return,
}

-- What a movement does to a level, type by type.
unfoldable pub moved : MovementType → ℤ → ℤ → ℤ
moved in_ q level = level +ℤ q
moved out q level = level -ℤ q
moved transfer q level = level +ℤ q
moved adjustment q level = level +ℤ q
moved allocation q level = level -ℤ q
moved return q level = level +ℤ q

-- The level that movements leave, one by one.
unfoldable pub balance : List Movement → ℤ
balance [] = pos 0
balance (m ∷ ms) = moved m.kind m.quantity (balance ms)

pub moved-signed : (t : MovementType) (q level : ℤ) → moved t q level ≡ level +ℤ signed t q
unfolding moved signed
moved-signed in_ q level = refl
moved-signed out q level = omega int_laws
moved-signed transfer q level = refl
moved-signed adjustment q level = refl
moved-signed allocation q level = omega int_laws
moved-signed return q level = refl

pub balance_cons :
    (m : Movement) (ms : List Movement) → balance (m ∷ ms) ≡ signed m.kind m.quantity +ℤ balance ms
unfolding balance
balance_cons m ms =
    let q : ℤ = signed m.kind m.quantity in
    let level : ℤ = balance ms in moved-signed m.kind m.quantity level ∙ omega int_laws

-- The totals of the types, with their signs.
sum_types : List MovementType → List Movement → ℤ
sum_types [] ms = pos 0
sum_types (t ∷ ts) ms = signed t (total t ms) +ℤ sum_types ts ms

total-none :
    (t : MovementType) (ms : List Movement) → any (is_of_type t) ms ≡ false → total t ms ≡ pos 0
unfolding total
total-none t [] h = refl
total-none t (m ∷ ms) h = ground (arith, total-none t ms)

signed_add : (t : MovementType) (a b : ℤ) → signed t (a +ℤ b) ≡ signed t a +ℤ signed t b
unfolding signed
signed_add t a b = elim (Bool-cases (lowers t)) [
  | inl down ↦ rw down (omega int_laws)
  | inr up ↦ rw up refl
]

signed_0 : (t : MovementType) → signed t (pos 0) ≡ pos 0
unfolding signed
signed_0 t = elim (Bool-cases (lowers t)) [
  | inl down ↦ rw down (omega int_laws)
  | inr up ↦ rw up refl
]

zero_add : (a : ℤ) → pos 0 +ℤ a ≡ a
zero_add a = omega int_laws

+ℤ_swap : (a b c d : ℤ) → a +ℤ b +ℤ (c +ℤ d) ≡ a +ℤ c +ℤ (b +ℤ d)
+ℤ_swap a b c d = omega int_laws

+ℤ_assoc : (a b c : ℤ) → a +ℤ b +ℤ c ≡ a +ℤ (b +ℤ c)
+ℤ_assoc a b c = omega int_laws

add_groups-groups_of :
    (id : ℕ) (ms : List Movement) (ts : List MovementType) (a : ℤ)
    → add_groups a (groups_of id ms ts) ≡ a +ℤ sum_types ts ms
unfolding add_groups groups_of sum_types
add_groups-groups_of id ms [] a = omega int_laws
add_groups-groups_of id ms (t ∷ ts) a = elim (Bool-cases (any (is_of_type t) ms)) [
  | inl there ↦ rw there (
      add_groups-groups_of id ms ts (a +ℤ signed t (total t ms))
      ∙ +ℤ_assoc a (signed t (total t ms)) (sum_types ts ms))
  | inr absent ↦
      let bare : signed t (total t ms) ≡ pos 0 = rw (total-none t ms absent) (signed_0 t) in
      rw absent (rw bare (add_groups-groups_of id ms ts a ∙ omega int_laws))
]

total_cons :
    (t : MovementType) (m : Movement) (ms : List Movement)
    → total t (m ∷ ms) ≡ total t (m ∷ []) +ℤ total t ms
unfolding total
total_cons t m ms = elim (Bool-cases (is_of_type t m)) [
  | inl own ↦ rw own (omega int_laws)
  | inr other' ↦ rw other' (omega int_laws)
]

sum_types_cons :
    (ts : List MovementType) (m : Movement) (ms : List Movement)
    → sum_types ts (m ∷ ms) ≡ sum_types ts (m ∷ []) +ℤ sum_types ts ms
unfolding sum_types
sum_types_cons [] m ms = omega int_laws
sum_types_cons (t ∷ ts) m ms =
    ap (λ x. signed t x +ℤ sum_types ts (m ∷ ms)) (total_cons t m ms)
    ∙ ap (λ x. x +ℤ sum_types ts (m ∷ ms)) (signed_add t (total t (m ∷ [])) (total t ms))
    ∙ ap (λ x. signed t (total t (m ∷ [])) +ℤ signed t (total t ms) +ℤ x) (sum_types_cons ts m ms)
    ∙ +ℤ_swap (signed t (total t (m ∷ []))) (signed t (total t ms)) (sum_types ts (m ∷ []))
        (sum_types ts ms)

-- One movement counts with the sign of its own type.
sum_types_one :
    (m : Movement) (k : MovementType)
    → m.kind ≡ k
    → sum_types all_types (m ∷ []) ≡ signed k m.quantity
unfolding sum_types total signed
sum_types_one m in_ h = rw h (omega int_laws)
sum_types_one m out h = rw h (omega int_laws)
sum_types_one m transfer h = rw h (omega int_laws)
sum_types_one m adjustment h = rw h (omega int_laws)
sum_types_one m allocation h = rw h (omega int_laws)
sum_types_one m return h = rw h (omega int_laws)

sum_types-balance : (ms : List Movement) → sum_types all_types ms ≡ balance ms
unfolding sum_types balance total signed ◌+ℤ◌ ◌-ℤ◌
sum_types-balance [] = refl
sum_types-balance (m ∷ ms) =
    sum_types_cons all_types m ms
    ∙ ap (λ x. x +ℤ sum_types all_types ms) (sum_types_one m m.kind refl)
    ∙ ap (λ x. signed m.kind m.quantity +ℤ x) (sum_types-balance ms)
    ∙ sym (balance_cons m ms)

-- The sum that `itemDetail` makes of the groups of an item is the balance of the item's movements.
pub add_groups-balance :
    (id : ℕ) (db : StockDb)
    → add_groups (pos 0) (item_groups id db) ≡ balance (filter (is_of_item id) db.movements)
add_groups-balance id db =
    add_groups-groups_of id (filter (is_of_item id) db.movements) all_types (pos 0)
    ∙ zero_add (sum_types all_types (filter (is_of_item id) db.movements))
    ∙ sum_types-balance (filter (is_of_item id) db.movements)
