-- ===== src/Supply/Inventory/Ledger/Follows.antt =====
-- Every run of the service follows the ledger.
use msk_back.Base.{ℕ, Option, none, some}
use msk_back.Base.Int.{ℤ}
use msk_back.Supply.Inventory.{StockDb, at_least_0, item_detail}

-- What a client reads of an item's stock.
unfoldable pub shown_quantity : ℕ → StockDb → Option ℤ
shown_quantity j db = elim (item_detail j db) [ none ↦ none | some e ↦ some e.quantity_on_hand ]

abbrev pub floor_0 : Option ℤ → Option ℤ
floor_0 none = none
floor_0 (some q) = some (at_least_0 q)
