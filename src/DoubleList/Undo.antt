-- ===== src/DoubleList/Undo.antt =====
-- What is inserted can be erased.
use libdill.Base.{ℕ, ◌≡◌, ◌≢◌, true, false, arith}
use libdill.DoubleList.{Nodes, list_insert, list_erase, list_empty, list_init, list_oneitem}

-- A node is put in front of a node of a list, between it and the one before, and the erasure of that node
-- makes every field of every other node what it was.
list_insert-erase :
    (item before : ℕ) (h : Nodes)
    → h.next (h.prev before) ≡ before
    → item ≢ before
    → item ≢ h.prev before
    → let linked = list_insert item before h in
      let left = list_erase item linked in
      (linked.next (h.prev before) ≡ item)
      × (linked.next item ≡ before)
      × (linked.prev before ≡ item)
      × (linked.prev item ≡ h.prev before)
      × ((j : ℕ) → j ≢ item → (left.next j ≡ h.next j) × (left.prev j ≡ h.prev j))
list_insert-erase item before h e n m =
    (ground arith, ground arith, ground arith, ground arith, λ j k. (ground arith, ground arith))

-- An empty list that an item is inserted into has exactly one item.
list_insert-oneitem :
    (self item : ℕ) (h : Nodes)
    → item ≢ self
    → let one = list_insert item self (list_init self h) in
      (list_empty self (list_init self h) ≡ true)
      × (list_empty self one ≡ false)
      × (list_oneitem self one ≡ true)
list_insert-oneitem self item h n = (ground arith, ground arith, ground arith)
