-- ===== src/DoubleList.antt =====
-- list.h: the intrusive doubly linked list. A node is an address, and the list's own head is a node too.
pub mod Undo
use libdill.Base.{ℕ, ◌==◌, Bool, ◌&&◌, not}
use libdill.Queue.{write}

-- The fields of all nodes.
pub record Nodes : Type 0 where
  pub next : ℕ → ℕ
  pub prev : ℕ → ℕ

abbrev set_next : ℕ → ℕ → Nodes → Nodes
set_next a v h = record h { next = write (h.next) a v }

abbrev set_prev : ℕ → ℕ → Nodes → Nodes
set_prev a v h = record h { prev = write (h.prev) a v }

abbrev pub list_init : ℕ → Nodes → Nodes
list_init self h = set_prev self self (set_next self self h)

abbrev pub list_empty : ℕ → Nodes → Bool
list_empty self h = h.next self == self

abbrev pub list_oneitem : ℕ → Nodes → Bool
list_oneitem self h = not (h.next self == self) && h.next self == h.prev self

-- The writes in their order, each of which reads what the ones before it left.
abbrev pub list_insert : (item before : ℕ) → Nodes → Nodes
list_insert item before h =
    let h1 = set_next item before h in
    let h2 = set_prev item (h1.prev before) h1 in
    let h3 = set_next (h2.prev before) item h2 in set_prev before item h3

abbrev pub list_erase : ℕ → Nodes → Nodes
list_erase item h =
    let h1 = set_next (h.prev item) (h.next item) h in set_prev (h1.next item) (h1.prev item) h1
