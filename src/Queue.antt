-- ===== src/Queue.antt =====
-- slist.h and qlist.h: the intrusive stack and the intrusive queue.
-- A node is an address. `next` is the `next` field of each node, and the list's own head is a node too.
pub mod Links
pub mod Fifo
pub mod Lifo
pub mod Tests
use libdill.Base.{ℕ, ◌==◌, Bool, if◌then◌else◌}

-- `a->next = v`
abbrev pub write : (ℕ → ℕ) → ℕ → ℕ → ℕ → ℕ
write next a v j = if j == a then v else next j

-- `dill_slist_init`, `dill_slist_empty`, `dill_slist_push` and `dill_slist_pop`.
abbrev pub slist_init : ℕ → (ℕ → ℕ) → ℕ → ℕ
slist_init self next = write next self self

abbrev pub slist_empty : ℕ → (ℕ → ℕ) → Bool
slist_empty self next = next self == self

abbrev pub slist_push : ℕ → ℕ → (ℕ → ℕ) → ℕ → ℕ
slist_push self item next = write (write next item (next self)) self item

abbrev pub slist_pop : ℕ → (ℕ → ℕ) → ℕ × (ℕ → ℕ)
slist_pop self next = (next self, write next self (next (next self)))

-- The nodes and the `last` field of one `dill_qlist`.
pub record Qlist : Type 0 where
  pub next : ℕ → ℕ
  pub last : ℕ

abbrev pub qlist_init : ℕ → Qlist → Qlist
qlist_init self q = record { next = slist_init self (q.next); last = self }

abbrev pub qlist_empty : ℕ → Qlist → Bool
qlist_empty self q = q.next self == self

abbrev pub qlist_push : ℕ → ℕ → Qlist → Qlist
qlist_push self item q = record {
  next = write (write (q.next) item self) (q.last) item;
  last = item;
}

abbrev pub qlist_pop : ℕ → Qlist → ℕ × Qlist
qlist_pop self q = (
  q.next self,
  record {
    next = write (q.next) self (q.next (q.next self));
    last = if q.next self == q.last then self else q.last;
  },
)
