-- ===== src/Queue/Lifo.antt =====
-- The intrusive stack is a stack.
use libdill.Base.{ℕ, ◌≡◌, ◌∙◌, List, [], ◌∷◌}
use libdill.Queue.{write, slist_push, slist_pop}
use libdill.Queue.Links.{Links, NotIn, Distinct, write-same, write-other, Links-write, unlink}

-- What `next` leads to from the new node is what it led to from the head.
behind :
    (next : ℕ → ℕ) (self item : ℕ) (xs : List ℕ)
    → Links next self xs self
    → Distinct (self ∷ xs)
    → NotIn item (self ∷ xs)
    → Links (slist_push self item next) item xs self
behind next self item [] l d (ne, _) =
    write-other (write next item (next self)) self item item ne
    ∙ write-same next item (next self)
    ∙ l
behind next self item (x ∷ xs) (first, l) (fresh, _) (ne, n) = (
  write-other (write next item (next self)) self item item ne
      ∙ write-same next item (next self)
      ∙ first,
  Links-write (write next item (next self)) self item x xs self fresh
      (Links-write next item (next self) x xs self n l),
)

-- A node that is neither the head nor on the stack is pushed in front of the nodes on it, and the pop
-- behind that takes it off and leaves the stack as it was.
slist_lem :
    (self item : ℕ) (next : ℕ → ℕ) (xs : List ℕ)
    → Links next self xs self
    → Distinct (self ∷ xs)
    → NotIn item (self ∷ xs)
    → let pushed = slist_push self item next in
      let (front, popped) = slist_pop self pushed in
      Links pushed self (item ∷ xs) self × (front ≡ item) × Links popped self xs self
slist_lem self item next xs l d n =
    let top = write-same (write next item (next self)) self item in
    let rest = behind next self item xs l d n in
    ((top, rest), top, rw top (unlink (slist_push self item next) self item xs d.0 rest))
