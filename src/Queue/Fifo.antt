-- ===== src/Queue/Fifo.antt =====
-- The intrusive queue is a queue, the intrusive stack a stack.
use mathlib.Core.List.{append_assoc, append-nil}
use libdill.Base.{
  subst, ℕ, ◌≡◌, refl, ◌≢◌, sym, Bool, true, false, if◌then◌else◌, ◌==◌, List, [], ◌∷◌, ◌++◌, arith,
}
use libdill.Queue.{Qlist, qlist_init, qlist_empty, qlist_push, qlist_pop}
use libdill.Queue.Links.{
  Links, NotIn, Distinct, last_of, write-same, Links-append, NotIn-last_of, last_of-append,
  Distinct-append, Distinct-middle, unlink,
}

-- The queue with the head `self` holds the nodes `xs`, the oldest first.
abbrev pub Holds : ℕ → Qlist → List ℕ → Type 0
Holds self q xs = Links (q.next) self xs self × (q.last ≡ last_of self xs) × Distinct (self ∷ xs)

init-Holds : (self : ℕ) (q : Qlist) → Holds self (qlist_init self q) []
init-Holds self q = (write-same (q.next) self self, refl, (tt, tt))

push-Holds :
    (self item : ℕ) (q : Qlist) (xs : List ℕ)
    → Holds self q xs
    → NotIn item (self ∷ xs)
    → Holds self (qlist_push self item q) (xs ++ item ∷ [])
push-Holds self item q xs (l, e, d) fresh = (
  rw e (Links-append (q.next) item self xs self fresh d l),
  sym (last_of-append self item xs),
  Distinct-append item (self ∷ xs) fresh d,
)

pop_last :
    (self x : ℕ) (xs : List ℕ)
    → NotIn x xs
    → (if x == last_of x xs then self else last_of x xs) ≡ last_of self xs
pop_last self x [] n = ground arith
pop_last self x (y ∷ ys) n = let other : x ≢ last_of y ys = NotIn-last_of x y ys n in ground arith

pop-Holds :
    (self x : ℕ) (q : Qlist) (xs : List ℕ)
    → Holds self q (x ∷ xs)
    → ((qlist_pop self q).0 ≡ x) × Holds self (qlist_pop self q).1 xs
pop-Holds self x q xs ((first, l), e, ((ne, fresh), (n, d))) = (
  first,
  (rw first (unlink (q.next) self x xs fresh l), rw (first, e) (pop_last self x xs n), (fresh, d)),
)

abbrev pub is_nil : List ℕ → Bool
is_nil [] = true
is_nil (x ∷ xs) = false

empty-Holds :
    (self : ℕ) (q : Qlist) (xs : List ℕ) → Holds self q xs → qlist_empty self q ≡ is_nil xs
empty-Holds self q [] (l, e, d) = rw l (ground arith)
empty-Holds self q (x ∷ xs) ((first, l), e, ((ne, fresh), d)) =
    let other : x ≢ self = λ e. ne (sym e) in rw first (ground arith)

-- An operation on a queue of the nodes `xs` does what it does on a list. The push of a node that is
-- neither the head nor in the queue puts it to the end, and the queue then is not empty; the pop of the
-- result takes the oldest node out, and is empty again exactly if `xs` was empty.
qlist_lem :
    (self item x : ℕ) (q : Qlist) (xs : List ℕ)
    → Holds self q (x ∷ xs)
    → NotIn item (self ∷ x ∷ xs)
    → let pushed = qlist_push self item q in
      let (front, popped) = qlist_pop self pushed in
      Holds self pushed (x ∷ (xs ++ item ∷ []))
      × (qlist_empty self pushed ≡ false)
      × (front ≡ x)
      × Holds self popped (xs ++ item ∷ [])
qlist_lem self item x q xs h n =
    let pushed = push-Holds self item q (x ∷ xs) h n in
    let (front, popped) = pop-Holds self x (qlist_push self item q) (xs ++ item ∷ []) pushed in
    (
      pushed,
      empty-Holds self (qlist_push self item q) (x ∷ (xs ++ item ∷ [])) pushed,
      front,
      popped,
    )

abbrev pub push_all : ℕ → List ℕ → Qlist → Qlist
push_all self [] q = q
push_all self (x ∷ xs) q = push_all self xs (qlist_push self x q)

-- As many pops as the second list is long, and the queue that they leave.
abbrev pub pop_all : ℕ → List ℕ → Qlist → List ℕ × Qlist
pop_all self [] q = ([], q)
pop_all self (_ ∷ xs) q =
    let (x, q') = qlist_pop self q in let (rest, q2) = pop_all self xs q' in (x ∷ rest, q2)

pop_all-Holds :
    (self : ℕ) (q : Qlist) (xs : List ℕ)
    → Holds self q xs
    → ((pop_all self xs q).0 ≡ xs) × (qlist_empty self (pop_all self xs q).1 ≡ true)
pop_all-Holds self q [] h = (refl, empty-Holds self q [] h)
pop_all-Holds self q (x ∷ xs) h =
    let (front, popped) = pop-Holds self x q xs h in
    let (rest, done) = pop_all-Holds self (qlist_pop self q).1 xs popped in
    ((λ i. front i ∷ rest i), done)

push_all-Holds :
    (self : ℕ) (q : Qlist) (ys xs : List ℕ)
    → Holds self q ys
    → Distinct (self ∷ (ys ++ xs))
    → Holds self (push_all self xs q) (ys ++ xs)
push_all-Holds self q ys [] h d = subst (λ l. Holds self q l) (sym (append-nil ys)) h
push_all-Holds self q ys (x ∷ xs) h d =
    subst (λ l. Holds self (push_all self xs (qlist_push self x q)) l) (append_assoc ys (x ∷ []) xs)
      (push_all-Holds self (qlist_push self x q) (ys ++ x ∷ []) xs
        (push-Holds self x q ys h (Distinct-middle (self ∷ ys) x xs d))
        (subst (λ l. Distinct (self ∷ l)) (sym (append_assoc ys (x ∷ []) xs)) d))

-- A queue is first in, first out: nodes that are pushed to a fresh queue in an order, none of them twice
-- and none the queue's head, are popped in that order, and then the queue is empty.
pub pop_all-push_all :
    (self : ℕ) (q : Qlist) (xs : List ℕ)
    → Distinct (self ∷ xs)
    → let (popped, left) = pop_all self xs (push_all self xs (qlist_init self q)) in
      (popped ≡ xs) × (qlist_empty self left ≡ true)
pop_all-push_all self q xs d =
    pop_all-Holds self (push_all self xs (qlist_init self q)) xs
      (push_all-Holds self (qlist_init self q) [] xs (init-Holds self q) d)
