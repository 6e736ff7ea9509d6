-- ===== src/Handle/Pool.antt =====
-- The pool of unused handles of handle.c: a list linked through the slots, from `first` to `last`.
use mathlib.Core.List.{append_assoc}
use libdill.Base.{
  ℕ, zero, suc, ◌+◌, ◌<◌, ◌≡◌, refl, ◌≢◌, ap, sym, ◌∙◌, true, false, Option, none, some, List, [],
  ◌∷◌, ◌++◌, length, set, subst, length-append, get_or-set_self, get_or-set_ne, arith,
}
use libdill.Handle.{Slot, end_of_list, link, slot, no_slot, with_next, is_used, fresh_slots}

abbrev pub NotIn : ℕ → List ℕ → Type 0
NotIn h [] = Unit
NotIn h (x ∷ xs) = (h ≢ x) × NotIn h xs

-- From slot `x` the links lead through the distinct slots `xs` to `last`.
abbrev pub Linked : List Slot → Option ℕ → ℕ → List ℕ → Type 0
Linked hs last x [] = ((slot hs x).next ≡ end_of_list) × (last ≡ some x)
Linked hs last x (y ∷ ys) = ((slot hs x).next ≡ link y) × NotIn x (y ∷ ys) × Linked hs last y ys

-- The pool holds the handles `free`, in this order.
abbrev pub Pooled : List Slot → Option ℕ → Option ℕ → List ℕ → Type 0
Pooled hs first last [] = first ≡ none
Pooled hs first last (x ∷ xs) = (first ≡ some x) × Linked hs last x xs

pub in_range : (hs : List Slot) (x : ℕ) → is_used (slot hs x).next ≡ false → x < length hs
in_range [] x h = cc
in_range (s ∷ hs) zero h = omega arith
in_range (s ∷ hs) (suc x) h = omega (arith, in_range hs x h)

pub Linked-unused :
    (hs : List Slot) (last : Option ℕ) (x : ℕ) (xs : List ℕ)
    → Linked hs last x xs
    → is_used (slot hs x).next ≡ false
Linked-unused hs last x [] h = rw (h.0)
Linked-unused hs last x (y ∷ ys) h = rw (h.0)

-- A used slot is not in the pool.
pub NotIn-used :
    (hs : List Slot) (last : Option ℕ) (h x : ℕ) (xs : List ℕ)
    → Linked hs last x xs
    → is_used (slot hs h).next ≡ true
    → NotIn h (x ∷ xs)
NotIn-used hs last h x [] l u = (λ e. cc (Linked-unused hs last x [] l), tt)
NotIn-used hs last h x (y ∷ ys) l u =
    (λ e. cc (Linked-unused hs last x (y ∷ ys) l), NotIn-used hs last h y ys l.2 u)

-- A write to a slot outside the pool leaves the pool alone.
pub Linked-set :
    (hs : List Slot) (last : Option ℕ) (h : ℕ) (s : Slot) (x : ℕ) (xs : List ℕ)
    → Linked hs last x xs
    → NotIn h (x ∷ xs)
    → Linked (set hs h s) last x xs
Linked-set hs last h s x [] l n = (rw (get_or-set_ne hs h x s no_slot n.0) l.0, l.1)
Linked-set hs last h s x (y ∷ ys) l n =
    (rw (get_or-set_ne hs h x s no_slot n.0) l.0, l.1, Linked-set hs last h s y ys l.2 n.1)

pub last_in :
    (hs : List Slot) (l h x : ℕ) (xs : List ℕ) → Linked hs (some l) x xs → NotIn h (x ∷ xs) → h ≢ l
last_in hs l h x [] k n = λ e. n.0 (e ∙ cc (k.1))
last_in hs l h x (y ∷ ys) k n = last_in hs l h y ys k.2 n.1

pub last_unused :
    (hs : List Slot) (l x : ℕ) (xs : List ℕ)
    → Linked hs (some l) x xs
    → is_used (slot hs l).next ≡ false
last_unused hs l x [] k = cc (Linked-unused hs (some l) x [] k, k.1)
last_unused hs l x (y ∷ ys) k = last_unused hs l y ys k.2

NotIn-snoc : (x h : ℕ) (xs : List ℕ) → NotIn x xs → x ≢ h → NotIn x (xs ++ h ∷ [])
NotIn-snoc x h [] n ne = (ne, tt)
NotIn-snoc x h (y ∷ ys) n ne = (n.0, NotIn-snoc x h ys n.1 ne)

-- A slot given back is linked behind the last one.
pub Linked-snoc :
    (hs : List Slot) (l h x : ℕ) (xs : List ℕ)
    → Linked hs (some l) x xs
    → NotIn h (x ∷ xs)
    → (slot hs h).next ≡ end_of_list
    → Linked (set hs l (with_next (slot hs l) (link h))) (some h) x (xs ++ h ∷ [])
Linked-snoc hs l h x [] k n e = (
  rw (← (the_last k.1)) (ap (λ s. s.next) (get_or-set_self hs l new no_slot here)),
  (λ q. n.0 (sym q), tt),
  (rw (get_or-set_ne hs l h new no_slot (λ q. last_in hs l h x [] k n (sym q))) e, refl),
)
  where
    new : Slot
    new = with_next (slot hs l) (link h)

    here : l < length hs
    here = in_range hs l (last_unused hs l x [] k)

    the_last : some l ≡ some x → l ≡ x
    the_last q = cc
Linked-snoc hs l h x (y ∷ ys) k n e = (
  rw (get_or-set_ne hs l x _ no_slot (λ q. last_in hs l x y ys k.2 k.1 (sym q))) k.0,
  (k.1.0, NotIn-snoc x h ys k.1.1 (λ q. n.0 (sym q))),
  Linked-snoc hs l h y ys k.2 n.1 e,
)

-- Consecutive indices.
abbrev pub count_up : ℕ → ℕ → List ℕ
count_up i zero = []
count_up i (suc n) = i ∷ count_up (i + 1) n

pub length-count_up : (i n : ℕ) → length (count_up i n) ≡ n
length-count_up i zero = refl
length-count_up i (suc n) = ap suc (length-count_up (i + 1) n)

NotIn-count_up : (i j n : ℕ) → i < j → NotIn i (count_up j n)
NotIn-count_up i j zero h = tt
NotIn-count_up i j (suc n) h = (omega arith, NotIn-count_up i (j + 1) n (omega arith))

slot_at_length :
    (hs : List Slot) (s : Slot) (rest : List Slot) → slot (hs ++ s ∷ rest) (length hs) ≡ s
slot_at_length [] s rest = refl
slot_at_length (t ∷ hs) s rest = slot_at_length hs s rest

-- The new slots are linked one behind another.
pub Linked-fresh :
    (hs : List Slot) (i n : ℕ)
    → length hs ≡ i
    → Linked (hs ++ fresh_slots i (suc n)) (some (i + n)) i (count_up (i + 1) n)
unfolding fresh_slots
Linked-fresh hs i zero e = (rw (← e, slot_at_length hs _ []), ap some (omega arith))
Linked-fresh hs i (suc n) e = (
  rw (← e, slot_at_length hs _ _),
  (omega arith, NotIn-count_up i (i + 1 + 1) n (omega arith)),
  subst (λ zs. Linked zs (some (i + suc n)) (i + 1) (count_up (i + 1 + 1) n))
      (append_assoc hs (s ∷ []) (fresh_slots (i + 1) (suc n)))
      (subst
        (λ m.
          Linked ((hs ++ s ∷ []) ++ fresh_slots (i + 1) (suc n)) (some m) (i + 1)
            (count_up (i + 1 + 1) n))
        (omega arith)
        (Linked-fresh (hs ++ s ∷ []) (i + 1) n (omega (arith, length-append hs (s ∷ []))))),
)
  where
    s : Slot
    s = with_next no_slot (link (i + 1))
