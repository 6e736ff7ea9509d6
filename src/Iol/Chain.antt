-- ===== src/Iol/Chain.antt =====
-- Lists of buffers in the heap: distinct nodes linked up to NULL.
use mathlib.Core.Path.{fun_ext}
use libdill.Base.{
  ℕ, ◌+◌, ◌≡◌, refl, ◌≢◌, Bool, true, false, ◌||◌, List, [], ◌∷◌, ◌==◌, if◌then◌else◌, subst, sym,
  arith,
}
use libdill.Iol.{Ptr, Heap, set_rsvd}

abbrev pub has : Ptr → List Ptr → Bool
has a [] = false
has a (x ∷ xs) = (a == x) || has a xs

-- From `p` the links lead through the distinct nodes `xs` to NULL.
abbrev pub Chain : Heap → Ptr → List Ptr → Type 0
Chain h p [] = p ≡ 0
Chain h p (x ∷ xs) = (p ≡ x) × (x ≢ 0) × (has x xs ≡ false) × Chain h (h x).next xs

abbrev pub All : (Ptr → Type 0) → List Ptr → Type 0
All P [] = Unit
All P (x ∷ xs) = P x × All P xs

abbrev pub Unmarked : Heap → List Ptr → Type 0
Unmarked h = All (λ a. (h a).rsvd ≡ false)

-- `last` is the last node.
abbrev pub EndsAt : Ptr → List Ptr → Type 0
EndsAt last [] = ⊥
EndsAt last (x ∷ []) = last ≡ x
EndsAt last (x ∷ y ∷ ys) = EndsAt last (y ∷ ys)

-- The number of bytes of all buffers.
unfoldable pub total : Heap → List Ptr → ℕ
total h [] = 0
total h (x ∷ xs) = (h x).len + total h xs

abbrev pub set_all : Heap → List Ptr → Bool → Heap
set_all h xs b a = if has a xs then record (h a) { rsvd = b } else h a

pub Chain-set_rsvd :
    (h : Heap) (y : Ptr) (b : Bool) (p : Ptr) (xs : List Ptr)
    → Chain h p xs
    → Chain (set_rsvd h y b) p xs
Chain-set_rsvd h y b p [] c = c
Chain-set_rsvd h y b p (x ∷ xs) c = (
  c.0,
  c.1,
  c.2,
  subst (λ q. Chain (set_rsvd h y b) q xs) (sym same) (Chain-set_rsvd h y b _ xs c.3),
)
  where
    same : (set_rsvd h y b x).next ≡ (h x).next
    same = ground arith

pub Unmarked-set_rsvd :
    (h : Heap) (y : Ptr) (b : Bool) (xs : List Ptr)
    → has y xs ≡ false
    → Unmarked h xs
    → Unmarked (set_rsvd h y b) xs
Unmarked-set_rsvd h y b [] n u = tt
Unmarked-set_rsvd h y b (x ∷ xs) n u = (ground arith, Unmarked-set_rsvd h y b xs (ground arith) u.1)

pub total-set_rsvd :
    (h : Heap) (y : Ptr) (b : Bool) (xs : List Ptr) → total (set_rsvd h y b) xs ≡ total h xs
unfolding total
total-set_rsvd h y b [] = refl
total-set_rsvd h y b (x ∷ xs) = ground (arith, total-set_rsvd h y b xs)

pub set_all-cons :
    (h : Heap) (x : Ptr) (xs : List Ptr) (b : Bool)
    → set_all (set_rsvd h x b) xs b ≡ set_all h (x ∷ xs) b
set_all-cons h x xs b = fun_ext λ a. ground arith

Unmarked-at :
    (h : Heap) (a : Ptr) (xs : List Ptr) → Unmarked h xs → has a xs ≡ true → (h a).rsvd ≡ false
Unmarked-at h a [] u e = cc
Unmarked-at h a (x ∷ xs) u e = ground (arith, Unmarked-at h a xs u.1)

pub set_all_self :
    (h : Heap) (xs : List Ptr) → Unmarked h xs → set_all (set_all h xs true) xs false ≡ h
set_all_self h xs u = fun_ext λ a. ground (arith, Unmarked-at h a xs u)
