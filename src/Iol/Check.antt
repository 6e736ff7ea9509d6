-- ===== src/Iol/Check.antt =====
-- `dill_iolcheck` and `dill_ioltoiov` on well-formed lists.
use mathlib.Core.List.{cons≢nil}
use libdill.Base.{
  ℕ, zero, suc, ◌+◌, ◌%◌, ◌^◌, ◌<◌, ◌≡◌, refl, ap₂, ◌≢◌, ◌∙◌, ap, subst, Bool, true, false, ◌||◌,
  ◌&&◌, not, some, List, [], ◌∷◌, ◌==◌, length, arith, map, ◌⊎◌, inl, inr, ok,
}
use libdill.Iol.{Ptr, Heap, set_rsvd, counted, mark, unmark, iolcheck, ioltoiov}
use libdill.Iol.Chain.{
  Chain, Unmarked, EndsAt, total, set_all, Chain-set_rsvd, Unmarked-set_rsvd, total-set_rsvd,
  set_all-cons, set_all_self,
}

-- A node is not refused: it is not marked, and it ends the list only if it is `last`.
not_refused :
    (h : Heap) (last p : Ptr) (x : Ptr) (xs : List Ptr)
    → Chain h p (x ∷ xs)
    → Unmarked h (x ∷ xs)
    → EndsAt last (x ∷ xs)
    → ((h x).rsvd || ((h x).next == 0 && not (x == last))) ≡ false
not_refused h last p x [] c u e = ground arith
not_refused h last p x (y ∷ ys) c u e = ground arith

tail_ends : (last x : Ptr) (xs : List Ptr) → EndsAt last (x ∷ xs) → (xs ≡ []) ⊎ EndsAt last xs
tail_ends last x [] e = inl refl
tail_ends last x (y ∷ ys) e = inr e

whole_ends :
    (last x : Ptr) (xs : List Ptr) → (x ∷ xs ≡ []) ⊎ EndsAt last (x ∷ xs) → EndsAt last (x ∷ xs)
whole_ends last x xs (inl e) = absurd (cons≢nil e)
whole_ends last x xs (inr e) = e

-- The counting loop counts every node once and marks exactly the list's nodes.
pub mark-counted :
    (fuel : ℕ) (last : Ptr) (h : Heap) (it nbf nbt : ℕ) (xs : List Ptr)
    → length xs < fuel
    → Chain h it xs
    → Unmarked h xs
    → (xs ≡ []) ⊎ EndsAt last xs
    → nbt < 2 ^ 64
    → mark fuel last h it nbf nbt
      ≡ counted (nbf + length xs) ((nbt + total h xs) % 2 ^ 64) (set_all h xs true)
unfolding mark total
mark-counted zero last h it nbf nbt xs f c u e small = absurd (omega arith)
mark-counted (suc fuel) last h it nbf nbt [] f c u e small =
    rw c (ap₂ (λ n m. counted n m h) (omega arith) (omega arith))
mark-counted (suc fuel) last h it nbf nbt (x ∷ xs) f c u e small =
    let nz : (x == 0) ≡ false = ground arith in
    let end = whole_ends last x xs e in
    let next =
      mark-counted fuel last (set_rsvd h x true) (h x).next (nbf + 1) ((nbt + (h x).len) % 2 ^ 64)
        xs (omega arith) (Chain-set_rsvd h x true _ xs c.3) (Unmarked-set_rsvd h x true xs c.2 u.1)
        (tail_ends last x xs end) (omega arith) in
    rw (c.0, nz, not_refused h last it x xs c u end)
      (next
        ∙ rw (set_all-cons h x xs true, total-set_rsvd h x true xs)
            (ap₂ (λ n m. counted n m (set_all h (x ∷ xs) true)) (omega arith) (omega arith)))

pub unmark-all :
    (fuel : ℕ) (h : Heap) (it : ℕ) (xs : List Ptr)
    → length xs < fuel
    → Chain h it xs
    → unmark fuel h it ≡ some (set_all h xs false)
unfolding unmark
unmark-all zero h it xs f c = absurd (omega arith)
unmark-all (suc fuel) h it [] f c = rw c
unmark-all (suc fuel) h it (x ∷ xs) f c =
    let nz : (x == 0) ≡ false = ground arith in
    rw (c.0, nz)
      (unmark-all fuel (set_rsvd h x false) (h x).next xs (omega arith)
          (Chain-set_rsvd h x false _ xs c.3)
        ∙ ap some (set_all-cons h x xs false))

pub Chain-set_all :
    (h : Heap) (ys : List Ptr) (b : Bool) (p : Ptr) (xs : List Ptr)
    → Chain h p xs
    → Chain (set_all h ys b) p xs
Chain-set_all h ys b p [] c = c
Chain-set_all h ys b p (x ∷ xs) c =
    (c.0, c.1, c.2, subst (λ q. Chain (set_all h ys b) q xs) same (Chain-set_all h ys b _ xs c.3))
  where
    same : (h x).next ≡ (set_all h ys b x).next
    same = ground arith

pub ends_facts :
    (h : Heap) (last p : Ptr) (xs : List Ptr)
    → Chain h p xs
    → EndsAt last xs
    → (last ≢ 0) × (((h last).next == 0) ≡ true) × (p ≢ 0)
ends_facts h last p [] c e = absurd e
ends_facts h last p (x ∷ []) c e = ground arith
ends_facts h last p (x ∷ y ∷ ys) c e =
    let (a, b, _) = ends_facts h last (h x).next (y ∷ ys) c.3 e in (a, b, ground arith)

ioltoiov-map :
    (fuel : ℕ) (h : Heap) (first : Ptr) (xs : List Ptr)
    → length xs < fuel
    → Chain h first xs
    → ioltoiov fuel h first ≡ some (map (λ p. ((h p).base, (h p).len)) xs)
unfolding ioltoiov
ioltoiov-map zero h first xs f c = absurd (omega arith)
ioltoiov-map (suc fuel) h first [] f c = rw c
ioltoiov-map (suc fuel) h first (x ∷ xs) f c =
    let nz : (x == 0) ≡ false = ground arith in
    rw (c.0, nz, ioltoiov-map fuel h (h x).next xs (omega arith) c.3)

-- On a well-formed list from `first` to `last` none of whose nodes is marked, the check succeeds with
-- the number of buffers and the number of their bytes modulo 2^64, and leaves the heap as it was; the
-- array of the returned size holds exactly the entries that `dill_ioltoiov` writes.
pub iolcheck_lem :
    (fuel : ℕ) (h : Heap) (first last : Ptr) (xs : List Ptr)
    → length xs < fuel
    → Chain h first xs
    → EndsAt last xs
    → Unmarked h xs
    → (iolcheck fuel h first last ≡ some (ok (length xs, total h xs % 2 ^ 64), h))
      × (ioltoiov fuel h first ≡ some (map (λ p. ((h p).base, (h p).len)) xs))
iolcheck_lem fuel h first last xs f c e u = (
  unfold iolcheck in
      rw
        (
          nz,
          lz,
          end.1,
          mark-counted fuel last h first 0 0 xs f c u (inr e) (omega arith),
          unmark-all fuel (set_all h xs true) first xs f (Chain-set_all h xs true first xs c),
          set_all_self h xs u,
        )
        (ap₂ (λ n m. some (ok (n, m), h)) (omega arith) (omega arith)),
  ioltoiov-map fuel h first xs f c,
)
  where
    end : (last ≢ 0) × (((h last).next == 0) ≡ true) × (first ≢ 0)
    end = ends_facts h last first xs c e

    nz : (first == 0) ≡ false
    nz = ground (arith, end.2)

    lz : (last == 0) ≡ false
    lz = ground (arith, end.0)
