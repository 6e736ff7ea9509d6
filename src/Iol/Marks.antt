-- ===== src/Iol/Marks.antt =====
-- The error path of `dill_iolcheck`: which marks it leaves behind.
use mathlib.Core.Path.{fun_ext}
use libdill.Base.{
  ℕ, zero, suc, ◌+◌, ◌<◌, ◌≡◌, refl, ◌≢◌, ◌∙◌, ap, true, false, ◌||◌, ◌&&◌, not, some, List, [],
  ◌∷◌, ◌==◌, length, arith, ◌++◌, err, einval,
}
use libdill.Iol.{Ptr, Heap, set_rsvd, refused, mark, unmark_until, iolcheck}
use libdill.Iol.Chain.{
  has, Chain, Unmarked, set_all, Chain-set_rsvd, Unmarked-set_rsvd, set_all-cons,
}
use libdill.Iol.Check.{Chain-set_all}

next_ne_zero : (h : Heap) (p t : Ptr) (xs : List Ptr) → Chain h p (xs ++ t ∷ []) → (p == 0) ≡ false
next_ne_zero h p t [] c = ground arith
next_ne_zero h p t (x ∷ xs) c = ground arith

-- The counting loop stops at the list's last node, `t`, if that is not `last`.
mark-refused :
    (fuel : ℕ) (last : Ptr) (h : Heap) (it nbf nbt t : ℕ) (xs : List Ptr)
    → length xs + 1 < fuel
    → Chain h it (xs ++ t ∷ [])
    → Unmarked h (xs ++ t ∷ [])
    → t ≢ last
    → mark fuel last h it nbf nbt ≡ refused t (set_all h xs true)
unfolding mark
mark-refused zero last h it nbf nbt t xs f c u ne = absurd (omega arith)
mark-refused (suc fuel) last h it nbf nbt t [] f c u ne =
    let nz : (t == 0) ≡ false = ground arith in
    let stop : ((h t).rsvd || ((h t).next == 0 && not (t == last))) ≡ true = ground arith in
    rw (c.0, nz, stop)
mark-refused (suc fuel) last h it nbf nbt t (x ∷ xs) f c u ne =
    let nz : (x == 0) ≡ false = ground arith in
    let on : ((h x).next == 0) ≡ false = next_ne_zero h (h x).next t xs c.3 in
    rw (c.0, nz, u.0, on)
      (mark-refused fuel last (set_rsvd h x true) (h x).next _ _ t xs (omega arith)
          (Chain-set_rsvd h x true _ (xs ++ t ∷ []) c.3)
          (Unmarked-set_rsvd h x true (xs ++ t ∷ []) c.2 u.1) ne
        ∙ ap (refused t) (set_all-cons h x xs true))

apart : (x t : Ptr) (xs : List Ptr) → has x (xs ++ t ∷ []) ≡ false → (x == t) ≡ false
apart x t [] n = ground arith
apart x t (y ∷ ys) n = apart x t ys (ground arith)

-- The loop on the error path clears the mark of the node where the count stopped, at every turn.
unmark_until-same :
    (fuel : ℕ) (h : Heap) (p t : ℕ) (xs : List Ptr)
    → length xs < fuel
    → Chain h p (xs ++ t ∷ [])
    → (h t).rsvd ≡ false
    → unmark_until fuel t h p ≡ some h
unfolding unmark_until
unmark_until-same zero h p t xs f c u = absurd (omega arith)
unmark_until-same (suc fuel) h p t [] f c u = rw c.0 (ground arith)
unmark_until-same (suc fuel) h p t (x ∷ xs) f c u =
    let ne : (x == t) ≡ false = apart x t xs c.2 in
    let same : set_rsvd h t false ≡ h = fun_ext λ a. ground arith in
    rw (c.0, ne, same) (unmark_until-same fuel h (h x).next t xs (omega arith) c.3 u)

last_apart : (h : Heap) (p t : Ptr) (xs : List Ptr) → Chain h p (xs ++ t ∷ []) → has t xs ≡ false
last_apart h p t [] c = refl
last_apart h p t (x ∷ xs) c = ground (arith, apart x t xs c.2, last_apart h (h x).next t xs c.3)

last_rsvd : (h : Heap) (t : Ptr) (xs : List Ptr) → Unmarked h (xs ++ t ∷ []) → (h t).rsvd ≡ false
last_rsvd h t [] u = u.0
last_rsvd h t (x ∷ xs) u = last_rsvd h t xs u.1

last-Unmarked :
    (h : Heap) (p t : Ptr) (xs : List Ptr)
    → Chain h p (xs ++ t ∷ [])
    → Unmarked h (xs ++ t ∷ [])
    → (set_all h xs true t).rsvd ≡ false
last-Unmarked h p t xs c u = rw (last_apart h p t xs c) (last_rsvd h t xs u)

-- A list whose last node `t` is not the `last` that the caller gives, where `last` ends a list too, is
-- refused with EINVAL; but every node in front of `t` is left marked as in use, so the same
-- buffers are refused in a correct list later.
pub iolcheck-leaves_marks :
    (fuel : ℕ) (h : Heap) (first last t : Ptr) (xs : List Ptr)
    → length xs + 1 < fuel
    → Chain h first (xs ++ t ∷ [])
    → Unmarked h (xs ++ t ∷ [])
    → t ≢ last
    → last ≢ 0
    → (h last).next ≡ 0
    → iolcheck fuel h first last ≡ some (err einval, set_all h xs true)
unfolding iolcheck
iolcheck-leaves_marks fuel h first last t xs f c u ne lz end = rw (
  next_ne_zero h first t xs c,
  last_nz,
  last_end,
  mark-refused fuel last h first 0 0 t xs f c u ne,
  unmark_until-same fuel (set_all h xs true) first t xs (omega arith)
      (Chain-set_all h xs true first (xs ++ t ∷ []) c) (last-Unmarked h first t xs c u),
)
  where
    last_nz : (last == 0) ≡ false
    last_nz = ground (arith, lz)

    last_end : ((h last).next == 0) ≡ true
    last_end = ground (arith, end)
