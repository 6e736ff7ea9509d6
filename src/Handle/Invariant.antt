-- ===== src/Handle/Invariant.antt =====
-- The invariant of `struct dill_ctx_handle`.
use libdill.Base.{
  ◌⊎◌, inl, ℕ, zero, suc, ◌+◌, ◌≤◌, ◌<◌, ◌≡◌, refl, Bool, true, false, List, [], ◌∷◌, ◌++◌, length,
  set, arith,
}
use libdill.Handle.{Slot, slot, is_used, fresh_slots, Ctx, ctx_handle_init}
use libdill.Handle.Pool.{Pooled}

abbrev pub one_if : Bool → ℕ
one_if true = 1
one_if false = 0

-- How many handles are in use.
abbrev pub count_used : List Slot → ℕ
count_used [] = 0
count_used (s ∷ hs) = one_if (is_used s.next) + count_used hs

-- The fields agree with the slots, and at most 8 unused handles are missing from the pool.
pub record IsValid (c : Ctx) : Type 0 where
  pub free : List ℕ
  pub size : length c.handles ≡ c.nhandles
  pub count : count_used c.handles ≡ c.nused
  pub pooled : Pooled c.handles c.first c.last free
  pub lost : c.nhandles ≤ c.nused + length free + 8
  pub sized : (c.nhandles ≡ 0) ⊎ (256 ≤ c.nhandles)

pub count_used-set :
    (hs : List Slot) (h : ℕ) (s : Slot)
    → h < length hs
    → count_used (set hs h s) + one_if (is_used (slot hs h).next)
      ≡ count_used hs + one_if (is_used s.next)
count_used-set [] h s p = absurd (omega arith)
count_used-set (t ∷ hs) zero s p = omega arith
count_used-set (t ∷ hs) (suc h) s p = omega (arith, count_used-set hs h s (omega arith))

pub count_used-append : (xs ys : List Slot) → count_used (xs ++ ys) ≡ count_used xs + count_used ys
count_used-append [] ys = omega arith
count_used-append (x ∷ xs) ys = omega (arith, count_used-append xs ys)

pub count_used-fresh : (i n : ℕ) → count_used (fresh_slots i n) ≡ 0
unfolding fresh_slots
count_used-fresh i zero = refl
count_used-fresh i (suc zero) = refl
count_used-fresh i (suc (suc n)) = omega (arith, count_used-fresh (i + 1) (suc n))

pub length-fresh : (i n : ℕ) → length (fresh_slots i n) ≡ n
unfolding fresh_slots
length-fresh i zero = refl
length-fresh i (suc zero) = refl
length-fresh i (suc (suc n)) = omega (arith, length-fresh (i + 1) (suc n))

pub count_used-le : (hs : List Slot) → count_used hs ≤ length hs
count_used-le [] = omega arith
count_used-le (s ∷ hs) = ground (arith, count_used-le hs)

pub init-IsValid : (b1 b2 : Bool) → IsValid (ctx_handle_init b1 b2)
unfolding ctx_handle_init
init-IsValid b1 b2 = record {
  free = [];
  size = refl;
  count = refl;
  pooled = refl;
  lost = omega arith;
  sized = inl refl;
}
