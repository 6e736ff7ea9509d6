-- ===== src/Iol/Trim.antt =====
-- `dill_ioltrim` drops bytes from the front of a list of buffers.
use libdill.Base.{
  Run, returns, ℕ, zero, suc, ◌+◌, ◌-◌, ◌≤◌, ◌<◌, ◌≡◌, refl, ap₂, subst, ◌≢◌, sym, ◌∙◌, ap, ◌⊎◌,
  inl, inr, true, false, Option, none, some, List, [], ◌∷◌, ◌++◌, ◌==◌, length, length-append, leb,
  arith, drop, drop-append_le, drop-append_ge, Bool-cases,
}
use libdill.Iol.{Ptr, Iol, Heap, ioltrim, trimmed, advance}
use libdill.Iol.Chain.{Chain, total}

-- The addresses of a buffer's bytes, `none` for bytes to be skipped.
unfoldable pub cells : Option ℕ → ℕ → List (Option ℕ)
cells b zero = []
cells b (suc n) = b ∷ cells (advance 1 b) n

unfoldable pub addresses : Heap → List Ptr → List (Option ℕ)
unfolding cells
addresses h [] = []
addresses h (x ∷ xs) = cells (h x).base (h x).len ++ addresses h xs

pub length-cells : (b : Option ℕ) (n : ℕ) → length (cells b n) ≡ n
unfolding cells
length-cells b zero = refl
length-cells b (suc n) = ap suc (length-cells (advance 1 b) n)

pub length-addresses : (h : Heap) (xs : List Ptr) → length (addresses h xs) ≡ total h xs
unfolding addresses total
length-addresses h [] = refl
length-addresses h (x ∷ xs) = omega (
  arith,
  length-append (cells (h x).base (h x).len) (addresses h xs),
  length-cells (h x).base (h x).len,
  length-addresses h xs,
)

advance_add : (m n : ℕ) (b : Option ℕ) → advance m (advance n b) ≡ advance (n + m) b
advance_add m n none = refl
advance_add m n (some b) = ap some (omega arith)

advance_zero : (b : Option ℕ) → advance 0 b ≡ b
advance_zero none = refl
advance_zero (some b) = ap some (omega arith)

drop-cells :
    (n len : ℕ) (b : Option ℕ) → n ≤ len → drop n (cells b len) ≡ cells (advance n b) (len - n)
unfolding cells
drop-cells zero len b h = rw (advance_zero b) (ap (cells b) (omega arith))
drop-cells (suc n) zero b h = absurd (omega arith)
drop-cells (suc n) (suc len) b h =
    drop-cells n len (advance 1 b) (omega arith)
    ∙ rw (advance_add n 1 b) (ap₂ (λ k m. cells (advance k b) m) (omega arith) (omega arith))

-- What `dill_ioltrim` returns of the list `xs`: a first node for the bytes behind the first `n`.
abbrev pub Trimmed : Heap → List Ptr → ℕ → Run (Option Iol) → Type 0
Trimmed h xs n r =
    (t : Iol) × (rest : List Ptr) × (r ≡ returns (some t))
    × Chain h t.next rest
    × (cells t.base t.len ++ addresses h rest ≡ drop n (addresses h xs))

trimmed-Trimmed :
    (h : Heap) (x : Ptr) (xs : List Ptr) (n : ℕ)
    → x ≢ 0
    → Chain h (h x).next xs
    → n ≤ (h x).len
    → Trimmed h (x ∷ xs) n (trimmed h x n)
unfolding addresses
trimmed-Trimmed h x xs n nz c le =
    let z : (x == 0) ≡ false = ground arith in
    (
      record { base = advance n (h x).base; len = (h x).len - n; next = (h x).next; rsvd = false },
      xs,
      rw z,
      c,
      rw (
        drop-append_le n (cells (h x).base (h x).len) (addresses h xs) (rw (length-cells) le),
        drop-cells n (h x).len (h x).base le,
      ),
    )

-- The two outcomes.
abbrev After : ℕ → Heap → Ptr → ℕ → List Ptr → Type 0
After fuel h p n xs =
    ((n ≤ total h xs) × Trimmed h xs n (ioltrim fuel h p n))
    ⊎ ((total h xs < n) × (ioltrim fuel h p n ≡ returns none))

ioltrim-here :
    (fuel : ℕ) (h : Heap) (first n : ℕ) (x : Ptr) (xs : List Ptr)
    → Chain h first (x ∷ xs)
    → leb n (h x).len ≡ true
    → ioltrim (suc fuel) h first n ≡ trimmed h x n
unfolding ioltrim
ioltrim-here fuel h first n x xs c le =
    let nz : (x == 0) ≡ false = ground arith in rw (c.0, nz, le) (ground arith)

ioltrim-further :
    (fuel : ℕ) (h : Heap) (first n : ℕ) (x : Ptr) (xs : List Ptr)
    → Chain h first (x ∷ xs)
    → leb n (h x).len ≡ false
    → ioltrim (suc fuel) h first n ≡ ioltrim fuel h (h x).next (n - (h x).len)
unfolding ioltrim
ioltrim-further fuel h first n x xs c gt =
    let nz : (x == 0) ≡ false = ground arith in
    let pos : (n == 0) ≡ false = ground arith in rw (c.0, nz, gt, pos)

ioltrim-null :
    (fuel : ℕ) (h : Heap) (p n : ℕ) → p ≡ 0 → 0 < n → ioltrim (suc fuel) h p n ≡ returns none
unfolding ioltrim
ioltrim-null fuel h p n e pos = ground arith

drop-buffer :
    (h : Heap) (n : ℕ) (x : Ptr) (xs : List Ptr)
    → (h x).len ≤ n
    → drop n (addresses h (x ∷ xs)) ≡ drop (n - (h x).len) (addresses h xs)
unfolding addresses
drop-buffer h n x xs le =
    drop-append_ge n (cells (h x).base (h x).len) (addresses h xs) (rw (length-cells) le)
    ∙ rw (length-cells)

further :
    (fuel : ℕ) (h : Heap) (first n : ℕ) (x : Ptr) (xs : List Ptr)
    → Chain h first (x ∷ xs)
    → leb n (h x).len ≡ false
    → After fuel h (h x).next (n - (h x).len) xs
    → After (suc fuel) h first n (x ∷ xs)
further fuel h first n x xs c gt (inl (le, (t, rest, e, chain, same))) = inl (
  unfold total in ground arith,
  (
    t,
    rest,
    ioltrim-further fuel h first n x xs c gt ∙ e,
    chain,
    same ∙ sym (drop-buffer h n x xs (ground arith)),
  ),
)
further fuel h first n x xs c gt (inr (lt, e)) =
    inr (unfold total in ground arith, ioltrim-further fuel h first n x xs c gt ∙ e)

ioltrim-After :
    (fuel : ℕ) (h : Heap) (first n : ℕ) (xs : List Ptr)
    → length xs < fuel
    → Chain h first xs
    → (0 < n) ⊎ (0 < length xs)
    → After fuel h first n xs
ioltrim-After zero h first n xs f c k = absurd (omega arith)
ioltrim-After (suc fuel) h first n [] f c k =
    inr (unfold total in omega arith, ioltrim-null fuel h first n c (omega arith))
ioltrim-After (suc fuel) h first n (x ∷ xs) f c k = elim (Bool-cases (leb n (h x).len)) [
  | inl le ↦ inl (
    unfold total in ground arith,
    subst (Trimmed h (x ∷ xs) n) (sym (ioltrim-here fuel h first n x xs c le))
        (trimmed-Trimmed h x xs n c.1 c.3 (ground arith)),
  )
  | inr gt ↦
      further fuel h first n x xs c gt
        (ioltrim-After fuel h (h x).next (n - (h x).len) xs (omega arith) c.3 (inl (ground arith)))
]

-- On a well-formed list with at least one node: where it holds at least `n` bytes, the result and the
-- nodes behind it hold exactly the addresses of the bytes behind the first `n`, in order; with fewer
-- than `n` bytes the call returns -1.
pub ioltrim_lem :
    (fuel : ℕ) (h : Heap) (first n : ℕ) (xs : List Ptr)
    → length xs < fuel
    → Chain h first xs
    → 0 < length xs
    → ((n ≤ total h xs) × Trimmed h xs n (ioltrim fuel h first n))
      ⊎ ((total h xs < n) × (ioltrim fuel h first n ≡ returns none))
ioltrim_lem fuel h first n xs f c k = ioltrim-After fuel h first n xs f c (inr k)
