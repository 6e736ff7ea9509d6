-- ===== src/Fd/Scatter.antt =====
-- fd.c: what has been filled and what is still to be filled together are all buffers.
use libdill.Base.{
  All, take-append_le, drop-all, drop-append_le, ℕ, zero, suc, ◌+◌, ◌-◌, ◌≤◌, ◌<◌, true, false,
  Option, none, some, List, [], ◌∷◌, ◌++◌, take, drop, length, ltb, ◌==◌, ◌≡◌, inl, inr, refl, sym,
  ap, ◌∙◌, arith, Bool-cases, take-append_ge, drop-append_ge, take-all, length-drop,
}
use libdill.Iol.{Memory, store, memcpy, copy_to, advance}
use libdill.Fd.{Iov, miss, scatter, behind, filled, is_null}

memcpy-append :
    (m : Memory) (p : ℕ) (xs ys : List ℕ)
    → memcpy m p (xs ++ ys) ≡ memcpy (memcpy m p xs) (p + length xs) ys
unfolding memcpy
memcpy-append m p [] ys = ap (λ q. memcpy m q ys) (omega arith)
memcpy-append m p (x ∷ xs) ys =
    memcpy-append (store m p x) (p + 1) xs ys
    ∙ ap (λ q. memcpy (memcpy (store m p x) (p + 1) xs) q ys) (omega arith)

pub copy_to-append :
    (m : Memory) (b : Option ℕ) (xs ys : List ℕ)
    → copy_to (copy_to m b xs) (advance (length xs) b) ys ≡ copy_to m b (xs ++ ys)
copy_to-append m none xs ys = refl
copy_to-append m (some p) xs ys = sym (memcpy-append m p xs ys)

-- No bytes change nothing.
pub copy_to-nothing : (m : Memory) (b : Option ℕ) → copy_to m b [] ≡ m
unfolding memcpy
copy_to-nothing m none = refl
copy_to-nothing m (some p) = refl

take-nothing : (n : ℕ) → ◌≡◌ {A = List ℕ} (take n []) []
take-nothing zero = refl
take-nothing (suc n) = refl

drop-nothing : (n : ℕ) → ◌≡◌ {A = List ℕ} (drop n []) []
drop-nothing zero = refl
drop-nothing (suc n) = refl

pub scatter-nothing : (iov : List Iov) (m : Memory) → scatter iov [] m ≡ m
unfolding scatter
scatter-nothing [] m = refl
scatter-nothing (b ∷ iov) m =
    rw (take-nothing b.len, drop-nothing b.len, copy_to-nothing m b.base) (scatter-nothing iov m)

-- A buffer that is filled in two parts, the first of which leaves room.
pub scatter-behind :
    (b : Iov) (iov : List Iov) (xs ys : List ℕ) (m : Memory)
    → length xs ≤ b.len
    → scatter (behind (length xs) b ∷ iov) ys (copy_to m b.base xs) ≡ scatter (b ∷ iov) (xs ++ ys) m
unfolding scatter
scatter-behind b iov xs ys m h =
    rw
      (
        take-append_ge b.len xs ys h,
        drop-append_ge b.len xs ys h,
        copy_to-append m b.base xs (take (b.len - length xs) ys),
      )
      refl

-- The three ways in which the loop over the filled buffers goes on.
filled_end : (n : ℕ) → filled n [] ≡ []
unfolding filled
filled_end n = refl

filled_none : (b : Iov) (iov : List Iov) → filled 0 (b ∷ iov) ≡ b ∷ iov
unfolding filled
filled_none b iov = refl

filled_part :
    (n : ℕ) (b : Iov) (iov : List Iov) → 0 < n → n < b.len → filled n (b ∷ iov) ≡ behind n b ∷ iov
unfolding filled
filled_part n b iov p h =
    let a : (n == 0) ≡ false = ground arith in
    let c : ltb n b.len ≡ true = ground arith in rw (a, c) refl

filled_whole :
    (n : ℕ) (b : Iov) (iov : List Iov)
    → 0 < n
    → b.len ≤ n
    → filled n (b ∷ iov) ≡ filled (n - b.len) iov
unfolding filled
filled_whole n b iov p h =
    let a : (n == 0) ≡ false = ground arith in
    let c : ltb n b.len ≡ false = ground arith in rw (a, c) refl

pub scatter_short :
    (b : Iov) (iov : List Iov) (xs : List ℕ) (m : Memory)
    → length xs ≤ b.len
    → scatter (b ∷ iov) xs m ≡ copy_to m b.base xs
unfolding scatter
scatter_short b iov xs m h =
    rw (take-all b.len xs h, drop-all b.len xs h) (scatter-nothing iov (copy_to m b.base xs))

pub scatter_long :
    (b : Iov) (iov : List Iov) (xs ys : List ℕ) (m : Memory)
    → b.len ≤ length xs
    → scatter (b ∷ iov) (xs ++ ys) m
      ≡ scatter iov (drop b.len xs ++ ys) (copy_to m b.base (take b.len xs))
unfolding scatter
scatter_long b iov xs ys m h = rw (take-append_le b.len xs ys h, drop-append_le b.len xs ys h) refl

-- Which of the three, for a number that the buffers have room for.
data Fills (n : ℕ) (b : Iov) : Type 0 where
  nothing : n ≡ 0 → Fills n b
  part : 0 < n → n < b.len → Fills n b
  whole : 0 < n → b.len ≤ n → Fills n b

fills : (n : ℕ) (b : Iov) → Fills n b
fills n b = elim (Bool-cases (n == 0)) [
  | inl e ↦ nothing (ground arith)
  | inr e ↦ elim (Bool-cases (ltb n b.len)) [
    | inl f ↦ part (ground arith) (ground arith)
    | inr f ↦ whole (ground arith) (ground arith)
  ]
]

pub scatter_cons :
    (b : Iov) (iov : List Iov) (xs : List ℕ) (m : Memory)
    → scatter (b ∷ iov) xs m ≡ scatter iov (drop b.len xs) (copy_to m b.base (take b.len xs))
unfolding scatter
scatter_cons b iov xs m = refl

pub scatter_end : (xs : List ℕ) (m : Memory) → scatter [] xs m ≡ m
unfolding scatter
scatter_end xs m = refl

-- Filling in two parts is filling at once.
pub scatter-filled :
    (iov : List Iov) (xs ys : List ℕ) (m : Memory)
    → length xs ≤ miss iov
    → scatter (filled (length xs) iov) ys (scatter iov xs m) ≡ scatter iov (xs ++ ys) m
scatter-filled [] [] ys m h =
    rw (filled_end 0) (scatter_end ys (scatter [] [] m) ∙ scatter_end [] m ∙ sym (scatter_end ys m))
scatter-filled [] (x ∷ xs) ys m h = absurd (omega arith)
scatter-filled (b ∷ iov) [] ys m h = rw (filled_none b iov, scatter-nothing (b ∷ iov) m) refl
scatter-filled (b ∷ iov) (x ∷ xs) ys m h =
    let all = x ∷ xs in
    let ih = scatter-filled iov (drop b.len all) ys (copy_to m b.base (take b.len all)) in
    elim (fills (length all) b) [
      | nothing e ↦ absurd (omega arith)
      | part p q ↦
          rw (filled_part (length all) b iov p q, scatter_short b iov all m (omega arith))
            (scatter-behind b iov all ys m (omega arith))
      | whole p q ↦
          rw
            (
              filled_whole (length all) b iov p q,
              scatter_cons b iov all m,
              scatter_long b iov all ys m q,
              sym (length-drop b.len all),
            )
            (ih (omega (arith, length-drop b.len all)))
    ]

pub miss-filled : (n : ℕ) (iov : List Iov) → n ≤ miss iov → miss (filled n iov) ≡ miss iov - n
miss-filled n [] h = rw (filled_end n) (omega arith)
miss-filled n (b ∷ iov) h = elim (fills n b) [
  | nothing e ↦ rw (e, filled_none b iov) (omega arith)
  | part p q ↦ rw (filled_part n b iov p q) (omega arith)
  | whole p q ↦
      rw (filled_whole n b iov p q, miss-filled (n - b.len) iov (omega arith)) (omega arith)
]

pub miss-append : (xs ys : List Iov) → miss (xs ++ ys) ≡ miss xs + miss ys
miss-append [] ys = omega arith
miss-append (b ∷ xs) ys = omega (arith, miss-append xs ys)

-- Two lists of buffers are filled one after the other.
pub scatter-append :
    (xs ys : List Iov) (us vs : List ℕ) (m : Memory)
    → length us ≡ miss xs
    → scatter (xs ++ ys) (us ++ vs) m ≡ scatter ys vs (scatter xs us m)
scatter-append [] ys [] vs m h = rw (scatter_end [] m) refl
scatter-append [] ys (u ∷ us) vs m h = absurd (omega arith)
scatter-append (b ∷ xs) ys us vs m h =
    rw (scatter_long b (xs ++ ys) us vs m (omega arith), scatter_cons b xs us m)
      (scatter-append xs ys (drop b.len us) vs (copy_to m b.base (take b.len us))
        (omega (arith, length-drop b.len us)))

-- An empty buffer, and one at NULL, change nothing.
pub scatter_zero :
    (b : Iov) (iov : List Iov) (xs : List ℕ) (m : Memory)
    → b.len ≡ 0
    → scatter (b ∷ iov) xs m ≡ scatter iov xs m
scatter_zero b iov xs m e =
    scatter_cons b iov xs m
    ∙ ap (λ n. scatter iov (drop n xs) (copy_to m b.base (take n xs))) e
    ∙ ap (scatter iov xs) (copy_to-nothing m b.base)

copy_to-null : (m : Memory) (b : Option ℕ) (xs : List ℕ) → is_null b ≡ true → copy_to m b xs ≡ m
copy_to-null m none xs e = refl
copy_to-null m (some p) xs e = absurd (ground arith)

pub scatter_null :
    (b : Iov) (iov : List Iov) (xs : List ℕ) (m : Memory)
    → is_null b.base ≡ true
    → scatter (b ∷ iov) xs m ≡ scatter iov (drop b.len xs) m
scatter_null b iov xs m e =
    scatter_cons b iov xs m
    ∙ ap (scatter iov (drop b.len xs)) (copy_to-null m b.base (take b.len xs) e)

-- No buffer is empty.
abbrev pub Nonzero : List Iov → Type 0
Nonzero iov = All (λ b. 0 < b.len) iov

pub filled-Nonzero : (n : ℕ) (iov : List Iov) → Nonzero iov → Nonzero (filled n iov)
filled-Nonzero n [] z = rw (filled_end n) tt
filled-Nonzero n (b ∷ iov) z = elim (fills n b) [
  | nothing e ↦ rw (e, filled_none b iov) z
  | part p q ↦ rw (filled_part n b iov p q) (omega arith, z.1)
  | whole p q ↦ rw (filled_whole n b iov p q) (filled-Nonzero (n - b.len) iov z.1)
]

pub Nonzero-miss : (iov : List Iov) → Nonzero iov → miss iov ≡ 0 → iov ≡ []
Nonzero-miss [] z e = refl
Nonzero-miss (b ∷ iov) (p, z) e = absurd (omega arith)
