-- ===== src/Sched/Progress.antt =====
-- Which waiters a cancellation leaves, and how many.
use libdill.Base.{
  All, All-map, ℕ, suc, ◌≤◌, length, ◌⊎◌, ◌≡◌, refl, subst, ◌∙◌, ap, true, false, ◌&&◌, List, [],
  ◌∷◌, Bool-cases, inl, inr, ◌==◌, if◌then◌else◌, arith,
}
use libdill.Sched.{
  Kind, in_list, in_timers, plain, Clause, Waiter, World, drop_waiter, cancel_clause, cancel_all,
}
use libdill.Sched.Clauses.{Known, cancel_all-gone}

-- How many of the waiters are other coroutines'.
abbrev pub others : ℕ → List Waiter → ℕ
others c [] = 0
others c (x ∷ xs) = if x.cr == c then others c xs else suc (others c xs)

others-length : (c : ℕ) (xs : List Waiter) → others c xs ≤ length xs
others-length c [] = omega arith
others-length c (x ∷ xs) = ground (arith, others-length c xs)

others-drop_waiter : (c d i : ℕ) (xs : List Waiter) → others c (drop_waiter d i xs) ≤ others c xs
others-drop_waiter c d i [] = omega arith
others-drop_waiter c d i (x ∷ xs) = ground (arith, others-drop_waiter c d i xs)

others-cancel_clause :
    (c d i : ℕ) (k : Kind) (w : World) (p : ℕ)
    → others c ((cancel_clause d (record { id = i; kind = k }) w).lists p) ≤ others c (w.lists p)
others-cancel_clause c d i (in_list q) w p = elim (Bool-cases (p == q)) [
  | inl e ↦ rw e (others-drop_waiter c d i (w.lists p))
  | inr e ↦ rw e (omega arith)
]
others-cancel_clause c d i in_timers w p = omega arith
others-cancel_clause c d i plain w p = omega arith

others-cancel_all :
    (c d : ℕ) (cls : List Clause) (w : World) (p : ℕ)
    → others c ((cancel_all d cls w).lists p) ≤ others c (w.lists p)
others-cancel_all c d [] w p = omega arith
others-cancel_all c d (cl ∷ cls) w p = omega (
  arith,
  others-cancel_all c d cls (cancel_clause d cl w) p,
  others-cancel_clause c d cl.id cl.kind w p,
)

length-others :
    (c : ℕ) (xs : List Waiter) → All (λ x. (x.cr == c) ≡ false) xs → length xs ≡ others c xs
length-others c [] h = refl
length-others c (x ∷ xs) h = rw h.0 (ap suc (length-others c xs h.1))

-- A list whose first waiter is woken gets shorter.
pub cancel_all-shorter :
    (c : ℕ) (cls : List Clause) (w : World) (p : ℕ) (x : Waiter) (xs : List Waiter)
    → w.lists p ≡ x ∷ xs
    → x.cr ≡ c
    → All (Known c cls p) (w.lists p)
    → length ((cancel_all c cls w).lists p) ≤ length xs
cancel_all-shorter c cls w p x xs l e h = omega (
  arith,
  length-others c ((cancel_all c cls w).lists p) (cancel_all-gone c cls w p h),
  others-cancel_all c c cls w p,
  ap (others c) l ∙ mine,
  others-length c xs,
)
  where
    mine : others c (x ∷ xs) ≡ others c xs
    mine = let same : (x.cr == c) ≡ true = ground arith in rw same refl

-- Who waited before is one of the coroutine's clauses or still waits.
stay-drop_waiter :
    (P : Waiter → Type 0) (c i : ℕ) (xs : List Waiter)
    → All P (drop_waiter c i xs)
    → All (λ x. ((x.cr == c) ≡ true) ⊎ P x) xs
stay-drop_waiter P c i [] h = tt
stay-drop_waiter P c i (x ∷ xs) h = elim (Bool-cases (x.cr == c && x.id == i)) [
  | inl e ↦ (inl (ground arith), stay-drop_waiter P c i xs (kept e))
  | inr e ↦ let k = keep e in (inr k.0, stay-drop_waiter P c i xs k.1)
]
  where
    kept : (x.cr == c && x.id == i) ≡ true → All P (drop_waiter c i xs)
    kept e = subst (λ b. All P (if b then drop_waiter c i xs else x ∷ drop_waiter c i xs)) e h

    keep : (x.cr == c && x.id == i) ≡ false → P x × All P (drop_waiter c i xs)
    keep e = subst (λ b. All P (if b then drop_waiter c i xs else x ∷ drop_waiter c i xs)) e h

stay-cancel_clause :
    (P : Waiter → Type 0) (c i : ℕ) (k : Kind) (w : World) (p : ℕ)
    → All P ((cancel_clause c (record { id = i; kind = k }) w).lists p)
    → All (λ x. ((x.cr == c) ≡ true) ⊎ P x) (w.lists p)
stay-cancel_clause P c i (in_list q) w p h = elim (Bool-cases (p == q)) [
  | inl e ↦
      stay-drop_waiter P c i (w.lists p)
        (subst (λ b. All P (if b then drop_waiter c i (w.lists p) else w.lists p)) e h)
  | inr e ↦
      All-map (λ x k. inr k) (w.lists p)
        (subst (λ b. All P (if b then drop_waiter c i (w.lists p) else w.lists p)) e h)
]
stay-cancel_clause P c i in_timers w p h = All-map (λ x k. inr k) (w.lists p) h
stay-cancel_clause P c i plain w p h = All-map (λ x k. inr k) (w.lists p) h

pub stay-cancel_all :
    (P : Waiter → Type 0) (c : ℕ) (cls : List Clause) (w : World) (p : ℕ)
    → All P ((cancel_all c cls w).lists p)
    → All (λ x. ((x.cr == c) ≡ true) ⊎ P x) (w.lists p)
stay-cancel_all P c [] w p h = All-map (λ x k. inr k) (w.lists p) h
stay-cancel_all P c (cl ∷ cls) w p h =
    All-map (λ x k. both x k) (w.lists p)
      (stay-cancel_clause (λ x. ((x.cr == c) ≡ true) ⊎ P x) c cl.id cl.kind w p
        (stay-cancel_all P c cls (cancel_clause c cl w) p h))
  where
    both :
        (x : Waiter)
        → ((x.cr == c) ≡ true) ⊎ (((x.cr == c) ≡ true) ⊎ P x)
        → ((x.cr == c) ≡ true) ⊎ P x
    both x (inl e) = inl e
    both x (inr k) = k
