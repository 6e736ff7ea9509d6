-- ===== src/Sched/Timers.antt =====
-- cr.c
-- The loop that fires expired timers, and the timeout that a poll is given.
use libdill.Base.{
  All, All-map, ℕ, zero, suc, ◌+◌, ◌-◌, ◌%◌, ◌^◌, ◌<◌, ◌≤◌, length, ◌⊎◌, ◌≡◌, refl, subst, sym, ◌∙◌,
  ap, Bool, true, false, ◌&&◌, some, List, [], ◌∷◌, Bool-cases, List-cases, inl, inr, ◌==◌, ltb,
  leb, if◌then◌else◌, arith, etimedout,
}
use libdill.Sched.{
  Kind, in_list, in_timers, plain, Clause, Timer, World, drop_timer, cancel_clause, cancel_all,
  insert_timer, fire, timeout_of,
}
use libdill.Sched.Clauses.{cancel_all-rest, cancel_all-no_timer}
use libdill.Sched.Invariant.{Sound, Timed, Timed-Known, woken_up, docancel-Sound}

-- The tree's order: the earliest timer is the first.
abbrev pub Sorted : List Timer → Type 0
Sorted [] = Unit
Sorted (t ∷ ts) = All (λ u. t.val ≤ u.val) ts × Sorted ts

All-drop_timer :
    (P : Timer → Type 0) (c i : ℕ) (ts : List Timer) → All P ts → All P (drop_timer c i ts)
All-drop_timer P c i [] h = tt
All-drop_timer P c i (t ∷ ts) h = elim (Bool-cases (t.cr == c && t.id == i)) [
  | inl e ↦ rw e (All-drop_timer P c i ts h.1)
  | inr e ↦ rw e (h.0, All-drop_timer P c i ts h.1)
]

Sorted-drop_timer : (c i : ℕ) (ts : List Timer) → Sorted ts → Sorted (drop_timer c i ts)
Sorted-drop_timer c i [] h = tt
Sorted-drop_timer c i (t ∷ ts) h = elim (Bool-cases (t.cr == c && t.id == i)) [
  | inl e ↦ rw e (Sorted-drop_timer c i ts h.1)
  | inr e ↦ rw e (All-drop_timer (λ u. t.val ≤ u.val) c i ts h.0, Sorted-drop_timer c i ts h.1)
]

Sorted-cancel_clause :
    (c i : ℕ) (k : Kind) (w : World)
    → Sorted w.timers
    → Sorted (cancel_clause c (record { id = i; kind = k }) w).timers
Sorted-cancel_clause c i (in_list q) w h = h
Sorted-cancel_clause c i in_timers w h = Sorted-drop_timer c i w.timers h
Sorted-cancel_clause c i plain w h = h

pub Sorted-cancel_all :
    (c : ℕ) (cls : List Clause) (w : World) → Sorted w.timers → Sorted (cancel_all c cls w).timers
Sorted-cancel_all c [] w h = h
Sorted-cancel_all c (cl ∷ cls) w h =
    Sorted-cancel_all c cls (cancel_clause c cl w) (Sorted-cancel_clause c cl.id cl.kind w h)

All-insert :
    (P : Timer → Type 0) (t : Timer) (ts : List Timer) → P t → All P ts → All P (insert_timer t ts)
unfolding insert_timer
All-insert P t [] h k = (h, tt)
All-insert P t (x ∷ xs) h k = elim (Bool-cases (ltb t.val x.val)) [
  | inl e ↦ rw e (h, k)
  | inr e ↦ rw e (k.0, All-insert P t xs h k.1)
]

pub Sorted-insert_timer : (t : Timer) (ts : List Timer) → Sorted ts → Sorted (insert_timer t ts)
unfolding insert_timer
Sorted-insert_timer t [] h = (tt, tt)
Sorted-insert_timer t (x ∷ xs) h = elim (Bool-cases (ltb t.val x.val)) [
  | inl e ↦
      let before : t.val ≤ x.val = ground arith in
      rw e ((before, All-map (λ u k. omega (arith, before, k)) xs h.0), h)
  | inr e ↦
      let before : x.val ≤ t.val = ground arith in
      rw e (All-insert (λ u. x.val ≤ u.val) t xs before h.0, Sorted-insert_timer t xs h.1)
]

-- How many timers are other coroutines'.
abbrev others : ℕ → List Timer → ℕ
others c [] = 0
others c (x ∷ xs) = if x.cr == c then others c xs else suc (others c xs)

others-length : (c : ℕ) (xs : List Timer) → others c xs ≤ length xs
others-length c [] = omega arith
others-length c (x ∷ xs) = ground (arith, others-length c xs)

others-drop_timer : (c d i : ℕ) (xs : List Timer) → others c (drop_timer d i xs) ≤ others c xs
others-drop_timer c d i [] = omega arith
others-drop_timer c d i (x ∷ xs) = ground (arith, others-drop_timer c d i xs)

others-cancel_clause :
    (c d i : ℕ) (k : Kind) (w : World)
    → others c (cancel_clause d (record { id = i; kind = k }) w).timers ≤ others c w.timers
others-cancel_clause c d i (in_list q) w = omega arith
others-cancel_clause c d i in_timers w = others-drop_timer c d i w.timers
others-cancel_clause c d i plain w = omega arith

others-cancel_all :
    (c d : ℕ) (cls : List Clause) (w : World)
    → others c (cancel_all d cls w).timers ≤ others c w.timers
others-cancel_all c d [] w = omega arith
others-cancel_all c d (cl ∷ cls) w = omega (
  arith,
  others-cancel_all c d cls (cancel_clause d cl w),
  others-cancel_clause c d cl.id cl.kind w,
)

length-others :
    (c : ℕ) (xs : List Timer) → All (λ x. (x.cr == c) ≡ false) xs → length xs ≡ others c xs
length-others c [] h = refl
length-others c (x ∷ xs) h = rw h.0 (ap suc (length-others c xs h.1))

-- When the coroutine of the first timer is woken, fewer timers are left.
fired-shorter :
    (w : World) (t : Timer) (ts : List Timer)
    → Sound w
    → w.timers ≡ t ∷ ts
    → length (cancel_all t.cr (w.crs t.cr).clauses w).timers ≤ length ts
fired-shorter w t ts h l =
    let cls : List Clause = (w.crs t.cr).clauses in
    omega (
      arith,
      length-others t.cr (cancel_all t.cr cls w).timers (
          cancel_all-no_timer t.cr cls w
            (All-map (λ u k. Timed-Known w t.cr u k) w.timers h.timed)),
      others-cancel_all t.cr t.cr cls w,
      ap (others t.cr) l ∙ mine,
      others-length t.cr ts,
    )
  where
    mine : others t.cr (t ∷ ts) ≡ others t.cr ts
    mine = let same : (t.cr == t.cr) ≡ true = ground arith in rw same refl

first-before :
    (nw : ℕ) (t : Timer) (ts : List Timer)
    → nw < t.val
    → Sorted (t ∷ ts)
    → All (λ u. nw < u.val) (t ∷ ts)
first-before nw t ts h s = (h, All-map (λ u k. omega (arith, h, k)) ts s.0)

-- The loop over the expired timers ends within one turn more than there are timers, without a failed
-- assertion. It leaves the scheduler sound, the running coroutine and the order of the timers, and then
-- no timer that has expired is left.
pub fire_lem :
    (fuel nw : ℕ) (w : World)
    → Sound w
    → Sorted w.timers
    → length w.timers < fuel
    → (any : Bool) × (w' : World) × (fire fuel nw w ≡ some (any, w'))
      × Sound w'
      × Sorted w'.timers
      × All (λ t. nw < t.val) w'.timers
      × (w'.r ≡ w.r)
unfolding fire
fire_lem zero nw w h s lt = absurd (omega arith)
fire_lem (suc fuel) nw w h s lt = elim (List-cases w.timers) [
  | inl l ↦
      (false, w, simp (fire, l), h, s, subst (λ ts. All (λ t. nw < t.val) ts) (sym l) tt, refl)
  | inr (t, ts, l) ↦ elim (Bool-cases (ltb nw t.val)) [
    | inl e ↦
        let early : nw < t.val = ground arith in
        (
          false,
          w,
          simp (fire, l, e),
          h,
          s,
          subst (λ us. All (λ u. nw < u.val) us) (sym l)
              (first-before nw t ts early (subst Sorted l s)),
          refl,
        )
    | inr e ↦
        let first : Timed w t = (subst (λ us. All (Timed w) us) l h.timed).0 in
        let (woken, sound) = docancel-Sound t.cr (some t.id) (some etimedout) w h first.0 in
        let w1 : World = woken_up t.cr (some t.id) (some etimedout) w in
        let (any, w', ran, rest0, rest1, rest2, rest3) =
          fire_lem fuel nw w1 sound (Sorted-cancel_all t.cr (w.crs t.cr).clauses w s)
            (omega (arith, ap length l, fired-shorter w t ts h l, lt)) in
        (
          true,
          w',
          rw (fire, l, e, woken, ran) refl,
          rest0,
          rest1,
          rest2,
          rest3 ∙ (cancel_all-rest t.cr (w.crs t.cr).clauses w).2,
        )
  ]
]

-- With the earliest deadline less than 2 ^ 31 milliseconds away, the timeout of a poll that blocks ends
-- when that deadline is reached, and before no other deadline that is still to come is passed.
pub timeout_of_lem :
    (nw : ℕ) (t : Timer) (ts : List Timer)
    → Sorted (t ∷ ts)
    → t.val < nw + 2 ^ 31
    → (ms : ℕ) × (timeout_of true nw (t ∷ ts) ≡ some ms)
      × (t.val ≤ nw + ms)
      × All (λ u. (u.val ≤ nw) ⊎ (nw + ms ≤ u.val)) (t ∷ ts)
unfolding timeout_of
timeout_of_lem nw t ts s near = elim (Bool-cases (leb t.val nw)) [
  | inl e ↦
      let past : t.val ≤ nw = ground arith in
      (0, rw e refl, omega arith, (inl past, All-map (λ u k. later nw u.val) ts s.0))
  | inr e ↦
      let ahead : nw < t.val = ground arith in
      let small : ltb ((t.val - nw) % 2 ^ 32) (2 ^ 31) ≡ true = ground arith in
      let same : (t.val - nw) % 2 ^ 32 ≡ t.val - nw = omega arith in
      (
        t.val - nw,
        rw (e, small) (ap some same),
        omega arith,
        (inr (omega arith), All-map (λ u k. inr (omega (arith, k, ahead))) ts s.0),
      )
]
  where
    later : (a b : ℕ) → (b ≤ a) ⊎ (a + 0 ≤ b)
    later a b = elim (Bool-cases (leb b a)) [
      | inl e ↦ inl (ground arith)
      | inr e ↦ inr (ground arith)
    ]
