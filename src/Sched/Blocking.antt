-- ===== src/Sched/Blocking.antt =====
-- The clauses that the running coroutine adds, and the switch to the next one.
use libdill.Base.{
  All, All-map, All-append, ℕ, ◌≡◌, refl, subst, sym, ◌∙◌, ap, Bool, true, false, ◌&&◌, ◌||◌,
  Option, none, some, List, [], ◌∷◌, ◌++◌, Bool-cases, inl, inr, ◌==◌, if◌then◌else◌, ltb, arith,
}
use libdill.Queue.Links.{NotIn, Distinct}
use libdill.Sched.{
  Kind, in_list, in_timers, Cr, Timer, Waiter, World, put_cr, waitfor, timer, switch, insert_timer,
}
use libdill.Sched.Clauses.{is_list, is_timer, lists_it, times_it}
use libdill.Sched.Invariant.{Sound, Placed, Timed, Running}

or_true : (a b : Bool) → b ≡ true → (a || b) ≡ true
or_true a b h = ground arith

-- A coroutine with one clause more.
abbrev more : ℕ → Kind → Cr → Cr
more i k s = record s { clauses = record { id = i; kind = k } ∷ s.clauses }

abbrev with_more : (ℕ → Cr) → ℕ → ℕ → Kind → ℕ → Cr
with_more crs c i k j = if j == c then more i k (crs c) else crs j

with_more-queued :
    (crs : ℕ → Cr) (c i : ℕ) (k : Kind) (j : ℕ) (b : Bool)
    → (crs j).queued ≡ b
    → (with_more crs c i k j).queued ≡ b
with_more-queued crs c i k j b h = elim (Bool-cases (j == c)) [
  | inl e ↦ let same : j ≡ c = ground arith in rw e (subst (λ m. (crs m).queued ≡ b) same h)
  | inr e ↦ rw e h
]

with_more-lists :
    (crs : ℕ → Cr) (c i : ℕ) (k : Kind) (j x p : ℕ)
    → lists_it x p (crs j).clauses ≡ true
    → lists_it x p (with_more crs c i k j).clauses ≡ true
with_more-lists crs c i k j x p h = elim (Bool-cases (j == c)) [
  | inl e ↦
      let same : j ≡ c = ground arith in
      rw e (
        or_true (x == i && is_list p k) (lists_it x p (crs c).clauses)
          (subst (λ m. lists_it x p (crs m).clauses ≡ true) same h))
  | inr e ↦ rw e h
]

with_more-times :
    (crs : ℕ → Cr) (c i : ℕ) (k : Kind) (j x : ℕ)
    → times_it x (crs j).clauses ≡ true
    → times_it x (with_more crs c i k j).clauses ≡ true
with_more-times crs c i k j x h = elim (Bool-cases (j == c)) [
  | inl e ↦
      let same : j ≡ c = ground arith in
      rw e (
        or_true (x == i && is_timer k) (times_it x (crs c).clauses)
          (subst (λ m. times_it x (crs m).clauses ≡ true) same h))
  | inr e ↦ rw e h
]

pub waitfor-Sound : (i : ℕ) (k : Kind) (w : World) → Sound w → Sound (waitfor i k w)
waitfor-Sound i k w h = record {
  waiters = λ p.
      All-map
        (λ x f. (
          with_more-queued w.crs w.r i k x.cr false f.0,
          with_more-lists w.crs w.r i k x.cr x.id p f.1,
        ))
        (w.lists p) (h.waiters p);
  timed =
      All-map
        (λ t f. (
          with_more-queued w.crs w.r i k t.cr false f.0,
          with_more-times w.crs w.r i k t.cr t.id f.1,
        ))
        w.timers h.timed;
  queued = All-map (λ j f. with_more-queued w.crs w.r i k j true f) w.ready h.queued;
  once = h.once;
}

-- The running coroutine waits in the list at `p`, behind those that are there.
abbrev pub wait_in : (p i val len : ℕ) → World → World
wait_in p i val len w =
    let item : Waiter = record { cr = w.r; id = i; val = val; len = len } in
    waitfor i (in_list p)
      (record w { lists = λ q. if q == p then w.lists q ++ item ∷ [] else w.lists q })

own_clause :
    (crs : ℕ → Cr) (c i p : ℕ)
    → (crs c).queued ≡ false
    → ((with_more crs c i (in_list p) c).queued ≡ false)
      × (lists_it i p (with_more crs c i (in_list p) c).clauses ≡ true)
own_clause crs c i p q =
    let self : (c == c) ≡ true = ground arith in
    let listed : ((i == i && p == p) || lists_it i p (crs c).clauses) ≡ true = ground arith in
    rw self (q, listed)

own_timer :
    (crs : ℕ → Cr) (c i : ℕ)
    → (crs c).queued ≡ false
    → ((with_more crs c i in_timers c).queued ≡ false)
      × (times_it i (with_more crs c i in_timers c).clauses ≡ true)
own_timer crs c i q =
    let self : (c == c) ≡ true = ground arith in
    let timed : ((i == i && true) || times_it i (crs c).clauses) ≡ true = ground arith in
    rw self (q, timed)

pub waitfor-queued :
    (i : ℕ) (k : Kind) (w : World)
    → (w.crs w.r).queued ≡ false
    → ((waitfor i k w).crs w.r).queued ≡ false
waitfor-queued i k w q = with_more-queued w.crs w.r i k w.r false q

pub wait_in-Sound :
    (p i val len : ℕ) (w : World)
    → Sound w
    → (w.crs w.r).queued ≡ false
    → Sound (wait_in p i val len w)
wait_in-Sound p i val len w h q =
    let base = waitfor-Sound i (in_list p) w h in
    record {
      waiters = λ m. elim (Bool-cases (m == p)) [
        | inl e ↦
            let same : p ≡ m = ground arith in
            rw e (
              All-append (Placed (waitfor i (in_list p) w) m) (w.lists m) (item ∷ [])
                (base.waiters m)
                (
                  subst (λ n. Placed (waitfor i (in_list p) w) n item) same
                      (own_clause w.crs w.r i p q),
                  tt,
                ))
        | inr e ↦ rw e (base.waiters m)
      ];
      timed = base.timed;
      queued = base.queued;
      once = base.once;
    }
  where
    item : Waiter
    item = record { cr = w.r; id = i; val = val; len = len }

All-insert_timer :
    (P : Timer → Type 0) (t : Timer) (ts : List Timer) → P t → All P ts → All P (insert_timer t ts)
unfolding insert_timer
All-insert_timer P t [] h k = (h, tt)
All-insert_timer P t (x ∷ xs) h k = elim (Bool-cases (ltb t.val x.val)) [
  | inl e ↦ rw e (h, k)
  | inr e ↦ rw e (k.0, All-insert_timer P t xs h k.1)
]

pub timer-Sound :
    (i : ℕ) (deadline : Option ℕ) (w : World)
    → Sound w
    → (w.crs w.r).queued ≡ false
    → Sound (timer i deadline w)
timer-Sound i none w h q = h
timer-Sound i (some d) w h q =
    let base = waitfor-Sound i in_timers w h in
    record {
      waiters = base.waiters;
      timed =
          All-insert_timer (Timed (waitfor i in_timers w)) (record { val = d; cr = w.r; id = i })
            w.timers (own_timer w.crs w.r i q) base.timed;
      queued = base.queued;
      once = base.once;
    }

abbrev pub switched : ℕ → List ℕ → World → World
switched c rest w = record (put_cr c (record (w.crs c) { queued = false; clauses = [] }) w) {
  ready = rest;
  r = c;
}

-- A coroutine that is not queued is not the one that is next.
not_next :
    (w : World) (c j : ℕ) → (w.crs j).queued ≡ false → (w.crs c).queued ≡ true → (j == c) ≡ false
not_next w c j f t = elim (Bool-cases (j == c)) [
  | inl e ↦
      let same : j ≡ c = ground arith in
      absurd (clash (sym f ∙ ap (λ m. (w.crs m).queued) same ∙ t))
  | inr e ↦ e
]
  where
    clash : false ≡ true → ⊥
    clash h = ground arith

others_queued :
    (w : World) (c : ℕ) (l : List ℕ)
    → NotIn c l
    → All (λ j. (w.crs j).queued ≡ true) l
    → All (λ j. ((switched c l w).crs j).queued ≡ true) l
others_queued w c l n h = go l n h
  where
    go :
        (m : List ℕ)
        → NotIn c m
        → All (λ j. (w.crs j).queued ≡ true) m
        → All (λ j. ((switched c l w).crs j).queued ≡ true) m
    go [] n h = tt
    go (x ∷ xs) (ne, n) (q, h) =
        let other : (x == c) ≡ false = ground arith in (rw other q, go xs n h)

Placed-switched :
    (w : World) (c p : ℕ) (rest : List ℕ) (x : Waiter)
    → (w.crs c).queued ≡ true
    → Placed w p x
    → Placed (switched c rest w) p x
Placed-switched w c p rest x q h = let other = not_next w c x.cr h.0 q in rw other h

Timed-switched :
    (w : World) (c : ℕ) (rest : List ℕ) (t : Timer)
    → (w.crs c).queued ≡ true
    → Timed w t
    → Timed (switched c rest w) t
Timed-switched w c rest t q h = let other = not_next w c t.cr h.0 q in rw other h

-- The switch takes the first coroutine of the queue, which then runs and waits for nothing.
pub switch-Sound :
    (c : ℕ) (rest : List ℕ) (w : World)
    → Sound w
    → w.ready ≡ c ∷ rest
    → (switch w ≡ some (switched c rest w))
      × Sound (switched c rest w)
      × Running (switched c rest w)
unfolding switch
switch-Sound c rest w h e =
    let queued : All (λ j. (w.crs j).queued ≡ true) (c ∷ rest) =
      subst (λ l. All (λ j. (w.crs j).queued ≡ true) l) e h.queued in
    let once : Distinct (c ∷ rest) = subst Distinct e h.once in
    let self : (c == c) ≡ true = ground arith in
    (
      rw e refl,
      record {
        waiters =
            λ p. All-map (λ x f. Placed-switched w c p rest x queued.0 f) (w.lists p) (h.waiters p);
        timed = All-map (λ t f. Timed-switched w c rest t queued.0 f) w.timers h.timed;
        queued = others_queued w c rest once.0 queued.1;
        once = once.1;
      },
      rw self (refl, refl),
    )
