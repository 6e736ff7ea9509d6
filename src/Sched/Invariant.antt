-- ===== src/Sched/Invariant.antt =====
-- Coroutines wait where their clauses say, and only those that are suspended do.
use libdill.Base.{
  All, All-map, All-append, All-zip, ℕ, ◌≡◌, refl, sym, ◌∙◌, ap, true, false, Option, some, List,
  [], ◌∷◌, Bool-cases, inl, inr, ◌==◌, if◌then◌else◌, if-false, arith, Errno,
}
use libdill.Queue.Links.{NotIn, Distinct, Distinct-append}
use libdill.Sched.{Cr, Timer, Waiter, World, cancel_all, resume, docancel}
use libdill.Sched.Clauses.{
  lists_it, times_it, Known, KnownTimer, cancel_all-lists, cancel_all-timers, cancel_all-rest,
  cancel_all-gone, cancel_all-no_timer,
}

abbrev pub Placed : World → ℕ → Waiter → Type 0
Placed w p x = ((w.crs x.cr).queued ≡ false) × (lists_it x.id p (w.crs x.cr).clauses ≡ true)

abbrev pub Timed : World → Timer → Type 0
Timed w t = ((w.crs t.cr).queued ≡ false) × (times_it t.id (w.crs t.cr).clauses ≡ true)

-- What holds whenever a coroutine runs or polls: who waits in a list or for a time is not queued and
-- has that clause, and the queue holds each coroutine that is queued once.
pub record Sound (w : World) : Type 0 where
  pub waiters : (p : ℕ) → All (Placed w p) (w.lists p)
  pub timed : All (Timed w) w.timers
  pub queued : All (λ c. (w.crs c).queued ≡ true) w.ready
  pub once : Distinct w.ready

-- The running coroutine is not queued and waits for nothing.
abbrev pub Running : World → Type 0
Running w = ((w.crs w.r).queued ≡ false) × ((w.crs w.r).clauses ≡ [])

not_queued :
    (w : World) (c : ℕ) (l : List ℕ)
    → All (λ j. (w.crs j).queued ≡ true) l
    → (w.crs c).queued ≡ false
    → NotIn c l
not_queued w c [] h e = tt
not_queued w c (x ∷ xs) h e = (
  (λ same. absurd (clash (sym e ∙ ap (λ j. (w.crs j).queued) same ∙ h.0))),
  not_queued w c xs h.1 e,
)
  where
    clash : false ≡ true → ⊥
    clash f = ground arith

pub Placed-Known : (w : World) (c p : ℕ) (x : Waiter) → Placed w p x → Known c (w.crs c).clauses p x
Placed-Known w c p x h = elim (Bool-cases (x.cr == c)) [
  | inl e ↦
      let same : x.cr ≡ c = ground arith in
      rw e (ap (λ j. lists_it x.id p (w.crs j).clauses) (sym same) ∙ h.1)
  | inr e ↦ rw e refl
]

pub Timed-Known : (w : World) (c : ℕ) (t : Timer) → Timed w t → KnownTimer c (w.crs c).clauses t
Timed-Known w c t h = elim (Bool-cases (t.cr == c)) [
  | inl e ↦
      let same : t.cr ≡ c = ground arith in
      rw e (ap (λ j. times_it t.id (w.crs j).clauses) (sym same) ∙ h.1)
  | inr e ↦ rw e refl
]

-- A waiter of another coroutine does not see the change of one.
abbrev changed : (ℕ → Cr) → ℕ → Cr → ℕ → Cr
changed crs c s j = if j == c then s else crs j

Placed-other :
    (w : World) (crs : ℕ → Cr) (c p : ℕ) (s : Cr) (x : Waiter)
    → crs ≡ w.crs
    → Placed w p x
    → (x.cr == c) ≡ false
    → ((changed crs c s x.cr).queued ≡ false)
      × (lists_it x.id p (changed crs c s x.cr).clauses ≡ true)
Placed-other w crs c p s x same h e = rw (e, same) h

Timed-other :
    (w : World) (crs : ℕ → Cr) (c : ℕ) (s : Cr) (t : Timer)
    → crs ≡ w.crs
    → Timed w t
    → (t.cr == c) ≡ false
    → ((changed crs c s t.cr).queued ≡ false)
      × (times_it t.id (changed crs c s t.cr).clauses ≡ true)
Timed-other w crs c s t same h e = rw (e, same) h

queued-more :
    (w : World) (crs : ℕ → Cr) (c : ℕ) (s : Cr) (l : List ℕ)
    → crs ≡ w.crs
    → s.queued ≡ true
    → All (λ j. (w.crs j).queued ≡ true) l
    → All (λ j. (changed crs c s j).queued ≡ true) l
queued-more w crs c s l same q h = All-map (λ j k. one j k) l h
  where
    one : (j : ℕ) → (w.crs j).queued ≡ true → (changed crs c s j).queued ≡ true
    one j k = elim (Bool-cases (j == c)) [ inl e ↦ rw e q | inr e ↦ rw (e, same) k ]

-- The world after a trigger or a cancellation.
abbrev pub woken_up : ℕ → Option ℕ → Option Errno → World → World
woken_up c id e w = resume c id e (cancel_all c (w.crs c).clauses w)

woken_up-Sound :
    (c : ℕ) (id : Option ℕ) (e : Option Errno) (w : World)
    → Sound w
    → (w.crs c).queued ≡ false
    → Sound (woken_up c id e w)
woken_up-Sound c id e w h q = record {
  waiters = λ p.
      All-zip (λ x k g. Placed-other w w1.crs c p s x rest.0 k g) (w1.lists p)
        (cancel_all-lists (Placed w p) c (w.crs c).clauses w p (h.waiters p))
        (cancel_all-gone c (w.crs c).clauses w p
          (All-map (λ x k. Placed-Known w c p x k) (w.lists p) (h.waiters p)));
  timed =
      All-zip (λ t k g. Timed-other w w1.crs c s t rest.0 k g) w1.timers
        (cancel_all-timers (Timed w) c (w.crs c).clauses w h.timed)
        (cancel_all-no_timer c (w.crs c).clauses w
          (All-map (λ t k. Timed-Known w c t k) w.timers h.timed));
  queued =
      All-append (λ j. (changed w1.crs c s j).queued ≡ true) w1.ready (c ∷ [])
        (rw (rest.1) (queued-more w w1.crs c s w.ready rest.0 refl h.queued)) (here, tt);
  once = rw (rest.1) (Distinct-append c w.ready (not_queued w c w.ready h.queued q) h.once);
}
  where
    w1 : World
    w1 = cancel_all c (w.crs c).clauses w

    s : Cr
    s = record (w1.crs c) { id = id; errno = e; queued = true }

    rest : (w1.crs ≡ w.crs) × (w1.ready ≡ w.ready) × (w1.r ≡ w.r)
    rest = cancel_all-rest c (w.crs c).clauses w

    here : (changed w1.crs c s c).queued ≡ true
    here = let self : (c == c) ≡ true = ground arith in rw self refl

-- A trigger of a coroutine that is not queued meets no failed assertion and keeps the invariant.
pub docancel-Sound :
    (c : ℕ) (id : Option ℕ) (e : Option Errno) (w : World)
    → Sound w
    → (w.crs c).queued ≡ false
    → (docancel c id e w ≡ some (woken_up c id e w)) × Sound (woken_up c id e w)
unfolding docancel
docancel-Sound c id e w h q = (if-false _ _ q, woken_up-Sound c id e w h q)
