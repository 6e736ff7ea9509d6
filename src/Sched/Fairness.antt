-- ===== src/Sched/Fairness.antt =====
-- cr.c
-- Coroutines run in the order in which they became ready.
use libdill.Base.{
  ℕ, zero, suc, length, ◌⊎◌, if-false, ◌≡◌, refl, subst, sym, ◌∙◌, ap, Bool, true, Option, none,
  some, List, [], ◌∷◌, ◌++◌, Bool-cases, List-cases, inl, inr, ltb, arith, Errno, etimedout,
}
use libdill.Sched.{
  Waiter, Cr, put_cr, Kind, World, cancel_all, docancel, waitfor, timer, fire, switch, resume,
}
use libdill.Sched.Clauses.{cancel_all-rest}
use libdill.Sched.Blocking.{switched}

-- What may happen between two switches: the running coroutine adds clauses, wakes others or itself, puts
-- itself into the lists of channels, or these are emptied, blocking is turned on or off, a new coroutine
-- is launched and runs while its parent is queued, a poll triggers what waits for a descriptor and its
-- time is noted, and the loop over the timers runs.
pub data Acts : World → World → Type 0 where
  nothing : {w : World} → Acts w w
  adds_clause : {w v : World} (i : ℕ) (k : Kind) → Acts (waitfor i k w) v → Acts w v
  adds_timer : {w v : World} (i : ℕ) (d : Option ℕ) → Acts (timer i d w) v → Acts w v
  wakes :
      {w u v : World} (c : ℕ) (id : Option ℕ) (e : Option Errno)
      → docancel c id e w ≡ some u
      → Acts u v
      → Acts w v
  goes_on :
      {w v : World} (c : ℕ) (id : Option ℕ) (e : Option Errno) → Acts (resume c id e w) v → Acts w v
  lists_change : {w v : World} (l : ℕ → List Waiter) → Acts (record w { lists = l }) v → Acts w v
  blocking_changes :
      {w v : World} (c : ℕ) (b1 b2 : Bool)
      → Acts (put_cr c (record (w.crs c) { no_blocking1 = b1; no_blocking2 = b2 }) w) v
      → Acts w v
  launches :
      {w v : World} (c : ℕ) (new : Cr)
      → Acts (record (resume w.r (some 0) none (put_cr c new w)) { r = c }) v
      → Acts w v
  polled : {w v : World} (time : ℕ) → Acts (record w { last_poll = time }) v → Acts w v
  fires :
      {w u v : World} (fuel nw : ℕ) (any : Bool)
      → fire fuel nw w ≡ some (any, u)
      → Acts u v
      → Acts w v

-- A number of turns, each of which ends with a switch.
pub data Turns : ℕ → World → World → Type 0 where
  no_turn : {w : World} → Turns 0 w w
  turn : {n : ℕ} {w v u x : World} → Acts w v → switch v ≡ some u → Turns n u x → Turns (suc n) w x

-- The queue of `v` is that of `w` with more behind it.
abbrev Longer : World → World → Type 0
Longer w v = (more : List ℕ) × (v.ready ≡ w.ready ++ more)

append_assoc : (a b c : List ℕ) → (a ++ b) ++ c ≡ a ++ (b ++ c)
append_assoc [] b c = refl
append_assoc (x ∷ a) b c = ap (λ l. x ∷ l) (append_assoc a b c)

append_nil : (a : List ℕ) → a ≡ a ++ []
append_nil [] = refl
append_nil (x ∷ a) = ap (λ l. x ∷ l) (append_nil a)

Longer-trans : (u v w : World) → Longer u v → Longer v w → Longer u w
Longer-trans u v w (a, e) (b, f) = (a ++ b, f ∙ ap (λ l. l ++ b) e ∙ append_assoc u.ready a b)

-- What may be the result keeps the queue `l` in front.
abbrev pub Keeps : List ℕ → Option (Bool × World) → Type 0
Keeps l none = Unit
Keeps l (some (any, v)) = (more : List ℕ) × (v.ready ≡ l ++ more)

Keeps-trans :
    (u v : World) (o : Option (Bool × World)) → Longer u v → Keeps v.ready o → Keeps u.ready o
Keeps-trans u v none h k = tt
Keeps-trans u v (some (any, w)) h k = Longer-trans u v w h k

docancel-Keeps :
    (c : ℕ) (id : Option ℕ) (e : Option Errno) (w : World)
    → (docancel c id e w ≡ none) ⊎ ((v : World) × (docancel c id e w ≡ some v) × Longer w v)
unfolding docancel
docancel-Keeps c id e w = elim (Bool-cases (w.crs c).queued) [
  | inl q ↦ inl (rw q refl)
  | inr q ↦ inr (
    resume c id e (cancel_all c (w.crs c).clauses w),
    if-false _ _ q,
    (c ∷ [], ap (λ l. l ++ c ∷ []) (cancel_all-rest c (w.crs c).clauses w).1),
  )
]

abbrev any_fired : Option (Bool × World) → Option (Bool × World)
any_fired o = elim o as (λ _. Option (Bool × World)) [
  | none ↦ none
  | some (_, w2) ↦ some (true, w2)
]

any_fired-Keeps : (l : List ℕ) (o : Option (Bool × World)) → Keeps l o → Keeps l (any_fired o)
any_fired-Keeps l none h = tt
any_fired-Keeps l (some (any, w)) h = h

pub fire-Keeps : (fuel nw : ℕ) (w : World) → Keeps w.ready (fire fuel nw w)
unfolding fire
fire-Keeps zero nw w = tt
fire-Keeps (suc fuel) nw w = elim (List-cases w.timers) [
  | inl l ↦ rw l ([], append_nil w.ready)
  | inr (t, ts, l) ↦ elim (Bool-cases (ltb nw t.val)) [
    | inl e ↦ rw (l, e) ([], append_nil w.ready)
    | inr e ↦ elim (docancel-Keeps t.cr (some t.id) (some etimedout) w) [
      | inl q ↦
          let step : fire (suc fuel) nw w ≡ none = simp (fire, l, e, q) in
          subst (λ o. Keeps w.ready o) (sym step) tt
      | inr (v, q, k) ↦
          let step : fire (suc fuel) nw w ≡ any_fired (fire fuel nw v) = simp (fire, l, e, q) in
          subst (λ o. Keeps w.ready o) (sym step)
            (any_fired-Keeps w.ready (fire fuel nw v)
              (Keeps-trans w v (fire fuel nw v) k (fire-Keeps fuel nw v)))
    ]
  ]
]

none-some : {A : Type 0} (x : A) → none ≡ some x → ⊥
none-some x f = ground arith

abbrev the : World → Option World → World
the w none = w
the w (some v) = v

docancel-Longer :
    (c : ℕ) (id : Option ℕ) (e : Option Errno) (w v : World)
    → docancel c id e w ≡ some v
    → Longer w v
docancel-Longer c id e w v h = elim (docancel-Keeps c id e w) [
  | inl q ↦ absurd (none-some v (sym q ∙ h))
  | inr (u, q, k) ↦ subst (Longer w) (ap (the w) (sym q ∙ h)) k
]

Acts-Longer : {w v : World} → Acts w v → Longer w v
Acts-Longer {w = w} nothing = ([], append_nil w.ready)
Acts-Longer {w = w} {v = v} (adds_clause i k a) = Acts-Longer a
Acts-Longer {w = w} {v = v} (adds_timer i none a) = Acts-Longer a
Acts-Longer {w = w} {v = v} (adds_timer i (some d) a) = Acts-Longer a
Acts-Longer {w = w} {v = v} (wakes {u = u} c id e h a) =
    Longer-trans w u v (docancel-Longer c id e w u h) (Acts-Longer a)
Acts-Longer {w = w} {v = v} (goes_on c id e a) =
    Longer-trans w (resume c id e w) v (c ∷ [], refl) (Acts-Longer a)
Acts-Longer {w = w} {v = v} (lists_change l a) = Acts-Longer a
Acts-Longer {w = w} {v = v} (blocking_changes c b1 b2 a) = Acts-Longer a
Acts-Longer {w = w} {v = v} (launches c new a) =
    Longer-trans w (record (resume w.r (some 0) none (put_cr c new w)) { r = c }) v (w.r ∷ [], refl)
      (Acts-Longer a)
Acts-Longer {w = w} {v = v} (polled time a) = Acts-Longer a
Acts-Longer {w = w} {v = v} (fires {u = u} fuel nw any h a) =
    Longer-trans w u v (subst (λ o. Keeps w.ready o) h (fire-Keeps fuel nw w)) (Acts-Longer a)

-- The switch with a queue that starts with `x`.
switch-first :
    (w : World) (x : ℕ) (xs : List ℕ)
    → w.ready ≡ x ∷ xs
    → (u : World) × (switch w ≡ some u) × (u.r ≡ x) × (u.ready ≡ xs)
unfolding switch
switch-first w x xs h = (switched x xs w, rw h refl, refl, refl)

-- A coroutine with a number of others ahead of it in the queue runs after as many turns and one switch
-- more, and that switch meets no failed assertion. In between the coroutines that run may add clauses and
-- timers, wake others or themselves, change the lists of channels and the flags of blocking and launch
-- coroutines, and a poll and the loop over the timers may wake any.
pub fairness :
    {n : ℕ} {w v x : World} (ahead behind : List ℕ) (c : ℕ)
    → w.ready ≡ ahead ++ c ∷ behind
    → n ≡ length ahead
    → Turns n w v
    → Acts v x
    → (u : World) × (switch x ≡ some u) × (u.r ≡ c)
fairness {w = w} {x = x} [] behind c h e no_turn a =
    let (more, q) = Acts-Longer a in
    let (u, ran, is, _) = switch-first x c (behind ++ more) (q ∙ ap (λ l. l ++ more) h) in
    (u, ran, is)
fairness [] behind c h e (turn b s t) a = absurd (omega (arith, e))
fairness (y ∷ ahead) behind c h e no_turn a = absurd (omega (arith, e))
fairness (y ∷ ahead) behind c h e (turn {w = w} {v = v} {u = u} b s t) a =
    let (more, q) = Acts-Longer b in
    let (u', ran, _, left) =
      switch-first v y ((ahead ++ c ∷ behind) ++ more) (q ∙ ap (λ l. l ++ more) h) in
    let same : u' ≡ u = ap (the v) (sym ran ∙ s) in
    fairness ahead (behind ++ more) c
      (ap (λ z. z.ready) (sym same) ∙ left ∙ append_assoc ahead (c ∷ behind) more)
      (omega (arith, e)) t a
