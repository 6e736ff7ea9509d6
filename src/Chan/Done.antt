-- ===== src/Chan/Done.antt =====
-- The loops that wake everyone who waits on a channel: they end, and leave nobody behind.
use libdill.Base.{
  All, All-map, ℕ, zero, suc, ◌≡◌, refl, subst, sym, ◌∙◌, ap, true, false, ◌⊎◌, inl, inr, Option,
  some, List, [], ◌∷◌, Bool-cases, List-cases, ◌==◌, if◌then◌else◌, if-false, ◌<◌, length, arith,
  Result, ok, err, epipe,
}
use libdill.Sched.{World, Waiter}
use libdill.Sched.Clauses.{cancel_all-lists, cancel_all-rest}
use libdill.Sched.Progress.{cancel_all-shorter, stay-cancel_all}
use libdill.Sched.Invariant.{Sound, Placed, woken_up, Placed-Known}
use libdill.Chan.{
  Chans, returns, send_to, recv_from, wake_all, halfchan_term, done_on, chdone, other, in_of,
  out_of, put_half,
}
use libdill.Chan.Safety.{wake-some, first-Placed}

-- The coroutine is queued to go on with `errno` EPIPE.
abbrev pub Woken : World → ℕ → Type 0
Woken w c = ((w.crs c).queued ≡ true) × ((w.crs c).errno ≡ some epipe)

-- What waking one waiter after the other does to the scheduler.
pub record Wakes (w w' : World) : Type 1 where
  pub sound : Sound w'
  pub running : w'.r ≡ w.r
  pub still : (c : ℕ) → (w.crs c).queued ≡ true → w'.crs c ≡ w.crs c
  pub fewer : (P : Waiter → Type 0) (q : ℕ) → All P (w.lists q) → All P (w'.lists q)
  pub told :
      (P : Waiter → Type 0) (q : ℕ)
      → All P (w'.lists q)
      → All (λ x. Woken w' x.cr ⊎ P x) (w.lists q)

Wakes-none : (w : World) → Sound w → Wakes w w
Wakes-none w h = record {
  sound = h;
  running = refl;
  still = λ c q. refl;
  fewer = λ P q k. k;
  told = λ P q k. All-map (λ x f. inr f) (w.lists q) k;
}

Woken-self : (w : World) (c i : ℕ) → Woken (woken_up c (some i) (some epipe) w) c
Woken-self w c i = let self : (c == c) ≡ true = ground arith in (rw self refl, rw self refl)

still_one :
    (w : World) (c i : ℕ) (j : ℕ)
    → (w.crs c).queued ≡ false
    → (w.crs j).queued ≡ true
    → (woken_up c (some i) (some epipe) w).crs j ≡ w.crs j
still_one w c i j f t = elim (Bool-cases (j == c)) [
  | inl e ↦
      let same : j ≡ c = ground arith in
      absurd (clash (sym f ∙ ap (λ m. (w.crs m).queued) (sym same) ∙ t))
  | inr e ↦ rw e (ap (λ f. f j) (cancel_all-rest c (w.crs c).clauses w).0)
]
  where
    clash : false ≡ true → ⊥
    clash h = ground arith

-- The first waiter is woken, and then the others.
Wakes-more :
    (w w' : World) (x : Waiter) (p : ℕ)
    → Placed w p x
    → Wakes (woken_up x.cr (some x.id) (some epipe) w) w'
    → Wakes w w'
Wakes-more w w' x p placed h = record {
  sound = h.sound;
  running = h.running ∙ (cancel_all-rest x.cr (w.crs x.cr).clauses w).2;
  still = λ c q.
      h.still c (ap (λ s. s.queued) (still_one w x.cr x.id c placed.0 q) ∙ q)
      ∙ still_one w x.cr x.id c placed.0 q;
  fewer = λ P q k. h.fewer P q (cancel_all-lists P x.cr (w.crs x.cr).clauses w q k);
  told = λ P q k.
      All-map (λ y f. tell P y f) (w.lists q)
        (stay-cancel_all (λ y. Woken w' y.cr ⊎ P y) x.cr (w.crs x.cr).clauses w q (h.told P q k));
}
  where
    me : w'.crs x.cr ≡ (woken_up x.cr (some x.id) (some epipe) w).crs x.cr
    me = h.still x.cr (Woken-self w x.cr x.id).0

    told_me : Woken w' x.cr
    told_me = (
      ap (λ s. s.queued) me ∙ (Woken-self w x.cr x.id).0,
      ap (λ s. s.errno) me ∙ (Woken-self w x.cr x.id).1,
    )

    tell :
        (P : Waiter → Type 0) (y : Waiter)
        → ((y.cr == x.cr) ≡ true) ⊎ (Woken w' y.cr ⊎ P y)
        → Woken w' y.cr ⊎ P y
    tell P y (inl e) =
        let same : x.cr ≡ y.cr = ground arith in inl (subst (λ c. Woken w' c) same told_me)
    tell P y (inr f) = f

-- One turn more than the list is long is enough: the loop ends, and the list is empty then.
wake_all-Wakes :
    (hquery : ℕ → Result ℕ) (fuel p : ℕ) (s : Chans)
    → Sound s.world
    → length (s.world.lists p) < fuel
    → (w' : World) × (wake_all hquery fuel p s ≡ some (record s { world = w' }))
      × Wakes s.world w'
      × (w'.lists p ≡ [])
unfolding wake_all
wake_all-Wakes hquery zero p s h lt = absurd (omega arith)
wake_all-Wakes hquery (suc fuel) p s h lt = elim (List-cases (s.world.lists p)) [
  | inl l ↦ (s.world, rw (wake_all, l) refl, Wakes-none s.world h, l)
  | inr (x, xs, l) ↦
      let placed = first-Placed s.world p x xs h l in
      let (woken, sound) = wake-some x p (some epipe) s h placed in
      let shorter =
        cancel_all-shorter x.cr (s.world.crs x.cr).clauses s.world p x xs l refl
          (All-map (λ y k. Placed-Known s.world x.cr p y k) (s.world.lists p) (h.waiters p)) in
      let (w', ran, all, empty) =
        wake_all-Wakes hquery fuel p
          (record s { world = woken_up x.cr (some x.id) (some epipe) s.world }) sound
          (omega (arith, ap length l, shorter)) in
      (w', rw (wake_all, l, woken) ran, Wakes-more s.world w' x p placed all, empty)
]

Wakes-trans : (u v w : World) → Wakes u v → Wakes v w → Wakes u w
Wakes-trans u v w h k = record {
  sound = k.sound;
  running = k.running ∙ h.running;
  still = λ c q. k.still c (ap (λ s. s.queued) (h.still c q) ∙ q) ∙ h.still c q;
  fewer = λ P q f. k.fewer P q (h.fewer P q f);
  told = λ P q f.
      All-map (λ x g. tell P x g) (u.lists q) (h.told (λ x. Woken w x.cr ⊎ P x) q (k.told P q f));
}
  where
    tell :
        (P : Waiter → Type 0) (x : Waiter)
        → Woken v x.cr ⊎ (Woken w x.cr ⊎ P x)
        → Woken w x.cr ⊎ P x
    tell P x (inl (q, e)) =
        inl (ap (λ s. s.queued) (k.still x.cr q) ∙ q, ap (λ s. s.errno) (k.still x.cr q) ∙ e)
    tell P x (inr g) = g

abbrev Nobody : Waiter → Type 0
Nobody x = ⊥

no_one : (l : List Waiter) → All Nobody l → l ≡ []
no_one [] h = refl
no_one (x ∷ xs) h = absurd h.0

no_one_in : (l : List Waiter) → l ≡ [] → All Nobody l
no_one_in l e = subst (λ m. All Nobody m) (sym e) tt

everyone_told :
    (w w' : World) (q : ℕ) → Wakes w w' → w'.lists q ≡ [] → All (λ x. Woken w' x.cr) (w.lists q)
everyone_told w w' q h e =
    All-map (λ x f. one x f) (w.lists q) (h.told Nobody q (no_one_in (w'.lists q) e))
  where
    one : (x : Waiter) → Woken w' x.cr ⊎ ⊥ → Woken w' x.cr
    one x (inl k) = k
    one x (inr f) = absurd f

-- `dill_halfchan_term` ends, and wakes everyone in both lists.
pub halfchan_term-Wakes :
    (hquery : ℕ → Result ℕ) (ch : ℕ) (s : Chans)
    → Sound s.world
    → (w' : World) × (halfchan_term hquery ch s ≡ some (record s { world = w' }))
      × Wakes s.world w'
      × (w'.lists (in_of ch) ≡ [])
      × (w'.lists (out_of ch) ≡ [])
unfolding halfchan_term
halfchan_term-Wakes hquery ch s h =
    let (w1, ran1, all1, empty1) =
      wake_all-Wakes hquery (suc (length (s.world.lists (in_of ch)))) (in_of ch) s h
        (omega arith) in
    let (w2, ran2, all2, empty2) =
      wake_all-Wakes hquery (suc (length (w1.lists (out_of ch)))) (out_of ch)
        (record s { world = w1 }) all1.sound (omega arith) in
    (
      w2,
      rw (halfchan_term, ran1, ran2) refl,
      Wakes-trans s.world w1 w2 all1 all2,
      no_one (w2.lists (in_of ch))
          (all2.fewer Nobody (in_of ch) (no_one_in (w1.lists (in_of ch)) empty1)),
      empty2,
    )

-- `dill_chdone` through the handle `h` on a channel that is not done yet: the loops end, everyone who
-- waited to send or to receive is queued with EPIPE, both lists are empty, the scheduler stays sound,
-- and from then on a send and a receive there fail with EPIPE at once.
pub chdone_lem :
    (hquery : ℕ → Result ℕ) (h c : ℕ) (s : Chans)
    → Sound s.world
    → hquery h ≡ ok c
    → (s.halves (other s c)).done ≡ false
    → (s' : Chans) × (chdone hquery h s ≡ some (returns (ok 0), s'))
      × Sound s'.world
      × (s'.world.lists (in_of (other s c)) ≡ [])
      × (s'.world.lists (out_of (other s c)) ≡ [])
      × All (λ x. Woken s'.world x.cr) (s.world.lists (in_of (other s c)))
      × All (λ x. Woken s'.world x.cr) (s.world.lists (out_of (other s c)))
      × ((val len : ℕ) (deadline : Option ℕ)
          → (send_to hquery (other s c) val len deadline s' ≡ some (returns (err epipe), s'))
            × (recv_from hquery (other s c) val len deadline s' ≡ some (returns (err epipe), s')))
unfolding chdone done_on
chdone_lem hquery h c s sound found open_yet =
    let ch : ℕ = other s c in
    let s1 : Chans = put_half ch (record (s.halves ch) { done = true }) s in
    let (w', ran, all, none_in, none_out) = halfchan_term-Wakes hquery ch s1 sound in
    let self : (ch == ch) ≡ true = ground arith in
    let s2 : Chans = record s1 { world = w' } in
    let is_done : (s2.halves ch).done ≡ true =
      ap (λ b. (if b then record (s.halves ch) { done = true } else s.halves ch).done) self in
    (
      s2,
      rw (chdone, found) (unfold done_on in if-false _ _ open_yet ∙ rw (ran) refl),
      all.sound,
      none_in,
      none_out,
      everyone_told s.world w' (in_of ch) all none_in,
      everyone_told s.world w' (out_of ch) all none_out,
      λ val len deadline. (
        unfold send_to in rw (send_to, is_done) refl,
        unfold recv_from in rw (recv_from, is_done) refl,
      ),
    )
