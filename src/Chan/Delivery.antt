-- ===== src/Chan/Delivery.antt =====
-- chan.c
-- A receiver that waits is given the message of the next sender.
use libdill.Base.{
  All, All-map, ℕ, ◌≡◌, refl, ◌≢◌, ◌∙◌, ap, Bool, true, false, ◌||◌, not, Option, none, some, List,
  [], ◌∷◌, ◌++◌, Bool-cases, inl, inr, ◌==◌, if-false, take, arith, Result, ok,
}
use libdill.Sched.{World, Waiter, Cr, Kind, in_list, in_timers, waitfor, canblock, timer, switch}
use libdill.Sched.Clauses.{cancel_all-rest, cancel_all-gone}
use libdill.Sched.Invariant.{Sound, woken_up, Placed-Known}
use libdill.Sched.Blocking.{wait_in, switched, switch-Sound}
use libdill.Chan.{
  Chans, returns, waits, give, memcpy, send_to, recv_from, chsend, chrecv, in_of, out_of, other,
  no_wait, wait_on, resumed,
}
use libdill.Chan.Safety.{wake-some, first-Placed, wait_on-Sound}

-- What a call of `dill_wait` of the coroutine `c` gives when it is woken by a transfer.
abbrev pub Transferred : World → ℕ → ℕ → Type 0
Transferred w c i = ((w.crs c).queued ≡ true) × ((w.crs c).id ≡ some i) × ((w.crs c).errno ≡ none)

pub woken_up-Transferred : (c i : ℕ) (w : World) → Transferred (woken_up c (some i) none w) c i
woken_up-Transferred c i w =
    let self : (c == c) ≡ true = ground arith in (rw self refl, rw self refl, rw self refl)

-- `dill_chsend` to a half-channel where `x` waits first for a message of that length: the message is in
-- its buffer and no other buffer changes, it goes to the end of the queue to return without an error, and
-- it waits on no channel any more.
pub chsend-waiting :
    (hquery : ℕ → Result ℕ) (h a val : ℕ) (deadline : Option ℕ) (s : Chans) (x : Waiter)
    (xs : List Waiter)
    → Sound s.world
    → canblock s.world ≡ ok tt
    → hquery h ≡ ok a
    → (s.halves (other s a)).done ≡ false
    → s.world.lists (in_of (other s a)) ≡ x ∷ xs
    → (s' : Chans) × (chsend hquery h val x.len deadline s ≡ some (returns (ok 0), s'))
      × Sound s'.world
      × (s'.bytes x.val ≡ take x.len (s.bytes val))
      × ((j : ℕ) → j ≢ x.val → s'.bytes j ≡ s.bytes j)
      × Transferred s'.world x.cr x.id
      × (s'.world.ready ≡ s.world.ready ++ x.cr ∷ [])
      × ((p : ℕ) → All (λ y. (y.cr == x.cr) ≡ false) (s'.world.lists p))
unfolding chsend send_to give
chsend-waiting hquery h a val deadline s x xs sound free found going first =
    let w : World = s.world in
    let placed = first-Placed w (in_of (other s a)) x xs sound first in
    let s1 : Chans = memcpy x.val val x.len s in
    let (woken, sound') = wake-some x (in_of (other s a)) none s1 sound placed in
    let self : (x.val == x.val) ≡ true = ground arith in
    let fits : not (x.len == x.len) ≡ false = ground arith in
    (
      record s1 { world = woken_up x.cr (some x.id) none w },
      rw (chsend, free, found) (if-false _ _ going ∙ rw (first, give, fits, woken) refl),
      sound',
      rw self refl,
      λ j ne. other_buffer j ne,
      woken_up-Transferred x.cr x.id w,
      ap (λ l. l ++ x.cr ∷ []) (cancel_all-rest x.cr (w.crs x.cr).clauses w).1,
      λ p.
          cancel_all-gone x.cr (w.crs x.cr).clauses w p
            (All-map (λ y k. Placed-Known w x.cr p y k) (w.lists p) (sound.waiters p)),
    )
  where
    other_buffer : (j : ℕ) → j ≢ x.val → (memcpy x.val val x.len s).bytes j ≡ s.bytes j
    other_buffer j ne = let differ : (j == x.val) ≡ false = ground arith in rw differ refl

timer-lists : (i : ℕ) (d : Option ℕ) (w : World) → (timer i d w).lists ≡ w.lists
timer-lists i none w = refl
timer-lists i (some d) w = refl

pub timer-ready : (i : ℕ) (d : Option ℕ) (w : World) → (timer i d w).ready ≡ w.ready
timer-ready i none w = refl
timer-ready i (some d) w = refl

abbrev blocks : Cr → Bool
blocks k = k.no_blocking1 || k.no_blocking2

waitfor-blocks :
    (i : ℕ) (k : Kind) (w : World) (j : ℕ) → blocks ((waitfor i k w).crs j) ≡ blocks (w.crs j)
waitfor-blocks i k w j = elim (Bool-cases (j == w.r)) [
  | inl e ↦ let same : w.r ≡ j = ground arith in rw e (ap (λ m. blocks (w.crs m)) same)
  | inr e ↦ rw e refl
]

timer-blocks :
    (i : ℕ) (d : Option ℕ) (w : World) (j : ℕ) → blocks ((timer i d w).crs j) ≡ blocks (w.crs j)
timer-blocks i none w j = refl
timer-blocks i (some d) w j = waitfor-blocks i in_timers w j

-- A coroutine that may block still may when it runs.
switched-canblock :
    (c : ℕ) (rest : List ℕ) (w : World)
    → blocks (w.crs c) ≡ false
    → canblock (switched c rest w) ≡ ok tt
unfolding canblock
switched-canblock c rest w h =
    let self : (c == c) ≡ true = ground arith in
    let free : blocks ((switched c rest w).crs c) ≡ false = rw self h in if-false _ _ free

-- A receiver waits on a half-channel where nobody waits, the coroutine `c` is next, and its call of
-- `dill_chsend` there sends a message of that length: both calls succeed and the receiver has the message.
pub chrecv-chsend :
    (hquery : ℕ → Result ℕ) (hs hr a : ℕ) (to from len : ℕ) (later deadline : Option ℕ) (s : Chans)
    (c : ℕ) (rest : List ℕ)
    → Sound s.world
    → canblock s.world ≡ ok tt
    → (s.world.crs s.world.r).queued ≡ false
    → s.world.ready ≡ c ∷ rest
    → ((s.world.crs c).no_blocking1 || (s.world.crs c).no_blocking2) ≡ false
    → hquery hs ≡ ok a
    → hquery hr ≡ ok (other s a)
    → (s.halves (other s a)).done ≡ false
    → s.world.lists (in_of (other s a)) ≡ []
    → s.world.lists (out_of (other s a)) ≡ []
    → no_wait later ≡ false
    → (s1 : Chans) × (w2 : World) × (s3 : Chans) × (chrecv hquery hr to len later s
        ≡ some (waits, s1))
      × (switch s1.world ≡ some w2)
      × (w2.r ≡ c)
      × (chsend hquery hs from len deadline (record s1 { world = w2 }) ≡ some (returns (ok 0), s3))
      × (s3.bytes to ≡ take len (s.bytes from))
      × (s3.world.ready ≡ rest ++ s.world.r ∷ [])
      × (resumed 1 ((s3.world.crs s.world.r).id, (s3.world.crs s.world.r).errno) ≡ ok 0)
unfolding chrecv recv_from resumed
chrecv-chsend hquery hs hr a to from len later deadline s c rest sound free run next free' found
      found' going none_in none_out patient =
    let b : ℕ = other s a in
    let w1 : World = wait_in (in_of b) 0 to len s.world in
    let s1 : Chans = wait_on (in_of b) to len later s in
    let sound1 = wait_on-Sound (in_of b) to len later s sound run in
    let (ran, sound2, _) = switch-Sound c rest s1.world sound1 (timer-ready 1 later w1 ∙ next) in
    let free2 =
      switched-canblock c rest s1.world
        (timer-blocks 1 later w1 c ∙ waitfor-blocks 0 (in_list (in_of b)) s.world c ∙ free') in
    let (s3, sent, _, copied, _, (_, given, unharmed), queue, _) =
      chsend-waiting hquery hs a from deadline (record s1 { world = switched c rest s1.world }) item
        [] sound2 free2 found going (ap (λ f. f (in_of b)) (timer-lists 1 later w1) ∙ alone) in
    (
      s1,
      switched c rest s1.world,
      s3,
      rw (chrecv, free, found') (if-false _ _ going ∙ rw (none_out, patient) refl),
      ran,
      refl,
      sent,
      copied,
      queue,
      rw (given, unharmed) refl,
    )
  where
    item : Waiter
    item = record { cr = s.world.r; id = 0; val = to; len = len }

    alone : (wait_in (in_of (other s a)) 0 to len s.world).lists (in_of (other s a)) ≡ item ∷ []
    alone =
        let self : (in_of (other s a) == in_of (other s a)) ≡ true = ground arith in
        rw (self, none_in) refl
