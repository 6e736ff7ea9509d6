-- ===== src/Chan/Safety.antt =====
-- Every call on a channel keeps the scheduler sound and meets no failed assertion.
use libdill.Base.{
  All, ℕ, ◌≡◌, refl, subst, Bool, false, inl, inr, not, Option, none, some, List, [], ◌∷◌,
  Bool-cases, List-cases, Result-cases, ◌==◌, if◌then◌else◌, Errno, Result, ok, err, epipe,
  emsgsize, etimedout,
}
use libdill.Sched.{World, Waiter, in_list, canblock}
use libdill.Sched.Invariant.{Sound, Placed, woken_up, docancel-Sound}
use libdill.Sched.Blocking.{wait_in-Sound, waitfor-queued, timer-Sound, wait_in}
use libdill.Chan.{
  Chans, Call, returns, waits, Outcome, wake, give, take_from, memcpy, send_to, recv_from, chsend,
  chrecv, in_of, out_of, other, no_wait, wait_on,
}

-- A call ends without a failed assertion, in a state whose scheduler is sound.
abbrev Fine : Outcome → Type 0
Fine none = ⊥
Fine (some (c, s)) = Sound s.world

pub wake-some :
    (x : Waiter) (p : ℕ) (e : Option Errno) (s : Chans)
    → Sound s.world
    → Placed s.world p x
    → (wake x e s ≡ some (record s { world = woken_up x.cr (some x.id) e s.world }))
      × Sound (woken_up x.cr (some x.id) e s.world)
wake-some x p e s h placed =
    let (woken, sound) = docancel-Sound x.cr (some x.id) e s.world h placed.0 in
    (rw (wake, woken) refl, sound)

-- The first in a list is placed there.
pub first-Placed :
    (w : World) (p : ℕ) (x : Waiter) (xs : List Waiter)
    → Sound w
    → w.lists p ≡ x ∷ xs
    → Placed w p x
first-Placed w p x xs h e = (subst (λ l. All (Placed w p) l) e (h.waiters p)).0

give-Fine :
    (val len : ℕ) (answer : Result ℕ) (x : Waiter) (p : ℕ) (s : Chans)
    → Sound s.world
    → Placed s.world p x
    → Fine (give val len answer x s)
unfolding give
give-Fine val len answer x p s h placed = elim (Bool-cases (not (len == x.len))) [
  | inl e ↦
      let (woken, sound) = wake-some x p (some emsgsize) s h placed in rw (give, e, woken) sound
  | inr e ↦
      let (woken, sound) = wake-some x p none (memcpy x.val val len s) h placed in
      rw (give, e, woken) sound
]

take_from-Fine :
    (val len : ℕ) (answer : Result ℕ) (x : Waiter) (p : ℕ) (s : Chans)
    → Sound s.world
    → Placed s.world p x
    → Fine (take_from val len answer x s)
unfolding take_from
take_from-Fine val len answer x p s h placed = elim (Bool-cases (not (len == x.len))) [
  | inl e ↦
      let (woken, sound) = wake-some x p (some emsgsize) s h placed in
      rw (take_from, e, woken) sound
  | inr e ↦
      let (woken, sound) = wake-some x p none (memcpy val x.val len s) h placed in
      rw (take_from, e, woken) sound
]

pub wait_on-Sound :
    (p val len : ℕ) (deadline : Option ℕ) (s : Chans)
    → Sound s.world
    → (s.world.crs s.world.r).queued ≡ false
    → Sound (wait_on p val len deadline s).world
wait_on-Sound p val len deadline s h q =
    timer-Sound 1 deadline (wait_in p 0 val len s.world) (wait_in-Sound p 0 val len s.world h q)
      (waitfor-queued 0 (in_list p) s.world q)

-- A transfer to or from the list at `p`, where a call waits in the list at `q` if `p` is empty.
module _ (p q : ℕ) (done : Bool) (val len : ℕ) (deadline : Option ℕ)
    (transfer : Waiter → Chans → Outcome) where
  abbrev transfer_or_wait : Chans → Outcome
  transfer_or_wait s =
      if done then some (returns (err epipe), s) else elim (s.world.lists p) as (λ _. Outcome) [
        | x ∷ _ ↦ transfer x s
        | [] ↦
            if no_wait deadline
            then some (returns (err etimedout), s)
            else some (waits, wait_on q val len deadline s)
      ]

  transfer_or_wait-Fine :
      (s : Chans)
      → Sound s.world
      → (s.world.crs s.world.r).queued ≡ false
      → ((x : Waiter) → Placed s.world p x → Fine (transfer x s))
      → Fine (transfer_or_wait s)
  transfer_or_wait-Fine s h run moved = elim (Bool-cases done) [
    | inl d ↦ rw d h
    | inr d ↦ elim (List-cases (s.world.lists p)) [
      | inr (x, xs, l) ↦ rw (d, l) (moved x (first-Placed s.world p x xs h l))
      | inl l ↦ elim (Bool-cases (no_wait deadline)) [
        | inl n ↦ rw (d, l, n) h
        | inr n ↦ rw (d, l, n) (wait_on-Sound q val len deadline s h run)
      ]
    ]
  ]

send_to-Fine :
    (hquery : ℕ → Result ℕ) (ch val len : ℕ) (deadline : Option ℕ) (s : Chans)
    → Sound s.world
    → (s.world.crs s.world.r).queued ≡ false
    → Fine (send_to hquery ch val len deadline s)
unfolding send_to
send_to-Fine hquery ch val len deadline s h q =
    transfer_or_wait-Fine (in_of ch) (out_of ch) (s.halves ch).done val len deadline
      (give val len (ok 0)) s h q (λ x placed. give-Fine val len (ok 0) x (in_of ch) s h placed)

recv_from-Fine :
    (hquery : ℕ → Result ℕ) (ch val len : ℕ) (deadline : Option ℕ) (s : Chans)
    → Sound s.world
    → (s.world.crs s.world.r).queued ≡ false
    → Fine (recv_from hquery ch val len deadline s)
unfolding recv_from
recv_from-Fine hquery ch val len deadline s h q =
    transfer_or_wait-Fine (out_of ch) (in_of ch) (s.halves ch).done val len deadline
      (take_from val len (ok 0)) s h q
      (λ x placed. take_from-Fine val len (ok 0) x (out_of ch) s h placed)

-- A call that is fine gives an answer and a state.
ends : (o : Outcome) → Fine o → (c : Call) × (s' : Chans) × (o ≡ some (c, s')) × Sound s'.world
ends none h = absurd h
ends (some (c, s')) h = (c, s', refl, h)

-- In a state with a sound scheduler, `dill_chsend` and `dill_chrecv` of the running coroutine meet no
-- failed assertion and leave the scheduler sound, whether they fail, hand over a message or begin to wait.
pub chsend-chrecv-Sound :
    (hquery : ℕ → Result ℕ) (h val len : ℕ) (deadline : Option ℕ) (s : Chans)
    → Sound s.world
    → (s.world.crs s.world.r).queued ≡ false
    → ((c : Call) × (s' : Chans) × (chsend hquery h val len deadline s ≡ some (c, s'))
        × Sound s'.world)
      × ((c : Call) × (s' : Chans) × (chrecv hquery h val len deadline s ≡ some (c, s'))
          × Sound s'.world)
unfolding chsend chrecv
chsend-chrecv-Sound hquery h val len deadline s sound q = elim (Result-cases (canblock s.world)) [
  | inl (e, c) ↦ (
    ends (chsend hquery h val len deadline s) (rw (chsend, c) sound),
    ends (chrecv hquery h val len deadline s) (rw (chrecv, c) sound),
  )
  | inr (_, c) ↦ elim (Result-cases (hquery h)) [
    | inl (e, d) ↦ (
      ends (chsend hquery h val len deadline s) (rw (chsend, c, d) sound),
      ends (chrecv hquery h val len deadline s) (rw (chrecv, c, d) sound),
    )
    | inr (ch, d) ↦ (
      ends (chsend hquery h val len deadline s)
          (rw (chsend, c, d) (send_to-Fine hquery (other s ch) val len deadline s sound q)),
      ends (chrecv hquery h val len deadline s)
          (rw (chrecv, c, d) (recv_from-Fine hquery ch val len deadline s sound q)),
    )
  ]
]
