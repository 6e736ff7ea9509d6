-- ===== src/Chan.antt =====
-- chan.c: channels and `choose`, on the scheduler of Sched.
-- A half-channel is its address; the two of a channel are neighbours, and `index` tells which is the
-- first. The heads of its two lists are addresses as well. A buffer is an address too, and holds its bytes.
pub mod Safety
pub mod Delivery
pub mod Done
pub mod Choose
pub mod Choosing
pub mod Tests
use libdill.Base.{
  ℕ, zero, suc, ◌+◌, ◌-◌, ◌*◌, Bool, true, false, ◌&&◌, ◌||◌, not, Option, none, some, List, [],
  ◌∷◌, ◌++◌, length, take, ◌==◌, ltb, if◌then◌else◌, Errno, einval, emsgsize, epipe, etimedout,
  ecanceled, Result, ok, err,
}
use libdill.Sched.{World, Waiter, Kind, in_list, canblock, trigger, waitfor, timer}
use libdill.Sched.Blocking.{wait_in}

-- `struct dill_halfchan` without its two lists and its virtual functions.
pub record HalfChan : Type 0 where
  pub index : Bool
  pub done : Bool
  pub mem : Bool
  pub closed : Bool

-- The heads of the lists `in` and `out`.
abbrev pub in_of : ℕ → ℕ
in_of ch = 2 * ch

abbrev pub out_of : ℕ → ℕ
out_of ch = 2 * ch + 1

-- The half-channels, the buffers and the scheduler.
pub record Chans : Type 0 where
  pub halves : ℕ → HalfChan
  pub bytes : ℕ → List ℕ
  pub world : World

-- `dill_halfchan_other`
abbrev pub other : Chans → ℕ → ℕ
other s ch = if (s.halves ch).index then ch - 1 else ch + 1

abbrev pub put_half : ℕ → HalfChan → Chans → Chans
put_half ch f s = record s { halves = λ j. if j == ch then f else s.halves j }

-- `dill_halfchan_init`; both lists are empty then.
abbrev pub halfchan_init : ℕ → Bool → Chans → Chans
halfchan_init ch index s =
    put_half ch (record { index = index; done = false; mem = true; closed = false })
      (record s {
        world = record s.world {
          lists = λ q. if q == in_of ch || q == out_of ch then [] else s.world.lists q;
        };
      })

-- `memcpy(to, from, len)`
abbrev pub memcpy : (to from len : ℕ) → Chans → Chans
memcpy to from len s = record s {
  bytes = λ j. if j == to then take len (s.bytes from) else s.bytes j;
}

-- A call either returns, or waits in `dill_wait` with its clauses added.
pub data Call : Type 0 where
  returns : Result ℕ → Call
  waits : Call

-- What a call that has waited returns when `dill_wait` gives `id` and `errno`; `timer_id` is the id of its
-- timer. That -1 comes without an error happens to `dill_cr_close` only, not here.
unfoldable pub resumed : (timer_id : ℕ) → Option ℕ × Option Errno → Result ℕ
resumed timer_id (none, none) = err ecanceled
resumed timer_id (none, some e) = err e
resumed timer_id (some i, none) = if i == timer_id then err etimedout else ok 0
resumed timer_id (some i, some e) = if i == timer_id then err etimedout else err e

-- The clause's coroutine is woken with `e`, in a state where a message may have been copied.
abbrev pub wake : Waiter → Option Errno → Chans → Option Chans
wake x e s = elim (trigger x.cr x.id e s.world) as (λ _. Option Chans) [
  | none ↦ none
  | some w ↦ some (record s { world = w })
]

-- A failed assertion is `none`.
abbrev pub Outcome : Type 0
Outcome = Option (Call × Chans)

abbrev pub after_wake : Call → Option Chans → Outcome
after_wake c none = none
after_wake c (some s) = some (c, s)

-- The part of `dill_chsend` that hands the message `val` to the first receiver `x`.
unfoldable pub give : (val len : ℕ) (answer : Result ℕ) → Waiter → Chans → Outcome
give val len answer x s =
    if not (len == x.len)
    then after_wake (returns (err emsgsize)) (wake x (some emsgsize) s)
    else after_wake (returns answer) (wake x none (memcpy x.val val len s))

-- The part of `dill_chrecv` that takes the message of the first sender `x`.
unfoldable pub take_from : (val len : ℕ) (answer : Result ℕ) → Waiter → Chans → Outcome
take_from val len answer x s =
    if not (len == x.len)
    then after_wake (returns (err emsgsize)) (wake x (some emsgsize) s)
    else after_wake (returns answer) (wake x none (memcpy val x.val len s))

-- `if(deadline == 0)`
abbrev pub no_wait : Option ℕ → Bool
no_wait none = false
no_wait (some d) = d == 0

-- The clause in the list at `p` and the timer of a call that waits.
abbrev pub wait_on : (p val len : ℕ) → Option ℕ → Chans → Chans
wait_on p val len deadline s = record s { world = timer 1 deadline (wait_in p 0 val len s.world) }

module _ (hquery : ℕ → Result ℕ) where
  -- `dill_chsend` on the half-channel `ch` that the handle stands for.
  unfoldable pub send_to : (ch val len : ℕ) → Option ℕ → Chans → Outcome
  unfolding give
  send_to ch val len deadline s =
      if (s.halves ch).done
      then some (returns (err epipe), s)
      else elim (s.world.lists (in_of ch)) [
        | x ∷ _ ↦ give val len (ok 0) x s
        | [] ↦
            if no_wait deadline
            then some (returns (err etimedout), s)
            else some (waits, wait_on (out_of ch) val len deadline s)
      ]

  unfoldable pub chsend : (h val len : ℕ) → Option ℕ → Chans → Outcome
  unfolding canblock send_to
  chsend h val len deadline s = elim (canblock s.world) as (λ _. Outcome) [
    | err e ↦ some (returns (err e), s)
    | ok _ ↦ elim (hquery h) as (λ _. Outcome) [
      | err e ↦ some (returns (err e), s)
      | ok ch ↦ send_to (other s ch) val len deadline s
    ]
  ]

  unfoldable pub recv_from : (ch val len : ℕ) → Option ℕ → Chans → Outcome
  unfolding take_from
  recv_from ch val len deadline s =
      if (s.halves ch).done
      then some (returns (err epipe), s)
      else elim (s.world.lists (out_of ch)) [
        | x ∷ _ ↦ take_from val len (ok 0) x s
        | [] ↦
            if no_wait deadline
            then some (returns (err etimedout), s)
            else some (waits, wait_on (in_of ch) val len deadline s)
      ]

  unfoldable pub chrecv : (h val len : ℕ) → Option ℕ → Chans → Outcome
  unfolding canblock recv_from
  chrecv h val len deadline s = elim (canblock s.world) as (λ _. Outcome) [
    | err e ↦ some (returns (err e), s)
    | ok _ ↦ elim (hquery h) as (λ _. Outcome) [
      | err e ↦ some (returns (err e), s)
      | ok ch ↦ recv_from ch val len deadline s
    ]
  ]

  -- `while(!dill_list_empty(list)) dill_trigger(first, EPIPE);`
  unfoldable pub wake_all : (fuel p : ℕ) → Chans → Option Chans
  wake_all zero p s = none
  wake_all (suc fuel) p s = elim (s.world.lists p) [
    | [] ↦ some s
    | x ∷ _ ↦ elim (wake x (some epipe) s) as (λ _. Option Chans) [
      | none ↦ none
      | some s' ↦ wake_all fuel p s'
    ]
  ]

  -- `dill_halfchan_term`: both lists. Enough turns are one more than the list is long.
  unfoldable pub halfchan_term : ℕ → Chans → Option Chans
  unfolding wake_all
  halfchan_term ch s =
      elim (wake_all (suc (length (s.world.lists (in_of ch)))) (in_of ch) s)
        as (λ _. Option Chans) [
          | none ↦ none
          | some s' ↦ wake_all (suc (length (s'.world.lists (out_of ch)))) (out_of ch) s'
        ]

  unfoldable pub done_on : ℕ → Chans → Outcome
  unfolding halfchan_term
  done_on ch s =
      if (s.halves ch).done
      then some (returns (err epipe), s)
      else after_wake (returns (ok 0))
          (halfchan_term ch (put_half ch (record (s.halves ch) { done = true }) s))

  unfoldable pub chdone : ℕ → Chans → Outcome
  unfolding done_on
  chdone h s = elim (hquery h) as (λ _. Outcome) [
    | err e ↦ some (returns (err e), s)
    | ok ch ↦ done_on (other s ch) s
  ]

  -- `dill_halfchan_close`: the second half to be closed ends both; a half is closed once.
  unfoldable pub halfchan_close : ℕ → Chans → Option Chans
  unfolding halfchan_term
  halfchan_close ch s =
      let first = if (s.halves ch).index then other s ch else ch in
      let both : Option Chans = elim (halfchan_term first s) as (λ _. Option Chans) [
        | none ↦ none
        | some s' ↦ halfchan_term (first + 1) s'
      ] in
      if (s.halves ch).closed
      then none
      else if (s.halves (other s ch)).closed
      then both
      else some (put_half ch (record (s.halves ch) { closed = true }) s)
