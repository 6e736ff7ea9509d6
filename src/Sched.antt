-- ===== src/Sched.antt =====
-- cr.c: coroutines, the clauses that they wait for, timers, and the switch to the next coroutine.
-- A coroutine is a number, and `crs` its `struct dill_cr`; the switch of stacks itself is not modelled.
-- A clause is known by its coroutine and its `id`, which differ among the clauses of one wait.
-- A time is in milliseconds, and a negative deadline is `none`. A failed assertion is `none`.
pub mod Clauses
pub mod Progress
pub mod Invariant
pub mod Blocking
pub mod Timers
pub mod Fairness
pub mod Pollset
pub mod Wait
pub mod Waiting
pub mod Tests
use libdill.Base.{
  ℕ, zero, suc, ◌+◌, ◌-◌, ◌%◌, ◌^◌, Bool, true, false, ◌&&◌, ◌||◌, not, Option, none, some, List,
  [], ◌∷◌, ◌++◌, length, ltb, leb, ◌==◌, if◌then◌else◌, Errno, ecanceled, etimedout, Result, ok,
  err,
}

-- What the `cancel` function of a clause does: it takes the clause from the list of a channel, from the
-- timers, or there is none.
pub data Kind : Type 0 where
  in_list : ℕ → Kind
  in_timers : Kind
  plain : Kind

pub record Clause : Type 0 where
  pub id : ℕ
  pub kind : Kind

-- `id` and `err` are what `dill_wait` returns and sets `errno` to; -1 and 0 are `none`. `queued` says
-- that `ready.next` is not NULL.
pub record Cr : Type 0 where
  pub clauses : List Clause
  pub id : Option ℕ
  pub errno : Option Errno
  pub queued : Bool
  pub no_blocking1 : Bool
  pub no_blocking2 : Bool

pub record Timer : Type 0 where
  pub val : ℕ
  pub cr : ℕ
  pub id : ℕ

-- `struct dill_chanclause` of chan.c: a coroutine that waits on a channel's list; `val` is the buffer.
pub record Waiter : Type 0 where
  pub cr : ℕ
  pub id : ℕ
  pub val : ℕ
  pub len : ℕ

-- `struct dill_ctx_cr`, with what the clauses are linked into: the lists of the channels by address.
-- `timers` is the tree of timers in its order.
pub record World : Type 0 where
  pub crs : ℕ → Cr
  pub r : ℕ
  pub ready : List ℕ
  pub timers : List Timer
  pub last_poll : ℕ
  pub lists : ℕ → List Waiter

unfoldable pub canblock : World → Result (Unit {0})
canblock w = if (w.crs w.r).no_blocking1 || (w.crs w.r).no_blocking2 then err ecanceled else ok tt

abbrev pub put_cr : ℕ → Cr → World → World
put_cr c s w = record w { crs = λ j. if j == c then s else w.crs j }

-- `dill_resume`
abbrev pub resume : ℕ → Option ℕ → Option Errno → World → World
resume c id e w =
    put_cr c (record (w.crs c) { id = id; errno = e; queued = true })
      (record w { ready = w.ready ++ c ∷ [] })

-- `dill_list_erase` of the clause, which takes out that very node.
abbrev pub drop_waiter : ℕ → ℕ → List Waiter → List Waiter
drop_waiter c i [] = []
drop_waiter c i (x ∷ xs) =
    if x.cr == c && x.id == i then drop_waiter c i xs else x ∷ drop_waiter c i xs

-- `dill_rbtree_erase`
abbrev pub drop_timer : ℕ → ℕ → List Timer → List Timer
drop_timer c i [] = []
drop_timer c i (t ∷ ts) =
    if t.cr == c && t.id == i then drop_timer c i ts else t ∷ drop_timer c i ts

-- `dill_rbtree_insert`: behind the items with the same value.
unfoldable pub insert_timer : Timer → List Timer → List Timer
insert_timer t [] = t ∷ []
insert_timer t (x ∷ xs) = if ltb t.val x.val then t ∷ x ∷ xs else x ∷ insert_timer t xs

-- `cl->cancel(cl)`
abbrev pub cancel_clause : ℕ → Clause → World → World
cancel_clause c cl w = elim (cl.kind) [
  | in_list p ↦ record w {
    lists = λ q. if q == p then drop_waiter c cl.id (w.lists q) else w.lists q;
  }
  | in_timers ↦ record w { timers = drop_timer c cl.id w.timers }
  | plain ↦ w
]

abbrev pub cancel_all : ℕ → List Clause → World → World
cancel_all c [] w = w
cancel_all c (cl ∷ cls) w = cancel_all c cls (cancel_clause c cl w)

-- `dill_docancel`
unfoldable pub docancel : ℕ → Option ℕ → Option Errno → World → Option World
docancel c id e w =
    if (w.crs c).queued then none else some (resume c id e (cancel_all c (w.crs c).clauses w))

-- `dill_trigger` of the clause `i` of the coroutine `c`, and `dill_cancel`.
abbrev pub trigger : ℕ → ℕ → Option Errno → World → Option World
trigger c i = docancel c (some i)

abbrev pub cancel : ℕ → Option Errno → World → Option World
cancel c = docancel c none

-- `dill_waitfor` of the running coroutine.
abbrev pub waitfor : ℕ → Kind → World → World
waitfor i kind w =
    put_cr w.r
      (record (w.crs w.r) { clauses = record { id = i; kind = kind } ∷ (w.crs w.r).clauses }) w

-- `dill_timer`
abbrev pub timer : ℕ → Option ℕ → World → World
timer i none w = w
timer i (some deadline) w =
    waitfor i in_timers
      (record w { timers = insert_timer (record { val = deadline; cr = w.r; id = i }) w.timers })

-- The loop over the expired timers; whether one fired.
unfoldable pub fire : (fuel nw : ℕ) → World → Option (Bool × World)
fire zero nw w = none
fire (suc fuel) nw w = elim (w.timers) [
  | [] ↦ some (false, w)
  | t ∷ _ ↦
      if ltb nw t.val
      then some (false, w)
      else (elim (trigger t.cr t.id (some etimedout) w) as (λ _. Option (Bool × World)) [
        | none ↦ none
        | some w' ↦ elim (fire fuel nw w') as (λ _. Option (Bool × World)) [
          | none ↦ none
          | some (_, w2) ↦ some (true, w2)
        ]
      ])
]

-- A time span kept in an `int`; a negative one is `none`.
abbrev pub to_int : ℕ → Option ℕ
to_int ms = if ltb (ms % 2 ^ 32) (2 ^ 31) then some (ms % 2 ^ 32) else none

-- The timeout of a poll; -1 is `none`.
unfoldable pub timeout_of : (block : Bool) (nw : ℕ) → List Timer → Option ℕ
timeout_of false nw ts = some 0
timeout_of true nw [] = none
timeout_of true nw (t ∷ ts) = if leb t.val nw then some 0 else to_int (t.val - nw)

-- The end of `dill_wait`: the next coroutine runs, and its own call of `dill_wait` returns.
unfoldable pub switch : World → Option World
switch w = elim (w.ready) [
  | [] ↦ none
  | c ∷ rest ↦ some (record (put_cr c (record (w.crs c) { queued = false; clauses = [] }) w) {
    ready = rest;
    r = c;
  })
]

-- What a coroutine finds when its call of `dill_wait` returns.
abbrev pub woken : World → Option ℕ × Option Errno
woken w = ((w.crs w.r).id, (w.crs w.r).errno)
