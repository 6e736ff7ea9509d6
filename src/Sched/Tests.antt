-- ===== src/Sched/Tests.antt =====
-- Runs of cr.c, and the theorems at these inputs.
use libdill.Base.{
  Option, List, ◌||◌, Bool-cases, inl, inr, suc, zero, ◌*◌, All, ℕ, ◌+◌, ◌^◌, ◌<◌, ◌≤◌, ◌≡◌, refl,
  Bool, true, false, ◌⊎◌, none, some, [], ◌∷◌, ◌==◌, if◌then◌else◌, arith,
}
use libdill.Sched.{Cr, Timer, Waiter, World, in_timers, in_list, docancel, fire, timeout_of, switch}
use libdill.Sched.Pollset.{Event, fire_events, fire_event, fire_slot}
use libdill.Sched.Wait.{Env, pollset_poll, poll_loop, wait}
use libdill.Sched.Waiting.{Patient, wait-ready}
use libdill.Sched.Invariant.{Placed, Sound, Running}
use libdill.Sched.Blocking.{switched, switch-Sound}
use libdill.Sched.Timers.{Sorted, fire_lem, timeout_of_lem}
use libdill.Sched.Fairness.{nothing, no_turn, turn, fairness}

abbrev idle : Cr
idle = record {
  clauses = [];
  id = none;
  errno = none;
  queued = false;
  no_blocking1 = false;
  no_blocking2 = false;
}

abbrev later : Timer
later = record { val = 5; cr = 1; id = 1 }

-- The coroutine 1 waits for the time 5, the coroutines 2 and 3 are ready and 0 runs.
abbrev world : World
world = record {
  crs = λ c.
      if c == 1
      then record idle { clauses = record { id = 1; kind = in_timers } ∷ [] }
      else record idle { queued = c == 2 };
  r = 0;
  ready = 2 ∷ [];
  timers = later ∷ [];
  last_poll = 0;
  lists = λ p. [];
}

world-Sound : Sound world
world-Sound = record {
  waiters = λ p. tt;
  timed = ((refl, refl), tt);
  queued = (refl, tt);
  once = (tt, tt);
}

fire_example :
    (any : Bool) × (w' : World) × (fire 2 7 world ≡ some (any, w'))
    × Sound w'
    × Sorted w'.timers
    × All (λ t. 7 < t.val) w'.timers
    × (w'.r ≡ 0)
fire_example = fire_lem 2 7 world world-Sound (tt, tt) (omega arith)

switch_example :
    (switch world ≡ some (switched 2 [] world))
    × Sound (switched 2 [] world)
    × Running (switched 2 [] world)
switch_example = switch-Sound 2 [] world world-Sound refl

timeout_example :
    (ms : ℕ) × (timeout_of true 3 (later ∷ []) ≡ some ms)
    × (5 ≤ 3 + ms)
    × All (λ u. (u.val ≤ 3) ⊎ (3 + ms ≤ u.val)) (later ∷ [])
timeout_example = timeout_of_lem 3 later [] (tt, tt) (omega arith)

abbrev queue : World
queue = record world { ready = 2 ∷ 3 ∷ [] }

first : switch queue ≡ some (switched 2 (3 ∷ []) queue)
unfolding switch
first = refl

fairness_example : (u : World) × (switch (switched 2 (3 ∷ []) queue) ≡ some u) × (u.r ≡ 3)
fairness_example = fairness (2 ∷ []) [] 3 refl refl (turn nothing first no_turn) nothing

-- A deadline more than 2 ^ 31 milliseconds away makes the timeout negative, and the poll has no limit.
unlimited : timeout_of true 0 (record { val = 2 ^ 31; cr = 1; id = 1 } ∷ []) ≡ none
unfolding timeout_of
unlimited = refl

-- The coroutine 1 waits for the time 5 and for the descriptor 3, too.
abbrev reader : Waiter
reader = record { cr = 1; id = 2; val = 0; len = 0 }

abbrev reading : World
reading = record world {
  crs = λ c.
      if c == 1
      then record idle {
        clauses = record { id = 2; kind = in_list 6 } ∷ record { id = 1; kind = in_timers } ∷ [];
      }
      else record idle { queued = c == 2 };
  lists = λ p. if p == 6 then reader ∷ [] else [];
}

reading-Sound : Sound reading
reading-Sound = record {
  waiters = λ p. elim (Bool-cases (p == 6)) [
    | inl e ↦
        let listed : (p == 6 || false) ≡ true = ground arith in
        let held : Placed reading p reader = (refl, listed) in rw e (held, tt)
    | inr e ↦ rw e tt
  ];
  timed = ((refl, refl), tt);
  queued = (refl, tt);
  once = (tt, tt);
}

-- The system interrupts as many polls as its state says, then the descriptor 3 is readable and hung up. The
-- clock shows 2000.
abbrev hangup : Event
hangup = record { fd = 3; readable = true; writable = true }

abbrev after : ℕ → Option (List Event) × ℕ
after zero = (some (hangup ∷ []), 0)
after (suc n) = (none, n)

abbrev system : Env ℕ
system = record {
  now = λ e. (2000, e);
  epoll_wait = λ t w e. after e;
  in_slot = λ fd. 2 * fd;
  out_slot = λ fd. 2 * fd + 1;
}

system-Patient : Patient system (λ e. e)
system-Patient w zero h = absurd (ground arith)
system-Patient w (suc n) h = omega arith

wait_example :
    (w' : World) × (e' : ℕ) × (wait system 3 reading 2 ≡ some (w', e'))
    × (w'.r ≡ 2)
    × Sound w'
    × Running w'
wait_example =
    wait-ready system (λ e. e) system-Patient 3 reading 2 2 [] reading-Sound (tt, tt) refl
      (omega arith)

-- The hangup wakes the coroutine 1, for its first event only.
woken_once :
    elim (wait system 3 reading 2) as (λ _. List ℕ) [ none ↦ [] | some (w, e) ↦ w.ready ] ≡ 1 ∷ []
unfolding wait poll_loop pollset_poll fire_events fire_event fire_slot docancel timeout_of fire
    switch
woken_once = refl
