-- ===== src/Chan/Tests.antt =====
-- Runs of chan.c, and the theorems at these inputs.
use libdill.Base.{
  All, ℕ, ◌≡◌, refl, Bool, true, false, Option, none, some, List, [], ◌∷◌, ◌==◌, if◌then◌else◌,
  Result, ok, err, epipe, ebadf,
}
use libdill.Sched.{Cr, World, canblock, switch}
use libdill.Sched.Invariant.{Sound}
use libdill.Sched.Blocking.{wait_in, wait_in-Sound}
use libdill.Chan.{
  HalfChan, Chans, Call, returns, waits, chsend, chrecv, chdone, send_to, recv_from, resumed,
}
use libdill.Chan.Choose.{ChClause, chsend_op, chrecv_op, Choice, suspends, choose}
use libdill.Chan.Choosing.{Waits, choose-Sound}
use libdill.Chan.Safety.{chsend-chrecv-Sound}
use libdill.Chan.Delivery.{chrecv-chsend}
use libdill.Chan.Done.{Woken, chdone_lem}

-- The handles 5 and 6 stand for the two halves of the channel at 0.
abbrev ends : ℕ → Result ℕ
ends h = if h == 5 then ok 0 else if h == 6 then ok 1 else err ebadf

abbrev idle : Cr
idle = record {
  clauses = [];
  id = none;
  errno = none;
  queued = false;
  no_blocking1 = false;
  no_blocking2 = false;
}

abbrev open_half : Bool → HalfChan
open_half i = record { index = i; done = false; mem = true; closed = false }

-- The coroutine 0 runs and 1 is ready.
abbrev start : Chans
start = record {
  halves = λ ch. open_half (ch == 1);
  bytes = λ p. if p == 8 then 1 ∷ 2 ∷ 3 ∷ [] else [];
  world = record {
    crs = λ c. record idle { queued = c == 1 };
    r = 0;
    ready = 1 ∷ [];
    timers = [];
    last_poll = 0;
    lists = λ p. [];
  };
}

start-Sound : Sound start.world
start-Sound = record { waiters = λ p. tt; timed = tt; queued = (refl, tt); once = (tt, tt) }

transfer_example :
    ((c : Call) × (s' : Chans) × (chsend ends 5 8 3 none start ≡ some (c, s')) × Sound s'.world)
    × ((c : Call) × (s' : Chans) × (chrecv ends 5 8 3 none start ≡ some (c, s')) × Sound s'.world)
transfer_example = chsend-chrecv-Sound ends 5 8 3 none start start-Sound refl

start-free : canblock start.world ≡ ok tt
unfolding canblock
start-free = refl

delivery_example :
    (s1 : Chans) × (w2 : World) × (s3 : Chans) × (chrecv ends 6 9 2 none start ≡ some (waits, s1))
    × (switch s1.world ≡ some w2)
    × (w2.r ≡ 1)
    × (chsend ends 5 8 2 none (record s1 { world = w2 }) ≡ some (returns (ok 0), s3))
    × (s3.bytes 9 ≡ 1 ∷ 2 ∷ [])
    × (s3.world.ready ≡ 0 ∷ [])
    × (resumed 1 ((s3.world.crs 0).id, (s3.world.crs 0).errno) ≡ ok 0)
delivery_example =
    chrecv-chsend ends 5 6 0 9 8 2 none none start 1 [] start-Sound start-free refl refl refl refl
      refl refl refl refl refl

-- The coroutine 2 waits to receive from the half 1.
abbrev blocked : World
blocked = wait_in 2 0 9 2 (record start.world { r = 2 })

abbrev waiting : Chans
waiting = record start { world = record blocked { r = 0 } }

blocked-Sound : Sound blocked
blocked-Sound =
    wait_in-Sound 2 0 9 2 (record start.world { r = 2 })
      (record { waiters = λ p. tt; timed = tt; queued = (refl, tt); once = (tt, tt) }) refl

waiting-Sound : Sound waiting.world
waiting-Sound = record {
  waiters = blocked-Sound.waiters;
  timed = blocked-Sound.timed;
  queued = blocked-Sound.queued;
  once = blocked-Sound.once;
}

done_example :
    (s' : Chans) × (chdone ends 5 waiting ≡ some (returns (ok 0), s'))
    × Sound s'.world
    × (s'.world.lists 2 ≡ [])
    × (s'.world.lists 3 ≡ [])
    × All (λ x. Woken s'.world x.cr) (waiting.world.lists 2)
    × All (λ x. Woken s'.world x.cr) (waiting.world.lists 3)
    × ((val len : ℕ) (deadline : Option ℕ)
        → (send_to ends 1 val len deadline s' ≡ some (returns (err epipe), s'))
          × (recv_from ends 1 val len deadline s' ≡ some (returns (err epipe), s')))
done_example = chdone_lem ends 5 0 waiting waiting-Sound refl refl

abbrev clauses : List ChClause
clauses =
    record { op = chsend_op; ch = 5; val = 8; len = 3 }
    ∷ record { op = chrecv_op; ch = 5; val = 9; len = 2 }
    ∷ []

choose_example :
    (c : Choice) × (s' : Chans) × (choose ends clauses none start ≡ some (c, s'))
    × Sound s'.world
    × (c ≡ suspends → All (Waits ends start) clauses)
choose_example = choose-Sound ends clauses none start start-Sound refl
