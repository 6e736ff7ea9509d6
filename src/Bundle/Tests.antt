-- ===== src/Bundle/Tests.antt =====
-- Runs of the bundles of cr.c, and the theorem at this input.
use libdill.Base.{
  ℕ, ◌≡◌, refl, false, none, some, [], ◌∷◌, ◌==◌, if◌then◌else◌, Result, ok, err, ebadf,
}
use libdill.Sched.{Cr, World, canblock, switch}
use libdill.Sched.Invariant.{Sound}
use libdill.Bundle.{Bundles, waits, bundle_wait, bundle_resumed, epilogue}
use libdill.Bundle.Ending.{bundle_wait-epilogue}

abbrev query : ℕ → Result ℕ
query h = if h == 4 then ok 7 else err ebadf

abbrev idle : Cr
idle = record {
  clauses = [];
  id = none;
  errno = none;
  queued = false;
  no_blocking1 = false;
  no_blocking2 = false;
}

-- The coroutine 0 runs, and 1 is ready and the only one in the bundle 7.
abbrev start : Bundles
start = record {
  world = record {
    crs = λ c. record idle { queued = c == 1 };
    r = 0;
    ready = 1 ∷ [];
    timers = [];
    last_poll = 0;
    lists = λ p. [];
  };
  members = λ b. if b == 7 then 1 ∷ [] else [];
  waiter = λ b. none;
  bundle_of = λ c. 7;
  closer = λ c. none;
  done = λ c. false;
}

start-Sound : Sound start.world
start-Sound = record { waiters = λ p. tt; timed = tt; queued = (refl, tt); once = (tt, tt) }

start-free : canblock start.world ≡ ok tt
unfolding canblock
start-free = refl

bundle_wait_example :
    (s1 : Bundles) × (w2 : World) × (s3 : Bundles) × (bundle_wait query 4 (some 9) start
      ≡ (waits, s1))
    × (switch s1.world ≡ some w2)
    × (w2.r ≡ 1)
    × (epilogue (record s1 { world = w2 }) ≡ some s3)
    × Sound s3.world
    × (s3.members 7 ≡ [])
    × (s3.world.ready ≡ 0 ∷ [])
    × (bundle_resumed ((s3.world.crs 0).id, (s3.world.crs 0).errno) ≡ ok 0)
bundle_wait_example =
    bundle_wait-epilogue query 4 1 [] (some 9) start start-Sound start-free refl refl refl refl refl
      refl
