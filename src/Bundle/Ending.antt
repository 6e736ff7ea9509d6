-- ===== src/Bundle/Ending.antt =====
-- cr.c
-- Who waits for a bundle is woken when its last coroutine ends.
use libdill.Base.{
  All, ℕ, ◌≡◌, refl, sym, subst, ◌∙◌, ap, true, false, Option, none, some, List, [], ◌∷◌, ◌++◌,
  Bool-cases, inl, inr, ◌==◌, if◌then◌else◌, arith, Result, ok,
}
use libdill.Sched.{
  World, Kind, in_timers, plain, canblock, trigger, docancel, waitfor, timer, switch,
}
use libdill.Sched.Clauses.{cancel_all-rest}
use libdill.Sched.Invariant.{Sound, woken_up, docancel-Sound}
use libdill.Sched.Blocking.{waitfor-Sound, waitfor-queued, timer-Sound, switched, switch-Sound}
use libdill.Chan.Delivery.{woken_up-Transferred, timer-ready}
use libdill.Bundle.{
  Bundles, waits, bundle_wait, bundle_resumed, epilogue, leave, no_clauses, is_single, erase,
}

-- The state in which the last coroutine of the bundle has left.
abbrev left : (b c : ℕ) → World → Bundles → Bundles
left b c w s = record s {
  world = w;
  done = λ j. if j == c then true else s.done j;
  members = λ j. if j == b then erase c (s.members b) else s.members j;
}

-- The part of the end that wakes the waiter.
leave-single :
    (s : Bundles) (c k i : ℕ) (w : World)
    → is_single (s.members (s.bundle_of c)) ≡ true
    → s.waiter (s.bundle_of c) ≡ some (k, i)
    → trigger k i none s.world ≡ some w
    → leave c s
      ≡ some (record s {
        world = w;
        members =
            λ j. if j == s.bundle_of c then erase c (s.members (s.bundle_of c)) else s.members j;
      })
unfolding leave
leave-single s c k i w alone waiting woken = rw (leave, alone, waiting, woken) refl

no_clauses-quiet : (s : Bundles) → (s.world.crs s.world.r).clauses ≡ [] → no_clauses s ≡ some s
no_clauses-quiet s h = rw (no_clauses, h) refl

-- The last coroutine of a bundle ends, nobody closes it, and its waiter has not been woken: the waiter is
-- queued for its clause.
epilogue-woken :
    (s : Bundles) (k i : ℕ)
    → Sound s.world
    → s.closer s.world.r ≡ none
    → (s.world.crs s.world.r).no_blocking1 ≡ false
    → (s.world.crs s.world.r).clauses ≡ []
    → (s.world.r == k) ≡ false
    → is_single (s.members (s.bundle_of s.world.r)) ≡ true
    → s.waiter (s.bundle_of s.world.r) ≡ some (k, i)
    → (s.world.crs k).queued ≡ false
    → (epilogue s
        ≡ some (left (s.bundle_of s.world.r) s.world.r (woken_up k (some i) none s.world) s))
      × Sound (woken_up k (some i) none s.world)
unfolding epilogue
epilogue-woken s k i sound unclosed open_yet quiet differs alone waiting suspended =
    let (woken, sound') = docancel-Sound k (some i) none s.world sound suspended in
    let rest = cancel_all-rest k (s.world.crs k).clauses s.world in
    let w : World = woken_up k (some i) none s.world in
    let same : (w.crs s.world.r) ≡ s.world.crs s.world.r =
      rw differs (ap (λ f. f s.world.r) rest.0) in
    let quiet' : (w.crs w.r).clauses ≡ [] =
      ap (λ j. (w.crs j).clauses) rest.2 ∙ ap (λ k. k.clauses) same ∙ quiet in
    let s1 : Bundles = record s { done = λ j. if j == s.world.r then true else s.done j } in
    (
      rw (epilogue, unclosed, open_yet, leave-single s1 s.world.r k i w alone waiting woken)
          (no_clauses-quiet (left (s.bundle_of s.world.r) s.world.r w s) quiet'),
      sound',
    )

-- The waiter has been woken already, by its deadline or because it is closed: the assertion fails.
epilogue-late :
    (s : Bundles) (k i : ℕ)
    → s.closer s.world.r ≡ none
    → (s.world.crs s.world.r).no_blocking1 ≡ false
    → is_single (s.members (s.bundle_of s.world.r)) ≡ true
    → s.waiter (s.bundle_of s.world.r) ≡ some (k, i)
    → (s.world.crs k).queued ≡ true
    → epilogue s ≡ none
unfolding epilogue leave docancel
epilogue-late s k i unclosed open_yet alone waiting queued =
    rw (epilogue, unclosed, open_yet, leave, alone, waiting, queued) refl

-- Clauses that are added leave the rest of a coroutine.
waitfor-rest :
    (i : ℕ) (k : Kind) (w : World) (j : ℕ)
    → (((waitfor i k w).crs j).queued ≡ (w.crs j).queued)
      × (((waitfor i k w).crs j).no_blocking1 ≡ (w.crs j).no_blocking1)
waitfor-rest i k w j = elim (Bool-cases (j == w.r)) [
  | inl e ↦
      let same : w.r ≡ j = ground arith in
      rw e (ap (λ m. (w.crs m).queued) same, ap (λ m. (w.crs m).no_blocking1) same)
  | inr e ↦ rw e (refl, refl)
]

timer-rest :
    (i : ℕ) (d : Option ℕ) (w : World) (j : ℕ)
    → (((timer i d w).crs j).queued ≡ (w.crs j).queued)
      × (((timer i d w).crs j).no_blocking1 ≡ (w.crs j).no_blocking1)
      × ((timer i d w).r ≡ w.r)
timer-rest i none w j = (refl, refl, refl)
timer-rest i (some d) w j = let (q, b) = waitfor-rest i in_timers w j in (q, b, refl)

true-false : true ≡ false → ⊥
true-false e = ground arith

not_same :
    (i j : ℕ) (w : World) → (w.crs i).queued ≡ true → (w.crs j).queued ≡ false → (i == j) ≡ false
not_same i j w q f = elim (Bool-cases (i == j)) [
  | inl e ↦
      let same : i ≡ j = ground arith in
      absurd (true-false (sym q ∙ ap (λ m. (w.crs m).queued) same ∙ f))
  | inr e ↦ e
]

-- The coroutine that runs next.
switched_self :
    (c : ℕ) (rest : List ℕ) (w : World)
    → (((switched c rest w).crs c).no_blocking1 ≡ (w.crs c).no_blocking1)
      × (((switched c rest w).crs c).clauses ≡ [])
switched_self c rest w = let self : (c == c) ≡ true = ground arith in rw self (refl, refl)

-- A coroutine waits for a bundle with one coroutine, which is next and then ends, unless somebody closes
-- it: the end meets no failed assertion, the bundle is empty, and the one who waits is queued and returns
-- without an error.
pub bundle_wait-epilogue :
    (hquery : ℕ → Result ℕ) (h c : ℕ) (rest : List ℕ) (deadline : Option ℕ) (s : Bundles)
    → Sound s.world
    → canblock s.world ≡ ok tt
    → (s.world.crs s.world.r).queued ≡ false
    → s.world.ready ≡ c ∷ rest
    → hquery h ≡ ok (s.bundle_of c)
    → s.members (s.bundle_of c) ≡ c ∷ []
    → s.closer c ≡ none
    → (s.world.crs c).no_blocking1 ≡ false
    → (s1 : Bundles) × (w2 : World) × (s3 : Bundles) × (bundle_wait hquery h deadline s
        ≡ (waits, s1))
      × (switch s1.world ≡ some w2)
      × (w2.r ≡ c)
      × (epilogue (record s1 { world = w2 }) ≡ some s3)
      × Sound s3.world
      × (s3.members (s.bundle_of c) ≡ [])
      × (s3.world.ready ≡ rest ++ s.world.r ∷ [])
      × (bundle_resumed ((s3.world.crs s.world.r).id, (s3.world.crs s.world.r).errno) ≡ ok 0)
unfolding bundle_wait bundle_resumed
bundle_wait-epilogue hquery h c rest deadline s sound free run next found alone unclosed open_yet =
    let b : ℕ = s.bundle_of c in
    let p : ℕ = s.world.r in
    let w1 : World = timer 1 deadline (waitfor 0 plain s.world) in
    let s1 : Bundles = record s {
      waiter = λ j. if j == b then some (p, 0) else s.waiter j;
      world = w1;
    } in
    let after = timer-rest 1 deadline (waitfor 0 plain s.world) in
    let before = waitfor-rest 0 plain s.world in
    let sound1 =
      timer-Sound 1 deadline (waitfor 0 plain s.world) (waitfor-Sound 0 plain s.world sound)
        (waitfor-queued 0 plain s.world run) in
    let ready1 : w1.ready ≡ c ∷ rest = timer-ready 1 deadline (waitfor 0 plain s.world) ∙ next in
    let (ran, sound2, _) = switch-Sound c rest w1 sound1 ready1 in
    let w2 : World = switched c rest w1 in
    let s2 : Bundles = record s1 { world = w2 } in
    let self : (b == b) ≡ true = ground arith in
    let queued : (s.world.crs c).queued ≡ true =
      (subst (λ l. All (λ j. (s.world.crs j).queued ≡ true) l) next sound.queued).0 in
    let differs : (c == p) ≡ false = not_same c p s.world queued run in
    let differs' : (p == c) ≡ false = ground arith in
    let suspended : (w2.crs p).queued ≡ false = rw differs' ((after p).0 ∙ (before p).0 ∙ run) in
    let me = switched_self c rest w1 in
    let (ends, sound3) =
      epilogue-woken s2 p 0 sound2 unclosed (me.0 ∙ (after c).1 ∙ (before c).1 ∙ open_yet) me.1
        differs (ap is_single alone) (rw self refl) suspended in
    let w3 : World = woken_up p (some 0) none w2 in
    let (_, id, errno) = woken_up-Transferred p 0 w2 in
    let self' : (c == c) ≡ true = ground arith in
    (
      s1,
      w2,
      left b c w3 s2,
      rw (bundle_wait, free, found, alone) refl,
      ran,
      refl,
      ends,
      sound3,
      rw (self, alone, self') refl,
      ap (λ l. l ++ p ∷ []) (cancel_all-rest p (w2.crs p).clauses w2).1,
      rw (id) refl,
    )
