-- ===== src/Sched/Waiting.antt =====
-- cr.c
-- `dill_wait` with a coroutine that is ready runs it, whether it polls or not.
use libdill.Base.{
  ℕ, zero, suc, ◌+◌, ◌<◌, ◌≡◌, refl, subst, ◌∙◌, ap, length, not, false, Bool-cases, Option-cases,
  inl, inr, none, some, List, ◌∷◌, ◌++◌, ltb, arith,
}
use libdill.Sched.{World, timeout_of}
use libdill.Sched.Invariant.{Sound, Running}
use libdill.Sched.Blocking.{switch-Sound, switched}
use libdill.Sched.Timers.{Sorted, fire_lem}
use libdill.Sched.Fairness.{fire-Keeps, Keeps}
use libdill.Sched.Pollset.{Event, fire_events, fire_events_lem}
use libdill.Sched.Wait.{Env, is_empty, pollset_poll, poll_loop, wait}

-- The system interrupts a poll that does not block at most so many times in a row.
abbrev pub Patient : {E : Type 0} → Env E → (E → ℕ) → Type 0
Patient {E} env patience =
    (w : World) (e : E)
    → (env.epoll_wait (some 0) w e).0 ≡ none
    → patience (env.epoll_wait (some 0) w e).1 < patience e

polled-Sound : (w : World) (n : ℕ) → Sound w → Sound (record w { last_poll = n })
polled-Sound w n h = record {
  waiters = h.waiters;
  timed = h.timed;
  queued = h.queued;
  once = h.once;
}

module _ {E : Type 0} (env : Env E) (patience : E → ℕ) (patient : Patient env patience) where
  interrupted :
      (w : World) (e : E)
      → (env.epoll_wait (some 0) w e).0 ≡ none
      → pollset_poll env (some 0) w e ≡ some (none, w, (env.epoll_wait (some 0) w e).1)
  unfolding pollset_poll
  interrupted w e h = rw (pollset_poll, h) refl

  answered :
      (w v : World) (e : E) (es : List Event)
      → (env.epoll_wait (some 0) w e).0 ≡ some es
      → fire_events env.in_slot env.out_slot es w ≡ some v
      → pollset_poll env (some 0) w e
        ≡ some (some (not (is_empty es)), v, (env.epoll_wait (some 0) w e).1)
  unfolding pollset_poll
  answered w v e es h k = rw (pollset_poll, h, k) refl

  -- The loop that polls without blocking ends once a poll is not interrupted.
  poll_loop-ready :
      (fuel nw : ℕ) (w : World) (e : E) (c : ℕ) (rest : List ℕ)
      → Sound w
      → Sorted w.timers
      → w.ready ≡ c ∷ rest
      → patience e < fuel
      → (w' : World) × (e' : E) × (rest' : List ℕ) × (poll_loop env fuel false nw w e
          ≡ some (w', e'))
        × Sound w'
        × (w'.ready ≡ c ∷ rest')
  unfolding poll_loop timeout_of
  poll_loop-ready zero nw w e c rest sound sorted next enough = absurd (omega (arith, enough))
  poll_loop-ready (suc fuel) nw w e c rest sound sorted next enough =
      elim (Option-cases (env.epoll_wait (some 0) w e).0) [
        | inl h ↦
            let fewer = patient w e h in
            let (w', e', rest', ran, sound', next') =
              poll_loop-ready fuel nw w (env.epoll_wait (some 0) w e).1 c rest sound sorted next
                (omega (arith, fewer, enough)) in
            (w', e', rest', rw (poll_loop, interrupted w e h) ran, sound', next')
        | inr (es, h) ↦
            let (w1, fired, f) = fire_events_lem env.in_slot env.out_slot es w sound sorted in
            let (more, queue) = f.queue in
            let (any, w2, ran, sound2, _, _, _) =
              fire_lem (suc (length w1.timers)) nw w1 f.sound f.sorted (omega arith) in
            let (more', queue') =
              subst (λ o. Keeps w1.ready o) ran (fire-Keeps (suc (length w1.timers)) nw w1) in
            (
              record w2 { last_poll = nw },
              (env.epoll_wait (some 0) w e).1,
              (rest ++ more) ++ more',
              rw (poll_loop, answered w w1 e es h fired, ran) refl,
              polled-Sound w2 nw sound2,
              queue' ∙ ap (λ l. l ++ more') (queue ∙ ap (λ l. l ++ more) next),
            )
      ]

  -- `dill_wait` of a sound scheduler with coroutines that are ready ends within one turn more than the
  -- system interrupts its poll, whatever events the poll gives. It meets no failed assertion and runs the
  -- first of them, which has no clause then; the scheduler stays sound.
  pub wait-ready :
      (fuel : ℕ) (w : World) (e : E) (c : ℕ) (rest : List ℕ)
      → Sound w
      → Sorted w.timers
      → w.ready ≡ c ∷ rest
      → patience (env.now e).1 < fuel
      → (w' : World) × (e' : E) × (wait env fuel w e ≡ some (w', e'))
        × (w'.r ≡ c)
        × Sound w'
        × Running w'
  unfolding wait
  wait-ready fuel w e c rest sound sorted next enough =
      let nw : ℕ = (env.now e).0 in
      let e1 : E = (env.now e).1 in
      let busy : is_empty w.ready ≡ false = ap is_empty next in
      elim (Bool-cases (ltb (w.last_poll + 1000) nw)) [
        | inl late ↦
            let (w1, e2, rest', ran, sound1, next1) =
              poll_loop-ready fuel nw w e1 c rest sound sorted next enough in
            let (switched_to, sound2, running) = switch-Sound c rest' w1 sound1 next1 in
            (
              switched c rest' w1,
              e2,
              rw (wait, busy, late, ran, switched_to) refl,
              refl,
              sound2,
              running,
            )
        | inr early ↦
            let (switched_to, sound2, running) = switch-Sound c rest w sound next in
            (switched c rest w, e1, rw (wait, busy, early, switched_to) refl, refl, sound2, running)
      ]
