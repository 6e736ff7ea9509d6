-- ===== src/Sched/Wait.antt =====
-- cr.c: `dill_wait`, which polls and fires timers until a coroutine is ready, and `dill_yield`.
use libdill.Base.{
  ℕ, zero, suc, ◌+◌, Bool, true, false, ◌||◌, not, Option, none, some, List, [], ◌∷◌, length, ltb,
  ◌==◌, if◌then◌else◌, Result, ok, err,
}
use libdill.Sched.Pollset.{Event, fire_events}
use libdill.Sched.{World, canblock, resume, fire, timeout_of, switch}

-- The clock, `dill_now`, and `epoll_wait`, which gives events, or `none` when it is interrupted. What it
-- looks at may depend on who waits.
pub record Env (E : Type 0) : Type 0 where
  pub now : E → ℕ × E
  pub epoll_wait : (timeout : Option ℕ) → World → E → Option (List Event) × E
  pub in_slot : ℕ → ℕ
  pub out_slot : ℕ → ℕ

abbrev pub is_empty : {A : Type 0} → List A → Bool
is_empty [] = true
is_empty (_ ∷ _) = false

-- `timeout != 0`
abbrev waits : Option ℕ → Bool
waits none = true
waits (some t) = not (t == 0)

module _ {E : Type 0} (env : Env E) where
  open env use {now, epoll_wait, in_slot, out_slot}

  -- `dill_pollset_poll`: whether there were events, or `none` for -1. A failed assertion gives no result.
  unfoldable pub pollset_poll : Option ℕ → World → E → Option (Option Bool × World × E)
  unfolding fire_events
  pollset_poll timeout w e =
      let (events, e') = epoll_wait timeout w e in
      elim events as (λ _. Option (Option Bool × World × E)) [
        | none ↦ some (none, w, e')
        | some es ↦
            elim (fire_events in_slot out_slot es w) as (λ _. Option (Option Bool × World × E)) [
              | none ↦ none
              | some w' ↦ some (some (not (is_empty es)), w', e')
            ]
      ]

  -- The loop of `dill_wait` that polls and fires timers, until something has happened.
  unfoldable pub poll_loop : (fuel : ℕ) (block : Bool) (nw : ℕ) → World → E → Option (World × E)
  unfolding timeout_of pollset_poll
  poll_loop zero block nw w e = none
  poll_loop (suc fuel) block nw w e =
      let timeout = timeout_of block nw w.timers in
      elim (pollset_poll timeout w e) as (λ _. Option (World × E)) [
        | none ↦ none
        | some (fired, w', e') ↦
            let (nw', e2) = if waits timeout then now e' else (nw, e') in
            let again = poll_loop fuel block nw' w' e2 in
            elim fired as (λ _. Option (World × E)) [
              | none ↦ again
              | some any_event ↦
                  elim (fire (suc (length w'.timers)) nw' w') as (λ _. Option (World × E)) [
                    | none ↦ none
                    | some (any, w2) ↦
                        let more = poll_loop fuel block nw' w2 e2 in
                        if not block || (any_event || any)
                        then some (record w2 { last_poll = nw' }, e2)
                        else more
                  ]
            ]
      ]

  -- `dill_wait` up to the switch, and with it.
  unfoldable pub wait : (fuel : ℕ) → World → E → Option (World × E)
  unfolding poll_loop switch
  wait fuel w e =
      let (nw, e') = now e in
      let polled =
        if is_empty w.ready || ltb (w.last_poll + 1000) nw
        then poll_loop fuel (is_empty w.ready) nw w e'
        else some (w, e') in
      elim polled as (λ _. Option (World × E)) [
        | none ↦ none
        | some (w', e2) ↦ elim (switch w') as (λ _. Option (World × E)) [
          | none ↦ none
          | some w2 ↦ some (w2, e2)
        ]
      ]

  -- `dill_yield`: the caller goes to the end of the queue.
  unfoldable pub yield : (fuel : ℕ) → World → E → Result (Unit {0}) × Option (World × E)
  unfolding canblock wait
  yield fuel w e = elim (canblock w) [
    | err er ↦ (err er, some (w, e))
    | ok _ ↦ (ok tt, wait fuel (resume w.r (some 0) none w) e)
  ]
