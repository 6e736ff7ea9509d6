-- ===== src/Sched/Pollset.antt =====
-- epoll.c.inc: what `dill_pollset_poll` does with the events that the system gives it.
-- The clause in `fdinfos[fd].in` or `.out` is the first waiter of the list at `in_slot fd` or `out_slot fd`;
-- an empty list is NULL. The list of changes, which only tells the system what to look at, is left out.
use libdill.Base.{
  ℕ, Bool, true, if◌then◌else◌, Option, none, some, List, [], ◌∷◌, ◌++◌, ◌≡◌, refl, sym, ◌∙◌, ap,
  List-cases, inl, inr, subst, All, false,
}
use mathlib.Core.List.{append_assoc, append-nil}
use libdill.Sched.{World, trigger}
use libdill.Sched.Clauses.{cancel_all-rest}
use libdill.Sched.Invariant.{Sound, Placed, docancel-Sound, woken_up}
use libdill.Sched.Timers.{Sorted, Sorted-cancel_all}

-- `struct epoll_event`: EPOLLIN or EPOLLOUT, or an error or hangup, which is both.
pub record Event : Type 0 where
  pub fd : ℕ
  pub readable : Bool
  pub writable : Bool

-- `if(fdi->in && ...) dill_trigger(&fdi->in->cl, 0);`
unfoldable pub fire_slot : (wanted : Bool) (slot : ℕ) → World → Option World
fire_slot wanted p w =
    if wanted
    then (elim (w.lists p) as (λ _. Option World) [
      | [] ↦ some w
      | x ∷ _ ↦ trigger x.cr x.id none w
    ])
    else some w

module _ (in_slot out_slot : ℕ → ℕ) where
  unfoldable pub fire_event : Event → World → Option World
  unfolding fire_slot
  fire_event e w = elim (fire_slot e.readable (in_slot e.fd) w) as (λ _. Option World) [
    | none ↦ none
    | some w' ↦ fire_slot e.writable (out_slot e.fd) w'
  ]

  -- The loop over the events.
  unfoldable pub fire_events : List Event → World → Option World
  unfolding fire_event
  fire_events [] w = some w
  fire_events (e ∷ es) w = elim (fire_event e w) as (λ _. Option World) [
    | none ↦ none
    | some w' ↦ fire_events es w'
  ]

-- `v` is sound, its timers are in order, and its queue is that of `w` with more behind it.
pub record Follows (w v : World) : Type 0 where
  pub sound : Sound v
  pub sorted : Sorted v.timers
  pub queue : (more : List ℕ) × (v.ready ≡ w.ready ++ more)

Follows-self : (w : World) → Sound w → Sorted w.timers → Follows w w
Follows-self w h s = record { sound = h; sorted = s; queue = ([], sym (append-nil w.ready)) }

Follows-trans : (u v w : World) → Follows u v → Follows v w → Follows u w
Follows-trans u v w f g =
    let (a, e) = f.queue in
    let (b, k) = g.queue in
    record {
      sound = g.sound;
      sorted = g.sorted;
      queue = (a ++ b, k ∙ ap (λ l. l ++ b) e ∙ append_assoc u.ready a b);
    }

-- An event meets no failed assertion: who waits for it is not queued.
fire_slot_lem :
    (wanted : Bool) (p : ℕ) (w : World)
    → Sound w
    → Sorted w.timers
    → (v : World) × (fire_slot wanted p w ≡ some v) × Follows w v
unfolding fire_slot
fire_slot_lem false p w h s = (w, refl, Follows-self w h s)
fire_slot_lem true p w h s = elim (List-cases (w.lists p)) [
  | inl l ↦ (w, rw l refl, Follows-self w h s)
  | inr (x, xs, l) ↦
      let first : Placed w p x = (subst (All (Placed w p)) l (h.waiters p)).0 in
      let (woken, sound) = docancel-Sound x.cr (some x.id) none w h first.0 in
      let rest = cancel_all-rest x.cr (w.crs x.cr).clauses w in
      (
        woken_up x.cr (some x.id) none w,
        rw l woken,
        record {
          sound = sound;
          sorted = Sorted-cancel_all x.cr (w.crs x.cr).clauses w s;
          queue = (x.cr ∷ [], ap (λ l. l ++ x.cr ∷ []) rest.1);
        },
      )
]

module _ (in_slot out_slot : ℕ → ℕ) where
  fire_event_lem :
      (e : Event) (w : World)
      → Sound w
      → Sorted w.timers
      → (v : World) × (fire_event in_slot out_slot e w ≡ some v) × Follows w v
  unfolding fire_event
  fire_event_lem e w h s =
      let (w1, ran1, f1) = fire_slot_lem e.readable (in_slot e.fd) w h s in
      let (w2, ran2, f2) = fire_slot_lem e.writable (out_slot e.fd) w1 f1.sound f1.sorted in
      (w2, rw (fire_event, ran1) ran2, Follows-trans w w1 w2 f1 f2)

  -- The loop over the events of a poll meets no failed assertion, whatever the events are.
  pub fire_events_lem :
      (es : List Event) (w : World)
      → Sound w
      → Sorted w.timers
      → (v : World) × (fire_events in_slot out_slot es w ≡ some v) × Follows w v
  unfolding fire_events
  fire_events_lem [] w h s = (w, refl, Follows-self w h s)
  fire_events_lem (e ∷ es) w h s =
      let (w1, ran1, f1) = fire_event_lem e w h s in
      let (w2, ran2, f2) = fire_events_lem es w1 f1.sound f1.sorted in
      (w2, rw (fire_events, ran1) ran2, Follows-trans w w1 w2 f1 f2)
